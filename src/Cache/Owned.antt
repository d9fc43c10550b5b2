-- ===== src/Cache/Owned.antt =====
-- internal/pkg/cache/cache.go: a resource against the number of those who own it.
use solve.Prelude.{
  ℕ, suc, ◌+◌, ◌^◌, ◌<◌, ◌≤◌, Bool, true, false, none, some, List, [], ◌∷◌, ◌++◌, Error, ◌≡◌, refl,
  ap, ◌∙◌, arith, ◌⊎◌, inl, inr, Bool-cases, ◌==◌, In, here, there,
}
use solve.Prelude.Int.{pos, negsuc, add64, add64_exact, ◌+ℤ◌, eqb_ℤ}
use solve.Cache.{Resource, lookup, remove, drop_counter}

abbrev pub one : Bool → ℕ
one true = 1
one false = 0

-- How many elements of a list own an ID.
abbrev pub tally : {A : Type 0} → (A → ℕ) → List A → ℕ → ℕ
tally g [] i = 0
tally g (x ∷ xs) i = one (g x == i) + tally g xs i

abbrev pub entry_id : ℕ × ℕ → ℕ
entry_id entry = entry.1

module _ {A : Type 0} (g : A → ℕ) where
  pub tally-middle :
      (xs : List A) (a : A) (ys : List A) (i : ℕ)
      → tally g (xs ++ (a ∷ ys)) i ≡ one (g a == i) + tally g (xs ++ ys) i
  tally-middle [] a ys i = refl
  tally-middle (x ∷ xs) a ys i = omega (arith, tally-middle xs a ys i)

  pub tally-In : (xs : List A) (a : A) → In a xs → 0 < tally g xs (g a)
  tally-In [] a m = elim m [ ]
  tally-In (x ∷ xs) a here = ground arith
  tally-In (x ∷ xs) a (there m) = ground (arith, tally-In xs a m)

  pub In-middle :
      (xs : List A) (a b : A) (ys : List A) → In b (xs ++ (a ∷ ys)) → (b ≡ a) ⊎ In b (xs ++ ys)
  In-middle [] a b ys here = inl refl
  In-middle [] a b ys (there m) = inr m
  In-middle (x ∷ xs) a b ys here = inr here
  In-middle (x ∷ xs) a b ys (there m) = elim (In-middle xs a b ys m) [
    | inl e ↦ inl e
    | inr n ↦ inr (there n)
  ]

  pub middle-In : (xs : List A) (a : A) (ys : List A) → In a (xs ++ (a ∷ ys))
  middle-In [] a ys = here
  middle-In (x ∷ xs) a ys = there (middle-In xs a ys)

  pub middle-there : (xs : List A) (a b : A) (ys : List A) → In b (xs ++ ys) → In b (xs ++ (a ∷ ys))
  middle-there [] a b ys m = there m
  middle-there (x ∷ xs) a b ys here = here
  middle-there (x ∷ xs) a b ys (there m) = there (middle-there xs a b ys m)

pub tally-remove :
    (entries : List (ℕ × ℕ)) (key r i : ℕ)
    → lookup entries key ≡ some r
    → tally entry_id entries i ≡ one (r == i) + tally entry_id (remove entries key) i
unfolding lookup remove
tally-remove [] key r i h = absurd (ground (arith, h))
tally-remove (entry ∷ entries) key r i h = elim (Bool-cases (entry.0 == key)) [
  | inl same ↦ let e : entry.1 ≡ r = ground (arith, rw same at h) in rw (same, e) refl
  | inr other ↦
      let ih = tally-remove entries key r i (rw other at h) in rw other (omega (arith, ih))
]

pub remove-none :
    (entries : List (ℕ × ℕ)) (key : ℕ) → lookup entries key ≡ none → remove entries key ≡ entries
unfolding lookup remove
remove-none [] key h = refl
remove-none (entry ∷ entries) key h = elim (Bool-cases (entry.0 == key)) [
  | inl same ↦ absurd (ground (arith, rw same at h))
  | inr other ↦ rw other (ap (◌∷◌ entry) (remove-none entries key (rw other at h)))
]

pub tally-lookup :
    (entries : List (ℕ × ℕ)) (key r : ℕ)
    → lookup entries key ≡ some r
    → 0 < tally entry_id entries r
tally-lookup entries key r h = ground (arith, tally-remove entries key r r h)

-- What a resource looks like while it is loaded, after that failed, while it is held, and after it
-- was released; with the numbers of its owners, of the loads that run, and of its cache entries.
pub data Status {V : Type 0} (r : Resource V) (owners running cached : ℕ) : Type 0 where
  loading :
      r.done ≡ false
      → r.resource ≡ none
      → r.error ≡ none
      → r.released ≡ 0
      → running ≡ 1
      → cached ≡ 0
      → Status r owners running cached
  broken :
      (e : Error)
      → r.done ≡ true
      → r.resource ≡ none
      → r.error ≡ some e
      → r.released ≡ 0
      → running ≡ 0
      → cached ≡ 0
      → Status r owners running cached
  held :
      (v : V)
      → r.done ≡ true
      → r.resource ≡ some v
      → r.error ≡ none
      → r.released ≡ 0
      → running ≡ 0
      → 0 < owners
      → Status r owners running cached
  gone :
      r.done ≡ true
      → r.resource ≡ none
      → r.error ≡ none
      → r.released ≡ 1
      → running ≡ 0
      → owners ≡ 0
      → Status r owners running cached

pub record IsCounted {V : Type 0} (r : Resource V) (owners running cached : ℕ) : Type 0 where
  pub count : r.counter ≡ pos owners
  pub fits : owners < 2 ^ 63
  pub status : Status r owners running cached

pub add64_1 : (n : ℕ) → n + 1 < 2 ^ 63 → add64 (pos n) (pos 1) ≡ pos (suc n)
unfolding ◌+ℤ◌
add64_1 n h = add64_exact (pos n) (pos 1) (ground (arith, h)) ∙ ground arith

pub sub64_1 : (n : ℕ) → suc n < 2 ^ 63 → add64 (pos (suc n)) (negsuc 0) ≡ pos n
unfolding ◌+ℤ◌
sub64_1 n h = add64_exact (pos (suc n)) (negsuc 0) (ground (arith, h)) ∙ ground arith

module _ {V : Type 0} where
  pub acquire-IsCounted :
      (r : Resource V) (n running cached : ℕ)
      → IsCounted r n running cached
      → 0 < n
      → suc n < 2 ^ 63
      → IsCounted (record r { counter = pos (suc n) }) (suc n) running cached
  acquire-IsCounted r n running cached k some' room = record {
    count = refl;
    fits = room;
    status = elim k.status [
      | loading a b c d e f ↦ loading a b c d e f
      | broken x a b c d e f ↦ broken x a b c d e f
      | held v a b c d e f ↦ held v a b c d e (omega arith)
      | gone a b c d e f ↦ absurd (omega (arith, some', f))
    ];
  }

  -- One owner less, be it a reference or an entry of the cache.
  pub drop_counter-IsCounted :
      (r : Resource V) (n running cached cached' : ℕ)
      → cached' ≤ cached
      → IsCounted r (suc n) running cached
      → IsCounted (drop_counter r) n running cached'
  unfolding drop_counter
  drop_counter-IsCounted r n running cached cached' less k =
      let counter : add64 r.counter (negsuc 0) ≡ pos n =
        ap (λ c. add64 c (negsuc 0)) k.count ∙ sub64_1 n k.fits in
      elim k.status [
        | loading a b c d e f ↦
            rw (b, drop_counter)
              (record {
                count = counter;
                fits = omega (arith, k.fits);
                status = loading a b c d e (omega (arith, f, less));
              })
        | broken x a b c d e f ↦
            rw (b, drop_counter)
              (record {
                count = counter;
                fits = omega (arith, k.fits);
                status = broken x a b c d e (omega (arith, f, less));
              })
        | gone a b c d e f ↦ absurd (omega (arith, f))
        | held v a b c d e f ↦ elim (Bool-cases (n == 0)) [
          | inl last ↦
              let zero' : eqb_ℤ (add64 r.counter (negsuc 0)) (pos 0) ≡ true =
                rw counter (ground (arith, last)) in
              rw (b, drop_counter, zero')
                (record {
                  count = counter;
                  fits = omega (arith, k.fits);
                  status = gone a refl c (ap suc d) e (ground (arith, last));
                })
          | inr more ↦
              let some' : eqb_ℤ (add64 r.counter (negsuc 0)) (pos 0) ≡ false =
                rw counter (ground (arith, more)) in
              rw (b, drop_counter, some')
                (record {
                  count = counter;
                  fits = omega (arith, k.fits);
                  status = held v a b c d e (ground (arith, more));
                })
        ]
      ]

  pub fewer-IsCounted :
      (r : Resource V) (n running cached cached' : ℕ)
      → cached' ≤ cached
      → IsCounted r n running cached
      → IsCounted r n running cached'
  fewer-IsCounted r n running cached cached' less k = record {
    count = k.count;
    fits = k.fits;
    status = elim k.status [
      | loading a b c d e f ↦ loading a b c d e (omega (arith, f, less))
      | broken x a b c d e f ↦ broken x a b c d e (omega (arith, f, less))
      | held v a b c d e f ↦ held v a b c d e f
      | gone a b c d e f ↦ gone a b c d e f
    ];
  }

  pub eq-IsCounted :
      (r : Resource V) (n n' running running' cached : ℕ)
      → n' ≡ n
      → running' ≡ running
      → IsCounted r n running cached
      → IsCounted r n' running' cached
  eq-IsCounted r n n' running running' cached a b k = rw (a, b) k
