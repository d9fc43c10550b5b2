-- ===== src/Prelude/Sort.antt =====
-- Go's `sort.Sort` over a comparison. It need not be stable, so a program may rely only on the
-- result being an ordered permutation; this one inserts each element into the sorted rest.
use solve.Prelude.Tests.{if◌then◌else◌, Bool-cases}
use solve.Prelude.Lists.{All, Ordered}
use mathlib.Core.Path.{◌≡◌}
use mathlib.Core.Logic.{inl, inr}
use mathlib.Core.Bool.{Bool, true, false}
use mathlib.Core.List.{List, [], ◌∷◌, Perm}
use mathlib.Core.List.Perm

module _ {ℓ} {A : Type ℓ} (less : A → A → Bool) where
  -- an element goes behind those that it is not less than
  unfoldable pub insert_sorted : A → List A → List A
  insert_sorted x [] = x ∷ []
  insert_sorted x (y ∷ ys) = if less x y then x ∷ y ∷ ys else y ∷ insert_sorted x ys

  unfoldable pub sort_func : List A → List A
  unfolding insert_sorted
  sort_func [] = []
  sort_func (x ∷ xs) = insert_sorted x (sort_func xs)

  -- No later element is less than an earlier one.
  abbrev pub IsSorted : List A → Type 0
  IsSorted = Ordered (λ a b. less b a ≡ false)

  insert_sorted-perm : (x : A) (ys : List A) → Perm (insert_sorted x ys) (x ∷ ys)
  unfolding insert_sorted
  insert_sorted-perm x [] = Perm.refl (x ∷ [])
  insert_sorted-perm x (y ∷ ys) = elim (Bool-cases (less x y)) [
    | inl h ↦ rw h (Perm.refl (x ∷ y ∷ ys))
    | inr h ↦ rw h (Perm.trans (Perm.cons y (insert_sorted-perm x ys)) (Perm.swap x y ys))
  ]

  pub sort_func-perm : (xs : List A) → Perm (sort_func xs) xs
  unfolding sort_func
  sort_func-perm [] = Perm.refl []
  sort_func-perm (x ∷ xs) =
      Perm.trans (insert_sorted-perm x (sort_func xs)) (Perm.cons x (sort_func-perm xs))

  module _ {κ} (P : A → Type κ) where
    insert_sorted-All : (x : A) (ys : List A) → P x → All P ys → All P (insert_sorted x ys)
    unfolding insert_sorted
    insert_sorted-All x [] p h = (p, tt)
    insert_sorted-All x (y ∷ ys) p h = elim (Bool-cases (less x y)) [
      | inl e ↦ rw e (p, h)
      | inr e ↦ rw e (h.0, insert_sorted-All x ys p h.1)
    ]

    pub sort_func-All : (xs : List A) → All P xs → All P (sort_func xs)
    unfolding sort_func
    sort_func-All [] h = tt
    sort_func-All (x ∷ xs) h = insert_sorted-All x (sort_func xs) h.0 (sort_func-All xs h.1)

  module _ {κ} (P : A → Type κ) where
    -- A strict weak order on the elements with the property `P`.
    pub record IsWeakOrder : Type (ℓ ⊔ κ) where
      pub asym : (a b : A) → P a → P b → less a b ≡ true → less b a ≡ false
      pub negtrans :
          (a b c : A) → P a → P b → P c → less a b ≡ false → less b c ≡ false → less a c ≡ false

    module _ (w : IsWeakOrder) where
      below_all :
          (x y : A) (ys : List A)
          → P x
          → P y
          → All P ys
          → less y x ≡ false
          → All (λ b. less b y ≡ false) ys
          → All (λ b. less b x ≡ false) ys
      below_all x y [] px py ps h k = tt
      below_all x y (z ∷ zs) px py ps h k =
          (w.negtrans z y x ps.0 py px k.0 h, below_all x y zs px py ps.1 h k.1)

      insert_sorted-IsSorted :
          (x : A) (ys : List A) → P x → All P ys → IsSorted ys → IsSorted (insert_sorted x ys)
      unfolding insert_sorted
      insert_sorted-IsSorted x [] p ps s = (tt, tt)
      insert_sorted-IsSorted x (y ∷ ys) p ps s = elim (Bool-cases (less x y)) [
        | inl e ↦
            let e' = w.asym x y p ps.0 e in rw e ((e', below_all x y ys p ps.0 ps.1 e' s.0), s)
        | inr e ↦ rw e (
          insert_sorted-All (λ b. less b y ≡ false) x ys e s.0,
          insert_sorted-IsSorted x ys p ps.1 s.1,
        )
      ]

      pub sort_func-IsSorted : (xs : List A) → All P xs → IsSorted (sort_func xs)
      unfolding sort_func
      sort_func-IsSorted [] h = tt
      sort_func-IsSorted (x ∷ xs) h =
          insert_sorted-IsSorted x (sort_func xs) h.0 (sort_func-All P xs h.1)
            (sort_func-IsSorted xs h.1)
