-- ===== src/Events/Ranges.antt =====
-- internal/db/event_consumer.go: ranges in order, and what a cut does to them.
use solve.Prelude.{
  ℕ, ◌≤◌, ◌<◌, true, false, not, ◌&&◌, ◌||◌, none, some, List, [], ◌∷◌, ◌++◌, ◌≡◌, refl, arith, ◌⊎◌,
  inl, inr, ◌==◌, Bool-cases, Option-cases,
}
use solve.Events.{EventRange, range_contains, in_ranges, cut_range, pass_range, seek}

-- Ranges from `lo` on in ascending order that do not meet; only the last one may have no limit.
unfoldable pub IsRanges : ℕ → List EventRange → Type 0
IsRanges lo [] = Unit
IsRanges lo (r ∷ rs) =
    (lo ≤ r.begin)
    × (((r.end ≡ 0) × (rs ≡ [])) ⊎ ((0 < r.end) × (r.begin ≤ r.end) × IsRanges r.end rs))

pub in_ranges-append :
    (rs qs : List EventRange) (x : ℕ) → in_ranges (rs ++ qs) x ≡ (in_ranges rs x || in_ranges qs x)
unfolding in_ranges
in_ranges-append [] qs x = refl
in_ranges-append (r ∷ rs) qs x = ground (arith, in_ranges-append rs qs x)

pub IsRanges-weaken :
    (lo lo' : ℕ) (rs : List EventRange) → lo ≤ lo' → IsRanges lo' rs → IsRanges lo rs
unfolding IsRanges
IsRanges-weaken lo lo' [] h k = tt
IsRanges-weaken lo lo' (r ∷ rs) h k = (omega (arith, h, k.0), k.1)

pub in_ranges-below :
    (lo : ℕ) (rs : List EventRange) (x : ℕ) → IsRanges lo rs → in_ranges rs x ≡ true → lo ≤ x
unfolding IsRanges in_ranges range_contains
in_ranges-below lo [] x k h = absurd (ground arith)
in_ranges-below lo (r ∷ rs) x (a, inl (e, n)) h = ground (arith, n, h)
in_ranges-below lo (r ∷ rs) x (a, inr (p, b, k)) h = ground (arith, h, in_ranges-below r.end rs x k)

-- What a search that succeeds leaves: `skipped` lies below `from`, `found` from there on.
pub record IsCut (lo : ℕ) (rs : List EventRange) (id : ℕ) (skipped found : List EventRange)
    : Type 0 where
  pub from : ℕ
  pub low : lo ≤ from
  pub reach : from ≤ id
  pub found_ok : IsRanges from found
  pub glue : (qs : List EventRange) → IsRanges from qs → IsRanges lo (skipped ++ qs)
  pub below : (x : ℕ) → in_ranges skipped x ≡ true → x < from
  pub same :
      (x : ℕ) → (in_ranges skipped x || in_ranges found x) ≡ (in_ranges rs x && not (x == id))
  pub was : in_ranges rs id ≡ true

cut_range-IsRanges :
    (lo : ℕ) (r : EventRange) (rs : List EventRange) (id : ℕ)
    → IsRanges lo (r ∷ rs)
    → range_contains r id ≡ true
    → IsRanges lo (cut_range r id rs)
unfolding IsRanges cut_range range_contains
cut_range-IsRanges lo r rs id (a, h) c = elim (Bool-cases (id == r.begin)) [
  | inl first ↦ rw first (omega arith, ground (arith, h, c, first))
  | inr later ↦
      rw later (
        a,
        inr (ground (arith, h, c, later), ground (arith, c), (omega arith, ground (arith, h, c))),
      )
]

cut_range-same :
    (lo : ℕ) (r : EventRange) (rs : List EventRange) (id x : ℕ)
    → IsRanges lo (r ∷ rs)
    → range_contains r id ≡ true
    → in_ranges (cut_range r id rs) x ≡ (in_ranges (r ∷ rs) x && not (x == id))
unfolding IsRanges cut_range range_contains in_ranges
cut_range-same lo r rs id x (a, inl (e, n)) c = ground (arith, n, e, c)
cut_range-same lo r rs id x (a, inr (p, b, k)) c = ground (arith, c, in_ranges-below r.end rs x k)

pass-IsCut :
    (lo : ℕ) (r : EventRange) (rs : List EventRange) (id : ℕ) (skipped found : List EventRange)
    → lo ≤ r.begin
    → 0 < r.end
    → r.begin ≤ r.end
    → IsRanges r.end rs
    → range_contains r id ≡ false
    → IsCut r.end rs id skipped found
    → IsCut lo (r ∷ rs) id (r ∷ skipped) found
unfolding IsRanges in_ranges range_contains
pass-IsCut lo r rs id skipped found a p b k passed cut = record {
  from = cut.from;
  low = omega (arith, a, b, cut.low);
  reach = cut.reach;
  found_ok = cut.found_ok;
  glue = λ qs q. (a, inr (p, b, cut.glue qs q));
  below = λ x h. ground (arith, h, cut.below x, cut.low, p);
  same = λ x. ground (arith, cut.same x, passed);
  was = ground (arith, cut.was);
}

pub seek-IsCut :
    (lo : ℕ) (rs : List EventRange) (id : ℕ) (skipped found : List EventRange)
    → IsRanges lo rs
    → seek rs id ≡ some (skipped, found)
    → IsCut lo rs id skipped found
unfolding seek IsRanges in_ranges pass_range range_contains
seek-IsCut lo [] id skipped found k h = absurd (ground arith)
seek-IsCut lo (r ∷ rs) id skipped found k h = elim (Bool-cases (range_contains r id)) [
  | inl here' ↦
      let e₀ : skipped ≡ [] = ground (arith, here', h) in
      let e₁ : found ≡ cut_range r id rs = ground (arith, here', h) in
      rw (e₀, e₁)
        (record {
          from = lo;
          low = omega arith;
          reach = ground (arith, k.0, here');
          found_ok = cut_range-IsRanges lo r rs id k here';
          glue = λ qs q. q;
          below = λ x b. absurd (ground (arith, b));
          same = λ x. cut_range-same lo r rs id x k here';
          was = ground (arith, here');
        })
  | inr passed ↦ elim (Option-cases (seek rs id)) [
    | inl none' ↦ absurd (ground (arith, passed, none', h))
    | inr ((s', t'), found') ↦ elim k.1 [
      | inl (_, n) ↦ absurd (ground (arith, n, found'))
      | inr (p, b, rest) ↦
          let e₀ : skipped ≡ r ∷ s' = ground (arith, passed, found', h) in
          let e₁ : found ≡ t' = ground (arith, passed, found', h) in
          rw (e₀, e₁)
            (pass-IsCut lo r rs id s' t' k.0 p b rest passed
              (seek-IsCut r.end rs id s' t' rest found'))
    ]
  ]
]

-- A search fails on IDs of no range only.
pub seek-none : (rs : List EventRange) (id : ℕ) → seek rs id ≡ none → in_ranges rs id ≡ false
unfolding seek in_ranges pass_range
seek-none [] id h = refl
seek-none (r ∷ rs) id h = elim (Bool-cases (range_contains r id)) [
  | inl here' ↦ absurd (ground (arith, here', h))
  | inr passed ↦ elim (Option-cases (seek rs id)) [
    | inl none' ↦ ground (arith, passed, seek-none rs id none')
    | inr (p, found) ↦ absurd (ground (arith, passed, found, h))
  ]
]
