-- ===== src/Events/Dropped.antt =====
-- internal/db/event_consumer.go: what removing empty ranges and skipping gaps leaves pending.
use solve.Prelude.{
  if◌then◌else◌, ap, leb, zero, ◌&&◌, ◌⊎◌, ℕ, suc, ◌+◌, ◌-◌, ◌≤◌, ◌<◌, Bool, false, not, some, List,
  [], ◌∷◌, ◌++◌, ◌≡◌, refl, arith, inl, inr, ◌==◌, Bool-cases, Option-cases, length, drop, select,
}
use solve.Events.{EventRange, range_contains, in_ranges, cut_range, pass_range, seek}
use solve.Events.Ranges.{in_ranges-below, IsRanges, IsRanges-weaken}

-- Empty ranges hold no ID.
pub select-in_ranges :
    (lo : ℕ) (rs : List EventRange) (x : ℕ)
    → IsRanges lo rs
    → 0 < lo
    → in_ranges (select (λ r. not (r.begin == r.end)) rs) x ≡ in_ranges rs x
unfolding in_ranges range_contains IsRanges
select-in_ranges lo [] x k p = refl
select-in_ranges lo (r ∷ rs) x (a, inl (e, n)) p =
    let full : (r.begin == r.end) ≡ false = ground (arith, a, p, e) in rw full (rw n refl)
select-in_ranges lo (r ∷ rs) x (a, inr (q, b, k)) p =
    let ih = select-in_ranges r.end rs x k q in
    elim (Bool-cases (r.begin == r.end)) [
      | inl empty ↦ rw empty (ground (arith, ih, empty))
      | inr full ↦ rw full (ground (arith, ih))
    ]

pub select-IsRanges :
    (lo : ℕ) (rs : List EventRange)
    → IsRanges lo rs
    → IsRanges lo (select (λ r. not (r.begin == r.end)) rs)
unfolding IsRanges
select-IsRanges lo [] k = tt
select-IsRanges lo (r ∷ rs) (a, inl (e, n)) = elim (Bool-cases (r.begin == r.end)) [
  | inl empty ↦ rw (empty, n) tt
  | inr full ↦ rw full (a, inl (e, rw n refl))
]
select-IsRanges lo (r ∷ rs) (a, inr (q, b, k)) = elim (Bool-cases (r.begin == r.end)) [
  | inl empty ↦
      rw empty (IsRanges-weaken lo r.end _ (omega (arith, a, b)) (select-IsRanges r.end rs k))
  | inr full ↦ rw full (a, inr (q, b, select-IsRanges r.end rs k))
]

pub length-select :
    (p : EventRange → Bool) (rs : List EventRange) → length (select p rs) ≤ length rs
length-select p [] = omega arith
length-select p (r ∷ rs) = ground (arith, length-select p rs)

pub length-seek :
    (rs : List EventRange) (id : ℕ) {skipped found : List EventRange}
    → seek rs id ≡ some (skipped, found)
    → length skipped + length found ≤ suc (length rs)
unfolding seek pass_range cut_range
length-seek [] id h = absurd (ground arith)
length-seek (r ∷ rs) id {skipped} {found} h = elim (Bool-cases (range_contains r id)) [
  | inl here' ↦
      let e₀ : skipped ≡ [] = ground (arith, here', h) in
      let e₁ : found ≡ cut_range r id rs = ground (arith, here', h) in rw (e₀, e₁) (ground arith)
  | inr passed ↦ elim (Option-cases (seek rs id)) [
    | inl none' ↦ absurd (ground (arith, passed, none', h))
    | inr ((s', t'), found') ↦
        let e₀ : skipped ≡ r ∷ s' = ground (arith, passed, found', h) in
        let e₁ : found ≡ t' = ground (arith, passed, found', h) in
        let ih = length-seek rs id {skipped = s'} {found = t'} found' in
        rw (e₀, e₁) (omega (arith, ih))
  ]
]

pub length-append : (rs qs : List EventRange) → length (rs ++ qs) ≡ length rs + length qs
length-append [] qs = omega arith
length-append (r ∷ rs) qs = omega (arith, length-append rs qs)

pub length-drop : (n : ℕ) (rs : List EventRange) → length (drop n rs) ≡ length rs - n
length-drop zero rs = omega arith
length-drop (suc n) [] = omega arith
length-drop (suc n) (r ∷ rs) = omega (arith, length-drop n rs)

-- Ranges of which the first ones were dropped: what lies below some ID is gone.
pub record IsDropped (lo n : ℕ) (rs : List EventRange) : Type 0 where
  pub floor : ℕ
  pub nothing : n ≡ 0 → floor ≡ 0
  pub same : (x : ℕ) → in_ranges (drop n rs) x ≡ (in_ranges rs x && leb floor x)
  pub ranges_ok : IsRanges lo (drop n rs)

pub drop-IsDropped :
    (lo n : ℕ) (rs : List EventRange)
    → IsRanges lo rs
    → (n ≡ 0) ⊎ (n < length rs)
    → IsDropped lo n rs
unfolding IsRanges in_ranges range_contains
drop-IsDropped lo zero rs k h = record {
  floor = 0;
  nothing = λ e. refl;
  same = λ x. ground arith;
  ranges_ok = k;
}
drop-IsDropped lo (suc n) [] k h = absurd (omega (arith, h))
drop-IsDropped lo (suc n) (r ∷ rs) (a, inl (e, nil)) h = absurd (omega (arith, h, ap length nil))
drop-IsDropped lo (suc n) (r ∷ rs) (a, inr (q, b, k)) h =
    let d = drop-IsDropped r.end n rs k (inr (omega (arith, h))) in
    record {
      floor = if leb d.floor r.end then r.end else d.floor;
      nothing = λ e. absurd (omega (arith, e));
      same = λ x. ground (arith, d.same x, q, b, in_ranges-below r.end rs x k);
      ranges_ok = IsRanges-weaken lo r.end (drop n rs) (omega (arith, a, b)) d.ranges_ok;
    }
