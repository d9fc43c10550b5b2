-- ===== src/Cache/Cells.antt =====
-- internal/pkg/cache/cache.go: the resources of a manager against given numbers of owners.
use solve.Prelude.{
  ℕ, suc, ◌+◌, ◌^◌, ◌<◌, ◌≤◌, false, ok, ◌≡◌, refl, subst, ap, ◌∙◌, arith, inl, inr, Bool-cases,
  ◌==◌,
}
use solve.Prelude.Int.{pos, pos_part, add64, leb_ℤ}
use solve.Cache.{Resource, Manager, set_resource, acquire, drop_counter, release}
use solve.Cache.Owned.{
  one, IsCounted, add64_1, acquire-IsCounted, drop_counter-IsCounted, fewer-IsCounted,
}

module _ {V : Type 0} where
  abbrev pub Cells : Manager V → (ℕ → ℕ) → (ℕ → ℕ) → (ℕ → ℕ) → Type 0
  Cells m owners running cached =
      (i : ℕ) → i < m.next → IsCounted (m.resources i) (owners i) (running i) (cached i)

  pub set-Cells :
      (m : Manager V) (owners running cached owners' running' cached' : ℕ → ℕ) (f : ℕ)
      (r : Resource V)
      → Cells m owners running cached
      → (f < m.next → IsCounted r (owners' f) (running' f) (cached' f))
      → ((i : ℕ)
          → (f == i) ≡ false
          → (owners' i ≡ owners i) × (running' i ≡ running i) × (cached' i ≤ cached i))
      → Cells (set_resource m f r) owners' running' cached'
  unfolding set_resource
  set-Cells m owners running cached owners' running' cached' f r k now others i below =
      elim (Bool-cases (f == i)) [
        | inl same ↦
            let e : f ≡ i = ground (arith, same) in
            rw same (
              subst (λ j. IsCounted r (owners' j) (running' j) (cached' j)) e
                (now (ground (arith, e, below))))
        | inr other ↦
            let (a, b, c) = others i other in
            rw (other, a, b)
              (fewer-IsCounted (m.resources i) (owners i) (running i) (cached i) (cached' i) c
                (k i below))
      ]

  pub release-Cells :
      (m : Manager V) (owners running cached owners' cached' : ℕ → ℕ) (r : ℕ)
      → Cells m owners running cached
      → ((i : ℕ) → owners i ≡ one (r == i) + owners' i)
      → ((i : ℕ) → cached' i ≤ cached i)
      → Cells (release r m) owners' running cached'
  unfolding release
  release-Cells m owners running cached owners' cached' r k less fewer =
      set-Cells m owners running cached owners' running cached' r (drop_counter (m.resources r)) k
        (λ below.
          let own : owners r ≡ suc (owners' r) = ground (arith, less r) in
          drop_counter-IsCounted (m.resources r) (owners' r) (running r) (cached r) (cached' r)
            (fewer r)
            (subst (λ n. IsCounted (m.resources r) n (running r) (cached r)) own (k r below)))
        (λ i other. (ground (arith, less i, other), refl, fewer i))

  pub acquire-Cells :
      (m m' : Manager V) (owners running cached owners' : ℕ → ℕ) (r : ℕ)
      → Cells m owners running cached
      → r < m.next
      → 0 < owners r
      → pos_part (m.resources r).counter + 1 < 2 ^ 63
      → ((i : ℕ) → owners' i ≡ one (r == i) + owners i)
      → acquire r m ≡ ok m'
      → Cells m' owners' running cached
        × (m'.cache ≡ m.cache)
        × (m'.futures ≡ m.futures)
        × (m'.next ≡ m.next)
  unfolding acquire set_resource
  acquire-Cells m m' owners running cached owners' r k below some' room more h =
      let cell = k r below in
      let few : owners r + 1 < 2 ^ 63 = ground (arith, room, ap pos_part cell.count) in
      let counter : add64 (m.resources r).counter (pos 1) ≡ pos (suc (owners r)) =
        ap (λ c. add64 c (pos 1)) cell.count ∙ add64_1 (owners r) few in
      let big : leb_ℤ (pos (suc (owners r))) (pos 1) ≡ false = ground (arith, some') in
      let e : m' ≡ set_resource m r (record (m.resources r) { counter = pos (suc (owners r)) }) =
        ground (arith, rw (counter, big) at h) in
      let own : suc (owners r) ≡ owners' r = ground (arith, more r) in
      (
        rw e (
            set-Cells m owners running cached owners' running cached r _ k
              (λ b.
                subst
                  (λ n.
                    IsCounted (record (m.resources r) { counter = pos (suc (owners r)) }) n
                      (running r) (cached r))
                  own
                  (acquire-IsCounted (m.resources r) (owners r) (running r) (cached r) cell some'
                    (omega (arith, few))))
              (λ i other. (ground (arith, more i, other), refl, omega arith))),
        rw e refl,
        rw e refl,
        rw e refl,
      )

  pub eq-Cells :
      (m m' : Manager V) (owners running cached owners' running' cached' : ℕ → ℕ)
      → m'.next ≡ m.next
      → ((i : ℕ) → m'.resources i ≡ m.resources i)
      → ((i : ℕ) → owners' i ≡ owners i)
      → ((i : ℕ) → running' i ≡ running i)
      → ((i : ℕ) → cached' i ≡ cached i)
      → Cells m owners running cached
      → Cells m' owners' running' cached'
  eq-Cells m m' owners running cached owners' running' cached' n r a b c k i below =
      rw (r i, a i, b i, c i) (k i (ground (arith, below, n)))
