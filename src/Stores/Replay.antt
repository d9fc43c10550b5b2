-- ===== src/Stores/Replay.antt =====
-- internal/models/cached_store.go: what a store holds after events that it may have seen before.
use solve.Prelude.{
  ℕ, Bool, true, false, ◌||◌, Option, none, some, List, [], ◌∷◌, ◌++◌, ◌≡◌, refl, ◌∙◌, arith, ◌⊎◌,
  inl, inr, if◌then◌else◌, ◌==◌, Bool-cases,
}
use solve.Stores.{Change, create_event, update_event, delete_event, other_kind, ObjectEvent}

-- A table as the rows under its IDs, and what a change does to it.
abbrev pub change_table : {T : Type 0} → (T → ℕ) → Change T → (ℕ → Option T) → ℕ → Option T
change_table object_id (create_event object) t i =
    if object_id object == i then some object else t i
change_table object_id (update_event object) t i =
    if object_id object == i then some object else t i
change_table object_id (delete_event id) t i = if id == i then none else t i
change_table object_id other_kind t i = t i

-- A table after the changes of events, in their order.
abbrev pub replay : {T : Type 0} → (T → ℕ) → List (ObjectEvent T) → (ℕ → Option T) → ℕ → Option T
replay object_id [] t = t
replay object_id (e ∷ es) t = replay object_id es (change_table object_id e.change t)

-- Whether one of the events is about an ID.
abbrev pub is_about : {T : Type 0} → (T → ℕ) → Change T → ℕ → Bool
is_about object_id (create_event object) i = object_id object == i
is_about object_id (update_event object) i = object_id object == i
is_about object_id (delete_event id) i = id == i
is_about object_id other_kind i = false

abbrev pub touches : {T : Type 0} → (T → ℕ) → List (ObjectEvent T) → ℕ → Bool
touches object_id [] i = false
touches object_id (e ∷ es) i = is_about object_id e.change i || touches object_id es i

module _ {T : Type 0} (object_id : T → ℕ) where
  pub change_table-about :
      (c : Change T) (t t' : ℕ → Option T) (i : ℕ)
      → (is_about object_id c i ≡ true) ⊎ (t i ≡ t' i)
      → change_table object_id c t i ≡ change_table object_id c t' i
  change_table-about (create_event x) t t' i h = ground (arith, h)
  change_table-about (update_event x) t t' i h = ground (arith, h)
  change_table-about (delete_event x) t t' i h = ground (arith, h)
  change_table-about other_kind t t' i h = ground (arith, h)

  pub change_table-other :
      (c : Change T) (t : ℕ → Option T) (i : ℕ)
      → is_about object_id c i ≡ false
      → change_table object_id c t i ≡ t i
  change_table-other (create_event x) t i h = ground (arith, h)
  change_table-other (update_event x) t i h = ground (arith, h)
  change_table-other (delete_event x) t i h = ground (arith, h)
  change_table-other other_kind t i h = refl

  -- Of an ID that events are about they alone decide, and the rest of the table they leave.
  pub replay-eq :
      (es : List (ObjectEvent T)) (t t' : ℕ → Option T) (i : ℕ)
      → (touches object_id es i ≡ true) ⊎ (t i ≡ t' i)
      → replay object_id es t i ≡ replay object_id es t' i
  replay-eq [] t t' i h = ground (arith, h)
  replay-eq (e ∷ es) t t' i h = elim (Bool-cases (is_about object_id e.change i)) [
    | inl about ↦ replay-eq es _ _ i (inr (change_table-about e.change t t' i (inl about)))
    | inr other ↦ elim h [
      | inl later ↦ replay-eq es _ _ i (inl (ground (arith, later, other)))
      | inr same ↦ replay-eq es _ _ i (inr (change_table-about e.change t t' i (inr same)))
    ]
  ]

  replay-other :
      (es : List (ObjectEvent T)) (t : ℕ → Option T) (i : ℕ)
      → touches object_id es i ≡ false
      → replay object_id es t i ≡ t i
  replay-other [] t i h = refl
  replay-other (e ∷ es) t i h =
      replay-other es _ i (ground (arith, h)) ∙ change_table-other e.change t i (ground (arith, h))

  pub replay-append :
      (es fs : List (ObjectEvent T)) (t : ℕ → Option T)
      → replay object_id (es ++ fs) t ≡ replay object_id fs (replay object_id es t)
  replay-append [] fs t = refl
  replay-append (e ∷ es) fs t = replay-append es fs (change_table object_id e.change t)

  -- Events that a table has already seen may be replayed on it.
  pub replay_again :
      (es : List (ObjectEvent T)) (t : ℕ → Option T) (i : ℕ)
      → replay object_id es (replay object_id es t) i ≡ replay object_id es t i
  replay_again es t i = elim (Bool-cases (touches object_id es i)) [
    | inl later ↦ replay-eq es _ _ i (inl later)
    | inr never ↦ replay-other es (replay object_id es t) i never
  ]
