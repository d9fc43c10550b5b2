-- ===== src/Standings/Order/Weak.antt =====
-- internal/managers/contest_standings.go: the comparisons of rows as orders.
use solve.Prelude.{ℕ, Bool, true, false, Option, none, some, ◌≡◌, ◌⊎◌, arith}
use solve.Prelude.Int.{ℤ}
use solve.Prelude.Sort.{IsWeakOrder}
use solve.Standings.Types.{Float, ContestStandingsRow}
use solve.Standings.Order.{
  get_participant_order, penalty_or_id_less, penalty_less, stable_participant_less,
  participant_less,
}

-- What IEEE 754 says of `<` and `==` on values that are no NaN.
pub record IsOrdered {Num : Type 0} (f : Float Num) : Type 0 where
  pub lt_asym : (a b : Num) → f.lt a b ≡ true → f.lt b a ≡ false
  pub lt_negtrans : (a b c : Num) → f.lt a b ≡ false → f.lt b c ≡ false → f.lt a c ≡ false
  pub eq_of_not_lt : (a b : Num) → f.lt a b ≡ false → f.lt b a ≡ false → f.eq a b ≡ true
  pub not_lt_of_eq : (a b : Num) → f.eq a b ≡ true → f.lt a b ≡ false
  pub eq_symm : (a b : Num) → f.eq a b ≡ true → f.eq b a ≡ true

-- The laws of scores, as Boolean facts about two or three of them.
module _ {Num : Type 0} (f : Float Num) (o : IsOrdered f) where
  -- Two scores are equal, or one is less.
  abbrev Compared : Num → Num → Type 0
  Compared x y =
      ((f.eq x y ≡ true) × (f.eq y x ≡ true) × (f.lt x y ≡ false) × (f.lt y x ≡ false))
      ⊎ ((f.eq x y ≡ false) × (f.eq y x ≡ false) × (f.lt x y ≡ true) × (f.lt y x ≡ false))
      ⊎ ((f.eq x y ≡ false) × (f.eq y x ≡ false) × (f.lt x y ≡ false) × (f.lt y x ≡ true))

  compare_scores : (x y : Num) → Compared x y
  compare_scores x y = ground (
    arith,
    o.lt_asym x y,
    o.lt_asym y x,
    o.eq_of_not_lt x y,
    o.not_lt_of_eq x y,
    o.not_lt_of_eq y x,
    o.eq_symm x y,
    o.eq_symm y x,
  )

-- The penalties of rows of one standings, by the flag of their order.
penalty_asym : (p q : Option ℤ) → penalty_less p q ≡ true → penalty_less q p ≡ false
unfolding penalty_less
penalty_asym p q h = ground arith

abbrev has_value : Option ℤ → Bool
has_value none = false
has_value (some _) = true

penalty_negtrans :
    (p q r : Option ℤ)
    → has_value p ≡ has_value q
    → has_value q ≡ has_value r
    → penalty_less p q ≡ false
    → penalty_less q r ≡ false
    → penalty_less p r ≡ false
unfolding penalty_less
penalty_negtrans p q r e e' h k = ground arith

penalty_or_id_asym :
    (p q : Option ℤ) (i j : ℕ)
    → penalty_or_id_less p q i j ≡ true
    → penalty_or_id_less q p j i ≡ false
unfolding penalty_or_id_less
penalty_or_id_asym p q i j h = ground arith

penalty_or_id_negtrans :
    (p q r : Option ℤ) (i j k : ℕ)
    → has_value p ≡ has_value q
    → has_value q ≡ has_value r
    → penalty_or_id_less p q i j ≡ false
    → penalty_or_id_less q r j k ≡ false
    → penalty_or_id_less p r i k ≡ false
unfolding penalty_or_id_less
penalty_or_id_negtrans p q r i j k e e' h h' = ground arith

module _ {Num : Type 0} (f : Float Num) where
  -- Rows of one standings carry penalties alike: a flag for the order of the kind of participant
  -- says which rows have one.
  abbrev pub HasPenalty : (ℕ → Bool) → ContestStandingsRow Num → Type 0
  HasPenalty flag row = has_value row.penalty ≡ flag (get_participant_order row.participant.kind)

  module _ (o : IsOrdered f) (flag : ℕ → Bool) where
    participant_less_asym :
        (a b : ContestStandingsRow Num)
        → participant_less f a b ≡ true
        → participant_less f b a ≡ false
    unfolding participant_less
    participant_less_asym a b h =
        ground (arith, compare_scores f o a.score b.score, penalty_asym a.penalty b.penalty)

    participant_less_negtrans :
        (a b c : ContestStandingsRow Num)
        → HasPenalty flag a
        → HasPenalty flag b
        → HasPenalty flag c
        → participant_less f a b ≡ false
        → participant_less f b c ≡ false
        → participant_less f a c ≡ false
    unfolding participant_less
    participant_less_negtrans a b c p q r h k = ground (
      arith,
      compare_scores f o a.score b.score,
      compare_scores f o b.score c.score,
      compare_scores f o a.score c.score,
      o.lt_negtrans c.score b.score a.score,
      o.lt_negtrans a.score c.score b.score,
      o.lt_negtrans b.score a.score c.score,
      o.lt_negtrans a.score b.score c.score,
      o.lt_negtrans b.score c.score a.score,
      o.lt_negtrans c.score a.score b.score,
      penalty_negtrans a.penalty b.penalty c.penalty,
    )

    -- Where scores are ordered, the comparison that gives equal places is a strict weak order on
    -- the rows of one standings.
    pub participant_less-IsWeakOrder : IsWeakOrder (participant_less f) (HasPenalty flag)
    participant_less-IsWeakOrder = record {
      asym = λ a b _ _ h. participant_less_asym a b h;
      negtrans = participant_less_negtrans;
    }

    stable_participant_less_asym :
        (a b : ContestStandingsRow Num)
        → stable_participant_less f a b ≡ true
        → stable_participant_less f b a ≡ false
    unfolding stable_participant_less
    stable_participant_less_asym a b h = ground (
      arith,
      compare_scores f o a.score b.score,
      penalty_or_id_asym a.penalty b.penalty a.participant.id b.participant.id,
    )

    stable_participant_less_negtrans :
        (a b c : ContestStandingsRow Num)
        → HasPenalty flag a
        → HasPenalty flag b
        → HasPenalty flag c
        → stable_participant_less f a b ≡ false
        → stable_participant_less f b c ≡ false
        → stable_participant_less f a c ≡ false
    unfolding stable_participant_less
    stable_participant_less_negtrans a b c p q r h k = ground (
      arith,
      compare_scores f o a.score b.score,
      compare_scores f o b.score c.score,
      compare_scores f o a.score c.score,
      o.lt_negtrans c.score b.score a.score,
      o.lt_negtrans a.score c.score b.score,
      o.lt_negtrans b.score a.score c.score,
      o.lt_negtrans a.score b.score c.score,
      o.lt_negtrans b.score c.score a.score,
      o.lt_negtrans c.score a.score b.score,
      penalty_or_id_negtrans a.penalty b.penalty c.penalty a.participant.id b.participant.id
          c.participant.id,
    )

    -- Where scores are ordered, the comparison that the rows are sorted by is a strict weak order on
    -- the rows of one standings.
    pub stable_participant_less-IsWeakOrder :
        IsWeakOrder (stable_participant_less f) (HasPenalty flag)
    stable_participant_less-IsWeakOrder = record {
      asym = λ a b _ _ h. stable_participant_less_asym a b h;
      negtrans = stable_participant_less_negtrans;
    }

    -- Rows in the order of the sort are in the order of the places.
    pub participant_less_of_stable :
        (a b : ContestStandingsRow Num)
        → stable_participant_less f a b ≡ false
        → participant_less f a b ≡ false
    unfolding participant_less stable_participant_less penalty_less penalty_or_id_less
    participant_less_of_stable a b h = ground (arith, compare_scores f o a.score b.score)
