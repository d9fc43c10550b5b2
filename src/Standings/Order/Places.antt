-- ===== src/Standings/Order/Places.antt =====
-- internal/managers/contest_standings.go: the places against the ranks of a competition.
use solve.Prelude.{
  ℕ, suc, Bool, true, false, ◌&&◌, Option, none, some, List, [], ◌∷◌, ◌++◌, map, ◌≡◌, refl, sym, ap,
  ap₂, ◌∙◌, arith, All, count_if, count_if-append, count_if-eq, count_if-zero, count_if-and_le,
  All-zip, All-append, All-map, append-snoc, if◌then◌else◌, Bool-cases, inl, inr,
}
use solve.Prelude.Sort.{IsWeakOrder, IsSorted}
use solve.Standings.Types.{Float, ContestStandingsRow}
use solve.Standings.Order.{
  is_placed_participant, participant_less, next_place, places_loop, calculate_places,
}

module _ {Num : Type 0} (f : Float Num) where
  abbrev pub placed : ContestStandingsRow Num → Bool
  placed row = is_placed_participant row.participant.kind

  -- A row that takes a place ahead of another.
  abbrev pub ahead : ContestStandingsRow Num → ContestStandingsRow Num → Bool
  ahead row x = placed x && participant_less f x row

  -- A row with its rank among `rows`, or as it is if its participant is given no place.
  abbrev pub rank :
      List (ContestStandingsRow Num) → ContestStandingsRow Num → ContestStandingsRow Num
  rank rows row = if placed row then record row { place = suc (count_if (ahead row) rows) } else row

  module _ (P : ContestStandingsRow Num → Type 0) (w : IsWeakOrder (participant_less f) P)
      (set_place : (row : ContestStandingsRow Num) (n : ℕ)
        → P row
        → P (record row { place = n })) where
    -- What the loop knows of its last placed row and of the rows behind it, between two rounds.
    record Last (seen rest : List (ContestStandingsRow Num)) (it : ContestStandingsRow Num)
        : Type 0 where
      good : P it
      ranked : it.place ≡ suc (count_if (ahead it) seen)
      later : All (λ y. participant_less f y it ≡ false) rest
      earlier : All (λ x. placed x ≡ true → participant_less f it x ≡ false) seen

    LastOf :
        List (ContestStandingsRow Num)
        → List (ContestStandingsRow Num)
        → Option (ContestStandingsRow Num)
        → Type 0
    LastOf seen rest none = count_if placed seen ≡ 0
    LastOf seen rest (some it) = Last seen rest it

    record Seen (seen rest : List (ContestStandingsRow Num)) (place : ℕ) : Type 0 where
      good_seen : All P seen
      good_rest : All P rest
      counted : place ≡ suc (count_if placed seen)
      sorted : IsSorted (participant_less f) rest
      before : All (λ x. All (λ y. participant_less f y x ≡ false) rest) seen

    less_irrefl : (row : ContestStandingsRow Num) → P row → participant_less f row row ≡ false
    less_irrefl row p = ground (arith, w.asym row row p p)

    -- the rows that are left are not ahead of the first of them
    count-ahead :
        (seen rows : List (ContestStandingsRow Num)) (row : ContestStandingsRow Num)
        → P row
        → All (λ y. participant_less f y row ≡ false) rows
        → count_if (ahead row) (seen ++ row ∷ rows) ≡ count_if (ahead row) seen
    count-ahead seen rows row p h = ground (
      arith,
      count_if-append (ahead row) seen (row ∷ rows),
      less_irrefl row p,
      count_if-zero (ahead row) rows
          (All-map _ (λ y. ahead row y ≡ false) rows (λ y e. ground (arith, e)) h),
    )

    next_place_lem :
        (seen rows : List (ContestStandingsRow Num)) (place : ℕ) (row : ContestStandingsRow Num)
        (it : Option (ContestStandingsRow Num))
        → LastOf seen (row ∷ rows) it
        → Seen seen (row ∷ rows) place
        → next_place f it place row ≡ suc (count_if (ahead row) seen)
    unfolding next_place LastOf
    next_place_lem seen rows place row none l s =
        omega (arith, count_if-and_le placed (λ x. participant_less f x row) seen, s.counted, l)
    next_place_lem seen rows place row (some it) l s =
        elim (Bool-cases (participant_less f it row)) [
          | inl worse ↦ rw worse (
              s.counted ∙ ap suc (sym (count_if-eq (ahead row) placed seen (worse_than_all worse))))
          | inr tied ↦
              rw tied
                (l.ranked ∙ ap suc (sym (count_if-eq (ahead row) (ahead it) seen (tied_with tied))))
        ]
      where
        worse_than_all : participant_less f it row ≡ true → All (λ x. ahead row x ≡ placed x) seen
        worse_than_all worse =
            All-zip P _ _ seen
              (λ x p e. ground (arith, w.negtrans it x row l.good p s.good_rest.0, e, worse))
              s.good_seen l.earlier

        tied_with : participant_less f it row ≡ false → All (λ x. ahead row x ≡ ahead it x) seen
        tied_with tied =
            All-map P _ seen
              (λ x p. ground (
                arith,
                w.negtrans x it row p l.good s.good_rest.0,
                w.negtrans x row it p s.good_rest.0 l.good,
                tied,
                l.later.0,
              ))
              s.good_seen

    -- the row joins those that were seen
    Seen-next :
        (seen rows : List (ContestStandingsRow Num)) (place : ℕ) (row : ContestStandingsRow Num)
        → Seen seen (row ∷ rows) place
        → Seen (seen ++ row ∷ []) rows (if placed row then suc place else place)
    Seen-next seen rows place row s = record {
      good_seen = All-append P seen (row ∷ []) s.good_seen (s.good_rest.0, tt);
      good_rest = s.good_rest.1;
      counted = ground (arith, s.counted, count_if-append placed seen (row ∷ []));
      sorted = s.sorted.1;
      before =
          All-append _ seen (row ∷ []) (All-map _ _ seen (λ x h. h.1) s.before) (s.sorted.0, tt);
    }

    Last-placed :
        (seen rows : List (ContestStandingsRow Num)) (place : ℕ) (row : ContestStandingsRow Num)
        (it : Option (ContestStandingsRow Num))
        → LastOf seen (row ∷ rows) it
        → Seen seen (row ∷ rows) place
        → Last (seen ++ row ∷ []) rows (record row { place = next_place f it place row })
    unfolding participant_less
    Last-placed seen rows place row it l s = record {
      good = set_place row (next_place f it place row) s.good_rest.0;
      ranked =
          next_place_lem seen rows place row it l s
          ∙ ap suc (sym (count-ahead seen [] row s.good_rest.0 tt));
      later = s.sorted.0;
      earlier =
          All-append _ seen (row ∷ []) (All-map _ _ seen (λ x h _. h.0) s.before)
            ((λ _. less_irrefl row s.good_rest.0), tt);
    }

    Last-unplaced :
        (seen rows : List (ContestStandingsRow Num)) (row : ContestStandingsRow Num)
        (it : Option (ContestStandingsRow Num))
        → placed row ≡ false
        → LastOf seen (row ∷ rows) it
        → LastOf (seen ++ row ∷ []) rows it
    unfolding LastOf
    Last-unplaced seen rows row none u l = ground (arith, count_if-append placed seen (row ∷ []))
    Last-unplaced seen rows row (some it) u l = record {
      good = l.good;
      ranked = ground (arith, l.ranked, count_if-append (ahead it) seen (row ∷ []));
      later = l.later.1;
      earlier = All-append _ seen (row ∷ []) l.earlier ((λ p. absurd (ground (arith, u, p))), tt);
    }

    places_loop_lem :
        (seen rows : List (ContestStandingsRow Num)) (place : ℕ)
        (it : Option (ContestStandingsRow Num))
        → LastOf seen rows it
        → Seen seen rows place
        → places_loop f it place rows ≡ map (rank (seen ++ rows)) rows
    unfolding places_loop LastOf
    places_loop_lem seen [] place it l s = refl
    places_loop_lem seen (row ∷ rows) place it l s = elim (Bool-cases (placed row)) [
      | inl yes' ↦
          let s' : Seen (seen ++ row ∷ []) rows (suc place) =
            rw yes' at (Seen-next seen rows place row s) in
          let ih =
            places_loop_lem (seen ++ row ∷ []) rows (suc place)
              (some (record row { place = next_place f it place row }))
              (Last-placed seen rows place row it l s) s' in
          let first : next_place f it place row ≡ suc (count_if (ahead row) (seen ++ row ∷ rows)) =
            next_place_lem seen rows place row it l s
            ∙ ap suc (sym (count-ahead seen rows row s.good_rest.0 s.sorted.0)) in
          rw yes' (
            ap₂ ◌∷◌ (ap (λ n. record row { place = n }) first)
              (ih ∙ ap (λ l. map (rank l) rows) (append-snoc seen row rows)))
      | inr no' ↦
          let s' : Seen (seen ++ row ∷ []) rows place =
            rw no' at (Seen-next seen rows place row s) in
          let ih =
            places_loop_lem (seen ++ row ∷ []) rows place it (Last-unplaced seen rows row it no' l)
              s' in
          rw no' (ap (◌∷◌ row) (ih ∙ ap (λ l. map (rank l) rows) (append-snoc seen row rows)))
    ]

    -- On rows in their order, of a kind `P` on which that order is a strict weak one and which a new
    -- place does not change, `calculatePlaces` gives each placed participant the rank of a
    -- competition: one more than the number of placed rows that are strictly better, so that equal
    -- rows share a place and the next one skips; all else of the rows stays as it is.
    pub calculate_places-rank :
        (rows : List (ContestStandingsRow Num))
        → All P rows
        → IsSorted (participant_less f) rows
        → calculate_places f rows ≡ map (rank rows) rows
    unfolding calculate_places LastOf
    calculate_places-rank rows p s =
        places_loop_lem [] rows 1 none refl
          (record { good_seen = tt; good_rest = p; counted = refl; sorted = s; before = tt })
