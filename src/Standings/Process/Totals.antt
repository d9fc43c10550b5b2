-- ===== src/Standings/Process/Totals.antt =====
-- internal/managers/contest_standings.go: the totals of the columns that a visitor is shown.
use solve.Prelude.{
  ℕ, zero, suc, ◌+◌, ◌==◌, Bool, List, [], ◌∷◌, ok, ◌≡◌, refl, ap, arith, select, sum_by, >>=-elim,
  if◌then◌else◌, Bool-cases, inl, inr,
}
use solve.Standings.Types.{
  Float, ContestProblem, is_accepted, ContestStandingsColumn, ContestStandingsCell,
  ContestStandingsRow,
}
use solve.Standings.Build.{count_cell, update_column, count_cells, new_columns}
use solve.Standings.Process.{process_rows}

-- The counts of the column at an index; a column that is not there counts nothing.
abbrev pub total_at : ℕ → List ContestStandingsColumn → ℕ
total_at i [] = 0
total_at zero (c ∷ cs) = c.total_solutions
total_at (suc i) (c ∷ cs) = total_at i cs

abbrev pub accepted_at : ℕ → List ContestStandingsColumn → ℕ
accepted_at i [] = 0
accepted_at zero (c ∷ cs) = c.accepted_solutions
accepted_at (suc i) (c ∷ cs) = accepted_at i cs

-- What one cell adds to the counts of the column `i`.
abbrev pub attempts_in : {Num : Type 0} → ℕ → ContestStandingsCell Num → ℕ
attempts_in i cell = if cell.column == i then cell.attempt else 0

abbrev pub accepts_in : {Num : Type 0} → ℕ → ContestStandingsCell Num → ℕ
accepts_in i cell = if cell.column == i then (if is_accepted cell.verdict then 1 else 0) else 0

module _ {Num : Type 0} (f : Float Num) where
  update_column-total :
      (cell : ContestStandingsCell Num) (j i : ℕ) (columns : List ContestStandingsColumn)
      (r : List ContestStandingsColumn)
      → update_column f (count_cell f cell) j columns ≡ ok r
      → (total_at i r ≡ total_at i columns + (if j == i then cell.attempt else 0))
        × (accepted_at i r
            ≡ accepted_at i columns
              + (if j == i then (if is_accepted cell.verdict then 1 else 0) else 0))
  unfolding update_column count_cell
  update_column-total cell j i [] r h = absurd (ground arith)
  update_column-total cell zero zero (c ∷ cs) r h =
      let e : r ≡ count_cell f cell c ∷ cs = cc in rw e (ground arith, ground arith)
  update_column-total cell zero (suc i) (c ∷ cs) r h =
      let e : r ≡ count_cell f cell c ∷ cs = cc in rw e (ground arith, ground arith)
  update_column-total cell (suc j) zero (c ∷ cs) r h =
      >>=-elim (update_column f (count_cell f cell) j cs) _ h
        λ r' _ last. let e : r ≡ c ∷ r' = cc in rw e (ground arith, ground arith)
  update_column-total cell (suc j) (suc i) (c ∷ cs) r h =
      >>=-elim (update_column f (count_cell f cell) j cs) _ h λ r' k last.
        let e : r ≡ c ∷ r' = cc in
        rw e (
          ground (arith, update_column-total cell j i cs r' k),
          ground (arith, update_column-total cell j i cs r' k),
        )

  count_cells-total :
      (i : ℕ) (cells : List (ContestStandingsCell Num)) (columns r : List ContestStandingsColumn)
      → count_cells f cells columns ≡ ok r
      → (total_at i r ≡ total_at i columns + sum_by (attempts_in i) cells)
        × (accepted_at i r ≡ accepted_at i columns + sum_by (accepts_in i) cells)
  unfolding count_cells
  count_cells-total i [] columns r h = let e : r ≡ columns = cc in rw e (omega arith, omega arith)
  count_cells-total i (cell ∷ cells) columns r h =
      >>=-elim (update_column f (count_cell f cell) cell.column columns) _ h λ columns' e last.
        let (t, a) = update_column-total cell cell.column i columns columns' e in
        let (t', a') = count_cells-total i cells columns' r last in (omega arith, omega arith)

  pub process_rows_lem :
      (shown : ContestStandingsRow Num → Bool) (i : ℕ) (rows : List (ContestStandingsRow Num))
      (columns : List ContestStandingsColumn)
      (r : List (ContestStandingsRow Num) × List ContestStandingsColumn)
      → process_rows f shown rows columns ≡ ok r
      → (r.0 ≡ select shown rows)
        × (total_at i r.1
            ≡ total_at i columns
              + sum_by (λ row. sum_by (attempts_in i) row.cells) (select shown rows))
        × (accepted_at i r.1
            ≡ accepted_at i columns
              + sum_by (λ row. sum_by (accepts_in i) row.cells) (select shown rows))
  unfolding process_rows
  process_rows_lem shown i [] columns r h =
      let e : r ≡ ([], columns) = cc in rw e (refl, omega arith, omega arith)
  process_rows_lem shown i (row ∷ rows) columns r h = elim (Bool-cases (shown row)) [
    | inr hidden ↦
        rw hidden (process_rows_lem shown i rows columns r (rw (hidden, process_rows) at h))
    | inl visible ↦
        >>=-elim (count_cells f row.cells columns) _ (rw (visible, process_rows) at h)
          λ columns₁ e k. >>=-elim (process_rows f shown rows columns₁) _ k λ rest e' last.
            let (t, a) = count_cells-total i row.cells columns columns₁ e in
            let (s, t', a') = process_rows_lem shown i rows columns₁ rest e' in
            let q : r ≡ (row ∷ rest.0, rest.1) = cc in
            rw (visible, q) (ap (◌∷◌ row) s, omega arith, omega arith)
  ]

  pub new_columns_total :
      (i : ℕ) (problems : List ContestProblem)
      → (total_at i (new_columns problems) ≡ 0) × (accepted_at i (new_columns problems) ≡ 0)
  unfolding new_columns
  new_columns_total i [] = (refl, refl)
  new_columns_total zero (p ∷ ps) = (refl, refl)
  new_columns_total (suc i) (p ∷ ps) = new_columns_total i ps
