-- ===== src/Observed/Fed.antt =====
-- One pass: which rows it evaluates, and how many it feeds to the ensemble.
use hype_coin_predictive_eng.Prelude.{
  ℕ, suc, ◌+◌, ◌≤◌, ◌≡◌, inl, inr, refl, true, ◌&&◌, not, Option, none, some, List, [], ◌∷◌, ◌++◌,
  leb, All, arith, Bool-cases,
}
use hype_coin_predictive_eng.Float.{Float}
use hype_coin_predictive_eng.Scoring.Scorer.{Rounding}
use hype_coin_predictive_eng.Scoring.Ensemble.{World}
use hype_coin_predictive_eng.Scoring.Outcomes.{Outcome}
use hype_coin_predictive_eng.Observed.Rows.{
  RiskOutcome, Market, is_evaluated, evaluate_row, evaluate_rows,
}
use hype_coin_predictive_eng.Observed.Feed.{
  max_feed, is_recent, Inputs, feed_row, feed_if, feed_rows, actual_of, evaluate_outcomes,
}

module _ (f : Float) (r : Rounding f) where
  open f use {Carrier}

  unfoldable pub total_feeds : List (RiskOutcome Carrier) → ℕ
  total_feeds [] = 0
  total_feeds (o ∷ l) = o.feeds + total_feeds l

  total_feeds-append :
      (xs ys : List (RiskOutcome Carrier))
      → total_feeds (xs ++ ys) ≡ total_feeds xs + total_feeds ys
  unfolding total_feeds
  total_feeds-append [] ys = omega arith
  total_feeds-append (x ∷ xs) ys = omega (arith, total_feeds-append xs ys)

  feed_row_counts :
      (i : Inputs Carrier) (decision : ℕ) (o : RiskOutcome Carrier) (actual : Option Outcome)
      (w : World Carrier) (n : ℕ)
      → let one = feed_row f r i decision o actual w n in
        (total_feeds one.rows + n ≡ o.feeds + one.fed_count) × (one.fed_count ≤ suc n)
  unfolding feed_row total_feeds
  feed_row_counts i decision o none w n = (omega arith, omega arith)
  feed_row_counts i decision o (some actual) w n = (omega arith, omega arith)

  feed_if_counts :
      (i : Inputs Carrier) (decision window : ℕ) (o : RiskOutcome Carrier) (w : World Carrier)
      (n : ℕ)
      → n ≤ max_feed
      → let one = feed_if f r i decision window o w n in
        (total_feeds one.rows + n ≡ o.feeds + one.fed_count) × (one.fed_count ≤ max_feed)
  unfolding total_feeds
  feed_if_counts i decision window o w n h =
      elim (Bool-cases
        (is_recent f r decision window o.evaluated_at o.ensemble_fed_at && not (leb max_feed n))) [
          | inl due ↦
              let (sum, few) = feed_row_counts i decision o (actual_of f r i o) w n in
              let room : not (leb max_feed n) ≡ true = ground arith in
              rw due (sum, ground (arith, few, room))
          | inr idle ↦ rw idle (omega arith, h)
        ]

  feed_rows_counts :
      (i : Inputs Carrier) (decision window : ℕ) (l : List (RiskOutcome Carrier))
      (w : World Carrier) (n : ℕ)
      → n ≤ max_feed
      → let all = feed_rows f r i decision window l w n in
        (total_feeds all.rows + n ≡ total_feeds l + all.fed_count) × (all.fed_count ≤ max_feed)
  unfolding feed_rows total_feeds
  feed_rows_counts i decision window [] w n h = (omega arith, h)
  feed_rows_counts i decision window (o ∷ l) w n h =
      let one = feed_if f r i decision window o w n in
      let (sum, few) = feed_if_counts i decision window o w n h in
      let (sums, all_few) = feed_rows_counts i decision window l one.world one.fed_count few in
      (
        omega (
          arith,
          sum,
          sums,
          total_feeds-append one.rows
              (feed_rows f r i decision window l one.world one.fed_count).rows,
        ),
        all_few,
      )

  evaluate_rows_feeds :
      (k : Market Carrier) (decision window : ℕ) (l : List (RiskOutcome Carrier))
      → total_feeds (evaluate_rows f k decision window l) ≡ total_feeds l
  unfolding evaluate_rows evaluate_row total_feeds
  evaluate_rows_feeds k decision window [] = refl
  evaluate_rows_feeds k decision window (o ∷ l) =
      ground (arith, evaluate_rows_feeds k decision window l)

  -- A pass feeds the ensemble as many rows as it counts, and at most a hundred.
  pub evaluate_outcomes_bounded :
      (i : Inputs Carrier) (k : Market Carrier) (decision window : ℕ)
      (l : List (RiskOutcome Carrier)) (w : World Carrier)
      → let fed = (evaluate_outcomes f r i k decision window l w).1 in
        (total_feeds fed.rows ≡ total_feeds l + fed.fed_count) × (fed.fed_count ≤ 100)
  unfolding evaluate_outcomes
  evaluate_outcomes_bounded i k decision window l w =
      let evaluated = evaluate_rows f k decision window l in
      let (sum, few) = feed_rows_counts i decision window evaluated w 0 (omega arith) in
      (omega (arith, sum, evaluate_rows_feeds k decision window l), few)

  -- A row that is older than the window is evaluated.
  abbrev pub IsDone : ℕ → ℕ → RiskOutcome Carrier → Type 0
  IsDone decision window o = o.scored_at + window ≤ decision → is_evaluated f o ≡ true

  evaluate_rows-IsDone :
      (k : Market Carrier) (decision window : ℕ) (l : List (RiskOutcome Carrier))
      → All (IsDone decision window) (evaluate_rows f k decision window l)
  unfolding evaluate_rows evaluate_row
  evaluate_rows-IsDone k decision window [] = tt
  evaluate_rows-IsDone k decision window (o ∷ l) =
      (λ h. ground arith, evaluate_rows-IsDone k decision window l)

  All-append-IsDone :
      (decision window : ℕ) (xs ys : List (RiskOutcome Carrier))
      → All (IsDone decision window) xs
      → All (IsDone decision window) ys
      → All (IsDone decision window) (xs ++ ys)
  All-append-IsDone decision window [] ys h k = k
  All-append-IsDone decision window (x ∷ xs) ys h k =
      (h.0, All-append-IsDone decision window xs ys h.1 k)

  feed_row-IsDone :
      (i : Inputs Carrier) (decision window : ℕ) (o : RiskOutcome Carrier) (actual : Option Outcome)
      (w : World Carrier) (n : ℕ)
      → IsDone decision window o
      → All (IsDone decision window) (feed_row f r i decision o actual w n).rows
  unfolding feed_row
  feed_row-IsDone i decision window o none w n h = (h, tt)
  feed_row-IsDone i decision window o (some actual) w n h = (h, tt)

  feed_rows-IsDone :
      (i : Inputs Carrier) (decision window : ℕ) (l : List (RiskOutcome Carrier))
      (w : World Carrier) (n : ℕ)
      → All (IsDone decision window) l
      → All (IsDone decision window) (feed_rows f r i decision window l w n).rows
  unfolding feed_rows
  feed_rows-IsDone i decision window [] w n h = tt
  feed_rows-IsDone i decision window (o ∷ l) w n h =
      let one = feed_if f r i decision window o w n in
      let one_done : All (IsDone decision window) one.rows =
        elim (Bool-cases (
          is_recent f r decision window o.evaluated_at o.ensemble_fed_at && not (leb max_feed n))) [
            | inl due ↦ rw due (feed_row-IsDone i decision window o (actual_of f r i o) w n h.0)
            | inr idle ↦ rw idle (h.0, tt)
          ] in
      All-append-IsDone decision window one.rows
        (feed_rows f r i decision window l one.world one.fed_count).rows one_done
        (feed_rows-IsDone i decision window l one.world one.fed_count h.1)

  -- After a pass every row whose window was over is evaluated.
  pub evaluate_outcomes-IsDone :
      (i : Inputs Carrier) (k : Market Carrier) (decision window : ℕ)
      (l : List (RiskOutcome Carrier)) (w : World Carrier)
      → All (IsDone decision window) (evaluate_outcomes f r i k decision window l w).1.rows
  unfolding evaluate_outcomes
  evaluate_outcomes-IsDone i k decision window l w =
      feed_rows-IsDone i decision window (evaluate_rows f k decision window l) w 0
        (evaluate_rows-IsDone k decision window l)
