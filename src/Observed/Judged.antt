-- ===== src/Observed/Judged.antt =====
-- What any sequence of recordings and passes keeps of the rows.
use hype_coin_predictive_eng.Prelude.{
  ℕ, ◌≡◌, inl, inr, refl, true, false, ◌&&◌, not, Option, none, some, List, [], ◌∷◌, ◌++◌, leb, All,
  arith, Bool-cases,
}
use hype_coin_predictive_eng.Float.{Float}
use hype_coin_predictive_eng.Risk.Band.{RiskBand}
use hype_coin_predictive_eng.Lifecycle.Phase.{LifecyclePhase}
use hype_coin_predictive_eng.Lifecycle.Store.{Event}
use hype_coin_predictive_eng.Scoring.Scorer.{Rounding}
use hype_coin_predictive_eng.Scoring.Ensemble.{World}
use hype_coin_predictive_eng.Scoring.Outcomes.{Outcome}
use hype_coin_predictive_eng.Observed.Rows.{
  RiskOutcome, Market, has_score, record_risk_outcome, is_collapsed, is_rugged, is_survived,
  evaluate_row, evaluate_rows, latest_lifecycle_phase,
}
use hype_coin_predictive_eng.Observed.Feed.{
  max_feed, is_recent, Inputs, feed_row, feed_if, feed_rows, actual_of, evaluate_outcomes,
}

-- A recorded score, or a pass over the rows.
pub data Command (F : Type 0) : Type 0 where
  score : List Event → ℕ → RiskBand → ℕ → ℕ → Option RiskBand → Option RiskBand → Command F
  pass : Inputs F → Market F → ℕ → ℕ → Command F

pub record Observed (F : Type 0) : Type 0 where
  pub rows : List (RiskOutcome F)
  pub world : World F

module _ (f : Float) (r : Rounding f) where
  open f use {Carrier}

  unfoldable pub step : Command Carrier → Observed Carrier → Observed Carrier
  unfolding record_risk_outcome evaluate_outcomes
  step (score events asset band id decision ml heuristic) s = record s {
    rows = record_risk_outcome f events asset band id decision ml heuristic s.rows;
  }
  step (pass i k decision window) s =
      let fed = (evaluate_outcomes f r i k decision window s.rows s.world).1 in
      record { rows = fed.rows; world = fed.world }

  unfoldable pub run : List (Command Carrier) → Observed Carrier → Observed Carrier
  unfolding step
  run [] s = s
  run (c ∷ cs) s = run cs (step c s)

  -- No row collapsed and survived, what was rugged collapsed, only evaluated rows are judged or fed, and
  -- a row was fed as often as it is marked: once or never.
  abbrev pub is_set : Option ℕ → ℕ
  is_set none = 0
  is_set (some t) = 1

  abbrev pub IsJudged : RiskOutcome Carrier → Type 0
  IsJudged o =
      ((o.collapsed && o.survived) ≡ false)
      × (o.was_rugged ≡ true → o.collapsed ≡ true)
      × (o.evaluated_at ≡ none → o.collapsed ≡ false)
      × (o.evaluated_at ≡ none → o.survived ≡ false)
      × (o.evaluated_at ≡ none → o.ensemble_fed_at ≡ none)
      × (o.feeds ≡ is_set o.ensemble_fed_at)

  phase_facts :
      (phase : Option LifecyclePhase)
      → ((is_collapsed f phase && is_survived f phase) ≡ false)
        × (is_rugged f phase ≡ true → is_collapsed f phase ≡ true)
  phase_facts phase = ground arith

  evaluate_row-IsJudged :
      (k : Market Carrier) (decision window : ℕ) (o : RiskOutcome Carrier)
      → IsJudged o
      → IsJudged (evaluate_row f k decision window o)
  unfolding evaluate_row
  evaluate_row-IsJudged k decision window o h =
      ground (arith, phase_facts (latest_lifecycle_phase k.events o.asset_id))

  evaluate_rows-IsJudged :
      (k : Market Carrier) (decision window : ℕ) (l : List (RiskOutcome Carrier))
      → All IsJudged l
      → All IsJudged (evaluate_rows f k decision window l)
  unfolding evaluate_rows
  evaluate_rows-IsJudged k decision window [] h = tt
  evaluate_rows-IsJudged k decision window (o ∷ l) h = (
    evaluate_row-IsJudged k decision window o h.0,
    evaluate_rows-IsJudged k decision window l h.1,
  )

  All-append :
      (xs ys : List (RiskOutcome Carrier))
      → All IsJudged xs
      → All IsJudged ys
      → All IsJudged (xs ++ ys)
  All-append [] ys h k = k
  All-append (x ∷ xs) ys h k = (h.0, All-append xs ys h.1 k)

  feed_row-IsJudged :
      (i : Inputs Carrier) (decision : ℕ) (o : RiskOutcome Carrier) (actual : Option Outcome)
      (w : World Carrier) (n : ℕ)
      → IsJudged o
      → o.ensemble_fed_at ≡ none
      → ((t : ℕ) × (o.evaluated_at ≡ some t))
      → All IsJudged (feed_row f r i decision o actual w n).rows
  unfolding feed_row
  feed_row-IsJudged i decision o none w n h fresh done = (h, tt)
  feed_row-IsJudged i decision o (some actual) w n h fresh (t, done) = ground arith

  recent_facts :
      (decision window : ℕ) (evaluated fed : Option ℕ)
      → is_recent f r decision window evaluated fed ≡ true
      → (fed ≡ none) × ((t : ℕ) × (evaluated ≡ some t))
  recent_facts decision window none fed h = absurd (ground arith)
  recent_facts decision window (some t) none h = (refl, (t, refl))
  recent_facts decision window (some t) (some u) h = absurd (ground arith)

  feed_if-IsJudged :
      (i : Inputs Carrier) (decision window : ℕ) (o : RiskOutcome Carrier) (w : World Carrier)
      (n : ℕ)
      → IsJudged o
      → All IsJudged (feed_if f r i decision window o w n).rows
  feed_if-IsJudged i decision window o w n h =
      elim (Bool-cases
        (is_recent f r decision window o.evaluated_at o.ensemble_fed_at && not (leb max_feed n))) [
          | inl due ↦
              let (fresh, done) =
                recent_facts decision window o.evaluated_at o.ensemble_fed_at (ground arith) in
              rw due (feed_row-IsJudged i decision o (actual_of f r i o) w n h fresh done)
          | inr idle ↦ rw idle (h, tt)
        ]

  feed_rows-IsJudged :
      (i : Inputs Carrier) (decision window : ℕ) (l : List (RiskOutcome Carrier))
      (w : World Carrier) (n : ℕ)
      → All IsJudged l
      → All IsJudged (feed_rows f r i decision window l w n).rows
  unfolding feed_rows
  feed_rows-IsJudged i decision window [] w n h = tt
  feed_rows-IsJudged i decision window (o ∷ l) w n h =
      let one = feed_if f r i decision window o w n in
      All-append one.rows (feed_rows f r i decision window l one.world one.fed_count).rows
        (feed_if-IsJudged i decision window o w n h.0)
        (feed_rows-IsJudged i decision window l one.world one.fed_count h.1)

  record_risk_outcome-IsJudged :
      (events : List Event) (asset : ℕ) (band : RiskBand) (id decision : ℕ)
      (ml heuristic : Option RiskBand) (l : List (RiskOutcome Carrier))
      → All IsJudged l
      → All IsJudged (record_risk_outcome f events asset band id decision ml heuristic l)
  unfolding record_risk_outcome
  record_risk_outcome-IsJudged events asset band id decision ml heuristic l h =
      elim (Bool-cases (has_score f id l)) [
        | inl old ↦ rw old h
        | inr new ↦ rw new (All-append l _ h (ground arith, tt))
      ]

  step-IsJudged :
      (c : Command Carrier) (s : Observed Carrier)
      → All IsJudged s.rows
      → All IsJudged (step c s).rows
  unfolding step evaluate_outcomes
  step-IsJudged (score events asset band id decision ml heuristic) s h =
      record_risk_outcome-IsJudged events asset band id decision ml heuristic s.rows h
  step-IsJudged (pass i k decision window) s h =
      feed_rows-IsJudged i decision window (evaluate_rows f k decision window s.rows) s.world 0
        (evaluate_rows-IsJudged k decision window s.rows h)

  run_from :
      (cs : List (Command Carrier)) (s : Observed Carrier)
      → All IsJudged s.rows
      → All IsJudged (run cs s).rows
  unfolding run
  run_from [] s h = h
  run_from (c ∷ cs) s h = run_from cs (step c s) (step-IsJudged c s h)

  pub run-IsJudged :
      (cs : List (Command Carrier)) (w : World Carrier)
      → All IsJudged (run cs (record { rows = []; world = w })).rows
  run-IsJudged cs w = run_from cs (record { rows = []; world = w }) tt
