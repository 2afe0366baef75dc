-- ===== src/Observed/Feed.antt =====
-- The last part of `evaluate_outcomes`: the evaluated rows of the window go to the ensemble, each once and
-- at most a hundred in a pass; and the whole pass. What the ensemble records does not raise here.
use hype_coin_predictive_eng.Prelude.{
  ℕ, suc, ◌+◌, Bool, false, not, ◌&&◌, ◌||◌, Option, none, some, List, [], ◌∷◌, ◌++◌, leb,
  if◌then◌else◌,
}
use hype_coin_predictive_eng.Float.{Float}
use hype_coin_predictive_eng.Risk.Band.{RiskBand}
use hype_coin_predictive_eng.Scoring.Scorer.{Rounding}
use hype_coin_predictive_eng.Scoring.Ensemble.{
  ScorerName, rule_scorer, ml_scorer, heuristic_scorer, World, Moment,
}
use hype_coin_predictive_eng.Scoring.Outcomes.{Outcome, positive, negative, Entry, record_outcomes}
use hype_coin_predictive_eng.Observed.Rows.{RiskOutcome, Market, evaluate_rows}
use hype_coin_predictive_eng.Observed.Report.{RiskOutcomeReport, report_of}

abbrev pub max_feed : ℕ
max_feed = 100

-- The settings of the outcomes, and the confidence of a score, if its row is there.
pub record Inputs (F : Type 0) : Type 0 where
  pub risk_outcome_price_drop_threshold : F
  pub risk_outcome_price_gain_threshold : F
  pub confidence_of : ℕ → Option F
  -- what the calls for the n-th row of the pass meet
  pub moment : ℕ → Moment

-- The rows, the ensemble and how many rows were fed.
pub record Feeding (F : Type 0) : Type 0 where
  pub rows : List (RiskOutcome F)
  pub world : World F
  pub fed_count : ℕ

module _ (f : Float) (r : Rounding f) where
  open f use {Carrier}

  -- The outcome by the price, for a row of an unknown phase.
  abbrev pub by_price : Inputs Carrier → Option Carrier → Option Outcome
  by_price i none = none
  by_price i (some change) =
      if f.ltb change i.risk_outcome_price_drop_threshold
      then some negative
      else if f.ltb i.risk_outcome_price_gain_threshold change
      then some positive
      else none

  abbrev pub actual_of : Inputs Carrier → RiskOutcome Carrier → Option Outcome
  actual_of i o =
      if o.collapsed || o.was_rugged
      then some negative
      else if o.survived
      then some positive
      else by_price i o.price_change_pct

  abbrev pub entry : ScorerName → RiskBand → Outcome → Option Carrier → Entry f r
  entry name band actual confidence = record {
    scorer_name = some name;
    predicted_band = band;
    actual_outcome = actual;
    confidence = confidence;
    weight = none;
  }

  abbrev pub entry_if : ScorerName → Option RiskBand → Outcome → Option Carrier → List (Entry f r)
  entry_if name none actual confidence = []
  entry_if name (some band) actual confidence = entry name band actual confidence ∷ []

  abbrev pub entries_of : Inputs Carrier → RiskOutcome Carrier → Outcome → List (Entry f r)
  entries_of i o actual =
      let confidence = i.confidence_of o.score_id in
      entry rule_scorer o.risk_band actual confidence
      ∷ (entry_if ml_scorer o.ml_band actual confidence
          ++ entry_if heuristic_scorer o.heuristic_band actual confidence)

  abbrev pub at_moment : Moment → List (Entry f r) → List (Moment × Entry f r)
  at_moment m [] = []
  at_moment m (e ∷ es) = (m, e) ∷ at_moment m es

  -- The condition of the query for the rows to feed.
  abbrev pub is_recent : ℕ → ℕ → Option ℕ → Option ℕ → Bool
  is_recent decision window none fed = false
  is_recent decision window (some t) none = leb decision (t + window)
  is_recent decision window (some t) (some u) = false

  -- The body of the loop, for a row that is due, with its outcome if that is known.
  unfoldable pub feed_row :
      Inputs Carrier
      → ℕ
      → RiskOutcome Carrier
      → Option Outcome
      → World Carrier
      → ℕ
      → Feeding Carrier
  unfolding record_outcomes
  feed_row i decision o none w n = record { rows = o ∷ []; world = w; fed_count = n }
  feed_row i decision o (some actual) w n = record {
    rows = record o { ensemble_fed_at = some decision; feeds = suc o.feeds } ∷ [];
    world = record_outcomes f r (at_moment (i.moment n) (entries_of i o actual)) w;
    fed_count = suc n;
  }

  -- The rows of the table; one that is not due, or that comes after the hundredth, stays as it is.
  abbrev pub feed_if :
      Inputs Carrier → ℕ → ℕ → RiskOutcome Carrier → World Carrier → ℕ → Feeding Carrier
  feed_if i decision window o w n =
      if is_recent decision window o.evaluated_at o.ensemble_fed_at && (not (leb max_feed n))
      then feed_row i decision o (actual_of i o) w n
      else record { rows = o ∷ []; world = w; fed_count = n }

  unfoldable pub feed_rows :
      Inputs Carrier → ℕ → ℕ → List (RiskOutcome Carrier) → World Carrier → ℕ → Feeding Carrier
  unfolding feed_row
  feed_rows i decision window [] w n = record { rows = []; world = w; fed_count = n }
  feed_rows i decision window (o ∷ l) w n =
      let one = feed_if i decision window o w n in
      let rest = feed_rows i decision window l one.world one.fed_count in
      record { rows = one.rows ++ rest.rows; world = rest.world; fed_count = rest.fed_count }

  -- `evaluate_outcomes`; the window is that of the argument or of the settings.
  unfoldable pub evaluate_outcomes :
      Inputs Carrier
      → Market Carrier
      → ℕ
      → ℕ
      → List (RiskOutcome Carrier)
      → World Carrier
      → RiskOutcomeReport Carrier × Feeding Carrier
  unfolding evaluate_rows report_of feed_rows
  evaluate_outcomes i k decision window rows w =
      let evaluated = evaluate_rows f k decision window rows in
      (report_of f evaluated, feed_rows i decision window evaluated w 0)
