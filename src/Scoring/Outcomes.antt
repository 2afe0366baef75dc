-- ===== src/Scoring/Outcomes.antt =====
-- `record_outcome` and `record_outcomes` of `EnsembleEngine` in scoring/ensemble.py.
use hype_coin_predictive_eng.Prelude.{
  ℕ, ◌+◌, Bool, true, false, Option, none, some, List, [], ◌∷◌, if◌then◌else◌,
}
use hype_coin_predictive_eng.Prelude.Int.{pos}
use hype_coin_predictive_eng.Float.{Float}
use hype_coin_predictive_eng.Float.MinMax.{min_float, max_float, one_float}
use hype_coin_predictive_eng.Risk.Band.{RiskBand, green, yellow, orange, red, black}
use hype_coin_predictive_eng.Scoring.Scorer.{Rounding, Scorer, record_calibration}
use hype_coin_predictive_eng.Scoring.Ensemble.{ScorerName, World, Moment, get, set, maybe_flush}

pub data Outcome : Type 0 where
  positive negative other : Outcome

module _ (f : Float) (r : Rounding f) where
  open f use {Carrier, cents}

  -- A prediction was correct if its band fits the outcome.
  abbrev pub is_correct : RiskBand → Outcome → Bool
  is_correct green positive = true
  is_correct green negative = false
  is_correct green other = false
  is_correct yellow positive = true
  is_correct yellow negative = false
  is_correct yellow other = false
  is_correct orange positive = false
  is_correct orange negative = true
  is_correct orange other = false
  is_correct red positive = false
  is_correct red negative = true
  is_correct red other = false
  is_correct black positive = false
  is_correct black negative = true
  is_correct black other = false

  abbrev pub effective_weight : Option Carrier → Option Carrier → Carrier
  effective_weight (some weight) confidence = weight
  effective_weight none (some c) =
      max_float f (cents (pos 10)) (min_float f (one_float f) (f.div c (cents (pos 10000))))
  effective_weight none none = one_float f

  pub record Entry : Type 0 where
    pub scorer_name : Option ScorerName
    pub predicted_band : RiskBand
    pub actual_outcome : Outcome
    pub confidence : Option Carrier
    pub weight : Option Carrier

  abbrev pub calibrate_with : Option Carrier → Bool → Scorer Carrier → Scorer Carrier
  calibrate_with none correct s = s
  calibrate_with (some c) correct s = record_calibration f r c correct s

  -- The scorer after an outcome.
  unfoldable pub learn : ℕ → Entry → Scorer Carrier → Scorer Carrier
  learn now o s =
      let weight = effective_weight o.weight o.confidence in
      let correct = is_correct o.predicted_band o.actual_outcome in
      let counted = record s {
        total_predictions = f.add s.total_predictions weight;
        correct_predictions =
            if correct then f.add s.correct_predictions weight else s.correct_predictions;
      } in
      record (calibrate_with o.confidence correct counted) { last_updated = now }

  -- `record_outcome`; no name stands for one that is not a scorer's.
  unfoldable pub record_outcome : Moment → Entry → World Carrier → World Carrier
  unfolding learn maybe_flush
  record_outcome m o w = elim (o.scorer_name) [
    | none ↦ w
    | some name ↦
        let e = w.engine in
        maybe_flush f r m (record w {
          engine = record e {
            accuracies = set name (learn m.now o (get name e.accuracies)) e.accuracies;
            pending_outcomes = e.pending_outcomes + 1;
          };
        })
  ]

  -- `record_outcomes`, with what each of its calls meets.
  unfoldable pub record_outcomes : List (Moment × Entry) → World Carrier → World Carrier
  unfolding record_outcome
  record_outcomes [] w = w
  record_outcomes ((m, o) ∷ rest) w = record_outcomes rest (record_outcome m o w)
