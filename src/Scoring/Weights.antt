-- ===== src/Scoring/Weights.antt =====
-- The weights of `EnsembleEngine`: `_recalibrate` and `get_weights` of scoring/ensemble.py.
use hype_coin_predictive_eng.Prelude.{◌-◌, leb, if◌then◌else◌}
use hype_coin_predictive_eng.Prelude.Int.{pos}
use hype_coin_predictive_eng.Float.{Float}
use hype_coin_predictive_eng.Float.MinMax.{max_float, zero_float}
use hype_coin_predictive_eng.Scoring.Scorer.{Rounding, Scorer, accuracy}
use hype_coin_predictive_eng.Scoring.Ensemble.{
  Three, World, Moment, Read, each, sum, load_from_db, save_to_db,
}

module _ (f : Float) (r : Rounding f) where
  open f use {Carrier, cents}

  abbrev pub floor_for : Carrier → Carrier
  floor_for n =
      if f.leb (cents (pos 50000)) n
      then cents (pos 2)
      else if f.leb (cents (pos 10000)) n
      then cents (pos 5)
      else cents (pos 10)

  -- The new weights, and none if the accuracies do not add up to more than 0.
  unfoldable pub next_weights : Three (Scorer Carrier) → Three Carrier
  next_weights scorers =
      let total_acc = sum f r (each (accuracy f) scorers) in
      let raw = each (λ s. r.round 4 (f.div (accuracy f s) total_acc)) scorers in
      let most =
        max_float f (max_float f scorers.rule.total_predictions scorers.ml.total_predictions)
          scorers.heuristic.total_predictions in
      let floored = each (max_float f (floor_for most)) raw in
      let total = sum f r floored in
      if f.ltb (zero_float f) total then each (λ v. r.round 4 (f.div v total)) floored else floored

  -- `_recalibrate`
  unfoldable pub recalibrate : Moment → World Carrier → World Carrier
  unfolding next_weights save_to_db
  recalibrate m w =
      let e = w.engine in
      if f.leb (sum f r (each (accuracy f) e.accuracies)) (zero_float f)
      then w
      else save_to_db f r m
          (record w { engine = record e { current_weights = next_weights e.accuracies } })

  -- `get_weights`
  unfoldable pub get_weights : Read → Moment → World Carrier → Three Carrier × World Carrier
  unfolding load_from_db recalibrate
  get_weights read m w =
      let loaded = load_from_db f r read w in
      let w' =
        if leb 3600 (m.now - loaded.engine.last_recalibrate)
        then (let calibrated = recalibrate m loaded in
            record calibrated { engine = record (calibrated.engine) { last_recalibrate = m.now } })
        else loaded in
      (w'.engine.current_weights, w')
