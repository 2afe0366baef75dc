-- ===== src/Scoring/Blend.antt =====
-- `EnsembleEngine.blend` of scoring/ensemble.py, once the weights are there. `-x` is `0 - x`.
use hype_coin_predictive_eng.Prelude.{Option, none, some, if◌then◌else◌}
use hype_coin_predictive_eng.Prelude.Int.{pos}
use hype_coin_predictive_eng.Float.{Float}
use hype_coin_predictive_eng.Float.MinMax.{zero_float, one_float}
use hype_coin_predictive_eng.Risk.Band.{RiskBand}
use hype_coin_predictive_eng.Scoring.Scorer.{
  Rounding, clamp, clamp_score, risk_band_from_score, calibrated_confidence,
}
use hype_coin_predictive_eng.Scoring.Ensemble.{Three, EnsembleEngine, World, Read, Moment}
use hype_coin_predictive_eng.Scoring.Weights.{get_weights}

pub record Scores (F : Type 0) : Type 0 where
  pub rule_hype : F
  pub rule_risk : F
  pub rule_confidence : F
  pub ml_hype : Option F
  pub ml_risk : Option F
  pub ml_confidence : Option F
  pub heuristic_score : Option F

pub record EnsembleScore (F : Type 0) : Type 0 where
  pub hype : F
  pub risk : F
  pub confidence : F
  pub research_priority : F
  pub risk_band : RiskBand
  pub weights : Three F
  pub ml_contribution : F
  pub heuristic_contribution : F

abbrev pub or_else : {A : Type 0} → Option A → A → A
or_else none a = a
or_else (some b) a = b

module _ (f : Float) (r : Rounding f) where
  open f use {Carrier, cents}

  abbrev pub negate : Carrier → Carrier
  negate x = f.sub (zero_float f) x

  abbrev pub abs : Carrier → Carrier
  abs x = if f.ltb x (zero_float f) then negate x else x

  abbrev pub hype_boost : Carrier → Carrier
  hype_boost h = clamp f (zero_float f) (cents (pos 3000)) (f.mul h (cents (pos 1000)))

  abbrev pub risk_boost : Carrier → Carrier
  risk_boost h = clamp f (zero_float f) (cents (pos 2000)) (f.mul (negate h) (cents (pos 500)))

  -- `w_rule * rule + w_ml * ml + w_heuristic * (rule + boost) / 2`
  abbrev pub mix : Three Carrier → Carrier → Carrier → Carrier → Carrier
  mix w rule_value ml_value boost = clamp_score f (
      f.add (f.add (f.mul w.rule rule_value) (f.mul w.ml ml_value))
        (f.div (f.mul w.heuristic (f.add rule_value boost)) (cents (pos 200))))

  abbrev pub confidence_factor : Option Carrier → Carrier
  confidence_factor none = one_float f
  confidence_factor (some c) = f.div c (cents (pos 10000))

  abbrev pub mix_confidence : Three Carrier → Carrier → Option Carrier → Carrier
  mix_confidence w rule_value ml =
      let raw = clamp_score f (
        f.add (f.add (f.mul w.rule rule_value) (f.mul w.ml (or_else ml rule_value)))
          (f.mul w.heuristic rule_value)) in
      clamp_score f (f.mul raw (confidence_factor ml))

  abbrev pub priority : Carrier → Carrier → Carrier → Carrier
  priority hype confidence risk =
      clamp_score f
        (f.sub (f.mul hype (f.div confidence (cents (pos 10000)))) (f.mul risk (cents (pos 35))))

  -- The score, with the weights and the engine that `get_weights` gives.
  unfoldable pub blended :
      Scores Carrier → Three Carrier → EnsembleEngine Carrier → EnsembleScore Carrier
  blended s w e =
      let ml_h = or_else s.ml_hype s.rule_hype in
      let boost = hype_boost (or_else s.heuristic_score (zero_float f)) in
      let hype = mix w s.rule_hype ml_h boost in
      let risk =
        mix w s.rule_risk (or_else s.ml_risk s.rule_risk)
          (risk_boost (or_else s.heuristic_score (zero_float f))) in
      let confidence = mix_confidence w s.rule_confidence s.ml_confidence in
      record {
        hype = r.round 4 hype;
        risk = r.round 4 risk;
        confidence = r.round 4 (calibrated_confidence f r confidence e.accuracies.rule);
        research_priority = r.round 4 (priority hype confidence risk);
        risk_band = risk_band_from_score f risk;
        weights = w;
        ml_contribution = r.round 4 (abs (f.mul w.ml (f.sub ml_h s.rule_hype)));
        heuristic_contribution = r.round 4 (abs (f.mul w.heuristic boost));
      }

  unfoldable pub blend :
      Read → Moment → Scores Carrier → World Carrier → EnsembleScore Carrier × World Carrier
  unfolding blended get_weights
  blend read m s w =
      let (weights, w') = get_weights f r read m w in (blended s weights w'.engine, w')
