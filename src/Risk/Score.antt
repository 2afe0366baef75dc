-- ===== src/Risk/Score.antt =====
-- The assessment that `assess_risk` of risk_engine/rules.py makes of the tally. The calibrator's answers
-- are arguments: `none` thresholds stand for no session or a lookup that raised.
use hype_coin_predictive_eng.Prelude.{
  Bool, true, false, Option, none, some, String, List, [], ◌∷◌, if◌then◌else◌, Dict,
}
use hype_coin_predictive_eng.Prelude.Int.{pos}
use hype_coin_predictive_eng.Float.{Float}
use hype_coin_predictive_eng.Float.MinMax.{min_float, max_float, zero_float}
use hype_coin_predictive_eng.Risk.Band.{
  RiskBand, green, yellow, red, black, orange, Thresholds, calibrated,
}
use hype_coin_predictive_eng.Risk.Rules.{
  Reason, no_major_danger, Settings, Tally, Features, read_inputs,
}
use hype_coin_predictive_eng.Risk.Assess.{tally}

-- The weights are read after the thresholds, so they count only if those did not raise.
pub record Calibration (F : Type 0) : Type 0 where
  pub thresholds : Option (Thresholds F)
  pub reason_weights : Dict F
  pub ml_thresholds : Option (Thresholds F)

pub record RiskAssessment (F : Type 0) : Type 0 where
  pub band : RiskBand
  pub score : F
  pub reasons : List (Reason F)
  pub hard_reject : Bool
  pub missing_features : List String

module _ (f : Float) where
  open f use {Carrier, cents}

  abbrev pub default_score : Thresholds Carrier
  default_score = record {
    yellow_from = cents (pos 2500);
    orange_from = cents (pos 5000);
    red_from = cents (pos 7500);
  }

  abbrev pub weights_of : Calibration Carrier → Dict Carrier
  weights_of c = elim (c.thresholds) [ none ↦ [] | some t ↦ c.reason_weights ]

  -- `max(0.0, min(100.0, risk_points))`
  abbrev pub clamped_score : Carrier → Carrier
  clamped_score risk_points =
      max_float f (zero_float f) (min_float f (cents (pos 10000)) risk_points)

  abbrev pub reasons_or_none : List (Reason Carrier) → List (Reason Carrier)
  reasons_or_none [] = no_major_danger ∷ []
  reasons_or_none (r ∷ rs) = r ∷ rs

  -- What follows the rules; `missing` are the sorted names of the defaulted features.
  unfoldable pub assessment :
      Thresholds Carrier → List String → Tally Carrier → RiskAssessment Carrier
  assessment thresholds missing t =
      let score = clamped_score t.risk_points in
      let rated : RiskBand → List (Reason Carrier) → RiskAssessment Carrier = λ band reasons.
        record {
          band = band;
          score = score;
          reasons = reasons;
          hard_reject = false;
          missing_features = missing;
        } in
      if t.hard_reject
      then record {
        band = black;
        score = max_float f score (cents (pos 4000));
        reasons = t.reasons;
        hard_reject = true;
        missing_features = missing;
      }
      else if f.leb thresholds.red_from score
      then rated red t.reasons
      else if f.leb thresholds.orange_from score
      then rated orange t.reasons
      else if f.leb thresholds.yellow_from score
      then rated yellow t.reasons
      else rated green (reasons_or_none t.reasons)

  -- `sorted` is Python's, a parameter.
  unfoldable pub assess_risk :
      (List String → List String)
      → Settings Carrier
      → Calibration Carrier
      → Features f
      → RiskAssessment Carrier
  unfolding assessment tally read_inputs
  assess_risk sorted s c features =
      let (i, defaulted) = read_inputs f features in
      assessment (calibrated f default_score c.thresholds) (sorted defaulted)
        (tally f (weights_of c) s c.ml_thresholds features i)
