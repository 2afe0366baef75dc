-- ===== src/Risk/Band.antt =====
-- `band_from_collapse_probability` of risk_engine/rules.py.
use hype_coin_predictive_eng.Prelude.{Option, none, some, if◌then◌else◌}
use hype_coin_predictive_eng.Prelude.Int.{pos}
use hype_coin_predictive_eng.Float.{Float}
use hype_coin_predictive_eng.Float.MinMax.{min_float}

pub data RiskBand : Type 0 where
  green : RiskBand
  yellow : RiskBand
  orange : RiskBand
  red : RiskBand
  black : RiskBand

-- The boundaries of YELLOW, ORANGE and RED.
pub record Thresholds (F : Type 0) : Type 0 where
  pub yellow_from : F
  pub orange_from : F
  pub red_from : F

module _ (f : Float) where
  open f use {Carrier, cents}

  -- 0.10, 0.30, 0.50 and 0.75
  abbrev pub default_prob : Thresholds Carrier
  default_prob = record {
    yellow_from = cents (pos 10);
    orange_from = cents (pos 30);
    red_from = cents (pos 50);
  }

  abbrev pub default_prob_black : Carrier
  default_prob_black = cents (pos 75)

  -- The thresholds that the calibrator gives; `none` if there is no session or the lookup raised.
  abbrev pub calibrated : Thresholds Carrier → Option (Thresholds Carrier) → Thresholds Carrier
  calibrated default none = default
  calibrated default (some t) = t

  -- Every boundary at least 0.01 below the next.
  unfoldable pub ordered : Thresholds Carrier → Thresholds Carrier
  ordered t =
      let red_from = min_float f t.red_from (f.sub default_prob_black (cents (pos 1))) in
      let orange_from = min_float f t.orange_from (f.sub red_from (cents (pos 1))) in
      let yellow_from = min_float f t.yellow_from (f.sub orange_from (cents (pos 1))) in
      record { yellow_from = yellow_from; orange_from = orange_from; red_from = red_from }

  -- The tests from the highest band down.
  unfoldable pub band_of : Carrier → Thresholds Carrier → RiskBand
  band_of probability t =
      if f.leb default_prob_black probability
      then black
      else if f.leb t.red_from probability
      then red
      else if f.leb t.orange_from probability
      then orange
      else if f.leb t.yellow_from probability
      then yellow
      else green

  unfoldable pub band_from_collapse_probability : Carrier → Option (Thresholds Carrier) → RiskBand
  unfolding ordered band_of
  band_from_collapse_probability probability ml =
      band_of probability (ordered (calibrated default_prob ml))
