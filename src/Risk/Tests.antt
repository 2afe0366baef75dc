-- ===== src/Risk/Tests.antt =====
-- Assessments in hundredths, and the theorems at concrete inputs.
use hype_coin_predictive_eng.Prelude.{◌≡◌, ◌↔◌, refl, true, none, some, [], ◌∷◌, lookup}
use hype_coin_predictive_eng.Prelude.Int.{ℤ, pos, ◌+ℤ◌, ◌-ℤ◌}
use hype_coin_predictive_eng.Float.{hundredths}
use hype_coin_predictive_eng.Risk.Band.{
  green, black, ordered, band_of, band_from_collapse_probability,
}
use hype_coin_predictive_eng.Risk.Rules.{
  Settings, Features, feature, read_inputs, apply_reason_weights,
}
use hype_coin_predictive_eng.Risk.Assess
use hype_coin_predictive_eng.Risk.Score.{Calibration, assessment, assess_risk, weights_of}
use hype_coin_predictive_eng.Risk.Verdict.{
  is_structural, assess_risk_hard_reject, assess_risk_score,
}

program : Unit {0}
unfolding ◌+ℤ◌ ◌-ℤ◌ lookup ordered band_of band_from_collapse_probability feature read_inputs
    apply_reason_weights Assess.solana_rules Assess.lifecycle_rule Assess.liquidity_rule
    Assess.flags_rule Assess.withdrawal_rule Assess.lp_removal_rule Assess.recidivism_rule
    Assess.collapse_rule Assess.concentration_rule Assess.age_rule Assess.spread_rule
    Assess.sell_rule Assess.holder_rule Assess.volatility_rule Assess.tally assessment assess_risk
program = tt

abbrev settings : Settings ℤ
settings = record {
  black_min_liquidity_usd = pos 500000;
  min_validated_liquidity_usd = pos 2500000;
}

abbrev uncalibrated : Calibration ℤ
uncalibrated = record { thresholds = none; reason_weights = []; ml_thresholds = none }

-- A pair of 100,000 USD with an hour of age and no warning.
abbrev sound : Features hundredths
sound = ("liquidity_depth", some (pos 10000000)) ∷ ("pair_age_minutes", some (pos 6000)) ∷ []

-- The same pair with its liquidity at 10,000 USD and being withdrawn.
abbrev draining : Features hundredths
draining =
    ("liquidity_depth", some (pos 1000000))
    ∷ ("liquidity_withdrawal_signal", some (pos 100))
    ∷ sound

sound_test : (assess_risk hundredths (λ l. l) settings uncalibrated sound).band ≡ green
unfolding program
sound_test = refl

draining_test :
    ((assess_risk hundredths (λ l. l) settings uncalibrated draining).band ≡ black)
    × ((assess_risk hundredths (λ l. l) settings uncalibrated draining).hard_reject ≡ true)
unfolding program
draining_test = (refl, refl)

assess_risk_hard_reject_example :
    let r = assess_risk hundredths (λ l. l) settings uncalibrated draining in
    (r.hard_reject
      ≡ is_structural hundredths
          (weights_of hundredths uncalibrated)
          settings
          ((read_inputs hundredths draining).0))
    × ((r.band ≡ black) ↔ (r.hard_reject ≡ true))
assess_risk_hard_reject_example =
    assess_risk_hard_reject hundredths (λ l. l) settings uncalibrated draining

assess_risk_score_example :
    let r = assess_risk hundredths (λ l. l) settings uncalibrated draining in
    (hundredths.leb (pos 0) r.score ≡ true)
    × (hundredths.leb r.score (pos 10000) ≡ true)
    × (r.hard_reject ≡ true → hundredths.leb (pos 4000) r.score ≡ true)
assess_risk_score_example = assess_risk_score hundredths (λ l. l) settings uncalibrated draining
