-- ===== src/Risk/Verdict.antt =====
-- What the score and the band of an assessment are, for every feature vector and calibration.
use hype_coin_predictive_eng.Prelude.{
  ◌≡◌, ◌↔◌, refl, Bool, true, ◌&&◌, ◌||◌, Option, String, List, [], ◌∷◌, Dict, arith, Bool-cases,
  inl, inr, ◌∙◌,
}
use hype_coin_predictive_eng.Prelude.Int.{pos}
use hype_coin_predictive_eng.Float.{Float}
use hype_coin_predictive_eng.Float.MinMax.{
  max_float, zero_float, max_float_ge, max_float_le, min_float_le,
}
use hype_coin_predictive_eng.Risk.Band.{black, Thresholds, calibrated}
use hype_coin_predictive_eng.Risk.Rules.{
  Settings, Inputs, Tally, Features, read_inputs, solana_safety_rules,
}
use hype_coin_predictive_eng.Risk.Assess
use hype_coin_predictive_eng.Risk.Score.{
  Calibration, default_score, weights_of, clamped_score, assessment, assess_risk,
}

module _ (f : Float) where
  open f use {Carrier, cents}

  -- The rules leave the hard reject as it is or set it, each by its own test.
  module _ (w : Dict Carrier) (s : Settings Carrier) (i : Inputs Carrier) where
    solana_hard :
        (features : Features f) (rules : List (String × Carrier × String)) (t : Tally Carrier)
        → (Assess.solana_rules f w features rules t).hard_reject ≡ t.hard_reject
    unfolding Assess.solana_rules
    solana_hard features [] t = refl
    solana_hard features ((name, points, reason) ∷ rules) t =
        solana_hard features rules _ ∙ ground arith

    lifecycle_hard :
        (t : Tally Carrier) → (Assess.lifecycle_rule f w i t).hard_reject ≡ t.hard_reject
    unfolding Assess.lifecycle_rule
    lifecycle_hard t = ground arith

    liquidity_hard :
        (t : Tally Carrier)
        → (Assess.liquidity_rule f w s i t).hard_reject ≡ (t.hard_reject || Assess.is_thin f w s i)
    unfolding Assess.liquidity_rule
    liquidity_hard t = ground arith

    flags_hard :
        (t : Tally Carrier)
        → (Assess.flags_rule f w i t).hard_reject
          ≡ (t.hard_reject || Assess.at_least f i.suspicious_flags 300)
    unfolding Assess.flags_rule
    flags_hard t = ground arith

    withdrawal_hard :
        (t : Tally Carrier)
        → (Assess.withdrawal_rule f w s i t).hard_reject ≡ (
            t.hard_reject
            || (Assess.at_least f i.withdrawal_signal 100 && Assess.is_shallow f w s i))
    unfolding Assess.withdrawal_rule
    withdrawal_hard t = ground arith

    lp_removal_hard :
        (t : Tally Carrier)
        → (Assess.lp_removal_rule f w s i t).hard_reject ≡ (
            t.hard_reject
            || (Assess.at_least f i.lp_removal_signal 100 && Assess.is_shallow f w s i))
    unfolding Assess.lp_removal_rule
    lp_removal_hard t = ground arith

    recidivism_hard :
        (t : Tally Carrier) → (Assess.recidivism_rule f w i t).hard_reject ≡ t.hard_reject
    unfolding Assess.recidivism_rule
    recidivism_hard t = ground arith

    collapse_hard :
        (ml : Option (Thresholds Carrier)) (t : Tally Carrier)
        → (Assess.collapse_rule f w ml i t).hard_reject ≡ t.hard_reject
    unfolding Assess.collapse_rule
    collapse_hard ml t = ground arith

    concentration_hard :
        (t : Tally Carrier)
        → (Assess.concentration_rule f w i t).hard_reject
          ≡ (t.hard_reject || Assess.at_least f i.concentration 90)
    unfolding Assess.concentration_rule
    concentration_hard t = ground arith

    age_hard :
        (t : Tally Carrier)
        → (Assess.age_rule f w s i t).hard_reject ≡ (t.hard_reject || Assess.is_new f w s i)
    unfolding Assess.age_rule
    age_hard t = ground arith

    spread_hard : (t : Tally Carrier) → (Assess.spread_rule f w i t).hard_reject ≡ t.hard_reject
    unfolding Assess.spread_rule
    spread_hard t = ground arith

    sell_hard : (t : Tally Carrier) → (Assess.sell_rule f w i t).hard_reject ≡ t.hard_reject
    unfolding Assess.sell_rule
    sell_hard t = ground arith

    holder_hard : (t : Tally Carrier) → (Assess.holder_rule f w s i t).hard_reject ≡ t.hard_reject
    unfolding Assess.holder_rule
    holder_hard t = ground arith

    volatility_hard :
        (t : Tally Carrier) → (Assess.volatility_rule f w i t).hard_reject ≡ t.hard_reject
    unfolding Assess.volatility_rule
    volatility_hard t = ground arith

    -- The six grounds of a hard reject.
    abbrev pub is_structural : Bool
    is_structural =
        Assess.is_thin f w s i
        || (Assess.at_least f i.suspicious_flags 300
            || ((Assess.at_least f i.withdrawal_signal 100 && Assess.is_shallow f w s i)
                || ((Assess.at_least f i.lp_removal_signal 100 && Assess.is_shallow f w s i)
                    || (Assess.at_least f i.concentration 90 || Assess.is_new f w s i))))

    tally_hard :
        (ml : Option (Thresholds Carrier)) (features : Features f)
        → (Assess.tally f w s ml features i).hard_reject ≡ is_structural
    unfolding Assess.tally
    tally_hard ml features =
        rw
          (
            volatility_hard _,
            holder_hard _,
            sell_hard _,
            spread_hard _,
            age_hard _,
            concentration_hard _,
            collapse_hard ml _,
            recidivism_hard _,
            lp_removal_hard _,
            withdrawal_hard _,
            flags_hard _,
            liquidity_hard _,
            lifecycle_hard _,
            solana_hard features (solana_safety_rules f) _,
          )
          (ground arith)

  assessment_hard :
      (th : Thresholds Carrier) (m : List String) (t : Tally Carrier)
      → let r = assessment f th m t in
        (r.hard_reject ≡ t.hard_reject) × ((r.band ≡ black) ↔ (r.hard_reject ≡ true))
  unfolding assessment
  assessment_hard th m t = (ground arith, ((λ e. ground arith), (λ e. ground arith)))

  -- An assessment is a hard reject exactly if the liquidity is not above zero or below the hard minimum,
  -- there are three suspicious flags or more, the liquidity is below the validated minimum while
  -- liquidity is withdrawn, the LP removed or the pair under ten minutes old, or the top holders own
  -- 90 % or more; its band is BLACK in that case and in no other.
  pub assess_risk_hard_reject :
      (sorted : List String → List String) (s : Settings Carrier) (c : Calibration Carrier)
      (features : Features f)
      → let r = assess_risk f sorted s c features in
        (r.hard_reject ≡ is_structural (weights_of f c) s ((read_inputs f features).0))
        × ((r.band ≡ black) ↔ (r.hard_reject ≡ true))
  unfolding assess_risk
  assess_risk_hard_reject sorted s c features =
      let (i, defaulted) = read_inputs f features in
      let t = Assess.tally f (weights_of f c) s c.ml_thresholds features i in
      let (hard, band) =
        assessment_hard (calibrated f (default_score f) c.thresholds) (sorted defaulted) t in
      (hard ∙ tally_hard (weights_of f c) s i c.ml_thresholds features, band)

  clamped_range :
      (x : Carrier)
      → (f.leb (zero_float f) (clamped_score f x) ≡ true)
        × (f.leb (clamped_score f x) (cents (pos 10000)) ≡ true)
  clamped_range x = (
    max_float_ge f (zero_float f) _ (f.leb_cents (pos 0) (pos 0) refl),
    max_float_le f (cents (pos 10000)) (zero_float f) _ (f.leb_cents (pos 0) (pos 10000) refl)
        (min_float_le f (cents (pos 10000)) x (f.leb_cents (pos 10000) (pos 10000) refl)),
  )

  -- `max(y, 40.0)`
  floored :
      (y : Carrier)
      → f.leb (zero_float f) y ≡ true
      → f.leb y (cents (pos 10000)) ≡ true
      → (f.leb (zero_float f) (max_float f y (cents (pos 4000))) ≡ true)
        × (f.leb (max_float f y (cents (pos 4000))) (cents (pos 10000)) ≡ true)
        × (f.leb (cents (pos 4000)) (max_float f y (cents (pos 4000))) ≡ true)
  floored y lo hi =
      let forty = f.leb_cents (pos 4000) (pos 4000) refl in
      elim (Bool-cases (f.ltb y (cents (pos 4000)))) [
        | inl low ↦
            rw low
              (f.leb_cents (pos 0) (pos 4000) refl, f.leb_cents (pos 4000) (pos 10000) refl, forty)
        | inr high ↦
            rw high
              (lo, hi, f.leb_of_not_ltb y (cents (pos 4000)) ((f.leb_self _ _ lo).1) forty high)
      ]

  assessment_score :
      (th : Thresholds Carrier) (m : List String) (t : Tally Carrier)
      → let r = assessment f th m t in
        (f.leb (zero_float f) r.score ≡ true)
        × (f.leb r.score (cents (pos 10000)) ≡ true)
        × (r.hard_reject ≡ true → f.leb (cents (pos 4000)) r.score ≡ true)
  unfolding assessment
  assessment_score th m t = elim (Bool-cases t.hard_reject) [
    | inl hard ↦
        let (lo, hi) = clamped_range t.risk_points in
        let (lo', hi', floor) = floored (clamped_score f t.risk_points) lo hi in ground arith
    | inr soft ↦ let (lo, hi) = clamped_range t.risk_points in ground arith
  ]

  -- Whatever the features, the weights and the thresholds are, NaN included, the score is a number from
  -- 0 to 100, and from 40 to 100 for a hard reject.
  pub assess_risk_score :
      (sorted : List String → List String) (s : Settings Carrier) (c : Calibration Carrier)
      (features : Features f)
      → let r = assess_risk f sorted s c features in
        (f.leb (zero_float f) r.score ≡ true)
        × (f.leb r.score (cents (pos 10000)) ≡ true)
        × (r.hard_reject ≡ true → f.leb (cents (pos 4000)) r.score ≡ true)
  unfolding assess_risk
  assess_risk_score sorted s c features =
      let (i, defaulted) = read_inputs f features in
      assessment_score (calibrated f (default_score f) c.thresholds) (sorted defaulted)
        (Assess.tally f (weights_of f c) s c.ml_thresholds features i)
