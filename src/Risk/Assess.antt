-- ===== src/Risk/Assess.antt =====
-- The rules of `assess_risk` of risk_engine/rules.py, one function per block in the order of the code,
-- and the assessment. The calibrator's answers are arguments: `none` thresholds stand for no session or
-- a lookup that raised.
use hype_coin_predictive_eng.Prelude.{
  Bool, false, not, ◌&&◌, ◌||◌, Option, ℕ, String, List, [], ◌∷◌, if◌then◌else◌, Dict,
}
use hype_coin_predictive_eng.Prelude.Int.{pos}
use hype_coin_predictive_eng.Float.{Float}
use hype_coin_predictive_eng.Float.MinMax.{min_float, max_float, zero_float, one_float}
use hype_coin_predictive_eng.Risk.Band.{
  green, yellow, red, black, orange, Thresholds, band_from_collapse_probability,
}
use hype_coin_predictive_eng.Risk.Rules.{
  solana, lifecycle_collapse, lifecycle_saturation, liquidity_below_hard_minimum,
  liquidity_below_validated, suspicious_flags_present, multiple_suspicious_flags,
  withdrawal_detected, withdrawal_shallow, lp_removal_detected, lp_removal_shallow,
  launch_wallets_match, collapse_assigned, elevated_collapse_assigned, extreme_concentration,
  high_concentration, pair_too_new, high_spread, sell_pressure, low_holder_count,
  extreme_volatility, Settings, Inputs, Tally, Features, feature, apply_reason_weights, append,
  reject, score_reason, ramp_down, solana_safety_rules,
}

module _ (f : Float) where
  open f use {Carrier, cents}

  abbrev points_of : ℕ → Carrier
  points_of n = cents (pos n)

  abbrev pub at_least : Carrier → ℕ → Bool
  at_least x n = f.leb (cents (pos n)) x

  module _ (weights : Dict Carrier) where
    abbrev weighted : Carrier → String → Carrier
    weighted points reason = apply_reason_weights f points reason weights

    unfoldable pub solana_rules :
        Features f → List (String × Carrier × String) → Tally Carrier → Tally Carrier
    solana_rules features [] t = t
    solana_rules features ((name, points, reason) ∷ rules) t =
        let pts = weighted points reason in
        solana_rules features rules (
          if at_least ((feature f features name (zero_float f) []).0) 100
          then score_reason f pts (solana reason pts) t
          else t)

    unfoldable pub lifecycle_rule : Inputs Carrier → Tally Carrier → Tally Carrier
    lifecycle_rule i t =
        if at_least i.lifecycle_phase 400
        then score_reason f (weighted (points_of 2500) "Lifecycle collapse phase")
            lifecycle_collapse t
        else if at_least i.lifecycle_phase 300
        then score_reason f (weighted (points_of 1000) "Lifecycle saturation phase")
            lifecycle_saturation t
        else t

    -- `liquidity <= 0 or liquidity < settings.black_min_liquidity_usd`
    abbrev pub is_thin : Settings Carrier → Inputs Carrier → Bool
    is_thin s i = f.leb i.liquidity (zero_float f) || f.ltb i.liquidity s.black_min_liquidity_usd

    -- `liquidity < settings.min_validated_liquidity_usd`
    abbrev pub is_shallow : Settings Carrier → Inputs Carrier → Bool
    is_shallow s i = f.ltb i.liquidity s.min_validated_liquidity_usd

    unfoldable pub liquidity_rule :
        Settings Carrier → Inputs Carrier → Tally Carrier → Tally Carrier
    liquidity_rule s i t =
        let hard_ratio =
          if f.ltb (zero_float f) i.liquidity
          then min_float f (one_float f)
              (f.div i.liquidity (max_float f s.black_min_liquidity_usd (one_float f)))
          else zero_float f in
        let soft_ratio =
          f.div i.liquidity (max_float f s.min_validated_liquidity_usd (one_float f)) in
        if is_thin s i
        then score_reason f
            (weighted (ramp_down f (points_of 4500) hard_ratio) "Pair liquidity below hard minimum")
            (liquidity_below_hard_minimum i.liquidity) (reject f t)
        else if is_shallow s i
        then score_reason f (weighted (ramp_down f (points_of 1800) soft_ratio) "Low liquidity")
            (liquidity_below_validated i.liquidity) t
        else t

    unfoldable pub flags_rule : Inputs Carrier → Tally Carrier → Tally Carrier
    flags_rule i t =
        let base = min_float f (points_of 5000) (f.mul i.suspicious_flags (points_of 2000)) in
        let t' =
          if at_least i.suspicious_flags 100
          then score_reason f (weighted base "Suspicious contract flags")
              (suspicious_flags_present i.suspicious_flags) t
          else t in
        if at_least i.suspicious_flags 300
        then append f multiple_suspicious_flags (reject f t')
        else t'

    unfoldable pub withdrawal_rule :
        Settings Carrier → Inputs Carrier → Tally Carrier → Tally Carrier
    withdrawal_rule s i t =
        let t' =
          score_reason f (weighted (points_of 2500) "Liquidity withdrawal")
            (withdrawal_detected i.withdrawal_signal) t in
        if at_least i.withdrawal_signal 100
        then (if is_shallow s i then append f withdrawal_shallow (reject f t') else t')
        else t

    unfoldable pub lp_removal_rule :
        Settings Carrier → Inputs Carrier → Tally Carrier → Tally Carrier
    lp_removal_rule s i t =
        let base = min_float f (points_of 3500) (f.mul i.lp_removal_signal (points_of 2000)) in
        let t' =
          score_reason f (weighted base "LP removal") (lp_removal_detected i.lp_removal_signal) t in
        if at_least i.lp_removal_signal 100
        then (if is_shallow s i then append f lp_removal_shallow (reject f t') else t')
        else t

    unfoldable pub recidivism_rule : Inputs Carrier → Tally Carrier → Tally Carrier
    recidivism_rule i t =
        if at_least i.recidivism 6000
        then score_reason f (weighted (points_of 1500) "Recidivism")
            (launch_wallets_match i.recidivism) t
        else t

    unfoldable pub collapse_rule :
        Option (Thresholds Carrier) → Inputs Carrier → Tally Carrier → Tally Carrier
    collapse_rule ml i t = elim (band_from_collapse_probability f i.collapse_probability ml) [
      | green ↦ t
      | yellow ↦ t
      | orange ↦
          score_reason f (weighted (points_of 1000) "Collapse probability")
            (elevated_collapse_assigned i.collapse_probability) t
      | red ↦
          score_reason f (weighted (points_of 2000) "Collapse probability")
            (collapse_assigned i.collapse_probability) t
      | black ↦
          score_reason f (weighted (points_of 2000) "Collapse probability")
            (collapse_assigned i.collapse_probability) t
    ]

    unfoldable pub concentration_rule : Inputs Carrier → Tally Carrier → Tally Carrier
    concentration_rule i t =
        let extreme = f.div (f.sub i.concentration (cents (pos 90))) (cents (pos 10)) in
        let high = f.div (f.sub i.concentration (cents (pos 60))) (cents (pos 30)) in
        if at_least i.concentration 90
        then score_reason f
            (weighted (f.mul (points_of 3500) extreme) "Extreme top-holder concentration")
            (extreme_concentration i.concentration) (reject f t)
        else if at_least i.concentration 60
        then score_reason f (weighted (f.mul (points_of 2000) high) "Holder concentration")
            (high_concentration i.concentration) t
        else t

    -- `pair_age < 10 and liquidity < settings.min_validated_liquidity_usd`
    abbrev pub is_new : Settings Carrier → Inputs Carrier → Bool
    is_new s i = f.ltb i.pair_age (cents (pos 1000)) && is_shallow s i

    unfoldable pub age_rule : Settings Carrier → Inputs Carrier → Tally Carrier → Tally Carrier
    age_rule s i t =
        if is_new s i
        then score_reason f
            (weighted (ramp_down f (points_of 2500) (f.div i.pair_age (cents (pos 1000))))
              "Pair too new with insufficient depth")
            pair_too_new (reject f t)
        else t

    unfoldable pub spread_rule : Inputs Carrier → Tally Carrier → Tally Carrier
    spread_rule i t =
        let extra =
          f.div (min_float f (cents (pos 1500)) (f.sub i.spread (cents (pos 1000))))
            (cents (pos 1500)) in
        if f.ltb (cents (pos 1000)) i.spread
        then score_reason f (weighted (f.mul (points_of 1200) extra) "Spread")
            (high_spread i.spread) t
        else t

    unfoldable pub sell_rule : Inputs Carrier → Tally Carrier → Tally Carrier
    sell_rule i t =
        if f.ltb i.buy_sell_ratio (cents (pos 25))
        then score_reason f
            (weighted (ramp_down f (points_of 1000) (f.div i.buy_sell_ratio (cents (pos 25))))
              "Sell pressure")
            (sell_pressure i.buy_sell_ratio) t
        else t

    -- A float is true unless it is zero.
    abbrev pub is_zero : Carrier → Bool
    is_zero x = f.leb x (zero_float f) && f.leb (zero_float f) x

    unfoldable pub holder_rule : Settings Carrier → Inputs Carrier → Tally Carrier → Tally Carrier
    holder_rule s i t =
        if not (is_zero i.holder_count)
          && (f.ltb i.holder_count (cents (pos 5000)) && is_shallow s i)
        then score_reason f (weighted (points_of 1500) "Low holder count")
            (low_holder_count i.holder_count) t
        else t

    unfoldable pub volatility_rule : Inputs Carrier → Tally Carrier → Tally Carrier
    volatility_rule i t =
        let extra =
          f.div (min_float f (cents (pos 3000)) (f.sub i.volatility (cents (pos 3000))))
            (cents (pos 3000)) in
        if f.ltb (cents (pos 3000)) i.volatility
        then score_reason f (weighted (f.mul (points_of 800) extra) "Volatility")
            (extreme_volatility i.volatility) t
        else t

    abbrev pub start_tally : Tally Carrier
    start_tally = record { risk_points = zero_float f; reasons = []; hard_reject = false }

    -- The rules, in the order of the code.
    unfoldable pub tally :
        Settings Carrier → Option (Thresholds Carrier) → Features f → Inputs Carrier → Tally Carrier
    tally s ml features i =
        let t = solana_rules features (solana_safety_rules f) start_tally in
        let t = lifecycle_rule i t in
        let t = liquidity_rule s i t in
        let t = flags_rule i t in
        let t = withdrawal_rule s i t in
        let t = lp_removal_rule s i t in
        let t = recidivism_rule i t in
        let t = collapse_rule ml i t in
        let t = concentration_rule i t in
        let t = age_rule s i t in
        let t = spread_rule i t in
        let t = sell_rule i t in let t = holder_rule s i t in volatility_rule i t
