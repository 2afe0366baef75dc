-- ===== src/Risk/Rules.antt =====
-- `assess_risk` of risk_engine/rules.py: the features, the reasons and the rules up to the score.
-- A reason is a value with the numbers its text shows. Every key that `_apply_reason_weights` makes of
-- a reason is the reason's text itself, since none has a colon or more than 60 characters.
use hype_coin_predictive_eng.Prelude.{
  Bool, true, Option, none, some, String, List, [], ◌∷◌, ◌++◌, Dict, lookup, get_or, add,
}
use hype_coin_predictive_eng.Prelude.Int.{pos}
use hype_coin_predictive_eng.Float.{Float}
use hype_coin_predictive_eng.Float.MinMax.{zero_float, one_float}

pub data Reason (F : Type 0) : Type 0 where
  solana : String → F → Reason F
  lifecycle_collapse : Reason F
  lifecycle_saturation : Reason F
  liquidity_below_hard_minimum : F → Reason F
  liquidity_below_validated : F → Reason F
  suspicious_flags_present : F → Reason F
  multiple_suspicious_flags : Reason F
  withdrawal_detected : F → Reason F
  withdrawal_shallow : Reason F
  lp_removal_detected : F → Reason F
  lp_removal_shallow : Reason F
  launch_wallets_match : F → Reason F
  collapse_assigned : F → Reason F
  elevated_collapse_assigned : F → Reason F
  extreme_concentration : F → Reason F
  high_concentration : F → Reason F
  pair_too_new : Reason F
  high_spread : F → Reason F
  sell_pressure : F → Reason F
  low_holder_count : F → Reason F
  extreme_volatility : F → Reason F
  no_major_danger : Reason F

pub record Settings (F : Type 0) : Type 0 where
  pub black_min_liquidity_usd : F
  pub min_validated_liquidity_usd : F

pub record Inputs (F : Type 0) : Type 0 where
  pub liquidity : F
  pub suspicious_flags : F
  pub concentration : F
  pub pair_age : F
  pub spread : F
  pub buy_sell_ratio : F
  pub holder_count : F
  pub volatility : F
  pub withdrawal_signal : F
  pub lp_removal_signal : F
  pub recidivism : F
  pub collapse_probability : F
  pub lifecycle_phase : F

-- `risk_points`, `reasons` and `hard_reject`.
pub record Tally (F : Type 0) : Type 0 where
  pub risk_points : F
  pub reasons : List (Reason F)
  pub hard_reject : Bool

module _ (f : Float) where
  open f use {Carrier, cents}

  -- A feature's value, `none` for one that `float` refuses.
  abbrev pub Features : Type 0
  Features = Dict (Option Carrier)

  -- The value, and the names that hit their default so far.
  unfoldable pub feature : Features → String → Carrier → List String → Carrier × List String
  feature features name default defaulted = elim (lookup name features) [
    | none ↦ (default, add name defaulted)
    | some value ↦ elim value [ none ↦ (default, add name defaulted) | some x ↦ (x, defaulted) ]
  ]

  -- The thirteen lookups, in order.
  unfoldable pub read_inputs : Features → Inputs Carrier × List String
  unfolding feature
  read_inputs features =
      let zero = zero_float f in
      let one = one_float f in
      let (liquidity, d) = feature features "liquidity_depth" zero [] in
      let (suspicious_flags, d) = feature features "suspicious_contract_flags" zero d in
      let (concentration, d) = feature features "top_holder_concentration" zero d in
      let (pair_age, d) = feature features "pair_age_minutes" zero d in
      let (spread, d) = feature features "spread_estimate" zero d in
      let (buy_sell_ratio, d) = feature features "buy_sell_ratio" one d in
      let (holder_count, d) = feature features "holder_count" zero d in
      let (volatility, d) = feature features "volatility" zero d in
      let (withdrawal_signal, d) = feature features "liquidity_withdrawal_signal" zero d in
      let (lp_removal_signal, d) = feature features "lp_removal_signal" zero d in
      let (recidivism, d) = feature features "recidivism_score" zero d in
      let (collapse_probability, d) = feature features "collapse_probability_24h" zero d in
      let (lifecycle_phase, d) = feature features "lifecycle_phase" one d in
      (
        record {
          liquidity = liquidity;
          suspicious_flags = suspicious_flags;
          concentration = concentration;
          pair_age = pair_age;
          spread = spread;
          buy_sell_ratio = buy_sell_ratio;
          holder_count = holder_count;
          volatility = volatility;
          withdrawal_signal = withdrawal_signal;
          lp_removal_signal = lp_removal_signal;
          recidivism = recidivism;
          collapse_probability = collapse_probability;
          lifecycle_phase = lifecycle_phase;
        },
        d,
      )

  -- No weights, or the points times the weight of the reason, 1.0 if it has none.
  unfoldable pub apply_reason_weights : Carrier → String → Dict Carrier → Carrier
  apply_reason_weights base_points reason [] = base_points
  apply_reason_weights base_points reason (w ∷ ws) =
      f.mul base_points (get_or reason (one_float f) (w ∷ ws))

  -- `reasons.append(...)`
  abbrev pub append : Reason Carrier → Tally Carrier → Tally Carrier
  append r t = record t { reasons = t.reasons ++ (r ∷ []) }

  -- `hard_reject = True`
  abbrev pub reject : Tally Carrier → Tally Carrier
  reject t = record t { hard_reject = true }

  -- `risk_points += pts` and `reasons.append(...)`
  abbrev pub score_reason : Carrier → Reason Carrier → Tally Carrier → Tally Carrier
  score_reason pts r t = append r (record t { risk_points = f.add t.risk_points pts })

  -- A ratio's complement, `points * (1.0 - ratio)`.
  abbrev pub ramp_down : Carrier → Carrier → Carrier
  ramp_down points ratio = f.mul points (f.sub (one_float f) ratio)

  -- `_SOLANA_SAFETY_RULES`
  abbrev pub solana_safety_rules : List (String × Carrier × String)
  solana_safety_rules =
      ("solana_mint_authority_active", cents (pos 2000), "Solana mint authority remains active")
      ∷ (
        "solana_freeze_authority_active",
        cents (pos 2500),
        "Solana freeze authority remains active",
      )
      ∷ ("solana_transfer_fee_enabled", cents (pos 1200), "Token-2022 transfer fee is configured")
      ∷ (
        "solana_permanent_delegate_enabled",
        cents (pos 2000),
        "Token-2022 permanent delegate is configured",
      )
      ∷ ("solana_non_transferable_enabled", cents (pos 1000), "Token-2022 mint is non-transferable")
      ∷ ("solana_default_account_frozen", cents (pos 1200), "Token-2022 accounts default to frozen")
      ∷ (
        "solana_lp_unlocked",
        cents (pos 1800),
        "Parsed pool evidence shows LP tokens are unlocked",
      )
      ∷ []
