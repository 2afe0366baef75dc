-- ===== src/Lifecycle/Phase.antt =====
-- `LifecyclePhase`, `detect_phase`, `phase_rank` and `_advances` of pump_physics/engine.py.
use hype_coin_predictive_eng.Prelude.{
  ℕ, Bool, true, false, Option, none, some, ◌&&◌, ◌||◌, not, leb, ltb, if◌then◌else◌,
}
use hype_coin_predictive_eng.Prelude.Int.{pos, negsuc}
use hype_coin_predictive_eng.Float.{Float}

pub data LifecyclePhase : Type 0 where
  seeding ignition parabolic saturation collapse dead rugged survivor : LifecyclePhase

pub record PhaseEvidence (F : Type 0) : Type 0 where
  pub has_pool : Bool
  pub pool_age_hours : Option F
  pub ignition_events : ℕ
  pub withdrawal_events : ℕ
  pub liquidity_usd : Option F
  pub volume_acceleration : Option F
  pub buy_sell_ratio : Option F
  pub holder_growth : Option F
  pub one_hour_return : Option F
  pub narrative_velocity : Option F
  pub last_trade_hours_ago : Option F

-- `x is not None and test(x)`
abbrev pub holds {ℓ} : {A : Type ℓ} → Option A → (A → Bool) → Bool
holds none test = false
holds (some x) test = test x

abbrev pub is_none {ℓ} : {A : Type ℓ} → Option A → Bool
is_none none = true
is_none (some x) = false

unfoldable pub phase_rank : LifecyclePhase → ℕ
phase_rank seeding = 0
phase_rank ignition = 1
phase_rank parabolic = 2
phase_rank saturation = 3
phase_rank collapse = 4
phase_rank _ = 5

-- `in _TERMINAL`, and `in _ALERT_PHASES`
abbrev pub is_terminal : LifecyclePhase → Bool
is_terminal dead = true
is_terminal rugged = true
is_terminal survivor = true
is_terminal _ = false

abbrev pub is_alert_phase : LifecyclePhase → Bool
is_alert_phase collapse = true
is_alert_phase rugged = true
is_alert_phase dead = true
is_alert_phase _ = false

unfoldable pub advances : Option LifecyclePhase → LifecyclePhase → Bool
unfolding phase_rank
advances none detected = true
advances (some current) detected =
    if is_terminal current
    then false
    else if is_terminal detected
    then true
    else ltb (phase_rank current) (phase_rank detected)

module _ (f : Float) where
  open f use {Carrier, cents}

  abbrev at_most_zero : Carrier → Bool
  at_most_zero x = f.leb x (cents (pos 0))

  abbrev at_least : ℕ → Carrier → Bool
  at_least n x = f.leb (cents (pos n)) x

  -- The tests of `detect_phase`, in the order in which they are made.
  unfoldable pub is_rugged : PhaseEvidence Carrier → Bool
  is_rugged e = leb 1 e.withdrawal_events && holds e.liquidity_usd at_most_zero

  unfoldable pub is_dead : PhaseEvidence Carrier → Bool
  is_dead e = holds e.last_trade_hours_ago (λ x. f.ltb (cents (pos 16800)) x)

  unfoldable pub is_collapsing : PhaseEvidence Carrier → Bool
  is_collapsing e = holds e.one_hour_return (λ x. f.leb x (cents (negsuc 2499)))

  unfoldable pub is_young : PhaseEvidence Carrier → Bool
  is_young e = holds e.pool_age_hours (λ x. f.ltb x (cents (pos 2400)))

  unfoldable pub is_parabolic : PhaseEvidence Carrier → Bool
  is_parabolic e =
      holds e.volume_acceleration (at_least 200)
      && (holds e.buy_sell_ratio (at_least 130)
          && (is_none e.holder_growth || holds e.holder_growth (at_least 0)))

  unfoldable pub is_selling : PhaseEvidence Carrier → Bool
  is_selling e = holds e.buy_sell_ratio (λ x. f.ltb x (cents (pos 80)))

  unfoldable pub is_stagnant : PhaseEvidence Carrier → Bool
  is_stagnant e = holds e.holder_growth at_most_zero && holds e.one_hour_return (at_least 0)

  unfoldable pub detect_phase : PhaseEvidence Carrier → LifecyclePhase
  detect_phase e =
      if not e.has_pool
      then seeding
      else if is_rugged e
      then rugged
      else if is_dead e
      then dead
      else if is_collapsing e
      then collapse
      else if leb 1 e.withdrawal_events
      then collapse
      else if leb 1 e.ignition_events
      then ignition
      else if is_young e
      then ignition
      else if is_parabolic e
      then parabolic
      else if is_selling e
      then saturation
      else if is_stagnant e
      then saturation
      else ignition
