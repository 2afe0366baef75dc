-- ===== src/Lifecycle/Tests.antt =====
-- A token's life in hundredths, and the theorems at concrete inputs.
use hype_coin_predictive_eng.Prelude.{
  ◌≤◌, ◌≡◌, refl, true, false, none, some, List, [], ◌∷◌, arith, length,
}
use hype_coin_predictive_eng.Prelude.Int.{ℤ, pos, negsuc}
use hype_coin_predictive_eng.Float.{hundredths}
use hype_coin_predictive_eng.Lifecycle.Phase.{
  PhaseEvidence, ignition, parabolic, collapse, rugged, detect_phase, is_rugged, is_dead,
  is_collapsing, is_young, is_parabolic, is_selling, is_stagnant, advances, phase_rank,
}
use hype_coin_predictive_eng.Lifecycle.Store.{
  Db, current_phase, latest, find_event, has_alert, maybe_transition_alert, add_event, emit,
  scan_asset, scan, alert_generation_allowed, useful, noise,
}
use hype_coin_predictive_eng.Lifecycle.Monotone.{phases_of, IsChain, Scan, run_scans, detected_run}
use hype_coin_predictive_eng.Lifecycle.History.{run_scans_history}
use hype_coin_predictive_eng.Lifecycle.Alerts.{AlertsOnce, count_alerts, scan-AlertsOnce}

program : Unit {0}
unfolding is_rugged is_dead is_collapsing is_young is_parabolic is_selling is_stagnant detect_phase
    advances phase_rank current_phase latest find_event has_alert maybe_transition_alert add_event
    emit scan_asset scan run_scans phases_of count_alerts alert_generation_allowed
program = tt

abbrev empty : Db
empty = record { events = []; alerts = []; next_id = 1 }

abbrev unknown : PhaseEvidence ℤ
unknown = record {
  has_pool = true;
  pool_age_hours = some (pos 7200);
  ignition_events = 0;
  withdrawal_events = 0;
  liquidity_usd = some (pos 500000);
  volume_acceleration = some (pos 100);
  buy_sell_ratio = some (pos 100);
  holder_growth = none;
  one_hour_return = none;
  narrative_velocity = none;
  last_trade_hours_ago = some (pos 100);
}

abbrev rising : PhaseEvidence ℤ
rising = record unknown { volume_acceleration = some (pos 250); buy_sell_ratio = some (pos 140) }

abbrev falling : PhaseEvidence ℤ
falling = record unknown { one_hour_return = some (negsuc 3999) }

abbrev drained : PhaseEvidence ℤ
drained = record unknown { withdrawal_events = 1; liquidity_usd = some (pos 0) }

abbrev life : List (Scan ℤ)
life =
    record { wait = 0; allowed = true; evidence = unknown }
    ∷ record { wait = 5; allowed = true; evidence = rising }
    ∷ record { wait = 5; allowed = true; evidence = unknown }
    ∷ record { wait = 5; allowed = false; evidence = falling }
    ∷ record { wait = 5; allowed = true; evidence = drained }
    ∷ record { wait = 5; allowed = true; evidence = rising }
    ∷ []

abbrev after_life : Db
after_life = run_scans hundredths 7 10 life empty

-- The return to IGNITION and the last rise are not recorded; one alert was held back.
life_history :
    (phases_of 7 after_life.events ≡ rugged ∷ collapse ∷ parabolic ∷ ignition ∷ [])
    × (length after_life.alerts ≡ 1)
unfolding program
life_history = (refl, refl)

-- Two useful of five ratings against a floor of 0.30, and one of five.
gate :
    (alert_generation_allowed hundredths none
        (useful ∷ noise ∷ useful ∷ noise ∷ noise ∷ [])
        5
        (pos 30)
      ≡ true)
    × (alert_generation_allowed hundredths none
          (useful ∷ noise ∷ noise ∷ noise ∷ noise ∷ [])
          5
          (pos 30)
        ≡ false)
    × (alert_generation_allowed hundredths (some true) (noise ∷ []) 1 (pos 30) ≡ true)
unfolding program
gate = (refl, refl, refl)

run_scans_history_example :
    IsChain (phases_of 7 after_life.events)
    × (length (phases_of 7 after_life.events) ≤ 6)
    × (current_phase 7 after_life ≡ detected_run hundredths 7 life none)
unfolding phases_of
run_scans_history_example = run_scans_history hundredths 7 10 life empty refl

scan-AlertsOnce_example :
    AlertsOnce
      (scan hundredths true 4 ((7, some falling) ∷ (8, none) ∷ (7, some drained) ∷ []) empty).0
unfolding count_alerts
scan-AlertsOnce_example =
    scan-AlertsOnce hundredths true 4 ((7, some falling) ∷ (8, none) ∷ (7, some drained) ∷ []) empty
      (λ a e. omega arith)

abbrev ignited : PhaseEvidence ℤ
ignited = record rising { ignition_events = 1 }
