-- ===== src/Engine/Tests.antt =====
-- Runs of the phases, and the theorems about them at concrete inputs.
use hype_coin_predictive_eng.Prelude.{
  List, length, ◌≤◌, ◌++◌, ◌↔◌, ℕ, ◌+◌, String, ◌≡◌, refl, true, false, none, some, [], ◌∷◌, arith,
  lookup, insert, erase,
}
use hype_coin_predictive_eng.Watchdog.Registry.{
  start, note_phase_skip, reset_phase_skip, in_flight_alive, is_alive, remove_thread,
}
use hype_coin_predictive_eng.Watchdog.Skips.{capped}
use hype_coin_predictive_eng.Watchdog.Stage.{
  StageOutcome, returned, raised, hung, run_stage_with_timeout, thread_exit, mark_abandoned,
}
use hype_coin_predictive_eng.Engine.State.{
  new_scan, error, retention, mark_scanning, mark_completed, mark_error,
}
use hype_coin_predictive_eng.Engine.Broker.{
  Broker, new_broker, listed, update, evict, connect, disconnect, enqueue, put, send_all, broadcast,
  run_call, take_event,
}
use hype_coin_predictive_eng.Engine.Subscribers.{Reach, started, connected}
use hype_coin_predictive_eng.Watchdog.Upkeep.{
  on_scan_success, on_scan_failure, check_consecutive_failures, maybe_vacuum, run_watchdog, yellow,
}
use hype_coin_predictive_eng.Engine.Main.{
  Scan, raised as scan_raised, scanned, opened, Turn, Engine, after_scan, count_scan, watch,
  phases_of, turn, main_loop,
}
use hype_coin_predictive_eng.Engine.Degraded.{main_loop_degraded}
use hype_coin_predictive_eng.Engine.Phase.{Weather, unset, run_watchdog_phase}
use hype_coin_predictive_eng.Engine.Phases.{
  Settings, Inputs, Loop, end_of, config, forecast_block, retention_block, parity_block,
  nightcrawler_block, data_lake_block, score_drift_block, run_engine_phases,
}
use hype_coin_predictive_eng.Engine.Alarms.{run_repeatedly, run_repeatedly_alarms}
use hype_coin_predictive_eng.Engine.Errors.{Reports, run_engine_phases-Reports}

program : Unit {0}
unfolding on_scan_success on_scan_failure check_consecutive_failures maybe_vacuum run_watchdog
    after_scan count_scan watch phases_of turn main_loop mark_scanning mark_completed mark_error
    new_broker listed update evict connect disconnect enqueue put send_all broadcast run_call
    take_event run_stage_with_timeout thread_exit mark_abandoned remove_thread is_alive
    in_flight_alive lookup insert erase note_phase_skip reset_phase_skip run_watchdog_phase
    forecast_block retention_block parity_block nightcrawler_block data_lake_block score_drift_block
    run_engine_phases
program = tt

abbrev settings : Settings
settings = record {
  skip_alert_cycles = 2;
  skip_alert_max_alerts = 1;
  skip_alert_max_minutes = 0;
  nightcrawler_enabled = true;
  nightcrawler_interval_minutes = 30;
  data_lake_enabled = true;
  score_drift_enabled = false;
}

abbrev fine : Weather ℕ String
fine = record { progress = returned 1; stop = unset; now = 10; ended = 11 }

abbrev broken : Weather ℕ String
broken = record { progress = raised "no data"; stop = unset; now = 10; ended = 11 }

abbrev stuck : Weather ℕ String
stuck = record { progress = hung; stop = unset; now = 10; ended = 11 }

abbrev quiet : Inputs ℕ
quiet = record {
  forecast = fine;
  retention = fine;
  parity = fine;
  stop_is_set = false;
  now_mono = 1900;
  nightcrawler = fine;
  data_lake = fine;
  score_drift = fine;
}

abbrev loop : Loop
loop = record {
  registry = start;
  rows = [];
  state = record { total_iterations = 0; scan = new_scan };
  phase_error = false;
  last_nc_run = 50;
}

abbrev failed_loop : Loop
failed_loop = end_of (run_engine_phases settings (record quiet { forecast = broken }) loop)

-- The flag is up, the message is kept, and the phase reads RETENTION.
failed_iteration :
    (failed_loop.phase_error ≡ true)
    × (failed_loop.state.scan.phase ≡ retention)
    × (failed_loop.state.scan.error_message ≡ some "forecast: no data")
    × (failed_loop.last_nc_run ≡ 1900)
unfolding program
failed_iteration = (refl, refl, refl, refl)

run_repeatedly_alarms_example :
    (run_repeatedly
      (config settings "retention" "lake")
      (stuck ∷ fine ∷ fine ∷ fine ∷ fine ∷ [])
      start).1
    ≡ 1 + capped 1 2
unfolding program
run_repeatedly_alarms_example =
    run_repeatedly_alarms (config settings "retention" "lake") stuck
      (fine ∷ fine ∷ fine ∷ fine ∷ []) start (omega arith) refl refl refl
      (refl, (refl, (refl, (refl, (refl, tt)))))

run_engine_phases-Reports_example :
    Reports (run_engine_phases settings (record quiet { forecast = stuck }) loop)
run_engine_phases-Reports_example =
    run_engine_phases-Reports settings (record quiet { forecast = stuck }) loop refl

abbrev lean : Settings
lean = record settings { nightcrawler_enabled = false; data_lake_enabled = false }

abbrev stale_loop : Loop
stale_loop = record loop {
  state = record {
    total_iterations = 3;
    scan = record new_scan { phase = error; error_message = some "no data" };
  };
}

abbrev recovered : Loop
recovered = record {
  registry = record start { next_thread = 3 };
  rows = [];
  state = record {
    total_iterations = 3;
    scan = record new_scan {
      phase = retention;
      phase_message = "Running retention autopilot";
      started_at = some 40;
      iteration = 5;
      error_message = some "no data";
    };
  };
  phase_error = false;
  last_nc_run = 50;
}

abbrev completed_run : StageOutcome ℕ
completed_run = record { result = some 1; timed_out = false; skipped = false }

abbrev after_forecast : Loop
after_forecast = end_of (forecast_block settings broken loop)

-- Two clients, one without a loop; the second event comes after the first has left.
abbrev feed : Broker ℕ
feed = (connect none (connect (some 7) new_broker).1).1

abbrev cast_feed : Broker ℕ
cast_feed = broadcast (λ q. false) 5 (disconnect 0 (broadcast (λ q. false) 4 feed))

feed_Reach : Reach [] feed
feed_Reach = connected none (connected (some 7) started)

-- The client that left is still handed what waits on its loop.
feed_test :
    ((run_call 0 cast_feed).clients 0
      ≡ record { loop = none; queue = 4 ∷ []; waiting = []; taken = [] })
    × ((take_event 1 cast_feed).clients 1
        ≡ record { loop = none; queue = 5 ∷ []; waiting = []; taken = 4 ∷ [] })
unfolding program
feed_test = (refl, refl)

-- A turn of the loop whose scan came to the given.
abbrev turn_of : Scan → Turn ℕ
turn_of scan = record {
  message = "Scan iteration 1";
  started = 40;
  scan = scan;
  failed_at = 45;
  session = opened true;
  site = record {
    is_sqlite = true;
    now = 50;
    vacuumed = true;
    database_pct = some 870;
    archive_pct = none;
  };
  phases = quiet;
  completed_at = 60;
}

abbrev engine : Engine
engine = record {
  iteration = 0;
  loop = loop;
  watchdog = record {
    consecutive_scan_failures = 0;
    last_vacuum = 0;
    total_iterations = 0;
    total_scan_failures = 0;
  };
  health = [];
}

turn_test :
    (turn lean (turn_of (scan_raised "no data")) engine).health
    ≡ record { component = "disk"; state = yellow; error_count = 0 }
      ∷ record { component = "watchdog"; state = yellow; error_count = 1 }
      ∷ []
unfolding program
turn_test = refl

fine_phases : (phases_of lean (turn_of (scan_raised "no data")) engine).phase_error ≡ false
unfolding program
fine_phases = refl

main_loop_degraded_example :
    let fails : List (Turn ℕ) =
      turn_of (scan_raised "no data") ∷ turn_of (scan_raised "no data") ∷ [] in
    (check_consecutive_failures
        (main_loop lean ([] ++ (turn_of (scanned (3 ∷ [])) ∷ fails)) engine).watchdog
      ≡ true)
    ↔ (5 ≤ length fails)
main_loop_degraded_example =
    main_loop_degraded lean []
      (turn_of (scan_raised "no data") ∷ turn_of (scan_raised "no data") ∷ [])
      (turn_of (scanned (3 ∷ []))) (3 ∷ []) engine refl (("no data", refl), (("no data", refl), tt))
