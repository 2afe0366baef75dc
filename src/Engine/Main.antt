-- ===== src/Engine/Main.antt =====
-- The loop of `main` in engine/run.py. What a scan comes to is an argument, the counts that
-- `mark_scan_result` reads from its result included, and so is the text of the message.
use hype_coin_predictive_eng.Prelude.{ℕ, ◌+◌, String, Bool, List, [], ◌∷◌, ◌++◌, if◌then◌else◌}
use hype_coin_predictive_eng.Watchdog.Upkeep.{
  WatchdogState, Health, Site, on_scan_success, on_scan_failure, run_watchdog,
}
use hype_coin_predictive_eng.Engine.State.{EngineState, mark_scanning, mark_completed, mark_error}
use hype_coin_predictive_eng.Engine.Phases.{Settings, Inputs, Loop, end_of, run_engine_phases}

pub data Scan : Type 0 where
  scanned : List ℕ → Scan
  raised : String → Scan

-- The session of the watchdog: it does not open, or it opens, and its commit may fail.
pub data Session : Type 0 where
  closed : Session
  opened : Bool → Session

-- One turn of the loop.
pub record Turn (R : Type 0) : Type 0 where
  pub message : String
  pub started : ℕ
  pub scan : Scan
  pub failed_at : ℕ
  pub session : Session
  pub site : Site
  pub phases : Inputs R
  pub completed_at : ℕ

pub record Engine : Type 0 where
  pub iteration : ℕ
  pub loop : Loop
  pub watchdog : WatchdogState
  pub health : List Health

unfoldable pub after_scan : Scan → ℕ → EngineState → EngineState
unfolding mark_error
after_scan (scanned totals) now s = record s { scan = record (s.scan) { totals = totals } }
after_scan (raised message) now s = mark_error message now s

unfoldable pub count_scan : Scan → WatchdogState → WatchdogState
unfolding on_scan_success on_scan_failure
count_scan (scanned totals) w = on_scan_success w
count_scan (raised message) w = on_scan_failure w

-- The watchdog's turn; a session that does not open leaves everything as it is.
unfoldable pub watch : Session → Site → WatchdogState → List Health × WatchdogState
unfolding run_watchdog
watch closed site w = ([], w)
watch (opened commits) site w =
    let (summary, rows, w') = run_watchdog site w in ((if commits then rows else []), w')

module _ {R : Type 0} where
  -- The phases after the scan.
  unfoldable pub phases_of : Settings → Turn R → Engine → Loop
  unfolding after_scan
  phases_of s t e =
      let scanning = mark_scanning (e.iteration + 1) t.message t.started e.loop.state in
      end_of (
        run_engine_phases s t.phases
          (record (e.loop) { state = after_scan t.scan t.failed_at scanning }))

  unfoldable pub turn : Settings → Turn R → Engine → Engine
  unfolding phases_of count_scan watch
  turn s t e =
      let (rows, w) = watch t.session t.site (count_scan t.scan e.watchdog) in
      let l = phases_of s t e in
      record {
        iteration = e.iteration + 1;
        loop =
            if l.phase_error then l else record l { state = mark_completed t.completed_at l.state };
        watchdog = w;
        health = e.health ++ rows;
      }

  -- The turns until `stop` is set.
  unfoldable pub main_loop : Settings → List (Turn R) → Engine → Engine
  unfolding turn
  main_loop s [] e = e
  main_loop s (t ∷ turns) e = main_loop s turns (turn s t e)
