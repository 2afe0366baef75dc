-- ===== src/Engine/Phases.antt =====
-- `run_engine_phases` of engine/run.py: the six phases after a scan, in order, each with its own
-- handler. An exception is its text; the results of the stages are only logged.
use Prim.Native.String.{◌++◌ as text_append}
use hype_coin_predictive_eng.Prelude.{
  ℕ, ◌*◌, ◌-◌, String, Bool, true, false, List, ◌++◌, ◌&&◌, not, leb, if◌then◌else◌,
}
use hype_coin_predictive_eng.Watchdog.Registry.{Registry}
use hype_coin_predictive_eng.Engine.State.{
  EngineState, mark_forecasting, mark_retention, mark_error,
}
use hype_coin_predictive_eng.Engine.Phase.{
  Config, Weather, AlarmRow, PhaseResult, shut_down, done, failed, PhaseRun, run_watchdog_phase,
}

-- The settings that the wiring reads; an interval is in minutes, the clock in seconds.
pub record Settings : Type 0 where
  pub skip_alert_cycles : ℕ
  pub skip_alert_max_alerts : ℕ
  pub skip_alert_max_minutes : ℕ
  pub nightcrawler_enabled : Bool
  pub nightcrawler_interval_minutes : ℕ
  pub data_lake_enabled : Bool
  pub score_drift_enabled : Bool

pub record Inputs (R : Type 0) : Type 0 where
  pub forecast : Weather R String
  pub retention : Weather R String
  pub parity : Weather R String
  -- `stop.is_set()` and `now_mono` as the night-crawler block reads them
  pub stop_is_set : Bool
  pub now_mono : ℕ
  pub nightcrawler : Weather R String
  pub data_lake : Weather R String
  pub score_drift : Weather R String

-- What the call changes or returns.
pub record Loop : Type 0 where
  pub registry : Registry
  pub rows : List AlarmRow
  pub state : EngineState
  pub phase_error : Bool
  pub last_nc_run : ℕ

-- A block goes on to the next one, or returns `(True, last_nc_run_monotonic)`.
pub data Flow : Type 0 where
  go : Loop → Flow
  leave : Loop → Flow

infixl 5 ◌>>=◌
abbrev pub ◌>>=◌ : Flow → (Loop → Flow) → Flow
go l >>= f = f l
leave l >>= f = leave l

abbrev pub end_of : Flow → Loop
end_of (go l) = l
end_of (leave l) = l

unfoldable pub fail : String → ℕ → Loop → Loop
unfolding mark_error
fail message now l = record l { state = mark_error message now l.state; phase_error = true }

abbrev pub stop_now : Loop → Flow
stop_now l = leave (record l { phase_error = true })

abbrev pub config : Settings → String → String → Config
config s stage component = record {
  stage = stage;
  component = component;
  skip_alert_cycles = s.skip_alert_cycles;
  skip_alert_max_alerts = s.skip_alert_max_alerts;
  skip_alert_max_minutes = s.skip_alert_max_minutes;
}

module _ {R : Type 0} where
  abbrev pub absorb : PhaseRun R String → Loop → Loop
  absorb p l = record l { registry = p.registry; rows = l.rows ++ p.rows }

  -- The handler of a phase whose failure marks the iteration.
  unfoldable pub settle : String → ℕ → PhaseResult R String → Loop → Flow
  unfolding fail
  settle label now shut_down l = stop_now l
  settle label now (failed e) l = go (fail (text_append label (text_append ": " e)) now l)
  settle label now (done o) l =
      if o.timed_out then go (fail (text_append label ": watchdog timeout") now l) else go l

  -- The handler of an informational phase.
  unfoldable pub settle_informational : PhaseResult R String → Loop → Flow
  settle_informational shut_down l = stop_now l
  settle_informational (failed e) l = go l
  settle_informational (done o) l = go l

  unfoldable pub forecast_block : Settings → Weather R String → Loop → Flow
  unfolding settle mark_forecasting
  forecast_block s w l =
      let l' = record l { state = mark_forecasting l.state } in
      let p = run_watchdog_phase (config s "forecast" "forecast") w l.registry in
      settle "forecast" w.ended p.result (absorb p l')

  unfoldable pub retention_block : Settings → Weather R String → Loop → Flow
  unfolding settle mark_retention
  retention_block s w l =
      let l' = record l { state = mark_retention l.state } in
      let p = run_watchdog_phase (config s "retention" "lake") w l.registry in
      settle "retention" w.ended p.result (absorb p l')

  unfoldable pub parity_block : Settings → Weather R String → Loop → Flow
  unfolding settle_informational
  parity_block s w l =
      let p = run_watchdog_phase (config s "parity" "parity") w l.registry in
      settle_informational p.result (absorb p l)

  -- A pass that was neither abandoned nor skipped moves the night crawler's clock.
  unfoldable pub settle_nightcrawler : ℕ → ℕ → PhaseResult R String → Loop → Flow
  unfolding fail
  settle_nightcrawler now_mono now shut_down l = stop_now l
  settle_nightcrawler now_mono now (failed e) l = go (fail (text_append "nightcrawler: " e) now l)
  settle_nightcrawler now_mono now (done o) l =
      if o.timed_out
      then go (fail "nightcrawler: watchdog timeout" now l)
      else if o.skipped
      then go l
      else go (record l { last_nc_run = now_mono })

  unfoldable pub nightcrawler_block : Settings → Bool → ℕ → Weather R String → Loop → Flow
  unfolding settle_nightcrawler
  nightcrawler_block s stop_is_set now_mono w l =
      if s.nightcrawler_enabled && not stop_is_set
      then (if leb (s.nightcrawler_interval_minutes * 60) (now_mono - l.last_nc_run)
          then (let p = run_watchdog_phase (config s "nightcrawler" "nightcrawler") w l.registry in
              settle_nightcrawler now_mono w.ended p.result (absorb p l))
          else go l)
      else go l

  unfoldable pub data_lake_block : Settings → Weather R String → Loop → Flow
  unfolding settle
  data_lake_block s w l =
      if s.data_lake_enabled
      then (let p = run_watchdog_phase (config s "data_lake" "data_lake") w l.registry in
          settle "data_lake" w.ended p.result (absorb p l))
      else go l

  unfoldable pub score_drift_block : Settings → Weather R String → Loop → Flow
  unfolding settle_informational
  score_drift_block s w l =
      if s.score_drift_enabled
      then (let p = run_watchdog_phase (config s "score_drift" "score_drift") w l.registry in
          settle_informational p.result (absorb p l))
      else go l

  -- `last_nc_run` and `phase_error` of the end are the pair that the call returns.
  unfoldable pub run_engine_phases : Settings → Inputs R → Loop → Flow
  run_engine_phases s i l =
      forecast_block s i.forecast (record l { phase_error = false })
      >>= retention_block s i.retention
      >>= parity_block s i.parity
      >>= nightcrawler_block s i.stop_is_set i.now_mono i.nightcrawler
      >>= data_lake_block s i.data_lake
      >>= score_drift_block s i.score_drift
