-- ===== src/Engine/Phase.antt =====
-- `_run_watchdog_phase` of engine/run.py: one phase under the watchdog, its alarms and its resets.
use hype_coin_predictive_eng.Prelude.{ℕ, ◌*◌, String, List, [], ◌∷◌, not, if◌then◌else◌}
use hype_coin_predictive_eng.Watchdog.Registry.{
  Registry, Verdict, alert, note_phase_skip, reset_phase_skip,
}
use hype_coin_predictive_eng.Watchdog.Stage.{
  StageOutcome, Ran, outcome, raise, Progress, run_stage_with_timeout,
}

pub record Config : Type 0 where
  pub stage : String
  pub component : String
  pub skip_alert_cycles : ℕ
  pub skip_alert_max_alerts : ℕ
  pub skip_alert_max_minutes : ℕ

-- Whether the engine's stop event is set before the phase, or while it runs.
pub data Shutdown : Type 0 where
  unset before during : Shutdown

-- What the environment decides for one call: the stage's thread, the stop event and the clock. A
-- call reads `now` at most once for the registries; `ended` is what `mark_error` reads after it.
pub record Weather (R E : Type 0) : Type 0 where
  pub progress : Progress R E
  pub stop : Shutdown
  pub now : ℕ
  pub ended : ℕ

-- The red SystemHealth row that `_record` writes.
pub data Alarm : Type 0 where
  watchdog_timeout still_wedged : Alarm

pub record AlarmRow : Type 0 where
  pub component : String
  pub alarm : Alarm

-- `None`, an outcome, or the stage's exception.
pub data PhaseResult (R E : Type 0) : Type 0 where
  shut_down : PhaseResult R E
  done : StageOutcome R → PhaseResult R E
  failed : E → PhaseResult R E

pub record PhaseRun (R E : Type 0) : Type 0 where
  pub registry : Registry
  pub rows : List AlarmRow
  pub result : PhaseResult R E

abbrev pub rows_of : Config → Verdict → List AlarmRow
rows_of c alert = record { component = c.component; alarm = still_wedged } ∷ []
rows_of c _ = []

module _ {R E : Type 0} where
  -- The part after the stage has ended, by its outcome.
  unfoldable pub after_outcome : Config → ℕ → StageOutcome R → Registry → PhaseRun R E
  after_outcome c now o r =
      if o.timed_out
      then record {
        registry = reset_phase_skip c.stage r;
        rows = record { component = c.component; alarm = watchdog_timeout } ∷ [];
        result = done o;
      }
      else if not o.skipped
      then record { registry = reset_phase_skip c.stage r; rows = []; result = done o }
      else (let (r', verdict) =
            note_phase_skip c.stage c.skip_alert_cycles c.skip_alert_max_alerts
              (c.skip_alert_max_minutes * 60) now r in
          record { registry = r'; rows = rows_of c verdict; result = done o })

  unfoldable pub after_stage : Config → ℕ → Registry × Ran R E → PhaseRun R E
  unfolding after_outcome
  after_stage c now (r, raise e) = record { registry = r; rows = []; result = failed e }
  after_stage c now (r, outcome o) = after_outcome c now o r

  -- With the stop event set before the phase nothing starts; set while it runs, the caller leaves and
  -- the stage's thread goes on by itself.
  unfoldable pub run_watchdog_phase : Config → Weather R E → Registry → PhaseRun R E
  unfolding after_stage
  run_watchdog_phase c w r = elim (w.stop) [
    | before ↦ record { registry = r; rows = []; result = shut_down }
    | during ↦ record {
      registry = (run_stage_with_timeout c.stage w.now w.progress r).0;
      rows = [];
      result = shut_down;
    }
    | unset ↦ after_stage c w.now (run_stage_with_timeout c.stage w.now w.progress r)
  ]
