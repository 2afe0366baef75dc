-- ===== src/Watchdog/Stage.antt =====
-- `StageOutcome` and `run_stage_with_timeout` of ops/watchdog.py.
-- What the stage's thread does by the deadline is an input, since the scheduler decides it.
use hype_coin_predictive_eng.Prelude.{
  ℕ, ◌+◌, String, Bool, true, false, Option, none, some, ◌∷◌, if◌then◌else◌, insert,
}
use hype_coin_predictive_eng.Watchdog.Registry.{
  Registry, remove_thread, register_in_flight, clear_in_flight, in_flight_alive,
}

pub record StageOutcome (R : Type 0) : Type 0 where
  pub result : Option R
  pub timed_out : Bool
  pub skipped : Bool

-- How the call ends: with an outcome, or by raising the stage's exception again.
pub data Ran (R E : Type 0) : Type 0 where
  outcome : StageOutcome R → Ran R E
  raise : E → Ran R E

-- The stage returned or raised in time; it was still running at the deadline; or it was still
-- running when `holder["done"]` was read and exited before `_abandoned` was written.
pub data Progress (R E : Type 0) : Type 0 where
  returned : R → Progress R E
  raised : E → Progress R E
  hung : Progress R E
  slipped : Progress R E

-- `Thread(...)`, `_register_in_flight` and `thread.start()`.
unfoldable pub start_thread : String → Registry → Registry
unfolding register_in_flight
start_thread stage r =
    let t = r.next_thread in
    record (register_in_flight stage t r) { alive = (stage, t) ∷ r.alive; next_thread = t + 1 }

-- The `finally` block of `_target`, after which the thread is gone.
unfoldable pub thread_exit : String → ℕ → Registry → Registry
unfolding clear_in_flight
thread_exit stage t r = record (clear_in_flight stage t r) { alive = remove_thread stage t r.alive }

unfoldable pub mark_abandoned : String → ℕ → Registry → Registry
mark_abandoned stage now r = record r { abandoned = insert stage now r.abandoned }

module _ {R E : Type 0} where
  abbrev pub completed : R → Ran R E
  completed x = outcome (record { result = some x; timed_out = false; skipped = false })

  abbrev pub timeout : Ran R E
  timeout = outcome (record { result = none; timed_out = true; skipped = false })

  abbrev pub skip : Ran R E
  skip = outcome (record { result = none; timed_out = false; skipped = true })

  -- From `thread.join(timeout_seconds)` on, for the thread `t`.
  unfoldable pub join_stage : String → ℕ → ℕ → Progress R E → Registry → Registry × Ran R E
  join_stage stage now t (returned x) r = (thread_exit stage t r, completed x)
  join_stage stage now t (raised e) r = (thread_exit stage t r, raise e)
  join_stage stage now t hung r = (mark_abandoned stage now r, timeout)
  join_stage stage now t slipped r = (mark_abandoned stage now (thread_exit stage t r), timeout)

  unfoldable pub run_stage_with_timeout : String → ℕ → Progress R E → Registry → Registry × Ran R E
  unfolding join_stage start_thread
  run_stage_with_timeout stage now progress r =
      if in_flight_alive stage r
      then (r, skip)
      else join_stage stage now r.next_thread progress (start_thread stage r)
