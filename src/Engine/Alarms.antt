-- ===== src/Engine/Alarms.antt =====
-- The alarm rows of a phase that wedges, over all the iterations of the wedge.
use hype_coin_predictive_eng.Prelude.{
  ℕ, ◌+◌, ◌*◌, ◌/◌, ◌<◌, String, ◌≡◌, ◌∙◌, refl, true, false, List, [], ◌∷◌, arith, length,
}
use hype_coin_predictive_eng.Watchdog.Registry.{
  Registry, in_flight_alive, note_phase_skip, reset_phase_skip, Verdict, counted, alert,
  muted_alerts, muted_duration,
}
use hype_coin_predictive_eng.Watchdog.Stage.{
  hung, start_thread, mark_abandoned, join_stage, run_stage_with_timeout,
}
use hype_coin_predictive_eng.Watchdog.Skips.{skip_all, is_alert, capped, skip_all-reset_phase_skip}
use hype_coin_predictive_eng.Watchdog.Reach.{note_threads}
use hype_coin_predictive_eng.Watchdog.Abandoned.{
  in_flight_alive_of_eq, in_flight_alive-start_thread_self,
}
use hype_coin_predictive_eng.Engine.Phase.{Config, Weather, unset, rows_of, run_watchdog_phase}

length-rows_of : (c : Config) (v : Verdict) → length (rows_of c v) ≡ is_alert v
length-rows_of c counted = refl
length-rows_of c alert = refl
length-rows_of c muted_alerts = refl
length-rows_of c muted_duration = refl

note-in_flight_alive :
    (c : Config) (d now : ℕ) (r : Registry)
    → in_flight_alive c.stage r ≡ true
    → in_flight_alive c.stage
        (note_phase_skip c.stage c.skip_alert_cycles c.skip_alert_max_alerts d now r).0
      ≡ true
note-in_flight_alive c d now r h =
    let q = note_threads c.stage c.skip_alert_cycles c.skip_alert_max_alerts d now r in
    in_flight_alive_of_eq c.stage r _ q.0 q.1 ∙ h

hung-in_flight_alive :
    (stage : String) (now : ℕ) (r : Registry)
    → in_flight_alive stage
        (reset_phase_skip stage (mark_abandoned stage now (start_thread stage r)))
      ≡ true
unfolding reset_phase_skip mark_abandoned
hung-in_flight_alive stage now r =
    in_flight_alive_of_eq stage (start_thread stage r) _ refl refl
    ∙ in_flight_alive-start_thread_self stage r

module _ {R E : Type 0} where
  -- The phase is run once for each entry; the result counts the rows that were written.
  unfoldable pub run_repeatedly : Config → List (Weather R E) → Registry → Registry × ℕ
  run_repeatedly c [] r = (r, 0)
  run_repeatedly c (w ∷ ws) r =
      let p = run_watchdog_phase c w r in
      let (last, rows) = run_repeatedly c ws p.registry in (last, length p.rows + rows)

  -- The stop event stays unset.
  abbrev pub AllUnset : List (Weather R E) → Type 0
  AllUnset [] = Unit
  AllUnset (w ∷ ws) = (w.stop ≡ unset) × AllUnset ws

  abbrev times_of : List (Weather R E) → List ℕ
  times_of [] = []
  times_of (w ∷ ws) = w.now ∷ times_of ws

  length-times_of : (ws : List (Weather R E)) → length (times_of ws) ≡ length ws
  length-times_of [] = refl
  length-times_of (w ∷ ws) = omega (arith, length-times_of ws)

  -- While the stage's thread runs, the phase does what `note_phase_skip` does.
  run_watchdog_phase_skipped :
      (c : Config) (w : Weather R E) (r : Registry)
      → w.stop ≡ unset
      → in_flight_alive c.stage r ≡ true
      → let p = run_watchdog_phase c w r in
        let (r', v) =
          note_phase_skip c.stage c.skip_alert_cycles c.skip_alert_max_alerts
            (c.skip_alert_max_minutes * 60)
            w.now
            r in
        (p.registry ≡ r') × (p.rows ≡ rows_of c v)
  unfolding run_watchdog_phase run_stage_with_timeout
  run_watchdog_phase_skipped c w r u busy = ground arith

  run_repeatedly_wedged :
      (c : Config) (ws : List (Weather R E)) (r : Registry)
      → AllUnset ws
      → in_flight_alive c.stage r ≡ true
      → run_repeatedly c ws r
        ≡ skip_all c.stage c.skip_alert_cycles c.skip_alert_max_alerts
            (c.skip_alert_max_minutes * 60)
            (times_of ws)
            r
  unfolding run_repeatedly skip_all
  run_repeatedly_wedged c [] r u busy = refl
  run_repeatedly_wedged c (w ∷ ws) r u busy =
      let d = c.skip_alert_max_minutes * 60 in
      let n = note_phase_skip c.stage c.skip_alert_cycles c.skip_alert_max_alerts d w.now r in
      let s = run_watchdog_phase_skipped c w r u.0 busy in
      rw (
        s.0,
        s.1,
        length-rows_of,
        run_repeatedly_wedged c ws n.0 u.1 (note-in_flight_alive c d w.now r busy),
      )

  run_watchdog_phase_hung :
      (c : Config) (w : Weather R E) (r : Registry)
      → w.stop ≡ unset
      → w.progress ≡ hung
      → in_flight_alive c.stage r ≡ false
      → let p = run_watchdog_phase c w r in
        (p.registry
          ≡ reset_phase_skip c.stage (mark_abandoned c.stage w.now (start_thread c.stage r)))
        × (length p.rows ≡ 1)
  unfolding run_watchdog_phase run_stage_with_timeout join_stage
  run_watchdog_phase_hung c w r u h idle = rw (u, h, idle) (refl, refl)

  -- A stage that exceeds its deadline and stays wedged for the next n runs of its phase writes one row
  -- for the timeout and one for every `skip_alert_cycles` skips, up to the cap on alerts; no cap is set
  -- on the wedge's duration.
  pub run_repeatedly_alarms :
      (c : Config) (w : Weather R E) (ws : List (Weather R E)) (r : Registry)
      → 0 < c.skip_alert_cycles
      → c.skip_alert_max_minutes ≡ 0
      → in_flight_alive c.stage r ≡ false
      → w.progress ≡ hung
      → AllUnset (w ∷ ws)
      → (run_repeatedly c (w ∷ ws) r).1
        ≡ 1 + capped c.skip_alert_max_alerts (length ws / c.skip_alert_cycles)
  unfolding run_repeatedly
  run_repeatedly_alarms c w ws r pos uncapped idle h u =
      let m = mark_abandoned c.stage w.now (start_thread c.stage r) in
      let s = run_watchdog_phase_hung c w r u.0 h idle in
      let n =
        run_repeatedly_wedged c ws (reset_phase_skip c.stage m) u.1
          (hung-in_flight_alive c.stage w.now r) in
      let e =
        skip_all-reset_phase_skip c.stage c.skip_alert_cycles c.skip_alert_max_alerts (times_of ws)
          m pos in
      rw (s.0, s.1, n, uncapped, e, length-times_of)
