-- ===== src/Watchdog/Tests.antt =====
-- Runs of the watchdog, and the theorems about it at concrete inputs.
use hype_coin_predictive_eng.Prelude.{
  ℕ, String, ◌≡◌, ◌≢◌, refl, true, [], ◌∷◌, arith, lookup, insert, erase, sym, ◌∙◌, ap, str_eq,
  str_eq_refl,
}
use hype_coin_predictive_eng.Watchdog.Registry.{
  Registry, start, note_phase_skip, reset_phase_skip, in_flight_alive, is_alive, remove_thread,
  abandoned_stages,
}
use hype_coin_predictive_eng.Watchdog.Stage.{
  Progress, returned, hung, run_stage_with_timeout, thread_exit, mark_abandoned, skip, completed,
}
use hype_coin_predictive_eng.Watchdog.Skips.{skip_all, skip_all-reset_phase_skip, capped}
use hype_coin_predictive_eng.Watchdog.Reach.{Reach, here, next, run}

program : Unit {0}
unfolding run_stage_with_timeout thread_exit mark_abandoned remove_thread is_alive in_flight_alive
    lookup insert erase skip_all note_phase_skip abandoned_stages
program = tt

abbrev wedged : Progress ℕ ℕ
wedged = hung

-- A retention stage that hangs at time 5.
abbrev hung_run : Registry
hung_run = (run_stage_with_timeout "retention" 5 wedged start).0

abbrev strict_history : Reach ℕ ℕ true hung_run
strict_history = next here (run "retention" 5 wedged refl)

-- A second run is skipped, and the end of the first thread makes room for a third.
second_run_skipped : (run_stage_with_timeout "retention" 9 wedged hung_run).1 ≡ skip
unfolding program
second_run_skipped = refl

third_run :
    (run_stage_with_timeout {R = ℕ} {E = ℕ} "retention" 12
      (returned 7)
      (thread_exit "retention" 0 hung_run)).1
    ≡ completed 7
unfolding program
third_run = refl

-- Three skips with a threshold of 3 and a cap of 1.
third_skip_alerts : (skip_all "retention" 3 1 0 (6 ∷ 7 ∷ 8 ∷ 9 ∷ 10 ∷ 11 ∷ []) start).1 ≡ 1
unfolding program
third_skip_alerts = refl

skip_all-reset_phase_skip_example :
    (skip_all "parity" 2 1 0 (3 ∷ 4 ∷ 5 ∷ 6 ∷ 7 ∷ []) (reset_phase_skip "parity" hung_run)).1
    ≡ capped 1 2
skip_all-reset_phase_skip_example =
    skip_all-reset_phase_skip "parity" 2 1 (3 ∷ 4 ∷ 5 ∷ 6 ∷ 7 ∷ []) hung_run (omega arith)

abbrev begun : Registry
begun = record start { skip_alert_started = ("lake", 3) ∷ [] }

names_differ : ◌≢◌ {A = String} "lake" "parity"
names_differ e = cc (sym (str_eq_refl "lake") ∙ ap (str_eq "lake") e)
