-- ===== src/Engine/Degraded.antt =====
-- The scans of the engine's loop: what their failures leave behind.
use hype_coin_predictive_eng.Prelude.{
  ℕ, ◌+◌, ◌≤◌, ◌≡◌, ◌↔◌, refl, String, true, false, List, [], ◌∷◌, ◌++◌, length, All, arith,
}
use hype_coin_predictive_eng.Watchdog.Upkeep.{
  WatchdogState, Site, on_scan_success, on_scan_failure, check_consecutive_failures, maybe_vacuum,
  run_watchdog,
}
use hype_coin_predictive_eng.Engine.State.{finished, mark_completed}
use hype_coin_predictive_eng.Engine.Phases.{Settings}
use hype_coin_predictive_eng.Engine.Main.{
  scanned, raised, Session, closed, opened, Turn, Engine, count_scan, watch, phases_of, turn,
  main_loop,
}

maybe_vacuum_failures :
    (site : Site) (w : WatchdogState)
    → (maybe_vacuum site w).consecutive_scan_failures ≡ w.consecutive_scan_failures
unfolding maybe_vacuum
maybe_vacuum_failures site w = ground arith

watch_failures :
    (session : Session) (site : Site) (w : WatchdogState)
    → (watch session site w).1.consecutive_scan_failures ≡ w.consecutive_scan_failures
unfolding watch run_watchdog
watch_failures closed site w = refl
watch_failures (opened commits) site w =
    maybe_vacuum_failures site (record w { total_iterations = w.total_iterations + 1 })

module _ {R : Type 0} (s : Settings) where
  abbrev pub Failed : Turn R → Type 0
  Failed t = (e : String) × (t.scan ≡ raised e)

  turn-Failed :
      (t : Turn R) (e : Engine)
      → Failed t
      → (turn s t e).watchdog.consecutive_scan_failures ≡ e.watchdog.consecutive_scan_failures + 1
  unfolding turn count_scan on_scan_failure
  turn-Failed t e (m, q) =
      let w = watch_failures t.session t.site (count_scan t.scan e.watchdog) in
      let counted : count_scan t.scan e.watchdog ≡ on_scan_failure e.watchdog = rw q refl in
      rw (w, counted) refl

  turn_scanned :
      (t : Turn R) (e : Engine) (totals : List ℕ)
      → t.scan ≡ scanned totals
      → (turn s t e).watchdog.consecutive_scan_failures ≡ 0
  unfolding turn count_scan on_scan_success
  turn_scanned t e totals q =
      let w = watch_failures t.session t.site (count_scan t.scan e.watchdog) in
      let counted : count_scan t.scan e.watchdog ≡ on_scan_success e.watchdog = rw q refl in
      rw (w, counted) refl

  main_loop-Failed :
      (turns : List (Turn R)) (e : Engine)
      → All Failed turns
      → (main_loop s turns e).watchdog.consecutive_scan_failures
        ≡ e.watchdog.consecutive_scan_failures + length turns
  unfolding main_loop
  main_loop-Failed [] e h = omega arith
  main_loop-Failed (t ∷ turns) e (h, hs) =
      let a = turn-Failed t e h in let b = main_loop-Failed turns (turn s t e) hs in omega arith

  main_loop-append :
      (before turns : List (Turn R)) (e : Engine)
      → main_loop s (before ++ turns) e ≡ main_loop s turns (main_loop s before e)
  unfolding main_loop
  main_loop-append [] turns e = refl
  main_loop-append (t ∷ before) turns e = main_loop-append before turns (turn s t e)

  -- Whatever the loop did before, and whether the watchdog's own session works or not: after a scan that
  -- succeeded, and then scans that all failed, the engine is degraded exactly if those are five or more.
  pub main_loop_degraded :
      (before fails : List (Turn R)) (t : Turn R) (totals : List ℕ) (e : Engine)
      → t.scan ≡ scanned totals
      → All Failed fails
      → (check_consecutive_failures (main_loop s (before ++ (t ∷ fails)) e).watchdog ≡ true)
        ↔ (5 ≤ length fails)
  unfolding check_consecutive_failures main_loop
  main_loop_degraded before fails t totals e q h =
      let b = main_loop s before e in
      let zeroed = turn_scanned t b totals q in
      let n = main_loop-Failed fails (turn s t b) h in
      rw (main_loop-append before (t ∷ fails) e) ((λ d. ground arith), (λ five. ground arith))

  -- A turn whose scan failed, and whose phases raise no error flag, ends in the phase COMPLETED with the
  -- message of a complete scan, while the watchdog counts one more failure.
  pub turn_completes_failed :
      (t : Turn R) (e : Engine) (m : String)
      → t.scan ≡ raised m
      → (phases_of s t e).phase_error ≡ false
      → let e' = turn s t e in
        (e'.loop.state.scan.phase ≡ finished)
        × (e'.loop.state.scan.phase_message ≡ "Scan complete")
        × (e'.watchdog.consecutive_scan_failures ≡ e.watchdog.consecutive_scan_failures + 1)
  unfolding turn mark_completed
  turn_completes_failed t e m q fine = (rw fine refl, rw fine refl, turn-Failed t e (m, q))
