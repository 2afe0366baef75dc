-- ===== src/Pool/Tests.antt =====
-- A pool of two endpoints in hundredths, and the theorems at concrete inputs.
use hype_coin_predictive_eng.Prelude.{
  ℕ, ◌+◌, ◌%◌, ◌≤◌, ◌≡◌, ◌↔◌, inr, refl, String, Bool, true, false, some, List, [], ◌∷◌, ◌&&◌, not,
  ◌==◌, arith, lookup, insert, erase, mem, length, str_eq, add, discard, All,
}
use hype_coin_predictive_eng.Prelude.Int.{ℤ, pos, ◌+ℤ◌, ◌-ℤ◌}
use hype_coin_predictive_eng.Float.{hundredths}
use hype_coin_predictive_eng.Pool.State.{
  Pool, dedup, init_dict, push_history, min_by, init, is_down, available_of, choose, pick,
  mark_success, mark_failure,
}
use hype_coin_predictive_eng.Pool.Health.{IsHealthy, init-IsHealthy, mark_failure-IsHealthy}
use hype_coin_predictive_eng.Pool.Pick.{Beats, pick_best}
use hype_coin_predictive_eng.Pool.Marks.{fail_all, fail_all_down}
use hype_coin_predictive_eng.Pool.Probe.{record_probe, probe_urls, probe_endpoints}
use hype_coin_predictive_eng.Pool.Alert.{
  sync_alert_state, sync_endpoints, zero_event, down_events, notification_events, dispatch_alerts,
}
use hype_coin_predictive_eng.Pool.Once.{reports}
use hype_coin_predictive_eng.Pool.History.{IsCounted}
use hype_coin_predictive_eng.Pool.Reach.{
  created, called, failed, probed, dispatched, Reach-IsHealthy,
}

program : Unit {0}
unfolding ◌+ℤ◌ ◌-ℤ◌ lookup insert erase mem dedup init_dict push_history min_by init choose pick
    mark_success mark_failure fail_all record_probe probe_urls sync_alert_state sync_endpoints
    zero_event down_events notification_events reports add discard
program = tt

abbrev pool : Pool ℤ
pool = init hundredths ("a" ∷ "b" ∷ "a" ∷ []) 2 (pos 50) "solana"

pool-IsHealthy : IsHealthy hundredths pool
pool-IsHealthy = init-IsHealthy hundredths ("a" ∷ "b" ∷ "a" ∷ []) 2 (pos 50) "solana"

-- Duplicates are dropped, and a threshold of 0 counts as 1.
init_test :
    (pool.endpoints ≡ "a" ∷ "b" ∷ [])
    × ((init hundredths [] 0 (pos 500) "base").recovery_health ≡ pos 100)
unfolding program
init_test = (refl, refl)

-- Two failures take "a" down.
abbrev fallen : Pool ℤ
fallen = mark_failure hundredths 8 "a" (mark_failure hundredths 7 "a" pool)

fallen-IsHealthy : IsHealthy hundredths fallen
fallen-IsHealthy =
    mark_failure-IsHealthy hundredths 8 "a" (mark_failure hundredths 7 "a" pool)
      (mark_failure-IsHealthy hundredths 7 "a" pool pool-IsHealthy)

fallen_test : (is_down hundredths fallen "a" ≡ true) × (lookup "a" fallen.down_since ≡ some 8)
unfolding program
fallen_test = (refl, refl)

fallen_up : available_of hundredths fallen ≡ "b" ∷ []
unfolding program
fallen_up = refl

fallen_tick : (not fallen.background_active && (fallen.tick + 1) % 20 == 0) ≡ false
unfolding program
fallen_tick = refl

pick_best_example :
    (url : String) × (p' : Pool ℤ) × (pick hundredths fallen ≡ some (url, p'))
    × (mem url (available_of hundredths fallen) ≡ true)
    × All (Beats hundredths fallen url) (available_of hundredths fallen)
    × (lookup url p'.last_used ≡ some (fallen.tick + 1))
pick_best_example = pick_best hundredths fallen "b" [] fallen-IsHealthy fallen_up (inr fallen_tick)

known_pool : lookup "a" pool.health ≡ some (pos 100)
unfolding program
known_pool = refl

known_fallen : lookup "a" fallen.health ≡ some (pos 50)
unfolding program
known_fallen = refl

fail_all_down_example :
    let times : List ℕ = 3 ∷ 4 ∷ [] in
    (is_down hundredths (mark_success hundredths "a" pool) "a" ≡ false)
    × ((is_down hundredths (fail_all hundredths "a" times (mark_success hundredths "a" pool)) "a"
          ≡ true)
        ↔ (pool.failure_threshold ≤ length times))
fail_all_down_example =
    fail_all_down hundredths "a" (3 ∷ 4 ∷ []) pool pool-IsHealthy (pos 100, known_pool)

-- "b" answers, "a" does not.
abbrev answers : String → Bool
answers url = str_eq "b" url

pool-IsCounted : IsCounted hundredths pool
unfolding program
pool-IsCounted = record { history = λ u. ground arith; successes = λ u. ground arith }

-- "a" is reported after the cooldown, and not before.
cooldown_test :
    (reports "a" (notification_events hundredths 70 60 fallen).0 ≡ 1)
    × (reports "a" (notification_events hundredths 30 60 fallen).0 ≡ 0)
unfolding program
cooldown_test = (refl, refl)

-- Created, failed once at "a", probed, and its alerts sent.
Reach-IsHealthy_example :
    let p = mark_failure hundredths 7 "a" pool in
    let q =
      (dispatch_alerts hundredths
        (λ e. true)
        70
        60
        (probe_endpoints hundredths answers (λ u. 9) p).1).1 in
    IsHealthy hundredths q × IsCounted hundredths q
Reach-IsHealthy_example = Reach-IsHealthy hundredths (
    called
      (called (called (created ("a" ∷ "b" ∷ "a" ∷ []) 2 (pos 50) "solana") (failed 7 "a"))
        (probed answers (λ u. 9)))
      (dispatched (λ e. true) 70 60))
