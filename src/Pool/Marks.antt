-- ===== src/Pool/Marks.antt =====
-- How marks take an endpoint down and bring it back.
use hype_coin_predictive_eng.Prelude.{
  ℕ, ◌+◌, ◌≤◌, ◌≡◌, ◌↔◌, refl, String, true, false, some, List, [], ◌∷◌, ◌∙◌, arith, lookup,
  get_or-some, lookup-insert_self, length,
}
use hype_coin_predictive_eng.Float.{Float}
use hype_coin_predictive_eng.Float.MinMax.{
  min_float, max_float, zero_float, one_float, max_float_ge,
}
use hype_coin_predictive_eng.Pool.State.{
  Pool, health_success_boost, failures_of, health_of, is_down, mark_success, mark_failure,
}
use hype_coin_predictive_eng.Pool.Health.{IsHealthy}

module _ (f : Float) (url : String) where
  -- The endpoint belongs to the pool.
  abbrev pub IsKnown : Pool f.Carrier → Type 0
  IsKnown p = (h : f.Carrier) × (lookup url p.health ≡ some h)

  -- A failure at each of the given times.
  unfoldable pub fail_all : List ℕ → Pool f.Carrier → Pool f.Carrier
  fail_all [] p = p
  fail_all (now ∷ times) p = fail_all times (mark_failure f now url p)

  mark_failure_count :
      (now : ℕ) (p : Pool f.Carrier)
      → IsKnown p
      → let p' = mark_failure f now url p in
        IsKnown p'
        × (failures_of f p' url ≡ failures_of f p url + 1)
        × (p'.failure_threshold ≡ p.failure_threshold)
  unfolding mark_failure
  mark_failure_count now p (h, known) =
      rw (known, mark_failure)
        (
          (_, lookup-insert_self url _ p.health),
          get_or-some url 0 _ _
              (lookup-insert_self url (failures_of f p url + 1) p.consecutive_failures),
          refl,
        )

  mark_success_count :
      (p : Pool f.Carrier)
      → IsKnown p
      → let p' = mark_success f url p in
        IsKnown p' × (failures_of f p' url ≡ 0) × (p'.failure_threshold ≡ p.failure_threshold)
  unfolding mark_success
  mark_success_count p (h, known) =
      rw (known, mark_success)
        (
          (_, lookup-insert_self url _ p.health),
          get_or-some url 0 _ _ (lookup-insert_self url 0 p.consecutive_failures),
          refl,
        )

  fail_all_count :
      (times : List ℕ) (p : Pool f.Carrier)
      → IsKnown p
      → (failures_of f (fail_all times p) url ≡ failures_of f p url + length times)
        × ((fail_all times p).failure_threshold ≡ p.failure_threshold)
  unfolding fail_all
  fail_all_count [] p k = omega arith
  fail_all_count (now ∷ times) p k =
      let (k', c, t) = mark_failure_count now p k in
      let (c', t') = fail_all_count times (mark_failure f now url p) k' in (omega arith, t' ∙ t)

  -- In a healthy pool, an endpoint of it is up after a success; then it goes down with exactly as
  -- many consecutive failures as the threshold asks for.
  pub fail_all_down :
      (times : List ℕ) (p : Pool f.Carrier)
      → IsHealthy f p
      → IsKnown p
      → (is_down f (mark_success f url p) url ≡ false)
        × ((is_down f (fail_all times (mark_success f url p)) url ≡ true)
            ↔ (p.failure_threshold ≤ length times))
  fail_all_down times p v k =
      let (k', zero_failures, same) = mark_success_count p k in
      let (c, t) = fail_all_count times (mark_success f url p) k' in
      let pos = v.threshold in (ground arith, ((λ h. ground arith), (λ h. ground arith)))

  -- In a healthy pool, a success of an endpoint that is down lifts its health to the recovery level
  -- or above.
  pub mark_success_recovers :
      (p : Pool f.Carrier)
      → IsHealthy f p
      → IsKnown p
      → is_down f p url ≡ true
      → f.leb p.recovery_health (health_of f (mark_success f url p) url) ≡ true
  unfolding mark_success
  mark_success_recovers p v (h, known) d =
      let r = p.recovery_health in
      let b = min_float f (one_float f) (f.add h (health_success_boost f)) in
      rw
        (
          known,
          mark_success,
          d,
          get_or-some url (zero_float f) (max_float f r b) _
              (lookup-insert_self url (max_float f r b) p.health),
        )
        (max_float_ge f r b ((f.leb_self r (one_float f) v.recovery.1).0))
