-- ===== src/Lifecycle/Detect.antt =====
-- The priorities of `detect_phase`.
use hype_coin_predictive_eng.Prelude.{◌≤◌, ◌≡◌, ◌≢◌, ◌↔◌, true, false, ◌&&◌, arith}
use hype_coin_predictive_eng.Float.{Float}
use hype_coin_predictive_eng.Lifecycle.Phase.{
  seeding, parabolic, saturation, rugged, survivor, PhaseEvidence, is_rugged, detect_phase,
}

module _ (f : Float) (e : PhaseEvidence f.Carrier) where
  -- An asset is SEEDING exactly while it has no pool; with a pool, a drained pool after a withdrawal
  -- is exactly what RUGGED means, and no evidence is classified SURVIVOR.
  pub detect_phase_exits :
      ((detect_phase f e ≡ seeding) ↔ (e.has_pool ≡ false))
      × ((detect_phase f e ≡ rugged) ↔ ((e.has_pool && is_rugged f e) ≡ true))
      × (detect_phase f e ≢ survivor)
  unfolding detect_phase
  detect_phase_exits = (
    ((λ h. ground arith), (λ h. ground arith)),
    ((λ h. ground arith), (λ h. ground arith)),
    (λ h. ground arith),
  )

  -- Once any ignition event is on record, the asset is never classified PARABOLIC or SATURATION.
  pub detect_phase_after_ignition :
      1 ≤ e.ignition_events → (detect_phase f e ≢ parabolic) × (detect_phase f e ≢ saturation)
  unfolding detect_phase
  detect_phase_after_ignition h = ((λ q. ground arith), (λ q. ground arith))
