-- ===== src/Lifecycle/History.antt =====
-- The lifecycle of an asset over any number of scans, and what a repeated scan does.
use hype_coin_predictive_eng.Prelude.{
  ℕ, ◌≤◌, ◌≡◌, inl, inr, refl, Bool, true, false, none, some, List, [], ◌∷◌, ◌∙◌, arith, length,
  Bool-cases,
}
use hype_coin_predictive_eng.Float.{Float}
use hype_coin_predictive_eng.Lifecycle.Phase.{
  LifecyclePhase, seeding, ignition, parabolic, saturation, collapse, dead, rugged, survivor,
  PhaseEvidence, advances, detect_phase,
}
use hype_coin_predictive_eng.Lifecycle.Store.{
  Event, Db, latest, current_phase, maybe_transition_alert, add_event, emit, scan_asset,
}
use hype_coin_predictive_eng.Lifecycle.Monotone.{
  phases_of, IsChain, Before, events-emit, current_phase-add_event, current_phase_of_events, Scan,
  run_scans, detected_run, run_scans-IsOrdered, length-IsChain-le,
}

Before-unknown :
    (asset ts : ℕ) (l : List Event)
    → phases_of asset l ≡ []
    → Before asset ts l × (latest asset l ≡ none)
unfolding phases_of latest
Before-unknown asset ts [] e = (tt, refl)
Before-unknown asset ts (x ∷ l) e = ground (arith, Before-unknown asset ts l)

-- For an asset with no event yet, any scans at rising times leave a history in which every phase
-- advances on the one before it, of at most six events; its last phase is what the detected phases
-- alone lead to, whether alerts were allowed or not.
pub run_scans_history :
    (f : Float) (asset ts : ℕ) (scans : List (Scan f.Carrier)) (db : Db)
    → phases_of asset db.events ≡ []
    → let db' = run_scans f asset ts scans db in
      IsChain (phases_of asset db'.events)
      × (length (phases_of asset db'.events) ≤ 6)
      × (current_phase asset db' ≡ detected_run f asset scans none)
unfolding current_phase
run_scans_history f asset ts scans db e =
    let (b, l) = Before-unknown asset ts db.events e in
    let c : current_phase asset db ≡ none = rw (l, current_phase) refl in
    let (last, chain) =
      run_scans-IsOrdered f asset ts scans db
        (record { before = b; current = rw (c, e) refl; chain = rw e tt }) in
    (chain, length-IsChain-le _ chain, last ∙ rw c refl)

not-advances_self : (d : LifecyclePhase) → advances (some d) d ≡ false
unfolding advances
not-advances_self seeding = refl
not-advances_self ignition = refl
not-advances_self parabolic = refl
not-advances_self saturation = refl
not-advances_self collapse = refl
not-advances_self dead = refl
not-advances_self rugged = refl
not-advances_self survivor = refl

module _ (f : Float) (asset ts : ℕ) (e : PhaseEvidence f.Carrier) (db : Db) where
  current_phase-scan_asset :
      (allowed : Bool)
      → Before asset ts db.events
      → advances (current_phase asset (scan_asset f allowed asset ts e db).0) (detect_phase f e)
        ≡ false
  unfolding scan_asset
  current_phase-scan_asset allowed b =
      let d = detect_phase f e in
      elim (Bool-cases (advances (current_phase asset db) d)) [
        | inl forward ↦ rw forward (
            let now : current_phase asset (emit allowed asset d ts db) ≡ some d =
              current_phase_of_events asset (add_event asset d ts db) _
                (events-emit allowed asset ts d db b)
              ∙ current_phase-add_event asset ts d db b in
            rw now (not-advances_self d))
        | inr stay ↦ rw stay stay
      ]

  -- A scan that finds the evidence of the last scan changes no row: the scan is idempotent.
  pub scan_asset_again :
      (allowed allowed' : Bool) (ts' : ℕ)
      → Before asset ts db.events
      → let db' = (scan_asset f allowed asset ts e db).0 in
        scan_asset f allowed' asset ts' e db' ≡ (db', 0)
  unfolding scan_asset
  scan_asset_again allowed allowed' ts' b = rw (current_phase-scan_asset allowed b)

  alerts-scan_asset : (scan_asset f false asset ts e db).0.alerts ≡ db.alerts
  unfolding scan_asset emit maybe_transition_alert add_event
  alerts-scan_asset = ground arith

  -- An alert that the quality gate held back when its phase was entered is not sent by a later scan of
  -- the same evidence, though the gate is open by then.
  pub scan_asset_not_backfilled :
      (ts' : ℕ)
      → Before asset ts db.events
      → let db' = (scan_asset f false asset ts e db).0 in
        (scan_asset f true asset ts' e db').0.alerts ≡ db.alerts
  scan_asset_not_backfilled ts' b = rw (scan_asset_again false true ts' b) alerts-scan_asset
