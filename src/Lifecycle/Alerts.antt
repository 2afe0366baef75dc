-- ===== src/Lifecycle/Alerts.antt =====
-- The alerts of the lifecycle scan: at most one for each event.
use hype_coin_predictive_eng.Prelude.{
  ℕ, suc, ◌≤◌, ◌≡◌, inl, inr, refl, Bool, true, false, Option, none, some, List, [], ◌∷◌, ◌++◌,
  ◌&&◌, ◌==◌, if◌then◌else◌, arith, Bool-cases,
}
use hype_coin_predictive_eng.Float.{Float}
use hype_coin_predictive_eng.Lifecycle.Phase.{
  LifecyclePhase, PhaseEvidence, is_alert_phase, advances, detect_phase,
}
use hype_coin_predictive_eng.Lifecycle.Store.{
  Event, Alert, Db, current_phase, has_alert, maybe_transition_alert, add_event, ensure_event,
  find_event, emit, scan_asset, scan,
}

-- The alerts that name one event of an asset.
unfoldable pub count_alerts : ℕ → ℕ → List Alert → ℕ
count_alerts asset event [] = 0
count_alerts asset event (a ∷ l) =
    let n = count_alerts asset event l in
    if a.asset_id == asset && a.event_id == event then suc n else n

count_alerts-append :
    (asset event : ℕ) (l : List Alert) (a : Alert)
    → count_alerts asset event (l ++ (a ∷ [])) ≡ (
        if a.asset_id == asset && a.event_id == event
        then suc (count_alerts asset event l)
        else count_alerts asset event l)
unfolding count_alerts
count_alerts-append asset event [] a = refl
count_alerts-append asset event (b ∷ l) a = ground (arith, count_alerts-append asset event l a)

count_alerts_none :
    (asset event : ℕ) (l : List Alert)
    → has_alert asset event l ≡ false
    → count_alerts asset event l ≡ 0
unfolding count_alerts has_alert
count_alerts_none asset event [] h = refl
count_alerts_none asset event (a ∷ l) h = ground (arith, count_alerts_none asset event l)

-- No event has two alerts.
abbrev pub AlertsOnce : Db → Type 0
AlertsOnce db = (asset event : ℕ) → count_alerts asset event db.alerts ≤ 1

maybe_transition_alert-AlertsOnce :
    (allowed : Bool) (asset event : ℕ) (db : Db)
    → AlertsOnce db
    → AlertsOnce (maybe_transition_alert allowed asset event db)
unfolding maybe_transition_alert
maybe_transition_alert-AlertsOnce allowed asset event db h asset' event' = ground (
  arith,
  h asset' event',
  count_alerts-append asset' event' db.alerts (record { asset_id = asset; event_id = event }),
  count_alerts_none asset event db.alerts,
)

ensured-AlertsOnce :
    (asset ts : ℕ) (phase : LifecyclePhase) (db : Db) (o : Option Event)
    → AlertsOnce db
    → AlertsOnce (ensure_event asset phase ts db o).1
unfolding add_event
ensured-AlertsOnce asset ts phase db none h = h
ensured-AlertsOnce asset ts phase db (some e) h = h

if-AlertsOnce :
    (b : Bool) (x y : Db) → AlertsOnce x → AlertsOnce y → AlertsOnce (if b then x else y)
if-AlertsOnce true x y h k = h
if-AlertsOnce false x y h k = k

emit-AlertsOnce :
    (allowed : Bool) (asset ts : ℕ) (phase : LifecyclePhase) (db : Db)
    → AlertsOnce db
    → AlertsOnce (emit allowed asset phase ts db)
unfolding emit
emit-AlertsOnce allowed asset ts phase db h =
    let found = find_event asset phase ts db.events in
    let h' = ensured-AlertsOnce asset ts phase db found h in
    if-AlertsOnce (is_alert_phase phase) _ _
      (maybe_transition_alert-AlertsOnce allowed asset (ensure_event asset phase ts db found).0
        (ensure_event asset phase ts db found).1 h')
      h'

scan_asset-AlertsOnce :
    (f : Float) (allowed : Bool) (asset ts : ℕ) (e : PhaseEvidence f.Carrier) (db : Db)
    → AlertsOnce db
    → AlertsOnce (scan_asset f allowed asset ts e db).0
unfolding scan_asset
scan_asset-AlertsOnce f allowed asset ts e db h =
    elim (Bool-cases (advances (current_phase asset db) (detect_phase f e))) [
      | inl forward ↦ rw forward (emit-AlertsOnce allowed asset ts (detect_phase f e) db h)
      | inr stay ↦ rw stay h
    ]

-- However many assets a scan visits, and whether they repeat or not, no lifecycle event gets a second
-- alert.
pub scan-AlertsOnce :
    (f : Float) (allowed : Bool) (ts : ℕ) (assets : List (ℕ × Option (PhaseEvidence f.Carrier)))
    (db : Db)
    → AlertsOnce db
    → AlertsOnce (scan f allowed ts assets db).0
unfolding scan
scan-AlertsOnce f allowed ts [] db h = h
scan-AlertsOnce f allowed ts ((asset, none) ∷ assets) db h =
    scan-AlertsOnce f allowed ts assets db h
scan-AlertsOnce f allowed ts ((asset, some e) ∷ assets) db h =
    scan-AlertsOnce f allowed ts assets (scan_asset f allowed asset ts e db).0
      (scan_asset-AlertsOnce f allowed asset ts e db h)
