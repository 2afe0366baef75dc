-- ===== src/Lifecycle/Store.antt =====
-- The rows that a lifecycle scan reads and writes: `scan`, `_current_phase`, `_emit` and
-- `_maybe_transition_alert` of pump_physics/engine.py, and ops/alert_quality.py.
-- A row keeps the columns that the code branches on. Times are whole ticks.
use hype_coin_predictive_eng.Prelude.{
  ℕ, suc, ◌+◌, ◌*◌, Bool, true, false, Option, none, some, List, [], ◌∷◌, ◌++◌, ◌&&◌, ◌||◌, not,
  ltb, ◌==◌, if◌then◌else◌,
}
use hype_coin_predictive_eng.Prelude.Int.{pos}
use hype_coin_predictive_eng.Float.{Float}
use hype_coin_predictive_eng.Lifecycle.Phase.{
  LifecyclePhase, seeding, ignition, parabolic, saturation, collapse, dead, rugged, survivor,
  PhaseEvidence, is_terminal, is_alert_phase, advances, detect_phase,
}

-- Two phases have the same value.
abbrev pub code_of : LifecyclePhase → ℕ
code_of seeding = 0
code_of ignition = 1
code_of parabolic = 2
code_of saturation = 3
code_of collapse = 4
code_of dead = 5
code_of rugged = 6
code_of survivor = 7

-- `confidence` is in hundredths.
pub record Event : Type 0 where
  pub id : ℕ
  pub asset_id : ℕ
  pub phase : LifecyclePhase
  pub ts : ℕ
  pub confidence : ℕ

-- An alert of type lifecycle_transition; `event_id` is what `score_snapshot_ref` names.
pub record Alert : Type 0 where
  pub asset_id : ℕ
  pub event_id : ℕ

-- The database gives each new event the next id.
pub record Db : Type 0 where
  pub events : List Event
  pub alerts : List Alert
  pub next_id : ℕ

-- The row with the greatest time: `order_by(ts.desc()).limit(1)`.
abbrev pub later : Event → Option Event → Option Event
later e none = some e
later e (some d) = if ltb e.ts d.ts then some d else some e

unfoldable pub latest : ℕ → List Event → Option Event
latest asset [] = none
latest asset (e ∷ l) =
    let rest = latest asset l in if e.asset_id == asset then later e rest else rest

unfoldable pub current_phase : ℕ → Db → Option LifecyclePhase
current_phase asset db = elim (latest asset db.events) [ none ↦ none | some e ↦ some (e.phase) ]

unfoldable pub find_event : ℕ → LifecyclePhase → ℕ → List Event → Option Event
find_event asset phase ts [] = none
find_event asset phase ts (e ∷ l) =
    let rest = find_event asset phase ts l in
    if e.asset_id == asset && (code_of e.phase == code_of phase && e.ts == ts) then some e else rest

unfoldable pub has_alert : ℕ → ℕ → List Alert → Bool
has_alert asset event [] = false
has_alert asset event (a ∷ l) =
    (a.asset_id == asset && a.event_id == event) || has_alert asset event l

-- `allowed` is the answer of `alert_generation_allowed`.
unfoldable pub maybe_transition_alert : Bool → ℕ → ℕ → Db → Db
maybe_transition_alert allowed asset event db =
    if has_alert asset event db.alerts
    then db
    else if not allowed
    then db
    else record db { alerts = db.alerts ++ (record { asset_id = asset; event_id = event } ∷ []) }

unfoldable pub add_event : ℕ → LifecyclePhase → ℕ → Db → Db
add_event asset phase ts db = record db {
  events =
      record {
        id = db.next_id;
        asset_id = asset;
        phase = phase;
        ts = ts;
        confidence = if is_terminal phase then 90 else 50;
      }
      ∷ db.events;
  next_id = db.next_id + 1;
}

-- The event's id and the rows, whether the event is there or new.
abbrev pub ensure_event : ℕ → LifecyclePhase → ℕ → Db → Option Event → ℕ × Db
ensure_event asset phase ts db (some e) = (e.id, db)
ensure_event asset phase ts db none = (db.next_id, add_event asset phase ts db)

unfoldable pub emit : Bool → ℕ → LifecyclePhase → ℕ → Db → Db
unfolding maybe_transition_alert add_event
emit allowed asset phase ts db =
    let (event, db') = ensure_event asset phase ts db (find_event asset phase ts db.events) in
    if is_alert_phase phase then maybe_transition_alert allowed asset event db' else db'

module _ (f : Float) where
  -- The body of the loop in `scan`, for an asset whose evidence is not None; and the new events.
  unfoldable pub scan_asset : Bool → ℕ → ℕ → PhaseEvidence f.Carrier → Db → Db × ℕ
  scan_asset allowed asset ts evidence db =
      let detected = detect_phase f evidence in
      if advances (current_phase asset db) detected
      then (emit allowed asset detected ts db, 1)
      else (db, 0)

  -- `counts`: events and assets
  unfoldable pub scan : Bool → ℕ → List (ℕ × Option (PhaseEvidence f.Carrier)) → Db → Db × ℕ × ℕ
  scan allowed ts [] db = (db, 0, 0)
  scan allowed ts ((asset, none) ∷ assets) db = scan allowed ts assets db
  scan allowed ts ((asset, some evidence) ∷ assets) db =
      let (db', n) = scan_asset allowed asset ts evidence db in
      let (last, events, seen) = scan allowed ts assets db' in (last, n + events, 1 + seen)

-- The rating of an acknowledged alert.
pub data AckQuality : Type 0 where
  useful noise unrated : AckQuality

abbrev pub count_useful : List AckQuality → ℕ
count_useful [] = 0
count_useful (useful ∷ l) = suc (count_useful l)
count_useful (_ ∷ l) = count_useful l

abbrev pub count_noise : List AckQuality → ℕ
count_noise [] = 0
count_noise (noise ∷ l) = suc (count_noise l)
count_noise (_ ∷ l) = count_noise l

-- `reenabled` is the control row's flag, if there is a row; the rows are the acknowledged alerts.
unfoldable pub alert_generation_allowed :
    (f : Float) → Option Bool → List AckQuality → ℕ → f.Carrier → Bool
alert_generation_allowed f (some true) rows min_ratings floor = true
alert_generation_allowed f _ rows min_ratings floor =
    let rated = count_useful rows + count_noise rows in
    if ltb rated min_ratings
    then true
    else f.leb floor (f.div (f.cents (pos (count_useful rows * 100))) (f.cents (pos (rated * 100))))
