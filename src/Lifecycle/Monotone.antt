-- ===== src/Lifecycle/Monotone.antt =====
-- The recorded phases of one asset only move forward.
use hype_coin_predictive_eng.Prelude.{
  ℕ, suc, ◌+◌, ◌≤◌, ◌<◌, ◌≡◌, ◌≢◌, ◌⊎◌, inl, inr, refl, Bool, true, Option, none, some, List, [],
  ◌∷◌, ◌==◌, ◌∙◌, if◌then◌else◌, arith, length, Bool-cases, Option-cases,
}
use hype_coin_predictive_eng.Float.{Float}
use hype_coin_predictive_eng.Lifecycle.Phase.{
  LifecyclePhase, seeding, PhaseEvidence, is_alert_phase, advances, phase_rank, detect_phase,
}
use hype_coin_predictive_eng.Lifecycle.Store.{
  Event, Db, latest, current_phase, find_event, maybe_transition_alert, add_event, emit, scan_asset,
}

-- The phases of an asset's events, newest first.
unfoldable pub phases_of : ℕ → List Event → List LifecyclePhase
phases_of asset [] = []
phases_of asset (e ∷ l) =
    let rest = phases_of asset l in if e.asset_id == asset then e.phase ∷ rest else rest

abbrev pub head_of : List LifecyclePhase → Option LifecyclePhase
head_of [] = none
head_of (p ∷ l) = some p

-- Each phase advances on the one before it.
abbrev pub IsChain : List LifecyclePhase → Type 0
IsChain [] = Unit
IsChain (p ∷ []) = Unit
IsChain (q ∷ p ∷ l) = (advances (some p) q ≡ true) × IsChain (p ∷ l)

-- The asset's events are older than the given time.
abbrev pub Before : ℕ → ℕ → List Event → Type 0
Before asset ts [] = Unit
Before asset ts (e ∷ l) = ((e.asset_id ≢ asset) ⊎ (e.ts < ts)) × Before asset ts l

pub record IsOrdered (asset ts : ℕ) (db : Db) : Type 0 where
  pub before : Before asset ts db.events
  pub current : current_phase asset db ≡ head_of (phases_of asset db.events)
  pub chain : IsChain (phases_of asset db.events)

Before-weaken :
    (asset ts ts' : ℕ) (l : List Event) → ts ≤ ts' → Before asset ts l → Before asset ts' l
Before-weaken asset ts ts' [] h b = tt
Before-weaken asset ts ts' (e ∷ l) h b = ground (arith, Before-weaken asset ts ts' l h b.1)

pub find_event_fresh :
    (asset ts : ℕ) (phase : LifecyclePhase) (l : List Event)
    → Before asset ts l
    → find_event asset phase ts l ≡ none
unfolding find_event
find_event_fresh asset ts phase [] b = refl
find_event_fresh asset ts phase (e ∷ l) b = ground (arith, find_event_fresh asset ts phase l b.1)

latest-Before :
    (asset ts : ℕ) (l : List Event) (d : Event)
    → Before asset ts l
    → latest asset l ≡ some d
    → d.ts < ts
unfolding latest
latest-Before asset ts [] d b e = cc
latest-Before asset ts (x ∷ l) d b e = elim (Option-cases (latest asset l)) [
  | inl empty ↦ ground arith
  | inr (c, q) ↦ ground (arith, latest-Before asset ts l c b.1 q)
]

-- Only the events matter to the phases, and an alert changes none.
events-maybe_transition_alert :
    (allowed : Bool) (asset event : ℕ) (db : Db)
    → (maybe_transition_alert allowed asset event db).events ≡ db.events
unfolding maybe_transition_alert
events-maybe_transition_alert allowed asset event db = ground arith

pub events-emit :
    (allowed : Bool) (asset ts : ℕ) (phase : LifecyclePhase) (db : Db)
    → Before asset ts db.events
    → (emit allowed asset phase ts db).events ≡ (add_event asset phase ts db).events
unfolding emit
events-emit allowed asset ts phase db b =
    rw (find_event_fresh asset ts phase db.events b) (elim (Bool-cases (is_alert_phase phase)) [
      | inl alert ↦ rw alert (events-maybe_transition_alert allowed asset db.next_id _)
      | inr quiet ↦ rw quiet
    ])

pub current_phase-add_event :
    (asset ts : ℕ) (phase : LifecyclePhase) (db : Db)
    → Before asset ts db.events
    → current_phase asset (add_event asset phase ts db) ≡ some phase
unfolding current_phase add_event latest
current_phase-add_event asset ts phase db b = elim (Option-cases (latest asset db.events)) [
  | inl empty ↦ ground arith
  | inr (d, e) ↦ ground (arith, latest-Before asset ts db.events d b e)
]

pub current_phase_of_events :
    (asset : ℕ) (db db' : Db)
    → db'.events ≡ db.events
    → current_phase asset db' ≡ current_phase asset db
unfolding current_phase
current_phase_of_events asset db db' e = rw e

IsChain-cons :
    (q : LifecyclePhase) (l : List LifecyclePhase)
    → IsChain l
    → advances (head_of l) q ≡ true
    → IsChain (q ∷ l)
IsChain-cons q [] c a = tt
IsChain-cons q (p ∷ l) c a = (a, c)

phases_of-add_event :
    (asset ts : ℕ) (phase : LifecyclePhase) (db : Db)
    → phases_of asset (add_event asset phase ts db).events ≡ phase ∷ phases_of asset db.events
unfolding phases_of add_event
phases_of-add_event asset ts phase db = ground arith

Before-add_event :
    (asset ts : ℕ) (phase : LifecyclePhase) (db : Db)
    → Before asset ts db.events
    → Before asset (ts + 1) (add_event asset phase ts db).events
unfolding add_event
Before-add_event asset ts phase db b =
    (inr (omega arith), Before-weaken asset ts (ts + 1) db.events (omega arith) b)

-- A transition at a later time extends the chain, and becomes the current phase.
add_event-IsOrdered :
    (asset ts : ℕ) (phase : LifecyclePhase) (db db' : Db)
    → IsOrdered asset ts db
    → advances (current_phase asset db) phase ≡ true
    → db'.events ≡ (add_event asset phase ts db).events
    → (current_phase asset db' ≡ some phase) × IsOrdered asset (ts + 1) db'
add_event-IsOrdered asset ts phase db db' o a e =
    let p = phases_of-add_event asset ts phase db in
    let now : current_phase asset db' ≡ some phase =
      current_phase_of_events asset (add_event asset phase ts db) db' e
      ∙ current_phase-add_event asset ts phase db o.before in
    (
      now,
      record {
        before = rw e (Before-add_event asset ts phase db o.before);
        current = now ∙ rw (e, p) refl;
        chain = rw (e, p) (IsChain-cons phase _ o.chain (rw (← o.current) a));
      },
    )

IsOrdered-weaken :
    (asset ts ts' : ℕ) (db : Db) → ts ≤ ts' → IsOrdered asset ts db → IsOrdered asset ts' db
IsOrdered-weaken asset ts ts' db h o = record {
  before = Before-weaken asset ts ts' db.events h o.before;
  current = o.current;
  chain = o.chain;
}

-- A scan of the asset: how long after the scan before, whether alerts are allowed, and the evidence.
pub record Scan (F : Type 0) : Type 0 where
  pub wait : ℕ
  pub allowed : Bool
  pub evidence : PhaseEvidence F

-- The current phase after a scan that detects a phase.
abbrev pub next_phase : Option LifecyclePhase → LifecyclePhase → Option LifecyclePhase
next_phase current detected = if advances current detected then some detected else current

module _ (f : Float) (asset : ℕ) where
  scan_asset-IsOrdered :
      (allowed : Bool) (ts : ℕ) (e : PhaseEvidence f.Carrier) (db : Db)
      → IsOrdered asset ts db
      → let db' = (scan_asset f allowed asset ts e db).0 in
        (current_phase asset db' ≡ next_phase (current_phase asset db) (detect_phase f e))
        × IsOrdered asset (ts + 1) db'
  unfolding scan_asset
  scan_asset-IsOrdered allowed ts e db o =
      let d = detect_phase f e in
      elim (Bool-cases (advances (current_phase asset db) d)) [
        | inl forward ↦ rw forward (
            add_event-IsOrdered asset ts d db _ o forward
              (events-emit allowed asset ts d db o.before))
        | inr stay ↦ rw stay (refl, IsOrdered-weaken asset ts (ts + 1) db (omega arith) o)
      ]

  -- Scans of the asset, each later than the one before.
  unfoldable pub run_scans : ℕ → List (Scan f.Carrier) → Db → Db
  run_scans ts [] db = db
  run_scans ts (s ∷ scans) db =
      let now = ts + s.wait in
      run_scans (now + 1) scans (scan_asset f s.allowed asset now s.evidence db).0

  -- What the detected phases alone make of the current phase.
  abbrev pub detected_run : List (Scan f.Carrier) → Option LifecyclePhase → Option LifecyclePhase
  detected_run [] current = current
  detected_run (s ∷ scans) current =
      detected_run scans (next_phase current (detect_phase f s.evidence))

  pub run_scans-IsOrdered :
      (ts : ℕ) (scans : List (Scan f.Carrier)) (db : Db)
      → IsOrdered asset ts db
      → (current_phase asset (run_scans ts scans db) ≡ detected_run scans (current_phase asset db))
        × IsChain (phases_of asset (run_scans ts scans db).events)
  unfolding run_scans
  run_scans-IsOrdered ts [] db o = (refl, o.chain)
  run_scans-IsOrdered ts (s ∷ scans) db o =
      let now = ts + s.wait in
      let (step, o') =
        scan_asset-IsOrdered s.allowed now s.evidence db
          (IsOrdered-weaken asset ts now db (omega arith) o) in
      rw (← step)
        (run_scans-IsOrdered (now + 1) scans (scan_asset f s.allowed asset now s.evidence db).0 o')

-- A chain that ends in a phase is no longer than the phase's rank allows.
length-IsChain :
    (q : LifecyclePhase) (l : List LifecyclePhase)
    → IsChain (q ∷ l)
    → length (q ∷ l) ≤ suc (phase_rank q)
unfolding advances
length-IsChain q [] c = omega arith
length-IsChain q (p ∷ l) c = ground (arith, length-IsChain p l c.1)

phase_rank-le : (q : LifecyclePhase) → phase_rank q ≤ 5
unfolding phase_rank
phase_rank-le seeding = omega arith
phase_rank-le _ = omega arith

pub length-IsChain-le : (l : List LifecyclePhase) → IsChain l → length l ≤ 6
length-IsChain-le [] c = omega arith
length-IsChain-le (q ∷ l) c = omega (arith, length-IsChain q l c, phase_rank-le q)
