-- ===== src/Watchdog/Skips.antt =====
-- Consecutive skips of one wedge episode: how often `note_phase_skip` asks for a new alert.
use native.Mathlib.Nat.{add-div_left, div-eq_of_lt}
use hype_coin_predictive_eng.Prelude.{
  ℕ, ◌+◌, ◌/◌, ◌≤◌, ◌<◌, min, String, ◌≡◌, ◌≢◌, refl, ◌⊎◌, inl, inr, some, List, [], ◌∷◌, arith,
  ltb, ◌==◌, if◌then◌else◌, lookup, get_or, lookup-insert_self, lookup-insert_ne, lookup-erase_self,
  length, Bool-cases,
}
use hype_coin_predictive_eng.Watchdog.Registry.{
  Registry, Verdict, counted, alert, note_phase_skip, reset_phase_skip,
}

abbrev pub skips_of : String → Registry → ℕ
skips_of stage r = get_or stage 0 r.skip_counts

abbrev pub fires_of : String → Registry → ℕ
fires_of stage r = get_or stage 0 r.skip_alert_fires

abbrev pub is_alert : Verdict → ℕ
is_alert alert = 1
is_alert _ = 0

-- The watchdog's calls for a stage that is skipped at each of the given times.
unfoldable pub skip_all : String → ℕ → ℕ → ℕ → List ℕ → Registry → Registry × ℕ
skip_all stage threshold max_alerts max_duration [] r = (r, 0)
skip_all stage threshold max_alerts max_duration (now ∷ times) r =
    let (r', v) = note_phase_skip stage threshold max_alerts max_duration now r in
    let (last, alerts) = skip_all stage threshold max_alerts max_duration times r' in
    (last, is_alert v + alerts)

-- A cap of 0 lifts the cap.
abbrev pub capped : ℕ → ℕ → ℕ
capped cap n = if cap == 0 then n else min cap n

module _ (stage : String) (threshold max_alerts : ℕ) (now : ℕ) (r : Registry) where
  abbrev after : Registry × Verdict
  after = note_phase_skip stage threshold max_alerts 0 now r

  -- One skip below the threshold is counted.
  note_counted :
      skips_of stage r + 1 < threshold
      → (skips_of stage after.0 ≡ skips_of stage r + 1)
        × (fires_of stage after.0 ≡ fires_of stage r)
        × (after.1 ≡ counted)
  unfolding note_phase_skip
  note_counted h = ground (arith, lookup-insert_self stage (skips_of stage r + 1) r.skip_counts)

  -- The skip that reaches the threshold fires, unless the cap is met.
  note_full :
      0 < threshold
      → threshold ≤ skips_of stage r + 1
      → (skips_of stage after.0 ≡ 0)
        × (fires_of stage after.0 ≡ (
            if max_alerts == 0
            then fires_of stage r + 1
            else if ltb (fires_of stage r) max_alerts
            then fires_of stage r + 1
            else fires_of stage r))
        × (is_alert after.1 + fires_of stage r ≡ fires_of stage after.0)
  unfolding note_phase_skip
  note_full h k = ground (
    arith,
    lookup-insert_self stage 0 r.skip_counts,
    lookup-insert_self stage (fires_of stage r + 1) r.skip_alert_fires,
  )

module _ (stage : String) (threshold max_alerts : ℕ) (pos : 0 < threshold) where
  abbrev Within : Registry → Type 0
  Within r = (skips_of stage r < threshold) × ((max_alerts ≡ 0) ⊎ (fires_of stage r ≤ max_alerts))

  skip_all_from :
      (times : List ℕ) (r : Registry)
      → Within r
      → let (last, alerts) = skip_all stage threshold max_alerts 0 times r in
        (fires_of stage last
          ≡ capped max_alerts (fires_of stage r + (skips_of stage r + length times) / threshold))
        × (alerts + fires_of stage r ≡ fires_of stage last)
  unfolding skip_all
  skip_all_from [] r w =
      let z : (skips_of stage r + 0) / threshold ≡ 0 = div-eq_of_lt (omega arith) in
      ground (arith, z)
  skip_all_from (now ∷ times) r w = elim (Bool-cases (ltb (skips_of stage r + 1) threshold)) [
    | inl below ↦ ground (
      arith,
      note_counted stage threshold max_alerts now r,
      skip_all_from times (note_phase_skip stage threshold max_alerts 0 now r).0,
    )
    | inr full ↦ ground (
      arith,
      note_full stage threshold max_alerts now r pos,
      add-div_left (length times) pos,
      skip_all_from times (note_phase_skip stage threshold max_alerts 0 now r).0,
    )
  ]

-- A fresh episode of n skips, with no cap on its duration, raises n / threshold alerts, and no more
-- than its cap; what the episodes before did is forgotten.
pub skip_all-reset_phase_skip :
    (stage : String) (threshold max_alerts : ℕ) (times : List ℕ) (r : Registry)
    → 0 < threshold
    → (skip_all stage threshold max_alerts 0 times (reset_phase_skip stage r)).1
      ≡ capped max_alerts (length times / threshold)
unfolding reset_phase_skip
skip_all-reset_phase_skip stage threshold max_alerts times r pos = ground (
  arith,
  lookup-erase_self stage r.skip_counts,
  lookup-erase_self stage r.skip_alert_fires,
  skip_all_from stage threshold max_alerts pos times (reset_phase_skip stage r),
)

-- When the episode began, for a stage that has one.
abbrev BeganAt : String → ℕ → Registry → Type 0
BeganAt stage t r = lookup stage r.skip_alert_started ≡ some t

note_late :
    (stage : String) (threshold max_alerts max_duration t now : ℕ) (r : Registry)
    → 0 < max_duration
    → BeganAt stage t r
    → t + max_duration ≤ now
    → let (r', v) = note_phase_skip stage threshold max_alerts max_duration now r in
      BeganAt stage t r' × (is_alert v ≡ 0)
unfolding note_phase_skip
note_late stage threshold max_alerts max_duration t now r d e l = ground arith

abbrev pub AllAfter : ℕ → List ℕ → Type 0
AllAfter t [] = Unit
AllAfter t (x ∷ xs) = (t ≤ x) × AllAfter t xs

-- Once an episode has lasted for its maximal duration, no later skip of it raises an alert, whatever
-- the threshold and the cap on alerts.
pub skip_all_late :
    (stage : String) (threshold max_alerts max_duration t : ℕ) (times : List ℕ) (r : Registry)
    → 0 < max_duration
    → lookup stage r.skip_alert_started ≡ some t
    → AllAfter (t + max_duration) times
    → (skip_all stage threshold max_alerts max_duration times r).1 ≡ 0
unfolding skip_all
skip_all_late stage threshold max_alerts max_duration t [] r d e l = refl
skip_all_late stage threshold max_alerts max_duration t (now ∷ times) r d e l = ground (
  arith,
  note_late stage threshold max_alerts max_duration t now r d e l.0,
  skip_all_late stage threshold max_alerts max_duration t times
      (note_phase_skip stage threshold max_alerts max_duration now r).0,
)

-- A skip of one stage leaves the episode of every other stage, and the threads, as they were.
pub note_phase_skip_frame :
    (stage other : String) (threshold max_alerts max_duration now : ℕ) (r : Registry)
    → stage ≢ other
    → let r' = (note_phase_skip stage threshold max_alerts max_duration now r).0 in
      (lookup other r'.skip_counts ≡ lookup other r.skip_counts)
      × (lookup other r'.skip_alert_fires ≡ lookup other r.skip_alert_fires)
      × (lookup other r'.skip_alert_started ≡ lookup other r.skip_alert_started)
      × (r'.in_flight ≡ r.in_flight)
      × (r'.abandoned ≡ r.abandoned)
      × (r'.alive ≡ r.alive)
unfolding note_phase_skip
note_phase_skip_frame stage other threshold max_alerts max_duration now r ne =
    grind (arith, lookup-insert_ne)
