-- ===== src/Watchdog/Registry.antt =====
-- The module-level registries of ops/watchdog.py, and the functions that read and change them.
-- A thread object is its number and the stage that it runs: `alive` lists those still executing.
-- Times are whole ticks of the monotonic clock, which the code only compares and subtracts.
use hype_coin_predictive_eng.Prelude.{
  ℕ, ◌+◌, ◌-◌, String, Bool, false, ◌&&◌, ◌||◌, Option, none, some, List, [], ◌∷◌, ltb, leb, ◌==◌,
  if◌then◌else◌, str_eq, Dict, lookup, insert, erase, get_or, setdefault,
}

pub record Registry : Type 0 where
  pub in_flight : Dict ℕ
  pub abandoned : Dict ℕ
  pub skip_counts : Dict ℕ
  pub skip_alert_fires : Dict ℕ
  pub skip_alert_started : Dict ℕ
  pub alive : List (String × ℕ)
  pub next_thread : ℕ

abbrev pub start : Registry
start = record {
  in_flight = [];
  abandoned = [];
  skip_counts = [];
  skip_alert_fires = [];
  skip_alert_started = [];
  alive = [];
  next_thread = 0;
}

-- `thread.is_alive()` for the thread number `t` of a stage.
unfoldable pub is_alive : String → ℕ → List (String × ℕ) → Bool
is_alive stage t [] = false
is_alive stage t ((s, u) ∷ rest) = (str_eq s stage && u == t) || is_alive stage t rest

-- The thread has run to its end.
unfoldable pub remove_thread : String → ℕ → List (String × ℕ) → List (String × ℕ)
remove_thread stage t [] = []
remove_thread stage t ((s, u) ∷ l) =
    let rest = remove_thread stage t l in if str_eq s stage && u == t then rest else (s, u) ∷ rest

unfoldable pub register_in_flight : String → ℕ → Registry → Registry
register_in_flight stage thread r = record r { in_flight = insert stage thread r.in_flight }

-- `_in_flight.get(stage) is thread`
abbrev pub is_thread : ℕ → Option ℕ → Bool
is_thread thread none = false
is_thread thread (some t) = t == thread

unfoldable pub clear_in_flight : String → ℕ → Registry → Registry
clear_in_flight stage thread r = record r {
  in_flight =
      if is_thread thread (lookup stage r.in_flight) then erase stage r.in_flight else r.in_flight;
  abandoned = erase stage r.abandoned;
}

unfoldable pub in_flight_alive : String → Registry → Bool
in_flight_alive stage r = elim (lookup stage r.in_flight) [
  | none ↦ false
  | some t ↦ is_alive stage t r.alive
]

pub data Verdict : Type 0 where
  counted alert muted_alerts muted_duration : Verdict

-- The part of `note_phase_skip` below the threshold test, once the cycle is complete.
unfoldable pub decide_alert : String → ℕ → ℕ → ℕ → Registry → Registry × Verdict
decide_alert stage max_alerts max_duration now r =
    if ltb 0 max_alerts && leb max_alerts (get_or stage 0 r.skip_alert_fires)
    then (r, muted_alerts)
    else if ltb 0 max_duration && leb max_duration (now - get_or stage 0 r.skip_alert_started)
    then (r, muted_duration)
    else (
      record r {
        skip_alert_fires = insert stage (get_or stage 0 r.skip_alert_fires + 1) r.skip_alert_fires;
      },
      alert,
    )

unfoldable pub note_phase_skip : String → ℕ → ℕ → ℕ → ℕ → Registry → Registry × Verdict
unfolding decide_alert
note_phase_skip stage threshold max_alerts max_duration now r =
    if threshold == 0
    then (r, counted)
    else let started = setdefault stage now r.skip_alert_started in
      let n = get_or stage 0 r.skip_counts + 1 in
      if ltb n threshold
      then (
        record r { skip_alert_started = started; skip_counts = insert stage n r.skip_counts },
        counted,
      )
      else decide_alert stage max_alerts max_duration now
          (record r { skip_alert_started = started; skip_counts = insert stage 0 r.skip_counts })

unfoldable pub reset_phase_skip : String → Registry → Registry
reset_phase_skip stage r = record r {
  skip_counts = erase stage r.skip_counts;
  skip_alert_fires = erase stage r.skip_alert_fires;
  skip_alert_started = erase stage r.skip_alert_started;
}

unfoldable pub reset_phase_skip_tracking : Registry → Registry
reset_phase_skip_tracking r = record r {
  skip_counts = [];
  skip_alert_fires = [];
  skip_alert_started = [];
}

unfoldable pub abandoned_stages : Registry → Dict ℕ
abandoned_stages r = r.abandoned
