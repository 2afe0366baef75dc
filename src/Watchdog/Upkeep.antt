-- ===== src/Watchdog/Upkeep.antt =====
-- `WatchdogState` and `run_watchdog` of ops/watchdog.py. What SQLite and the file system answer is an
-- argument: whether VACUUM succeeds, and how full the disks are, in tenths of a percent, as rounded.
use hype_coin_predictive_eng.Prelude.{
  ℕ, ◌+◌, ◌-◌, ◌*◌, String, Bool, Option, none, some, List, [], ◌∷◌, ◌++◌, ltb, leb, if◌then◌else◌,
  max,
}

pub record WatchdogState : Type 0 where
  pub consecutive_scan_failures : ℕ
  pub last_vacuum : ℕ
  pub total_iterations : ℕ
  pub total_scan_failures : ℕ

pub data HealthState : Type 0 where
  ok yellow red : HealthState

-- A row of the system's health, without its message.
pub record Health : Type 0 where
  pub component : String
  pub state : HealthState
  pub error_count : ℕ

unfoldable pub on_scan_success : WatchdogState → WatchdogState
on_scan_success s = record s { consecutive_scan_failures = 0 }

unfoldable pub on_scan_failure : WatchdogState → WatchdogState
on_scan_failure s = record s {
  consecutive_scan_failures = s.consecutive_scan_failures + 1;
  total_scan_failures = s.total_scan_failures + 1;
}

unfoldable pub check_consecutive_failures : WatchdogState → Bool
check_consecutive_failures s = leb 5 s.consecutive_scan_failures

-- What one call of `run_watchdog` meets.
pub record Site : Type 0 where
  pub is_sqlite : Bool
  pub now : ℕ
  pub vacuumed : Bool
  pub database_pct : Option ℕ
  pub archive_pct : Option ℕ

-- `maybe_vacuum`, with its interval of 6 hours, in seconds.
unfoldable pub maybe_vacuum : Site → WatchdogState → WatchdogState
maybe_vacuum w s =
    if w.is_sqlite
    then (if ltb (w.now - s.last_vacuum) (6 * 3600)
        then s
        else if w.vacuumed
        then record s { last_vacuum = w.now }
        else s)
    else s

abbrev pub disk_health : ℕ → Health
disk_health pct =
    if leb 950 pct
    then record { component = "disk"; state = red; error_count = 1 }
    else if leb 850 pct
    then record { component = "disk"; state = yellow; error_count = 0 }
    else record { component = "disk"; state = ok; error_count = 0 }

-- The row of `check_disk_space`; a disk that cannot be read counts as 0, and if neither can there is no
-- row.
abbrev pub disk_rows : Option ℕ → Option ℕ → List Health
disk_rows none none = []
disk_rows none (some a) = disk_health (max 0 a) ∷ []
disk_rows (some d) none = disk_health (max d 0) ∷ []
disk_rows (some d) (some a) = disk_health (max d a) ∷ []

pub record Summary : Type 0 where
  pub iteration : ℕ
  pub consecutive_failures : ℕ
  pub total_failures : ℕ
  pub degraded : Bool

-- `run_watchdog`: the summary, the rows of the session and the state.
unfoldable pub run_watchdog : Site → WatchdogState → Summary × List Health × WatchdogState
unfolding check_consecutive_failures maybe_vacuum
run_watchdog w s =
    let counted = record s { total_iterations = s.total_iterations + 1 } in
    let kept = maybe_vacuum w counted in
    (
      record {
        iteration = counted.total_iterations;
        consecutive_failures = counted.consecutive_scan_failures;
        total_failures = counted.total_scan_failures;
        degraded = check_consecutive_failures kept;
      },
      disk_rows w.database_pct w.archive_pct
          ++ (record {
            component = "watchdog";
            state = if ltb 0 kept.consecutive_scan_failures then yellow else ok;
            error_count = kept.consecutive_scan_failures;
          }
              ∷ []),
      kept,
    )
