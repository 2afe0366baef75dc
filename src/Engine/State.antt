-- ===== src/Engine/State.antt =====
-- `ScanPhase`, `ScanProgress` and the mutators of `EngineState` in engine/state.py.
-- Times are whole ticks of the monotonic clock. The counters of one scan are kept as one list, in
-- the order of the fields `total_pairs` to `total_rpc_snapshots`.
use Prim.Native.String.{◌++◌ as text_append}
use hype_coin_predictive_eng.Prelude.{ℕ, ◌+◌, String, Option, none, some, List, []}

pub data ScanPhase : Type 0 where
  idle bootstrapping scanning forecasting retention finished error : ScanPhase

pub record ScanProgress : Type 0 where
  pub phase : ScanPhase
  pub phase_message : String
  pub started_at : Option ℕ
  pub completed_at : Option ℕ
  pub iteration : ℕ
  pub totals : List ℕ
  pub error_message : Option String

pub record EngineState : Type 0 where
  pub total_iterations : ℕ
  pub scan : ScanProgress

abbrev pub new_scan : ScanProgress
new_scan = record {
  phase = idle;
  phase_message = "";
  started_at = none;
  completed_at = none;
  iteration = 0;
  totals = [];
  error_message = none;
}

unfoldable pub mark_bootstrapping : ℕ → EngineState → EngineState
mark_bootstrapping now s = record s {
  scan = record new_scan {
    phase = bootstrapping;
    phase_message = "Bootstrapping database and reference data";
    started_at = some now;
  };
}

unfoldable pub mark_scanning : ℕ → String → ℕ → EngineState → EngineState
mark_scanning iteration message now s = record s {
  scan = record (s.scan) {
    iteration = iteration;
    phase = scanning;
    phase_message = message;
    started_at = some now;
    completed_at = none;
  };
}

unfoldable pub mark_forecasting : EngineState → EngineState
mark_forecasting s = record s {
  scan = record (s.scan) { phase = forecasting; phase_message = "Training forecast model" };
}

unfoldable pub mark_retention : EngineState → EngineState
mark_retention s = record s {
  scan = record (s.scan) { phase = retention; phase_message = "Running retention autopilot" };
}

unfoldable pub mark_completed : ℕ → EngineState → EngineState
mark_completed now s = record s {
  total_iterations = s.total_iterations + 1;
  scan = record (s.scan) {
    phase = finished;
    phase_message = "Scan complete";
    completed_at = some now;
  };
}

unfoldable pub mark_error : String → ℕ → EngineState → EngineState
mark_error message now s = record s {
  scan = record (s.scan) {
    phase = error;
    phase_message = text_append "Error: " message;
    error_message = some message;
    completed_at = some now;
  };
}
