-- ===== src/Engine/Errors.antt =====
-- What an iteration reports: its error flag, the night crawler's clock and the scan's phase.
use hype_coin_predictive_eng.Prelude.{
  ℕ, ◌*◌, ◌-◌, String, ◌≡◌, refl, Bool, true, false, Option, none, some, arith, if◌then◌else◌, ◌&&◌,
  not, leb,
}
use hype_coin_predictive_eng.Engine.State.{mark_forecasting, mark_retention}
use hype_coin_predictive_eng.Engine.Phase.{Weather, PhaseResult, shut_down, done, failed}
use hype_coin_predictive_eng.Engine.Phases.{
  Settings, Inputs, Loop, Flow, go, leave, ◌>>=◌, settle, settle_informational, forecast_block,
  retention_block, parity_block, settle_nightcrawler, nightcrawler_block, data_lake_block,
  score_drift_block, run_engine_phases,
}

abbrev pub is_some {ℓ} : {A : Type ℓ} → Option A → Bool
is_some none = false
is_some (some _) = true

-- The flag says whether a message has been recorded; a block that leaves always raises the flag.
abbrev IsReported : Loop → Type 0
IsReported l = l.phase_error ≡ is_some l.state.scan.error_message

abbrev pub Reports : Flow → Type 0
Reports (go l) = l.phase_error ≡ is_some l.state.scan.error_message
Reports (leave l) = l.phase_error ≡ true

Reports-if : (b : Bool) (x y : Flow) → Reports x → Reports y → Reports (if b then x else y)
Reports-if true x y h k = h
Reports-if false x y h k = k

>>=-Reports :
    (x : Flow) (f : Loop → Flow)
    → Reports x
    → ((l : Loop) → IsReported l → Reports (f l))
    → Reports (x >>= f)
>>=-Reports (go l) f h k = k l h
>>=-Reports (leave l) f h k = h

module _ {R : Type 0} where
  settle-Reports :
      (label : String) (now : ℕ) (p : PhaseResult R String) (l : Loop)
      → IsReported l
      → Reports (settle label now p l)
  unfolding settle
  settle-Reports label now shut_down l h = refl
  settle-Reports label now (failed e) l h = refl
  settle-Reports label now (done o) l h = ground arith

  settle_informational-Reports :
      (p : PhaseResult R String) (l : Loop) → IsReported l → Reports (settle_informational p l)
  unfolding settle_informational
  settle_informational-Reports shut_down l h = refl
  settle_informational-Reports (failed e) l h = h
  settle_informational-Reports (done o) l h = h

  settle_nightcrawler-Reports :
      (now_mono now : ℕ) (p : PhaseResult R String) (l : Loop)
      → IsReported l
      → Reports (settle_nightcrawler now_mono now p l)
  unfolding settle_nightcrawler
  settle_nightcrawler-Reports now_mono now shut_down l h = refl
  settle_nightcrawler-Reports now_mono now (failed e) l h = refl
  settle_nightcrawler-Reports now_mono now (done o) l h = ground arith

  nightcrawler_block-Reports :
      (s : Settings) (stop : Bool) (now_mono : ℕ) (w : Weather R String) (l : Loop)
      → IsReported l
      → Reports (nightcrawler_block s stop now_mono w l)
  unfolding nightcrawler_block
  nightcrawler_block-Reports s stop now_mono w l h =
      Reports-if (s.nightcrawler_enabled && not stop) _ _
        (Reports-if (leb (s.nightcrawler_interval_minutes * 60) (now_mono - l.last_nc_run)) _ _
          (settle_nightcrawler-Reports now_mono w.ended _ _ h) h)
        h

  forecast_block-Reports :
      (s : Settings) (w : Weather R String) (l : Loop)
      → IsReported l
      → Reports (forecast_block s w l)
  unfolding forecast_block mark_forecasting
  forecast_block-Reports s w l h = settle-Reports "forecast" w.ended _ _ h

  retention_block-Reports :
      (s : Settings) (w : Weather R String) (l : Loop)
      → IsReported l
      → Reports (retention_block s w l)
  unfolding retention_block mark_retention
  retention_block-Reports s w l h = settle-Reports "retention" w.ended _ _ h

  parity_block-Reports :
      (s : Settings) (w : Weather R String) (l : Loop) → IsReported l → Reports (parity_block s w l)
  unfolding parity_block
  parity_block-Reports s w l h = settle_informational-Reports _ _ h

  data_lake_block-Reports :
      (s : Settings) (w : Weather R String) (l : Loop)
      → IsReported l
      → Reports (data_lake_block s w l)
  unfolding data_lake_block
  data_lake_block-Reports s w l h =
      Reports-if s.data_lake_enabled _ _ (settle-Reports "data_lake" w.ended _ _ h) h

  score_drift_block-Reports :
      (s : Settings) (w : Weather R String) (l : Loop)
      → IsReported l
      → Reports (score_drift_block s w l)
  unfolding score_drift_block
  score_drift_block-Reports s w l h =
      Reports-if s.score_drift_enabled _ _ (settle_informational-Reports _ _ h) h

  -- From a scan without an error message: phases that run to their end raise the error flag exactly
  -- if they record an error message, and phases that stop at a shutdown always raise it.
  pub run_engine_phases-Reports :
      (s : Settings) (i : Inputs R) (l : Loop)
      → l.state.scan.error_message ≡ none
      → Reports (run_engine_phases s i l)
  unfolding run_engine_phases
  run_engine_phases-Reports s i l h =
      >>=-Reports _ _
        (>>=-Reports _ _
          (>>=-Reports _ _
            (>>=-Reports _ _
              (>>=-Reports _ _ (forecast_block-Reports s i.forecast _ (rw h))
                (retention_block-Reports s i.retention))
              (parity_block-Reports s i.parity))
            (nightcrawler_block-Reports s i.stop_is_set i.now_mono i.nightcrawler))
          (data_lake_block-Reports s i.data_lake))
        (score_drift_block-Reports s i.score_drift)
