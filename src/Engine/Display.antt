-- ===== src/Engine/Display.antt =====
-- What the operator sees of a failed iteration: the phase and the error message of the scan.
use hype_coin_predictive_eng.Prelude.{
  ℕ, String, ◌≡◌, refl, Bool, true, false, Option, some, arith, if◌then◌else◌, ◌&&◌, not, leb,
  Bool-cases, inl, inr, ◌*◌, ◌-◌,
}
use hype_coin_predictive_eng.Watchdog.Stage.{StageOutcome}
use hype_coin_predictive_eng.Engine.State.{
  error, retention, finished, mark_scanning, mark_forecasting, mark_retention, mark_completed,
}
use hype_coin_predictive_eng.Engine.Phase.{
  Weather, PhaseResult, run_watchdog_phase, shut_down, done, failed,
}
use hype_coin_predictive_eng.Engine.Phases.{
  Settings, Inputs, Loop, Flow, go, leave, ◌>>=◌, end_of, config, settle, settle_informational,
  forecast_block, retention_block, parity_block, settle_nightcrawler, nightcrawler_block,
  data_lake_block, score_drift_block, run_engine_phases,
}

-- A message that stands when a block begins stands when the block ends without an error.
abbrev pub Keeps : Option String → Flow → Type 0
Keeps m (go l) = l.phase_error ≡ false → l.state.scan.error_message ≡ m
Keeps m (leave l) = Unit

abbrev Stands : Option String → Loop → Type 0
Stands m l = l.phase_error ≡ false → l.state.scan.error_message ≡ m

Keeps-if :
    (m : Option String) (b : Bool) (x y : Flow)
    → Keeps m x
    → Keeps m y
    → Keeps m (if b then x else y)
Keeps-if m true x y h k = h
Keeps-if m false x y h k = k

>>=-Keeps :
    (m : Option String) (x : Flow) (f : Loop → Flow)
    → Keeps m x
    → ((l : Loop) → Stands m l → Keeps m (f l))
    → Keeps m (x >>= f)
>>=-Keeps m (go l) f h k = k l h
>>=-Keeps m (leave l) f h k = tt

module _ {R : Type 0} (m : Option String) where
  settle-Keeps :
      (label : String) (now : ℕ) (p : PhaseResult R String) (l : Loop)
      → Stands m l
      → Keeps m (settle label now p l)
  unfolding settle
  settle-Keeps label now shut_down l h = tt
  settle-Keeps label now (failed e) l h = λ q. cc
  settle-Keeps label now (done o) l h = elim (Bool-cases o.timed_out) [
    | inl late ↦ rw late (λ q. cc)
    | inr ok ↦ rw ok h
  ]

  settle_informational-Keeps :
      (p : PhaseResult R String) (l : Loop) → Stands m l → Keeps m (settle_informational p l)
  unfolding settle_informational
  settle_informational-Keeps shut_down l h = tt
  settle_informational-Keeps (failed e) l h = h
  settle_informational-Keeps (done o) l h = h

  settle_nightcrawler-Keeps :
      (now_mono now : ℕ) (p : PhaseResult R String) (l : Loop)
      → Stands m l
      → Keeps m (settle_nightcrawler now_mono now p l)
  unfolding settle_nightcrawler
  settle_nightcrawler-Keeps now_mono now shut_down l h = tt
  settle_nightcrawler-Keeps now_mono now (failed e) l h = λ q. cc
  settle_nightcrawler-Keeps now_mono now (done o) l h = elim (Bool-cases o.timed_out) [
    | inl late ↦ rw late (λ q. cc)
    | inr ok ↦ rw ok (Keeps-if m o.skipped _ _ h h)
  ]

  forecast_block-Keeps :
      (s : Settings) (w : Weather R String) (l : Loop) → Stands m l → Keeps m (forecast_block s w l)
  unfolding forecast_block mark_forecasting
  forecast_block-Keeps s w l h = settle-Keeps "forecast" w.ended _ _ h

  retention_block-Keeps :
      (s : Settings) (w : Weather R String) (l : Loop)
      → Stands m l
      → Keeps m (retention_block s w l)
  unfolding retention_block mark_retention
  retention_block-Keeps s w l h = settle-Keeps "retention" w.ended _ _ h

  parity_block-Keeps :
      (s : Settings) (w : Weather R String) (l : Loop) → Stands m l → Keeps m (parity_block s w l)
  unfolding parity_block
  parity_block-Keeps s w l h = settle_informational-Keeps _ _ h

  data_lake_block-Keeps :
      (s : Settings) (w : Weather R String) (l : Loop)
      → Stands m l
      → Keeps m (data_lake_block s w l)
  unfolding data_lake_block
  data_lake_block-Keeps s w l h =
      Keeps-if m s.data_lake_enabled _ _ (settle-Keeps "data_lake" w.ended _ _ h) h

  score_drift_block-Keeps :
      (s : Settings) (w : Weather R String) (l : Loop)
      → Stands m l
      → Keeps m (score_drift_block s w l)
  unfolding score_drift_block
  score_drift_block-Keeps s w l h =
      Keeps-if m s.score_drift_enabled _ _ (settle_informational-Keeps _ _ h) h

  nightcrawler_block-Keeps :
      (s : Settings) (stop : Bool) (now_mono : ℕ) (w : Weather R String) (l : Loop)
      → Stands m l
      → Keeps m (nightcrawler_block s stop now_mono w l)
  unfolding nightcrawler_block
  nightcrawler_block-Keeps s stop now_mono w l h =
      Keeps-if m (s.nightcrawler_enabled && not stop) _ _
        (Keeps-if m (leb (s.nightcrawler_interval_minutes * 60) (now_mono - l.last_nc_run)) _ _
          (settle_nightcrawler-Keeps now_mono w.ended _ _ h) h)
        h

  run_engine_phases-Keeps :
      (s : Settings) (i : Inputs R) (l : Loop)
      → l.state.scan.error_message ≡ m
      → Keeps m (run_engine_phases s i l)
  unfolding run_engine_phases
  run_engine_phases-Keeps s i l h =
      >>=-Keeps m _ _
        (>>=-Keeps m _ _
          (>>=-Keeps m _ _
            (>>=-Keeps m _ _
              (>>=-Keeps m _ _ (forecast_block-Keeps s i.forecast _ (λ q. h))
                (retention_block-Keeps s i.retention))
              (parity_block-Keeps s i.parity))
            (nightcrawler_block-Keeps s i.stop_is_set i.now_mono i.nightcrawler))
          (data_lake_block-Keeps s i.data_lake))
        (score_drift_block-Keeps s i.score_drift)

-- The start of the next iteration of `main`, with a scan that succeeds, and its end.
abbrev pub next_scan : ℕ → String → ℕ → Loop → Loop
next_scan iteration message now l = record l { state = mark_scanning iteration message now l.state }

-- A message of a failed iteration outlives a later iteration that succeeds: with a new scan, phases
-- that raise no error flag, and `mark_completed`, the state is COMPLETED and still shows the message.
pub mark_completed_keeps_error :
    {R : Type 0} (s : Settings) (i : Inputs R) (l l' : Loop) (iteration now later : ℕ)
    (message old : String)
    → l.state.scan.error_message ≡ some old
    → run_engine_phases s i (next_scan iteration message now l) ≡ go l'
    → l'.phase_error ≡ false
    → ((mark_completed later l'.state).scan.phase ≡ finished)
      × ((mark_completed later l'.state).scan.error_message ≡ some old)
unfolding mark_completed mark_scanning
mark_completed_keeps_error {R} s i l l' iteration now later message old h e q =
    let k = run_engine_phases-Keeps (some old) s i (next_scan iteration message now l) h in
    (refl, (rw e at k) q)

-- After a forecast that failed, a retention phase that completes replaces the phase ERROR by RETENTION,
-- while the error flag stays raised.
pub retention_block_hides_error :
    {R : Type 0} (s : Settings) (f w : Weather R String) (l k : Loop) (o : StageOutcome R)
    → l.phase_error ≡ false
    → forecast_block s f l ≡ go k
    → k.phase_error ≡ true
    → (run_watchdog_phase (config s "retention" "lake") w k.registry).result ≡ done o
    → o.timed_out ≡ false
    → (k.state.scan.phase ≡ error)
      × ((end_of (retention_block s w k)).state.scan.phase ≡ retention)
      × ((end_of (retention_block s w k)).phase_error ≡ true)
unfolding forecast_block retention_block settle mark_forecasting mark_retention
retention_block_hides_error s f w l k o clean e bad r t = ground arith
