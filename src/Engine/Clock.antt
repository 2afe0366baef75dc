-- ===== src/Engine/Clock.antt =====
-- When the night crawler's clock moves.
use hype_coin_predictive_eng.Prelude.{
  ℕ, ◌*◌, ◌-◌, ◌≤◌, String, ◌≡◌, refl, ◌⊎◌, inl, inr, true, false, arith, ◌&&◌, not, leb, leb→le,
  Bool-cases,
}
use hype_coin_predictive_eng.Watchdog.Registry.{Registry}
use hype_coin_predictive_eng.Watchdog.Stage.{
  Progress, returned, raised, hung, slipped, join_stage, run_stage_with_timeout, start_thread,
}
use hype_coin_predictive_eng.Engine.Phase.{
  Config, Weather, PhaseResult, shut_down, done, failed, run_watchdog_phase, after_stage,
}
use hype_coin_predictive_eng.Engine.Phases.{
  Settings, Inputs, Loop, Flow, go, leave, ◌>>=◌, end_of, config, absorb, settle,
  settle_informational, forecast_block, retention_block, parity_block, settle_nightcrawler,
  nightcrawler_block, data_lake_block, score_drift_block, run_engine_phases,
}

-- The stage returned in time.
abbrev pub Returned : {R E : Type 0} → Progress R E → Type 0
Returned {R} (returned x) = Unit
Returned _ = ⊥

module _ {R : Type 0} where
  -- The outcome is a completed run.
  abbrev IsCompleted : PhaseResult R String → Type 0
  IsCompleted (done o) = (o.timed_out ≡ false) × (o.skipped ≡ false)
  IsCompleted _ = ⊥

  after_stage_completed :
      (c : Config) (now t : ℕ) (p : Progress R String) (stage : String) (r : Registry)
      → IsCompleted (after_stage c now (join_stage stage now t p r)).result
      → Returned p
  unfolding after_stage join_stage
  after_stage_completed c now t (returned x) stage r h = tt
  after_stage_completed c now t (raised e) stage r h = h
  after_stage_completed c now t hung stage r h = cc
  after_stage_completed c now t slipped stage r h = cc

  run_watchdog_phase_completed :
      (c : Config) (w : Weather R String) (r : Registry)
      → IsCompleted (run_watchdog_phase c w r).result
      → Returned w.progress
  unfolding run_watchdog_phase run_stage_with_timeout
  run_watchdog_phase_completed c w r h = ground (
    arith,
    after_stage_completed c w.now r.next_thread w.progress c.stage (start_thread c.stage r),
  )

abbrev nc_of : Flow → ℕ
nc_of x = (end_of x).last_nc_run

>>=-nc_of :
    (x : Flow) (f : Loop → Flow)
    → ((l : Loop) → nc_of (f l) ≡ l.last_nc_run)
    → nc_of (x >>= f) ≡ nc_of x
>>=-nc_of (go l) f h = h l
>>=-nc_of (leave l) f h = refl

module _ {R : Type 0} where
  settle-nc_of :
      (label : String) (now : ℕ) (p : PhaseResult R String) (l : Loop)
      → nc_of (settle label now p l) ≡ l.last_nc_run
  unfolding settle
  settle-nc_of label now shut_down l = refl
  settle-nc_of label now (failed e) l = refl
  settle-nc_of label now (done o) l = ground arith

  settle_informational-nc_of :
      (p : PhaseResult R String) (l : Loop) → nc_of (settle_informational p l) ≡ l.last_nc_run
  unfolding settle_informational
  settle_informational-nc_of shut_down l = refl
  settle_informational-nc_of (failed e) l = refl
  settle_informational-nc_of (done o) l = refl

  data_lake_block-nc_of :
      (s : Settings) (w : Weather R String) (l : Loop)
      → nc_of (data_lake_block s w l) ≡ l.last_nc_run
  unfolding data_lake_block
  data_lake_block-nc_of s w l = elim (Bool-cases s.data_lake_enabled) [
    | inl on ↦ rw on (settle-nc_of "data_lake" w.ended _ _)
    | inr off ↦ rw off
  ]

  score_drift_block-nc_of :
      (s : Settings) (w : Weather R String) (l : Loop)
      → nc_of (score_drift_block s w l) ≡ l.last_nc_run
  unfolding score_drift_block
  score_drift_block-nc_of s w l = elim (Bool-cases s.score_drift_enabled) [
    | inl on ↦ rw on (settle_informational-nc_of _ _)
    | inr off ↦ rw off
  ]

  forecast_block-nc_of :
      (s : Settings) (w : Weather R String) (l : Loop)
      → nc_of (forecast_block s w l) ≡ l.last_nc_run
  unfolding forecast_block
  forecast_block-nc_of s w l = settle-nc_of "forecast" w.ended _ _

  retention_block-nc_of :
      (s : Settings) (w : Weather R String) (l : Loop)
      → nc_of (retention_block s w l) ≡ l.last_nc_run
  unfolding retention_block
  retention_block-nc_of s w l = settle-nc_of "retention" w.ended _ _

  parity_block-nc_of :
      (s : Settings) (w : Weather R String) (l : Loop) → nc_of (parity_block s w l) ≡ l.last_nc_run
  unfolding parity_block
  parity_block-nc_of s w l = settle_informational-nc_of _ _

  -- Before the night crawler's block the clock stands.
  first_blocks : Settings → Inputs R → Loop → Flow
  first_blocks s i l =
      forecast_block s i.forecast l >>= retention_block s i.retention >>= parity_block s i.parity

  first_blocks-nc_of :
      (s : Settings) (i : Inputs R) (l : Loop) → nc_of (first_blocks s i l) ≡ l.last_nc_run
  unfolding first_blocks
  first_blocks-nc_of s i l =
      rw
        (
          >>=-nc_of _ _ (parity_block-nc_of s i.parity),
          >>=-nc_of _ _ (retention_block-nc_of s i.retention),
        )
        (forecast_block-nc_of s i.forecast l)

  -- The night crawler was due, and its pass returned in time.
  pub record Crawled (s : Settings) (i : Inputs R) (last : ℕ) : Type 0 where
    pub enabled : s.nightcrawler_enabled ≡ true
    pub still_up : i.stop_is_set ≡ false
    pub due : s.nightcrawler_interval_minutes * 60 ≤ i.now_mono - last
    pub in_time : Returned i.nightcrawler.progress

  settle_nightcrawler-nc_of :
      (now_mono now : ℕ) (p : PhaseResult R String) (l : Loop)
      → (nc_of (settle_nightcrawler now_mono now p l) ≡ l.last_nc_run)
        ⊎ ((nc_of (settle_nightcrawler now_mono now p l) ≡ now_mono) × IsCompleted p)
  unfolding settle_nightcrawler
  settle_nightcrawler-nc_of now_mono now shut_down l = inl refl
  settle_nightcrawler-nc_of now_mono now (failed e) l = inl refl
  settle_nightcrawler-nc_of now_mono now (done o) l = ground arith

  nightcrawler_block-nc_of :
      (s : Settings) (i : Inputs R) (l : Loop)
      → let v = nc_of (nightcrawler_block s i.stop_is_set i.now_mono i.nightcrawler l) in
        (v ≡ l.last_nc_run) ⊎ ((v ≡ i.now_mono) × Crawled s i l.last_nc_run)
  unfolding nightcrawler_block
  nightcrawler_block-nc_of s i l =
      let c = config s "nightcrawler" "nightcrawler" in
      let p = run_watchdog_phase c i.nightcrawler l.registry in
      let due = leb (s.nightcrawler_interval_minutes * 60) (i.now_mono - l.last_nc_run) in
      elim (Bool-cases (s.nightcrawler_enabled && not i.stop_is_set)) [
        | inr off ↦ rw off (inl refl)
        | inl on ↦ elim (Bool-cases due) [
          | inr early ↦ rw (on, early) (inl refl)
          | inl late ↦
              rw (on, late)
                (elim (settle_nightcrawler-nc_of i.now_mono i.nightcrawler.ended p.result
                  (absorb p l)) [
                    | inl same ↦ inl same
                    | inr (moved, full) ↦ inr (
                      moved,
                      record {
                        enabled = ground arith;
                        still_up = ground arith;
                        due = leb→le _ _ late;
                        in_time = run_watchdog_phase_completed c i.nightcrawler l.registry full;
                      },
                    )
                  ])
        ]
      ]

  nightcrawler_after :
      (s : Settings) (i : Inputs R) (x : Flow) (base : ℕ)
      → nc_of x ≡ base
      → let v = nc_of (x >>= nightcrawler_block s i.stop_is_set i.now_mono i.nightcrawler) in
        (v ≡ base) ⊎ ((v ≡ i.now_mono) × Crawled s i base)
  nightcrawler_after s i (go l) base e = rw (← e) (nightcrawler_block-nc_of s i l)
  nightcrawler_after s i (leave l) base e = inl e

  -- The night crawler's clock is left alone, or it is set to the time of this pass; that happens only
  -- if the crawler is enabled, its interval has passed, and its stage returned before its deadline.
  pub run_engine_phases_clock :
      (s : Settings) (i : Inputs R) (l : Loop)
      → let v = (end_of (run_engine_phases s i l)).last_nc_run in
        (v ≡ l.last_nc_run) ⊎ ((v ≡ i.now_mono) × Crawled s i l.last_nc_run)
  unfolding run_engine_phases first_blocks
  run_engine_phases_clock s i l =
      let k = record l { phase_error = false } in
      rw
        (
          >>=-nc_of _ _ (score_drift_block-nc_of s i.score_drift),
          >>=-nc_of _ _ (data_lake_block-nc_of s i.data_lake),
        )
        (nightcrawler_after s i (first_blocks s i k) l.last_nc_run (first_blocks-nc_of s i k))
