-- ===== src/Watchdog/Reach.antt =====
-- The states that the watchdog's registries can reach, whatever the scheduler does.
use hype_coin_predictive_eng.Prelude.{
  ℕ, String, ◌≡◌, refl, inl, inr, Bool, true, false, ◌||◌, not, arith, Bool-cases,
}
use hype_coin_predictive_eng.Watchdog.Registry.{
  Registry, start, is_alive, in_flight_alive, note_phase_skip, reset_phase_skip,
  reset_phase_skip_tracking,
}
use hype_coin_predictive_eng.Watchdog.Stage.{
  Progress, returned, raised, hung, slipped, thread_exit, mark_abandoned, join_stage,
  run_stage_with_timeout,
}
use hype_coin_predictive_eng.Watchdog.Threads.{
  running, IsSound, start_thread-IsSound, thread_exit-IsSound,
}

abbrev pub is_prompt : {R E : Type 0} → Progress R E → Bool
is_prompt slipped = false
is_prompt _ = true

-- One call of the module, or the end of a thread that outlived its deadline. A strict history has
-- no thread that exits between the two reads of the deadline path.
pub data Step (R E : Type 0) (strict : Bool) (r : Registry) : Registry → Type 0 where
  run :
      (stage : String) (now : ℕ) (p : Progress R E)
      → (not strict || is_prompt p) ≡ true
      → Step R E strict r (run_stage_with_timeout stage now p r).0
  exit :
      (stage : String) (t : ℕ)
      → is_alive stage t r.alive ≡ true
      → Step R E strict r (thread_exit stage t r)
  note :
      (stage : String) (threshold max_alerts max_duration now : ℕ)
      → Step R E strict r (note_phase_skip stage threshold max_alerts max_duration now r).0
  reset : (stage : String) → Step R E strict r (reset_phase_skip stage r)
  reset_all : Step R E strict r (reset_phase_skip_tracking r)

pub data Reach (R E : Type 0) (strict : Bool) : Registry → Type 0 where
  here : Reach R E strict start
  next : {r r' : Registry} → Reach R E strict r → Step R E strict r r' → Reach R E strict r'

pub note_threads :
    (stage : String) (threshold max_alerts max_duration now : ℕ) (r : Registry)
    → let r' = (note_phase_skip stage threshold max_alerts max_duration now r).0 in
      (r'.in_flight ≡ r.in_flight) × (r'.alive ≡ r.alive) × (r'.abandoned ≡ r.abandoned)
unfolding note_phase_skip
note_threads stage threshold max_alerts max_duration now r = ground arith

same_threads :
    (r r' : Registry)
    → (r'.in_flight ≡ r.in_flight) × (r'.alive ≡ r.alive) × (r'.abandoned ≡ r.abandoned)
    → IsSound r
    → IsSound r'
same_threads r r' (f, a, b) h = record {
  tracked = rw (f, a) h.tracked;
  single = λ s. rw a (h.single s);
}

mark_abandoned-IsSound :
    (stage : String) (now : ℕ) (r : Registry) → IsSound r → IsSound (mark_abandoned stage now r)
unfolding mark_abandoned
mark_abandoned-IsSound stage now r h = record { tracked = h.tracked; single = h.single }

module _ {R E : Type 0} where
  join_stage-IsSound :
      (stage : String) (now t : ℕ) (p : Progress R E) (r : Registry)
      → IsSound r
      → IsSound (join_stage stage now t p r).0
  unfolding join_stage
  join_stage-IsSound stage now t (returned x) r h = thread_exit-IsSound stage t r h
  join_stage-IsSound stage now t (raised e) r h = thread_exit-IsSound stage t r h
  join_stage-IsSound stage now t hung r h = mark_abandoned-IsSound stage now r h
  join_stage-IsSound stage now t slipped r h =
      mark_abandoned-IsSound stage now _ (thread_exit-IsSound stage t r h)

  run_stage-IsSound :
      (stage : String) (now : ℕ) (p : Progress R E) (r : Registry)
      → IsSound r
      → IsSound (run_stage_with_timeout stage now p r).0
  unfolding run_stage_with_timeout
  run_stage-IsSound stage now p r h = elim (Bool-cases (in_flight_alive stage r)) [
    | inl busy ↦ rw busy h
    | inr idle ↦
        rw idle
          (join_stage-IsSound stage now r.next_thread p _ (start_thread-IsSound stage r idle h))
  ]

  Step-IsSound : {strict : Bool} {r r' : Registry} → Step R E strict r r' → IsSound r → IsSound r'
  unfolding reset_phase_skip reset_phase_skip_tracking
  Step-IsSound {r = r} (run stage now p _) h = run_stage-IsSound stage now p r h
  Step-IsSound {r = r} (exit stage t _) h = thread_exit-IsSound stage t r h
  Step-IsSound {r = r} (note stage threshold a d now) h =
      same_threads r _ (note_threads stage threshold a d now r) h
  Step-IsSound {r = r} (reset stage) h = same_threads r _ (refl, refl, refl) h
  Step-IsSound {r = r} reset_all h = same_threads r _ (refl, refl, refl) h

  pub Reach-IsSound : {strict : Bool} {r : Registry} → Reach R E strict r → IsSound r
  unfolding running
  Reach-IsSound here = record { tracked = tt; single = λ s. omega arith }
  Reach-IsSound (next h s) = Step-IsSound s (Reach-IsSound h)
