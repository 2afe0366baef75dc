-- ===== src/Watchdog/Abandoned.antt =====
-- `_abandoned` and the threads: what `abandoned_stages` tells an operator.
use hype_coin_predictive_eng.Prelude.{
  ℕ, String, ◌≡◌, ◌≢◌, refl, inl, inr, true, false, none, some, List, [], ◌∷◌, arith, if◌then◌else◌,
  str_eq, str_eq→≡, str_ne, lookup, insert, erase, eq_iff, lookup-insert, lookup-insert_self,
  lookup-insert_ne, lookup-erase, lookup-erase_self, lookup-erase_ne, Bool-cases, Option-cases,
}
use hype_coin_predictive_eng.Watchdog.Registry.{
  Registry, is_alive, remove_thread, in_flight_alive, reset_phase_skip, reset_phase_skip_tracking,
  abandoned_stages,
}
use hype_coin_predictive_eng.Watchdog.Stage.{
  Progress, returned, raised, hung, slipped, start_thread, thread_exit, mark_abandoned, join_stage,
  run_stage_with_timeout, timeout,
}
use hype_coin_predictive_eng.Watchdog.Reach.{
  Step, run, exit, note, reset, reset_all, Reach, here, next, is_prompt, note_threads,
}

-- Every stage that is listed as abandoned has its registered thread running.
abbrev Explained : Registry → Type 0
Explained r =
    (s : String) (since : ℕ) → lookup s r.abandoned ≡ some since → in_flight_alive s r ≡ true

is_alive-remove_thread :
    (s stage : String) (u t : ℕ) (l : List (String × ℕ))
    → stage ≢ s
    → is_alive s u (remove_thread stage t l) ≡ is_alive s u l
unfolding is_alive remove_thread
is_alive-remove_thread s stage u t [] ne = refl
is_alive-remove_thread s stage u t ((s', v) ∷ l) ne =
    ground (arith, eq_iff s' s, eq_iff s' stage, is_alive-remove_thread s stage u t l ne)

-- A thread that ends changes nothing for the other stages.
in_flight_alive-thread_exit :
    (s stage : String) (t : ℕ) (r : Registry)
    → stage ≢ s
    → in_flight_alive s (thread_exit stage t r) ≡ in_flight_alive s r
unfolding in_flight_alive thread_exit
in_flight_alive-thread_exit s stage t r ne = elim (Option-cases (lookup s r.in_flight)) [
  | inl e ↦ ground (arith, lookup-erase_ne stage s r.in_flight ne)
  | inr (u, e) ↦
      ground (
        arith,
        lookup-erase_ne stage s r.in_flight ne,
        is_alive-remove_thread s stage u t r.alive ne,
      )
]

in_flight_alive-start_thread :
    (s stage : String) (r : Registry)
    → stage ≢ s
    → in_flight_alive s (start_thread stage r) ≡ in_flight_alive s r
unfolding in_flight_alive start_thread is_alive
in_flight_alive-start_thread s stage r ne =
    ground (arith, str_ne stage s ne, lookup-insert_ne stage s r.next_thread r.in_flight ne)

-- The same for all stages but one.
abbrev ExplainedBut : String → Registry → Type 0
ExplainedBut stage r =
    (s : String) (since : ℕ)
    → stage ≢ s
    → lookup s r.abandoned ≡ some since
    → in_flight_alive s r ≡ true

abandoned-thread_exit :
    (s stage : String) (t : ℕ) (r : Registry)
    → lookup s (thread_exit stage t r).abandoned
      ≡ (if str_eq stage s then none else lookup s r.abandoned)
unfolding thread_exit
abandoned-thread_exit s stage t r = lookup-erase stage s r.abandoned

abandoned-start_thread :
    (stage : String) (r : Registry) → (start_thread stage r).abandoned ≡ r.abandoned
unfolding start_thread
abandoned-start_thread stage r = refl

thread_exit-Explained :
    (stage : String) (t : ℕ) (r : Registry)
    → ExplainedBut stage r
    → Explained (thread_exit stage t r)
thread_exit-Explained stage t r h s since e = elim (Bool-cases (str_eq stage s)) [
  | inl same ↦ ground (arith, abandoned-thread_exit s stage t r)
  | inr other ↦
      let ne : stage ≢ s = (λ q. ground (arith, eq_iff stage s)) in
      rw (in_flight_alive-thread_exit s stage t r ne)
        (h s since ne (ground (arith, abandoned-thread_exit s stage t r)))
]

start_thread-ExplainedBut :
    (stage : String) (r : Registry) → Explained r → ExplainedBut stage (start_thread stage r)
start_thread-ExplainedBut stage r h s since ne e =
    rw (in_flight_alive-start_thread s stage r ne)
      (h s since (ground (arith, abandoned-start_thread stage r)))

pub in_flight_alive-start_thread_self :
    (stage : String) (r : Registry) → in_flight_alive stage (start_thread stage r) ≡ true
unfolding in_flight_alive start_thread is_alive
in_flight_alive-start_thread_self stage r =
    ground (arith, lookup-insert_self stage r.next_thread r.in_flight, eq_iff stage stage)

mark_abandoned-Explained :
    (stage : String) (now : ℕ) (r : Registry)
    → ExplainedBut stage r
    → in_flight_alive stage r ≡ true
    → Explained (mark_abandoned stage now r)
unfolding mark_abandoned in_flight_alive
mark_abandoned-Explained stage now r h a s since e = elim (Bool-cases (str_eq stage s)) [
  | inl same ↦ rw (← str_eq→≡ stage s same) a
  | inr other ↦
      h s since (λ q. ground (arith, eq_iff stage s))
        (ground (arith, lookup-insert stage s now r.abandoned))
]

-- The answer depends on the two fields that it reads.
pub in_flight_alive_of_eq :
    (s : String) (r r' : Registry)
    → r'.in_flight ≡ r.in_flight
    → r'.alive ≡ r.alive
    → in_flight_alive s r' ≡ in_flight_alive s r
unfolding in_flight_alive
in_flight_alive_of_eq s r r' f a = rw (f, a)

same_threads :
    (r r' : Registry)
    → (r'.in_flight ≡ r.in_flight) × (r'.alive ≡ r.alive) × (r'.abandoned ≡ r.abandoned)
    → Explained r
    → Explained r'
same_threads r r' (f, a, b) h s since e =
    rw (in_flight_alive_of_eq s r r' f a) (h s since (rw (← b) e))

module _ {R E : Type 0} where
  join_stage-Explained :
      (stage : String) (now t : ℕ) (p : Progress R E) (r : Registry)
      → is_prompt p ≡ true
      → in_flight_alive stage r ≡ true
      → ExplainedBut stage r
      → Explained (join_stage stage now t p r).0
  unfolding join_stage
  join_stage-Explained stage now t (returned x) r q a h = thread_exit-Explained stage t r h
  join_stage-Explained stage now t (raised e) r q a h = thread_exit-Explained stage t r h
  join_stage-Explained stage now t hung r q a h = mark_abandoned-Explained stage now r h a
  join_stage-Explained stage now t slipped r q a h = cc

  run_stage-Explained :
      (stage : String) (now : ℕ) (p : Progress R E) (r : Registry)
      → is_prompt p ≡ true
      → Explained r
      → Explained (run_stage_with_timeout stage now p r).0
  unfolding run_stage_with_timeout
  run_stage-Explained stage now p r q h = elim (Bool-cases (in_flight_alive stage r)) [
    | inl busy ↦ rw busy h
    | inr idle ↦ rw idle (
        join_stage-Explained stage now r.next_thread p (start_thread stage r) q
          (in_flight_alive-start_thread_self stage r) (start_thread-ExplainedBut stage r h))
  ]

  Step-Explained : {r r' : Registry} → Step R E true r r' → Explained r → Explained r'
  unfolding reset_phase_skip reset_phase_skip_tracking
  Step-Explained {r = r} (run stage now p q) h = run_stage-Explained stage now p r q h
  Step-Explained {r = r} (exit stage t _) h =
      thread_exit-Explained stage t r (λ s since ne e. h s since e)
  Step-Explained {r = r} (note stage threshold a d now) h =
      same_threads r _ (note_threads stage threshold a d now r) h
  Step-Explained {r = r} (reset stage) h = same_threads r _ (refl, refl, refl) h
  Step-Explained {r = r} reset_all h = same_threads r _ (refl, refl, refl) h

  Reach-Explained : {r : Registry} → Reach R E true r → Explained r
  unfolding lookup
  Reach-Explained here s since e = cc
  Reach-Explained (next h s) since t e = Step-Explained s (Reach-Explained h) since t e

  -- In a history in which no thread exits between the two reads of the deadline path, a stage is
  -- listed by `abandoned_stages` only while its thread is running.
  pub abandoned_stages_running :
      {r : Registry} (stage : String) (since : ℕ)
      → Reach R E true r
      → lookup stage (abandoned_stages r) ≡ some since
      → in_flight_alive stage r ≡ true
  unfolding abandoned_stages
  abandoned_stages_running stage since h e = Reach-Explained h stage since e

  -- A thread that exits between the read of `holder["done"]` and the write to `_abandoned` leaves its
  -- stage listed as abandoned although the stage has no registered thread any more.
  pub abandoned_stages_slipped :
      (stage : String) (now : ℕ) (r : Registry)
      → in_flight_alive stage r ≡ false
      → let (r', ran) = run_stage_with_timeout {R = R} {E = E} stage now slipped r in
        (ran ≡ timeout)
        × (lookup stage (abandoned_stages r') ≡ some now)
        × (lookup stage r'.in_flight ≡ none)
  unfolding run_stage_with_timeout join_stage start_thread thread_exit mark_abandoned
      abandoned_stages
  abandoned_stages_slipped stage now r idle = ground (
    arith,
    lookup-insert_self stage now (erase stage r.abandoned),
    lookup-insert_self stage r.next_thread r.in_flight,
    lookup-erase_self stage (insert stage r.next_thread r.in_flight),
  )
