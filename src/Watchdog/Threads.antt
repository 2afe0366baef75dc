-- ===== src/Watchdog/Threads.antt =====
-- The threads of the stages: at most one runs for each stage, whatever the scheduler does, and a
-- stage is listed as abandoned only while its thread runs, unless the thread exits in the gap
-- between the two reads of the deadline path.
use hype_coin_predictive_eng.Prelude.{
  ℕ, suc, ◌≤◌, String, ◌≡◌, refl, inl, inr, false, none, some, List, [], ◌∷◌, arith, if◌then◌else◌,
  str_eq, lookup, insert, eq_iff, All, lookup-insert_self, lookup-insert_ne, lookup-erase,
  Option-cases,
}
use hype_coin_predictive_eng.Watchdog.Registry.{
  Registry, is_alive, remove_thread, clear_in_flight, in_flight_alive,
}
use hype_coin_predictive_eng.Watchdog.Stage.{start_thread, thread_exit}

-- How many threads of a stage are running.
unfoldable pub running : String → List (String × ℕ) → ℕ
running stage [] = 0
running stage ((s, t) ∷ l) = let n = running stage l in if str_eq s stage then suc n else n

-- Every running thread is the one that its stage has registered.
abbrev Tracked : Registry → List (String × ℕ) → Type 0
Tracked r l = All (λ e. lookup e.0 r.in_flight ≡ some e.1) l

pub record IsSound (r : Registry) : Type 0 where
  pub tracked : All (λ e. lookup e.0 r.in_flight ≡ some e.1) r.alive
  pub single : (s : String) → running s r.alive ≤ 1

running_none :
    (stage : String) (r : Registry) (l : List (String × ℕ))
    → Tracked r l
    → lookup stage r.in_flight ≡ none
    → running stage l ≡ 0
unfolding running
running_none stage r [] h e = refl
running_none stage r ((s, t) ∷ l) h e = ground (arith, eq_iff s stage, running_none stage r l h.1 e)

running_dead :
    (stage : String) (u : ℕ) (r : Registry) (l : List (String × ℕ))
    → Tracked r l
    → lookup stage r.in_flight ≡ some u
    → is_alive stage u l ≡ false
    → running stage l ≡ 0
unfolding running is_alive
running_dead stage u r [] h e d = refl
running_dead stage u r ((s, t) ∷ l) h e d =
    ground (arith, eq_iff s stage, running_dead stage u r l h.1 e)

-- A stage whose registered thread is not running has no running thread at all.
running-in_flight_alive :
    (stage : String) (r : Registry)
    → IsSound r
    → in_flight_alive stage r ≡ false
    → running stage r.alive ≡ 0
unfolding in_flight_alive
running-in_flight_alive stage r h d = elim (Option-cases (lookup stage r.in_flight)) [
  | inl e ↦ running_none stage r r.alive h.tracked e
  | inr (u, e) ↦ running_dead stage u r r.alive h.tracked e (ground arith)
]

Tracked-insert :
    (stage : String) (t : ℕ) (r r' : Registry) (l : List (String × ℕ))
    → r'.in_flight ≡ insert stage t r.in_flight
    → running stage l ≡ 0
    → Tracked r l
    → Tracked r' l
unfolding running
Tracked-insert stage t r r' [] q z h = tt
Tracked-insert stage t r r' ((s, u) ∷ l) q z h = ground (
  arith,
  eq_iff s stage,
  lookup-insert_ne stage s t r.in_flight,
  Tracked-insert stage t r r' l q (ground arith) h.1,
)

pub start_thread-IsSound :
    (stage : String) (r : Registry)
    → in_flight_alive stage r ≡ false
    → IsSound r
    → IsSound (start_thread stage r)
unfolding start_thread running
start_thread-IsSound stage r d h =
    let z = running-in_flight_alive stage r h d in
    record {
      tracked = (
        lookup-insert_self stage r.next_thread r.in_flight,
        Tracked-insert stage r.next_thread r (start_thread stage r) r.alive refl z h.tracked,
      );
      single = λ s. ground (arith, eq_iff stage s, h.single s);
    }

running-remove_thread :
    (s stage : String) (t : ℕ) (l : List (String × ℕ))
    → running s (remove_thread stage t l) ≤ running s l
unfolding running remove_thread
running-remove_thread s stage t [] = omega arith
running-remove_thread s stage t ((s', u) ∷ l) = ground (arith, running-remove_thread s stage t l)

-- A registered thread may exit: its entry goes, and no other stage's does.
Tracked-remove_thread :
    (stage : String) (t : ℕ) (r : Registry) (l : List (String × ℕ))
    → Tracked r l
    → Tracked (clear_in_flight stage t r) (remove_thread stage t l)
unfolding remove_thread clear_in_flight
Tracked-remove_thread stage t r [] h = tt
Tracked-remove_thread stage t r ((s, u) ∷ l) h = ground (
  arith,
  eq_iff s stage,
  lookup-erase stage s r.in_flight,
  eq_iff stage s,
  Tracked-remove_thread stage t r l h.1,
)

pub thread_exit-IsSound :
    (stage : String) (t : ℕ) (r : Registry) → IsSound r → IsSound (thread_exit stage t r)
unfolding thread_exit
thread_exit-IsSound stage t r h = record {
  tracked = Tracked-remove_thread stage t r r.alive h.tracked;
  single = λ s. omega (arith, running-remove_thread s stage t r.alive, h.single s);
}
