-- ===== src/Writes/Tests.antt =====
-- A queue over a list of numbers, and the theorems at concrete inputs.
use hype_coin_predictive_eng.Prelude.{
  ℕ, ◌≡◌, refl, true, false, some, none, List, [], ◌∷◌, ◌++◌, length, map, arith,
}
use hype_coin_predictive_eng.Writes.Queue.{
  committed, aborted, WriteTask, task, sentinel, value, exception, WriteQueue, push_latency, start,
  submit_check, submit_put, stop_flag, stop_put, stop_end, execute, maybe_heartbeat, writer_turn,
  writer_loop,
}
use hype_coin_predictive_eng.Writes.Drain.{
  serial_answers, serial_content, IsDrained, writer_loop_drains,
}
use hype_coin_predictive_eng.Writes.Windows.{IsBounded}
use hype_coin_predictive_eng.Writes.Lost.{stop_loses_checked}

program : Unit {0}
unfolding push_latency start submit_check submit_put stop_flag stop_put stop_end execute
    maybe_heartbeat writer_turn writer_loop serial_answers serial_content
program = tt

abbrev idle : WriteQueue (List ℕ) ℕ
idle = record {
  running = false;
  stopping = false;
  thread_alive = false;
  items = [];
  checked = [];
  database = [];
  answers = [];
  writes_total = 0;
  writes_failed = 0;
  writes_since_heartbeat = 0;
  last_heartbeat_at = 0;
  heartbeats = 0;
  exec_latencies = [];
  wait_latencies = [];
}

abbrev insert_row : ℕ → WriteTask (List ℕ) ℕ
insert_row n = record {
  number = n;
  fn = λ rows. committed (n ∷ rows) (length rows);
  submitted_at = 1;
  started_at = 2;
  done_at = 5;
}

abbrev failing : WriteTask (List ℕ) ℕ
failing = record (insert_row 2) { fn = λ rows. aborted "constraint" }

abbrev tasks : List (WriteTask (List ℕ) ℕ)
tasks = insert_row 1 ∷ failing ∷ insert_row 3 ∷ []

abbrev times : List ℕ
times = 10 ∷ 20 ∷ 30 ∷ 40 ∷ 50 ∷ []

abbrev filled : WriteQueue (List ℕ) ℕ
filled = record (start 0 idle) { items = map task tasks }

abbrev closing : WriteQueue (List ℕ) ℕ
closing = stop_put (stop_flag filled)

idle_test : submit_check failing idle ≡ none
unfolding program
idle_test = refl

closing_test :
    let q = writer_loop 60 1000 times closing in
    (q.database ≡ 3 ∷ 1 ∷ [])
    × (q.writes_total ≡ 2)
    × (q.writes_failed ≡ 1)
    × (q.answers ≡ (1, value 0) ∷ (2, exception "constraint") ∷ (3, value 1) ∷ [])
unfolding program
closing_test = (refl, refl, refl, refl)

closing_facts : (closing.thread_alive ≡ true) × (closing.items ≡ map task tasks ++ (sentinel ∷ []))
unfolding program
closing_facts = (refl, refl)

filled_facts :
    (filled.running ≡ true)
    × (filled.stopping ≡ false)
    × (filled.thread_alive ≡ true)
    × (filled.items ≡ map task tasks)
unfolding program
filled_facts = (refl, refl, refl, refl)

writer_loop_drains_example : IsDrained tasks [] closing (writer_loop 60 1000 times closing)
writer_loop_drains_example =
    writer_loop_drains 60 1000 tasks [] times closing closing_facts.0 closing_facts.1 (omega arith)

stop_loses_checked_example :
    (q1 : WriteQueue (List ℕ) ℕ) × (submit_check (insert_row 4) filled ≡ some q1)
    × let q' = writer_loop 60 1000 times (submit_put (insert_row 4) (stop_put (stop_flag q1))) in
      (q'.thread_alive ≡ false)
      × (q'.items ≡ task (insert_row 4) ∷ [])
      × (q'.answers ≡ filled.answers ++ serial_answers tasks filled.database)
      × ((stop_end q').0 ≡ true)
stop_loses_checked_example =
    stop_loses_checked 60 1000 tasks (insert_row 4) times filled (filled_facts.0) (filled_facts.1)
      (filled_facts.2) (filled_facts.3) (omega arith)

filled-IsBounded : IsBounded 1000 filled
unfolding program
filled-IsBounded = record { exec = omega arith; wait = omega arith; since = omega arith }
