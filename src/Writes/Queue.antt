-- ===== src/Writes/Queue.antt =====
-- The state of `WriteQueue` and its steps. `S` is the database's committed content and `V` what a write
-- returns. A caller's `submit` is two steps, the check under the lock and the put after it; so is
-- `stop`, the flag under the lock and the sentinel after it. A task is known by its number, which
-- stands for its future.
use hype_coin_predictive_eng.Prelude.{
  ℕ, ◌+◌, ◌-◌, String, Bool, true, false, not, ◌&&◌, ◌||◌, Option, none, some, List, [], ◌∷◌, ◌++◌,
  leb, ◌==◌, if◌then◌else◌, length, drop, filter,
}

-- What a call of `fn` and the commit after it come to: the content written and the value, or an
-- exception of either, which rolls back.
pub data Written (S V : Type 0) : Type 0 where
  committed : S → V → Written S V
  aborted : String → Written S V

pub record WriteTask (S V : Type 0) : Type 0 where
  pub number : ℕ
  pub fn : S → Written S V
  pub submitted_at : ℕ
  -- the monotonic times at which the writer takes it and finishes it
  pub started_at : ℕ
  pub done_at : ℕ

pub data Item (S V : Type 0) : Type 0 where
  task : WriteTask S V → Item S V
  sentinel : Item S V

-- A future's result.
pub data Answer (V : Type 0) : Type 0 where
  value : V → Answer V
  exception : String → Answer V

pub record WriteQueue (S V : Type 0) : Type 0 where
  pub running : Bool
  pub stopping : Bool
  pub thread_alive : Bool
  pub items : List (Item S V)
  -- calls of `submit` between the check and the put
  pub checked : List (WriteTask S V)
  pub database : S
  -- the futures that are done, in order
  pub answers : List (ℕ × Answer V)
  pub writes_total : ℕ
  pub writes_failed : ℕ
  pub writes_since_heartbeat : ℕ
  pub last_heartbeat_at : ℕ
  pub heartbeats : ℕ
  pub exec_latencies : List ℕ
  pub wait_latencies : List ℕ

-- `deque(maxlen=2048)`
unfoldable pub push_latency : ℕ → List ℕ → List ℕ
push_latency x l = let l' = l ++ (x ∷ []) in drop (length l' - 2048) l'

module _ {S V : Type 0} where
  -- `start`, with the thread that it starts; idempotent.
  unfoldable pub start : ℕ → WriteQueue S V → WriteQueue S V
  start now q = if q.running then q else record q {
    running = true;
    stopping = false;
    thread_alive = true;
    last_heartbeat_at = now;
  }

  -- The check of `submit` on another thread: `none` is WriteQueueNotRunning.
  unfoldable pub submit_check : WriteTask S V → WriteQueue S V → Option (WriteQueue S V)
  submit_check t q =
      if (q.running && not q.stopping) && q.thread_alive
      then some (record q { checked = q.checked ++ (t ∷ []) })
      else none

  abbrev other : ℕ → WriteTask S V → Bool
  other n t = not (t.number == n)

  -- The put of `submit`.
  unfoldable pub submit_put : WriteTask S V → WriteQueue S V → WriteQueue S V
  submit_put t q = record q {
    checked = filter (other t.number) q.checked;
    items = q.items ++ (task t ∷ []);
  }

  -- The flag of `stop`; nothing else follows if the queue does not run.
  unfoldable pub stop_flag : WriteQueue S V → WriteQueue S V
  stop_flag q = if q.running then record q { stopping = true } else q

  -- The sentinel of `stop`.
  unfoldable pub stop_put : WriteQueue S V → WriteQueue S V
  stop_put q = record q { items = q.items ++ (sentinel ∷ []) }

  -- The end of `stop`, after the join: the thread is forgotten, and the answer is whether it is dead.
  unfoldable pub stop_end : WriteQueue S V → Bool × WriteQueue S V
  stop_end q = (not q.thread_alive, record q { running = false })

  -- `_execute`: a write that raised counts as failed and leaves the content as it was.
  unfoldable pub execute : WriteTask S V → WriteQueue S V → WriteQueue S V
  unfolding push_latency
  execute t q = elim (t.fn q.database) [
    | committed s v ↦ record q {
      database = s;
      writes_total = q.writes_total + 1;
      writes_since_heartbeat = q.writes_since_heartbeat + 1;
      exec_latencies = push_latency (t.done_at - t.started_at) q.exec_latencies;
      wait_latencies = push_latency (t.started_at - t.submitted_at) q.wait_latencies;
      answers = q.answers ++ ((t.number, value v) ∷ []);
    }
    | aborted e ↦ record q {
      writes_failed = q.writes_failed + 1;
      answers = q.answers ++ ((t.number, exception e) ∷ []);
    }
  ]

  -- `_maybe_heartbeat`, at the time `now`; the row is counted.
  unfoldable pub maybe_heartbeat : ℕ → ℕ → ℕ → Bool → WriteQueue S V → WriteQueue S V
  maybe_heartbeat interval every now force q =
      if force || (leb interval (now - q.last_heartbeat_at) || leb every q.writes_since_heartbeat)
      then record q {
        last_heartbeat_at = now;
        writes_since_heartbeat = 0;
        heartbeats = q.heartbeats + 1;
      }
      else q

  -- One turn of `_writer_loop`, while its thread lives: an empty queue is a poll that timed out, and the
  -- sentinel ends the thread after a last heartbeat.
  unfoldable pub writer_turn : ℕ → ℕ → ℕ → WriteQueue S V → WriteQueue S V
  unfolding execute maybe_heartbeat
  writer_turn interval every now q =
      if q.thread_alive
      then elim (q.items) [
        | [] ↦ maybe_heartbeat interval every now false q
        | i ∷ rest ↦ elim i [
          | task t ↦
              maybe_heartbeat interval every now false (execute t (record q { items = rest }))
          | sentinel ↦
              maybe_heartbeat interval every now true
                (record q { items = rest; thread_alive = false })
        ]
      ]
      else q

  -- Turns at the given times.
  unfoldable pub writer_loop : ℕ → ℕ → List ℕ → WriteQueue S V → WriteQueue S V
  writer_loop interval every [] q = q
  writer_loop interval every (now ∷ times) q =
      writer_loop interval every times (writer_turn interval every now q)
