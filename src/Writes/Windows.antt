-- ===== src/Writes/Windows.antt =====
-- The latency windows and the heartbeat counter stay within their bounds.
use hype_coin_predictive_eng.Prelude.{
  ℕ, ◌-◌, ◌≤◌, ◌<◌, ◌≡◌, inl, inr, Bool, true, false, List, [], ◌∷◌, ◌++◌, length, length-drop,
  arith, Bool-cases, refl,
}
use hype_coin_predictive_eng.Writes.Queue.{
  WriteTask, Item, task, sentinel, WriteQueue, push_latency, execute, maybe_heartbeat, writer_turn,
}
use hype_coin_predictive_eng.Writes.Drain.{turn_dead}

length-push_latency : (x : ℕ) (l : List ℕ) → length (push_latency x l) ≤ 2048
unfolding push_latency
length-push_latency x l = omega (arith, length-drop (length (l ++ (x ∷ [])) - 2048) (l ++ (x ∷ [])))

module _ {S V : Type 0} (every : ℕ) where
  pub record IsBounded (q : WriteQueue S V) : Type 0 where
    pub exec : length q.exec_latencies ≤ 2048
    pub wait : length q.wait_latencies ≤ 2048
    pub since : q.writes_since_heartbeat < every

  maybe_heartbeat-IsBounded :
      (interval now : ℕ) (force : Bool) (q : WriteQueue S V)
      → 0 < every
      → length q.exec_latencies ≤ 2048
      → length q.wait_latencies ≤ 2048
      → IsBounded (maybe_heartbeat interval every now force q)
  unfolding maybe_heartbeat
  maybe_heartbeat-IsBounded interval now force q h e w = record {
    exec = ground arith;
    wait = ground arith;
    since = ground arith;
  }

  execute_windows :
      (t : WriteTask S V) (q : WriteQueue S V)
      → length q.exec_latencies ≤ 2048
      → length q.wait_latencies ≤ 2048
      → (length (execute t q).exec_latencies ≤ 2048) × (length (execute t q).wait_latencies ≤ 2048)
  unfolding execute
  execute_windows t q e w = ground (
    arith,
    length-push_latency (t.done_at - t.started_at) q.exec_latencies,
    length-push_latency (t.started_at - t.submitted_at) q.wait_latencies,
  )

  turn_alive :
      (interval now : ℕ) (items : List (Item S V)) (q : WriteQueue S V)
      → 0 < every
      → IsBounded q
      → q.thread_alive ≡ true
      → q.items ≡ items
      → IsBounded (writer_turn interval every now q)
  unfolding writer_turn
  turn_alive interval now [] q h b alive e =
      rw (alive, e, writer_turn) (maybe_heartbeat-IsBounded interval now false q h b.exec b.wait)
  turn_alive interval now (sentinel ∷ rest) q h b alive e =
      rw (alive, e, writer_turn)
        (maybe_heartbeat-IsBounded interval now true
          (record q { items = rest; thread_alive = false }) h b.exec b.wait)
  turn_alive interval now (task t ∷ rest) q h b alive e =
      let (exec, wait) = execute_windows t (record q { items = rest }) b.exec b.wait in
      rw (alive, e, writer_turn)
        (maybe_heartbeat-IsBounded interval now false (execute t (record q { items = rest })) h exec
          wait)

  -- A turn of the writer keeps both latency windows within 2048 samples and, if heartbeats are to be at
  -- most every `every` > 0 writes, fewer than that many writes since the last heartbeat.
  pub writer_turn-IsBounded :
      (interval now : ℕ) (q : WriteQueue S V)
      → 0 < every
      → IsBounded q
      → IsBounded (writer_turn interval every now q)
  writer_turn-IsBounded interval now q h b = elim (Bool-cases q.thread_alive) [
    | inl alive ↦ turn_alive interval now q.items q h b alive refl
    | inr dead ↦ rw (turn_dead interval every now q dead) b
  ]
