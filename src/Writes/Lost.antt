-- ===== src/Writes/Lost.antt =====
-- A write that is accepted while the queue stops.
use hype_coin_predictive_eng.Prelude.{
  ℕ, ◌<◌, ◌≡◌, refl, true, false, some, List, [], ◌∷◌, ◌++◌, length, map, arith, ◌∙◌,
}
use hype_coin_predictive_eng.Writes.Queue.{
  WriteTask, Item, task, sentinel, WriteQueue, submit_check, submit_put, stop_flag, stop_put,
  stop_end, writer_loop,
}
use hype_coin_predictive_eng.Writes.Drain.{serial_answers, writer_loop_drains}

module _ {S V : Type 0} where
  append_two :
      (tasks : List (WriteTask S V)) (i j : Item S V)
      → (map task tasks ++ (i ∷ [])) ++ (j ∷ []) ≡ map task tasks ++ (i ∷ j ∷ [])
  append_two [] i j = refl
  append_two (t ∷ ts) i j = rw (append_two ts i j) refl

  -- In a running queue `submit` passes its check; if `stop` sets its flag and puts its sentinel before
  -- `submit` puts the task, then after any number of turns that is enough for the tasks before it the
  -- writer is dead, the task is still in the queue, its future is not among the answers given since,
  -- and `stop` reports that the thread stopped cleanly.
  pub stop_loses_checked :
      (interval every : ℕ) (tasks : List (WriteTask S V)) (t : WriteTask S V) (times : List ℕ)
      (q : WriteQueue S V)
      → q.running ≡ true
      → q.stopping ≡ false
      → q.thread_alive ≡ true
      → q.items ≡ map task tasks
      → length tasks < length times
      → (q1 : WriteQueue S V) × (submit_check t q ≡ some q1)
        × let q' = writer_loop interval every times (submit_put t (stop_put (stop_flag q1))) in
          (q'.thread_alive ≡ false)
          × (q'.items ≡ task t ∷ [])
          × (q'.answers ≡ q.answers ++ serial_answers tasks q.database)
          × ((stop_end q').0 ≡ true)
  unfolding submit_check submit_put stop_flag stop_put stop_end
  stop_loses_checked interval every tasks t times q running going alive items h =
      let q1 = record q { checked = q.checked ++ (t ∷ []) } in
      let q2 = submit_put t (stop_put (stop_flag q1)) in
      let a2 : q2.thread_alive ≡ true = rw (running, stop_flag) alive in
      let i2 : q2.items ≡ map task tasks ++ (sentinel ∷ task t ∷ []) =
        rw (running, items, stop_flag) (append_two tasks sentinel (task t)) in
      let d = writer_loop_drains interval every tasks (task t ∷ []) times q2 a2 i2 h in
      let ans : q2.answers ≡ q.answers = rw (running, stop_flag) refl in
      let db : q2.database ≡ q.database = rw (running, stop_flag) refl in
      let replies : q2.answers ++ serial_answers tasks q2.database
          ≡ q.answers ++ serial_answers tasks q.database =
        rw (ans, db) refl in
      (q1, ground arith, (d.dead, d.left, d.replies ∙ replies, rw (d.dead) refl))
