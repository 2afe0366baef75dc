-- ===== src/Writes/Drain.antt =====
-- What the writer makes of the tasks before the sentinel: their writes, one after the other.
use hype_coin_predictive_eng.Prelude.{
  ℕ, suc, ◌+◌, ◌<◌, ◌≡◌, refl, true, false, List, [], ◌∷◌, ◌++◌, length, arith, map, ◌∙◌, sym,
}
use hype_coin_predictive_eng.Writes.Queue.{
  Written, committed, aborted, WriteTask, Item, task, sentinel, Answer, value, exception,
  WriteQueue, execute, maybe_heartbeat, writer_turn, writer_loop,
}

append_nil : {A : Type 0} (xs : List A) → xs ++ [] ≡ xs
append_nil [] = refl
append_nil (x ∷ xs) = rw (append_nil xs) refl

append_assoc : {A : Type 0} (xs ys zs : List A) → (xs ++ ys) ++ zs ≡ xs ++ (ys ++ zs)
append_assoc [] ys zs = refl
append_assoc (x ∷ xs) ys zs = rw (append_assoc xs ys zs) refl

module _ {S V : Type 0} where
  abbrev pub after : S → Written S V → S
  after s (committed s' v) = s'
  after s (aborted e) = s

  abbrev pub answer : Written S V → Answer V
  answer (committed s v) = value v
  answer (aborted e) = exception e

  -- The content after the tasks, each on what the one before left.
  unfoldable pub serial_content : List (WriteTask S V) → S → S
  serial_content [] s = s
  serial_content (t ∷ ts) s = serial_content ts (after s (t.fn s))

  -- The answers of the tasks, in order.
  unfoldable pub serial_answers : List (WriteTask S V) → S → List (ℕ × Answer V)
  serial_answers [] s = []
  serial_answers (t ∷ ts) s = (t.number, answer (t.fn s)) ∷ serial_answers ts (after s (t.fn s))

  module _ (interval every : ℕ) where
    -- A turn on a task leaves the thread alive, takes the task, writes and answers.
    turn_task :
        (now : ℕ) (t : WriteTask S V) (rest : List (Item S V)) (q : WriteQueue S V)
        → q.thread_alive ≡ true
        → q.items ≡ task t ∷ rest
        → let q' = writer_turn interval every now q in
          (q'.thread_alive ≡ true)
          × (q'.items ≡ rest)
          × (q'.database ≡ after q.database (t.fn q.database))
          × (q'.answers ≡ q.answers ++ ((t.number, answer (t.fn q.database)) ∷ []))
          × (q'.writes_total + q'.writes_failed ≡ suc (q.writes_total + q.writes_failed))
    unfolding writer_turn execute maybe_heartbeat
    turn_task now t rest q alive items = ground arith

    turn_sentinel :
        (now : ℕ) (rest : List (Item S V)) (q : WriteQueue S V)
        → q.thread_alive ≡ true
        → q.items ≡ sentinel ∷ rest
        → let q' = writer_turn interval every now q in
          (q'.thread_alive ≡ false)
          × (q'.items ≡ rest)
          × (q'.database ≡ q.database)
          × (q'.answers ≡ q.answers)
          × (q'.writes_total + q'.writes_failed ≡ q.writes_total + q.writes_failed)
    unfolding writer_turn maybe_heartbeat
    turn_sentinel now rest q alive items = ground arith

    pub turn_dead :
        (now : ℕ) (q : WriteQueue S V)
        → q.thread_alive ≡ false
        → writer_turn interval every now q ≡ q
    unfolding writer_turn
    turn_dead now q dead = rw (dead, writer_turn) refl

    -- A dead writer takes nothing more, however many turns there would be.
    pub loop_dead :
        (times : List ℕ) (q : WriteQueue S V)
        → q.thread_alive ≡ false
        → writer_loop interval every times q ≡ q
    unfolding writer_loop
    loop_dead [] q dead = refl
    loop_dead (now ∷ times) q dead = rw (turn_dead now q dead) (loop_dead times q dead)

  -- What the tasks come to, with `late` left in the queue.
  pub record IsDrained (tasks : List (WriteTask S V)) (late : List (Item S V))
      (q q' : WriteQueue S V) : Type 0 where
    pub dead : q'.thread_alive ≡ false
    pub left : q'.items ≡ late
    pub content : q'.database ≡ serial_content tasks q.database
    pub replies : q'.answers ≡ q.answers ++ serial_answers tasks q.database
    pub counted :
        q'.writes_total + q'.writes_failed ≡ q.writes_total + q.writes_failed + length tasks

  -- A living writer that is given more turns than there are tasks before the sentinel carries out each
  -- of them once, in the order of their submission, each on the content that the one before left (a
  -- write that raises changes nothing), answers every future in that order, counts them all, and is
  -- dead then; what was queued behind the sentinel stays in the queue.
  pub writer_loop_drains :
      (interval every : ℕ) (tasks : List (WriteTask S V)) (late : List (Item S V)) (times : List ℕ)
      (q : WriteQueue S V)
      → q.thread_alive ≡ true
      → q.items ≡ map task tasks ++ (sentinel ∷ late)
      → length tasks < length times
      → IsDrained tasks late q (writer_loop interval every times q)
  unfolding writer_loop serial_content serial_answers
  writer_loop_drains interval every tasks late [] q alive items h = ground arith
  writer_loop_drains interval every [] late (now ∷ times) q alive items h =
      let (d, i, c, a, n) = turn_sentinel interval every now late q alive items in
      rw (loop_dead interval every times (writer_turn interval every now q) d) (record {
        dead = d;
        left = i;
        content = c;
        replies = a ∙ sym (append_nil q.answers);
        counted = omega arith;
      })
  writer_loop_drains interval every (t ∷ ts) late (now ∷ times) q alive items h =
      let (d, i, c, a, n) =
        turn_task interval every now t (map task ts ++ (sentinel ∷ late)) q alive items in
      let rest =
        writer_loop_drains interval every ts late times (writer_turn interval every now q) d i
          (omega arith) in
      record {
        dead = rest.dead;
        left = rest.left;
        content = rest.content ∙ rw c refl;
        replies = rest.replies ∙ rw (a, c, append_assoc q.answers _ _) refl;
        counted = omega (arith, rest.counted);
      }
