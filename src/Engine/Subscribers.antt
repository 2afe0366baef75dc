-- ===== src/Engine/Subscribers.antt =====
-- The broker's methods as steps, and what holds of every broker that they lead to.
use hype_coin_predictive_eng.Prelude.{
  ℕ, ◌≤◌, ◌<◌, ◌≡◌, inl, inr, refl, Bool, true, false, ◌&&◌, not, Option, some, List, [], ◌∷◌, ◌++◌,
  if◌then◌else◌, length, arith, Bool-cases, Option-cases, length-filter-le, subst, ap,
}
use hype_coin_predictive_eng.Engine.Broker.{
  max_queue_size, Client, Broker, new_broker, listed, update, forget_loop, connect, disconnect,
  enqueue, is_dead, put, send_all, broadcast, run_call, take_event,
}
use hype_coin_predictive_eng.Engine.Stream.{
  Within, IsServed, IsDirect, Within-old, put-IsServed, enqueue-length, enqueue-Within,
  append_assoc, send_all-put,
}
use hype_coin_predictive_eng.Engine.Feed.{
  List-cases, listed-filter, filter-IsDistinct, update_all, update-listed, IsSound,
  forget_loop-IsServed, connect-IsSound, disconnect-IsSound,
}

module _ {E : Type 0} where
  run_call-IsSound :
      (sent : List E) (q : ℕ) (b : Broker E) → IsSound sent b → IsSound sent (run_call q b)
  unfolding run_call
  run_call-IsSound sent q b s = elim (List-cases ((b.clients q).waiting)) [
    | inl empty ↦ rw (empty, run_call) s
    | inr (e, rest, w) ↦
        let c = b.clients q in
        let after : Client E = record c { queue = enqueue e c.queue; waiting = rest } in
        let order : Within (c.taken ++ (c.queue ++ (e ∷ rest))) sent =
          subst (λ l. Within (c.taken ++ (c.queue ++ l)) sent) w (s.served q).order in
        rw (w, run_call)
          (record {
            served =
                update_all (IsServed sent) q after b.clients
                  (record {
                    order = enqueue-Within e c.taken c.queue rest sent order;
                    bound = enqueue-length e c.queue (s.served q).bound;
                  })
                  s.served;
            direct =
                update-listed IsDirect q after b.clients b.queues
                  (λ i none_of. let nothing = s.direct q i none_of in absurd cc)
                  (λ p o i. s.direct p i);
            given = s.given;
            distinct = s.distinct;
            bounded = s.bounded;
          })
  ]

  take_event-IsSound :
      (sent : List E) (q : ℕ) (b : Broker E) → IsSound sent b → IsSound sent (take_event q b)
  unfolding take_event
  take_event-IsSound sent q b s = elim (List-cases ((b.clients q).queue)) [
    | inl empty ↦ rw (empty, take_event) s
    | inr (e, rest, w) ↦
        let c = b.clients q in
        let after : Client E = record c { queue = rest; taken = c.taken ++ (e ∷ []) } in
        let order : Within (c.taken ++ ((e ∷ rest) ++ c.waiting)) sent =
          subst (λ l. Within (c.taken ++ (l ++ c.waiting)) sent) w (s.served q).order in
        let bound : length (e ∷ rest) ≤ max_queue_size =
          subst (λ l. length l ≤ max_queue_size) w (s.served q).bound in
        rw (w, take_event)
          (record {
            served =
                update_all (IsServed sent) q after b.clients
                  (record {
                    order = rw (append_assoc c.taken (e ∷ []) (rest ++ c.waiting)) order;
                    bound = omega arith;
                  })
                  s.served;
            direct =
                update-listed IsDirect q after b.clients b.queues (λ i. s.direct q i)
                  (λ p o i. s.direct p i);
            given = s.given;
            distinct = s.distinct;
            bounded = s.bounded;
          })
  ]

  if-IsServed :
      (sent : List E) (t : Bool) (c : Client E)
      → IsServed sent c
      → IsServed sent (if t then forget_loop c else c)
  if-IsServed sent true c s = forget_loop-IsServed sent c s
  if-IsServed sent false c s = s

  put_old : (sent : List E) (e : E) (c : Client E) → IsServed sent c → IsServed (sent ++ (e ∷ [])) c
  put_old sent e c s = record {
    order = Within-old (c.taken ++ (c.queue ++ c.waiting)) sent e s.order;
    bound = s.bound;
  }

  put-IsDirect :
      (closed : Bool) (e : E) (c : Client E)
      → is_dead closed c ≡ false
      → IsDirect c
      → IsDirect (put closed e c)
  unfolding put
  put-IsDirect closed e c alive d = elim (Option-cases (c.loop)) [
    | inl none_of ↦ rw (none_of, put) (λ h. d none_of)
    | inr (l, known) ↦ rw (known, put) (ground arith)
  ]

  broadcast-IsSound :
      (sent : List E) (closed : ℕ → Bool) (e : E) (b : Broker E)
      → IsSound sent b
      → IsSound (sent ++ (e ∷ [])) (broadcast closed e b)
  unfolding broadcast
  broadcast-IsSound sent closed e b s =
      let dead : ℕ → Bool = λ q. is_dead (closed q) (b.clients q) in
      let live : ℕ → Bool = λ q. not (dead q) in
      record {
        served = λ q.
            let p = send_all-put closed e b.queues b.clients q s.distinct in
            if-IsServed (sent ++ (e ∷ [])) (listed q b.queues && dead q)
              (send_all closed e b.queues b.clients q)
              (rw p (elim (Bool-cases (listed q b.queues)) [
                | inl i ↦
                    rw i (put-IsServed (closed q) e sent (b.clients q) (s.direct q i) (s.served q))
                | inr o ↦ rw o (put_old sent e (b.clients q) (s.served q))
              ]));
        direct = λ q i.
            let p = send_all-put closed e b.queues b.clients q s.distinct in
            let f = listed-filter live q b.queues in
            let here : listed q b.queues ≡ true = ground arith in
            let alive : dead q ≡ false = ground arith in
            rw (here, alive, p, here)
              (put-IsDirect (closed q) e (b.clients q) alive (s.direct q here));
        given = λ q h. let f = listed-filter live q b.queues in let g = s.given q h in ground arith;
        distinct = filter-IsDistinct live b.queues s.distinct;
        bounded = let f = length-filter-le live b.queues in let n = s.bounded in omega arith;
      }

  -- The brokers that some calls lead to from a new one, with the events that were broadcast.
  pub data Reach : List E → Broker E → Type 0 where
    started : Reach [] new_broker
    connected :
        {sent : List E} {b : Broker E} (loop : Option ℕ)
        → Reach sent b
        → Reach sent (connect loop b).1
    left : {sent : List E} {b : Broker E} (q : ℕ) → Reach sent b → Reach sent (disconnect q b)
    cast :
        {sent : List E} {b : Broker E} (closed : ℕ → Bool) (e : E)
        → Reach sent b
        → Reach (sent ++ (e ∷ [])) (broadcast closed e b)
    ran : {sent : List E} {b : Broker E} (q : ℕ) → Reach sent b → Reach sent (run_call q b)
    took : {sent : List E} {b : Broker E} (q : ℕ) → Reach sent b → Reach sent (take_event q b)

  Reach-IsSound : {sent : List E} {b : Broker E} → Reach sent b → IsSound sent b
  unfolding new_broker listed
  Reach-IsSound started = record {
    served = λ q. record { order = tt; bound = omega arith };
    direct = λ q i. absurd cc;
    given = λ q h. refl;
    distinct = tt;
    bounded = omega arith;
  }
  Reach-IsSound (connected {sent = sent} {b = b} loop r) =
      connect-IsSound sent loop b (Reach-IsSound r)
  Reach-IsSound (left {sent = sent} {b = b} q r) = disconnect-IsSound sent q b (Reach-IsSound r)
  Reach-IsSound (cast {sent = sent} {b = b} closed e r) =
      broadcast-IsSound sent closed e b (Reach-IsSound r)
  Reach-IsSound (ran {sent = sent} {b = b} q r) = run_call-IsSound sent q b (Reach-IsSound r)
  Reach-IsSound (took {sent = sent} {b = b} q r) = take_event-IsSound sent q b (Reach-IsSound r)

  -- Whatever clients come and go, however slowly they read and whichever loops close: what a client has
  -- taken, what its queue holds and what waits on its loop are together some of the events that were
  -- broadcast, in their order and each at most as often; no queue holds more than 1000 events, and no
  -- more than 256 clients are listed.
  pub Reach_in_order :
      {sent : List E} {b : Broker E} (q : ℕ)
      → Reach sent b
      → let c = b.clients q in
        Within (c.taken ++ (c.queue ++ c.waiting)) sent
        × (length c.queue ≤ 1000)
        × (length b.queues ≤ 256)
  Reach_in_order q r =
      let s = Reach-IsSound r in ((s.served q).order, (s.served q).bound, s.bounded)

  run_call_first :
      (q : ℕ) (e : E) (b : Broker E) (c : Client E)
      → b.clients q ≡ record c { waiting = e ∷ [] }
      → length c.queue < 1000
      → ((run_call q b).clients q).queue ≡ c.queue ++ (e ∷ [])
  unfolding run_call update enqueue
  run_call_first q e b c there room = rw (there, run_call) (ground arith)

  -- An event reaches every client that is listed and whose loop is open: if nothing waits on the loop
  -- and the queue has room, then the event is at the end of the queue after one call of the loop.
  pub cast_delivers :
      {sent : List E} {b : Broker E} (closed : ℕ → Bool) (e : E) (q l : ℕ)
      → Reach sent b
      → listed q b.queues ≡ true
      → (b.clients q).loop ≡ some l
      → closed q ≡ false
      → (b.clients q).waiting ≡ []
      → length (b.clients q).queue < 1000
      → ((run_call q (broadcast closed e b)).clients q).queue ≡ (b.clients q).queue ++ (e ∷ [])
  unfolding broadcast put
  cast_delivers {b = b} closed e q l r i known live nothing room =
      let s = Reach-IsSound r in
      let c = b.clients q in
      let p = send_all-put closed e b.queues b.clients q s.distinct in
      let there : (broadcast closed e b).clients q ≡ record c { loop = some l; waiting = e ∷ [] } =
        rw (p, i, known, live, put, nothing)
          (ap (λ o. record c { loop = o; waiting = e ∷ [] }) known) in
      run_call_first q e (broadcast closed e b) (record c { loop = some l }) there room
