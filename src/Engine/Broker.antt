-- ===== src/Engine/Broker.antt =====
-- `_SSEBroker` of engine/state.py. A queue is known by its number, a client's own record holds the loop
-- that `_loops` has for it, the events of its queue, the calls that wait on its loop, and the events it
-- has taken. Calls of `broadcast` do not overlap here. Of the calls that wait on one loop only the order
-- within one queue is kept: those of different queues run in any order.
use hype_coin_predictive_eng.Prelude.{
  ℕ, ◌+◌, Bool, false, ◌&&◌, not, ◌||◌, Option, none, some, List, [], ◌∷◌, ◌++◌, ltb, leb, ◌==◌,
  if◌then◌else◌, length, filter,
}

abbrev pub max_queue_size : ℕ
max_queue_size = 1000

abbrev pub max_subscribers : ℕ
max_subscribers = 256

pub record Client (E : Type 0) : Type 0 where
  pub loop : Option ℕ
  pub queue : List E
  pub waiting : List E
  pub taken : List E

pub record Broker (E : Type 0) : Type 0 where
  pub next_queue : ℕ
  pub queues : List ℕ
  pub clients : ℕ → Client E

unfoldable pub new_broker : {E : Type 0} → Broker E
new_broker = record {
  next_queue = 0;
  queues = [];
  clients = λ q. record { loop = none; queue = []; waiting = []; taken = [] };
}

unfoldable pub listed : ℕ → List ℕ → Bool
listed q [] = false
listed q (p ∷ ps) = p == q || listed q ps

unfoldable pub update : {A : Type 0} → ℕ → A → (ℕ → A) → ℕ → A
update q a m p = if q == p then a else m p

abbrev pub forget_loop : {E : Type 0} → Client E → Client E
forget_loop c = record c { loop = none }

module _ {E : Type 0} where
  -- A full list of subscribers loses its oldest; the list is that of the broker.
  unfoldable pub evict : List ℕ → Broker E → Broker E
  unfolding update
  evict [] b = b
  evict (q ∷ qs) b =
      if leb max_subscribers (length (q ∷ qs))
      then record b { queues = qs; clients = update q (forget_loop (b.clients q)) b.clients }
      else b

  -- `connect`, with the running loop, if there is one.
  unfoldable pub connect : Option ℕ → Broker E → ℕ × Broker E
  unfolding evict update
  connect loop b =
      let kept = evict b.queues b in
      let q = kept.next_queue in
      (
        q,
        record kept {
          next_queue = q + 1;
          queues = kept.queues ++ (q ∷ []);
          clients =
              update q (record { loop = loop; queue = []; waiting = []; taken = [] }) kept.clients;
        },
      )

  unfoldable pub disconnect : ℕ → Broker E → Broker E
  unfolding update
  disconnect q b = record b {
    queues = filter (λ p. not (p == q)) b.queues;
    clients = update q (forget_loop (b.clients q)) b.clients;
  }

  -- `_enqueue`: a full queue drops the event.
  unfoldable pub enqueue : E → List E → List E
  enqueue e l = if ltb (length l) max_queue_size then l ++ (e ∷ []) else l

  -- `call_soon_threadsafe` raised: there is a loop, and it is closed.
  abbrev pub is_dead : Bool → Client E → Bool
  is_dead closed c = elim (c.loop) [ none ↦ false | some l ↦ closed ]

  -- One turn of the loop over the targets.
  unfoldable pub put : Bool → E → Client E → Client E
  unfolding enqueue
  put closed e c = elim (c.loop) [
    | none ↦ record c { queue = enqueue e c.queue }
    | some l ↦ if closed then c else record c { waiting = c.waiting ++ (e ∷ []) }
  ]

  unfoldable pub send_all : (ℕ → Bool) → E → List ℕ → (ℕ → Client E) → ℕ → Client E
  unfolding put update
  send_all closed e [] clients = clients
  send_all closed e (q ∷ targets) clients =
      send_all closed e targets (update q (put (closed q) e (clients q)) clients)

  -- `broadcast`; `closed` says of each queue whether its loop, if it has one, is closed when its turn comes.
  unfoldable pub broadcast : (ℕ → Bool) → E → Broker E → Broker E
  unfolding send_all
  broadcast closed e b =
      let dead : ℕ → Bool = λ q. is_dead (closed q) (b.clients q) in
      let sent = send_all closed e b.queues b.clients in
      record b {
        queues = filter (λ q. not (dead q)) b.queues;
        clients = λ q. if listed q b.queues && dead q then forget_loop (sent q) else sent q;
      }

  -- The loop of a client runs the first call that waits for its queue.
  unfoldable pub run_call : ℕ → Broker E → Broker E
  unfolding enqueue update
  run_call q b =
      let c = b.clients q in
      elim (c.waiting) [
        | [] ↦ b
        | e ∷ rest ↦ record b {
          clients = update q (record c { queue = enqueue e c.queue; waiting = rest }) b.clients;
        }
      ]

  -- The handler of a client takes the first event of its queue.
  unfoldable pub take_event : ℕ → Broker E → Broker E
  unfolding update
  take_event q b =
      let c = b.clients q in
      elim (c.queue) [
        | [] ↦ b
        | e ∷ rest ↦ record b {
          clients = update q (record c { queue = rest; taken = c.taken ++ (e ∷ []) }) b.clients;
        }
      ]
