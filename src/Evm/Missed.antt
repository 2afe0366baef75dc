-- ===== src/Evm/Missed.antt =====
-- What a chain's cursor does over any sequence of watches.
use hype_coin_predictive_eng.Prelude.{
  ℕ, ◌≤◌, ◌≡◌, refl, inl, inr, true, false, Option, none, some, List, [], ◌∷◌, leb, length, All,
  arith, Bool-cases,
}
use hype_coin_predictive_eng.Float.{Float}
use hype_coin_predictive_eng.Mempool.Watch.{Text}
use hype_coin_predictive_eng.Evm.Node.{
  Call, answered, no_result, raised, Log, Node, Texts, skipped, parse_topics,
}
use hype_coin_predictive_eng.Evm.Store.{Rows}
use hype_coin_predictive_eng.Evm.Watch.{
  Chain, watched, start_of, logs_of, store_logs, after_logs, watch_logs, watch_from, watch,
}

module _ (f : Float) (t : Texts) where
  open f use {Carrier}

  -- The chain after watches of nodes at their times.
  unfoldable pub watches : ℕ → List (Node × ℕ) → Chain Carrier → Chain Carrier
  unfolding watch
  watches hours [] c = c
  watches hours ((n, decision) ∷ rest) c = watches hours rest (watch f t true hours n decision c).1

  -- A cursor is not behind another one.
  abbrev pub IsPast : Option ℕ → Option ℕ → Type 0
  IsPast none b = Unit
  IsPast (some a) none = ⊥
  IsPast (some a) (some b) = a ≤ b

  IsPast-refl : (a : Option ℕ) → IsPast a a
  IsPast-refl none = tt
  IsPast-refl (some a) = omega arith

  IsPast-trans : (a b c : Option ℕ) → IsPast a b → IsPast b c → IsPast a c
  IsPast-trans none b c h k = tt
  IsPast-trans (some a) none c h k = absurd h
  IsPast-trans (some a) (some b) none h k = absurd k
  IsPast-trans (some a) (some b) (some c) h k = omega arith

  IsPast-start :
      (hours latest : ℕ) (a : Option ℕ)
      → leb latest (start_of hours latest a) ≡ false
      → IsPast a (some latest)
  IsPast-start hours latest none h = tt
  IsPast-start hours latest (some b) h = ground arith

  after_logs-IsPast :
      (latest : ℕ) (r : Option ℕ × Rows Carrier) (c : Chain Carrier)
      → IsPast c.cursor (some latest)
      → IsPast c.cursor (after_logs f t true latest r c).1.cursor
  after_logs-IsPast latest (none, x) c h = IsPast-refl c.cursor
  after_logs-IsPast latest (some n, x) c h = h

  watch_logs-IsPast :
      (n : Node) (decision latest : ℕ) (o : Option (List Log)) (c : Chain Carrier)
      → IsPast c.cursor (some latest)
      → IsPast c.cursor (watch_logs f t true n decision latest o c).1.cursor
  unfolding watch_logs
  watch_logs-IsPast n decision latest none c h = IsPast-refl c.cursor
  watch_logs-IsPast n decision latest (some logs) c h =
      after_logs-IsPast latest (store_logs f t true n decision logs c.rows) c h

  watch_from-IsPast :
      (hours : ℕ) (n : Node) (decision : ℕ) (o : Call ℕ) (c : Chain Carrier)
      → IsPast c.cursor (watch_from f t true hours n decision o c).1.cursor
  unfolding watch_from
  watch_from-IsPast hours n decision raised c = IsPast-refl c.cursor
  watch_from-IsPast hours n decision no_result c = IsPast-refl c.cursor
  watch_from-IsPast hours n decision (answered latest) c =
      elim (Bool-cases (leb latest (start_of hours latest c.cursor))) [
        | inl old ↦ rw old (IsPast-refl c.cursor)
        | inr new ↦ rw new (
            watch_logs-IsPast n decision latest
              (logs_of f t (n.eth_get_logs (start_of hours latest c.cursor) latest)) c
              (IsPast-start hours latest c.cursor new))
      ]

  -- Over any watches, whatever the nodes answer and whether a watch raises, a cursor that is set stays
  -- set and never goes back.
  pub watches-IsPast :
      (hours : ℕ) (rest : List (Node × ℕ)) (c : Chain Carrier)
      → IsPast c.cursor (watches hours rest c).cursor
  unfolding watches watch
  watches-IsPast hours [] c = IsPast-refl c.cursor
  watches-IsPast hours ((n, decision) ∷ rest) c =
      let c' = (watch f t true hours n decision c).1 in
      IsPast-trans c.cursor c'.cursor (watches hours rest c').cursor
        (watch_from-IsPast hours n decision n.eth_block_number c) (watches-IsPast hours rest c')

  -- The answer has nothing that is read: no result, or logs of three topics or fewer, as those of
  -- Uniswap v2 are, which keep the pair in the data.
  abbrev pub IsUnread : Call (List Log) → Type 0
  IsUnread (answered logs) = All (λ item. length item.topics ≤ 3) logs
  IsUnread no_result = Unit
  IsUnread raised = ⊥

  parse_topics_few :
      (item : Log) (topics : List Text) → length topics ≤ 3 → parse_topics t item topics ≡ skipped
  unfolding parse_topics
  parse_topics_few item [] h = refl
  parse_topics_few item (a ∷ []) h = refl
  parse_topics_few item (a ∷ b ∷ []) h = refl
  parse_topics_few item (a ∷ b ∷ c ∷ []) h = refl
  parse_topics_few item (a ∷ b ∷ c ∷ d ∷ more) h = absurd (omega arith)

  store_logs_unread :
      (n : Node) (decision : ℕ) (logs : List Log) (x : Rows Carrier)
      → All (λ item. length item.topics ≤ 3) logs
      → store_logs f t true n decision logs x ≡ (some 0, x)
  unfolding store_logs
  store_logs_unread n decision [] x h = refl
  store_logs_unread n decision (item ∷ logs) x h =
      rw (parse_topics_few item item.topics h.0) (store_logs_unread n decision logs x h.1)

  watch_logs_unread :
      (n : Node) (decision latest : ℕ) (a : Call (List Log)) (c : Chain Carrier)
      → IsUnread a
      → watch_logs f t true n decision latest (logs_of f t a) c
        ≡ (watched 0, record c { cursor = some latest })
  unfolding watch_logs
  watch_logs_unread n decision latest (answered logs) c h =
      rw (store_logs_unread n decision logs c.rows h) refl
  watch_logs_unread n decision latest no_result c h = refl
  watch_logs_unread n decision latest raised c h = absurd h

  -- A watch that finds a latest block past its start, at a node whose call for the logs does not raise
  -- and brings a reply without a result, or only logs of three topics or fewer, stores no pair and
  -- counts as a success with 0 pairs, and its cursor goes to the latest block.
  pub watch_unread :
      (hours : ℕ) (n : Node) (decision latest : ℕ) (c : Chain Carrier)
      → n.eth_block_number ≡ answered latest
      → ((from to : ℕ) → IsUnread (n.eth_get_logs from to))
      → leb latest (start_of hours latest c.cursor) ≡ false
      → watch f t true hours n decision c ≡ (watched 0, record c { cursor = some latest })
  unfolding watch watch_from
  watch_unread hours n decision latest c block unread new =
      rw (block, new)
        (watch_logs_unread n decision latest
          (n.eth_get_logs (start_of hours latest c.cursor) latest) c
          (unread (start_of hours latest c.cursor) latest))
