-- ===== src/Evm/Watch.antt =====
-- `EVMFactoryWatcher.watch` with its cursor, and `run_evm_watch` over the chains.
use hype_coin_predictive_eng.Prelude.{
  ℕ, suc, ◌+◌, ◌-◌, ◌*◌, Bool, Option, none, some, List, [], ◌∷◌, leb, if◌then◌else◌,
}
use hype_coin_predictive_eng.Float.{Float}
use hype_coin_predictive_eng.Evm.Node.{
  Call, answered, no_result, raised, Log, Node, Texts, Reading, skipped, parsed, unreadable,
  parse_topics, parse_log,
}
use hype_coin_predictive_eng.Evm.Store.{Rows, Ended, stored, dropped, failed, store_pair}

-- What a chain keeps between the runs.
pub record Chain (F : Type 0) : Type 0 where
  pub cursor : Option ℕ
  pub rows : Rows F

-- A watch raises, or gives the number of pairs.
pub data WatchResult : Type 0 where
  watched : ℕ → WatchResult
  watch_failed : WatchResult

abbrev pub lookback_start : ℕ → ℕ → ℕ
lookback_start hours latest = latest - 300 * hours

abbrev pub start_of : ℕ → ℕ → Option ℕ → ℕ
start_of hours latest none = lookback_start hours latest
start_of hours latest (some block) = block

module _ (f : Float) (t : Texts) where
  open f use {Carrier}

  -- The loop over the logs, and whether it came to its end.
  abbrev pub after_store :
      Ended × Rows Carrier → (Rows Carrier → Option ℕ × Rows Carrier) → Option ℕ × Rows Carrier
  after_store (failed, x) rest = (none, x)
  after_store (dropped, x) rest = rest x
  after_store (stored, x) rest =
      let (count, x') = rest x in (elim count [ none ↦ none | some n ↦ some (suc n) ], x')

  abbrev pub after_parse :
      Bool
      → Node
      → ℕ
      → Reading
      → Rows Carrier
      → (Rows Carrier → Option ℕ × Rows Carrier)
      → Option ℕ × Rows Carrier
  after_parse known n decision skipped x rest = rest x
  after_parse known n decision unreadable x rest = (none, x)
  after_parse known n decision (parsed q) x rest =
      after_store (store_pair f t known n q decision x) rest

  unfoldable pub store_logs : Bool → Node → ℕ → List Log → Rows Carrier → Option ℕ × Rows Carrier
  unfolding store_pair parse_topics
  store_logs known n decision [] x = (some 0, x)
  store_logs known n decision (item ∷ logs) x =
      after_parse known n decision (parse_log t item) x (store_logs known n decision logs)

  -- `_pair_created_logs`: a reply without a result has no logs.
  abbrev pub logs_of : Call (List Log) → Option (List Log)
  logs_of (answered logs) = some logs
  logs_of no_result = some []
  logs_of raised = none

  -- `_set_cursor_block`
  abbrev pub set_cursor : Bool → ℕ → Chain Carrier → Chain Carrier
  set_cursor known latest c = if known then record c { cursor = some latest } else c

  abbrev pub after_logs :
      Bool → ℕ → Option ℕ × Rows Carrier → Chain Carrier → WatchResult × Chain Carrier
  after_logs known latest (none, x) c = (watch_failed, record c { rows = x })
  after_logs known latest (some n, x) c =
      (watched n, set_cursor known latest (record c { rows = x }))

  unfoldable pub watch_logs :
      Bool → Node → ℕ → ℕ → Option (List Log) → Chain Carrier → WatchResult × Chain Carrier
  unfolding store_logs
  watch_logs known n decision latest none c = (watch_failed, c)
  watch_logs known n decision latest (some logs) c =
      after_logs known latest (store_logs known n decision logs c.rows) c

  -- From the latest block on.
  unfoldable pub watch_from :
      Bool → ℕ → Node → ℕ → Call ℕ → Chain Carrier → WatchResult × Chain Carrier
  unfolding watch_logs
  watch_from known hours n decision raised c = (watch_failed, c)
  watch_from known hours n decision no_result c = (watch_failed, c)
  watch_from known hours n decision (answered latest) c =
      let start = start_of hours latest c.cursor in
      if leb latest start
      then (watched 0, c)
      else watch_logs known n decision latest (logs_of (n.eth_get_logs start latest)) c

  -- `watch`; the cursor of a chain without a row is none.
  unfoldable pub watch : Bool → ℕ → Node → ℕ → Chain Carrier → WatchResult × Chain Carrier
  unfolding watch_from
  watch known hours n decision c = watch_from known hours n decision n.eth_block_number c

  -- `run_evm_watch`: each target chain with its node; the pairs and the errors.
  unfoldable pub run_evm_watch :
      ℕ → ℕ → List (Bool × Node × Chain Carrier) → List (Chain Carrier) × ℕ × ℕ
  unfolding watch
  run_evm_watch hours decision [] = ([], 0, 0)
  run_evm_watch hours decision ((known, n, c) ∷ chains) =
      let (result, c') = watch known hours n decision c in
      let (cs, total, errors) = run_evm_watch hours decision chains in
      elim result [
        | watched pairs ↦ (c' ∷ cs, pairs + total, errors)
        | watch_failed ↦ (c' ∷ cs, total, suc errors)
      ]
