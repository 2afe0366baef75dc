-- ===== src/Evm/Tests.antt =====
-- A node with one new pair, in hundredths, and the theorems at concrete inputs.
use hype_coin_predictive_eng.Prelude.{
  ℕ, zero, suc, ◌/◌, ◌≡◌, refl, true, false, not, none, some, List, [], ◌∷◌, ◌++◌, if◌then◌else◌,
  leb, length, map, arith,
}
use hype_coin_predictive_eng.Prelude.Int.{ℤ, pos, ◌+ℤ◌, ◌-ℤ◌}
use hype_coin_predictive_eng.Float.{hundredths}
use hype_coin_predictive_eng.Mempool.Watch.{Text, text_eq}
use hype_coin_predictive_eng.Evm.Node.{
  Bytes, Call, answered, no_result, absent, hex, malformed, Log, Node, Texts, Parsed, topic_address,
  parse_topics, token_symbol, token_decimals, get_reserves, scaled, symbol_selector,
  decimals_selector,
}
use hype_coin_predictive_eng.Evm.Store.{
  Rows, is_stable, orient, reserve_usd, upsert_pool_and_pair, insert_snapshots, with_reserves,
  with_symbols, store_pair,
}
use hype_coin_predictive_eng.Evm.Watch.{
  Chain, watched, watch_failed, start_of, store_logs, watch_logs, watch_from, watch, run_evm_watch,
}
use hype_coin_predictive_eng.Evm.Oriented.{swapped, with_symbols-swapped}
use hype_coin_predictive_eng.Evm.Missed.{IsPast, watches, watches-IsPast, watch_unread}

program : Unit {0}
unfolding ◌+ℤ◌ ◌-ℤ◌ parse_topics token_symbol token_decimals get_reserves scaled orient reserve_usd
    upsert_pool_and_pair insert_snapshots with_reserves with_symbols store_pair store_logs
    watch_logs watch_from watch run_evm_watch watches
program = tt

abbrev repeat : ℕ → ℕ → List ℕ
repeat zero x = []
repeat (suc n) x = x ∷ repeat n x

-- 32 bytes with a small number.
abbrev word : ℕ → Bytes
word n = repeat 31 0 ++ (n ∷ [])

abbrev texts : Texts
texts = record { lower = λ t. t; upper = λ t. t; decode = λ b. b }

abbrev usdc : Text
usdc = b'U' ∷ b'S' ∷ b'D' ∷ b'C' ∷ []

abbrev pepe : Text
pepe = b'P' ∷ b'E' ∷ b'P' ∷ b'E' ∷ []

-- The stable token has the lower address; its topic is "aaa…", the other's "bbb…", the pair's "ccc…".
abbrev call : ℕ → Text → Text → Call Bytes
call decimals address selector =
    if text_eq selector symbol_selector
    then answered (
        word 32
        ++ word 4
        ++ (if text_eq address (topic_address texts (repeat 40 b'a')) then usdc else pepe))
    else if text_eq selector decimals_selector
    then answered (repeat 30 0 ++ (decimals / 256 ∷ decimals ∷ []))
    else answered (word 50 ++ word 7)

abbrev item : Log
item = record {
  topics = [] ∷ repeat 40 b'a' ∷ repeat 40 b'b' ∷ repeat 40 b'c' ∷ [];
  block_number = hex 1990;
  log_index = absent;
  tx_hash = none;
}

-- The log as Uniswap v2 writes it.
abbrev short_item : Log
short_item = record item { topics = [] ∷ repeat 40 b'a' ∷ repeat 40 b'b' ∷ [] }

abbrev node : List Log → Node
node logs = record {
  eth_block_number = answered 2000;
  eth_get_logs = λ from to. answered logs;
  eth_call = call 1;
}

abbrev poisoned : Node
poisoned = record (node (item ∷ [])) { eth_call = call 65535 }

abbrev refusing : Node
refusing = record (node []) { eth_get_logs = λ from to. no_result }

abbrev no_rows : Rows ℤ
no_rows = record { pools = []; pairs = []; liquidity = []; market = [] }

abbrev chain : Chain ℤ
chain = record { cursor = none; rows = no_rows }

-- The reserves 50 and 7 go to their roles, and the 50 of the stable side count as 5 dollars.
watch_test :
    let (result, c) = watch hundredths texts true 1 (node (item ∷ [])) 7300 chain in
    (result ≡ watched 1)
    × (c.cursor ≡ some 2000)
    × (map (λ l. l.reserve_usd) c.rows.liquidity ≡ some (pos 500) ∷ [])
    × (map (λ l. l.reserve_base) c.rows.liquidity ≡ some (pos 700) ∷ [])
    × (map (λ l. l.ts) c.rows.liquidity ≡ 7200 ∷ [])
unfolding program
watch_test = (refl, refl, refl, refl, refl)

-- A token that says USDC and has more than 308 decimals makes every watch of the chain fail.
poisoned_test :
    let (result, c) = watch hundredths texts true 1 poisoned 7300 chain in
    (result ≡ watch_failed) × (c.cursor ≡ none)
unfolding program
poisoned_test = (refl, refl)

-- So does a log of four topics whose block number is not hexadecimal, after the pair before it.
malformed_test :
    let logs = item ∷ record item { block_number = malformed } ∷ [] in
    let (result, c) = watch hundredths texts true 1 (node logs) 7300 chain in
    (result ≡ watch_failed) × (c.cursor ≡ none) × (length c.rows.pairs ≡ 1)
unfolding program
malformed_test = (refl, refl, refl)

watches-IsPast_example :
    IsPast hundredths texts chain.cursor
      (watches hundredths texts 1 ((node [], 7) ∷ (refusing, 8) ∷ []) chain).cursor
watches-IsPast_example = watches-IsPast hundredths texts 1 ((node [], 7) ∷ (refusing, 8) ∷ []) chain

not_old : leb 2000 (start_of 1 2000 none) ≡ false
not_old = refl

watch_unread_example :
    watch hundredths texts true 1 (node (short_item ∷ [])) 7300 chain
    ≡ (watched 0, record chain { cursor = some 2000 })
watch_unread_example =
    watch_unread hundredths texts 1 (node (short_item ∷ [])) 7300 2000 chain refl
      (λ from to. (omega arith, tt)) not_old

abbrev pair_created : Parsed
pair_created = record {
  token0 = b'a' ∷ [];
  token1 = b'b' ∷ [];
  pair = b'c' ∷ [];
  block_number = 1990;
  log_index = 0;
  tx_hash = none;
}

-- The node of the other order.
abbrev other_node : Node
other_node = record (node []) {
  eth_call = λ address selector.
      if text_eq selector symbol_selector
      then call 1 address selector
      else if text_eq selector decimals_selector
      then call 1 address selector
      else answered (word 7 ++ word 50);
}

stable_test : is_stable hundredths texts pepe ≡ not (is_stable hundredths texts usdc)
stable_test = refl

reserves_test :
    (get_reserves (node []) pair_created.pair ≡ some (some (50, 7)))
    × (get_reserves other_node pair_created.pair ≡ some (some (7, 50)))
unfolding program
reserves_test = (refl, refl)

same_decimals : (a : Text) → token_decimals other_node a ≡ token_decimals (node []) a
unfolding program
same_decimals a = refl

with_symbols-swapped_example :
    with_symbols hundredths texts other_node
      (swapped hundredths texts pair_created)
      7200
      (some pepe)
      (some usdc)
      no_rows
    ≡ with_symbols hundredths texts (node []) pair_created 7200 (some usdc) (some pepe) no_rows
with_symbols-swapped_example =
    let (reserves, reserves') = reserves_test in
    with_symbols-swapped hundredths texts (node []) other_node pair_created 7200 50 7 usdc pepe
      no_rows refl refl stable_test reserves reserves' same_decimals
