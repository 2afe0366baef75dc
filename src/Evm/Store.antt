-- ===== src/Evm/Store.antt =====
-- `_store_pair`, with what it does to the pools, the pairs and their first snapshots in
-- storage/repository.py. An asset is its address; the rows of assets, contracts and evidence are left out.
use hype_coin_predictive_eng.Prelude.{
  ℕ, ◌*◌, ◌/◌, Bool, false, not, ◌&&◌, ◌||◌, Option, none, some, List, [], ◌∷◌, ◌++◌, ◌==◌,
  if◌then◌else◌,
}
use hype_coin_predictive_eng.Float.{Float}
use hype_coin_predictive_eng.Mempool.Watch.{Text, text_eq, contains, is_empty}
use hype_coin_predictive_eng.Evm.Node.{
  Node, Texts, Parsed, token_symbol, token_decimals, get_reserves, float_of, scaled,
}

-- The two sides of a pair, in their roles.
pub record Sides : Type 0 where
  pub base : Text
  pub quote : Text
  pub quote_symbol : Text

-- A pool keeps its first roles.
pub record Pool : Type 0 where
  pub address : Text
  pub base : Text
  pub quote : Text

pub record LiquiditySnapshot (F : Type 0) : Type 0 where
  pub pool : Text
  pub ts : ℕ
  pub reserve_usd : Option F
  pub reserve_base : Option F
  pub reserve_quote : Option F

-- A pair is named by its pool and its sides; `created` is a row of the market snapshots.
pub record Rows (F : Type 0) : Type 0 where
  pub pools : List Pool
  pub pairs : List Pool
  pub liquidity : List (LiquiditySnapshot F)
  pub market : List (Pool × ℕ)

-- How `_store_pair` ends.
pub data Ended : Type 0 where
  stored dropped failed : Ended

abbrev pub stable_symbols : List Text
stable_symbols =
    (b'U' ∷ b'S' ∷ b'D' ∷ b'C' ∷ [])
    ∷ (b'U' ∷ b'S' ∷ b'D' ∷ b'T' ∷ [])
    ∷ (b'D' ∷ b'A' ∷ b'I' ∷ [])
    ∷ []

abbrev pub has_pool : Text → List Pool → Bool
has_pool address [] = false
has_pool address (p ∷ l) = text_eq p.address address || has_pool address l

abbrev pub same_pool : Pool → Pool → Bool
same_pool a b = text_eq a.address b.address && (text_eq a.base b.base && text_eq a.quote b.quote)

abbrev pub has_pair : Pool → List Pool → Bool
has_pair p [] = false
has_pair p (q ∷ l) = same_pool q p || has_pair p l

abbrev pub has_market : Pool → ℕ → List (Pool × ℕ) → Bool
has_market p ts [] = false
has_market p ts ((q, u) ∷ l) = (same_pool q p && u == ts) || has_market p ts l

module _ (f : Float) (t : Texts) where
  open f use {Carrier}

  abbrev pub is_stable : Text → Bool
  is_stable symbol = contains (t.upper symbol) stable_symbols

  -- The stable side is the quote; if neither or both are, the order of the addresses stays.
  unfoldable pub orient : Text → Text → Text → Text → Sides
  orient token0 token1 symbol0 symbol1 =
      if is_stable symbol0 && not (is_stable symbol1)
      then record { base = token1; quote = token0; quote_symbol = symbol0 }
      else record { base = token0; quote = token1; quote_symbol = symbol1 }

  -- The reserves in their roles.
  abbrev pub base_of : Bool → ℕ × ℕ → ℕ
  base_of base_is_token0 (reserve0, reserve1) = if base_is_token0 then reserve0 else reserve1

  abbrev pub quote_of : Bool → ℕ × ℕ → ℕ
  quote_of base_is_token0 (reserve0, reserve1) = if base_is_token0 then reserve1 else reserve0

  -- `reserve_usd`; none is an exception.
  abbrev pub usd_scaled : Option ℕ → ℕ → Option (Option Carrier)
  usd_scaled none reserve = none
  usd_scaled (some decimals) reserve = elim (scaled f reserve decimals) [
    | none ↦ none
    | some usd ↦ some (some usd)
  ]

  unfoldable pub reserve_usd : Node → Sides → ℕ → Option (Option Carrier)
  unfolding token_decimals scaled
  reserve_usd n s reserve_quote =
      if is_stable s.quote_symbol
      then usd_scaled (token_decimals n s.quote) reserve_quote
      else some none

  abbrev pub has_liquidity : Text → ℕ → List (LiquiditySnapshot Carrier) → Bool
  has_liquidity pool ts [] = false
  has_liquidity pool ts (l ∷ ls) = (text_eq l.pool pool && l.ts == ts) || has_liquidity pool ts ls

  -- `upsert_pool_and_pair`
  unfoldable pub upsert_pool_and_pair : Pool → Rows Carrier → Rows Carrier
  upsert_pool_and_pair p x = record x {
    pools = if has_pool p.address x.pools then x.pools else x.pools ++ (p ∷ []);
    pairs = if has_pair p x.pairs then x.pairs else x.pairs ++ (p ∷ []);
  }

  -- `insert_liquidity_snapshot_once` and `insert_market_snapshot_once`, of this source.
  unfoldable pub insert_snapshots : Pool → LiquiditySnapshot Carrier → Rows Carrier → Rows Carrier
  insert_snapshots p l x = record x {
    liquidity =
        if has_liquidity p.address l.ts x.liquidity then x.liquidity else x.liquidity ++ (l ∷ []);
    market = if has_market p l.ts x.market then x.market else x.market ++ ((p, l.ts) ∷ []);
  }

  abbrev pub liquidity_of :
      Text → ℕ → Option Carrier → Option Carrier → Option Carrier → LiquiditySnapshot Carrier
  liquidity_of pool ts usd base quote = record {
    pool = pool;
    ts = ts;
    reserve_usd = usd;
    reserve_base = base;
    reserve_quote = quote;
  }

  abbrev pub with_usd :
      Pool → ℕ → ℕ → ℕ → Option (Option Carrier) → Rows Carrier → Ended × Rows Carrier
  with_usd p ts base quote none x = (failed, x)
  with_usd p ts base quote (some usd) x = (
    stored,
    insert_snapshots p
        (liquidity_of p.address ts usd (some (float_of f base)) (some (float_of f quote))) x,
  )

  -- What follows the pool: the reserves, the snapshots.
  unfoldable pub with_reserves :
      Node
      → Parsed
      → Sides
      → Pool
      → ℕ
      → Option (Option (ℕ × ℕ))
      → Rows Carrier
      → Ended × Rows Carrier
  unfolding insert_snapshots reserve_usd
  with_reserves n q s p ts none x = (failed, x)
  with_reserves n q s p ts (some none) x =
      (stored, insert_snapshots p (liquidity_of p.address ts none none none) x)
  with_reserves n q s p ts (some (some reserves)) x =
      let base_is_token0 = text_eq s.base q.token0 in
      let quote = quote_of base_is_token0 reserves in
      with_usd p ts (base_of base_is_token0 reserves) quote (reserve_usd n s quote) x

  unfoldable pub with_symbols :
      Node → Parsed → ℕ → Option Text → Option Text → Rows Carrier → Ended × Rows Carrier
  unfolding orient upsert_pool_and_pair with_reserves get_reserves
  with_symbols n q ts none symbol1 x = (failed, x)
  with_symbols n q ts (some symbol0) none x = (failed, x)
  with_symbols n q ts (some symbol0) (some symbol1) x =
      let s = orient q.token0 q.token1 symbol0 symbol1 in
      let p : Pool = record { address = q.pair; base = s.base; quote = s.quote } in
      with_reserves n q s p ts (get_reserves n q.pair) (upsert_pool_and_pair p x)

  -- `_store_pair`, where `known` is whether the chain has a row; `ts` is the hour of the decision.
  unfoldable pub store_pair : Bool → Node → Parsed → ℕ → Rows Carrier → Ended × Rows Carrier
  unfolding with_symbols token_symbol
  store_pair known n q decision x =
      if not known
      then (dropped, x)
      else if is_empty q.token0 || (is_empty q.token1 || is_empty q.pair)
      then (dropped, x)
      else with_symbols n q (decision / 3600 * 3600) (token_symbol t n q.token0)
          (token_symbol t n q.token1) x
