-- ===== src/Evm/Node.antt =====
-- The calls of `EVMFactoryWatcher` to its node, and what it reads of their answers. Bytes and texts are
-- lists of numbers; an exception that leaves a method is none.
use hype_coin_predictive_eng.Prelude.{
  ℕ, zero, suc, ◌+◌, ◌-◌, ◌*◌, Option, none, some, List, [], ◌∷◌, ltb, if◌then◌else◌, length, drop,
  take,
}
use hype_coin_predictive_eng.Prelude.Int.{pos}
use hype_coin_predictive_eng.Float.{Float}
use hype_coin_predictive_eng.Mempool.Watch.{Text, is_empty}

abbrev pub Bytes : Type 0
Bytes = List ℕ

-- How a call ends: with a result, with a reply that has none, or with an exception.
pub data Call (A : Type 0) : Type 0 where
  answered : A → Call A
  no_result : Call A
  raised : Call A

-- A number that a log has as a hexadecimal text: none, one that `int(..., 16)` reads, or one on which it
-- raises.
pub data Hex : Type 0 where
  absent : Hex
  hex : ℕ → Hex
  malformed : Hex

pub record Log : Type 0 where
  pub topics : List Text
  pub block_number : Hex
  pub log_index : Hex
  pub tx_hash : Option Text

-- The node; an answer of `eth_call` has at least 32 bytes.
pub record Node : Type 0 where
  pub eth_block_number : Call ℕ
  pub eth_get_logs : ℕ → ℕ → Call (List Log)
  pub eth_call : Text → Text → Call Bytes

-- Python's text methods, and `decode` with its errors ignored.
pub record Texts : Type 0 where
  pub lower : Text → Text
  pub upper : Text → Text
  pub decode : Bytes → Text

pub record Parsed : Type 0 where
  pub token0 : Text
  pub token1 : Text
  pub pair : Text
  pub block_number : ℕ
  pub log_index : ℕ
  pub tx_hash : Option Text

-- How `_parse_log` ends: with None, with the log, or with an exception.
pub data Reading : Type 0 where
  skipped : Reading
  parsed : Parsed → Reading
  unreadable : Reading

-- `int(str(value or "0x0"), 16)`
abbrev pub or_zero : Hex → Option ℕ
or_zero absent = some 0
or_zero (hex n) = some n
or_zero malformed = none

abbrev pub parsed_of : Option ℕ → Option ℕ → (ℕ → ℕ → Parsed) → Reading
parsed_of none index read = unreadable
parsed_of (some block) none read = unreadable
parsed_of (some block) (some index) read = parsed (read block index)

-- `int.from_bytes(raw, "big")`
abbrev pub from_bytes : ℕ → Bytes → ℕ
from_bytes n [] = n
from_bytes n (b ∷ bs) = from_bytes (256 * n + b) bs

-- `raw[start:start + size]`
abbrev pub slice : ℕ → ℕ → Bytes → Bytes
slice start size raw = take size (drop start raw)

-- "0x95d89b41", "0x313ce567" and "0x0902f1ac"
abbrev pub symbol_selector : Text
symbol_selector = b'0' ∷ b'x' ∷ b'9' ∷ b'5' ∷ b'd' ∷ b'8' ∷ b'9' ∷ b'b' ∷ b'4' ∷ b'1' ∷ []

abbrev pub decimals_selector : Text
decimals_selector = b'0' ∷ b'x' ∷ b'3' ∷ b'1' ∷ b'3' ∷ b'c' ∷ b'e' ∷ b'5' ∷ b'6' ∷ b'7' ∷ []

abbrev pub reserves_selector : Text
reserves_selector = b'0' ∷ b'x' ∷ b'0' ∷ b'9' ∷ b'0' ∷ b'2' ∷ b'f' ∷ b'1' ∷ b'a' ∷ b'c' ∷ []

module _ (t : Texts) where
  -- `_topic_address`: "0x" and the last 40 characters.
  abbrev pub topic_address : Text → Text
  topic_address topic = b'0' ∷ b'x' ∷ t.lower (drop (length topic - 40) topic)

  -- `_parse_log`: a log of fewer than four topics is dropped, before its numbers are read.
  unfoldable pub parse_topics : Log → List Text → Reading
  parse_topics item (name ∷ first ∷ second ∷ third ∷ more) =
      parsed_of (or_zero item.block_number) (or_zero item.log_index) (λ block index. record {
        token0 = topic_address first;
        token1 = topic_address second;
        pair = topic_address third;
        block_number = block;
        log_index = index;
        tx_hash = item.tx_hash;
      })
  parse_topics item _ = skipped

  abbrev pub parse_log : Log → Reading
  parse_log item = parse_topics item item.topics

  abbrev pub symbol_in : Bytes → Text
  symbol_in raw =
      let offset = from_bytes 0 (slice 0 32 raw) in
      let size = from_bytes 0 (slice offset 32 raw) in t.decode (slice (offset + 32) size raw)

  abbrev pub known_symbol : Text → Text
  known_symbol symbol =
      if is_empty symbol then b'U' ∷ b'N' ∷ b'K' ∷ b'N' ∷ b'O' ∷ b'W' ∷ b'N' ∷ [] else symbol

  -- `_token_symbol(address) or "UNKNOWN"`.
  abbrev pub symbol_of : Call Bytes → Option Text
  symbol_of raised = none
  symbol_of no_result = some (known_symbol [])
  symbol_of (answered raw) = some (known_symbol (symbol_in raw))

  unfoldable pub token_symbol : Node → Text → Option Text
  token_symbol n address = symbol_of (n.eth_call address symbol_selector)

-- `_token_decimals`
abbrev pub decimals_of : Call Bytes → Option ℕ
decimals_of raised = none
decimals_of no_result = some 18
decimals_of (answered raw) = some (from_bytes 0 (drop (length raw - 32) raw))

unfoldable pub token_decimals : Node → Text → Option ℕ
token_decimals n address = decimals_of (n.eth_call address decimals_selector)

-- `_get_reserves`: both reserves, or neither.
abbrev pub reserves_of : Call Bytes → Option (Option (ℕ × ℕ))
reserves_of raised = none
reserves_of no_result = some none
reserves_of (answered raw) =
    if ltb (length raw) 64
    then some none
    else some (some (from_bytes 0 (slice 0 32 raw), from_bytes 0 (slice 32 32 raw)))

unfoldable pub get_reserves : Node → Text → Option (Option (ℕ × ℕ))
get_reserves n pair = reserves_of (n.eth_call pair reserves_selector)

module _ (f : Float) where
  open f use {Carrier, cents}

  abbrev pub float_of : ℕ → Carrier
  float_of n = cents (pos (100 * n))

  abbrev pub power_of_ten : ℕ → Carrier
  power_of_ten zero = float_of 1
  power_of_ten (suc n) = f.mul (float_of 10) (power_of_ten n)

  -- `reserve / (10.0**decimals)`, where the power raises above 10 ** 308.
  unfoldable pub scaled : ℕ → ℕ → Option Carrier
  scaled reserve decimals =
      if ltb 308 decimals then none else some (f.div (float_of reserve) (power_of_ten decimals))
