-- ===== src/Mempool/Tests.antt =====
-- Polls of a mint, and the theorems at concrete inputs.
use hype_coin_predictive_eng.Prelude.{
  ℕ, zero, suc, if◌then◌else◌, ◌≡◌, refl, true, false, none, some, List, [], ◌∷◌, map, arith,
}
use hype_coin_predictive_eng.Mempool.Watch.{
  Signature, join, split, seen_of, ids_of, last_twenty, set_watermark, new_signatures, upsert_event,
  cursor_text, fits, Settings, Database, Asset, detect_burst, signatures, unreachable, Watcher,
  watched, watch_error, watch_asset,
}
use hype_coin_predictive_eng.Mempool.Cursor.{seen_of-set_watermark}
use hype_coin_predictive_eng.Mempool.Burst.{watch_polls, bursts}

program : Unit {0}
unfolding join split set_watermark new_signatures upsert_event detect_burst watch_asset watch_polls
    bursts
program = tt

abbrev sig : ℕ → Signature
sig n = record { signature = n ∷ n ∷ []; block_time = some n }

abbrev poll : List Signature
poll =
    sig 65
    ∷ sig 66
    ∷ sig 67
    ∷ sig 68
    ∷ sig 69
    ∷ sig 70
    ∷ sig 71
    ∷ sig 72
    ∷ sig 73
    ∷ sig 74
    ∷ sig 75
    ∷ sig 76
    ∷ sig 77
    ∷ sig 78
    ∷ sig 79
    ∷ sig 80
    ∷ sig 81
    ∷ sig 82
    ∷ sig 83
    ∷ sig 84
    ∷ sig 85
    ∷ sig 86
    ∷ []

-- "AA,BB" is split into its parts, and an empty text has one empty part.
split_test :
    (split (65 ∷ 65 ∷ 44 ∷ 66 ∷ 66 ∷ []) ≡ (65 ∷ 65 ∷ []) ∷ (66 ∷ 66 ∷ []) ∷ [])
    × (split [] ≡ [] ∷ [])
unfolding program
split_test = (refl, refl)

seen_of-set_watermark_example : seen_of (set_watermark (some 512) poll none) ≡ (
    if fits (some 512) (cursor_text (ids_of poll)) then last_twenty (ids_of poll) else seen_of none)
seen_of-set_watermark_example =
    seen_of-set_watermark (some 512) poll none (ground arith) (omega arith)

abbrev repeat : ℕ → ℕ → List ℕ
repeat zero x = []
repeat (suc n) x = x ∷ repeat n x

abbrev long_sig : ℕ → Signature
long_sig n = record { signature = repeat 87 n; block_time = none }

abbrev long_poll : List Signature
long_poll = long_sig 65 ∷ long_sig 66 ∷ long_sig 67 ∷ long_sig 68 ∷ long_sig 69 ∷ long_sig 70 ∷ []

-- Six signatures of 87 characters leave the cursor as it was.
set_watermark_test : set_watermark (some 512) long_poll (some (65 ∷ [])) ≡ some (65 ∷ [])
unfolding program
set_watermark_test = refl

abbrev settings : Settings
settings = record { mempool_burst_min_txs = 3; mempool_burst_window_seconds = 60 }

abbrev asset : Asset
asset = record { pool_anchor = some 100; source_id = 7 }

abbrev watcher : Watcher
watcher = record { cursor = none; events = [] }

abbrev postgresql : Database
postgresql = record { cursor_width = some 512; too_long = "too long" }

abbrev sqlite : Database
sqlite = record { cursor_width = none; too_long = "" }

abbrev timed : Signature → Signature
timed s = record s { block_time = some 100 }

abbrev timed_poll : List Signature
timed_poll = map timed long_poll

-- The first poll in the window reports the burst, the second does not, and a failed poll changes nothing.
watch_polls_test :
    (watch_polls settings postgresql asset
      ((signatures poll, 110) ∷ (unreachable "timeout", 115) ∷ (signatures poll, 120) ∷ [])
      watcher).0
    ≡ watched 22 22 true ∷ watch_error "timeout" ∷ watched 22 2 false ∷ []
unfolding program
watch_polls_test = refl

-- On PostgreSQL a poll of six signatures of 87 characters in the window is an error, and its burst is not
-- kept; on SQLite it is a burst.
too_long_test :
    ((watch_asset settings postgresql asset (signatures timed_poll) 110 watcher)
      ≡ (watch_error "too long", watcher))
    × ((watch_asset settings sqlite asset (signatures timed_poll) 110 watcher).0 ≡ watched 6 6 true)
unfolding program
too_long_test = (refl, refl)
