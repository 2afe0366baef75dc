-- ===== src/Mempool/Watch.antt =====
-- `SolanaMempoolWatcher` of mempool/solana.py for one asset. A text is the list of its code points. The
-- rows of other tables (the pool's creation, the venue's source) are arguments. Of the database's
-- refusals the model has that of a cursor that is too long for its column.
use hype_coin_predictive_eng.Prelude.{
  ℕ, ◌+◌, ◌-◌, String, Bool, true, false, not, leb, ◌&&◌, ◌||◌, Option, none, some, List, [], ◌∷◌,
  ◌++◌, ltb, ◌==◌, if◌then◌else◌, length, drop, filter, map,
}

abbrev pub Text : Type 0
Text = List ℕ

abbrev pub text_eq : Text → Text → Bool
text_eq [] [] = true
text_eq [] (d ∷ ds) = false
text_eq (c ∷ cs) [] = false
text_eq (c ∷ cs) (d ∷ ds) = c == d && text_eq cs ds

abbrev pub contains : Text → List Text → Bool
contains s [] = false
contains s (t ∷ ts) = text_eq s t || contains s ts

abbrev pub is_empty : Text → Bool
is_empty [] = true
is_empty (c ∷ cs) = false

-- An item of the RPC's answer: its signature, empty if there is none, and its time, if it has one.
pub record Signature : Type 0 where
  pub signature : Text
  pub block_time : Option ℕ

-- `",".join(texts)`
unfoldable pub join : List Text → Text
join [] = []
join (t ∷ []) = t
join (t ∷ u ∷ ts) = t ++ (b',' ∷ join (u ∷ ts))

abbrev pub push_first : ℕ → List Text → List Text
push_first c [] = (c ∷ []) ∷ []
push_first c (t ∷ ts) = (c ∷ t) ∷ ts

-- `text.split(",")`
unfoldable pub split : Text → List Text
split [] = [] ∷ []
split (c ∷ cs) = let rest = split cs in if c == b',' then [] ∷ rest else push_first c rest

-- `_watermark`: the signatures of the cursor, if there is one and it is not empty.
abbrev pub seen_of : Option Text → List Text
seen_of none = []
seen_of (some []) = []
seen_of (some (c ∷ cs)) = split (c ∷ cs)

abbrev pub ids_of : List Signature → List Text
ids_of signatures = filter (λ t. not (is_empty t)) (map (λ s. s.signature) signatures)

-- `ids[-20:]`
abbrev pub last_twenty : List Text → List Text
last_twenty ids = drop (length ids - 20) ids

-- `",".join(signature_ids[-20:])`
abbrev pub cursor_text : List Text → Text
cursor_text ids = join (last_twenty ids)

-- The width of the column `cursor_value`, where the database holds a text to it: 512 on PostgreSQL,
-- none on SQLite.
abbrev pub fits : Option ℕ → Text → Bool
fits none text = true
fits (some width) text = leb (length text) width

-- The cursor that is kept after `_set_watermark` and the flush that writes it. A text that does not fit
-- makes the flush raise, and the transaction with the write is rolled back.
abbrev pub write_cursor : Option ℕ → List Text → Option Text → Option Text
write_cursor width [] cursor = cursor
write_cursor width (id ∷ ids) cursor =
    if fits width (cursor_text (id ∷ ids)) then some (cursor_text (id ∷ ids)) else cursor

unfoldable pub set_watermark : Option ℕ → List Signature → Option Text → Option Text
unfolding join
set_watermark width signatures cursor = write_cursor width (ids_of signatures) cursor

-- Whether the flush raises.
abbrev pub is_refused : Option ℕ → List Text → Bool
is_refused width [] = false
is_refused width (id ∷ ids) = not (fits width (cursor_text (id ∷ ids)))

-- `_new_signatures`: the loop breaks at the first empty or seen signature.
unfoldable pub new_signatures : List Signature → List Text → List Text
new_signatures [] seen = []
new_signatures (s ∷ signatures) seen =
    let rest = new_signatures signatures seen in
    if is_empty s.signature || contains s.signature seen then [] else s.signature ∷ rest

-- An ignition event of the type `sniper_burst`, for one asset.
pub record BurstEvent : Type 0 where
  pub ts : ℕ
  pub source_id : ℕ

abbrev pub has_event : ℕ → ℕ → List BurstEvent → Bool
has_event ts source_id [] = false
has_event ts source_id (e ∷ events) =
    (e.ts == ts && e.source_id == source_id) || has_event ts source_id events

-- `upsert_event`: whether an event was added, and the events.
unfoldable pub upsert_event : ℕ → ℕ → List BurstEvent → Bool × List BurstEvent
upsert_event ts source_id events =
    if source_id == 0 || has_event ts source_id events
    then (false, events)
    else (true, events ++ (record { ts = ts; source_id = source_id } ∷ []))

pub record Settings : Type 0 where
  pub mempool_burst_min_txs : ℕ
  pub mempool_burst_window_seconds : ℕ

-- What stays the same between the polls of an asset: the creation of its pool, if it is known, and the
-- source of its evidence, 0 if there is none.
pub record Asset : Type 0 where
  pub pool_anchor : Option ℕ
  pub source_id : ℕ

abbrev pub is_timed : Signature → Bool
is_timed s = elim (s.block_time) [ none ↦ false | some t ↦ true ]

abbrev pub anchor_of : Option ℕ → ℕ → ℕ
anchor_of none observed_at = observed_at
anchor_of (some anchor) observed_at = anchor

-- `_detect_burst`
unfoldable pub detect_burst :
    Settings → Asset → List Signature → ℕ → List BurstEvent → Bool × List BurstEvent
unfolding upsert_event
detect_burst s a signatures observed_at events =
    let anchor = anchor_of a.pool_anchor observed_at in
    if ltb (length signatures) s.mempool_burst_min_txs
    then (false, events)
    else if ltb (anchor + s.mempool_burst_window_seconds) observed_at
    then (false, events)
    else if ltb (length (filter is_timed signatures)) s.mempool_burst_min_txs
    then (false, events)
    else upsert_event anchor a.source_id events

-- What the RPC answers.
pub data Answer : Type 0 where
  signatures : List Signature → Answer
  unreachable : String → Answer

pub record Watcher : Type 0 where
  pub cursor : Option Text
  pub events : List BurstEvent

pub data WatchResult : Type 0 where
  watched : ℕ → ℕ → Bool → WatchResult
  watch_error : String → WatchResult

-- The database: the width of the cursor's column, and the message of its refusal.
pub record Database : Type 0 where
  pub cursor_width : Option ℕ
  pub too_long : String

-- A burst is flushed by `upsert_event`, and with it the cursor: there a refusal is the poll's error.
-- Without a burst the cursor is flushed after the poll. Either way the transaction is rolled back.
unfoldable pub watch_asset :
    Settings → Database → Asset → Answer → ℕ → Watcher → WatchResult × Watcher
unfolding set_watermark new_signatures detect_burst split
watch_asset s db a (unreachable e) observed_at w = (watch_error e, w)
watch_asset s db a (signatures l) observed_at w =
    let (burst, events) = detect_burst s a l observed_at w.events in
    let new = length (new_signatures l (seen_of w.cursor)) in
    if is_refused db.cursor_width (ids_of l)
    then (if burst then watch_error db.too_long else watched (length l) new false, w)
    else (
      watched (length l) new burst,
      record { cursor = set_watermark db.cursor_width l w.cursor; events = events },
    )
