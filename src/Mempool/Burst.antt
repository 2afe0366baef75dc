-- ===== src/Mempool/Burst.antt =====
-- A pool's sniper burst is reported once.
use hype_coin_predictive_eng.Prelude.{
  ℕ, ◌+◌, ◌≤◌, ◌<◌, ◌≡◌, true, false, none, some, List, [], ◌∷◌, ◌++◌, if◌then◌else◌, length,
  filter, arith,
}
use hype_coin_predictive_eng.Mempool.Watch.{
  Signature, BurstEvent, has_event, upsert_event, Settings, Database, Asset, is_timed, detect_burst,
  Answer, signatures, unreachable, Watcher, WatchResult, watched, watch_error, watch_asset,
}

module _ (s : Settings) (db : Database) where
  -- One poll after the other, at the given times.
  unfoldable pub watch_polls : Asset → List (Answer × ℕ) → Watcher → List WatchResult × Watcher
  watch_polls a [] w = ([], w)
  watch_polls a ((answer, now) ∷ polls) w =
      let (r, w') = watch_asset s db a answer now w in
      let (rs, last) = watch_polls a polls w' in (r ∷ rs, last)

  abbrev pub burst_of : WatchResult → ℕ
  burst_of (watched n new burst) = if burst then 1 else 0
  burst_of (watch_error e) = 0

  unfoldable pub bursts : List WatchResult → ℕ
  bursts [] = 0
  bursts (r ∷ rs) = burst_of r + bursts rs

  has_event-append :
      (ts source_id : ℕ) (events : List BurstEvent)
      → has_event ts source_id (events ++ (record { ts = ts; source_id = source_id } ∷ [])) ≡ true
  has_event-append ts source_id [] = ground arith
  has_event-append ts source_id (e ∷ events) = ground (arith, has_event-append ts source_id events)

  -- A burst is reported only if its event is missing, and then the event is there.
  detect_burst_once :
      (a : Asset) (anchor : ℕ) (l : List Signature) (now : ℕ) (events : List BurstEvent)
      → a.pool_anchor ≡ some anchor
      → let (burst, events') = detect_burst s a l now events in
        ((if burst then 1 else 0) + (if has_event anchor a.source_id events then 1 else 0)
          ≤ (if has_event anchor a.source_id events' then 1 else 0))
  unfolding detect_burst upsert_event
  detect_burst_once a anchor l now events e =
      ground (arith, has_event-append anchor a.source_id events)

  watch_polls_once :
      (a : Asset) (anchor : ℕ) (polls : List (Answer × ℕ)) (w : Watcher)
      → a.pool_anchor ≡ some anchor
      → bursts (watch_polls a polls w).0 + (if has_event anchor a.source_id w.events then 1 else 0)
        ≤ 1
  unfolding watch_polls bursts watch_asset
  watch_polls_once a anchor [] w e = ground arith
  watch_polls_once a anchor ((unreachable err, now) ∷ polls) w e =
      omega (arith, watch_polls_once a anchor polls w e)
  watch_polls_once a anchor ((signatures l, now) ∷ polls) w e =
      let rest = watch_polls_once a anchor polls (watch_asset s db a (signatures l) now w).1 e in
      let first = detect_burst_once a anchor l now w.events e in grind arith

  -- For an asset whose pool's creation is known, however often it is polled and whatever the RPC
  -- answers, at most one poll reports a burst.
  pub watch_polls_burst :
      (a : Asset) (anchor : ℕ) (polls : List (Answer × ℕ)) (w : Watcher)
      → a.pool_anchor ≡ some anchor
      → bursts (watch_polls a polls w).0 ≤ 1
  watch_polls_burst a anchor polls w e = omega (arith, watch_polls_once a anchor polls w e)

  -- For an asset without a known pool, every poll at a new time with enough timed signatures and a
  -- source reports a burst again.
  pub detect_burst_unanchored :
      (a : Asset) (l : List Signature) (now : ℕ) (events : List BurstEvent)
      → a.pool_anchor ≡ none
      → 0 < a.source_id
      → has_event now a.source_id events ≡ false
      → s.mempool_burst_min_txs ≤ length l
      → s.mempool_burst_min_txs ≤ length (filter is_timed l)
      → (detect_burst s a l now events).0 ≡ true
  unfolding detect_burst upsert_event
  detect_burst_unanchored a l now events e source new enough timed = ground arith
