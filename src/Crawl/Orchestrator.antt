-- ===== src/Crawl/Orchestrator.antt =====
-- `NightCrawlerOrchestrator.run_all` of crawlers/orchestrator.py and the frequency it adapts. Each
-- crawler's meeting with its source and with the database is an argument; the counts that the analysis
-- of a source reads are part of it.
use hype_coin_predictive_eng.Prelude.{
  ℕ, ◌+◌, ◌-◌, ◌*◌, String, Bool, true, false, not, ◌&&◌, Option, none, some, List, [], ◌∷◌,
  if◌then◌else◌, length, Dict, lookup, insert,
}
use hype_coin_predictive_eng.Prelude.Int.{pos}
use hype_coin_predictive_eng.Float.{Float}
use hype_coin_predictive_eng.Float.MinMax.{max_float}
use hype_coin_predictive_eng.Heuristics.Memory.{
  HeuristicsEngine, analyze_source_reliability, get_crawl_frequency_multiplier, prune,
}
use hype_coin_predictive_eng.Crawl.Fetch.{Meeting, Crawler, Digest, fetch}

-- No storage call raised; one raised before the source was analysed, or after it.
pub data Storage : Type 0 where
  stored : Storage
  raised_before : String → Storage
  raised_after : String → Storage

-- `handled` is whether the handler's own health row can be recorded, which it writes through the same
-- session where no write queue runs.
pub record Visit (F : Type 0) : Type 0 where
  pub meeting : Meeting F
  pub storage : Storage
  pub handled : Bool
  pub total_signals : ℕ
  pub actionable : ℕ

-- An entry of `results`.
pub data CrawlResult : Type 0 where
  not_due : CrawlResult
  collected : ℕ → CrawlResult
  crashed : String → CrawlResult

pub record Orchestrator (F : Type 0) : Type 0 where
  pub interval_minutes : ℕ
  pub crawlers : Dict (Crawler F)
  pub last_run : Dict ℕ
  pub heuristics : HeuristicsEngine F

module _ (g : Digest) (f : Float) where
  open f use {Carrier, cents}

  -- Times in seconds. `base_interval / max(0.25, multiplier)`
  abbrev pub adapted_interval : ℕ → Carrier → Carrier
  adapted_interval minutes multiplier =
      f.div (cents (pos (minutes * 60 * 100))) (max_float f (cents (pos 25)) multiplier)

  unfoldable pub should_run : ℕ → Bool → String → Orchestrator Carrier → Bool
  should_run now force name o = if force then true else elim (lookup name o.last_run) [
    | none ↦ true
    | some last ↦
        f.leb
          (adapted_interval o.interval_minutes (get_crawl_frequency_multiplier f name o.heuristics))
          (cents (pos ((now - last) * 100)))
  ]

  -- The names that are due, and the entries of those that are not, in the order of the crawlers.
  unfoldable pub schedule :
      ℕ → Bool → Orchestrator Carrier → Dict (Crawler Carrier) → List String × Dict CrawlResult
  unfolding should_run
  schedule now force o [] = ([], [])
  schedule now force o ((name, c) ∷ rest) =
      let (due, results) = schedule now force o rest in
      if should_run now force name o
      then (name ∷ due, results)
      else (due, (name, not_due) ∷ results)

  abbrev pub analyse : String → Visit Carrier → Orchestrator Carrier → Orchestrator Carrier
  analyse name v o = record o {
    heuristics = analyze_source_reliability f name v.total_signals v.actionable o.heuristics;
  }

  -- What follows a crawler's fetch inside its `try`, and the entry that the handler makes before it
  -- records the failure.
  unfoldable pub store_items :
      String → Visit Carrier → ℕ → Orchestrator Carrier → CrawlResult × Orchestrator Carrier
  store_items name v n o = elim (v.storage) [
    | stored ↦ (collected n, analyse name v o)
    | raised_before e ↦ (crashed e, o)
    | raised_after e ↦ (crashed e, analyse name v o)
  ]

  -- One turn of the loop over the crawlers that are due.
  unfoldable pub run_crawler :
      ℕ
      → Visit Carrier
      → String
      → Crawler Carrier
      → Orchestrator Carrier
      → CrawlResult × Orchestrator Carrier
  unfolding store_items
  run_crawler decision_ts v name c o =
      let (items, c') = fetch g f v.meeting c in
      store_items name v (length items) (record o {
        crawlers = insert name c' o.crawlers;
        last_run = insert name decision_ts o.last_run;
      })

  abbrev pub is_stored : Storage → Bool
  is_stored stored = true
  is_stored (raised_before e) = false
  is_stored (raised_after e) = false

  -- The handler raises, and the exception leaves the pass.
  abbrev pub aborts : Visit Carrier → Bool
  aborts v = not (is_stored v.storage) && not v.handled

  -- The loop, with no results if it raises; a name that is due belongs to a crawler.
  unfoldable pub run_due :
      ℕ
      → (String → Visit Carrier)
      → List String
      → Dict CrawlResult
      → Orchestrator Carrier
      → Option (Dict CrawlResult) × Orchestrator Carrier
  unfolding run_crawler
  run_due decision_ts visit [] results o = (some results, o)
  run_due decision_ts visit (name ∷ due) results o = elim (lookup name o.crawlers) [
    | none ↦ run_due decision_ts visit due results o
    | some c ↦
        let (r, o') = run_crawler decision_ts (visit name) name c o in
        let rest = run_due decision_ts visit due (insert name r results) o' in
        if aborts (visit name) then (none, o') else rest
  ]

  abbrev pub items_of : CrawlResult → ℕ
  items_of not_due = 0
  items_of (collected n) = n
  items_of (crashed e) = 0

  abbrev pub ok_of : CrawlResult → ℕ
  ok_of not_due = 0
  ok_of (collected n) = 1
  ok_of (crashed e) = 0

  abbrev pub total : (CrawlResult → ℕ) → Dict CrawlResult → ℕ
  total count [] = 0
  total count ((name, r) ∷ results) = count r + total count results

  pub record Pass : Type 0 where
    pub results : Dict CrawlResult
    pub crawlers_run : ℕ
    pub total_items : ℕ

  abbrev pub pass_of : Dict CrawlResult → Pass
  pass_of results = record {
    results = results;
    crawlers_run = total ok_of results;
    total_items = total items_of results;
  }

  -- The end of a pass, which the loop reaches if it does not raise.
  abbrev pub report : Bool → Option (Dict CrawlResult) → Option Pass
  report reported none = none
  report reported (some results) = if reported then some (pass_of results) else none

  abbrev pub after_loop :
      ℕ → Option (Dict CrawlResult) → Orchestrator Carrier → Orchestrator Carrier
  after_loop cutoff none o = o
  after_loop cutoff (some results) o = record o { heuristics = (prune f cutoff o.heuristics).1 }

  -- `run_all`, at the time `now`, with the cutoff of the pruning, and whether its last health row can be
  -- recorded; none if it raises. `decision_ts` is `now` unless it is given.
  unfoldable pub run_all :
      ℕ
      → ℕ
      → ℕ
      → Bool
      → (String → Visit Carrier)
      → Bool
      → Orchestrator Carrier
      → Option Pass × Orchestrator Carrier
  unfolding run_due schedule
  run_all now decision_ts cutoff force visit reported o =
      let (due, skipped) = schedule now force o o.crawlers in
      let (results, o') = run_due decision_ts visit due skipped o in
      (report reported results, after_loop cutoff results o')
