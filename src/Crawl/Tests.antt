-- ===== src/Crawl/Tests.antt =====
-- Two crawlers in hundredths, and the theorems at concrete inputs.
use hype_coin_predictive_eng.Prelude.{
  ℕ, ◌≡◌, ◌≢◌, refl, String, true, false, none, some, inl, inr, Bool-cases, List, [], ◌∷◌,
  if◌then◌else◌, lookup, insert, mem, All, arith, str_eq,
}
use hype_coin_predictive_eng.Prelude.Int.{ℤ, pos, ◌+ℤ◌, ◌-ℤ◌}
use hype_coin_predictive_eng.Float.{hundredths}
use hype_coin_predictive_eng.Heuristics.Memory.{
  analyze_source_reliability, record_outcome, get_crawl_frequency_multiplier, prune,
}
use hype_coin_predictive_eng.Crawl.Health.{
  new_health, record_success, record_empty_run, record_error,
}
use hype_coin_predictive_eng.Crawl.Fetch.{
  CrawlItem, fetched, failed, Meeting, Crawler, Digest, item_hash, deduplicate_loop, deduplicate,
  succeed, give_up, fetch_loop, fetch,
}
use hype_coin_predictive_eng.Crawl.Latch.{fetches, Fails, fetches_latched}
use hype_coin_predictive_eng.Crawl.Sound.{IsSound, new_health-IsSound, fetches-IsSound}
use hype_coin_predictive_eng.Crawl.Orchestrator.{
  Pass, stored, raised_before, Visit, not_due, collected, crashed, Orchestrator, should_run,
  schedule, store_items, run_crawler, run_due, run_all,
}
use hype_coin_predictive_eng.Crawl.Adaptive.{rounds}
use hype_coin_predictive_eng.Crawl.Fleet.{IsUnique, AllHandled, outcome_of, run_all_isolated}

program : Unit {0}
unfolding ◌+ℤ◌ ◌-ℤ◌ lookup insert mem analyze_source_reliability record_outcome
    get_crawl_frequency_multiplier prune record_success record_empty_run record_error item_hash
    deduplicate_loop deduplicate succeed give_up fetch_loop fetch fetches should_run schedule
    store_items run_crawler run_due run_all rounds
program = tt

-- The digest of a text is its "x", or nothing for the empty text.
abbrev first : List ℕ → String
first [] = ""
first (c ∷ cs) = "x"

abbrev digest : Digest
digest = record { digest = first; newest = λ seen. seen }

abbrev coin : CrawlItem
coin = record { title = 65 ∷ []; url = []; text = 66 ∷ [] }

abbrev up : Meeting ℤ
up = record { attempt = λ i. fetched (coin ∷ coin ∷ []); now = 10; duration_ms = pos 500 }

abbrev down : Meeting ℤ
down = record { attempt = λ i. failed "timeout"; now = 20; duration_ms = pos 500 }

abbrev fresh : Crawler ℤ
fresh = record { max_retries = 2; health = new_health hundredths; seen_hashes = [] }

-- The second of two equal items is dropped, and the reliability after one error of two runs is 0.5.
fetches_test :
    let r = fetches digest hundredths (up ∷ down ∷ []) fresh in
    (r.0 ≡ (coin ∷ []) ∷ [] ∷ []) × (r.1.health.reliability_score ≡ pos 50)
unfolding program
fetches_test = (refl, refl)

abbrev outage : List (Meeting ℤ)
outage = down ∷ down ∷ down ∷ down ∷ down ∷ []

down-Fails : Fails digest hundredths down
down-Fails i = ("timeout", refl)

fetches_latched_example :
    let c' = (fetches digest hundredths outage fresh).1 in
    ((fetches digest hundredths (up ∷ up ∷ []) c').1 ≡ c')
    × All (λ items. items ≡ []) (fetches digest hundredths (up ∷ up ∷ []) c').0
fetches_latched_example =
    fetches_latched digest hundredths outage (up ∷ up ∷ []) fresh
      (down-Fails, (down-Fails, (down-Fails, (down-Fails, (down-Fails, tt))))) (omega arith)

fetches-IsSound_example :
    IsSound hundredths (fetches digest hundredths (up ∷ down ∷ up ∷ []) fresh).1.health
fetches-IsSound_example =
    fetches-IsSound hundredths digest (up ∷ down ∷ up ∷ []) fresh (new_health-IsSound hundredths)

abbrev fleet : Orchestrator ℤ
fleet = record {
  interval_minutes = 30;
  crawlers = ("presale", fresh) ∷ ("explorer", fresh) ∷ [];
  last_run = [];
  heuristics = record { source_reliabilities = []; pattern_memory = [] };
}

-- The presale crawler's database call raises; the explorer's visit goes well.
abbrev visit : String → Visit ℤ
visit name = record {
  meeting = up;
  storage = if str_eq name "presale" then raised_before "locked" else stored;
  handled = true;
  total_signals = 4;
  actionable = 3;
}

fleet-IsUnique : IsUnique fleet.crawlers
unfolding program
fleet-IsUnique = (refl, (refl, tt))

run_all_test :
    (run_all digest hundredths 100 100 0 false visit true fleet).0
    ≡ some (record {
      results = ("presale", crashed "locked") ∷ ("explorer", collected 1) ∷ [];
      crawlers_run = 1;
      total_items = 1;
    })
unfolding program
run_all_test = refl

-- Where the handler's health row cannot be recorded either, the pass raises, and the explorer is not run.
abbrev unhandled : String → Visit ℤ
unhandled name = record (visit name) { handled = false }

aborted_test :
    ((run_all digest hundredths 100 100 0 false unhandled true fleet).0 ≡ none)
    × (lookup "explorer" (run_all digest hundredths 100 100 0 false unhandled true fleet).1.last_run
        ≡ none)
unfolding program
aborted_test = (refl, refl)

visit_handled : AllHandled digest hundredths visit
visit_handled name = elim (Bool-cases (str_eq name "presale")) [
  | inl presale ↦ rw presale refl
  | inr other ↦ rw other refl
]

explorer_known : lookup "explorer" fleet.crawlers ≡ some fresh
unfolding program
explorer_known = refl

run_all_isolated_example :
    (pass : Pass digest hundredths) × (((run_all digest hundredths 100 100 0 false visit true
          fleet).0
        ≡ some pass)
      × (lookup "explorer" pass.results
          ≡ some (
              if should_run digest hundredths 100 false "explorer" fleet
              then outcome_of digest hundredths (visit "explorer") fresh
              else not_due)))
run_all_isolated_example =
    run_all_isolated digest hundredths 100 100 0 false visit fleet "explorer" fresh visit_handled
      fleet-IsUnique explorer_known

general_ne : ◌≢◌ {A = String} "general" "explorer"
general_ne h = cc
