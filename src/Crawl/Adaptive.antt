-- ===== src/Crawl/Adaptive.antt =====
-- What becomes of the reliability that a pass records.
use hype_coin_predictive_eng.Prelude.{
  subst⁻¹, ℕ, ◌≡◌, ◌≢◌, ◌⊎◌, inl, inr, refl, String, Bool, true, false, not, none, List, [], ◌∷◌,
  filter, Dict, lookup, insert, str_eq, str_ne, str_eq_refl, str_eq→≡, All, arith, Bool-cases,
  Option-cases, min,
}
use hype_coin_predictive_eng.Float.{Float}
use hype_coin_predictive_eng.Float.MinMax.{one_float}
use hype_coin_predictive_eng.Heuristics.Memory.{
  SourceReliability, is_stale, analyze_source_reliability, record_outcome,
  get_crawl_frequency_multiplier, prune,
}
use hype_coin_predictive_eng.Crawl.Fetch.{Digest}
use hype_coin_predictive_eng.Crawl.Fleet.{AllHandled, run_due_returns}
use hype_coin_predictive_eng.Crawl.Orchestrator.{
  aborts, after_loop, Visit, CrawlResult, Orchestrator, store_items, run_crawler, schedule, run_due,
  run_all,
}

-- The source's outcomes were recorded under the name, or none was.
abbrev IsIdle : String → String × SourceReliability → Type 0
IsIdle general e = (str_eq e.0 general ≡ true) ⊎ (e.1.last_actionable_at ≡ none)

abbrev IsNamed : String → String × SourceReliability → Type 0
IsNamed general e = str_eq e.0 general ≡ true

module _ (general : String) where
  insert-IsIdle :
      (name : String) (r : SourceReliability) (d : Dict SourceReliability)
      → r.last_actionable_at ≡ none
      → All (IsIdle general) d
      → All (IsIdle general) (insert name r d)
  unfolding insert
  insert-IsIdle name r [] e h = (inr e, tt)
  insert-IsIdle name r ((k, v) ∷ d) e h = elim (Bool-cases (str_eq k name)) [
    | inl same ↦ rw same (inr e, h.1)
    | inr other ↦ rw other (h.0, insert-IsIdle name r d e h.1)
  ]

  insert-IsNamed :
      (r : SourceReliability) (d : Dict SourceReliability)
      → All (IsNamed general) d
      → All (IsNamed general) (insert general r d)
  unfolding insert
  insert-IsNamed r [] h = (str_eq_refl general, tt)
  insert-IsNamed r ((k, v) ∷ d) h = rw (h.0) (str_eq_refl general, h.1)

  IsIdle-of_named : (d : Dict SourceReliability) → All (IsNamed general) d → All (IsIdle general) d
  IsIdle-of_named [] h = tt
  IsIdle-of_named (e ∷ d) h = (inl h.0, IsIdle-of_named d h.1)

  prune-IsNamed :
      (cutoff : ℕ) (d : Dict SourceReliability)
      → All (IsIdle general) d
      → All (IsNamed general) (filter (λ e. not (is_stale cutoff e.1.last_actionable_at)) d)
  prune-IsNamed cutoff [] h = tt
  prune-IsNamed cutoff (e ∷ d) h = elim (h.0) [
    | inl named ↦ elim (Bool-cases (is_stale cutoff e.1.last_actionable_at)) [
      | inl stale ↦ rw stale (prune-IsNamed cutoff d h.1)
      | inr fresh ↦ rw fresh (named, prune-IsNamed cutoff d h.1)
    ]
    | inr idle ↦ rw idle (prune-IsNamed cutoff d h.1)
  ]

  lookup_named :
      (name : String) (d : Dict SourceReliability)
      → general ≢ name
      → All (IsNamed general) d
      → lookup name d ≡ none
  unfolding lookup
  lookup_named name [] ne h = refl
  lookup_named name ((k, v) ∷ d) ne h =
      let same : k ≡ general = str_eq→≡ k general h.0 in
      let other : str_eq k name ≡ false = rw same (str_ne general name ne) in
      rw other (lookup_named name d ne h.1)

-- A pass over the crawlers, or an outcome that the pipeline records under the name `general`.
pub data Round (F : Type 0) : Type 0 where
  crawl : ℕ → ℕ → ℕ → Bool → (String → Visit F) → Bool → Round F
  outcome : Bool → ℕ → Round F

module _ (g : Digest) (f : Float) (general : String) where
  open f use {Carrier}

  abbrev step : Round Carrier → Orchestrator Carrier → Orchestrator Carrier
  step (crawl now ts cutoff force visit reported) o =
      (run_all g f now ts cutoff force visit reported o).1
  step (outcome lasted now) o = record o {
    heuristics = record_outcome f general lasted now o.heuristics;
  }

  -- The handler of a pass does not raise, so the pass comes to its pruning.
  abbrev pub IsComplete : Round Carrier → Type 0
  IsComplete (crawl now ts cutoff force visit reported) = AllHandled g f visit
  IsComplete (outcome lasted now) = Unit

  unfoldable pub rounds : List (Round Carrier) → Orchestrator Carrier → Orchestrator Carrier
  rounds [] o = o
  rounds (r ∷ rs) o = rounds rs (step r o)

  abbrev Idle : Orchestrator Carrier → Type 0
  Idle o = All (IsIdle general) o.heuristics.source_reliabilities

  abbrev pub Named : Orchestrator Carrier → Type 0
  Named o = All (IsNamed general) o.heuristics.source_reliabilities

  store_items-Idle :
      (name : String) (v : Visit Carrier) (n : ℕ) (o : Orchestrator Carrier)
      → Idle o
      → Idle (store_items g f name v n o).1
  unfolding store_items analyze_source_reliability
  store_items-Idle name v n o h =
      let kept =
        insert-IsIdle general name
          (record {
            total_dispatches = v.total_signals;
            actionable_dispatches = min v.actionable v.total_signals;
            last_actionable_at = none;
          })
          o.heuristics.source_reliabilities refl h in
      ground arith

  run_due-Idle :
      (ts : ℕ) (visit : String → Visit Carrier) (due : List String) (results : Dict CrawlResult)
      (o : Orchestrator Carrier)
      → Idle o
      → Idle (run_due g f ts visit due results o).1
  unfolding run_due run_crawler
  run_due-Idle ts visit [] results o h = h
  run_due-Idle ts visit (name ∷ due) results o h = elim (Option-cases (lookup name o.crawlers)) [
    | inl unknown ↦ rw (unknown, run_due) (run_due-Idle ts visit due results o h)
    | inr (c, known) ↦
        let here = store_items-Idle name (visit name) _ _ h in
        elim (Bool-cases (aborts g f (visit name))) [
          | inl stops ↦ rw (known, stops, run_due) here
          | inr goes ↦ rw (known, goes, run_due) (run_due-Idle ts visit due _ _ here)
        ]
  ]

  step-Named :
      (r : Round Carrier) (o : Orchestrator Carrier) → IsComplete r → Named o → Named (step r o)
  unfolding run_all prune record_outcome
  step-Named (crawl now ts cutoff force visit reported) o fine h =
      let due = (schedule g f now force o o.crawlers).0 in
      let skipped = (schedule g f now force o o.crawlers).1 in
      let o' = (run_due g f ts visit due skipped o).1 in
      subst⁻¹ (λ r. Named (after_loop g f cutoff r o'))
        (run_due_returns g f ts visit fine due skipped o)
        (prune-IsNamed general cutoff o'.heuristics.source_reliabilities (
          run_due-Idle ts visit due skipped o
            (IsIdle-of_named general o.heuristics.source_reliabilities h)))
  step-Named (outcome lasted now) o fine h =
      insert-IsNamed general _ o.heuristics.source_reliabilities h

  rounds-Named :
      (rs : List (Round Carrier)) (o : Orchestrator Carrier)
      → All IsComplete rs
      → Named o
      → Named (rounds rs o)
  unfolding rounds
  rounds-Named [] o fine h = h
  rounds-Named (r ∷ rs) o fine h = rounds-Named rs (step r o) fine.1 (step-Named r o fine.0 h)

  -- From an engine with no memory of other sources on, after any passes that no handler
  -- aborts and any outcomes that the pipeline records under its one source name, the frequency multiplier of every other source is 1: a
  -- pass forgets in the end whatever it recorded of its crawlers.
  pub rounds_multiplier :
      (rs : List (Round Carrier)) (o : Orchestrator Carrier) (name : String)
      → All IsComplete rs
      → Named o
      → general ≢ name
      → get_crawl_frequency_multiplier f name (rounds rs o).heuristics ≡ one_float f
  unfolding get_crawl_frequency_multiplier
  rounds_multiplier rs o name fine h ne =
      rw
        (
          lookup_named general name (rounds rs o).heuristics.source_reliabilities ne
              (rounds-Named rs o fine h),
          get_crawl_frequency_multiplier,
        )
        refl
