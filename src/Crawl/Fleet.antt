-- ===== src/Crawl/Fleet.antt =====
-- A crawler's entry in a pass that returns depends on that crawler alone.
use hype_coin_predictive_eng.Prelude.{
  ℕ, ◌≡◌, inl, inr, refl, String, Bool, true, false, Option, none, some, List, [], ◌∷◌,
  if◌then◌else◌, length, Dict, lookup, insert, lookup-insert, lookup-insert_self, ap, subst⁻¹, mem,
  str_eq, str_eq_refl, str_eq→≡, arith, Bool-cases, Option-cases, ◌∙◌,
}
use hype_coin_predictive_eng.Float.{Float}
use hype_coin_predictive_eng.Crawl.Fetch.{Crawler, Digest, fetch}
use hype_coin_predictive_eng.Crawl.Orchestrator.{
  stored, raised_before, raised_after, Visit, CrawlResult, not_due, collected, crashed,
  Orchestrator, should_run, schedule, store_items, run_crawler, run_due, run_all, aborts, report,
  Pass, pass_of,
}

-- A dictionary has no key twice.
abbrev pub IsUnique : {V : Type 0} → Dict V → Type 0
IsUnique [] = Unit
IsUnique ((k, v) ∷ d) = (lookup k d ≡ none) × IsUnique d

abbrev AllDistinct : List String → Type 0
AllDistinct [] = Unit
AllDistinct (k ∷ ks) = (mem k ks ≡ false) × AllDistinct ks

module _ (g : Digest) (f : Float) where
  open f use {Carrier}

  -- What a crawler's own visit comes to.
  abbrev pub outcome_of : Visit Carrier → Crawler Carrier → CrawlResult
  outcome_of v c = elim (v.storage) [
    | stored ↦ collected (length (fetch g f v.meeting c).0)
    | raised_before e ↦ crashed e
    | raised_after e ↦ crashed e
  ]

  run_crawler_result :
      (ts : ℕ) (v : Visit Carrier) (name : String) (c : Crawler Carrier) (o : Orchestrator Carrier)
      → let (r, o') = run_crawler g f ts v name c o in
        (r ≡ outcome_of v c) × (o'.crawlers ≡ insert name (fetch g f v.meeting c).1 o.crawlers)
  unfolding run_crawler store_items
  run_crawler_result ts v name c o = ground arith

  -- The failure of each crawler that failed could be recorded.
  abbrev pub AllHandled : (String → Visit Carrier) → Type 0
  AllHandled visit = (k : String) → aborts g f (visit k) ≡ false

  abbrev pub results_of : Option (Dict CrawlResult) → Dict CrawlResult
  results_of none = []
  results_of (some results) = results

  module _ (ts : ℕ) (visit : String → Visit Carrier) (fine : AllHandled visit) where
    -- Then the loop returns.
    pub run_due_returns :
        (due : List String) (results : Dict CrawlResult) (o : Orchestrator Carrier)
        → (run_due g f ts visit due results o).0
          ≡ some (results_of (run_due g f ts visit due results o).0)
    unfolding run_due
    run_due_returns [] results o = refl
    run_due_returns (k ∷ due) results o = elim (Option-cases (lookup k o.crawlers)) [
      | inl unknown ↦ rw (unknown, run_due) (run_due_returns due results o)
      | inr (c, known) ↦
          let r = (run_crawler g f ts (visit k) k c o).0 in
          let o' = (run_crawler g f ts (visit k) k c o).1 in
          rw (known, fine k, run_due) (run_due_returns due (insert k r results) o')
    ]

    -- A name that is not in the list keeps its entry.
    run_due_other :
        (name : String) (due : List String) (results : Dict CrawlResult) (o : Orchestrator Carrier)
        → mem name due ≡ false
        → lookup name (results_of (run_due g f ts visit due results o).0) ≡ lookup name results
    unfolding run_due mem
    run_due_other name [] results o h = refl
    run_due_other name (k ∷ due) results o h = elim (Option-cases (lookup k o.crawlers)) [
      | inl unknown ↦ rw (unknown, run_due) (run_due_other name due results o (ground arith))
      | inr (c, known) ↦
          let r = (run_crawler g f ts (visit k) k c o).0 in
          let o' = (run_crawler g f ts (visit k) k c o).1 in
          rw (known, fine k, run_due)
            (run_due_other name due (insert k r results) o' (ground arith)
              ∙ ground (arith, lookup-insert k name r results))
    ]

    run_due_here :
        (name : String) (c : Crawler Carrier) (due : List String) (results : Dict CrawlResult)
        (o : Orchestrator Carrier)
        → lookup name o.crawlers ≡ some c
        → mem name due ≡ false
        → lookup name (results_of (run_due g f ts visit (name ∷ due) results o).0)
          ≡ some (outcome_of (visit name) c)
    unfolding run_due
    run_due_here name c due results o known later =
        let r = (run_crawler g f ts (visit name) name c o).0 in
        let o' = (run_crawler g f ts (visit name) name c o).1 in
        rw (known, fine name, run_due)
          (run_due_other name due (insert name r results) o' later
            ∙ lookup-insert_self name r results
            ∙ ap some (run_crawler_result ts (visit name) name c o).0)

    run_due_own :
        (name : String) (c : Crawler Carrier) (due : List String) (results : Dict CrawlResult)
        (o : Orchestrator Carrier)
        → AllDistinct due
        → mem name due ≡ true
        → lookup name o.crawlers ≡ some c
        → lookup name (results_of (run_due g f ts visit due results o).0)
          ≡ some (outcome_of (visit name) c)
    unfolding run_due mem
    run_due_own name c [] results o d m known = cc
    run_due_own name c (k ∷ due) results o d m known = elim (Bool-cases (str_eq k name)) [
      | inl same ↦
          subst⁻¹
            (λ j.
              mem j due ≡ false
              → lookup name (results_of (run_due g f ts visit (j ∷ due) results o).0)
                ≡ some (outcome_of (visit name) c))
            (str_eq→≡ k name same) (run_due_here name c due results o known) d.0
      | inr other ↦ elim (Option-cases (lookup k o.crawlers)) [
        | inl unknown ↦
            rw (unknown, run_due) (run_due_own name c due results o d.1 (ground arith) known)
        | inr (c', found) ↦
            let r = (run_crawler g f ts (visit k) k c' o).0 in
            let o' = (run_crawler g f ts (visit k) k c' o).1 in
            let kept : lookup name o'.crawlers ≡ some c =
              rw ((run_crawler_result ts (visit k) k c' o).1) (
                ground
                  (arith, lookup-insert k name (fetch g f (visit k).meeting c').1 o.crawlers)) in
            rw (found, fine k, run_due)
              (run_due_own name c due (insert k r results) o' d.1 (ground arith) kept)
      ]
    ]

  module _ (now : ℕ) (force : Bool) (o : Orchestrator Carrier) where
    schedule_other :
        (name : String) (crawlers : Dict (Crawler Carrier))
        → lookup name crawlers ≡ none
        → (mem name (schedule g f now force o crawlers).0 ≡ false)
          × (lookup name (schedule g f now force o crawlers).1 ≡ none)
    unfolding schedule mem lookup
    schedule_other name [] h = (refl, refl)
    schedule_other name ((k, c) ∷ rest) h = ground (arith, schedule_other name rest)

    schedule_distinct :
        (crawlers : Dict (Crawler Carrier))
        → IsUnique crawlers
        → AllDistinct (schedule g f now force o crawlers).0
    unfolding schedule
    schedule_distinct [] u = tt
    schedule_distinct ((k, c) ∷ rest) u = elim (Bool-cases (should_run g f now force k o)) [
      | inl due ↦ rw due ((schedule_other k rest u.0).0, schedule_distinct rest u.1)
      | inr idle ↦ rw idle (schedule_distinct rest u.1)
    ]

    -- The name is due if it should run, and has its entry already if not.
    abbrev IsScheduled : String → Dict (Crawler Carrier) → Type 0
    IsScheduled name crawlers =
        (mem name (schedule g f now force o crawlers).0 ≡ should_run g f now force name o)
        × (should_run g f now force name o ≡ false
            → lookup name (schedule g f now force o crawlers).1 ≡ some not_due)

    schedule_here :
        (name : String) (c : Crawler Carrier) (rest : Dict (Crawler Carrier))
        → lookup name rest ≡ none
        → IsScheduled name ((name, c) ∷ rest)
    unfolding schedule mem lookup
    schedule_here name c rest h =
        let (no_more, no_entry) = schedule_other name rest h in
        elim (Bool-cases (should_run g f now force name o)) [
          | inl due ↦ rw due (ground (arith, str_eq_refl name), λ q. cc)
          | inr idle ↦ rw idle (no_more, λ q. ground (arith, str_eq_refl name))
        ]

    schedule_own :
        (name : String) (c : Crawler Carrier) (crawlers : Dict (Crawler Carrier))
        → IsUnique crawlers
        → lookup name crawlers ≡ some c
        → IsScheduled name crawlers
    unfolding schedule mem lookup
    schedule_own name c [] u h = cc
    schedule_own name c ((k, c') ∷ rest) u h = elim (Bool-cases (str_eq k name)) [
      | inl same ↦
          subst⁻¹ (λ j. lookup j rest ≡ none → IsScheduled name ((j, c') ∷ rest))
            (str_eq→≡ k name same) (schedule_here name c' rest) u.0
      | inr other ↦
          let ih = schedule_own name c rest u.1 (ground arith) in
          (ground arith, λ q. ground (arith, ih.1 q))
    ]

  -- If every failure of a crawler can be recorded by the handler, so can the pass at its end, and no two
  -- crawlers have one name, then the pass returns, and the entry of each crawler in it is that of the
  -- crawler's own visit if it was due, and says that it was not due otherwise.
  pub run_all_isolated :
      (now ts cutoff : ℕ) (force : Bool) (visit : String → Visit Carrier) (o : Orchestrator Carrier)
      (name : String) (c : Crawler Carrier)
      → AllHandled visit
      → IsUnique o.crawlers
      → lookup name o.crawlers ≡ some c
      → (pass : Pass g f) × (((run_all g f now ts cutoff force visit true o).0 ≡ some pass)
          × (lookup name pass.results
              ≡ some
                  (if should_run g f now force name o then outcome_of (visit name) c else not_due)))
  unfolding run_all
  run_all_isolated now ts cutoff force visit o name c fine u known =
      let due = (schedule g f now force o o.crawlers).0 in
      let skipped = (schedule g f now force o o.crawlers).1 in
      let (listed, entry) = schedule_own now force o name c o.crawlers u known in
      (
        pass_of g f (results_of (run_due g f ts visit due skipped o).0),
        (
          ap (report g f true) (run_due_returns ts visit fine due skipped o),
          elim (Bool-cases (should_run g f now force name o)) [
            | inl yes_due ↦ rw yes_due (
                run_due_own ts visit fine name c due skipped o
                  (schedule_distinct now force o o.crawlers u) (listed ∙ yes_due) known)
            | inr idle ↦
                rw idle
                  (run_due_other ts visit fine name due skipped o (listed ∙ idle) ∙ entry idle)
          ],
        ),
      )
