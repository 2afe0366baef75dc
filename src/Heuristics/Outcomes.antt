-- ===== src/Heuristics/Outcomes.antt =====
-- What outcomes and observations make of the counts.
use hype_coin_predictive_eng.Prelude.{
  ℕ, ◌+◌, ◌<◌, ◌≡◌, inl, inr, refl, String, true, none, some, List, [], ◌∷◌, if◌then◌else◌, min,
  length, lookup, lookup-insert_self, arith, Bool-cases, Option-cases,
}
use hype_coin_predictive_eng.Prelude.Int.{pos}
use hype_coin_predictive_eng.Float.{Float}
use hype_coin_predictive_eng.Float.MinMax.{
  min_float, max_float, zero_float, one_float, max_float_ge,
}
use hype_coin_predictive_eng.Heuristics.Memory.{
  SourceReliability, HeuristicsEngine, analyze_source_reliability, record_outcome,
  actionability_rate, get_crawl_frequency_multiplier,
}

module _ (f : Float) where
  open f use {Carrier, cents}

  -- Outcomes of one source at the given times, all of tokens that lasted.
  unfoldable pub record_lasting :
      String → List ℕ → HeuristicsEngine Carrier → HeuristicsEngine Carrier
  record_lasting source_name [] h = h
  record_lasting source_name (now ∷ times) h =
      record_lasting source_name times (record_outcome f source_name true now h)

  record_lasting_count :
      (source_name : String) (times : List ℕ) (h : HeuristicsEngine Carrier)
      (rel : SourceReliability)
      → lookup source_name h.source_reliabilities ≡ some rel
      → (rel' : SourceReliability) × (lookup source_name
            (record_lasting source_name times h).source_reliabilities
          ≡ some rel')
        × (rel'.total_dispatches ≡ rel.total_dispatches)
        × (rel'.actionable_dispatches ≡ rel.actionable_dispatches + length times)
  unfolding record_lasting record_outcome
  record_lasting_count source_name [] h rel e = (rel, e, refl, omega arith)
  record_lasting_count source_name (now ∷ times) h rel e =
      let next = record rel {
        actionable_dispatches = rel.actionable_dispatches + 1;
        last_actionable_at = some now;
      } in
      let (rel', e', t, a) =
        record_lasting_count source_name times (record_outcome f source_name true now h) next
          (rw (e, record_outcome) (lookup-insert_self source_name next h.source_reliabilities)) in
      (rel', e', t, omega (arith, a))

  -- A source analysed with `total` dispatches, of which `actionable` or fewer are actionable, and then
  -- more lasting outcomes than `total`: its actionable dispatches exceed its dispatches, which no
  -- outcome adds to.
  pub record_outcome_exceeds :
      (source_name : String) (total actionable : ℕ) (times : List ℕ) (h : HeuristicsEngine Carrier)
      → total < length times
      → (rel : SourceReliability) × (lookup source_name
            (record_lasting source_name times
              (analyze_source_reliability f source_name total actionable h)).source_reliabilities
          ≡ some rel)
        × (rel.total_dispatches ≡ total)
        × (rel.total_dispatches < rel.actionable_dispatches)
  unfolding analyze_source_reliability
  record_outcome_exceeds source_name total actionable times h more =
      let start : SourceReliability = record {
        total_dispatches = total;
        actionable_dispatches = min actionable total;
        last_actionable_at = none;
      } in
      let (rel, e, t, a) =
        record_lasting_count source_name times
          (analyze_source_reliability f source_name total actionable h) start
          (lookup-insert_self source_name start h.source_reliabilities) in
      (rel, e, t, omega arith)

  boost_range :
      (rate : Carrier)
      → f.ltb (cents (pos 30)) rate ≡ true
      → let m = min_float f (cents (pos 200)) (f.add (one_float f) rate) in
        (f.leb (one_float f) m ≡ true) × (f.leb m (cents (pos 200)) ≡ true)
  boost_range rate high =
      let nonneg =
        f.leb_trans (zero_float f) (cents (pos 30)) rate (f.leb_cents (pos 0) (pos 30) refl)
          (f.leb_of_ltb (cents (pos 30)) rate high) in
      elim (Bool-cases (f.ltb (f.add (one_float f) rate) (cents (pos 200)))) [
        | inl below ↦ rw below (
          f.add_ge (one_float f) rate (f.leb_cents (pos 0) (pos 100) refl) nonneg,
          f.leb_of_ltb (f.add (one_float f) rate) (cents (pos 200)) below,
        )
        | inr above ↦
            rw above (f.leb_cents (pos 100) (pos 200) refl, f.leb_cents (pos 200) (pos 200) refl)
      ]

  floor_of_rate :
      (rate : Carrier)
      → f.leb (cents (pos 25)) (
          if f.ltb (cents (pos 30)) rate
          then min_float f (cents (pos 200)) (f.add (one_float f) rate)
          else if f.ltb rate (cents (pos 5))
          then max_float f (cents (pos 25)) (f.sub (cents (pos 50)) rate)
          else one_float f)
        ≡ true
  floor_of_rate rate = elim (Bool-cases (f.ltb (cents (pos 30)) rate)) [
    | inl high ↦ rw high (
        f.leb_trans (cents (pos 25)) (one_float f) _ (f.leb_cents (pos 25) (pos 100) refl)
          (boost_range rate high).0)
    | inr low ↦ elim (Bool-cases (f.ltb rate (cents (pos 5)))) [
      | inl poor ↦
          rw (low, poor)
            (max_float_ge f (cents (pos 25)) (f.sub (cents (pos 50)) rate)
              (f.leb_cents (pos 25) (pos 25) refl))
      | inr fair ↦ rw (low, fair) (f.leb_cents (pos 25) (pos 100) refl)
    ]
  ]

  -- No source, whatever is recorded of it, is crawled at less than a quarter of the normal frequency.
  pub get_crawl_frequency_multiplier_floor :
      (source_name : String) (h : HeuristicsEngine Carrier)
      → f.leb (cents (pos 25)) (get_crawl_frequency_multiplier f source_name h) ≡ true
  unfolding get_crawl_frequency_multiplier
  get_crawl_frequency_multiplier_floor source_name h =
      elim (Option-cases (lookup source_name h.source_reliabilities)) [
        | inl unknown ↦
            rw (unknown, get_crawl_frequency_multiplier) (f.leb_cents (pos 25) (pos 100) refl)
        | inr (rel, known) ↦
            rw (known, get_crawl_frequency_multiplier) (floor_of_rate (actionability_rate f rel))
      ]

  -- A source with a rate above 0.3 has a multiplier from 1 to 2.
  pub get_crawl_frequency_multiplier_boost :
      (source_name : String) (h : HeuristicsEngine Carrier) (rel : SourceReliability)
      → lookup source_name h.source_reliabilities ≡ some rel
      → f.ltb (cents (pos 30)) (actionability_rate f rel) ≡ true
      → let m = get_crawl_frequency_multiplier f source_name h in
        (f.leb (one_float f) m ≡ true) × (f.leb m (cents (pos 200)) ≡ true)
  unfolding get_crawl_frequency_multiplier
  get_crawl_frequency_multiplier_boost source_name h rel known high =
      rw (known, get_crawl_frequency_multiplier, high) (boost_range (actionability_rate f rel) high)
