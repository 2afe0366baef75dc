-- ===== src/Crawl/Sound.antt =====
-- The health figures of a crawler fit together.
use hype_coin_predictive_eng.Prelude.{
  ℕ, zero, suc, ◌+◌, ◌≤◌, ◌<◌, ◌≡◌, inl, inr, refl, String, true, Option, none, some, List, [], ◌∷◌,
  ltb, length, max, arith, Bool-cases,
}
use hype_coin_predictive_eng.Prelude.Int.{pos}
use hype_coin_predictive_eng.Float.{Float}
use hype_coin_predictive_eng.Float.MinMax.{
  max_float, zero_float, one_float, max_float_ge, max_float_le,
}
use hype_coin_predictive_eng.Crawl.Health.{
  CrawlerHealth, new_health, ratio, record_success, record_empty_run, record_error, is_healthy,
}
use hype_coin_predictive_eng.Crawl.Fetch.{
  CrawlItem, Attempt-cases, Meeting, Crawler, Digest, succeed, give_up, fetch_loop, fetch,
  deduplicate,
}
use hype_coin_predictive_eng.Crawl.Latch.{fetches}

module _ (f : Float) where
  open f use {Carrier, cents}

  pub record IsSound (h : CrawlerHealth Carrier) : Type 0 where
    pub least : f.leb (cents (pos 10)) h.reliability_score ≡ true
    pub most : f.leb h.reliability_score (one_float f) ≡ true
    pub errors : h.total_errors ≤ h.total_runs
    pub streak : h.consecutive_errors ≤ h.total_errors
    pub gate : h.consecutive_errors ≤ 5
    pub empty_runs : h.consecutive_empty_runs + h.total_errors ≤ h.total_runs

  rate_unit :
      (errors runs : ℕ)
      → errors ≤ max 1 runs
      → (f.leb (zero_float f) (ratio f errors (max 1 runs)) ≡ true)
        × (f.leb (ratio f errors (max 1 runs)) (one_float f) ≡ true)
  rate_unit errors runs h = f.div_unit errors (max 1 runs) h (omega arith)

  reliability_range :
      (errors runs : ℕ)
      → errors ≤ max 1 runs
      → let r = max_float f (cents (pos 10)) (f.sub (one_float f) (ratio f errors (max 1 runs))) in
        (f.leb (cents (pos 10)) r ≡ true) × (f.leb r (one_float f) ≡ true)
  reliability_range errors runs h =
      let (lo, hi) = rate_unit errors runs h in
      (
        max_float_ge f _ _ (f.leb_cents (pos 10) (pos 10) refl),
        max_float_le f (one_float f) (cents (pos 10)) _ (f.leb_cents (pos 10) (pos 100) refl) (
            f.sub_le (one_float f) (ratio f errors (max 1 runs))
              (f.leb_cents (pos 0) (pos 100) refl) (f.leb_cents (pos 100) (pos 100) refl) lo hi),
      )

  pub new_health-IsSound : IsSound (new_health f)
  new_health-IsSound = record {
    least = f.leb_cents (pos 10) (pos 100) refl;
    most = f.leb_cents (pos 100) (pos 100) refl;
    errors = omega arith;
    streak = omega arith;
    gate = omega arith;
    empty_runs = omega arith;
  }

  record_success-IsSound :
      (now n : ℕ) (d : Carrier) (h : CrawlerHealth Carrier)
      → IsSound h
      → IsSound (record_success f now n d h)
  unfolding record_success
  record_success-IsSound now n d h s =
      let errors = s.errors in
      let (lo, hi) = reliability_range h.total_errors (h.total_runs + 1) (omega arith) in
      record {
        least = lo;
        most = hi;
        errors = omega arith;
        streak = omega arith;
        gate = omega arith;
        empty_runs = omega arith;
      }

  record_empty_run-IsSound :
      (now : ℕ) (d : Carrier) (h : CrawlerHealth Carrier)
      → IsSound h
      → IsSound (record_empty_run f now d h)
  unfolding record_empty_run
  record_empty_run-IsSound now d h s = record {
    least = max_float_ge f (cents (pos 10)) _ (f.leb_cents (pos 10) (pos 10) refl);
    most = max_float_le f (one_float f) (cents (pos 10)) _ (f.leb_cents (pos 10) (pos 100) refl) (
        f.leb_trans _ h.reliability_score _
          (f.sub_le h.reliability_score (cents (pos 15))
            (f.leb_trans _ (cents (pos 10)) _ (f.leb_cents (pos 0) (pos 10) refl) s.least) s.most
            (f.leb_cents (pos 0) (pos 15) refl) (f.leb_cents (pos 15) (pos 100) refl))
          s.most);
    errors = omega (arith, s.errors);
    streak = s.streak;
    gate = s.gate;
    empty_runs = omega (arith, s.empty_runs);
  }

  record_error-IsSound :
      (now : ℕ) (e : String) (d : Carrier) (h : CrawlerHealth Carrier)
      → h.consecutive_errors < 5
      → IsSound h
      → IsSound (record (record_error f now e h) { last_duration_ms = d })
  unfolding record_error
  record_error-IsSound now e d h few s =
      let errors = s.errors in
      let (lo, hi) = reliability_range (h.total_errors + 1) (h.total_runs + 1) (omega arith) in
      record {
        least = lo;
        most = hi;
        errors = omega arith;
        streak = omega (arith, s.streak);
        gate = omega arith;
        empty_runs = omega (arith, s.empty_runs);
      }

  module _ (g : Digest) where
    succeed-IsSound :
        (now : ℕ) (d : Carrier) (items : List CrawlItem) (c : Crawler Carrier)
        → IsSound c.health
        → IsSound (succeed g f now d items c).1.health
    unfolding succeed
    succeed-IsSound now d items c s =
        elim (Bool-cases (ltb 0 (length (deduplicate g items c.seen_hashes).0))) [
          | inl some_items ↦ rw some_items (record_success-IsSound now _ d c.health s)
          | inr no_items ↦ rw no_items (record_empty_run-IsSound now d c.health s)
        ]

    loop-IsSound :
        (left attempt : ℕ) (last : Option String) (m : Meeting Carrier) (c : Crawler Carrier)
        → c.health.consecutive_errors < 5
        → IsSound c.health
        → IsSound (fetch_loop g f left attempt last m c).1.health
    unfolding fetch_loop give_up
    loop-IsSound zero attempt last m c few s =
        record_error-IsSound m.now _ m.duration_ms c.health few s
    loop-IsSound (suc left) attempt last m c few s = elim (Attempt-cases (m.attempt attempt)) [
      | inl (items, e) ↦ rw (e, fetch_loop) (succeed-IsSound m.now m.duration_ms items c s)
      | inr (error, e) ↦ rw (e, fetch_loop) (loop-IsSound left (attempt + 1) (some error) m c few s)
    ]

    fetch-IsSound :
        (m : Meeting Carrier) (c : Crawler Carrier)
        → IsSound c.health
        → IsSound (fetch g f m c).1.health
    unfolding fetch
    fetch-IsSound m c s = elim (Bool-cases (is_healthy f c.health)) [
      | inl up ↦ rw up (loop-IsSound (c.max_retries + 1) 0 none m c (ground arith) s)
      | inr down ↦ rw down s
    ]

    -- From health figures that fit together, as a new crawler's do, any fetches of any source keep them
    -- so: the reliability score is in [0.1, 1], at most five errors stand in a row, no more than there
    -- are errors, and the errors and the streak of empty runs together are at most as many as the runs.
    pub fetches-IsSound :
        (meetings : List (Meeting Carrier)) (c : Crawler Carrier)
        → IsSound c.health
        → IsSound (fetches g f meetings c).1.health
    unfolding fetches
    fetches-IsSound [] c s = s
    fetches-IsSound (m ∷ meetings) c s =
        fetches-IsSound meetings (fetch g f m c).1 (fetch-IsSound m c s)
