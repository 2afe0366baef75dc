-- ===== src/Crawl/Latch.antt =====
-- A crawler that failed five times in a row is skipped for good.
use hype_coin_predictive_eng.Prelude.{
  ℕ, zero, suc, ◌+◌, ◌≤◌, ◌≡◌, ◌⊎◌, inl, inr, refl, String, false, Option, none, some, List, [],
  ◌∷◌, length, All, arith, Bool-cases,
}
use hype_coin_predictive_eng.Float.{Float}
use hype_coin_predictive_eng.Crawl.Health.{record_error, is_healthy}
use hype_coin_predictive_eng.Crawl.Fetch.{
  CrawlItem, failed, Meeting, Crawler, Digest, give_up, fetch_loop, fetch,
}

module _ (g : Digest) (f : Float) where
  open f use {Carrier}

  -- One fetch after the other: what each returned, and the crawler after all.
  unfoldable pub fetches :
      List (Meeting Carrier) → Crawler Carrier → List (List CrawlItem) × Crawler Carrier
  fetches [] c = ([], c)
  fetches (m ∷ meetings) c =
      let (items, c') = fetch g f m c in
      let (rest, last) = fetches meetings c' in (items ∷ rest, last)

  -- Every attempt raises.
  abbrev pub Fails : Meeting Carrier → Type 0
  Fails m = (i : ℕ) → (e : String) × (m.attempt i ≡ failed e)

  loop-Fails :
      (left attempt : ℕ) (last : Option String) (m : Meeting Carrier) (c : Crawler Carrier)
      → Fails m
      → let (items, c') = fetch_loop g f left attempt last m c in
        (items ≡ []) × (c'.health.consecutive_errors ≡ c.health.consecutive_errors + 1)
  unfolding fetch_loop give_up record_error
  loop-Fails zero attempt last m c fails = (refl, refl)
  loop-Fails (suc left) attempt last m c fails =
      let (e, raised) = fails attempt in
      rw (raised, fetch_loop) (loop-Fails left (attempt + 1) (some e) m c fails)

  fetch_unhealthy :
      (m : Meeting Carrier) (c : Crawler Carrier)
      → is_healthy f c.health ≡ false
      → fetch g f m c ≡ ([], c)
  unfolding fetch
  fetch_unhealthy m c h = rw h

  fetch-Fails :
      (m : Meeting Carrier) (c : Crawler Carrier)
      → Fails m
      → ((fetch g f m c).1.health.consecutive_errors ≡ c.health.consecutive_errors + 1)
        ⊎ (is_healthy f (fetch g f m c).1.health ≡ false)
  unfolding fetch
  fetch-Fails m c fails = elim (Bool-cases (is_healthy f c.health)) [
    | inl up ↦ rw up (inl (loop-Fails (c.max_retries + 1) 0 none m c fails).1)
    | inr down ↦ rw down (inr down)
  ]

  fetches_unhealthy :
      (meetings : List (Meeting Carrier)) (c : Crawler Carrier)
      → is_healthy f c.health ≡ false
      → ((fetches meetings c).1 ≡ c) × All (λ items. items ≡ []) (fetches meetings c).0
  unfolding fetches
  fetches_unhealthy [] c h = (refl, tt)
  fetches_unhealthy (m ∷ meetings) c h =
      let (same, none_found) = fetches_unhealthy meetings c h in
      rw (fetch_unhealthy m c h) (same, (refl, none_found))

  fetches_fail :
      (down : List (Meeting Carrier)) (c : Crawler Carrier)
      → All Fails down
      → 5 ≤ c.health.consecutive_errors + length down
      → is_healthy f (fetches down c).1.health ≡ false
  unfolding fetches
  fetches_fail [] c fails h = ground arith
  fetches_fail (m ∷ down) c fails h = elim (fetch-Fails m c fails.0) [
    | inl counted ↦ fetches_fail down (fetch g f m c).1 fails.1 (omega arith)
    | inr latched ↦
        let (same, none_found) = fetches_unhealthy down (fetch g f m c).1 latched in rw same latched
  ]

  -- A crawler whose last fetches failed on every attempt, five of them in a row, returns no item ever
  -- again, whatever its source has to offer from then on, and its state no longer changes.
  pub fetches_latched :
      (down later : List (Meeting Carrier)) (c : Crawler Carrier)
      → All Fails down
      → 5 ≤ length down
      → let c' = (fetches down c).1 in
        ((fetches later c').1 ≡ c') × All (λ items. items ≡ []) (fetches later c').0
  fetches_latched down later c fails h =
      fetches_unhealthy later (fetches down c).1 (fetches_fail down c fails (omega arith))
