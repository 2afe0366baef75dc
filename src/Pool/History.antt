-- ===== src/Pool/History.antt =====
-- The bounds of the probe records.
use hype_coin_predictive_eng.Prelude.{
  ℕ, ◌+◌, ◌-◌, ◌≤◌, ◌≡◌, inl, inr, String, Bool, true, false, List, [], ◌∷◌, ◌++◌, if◌then◌else◌,
  arith, lookup, insert, get_or, lookup-insert, str_eq, Dict, length, Bool-cases, Option-cases,
  length-drop, str_eq→≡,
}
use hype_coin_predictive_eng.Float.{Float}
use hype_coin_predictive_eng.Pool.State.{
  ProbeRecord, Pool, push_history, mark_success, mark_failure,
}
use hype_coin_predictive_eng.Pool.Probe.{record_probe, probe_urls}

length-push_history : (r : ProbeRecord) (l : List ProbeRecord) → length (push_history r l) ≤ 20
unfolding push_history
length-push_history r l = omega (arith, length-drop (length (l ++ (r ∷ [])) - 20) (l ++ (r ∷ [])))

module _ (f : Float) where
  open f use {Carrier}

  -- No probe history holds more than 20 records, and no endpoint has more successful probes than
  -- probes.
  pub record IsCounted (p : Pool Carrier) : Type 0 where
    pub history : (url : String) → length (get_or url [] p.probe_history) ≤ 20
    pub successes : (url : String) → get_or url 0 p.probe_successes ≤ get_or url 0 p.probe_counts

  get_or-insert :
      {V : Type 0} (k u : String) (v e : V) (d : Dict V)
      → get_or u e (insert k v d) ≡ (if str_eq k u then v else get_or u e d)
  get_or-insert k u v e d = ground (arith, lookup-insert k u v d)

  successes_same :
      (url u : String) (p : Pool Carrier)
      → IsCounted p
      → str_eq url u ≡ true
      → get_or u 0 p.probe_successes ≤ get_or url 0 p.probe_counts
  successes_same url u p c same = rw (← str_eq→≡ url u same) (c.successes url)

  record_probe-IsCounted :
      (now : ℕ) (url : String) (ok : Bool) (p : Pool Carrier)
      → IsCounted p
      → IsCounted (record_probe f now url ok p)
  unfolding record_probe
  record_probe-IsCounted now url ok p c = record {
    history = λ u.
        let l = get_or url [] p.probe_history in
        let r : ProbeRecord = record { ts = now; ok = ok } in
        ground (
          arith,
          get_or-insert url u (push_history r l) [] p.probe_history,
          length-push_history r l,
          c.history u,
        );
    successes = λ u. ground (
      arith,
      get_or-insert url u (get_or url 0 p.probe_counts + 1) 0 p.probe_counts,
      get_or-insert url u (get_or url 0 p.probe_successes + 1) 0 p.probe_successes,
      c.successes u,
      c.successes url,
      successes_same url u p c,
    );
  }

  pub mark_success-IsCounted :
      (url : String) (p : Pool Carrier) → IsCounted p → IsCounted (mark_success f url p)
  unfolding mark_success
  mark_success-IsCounted url p c = elim (Option-cases (lookup url p.health)) [
    | inl unknown ↦ rw (unknown, mark_success) c
    | inr (h, known) ↦
        rw (known, mark_success) (record { history = c.history; successes = c.successes })
  ]

  pub mark_failure-IsCounted :
      (now : ℕ) (url : String) (p : Pool Carrier)
      → IsCounted p
      → IsCounted (mark_failure f now url p)
  unfolding mark_failure
  mark_failure-IsCounted now url p c = elim (Option-cases (lookup url p.health)) [
    | inl unknown ↦ rw (unknown, mark_failure) c
    | inr (h, known) ↦
        rw (known, mark_failure) (record { history = c.history; successes = c.successes })
  ]

  -- From a pool that has these bounds, a run of probes over any endpoints keeps every probe history
  -- within 20 records and every endpoint's successful probes within its probes, whatever the probes
  -- answer.
  pub probe_urls-IsCounted :
      (probe : String → Bool) (clock : String → ℕ) (urls : List String) (p : Pool Carrier)
      → IsCounted p
      → IsCounted (probe_urls f probe clock urls p)
  unfolding probe_urls
  probe_urls-IsCounted probe clock [] p c = c
  probe_urls-IsCounted probe clock (url ∷ urls) p c = elim (Bool-cases (probe url)) [
    | inl up ↦ rw up (
        probe_urls-IsCounted probe clock urls _
          (record_probe-IsCounted (clock url) url true _ (mark_success-IsCounted url p c)))
    | inr down ↦ rw down (
        probe_urls-IsCounted probe clock urls _ (
          record_probe-IsCounted (clock url) url false _
            (mark_failure-IsCounted (clock url) url p c)))
  ]
