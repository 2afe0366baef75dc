-- ===== src/Pool/Probe.antt =====
-- The probes of the pool: `_record_probe`, `_probe_urls`, `probe_endpoints` and
-- `probe_down_endpoints`. A probe that raises is a probe that answers false, and the time of each
-- mark and record is the one the clock gives for that endpoint.
use hype_coin_predictive_eng.Prelude.{
  ℕ, ◌+◌, String, Bool, List, [], ◌∷◌, if◌then◌else◌, insert, get_or, length,
}
use hype_coin_predictive_eng.Float.{Float}
use hype_coin_predictive_eng.Pool.State.{Pool, push_history, down_of, mark_success, mark_failure}

module _ (f : Float) where
  open f use {Carrier}

  unfoldable pub record_probe : ℕ → String → Bool → Pool Carrier → Pool Carrier
  unfolding push_history
  record_probe now url ok p = record p {
    probe_history =
        insert url (push_history (record { ts = now; ok = ok }) (get_or url [] p.probe_history))
          p.probe_history;
    probe_counts = insert url (get_or url 0 p.probe_counts + 1) p.probe_counts;
    probe_successes =
        if ok
        then insert url (get_or url 0 p.probe_successes + 1) p.probe_successes
        else p.probe_successes;
  }

  unfoldable pub probe_urls :
      (String → Bool) → (String → ℕ) → List String → Pool Carrier → Pool Carrier
  unfolding record_probe
  probe_urls probe clock [] p = p
  probe_urls probe clock (url ∷ urls) p =
      let ok = probe url in
      let marked = if ok then mark_success f url p else mark_failure f (clock url) url p in
      probe_urls probe clock urls (record_probe (clock url) url ok marked)

  unfoldable pub probe_endpoints : (String → Bool) → (String → ℕ) → Pool Carrier → ℕ × Pool Carrier
  probe_endpoints probe clock p = (length p.endpoints, probe_urls probe clock p.endpoints p)

  unfoldable pub probe_down_endpoints :
      (String → Bool) → (String → ℕ) → Pool Carrier → ℕ × Pool Carrier
  probe_down_endpoints probe clock p =
      let down = down_of f p in (length down, probe_urls probe clock down p)
