-- ===== src/Pool/Reach.antt =====
-- The pool's methods as steps, and what holds of every pool that they lead to.
use hype_coin_predictive_eng.Prelude.{
  ℕ, ◌+◌, ◌≤◌, ◌≡◌, inl, inr, refl, ◌∙◌, String, Bool, none, some, List, [], ◌∷◌, if◌then◌else◌,
  arith, lookup, get_or, Dict, length, Bool-cases, Option-cases, subst, subst⁻¹, insert, add,
}
use hype_coin_predictive_eng.Float.{Float}
use hype_coin_predictive_eng.Pool.State.{
  ProbeRecord, Pool, init_dict, dedup, init, is_down, choose, down_of, available_of, use_endpoint,
  pick, mark_success, mark_failure,
}
use hype_coin_predictive_eng.Pool.Health.{
  InUnit, IsHealthy, init-IsHealthy, mark_success-IsHealthy, mark_failure-IsHealthy,
}
use hype_coin_predictive_eng.Pool.Probe.{
  record_probe, probe_urls, probe_endpoints, probe_down_endpoints,
}
use hype_coin_predictive_eng.Pool.History.{
  IsCounted, mark_success-IsCounted, mark_failure-IsCounted, probe_urls-IsCounted,
}
use hype_coin_predictive_eng.Pool.Alert.{
  Kind, RpcPoolAlert, sync_endpoints, sync_alert_state, zero_event, down_events,
  notification_events, settle_event, deliver, dispatch_alerts, any_up, zero_healthy_endpoints,
  endpoint_down_cooldown,
}

module _ (f : Float) where
  open f use {Carrier}

  -- What the health scores and the probe records are made of.
  abbrev Scores : Type 0
  Scores = Carrier × ℕ × Dict Carrier × Dict (List ProbeRecord) × Dict ℕ × Dict ℕ

  abbrev scores : Pool Carrier → Scores
  scores p = (
    p.recovery_health, p.failure_threshold, p.health, p.probe_history, p.probe_counts,
    p.probe_successes,
  )

  same-IsHealthy : (p p' : Pool Carrier) → scores p' ≡ scores p → IsHealthy f p → IsHealthy f p'
  same-IsHealthy p p' e v = record {
    recovery = subst⁻¹ (λ (s : Scores). InUnit f s.0) e v.recovery;
    scores =
        subst⁻¹ (λ (s : Scores). (u : String) (h : Carrier) → lookup u s.2 ≡ some h → InUnit f h) e
          v.scores;
    threshold = subst⁻¹ (λ (s : Scores). 1 ≤ s.1) e v.threshold;
  }

  same-IsCounted : (p p' : Pool Carrier) → scores p' ≡ scores p → IsCounted f p → IsCounted f p'
  same-IsCounted p p' e c = record {
    history = subst⁻¹ (λ (s : Scores). (u : String) → length (get_or u [] s.3) ≤ 20) e c.history;
    successes =
        subst⁻¹ (λ (s : Scores). (u : String) → get_or u 0 s.5 ≤ get_or u 0 s.4) e c.successes;
  }

  -- A pick and the alerts touch none of them.
  scores-pick :
      (url : String) (p p' : Pool Carrier) → pick f p ≡ some (url, p') → scores p' ≡ scores p
  unfolding pick
  scores-pick url p p' e =
      let tick = p.tick + 1 in
      elim (Option-cases (choose f p tick (down_of f p) (available_of f p))) [
        | inl none_of ↦
            let stuck : use_endpoint f p tick none ≡ some (url, p') =
              subst (λ o. use_endpoint f p tick o ≡ some (url, p')) none_of e in
            cc
        | inr (u, chosen) ↦
            let done : use_endpoint f p tick (some u) ≡ some (url, p') =
              subst (λ o. use_endpoint f p tick o ≡ some (url, p')) chosen e in
            let same : record p { tick = tick; last_used = insert u tick p.last_used } ≡ p' = cc in
            rw (← same) refl
      ]

  scores-sync_endpoints :
      (now : ℕ) (urls : List String) (p : Pool Carrier)
      → scores (sync_endpoints f now urls p) ≡ scores p
  unfolding sync_endpoints
  scores-sync_endpoints now [] p = refl
  scores-sync_endpoints now (url ∷ urls) p = elim (Bool-cases (is_down f p url)) [
    | inl down ↦ rw (down, sync_endpoints) (scores-sync_endpoints now urls _)
    | inr up ↦ rw (up, sync_endpoints) (scores-sync_endpoints now urls _)
  ]

  scores-sync_alert_state :
      (now : ℕ) (p : Pool Carrier) → scores (sync_alert_state f now p) ≡ scores p
  unfolding sync_alert_state
  scores-sync_alert_state now p =
      let h = scores-sync_endpoints now p.endpoints p in
      elim (Bool-cases (any_up f (sync_endpoints f now p.endpoints p))) [
        | inl up ↦ rw up h
        | inr none_up ↦ rw none_up h
      ]

  scores-zero_event : (p : Pool Carrier) → scores (zero_event f p).1 ≡ scores p
  unfolding zero_event
  scores-zero_event p = ground arith

  scores-down_events :
      (now cooldown : ℕ) (since : Dict ℕ) (p : Pool Carrier)
      → scores (down_events f now cooldown since p).1 ≡ scores p
  unfolding down_events
  scores-down_events now cooldown [] p = refl
  scores-down_events now cooldown ((url, t) ∷ rest) p =
      let marked = record p { alert_inflight = add url p.alert_inflight } in
      ground
        (arith, scores-down_events now cooldown rest marked, scores-down_events now cooldown rest p)

  scores-settle_event :
      (k : Kind) (delivered : Bool) (p : Pool Carrier)
      → scores (settle_event f k delivered p) ≡ scores p
  unfolding settle_event
  scores-settle_event zero_healthy_endpoints delivered p = refl
  scores-settle_event (endpoint_down_cooldown url t) delivered p = refl

  scores-deliver :
      (callback : RpcPoolAlert → Bool) (events : List RpcPoolAlert) (p : Pool Carrier)
      → scores (deliver f callback events p).1 ≡ scores p
  unfolding deliver
  scores-deliver callback [] p = refl
  scores-deliver callback (e ∷ events) p =
      scores-deliver callback events (settle_event f e.kind (callback e) p)
      ∙ scores-settle_event e.kind (callback e) p

  scores-dispatch_alerts :
      (callback : RpcPoolAlert → Bool) (now cooldown : ℕ) (p : Pool Carrier)
      → scores (dispatch_alerts f callback now cooldown p).1 ≡ scores p
  unfolding dispatch_alerts notification_events
  scores-dispatch_alerts callback now cooldown p =
      let synced = sync_alert_state f now p in
      let zeroed = (zero_event f synced).1 in
      let (events, last) = notification_events f now cooldown p in
      scores-deliver callback events last
      ∙ (scores-down_events now cooldown zeroed.down_since zeroed
          ∙ (scores-zero_event synced ∙ scores-sync_alert_state now p))

  probe_urls-IsHealthy :
      (probe : String → Bool) (clock : String → ℕ) (urls : List String) (p : Pool Carrier)
      → IsHealthy f p
      → IsHealthy f (probe_urls f probe clock urls p)
  unfolding probe_urls record_probe
  probe_urls-IsHealthy probe clock [] p v = v
  probe_urls-IsHealthy probe clock (url ∷ urls) p v =
      let marked = if probe url then mark_success f url p else mark_failure f (clock url) url p in
      let v' : IsHealthy f marked = elim (Bool-cases (probe url)) [
        | inl up ↦ rw up (mark_success-IsHealthy f url p v)
        | inr down ↦ rw down (mark_failure-IsHealthy f (clock url) url p v)
      ] in
      probe_urls-IsHealthy probe clock urls (record_probe f (clock url) url (probe url) marked)
        (record { recovery = v'.recovery; scores = v'.scores; threshold = v'.threshold })

  -- One call of a method of the pool.
  pub data Step (p : Pool Carrier) : Pool Carrier → Type 0 where
    picked : (url : String) (p' : Pool Carrier) → pick f p ≡ some (url, p') → Step p p'
    succeeded : (url : String) → Step p (mark_success f url p)
    failed : (now : ℕ) (url : String) → Step p (mark_failure f now url p)
    probed :
        (probe : String → Bool) (clock : String → ℕ) → Step p (probe_endpoints f probe clock p).1
    probed_down :
        (probe : String → Bool) (clock : String → ℕ)
        → Step p (probe_down_endpoints f probe clock p).1
    dispatched :
        (callback : RpcPoolAlert → Bool) (now cooldown : ℕ)
        → Step p (dispatch_alerts f callback now cooldown p).1

  -- The pools that some calls lead to from a new one.
  pub data Reach : Pool Carrier → Type 0 where
    created :
        (urls : List String) (threshold : ℕ) (recovery : Carrier) (chain : String)
        → Reach (init f urls threshold recovery chain)
    called : {p p' : Pool Carrier} → Reach p → Step p p' → Reach p'

  Step-IsHealthy : {p p' : Pool Carrier} → Step p p' → IsHealthy f p → IsHealthy f p'
  unfolding probe_endpoints probe_down_endpoints
  Step-IsHealthy {p = p} (picked url p' e) v = same-IsHealthy p p' (scores-pick url p p' e) v
  Step-IsHealthy {p = p} (succeeded url) v = mark_success-IsHealthy f url p v
  Step-IsHealthy {p = p} (failed now url) v = mark_failure-IsHealthy f now url p v
  Step-IsHealthy {p = p} (probed probe clock) v = probe_urls-IsHealthy probe clock p.endpoints p v
  Step-IsHealthy {p = p} (probed_down probe clock) v =
      probe_urls-IsHealthy probe clock (down_of f p) p v
  Step-IsHealthy {p = p} (dispatched callback now cooldown) v =
      same-IsHealthy p _ (scores-dispatch_alerts callback now cooldown p) v

  Step-IsCounted : {p p' : Pool Carrier} → Step p p' → IsCounted f p → IsCounted f p'
  unfolding probe_endpoints probe_down_endpoints
  Step-IsCounted {p = p} (picked url p' e) c = same-IsCounted p p' (scores-pick url p p' e) c
  Step-IsCounted {p = p} (succeeded url) c = mark_success-IsCounted f url p c
  Step-IsCounted {p = p} (failed now url) c = mark_failure-IsCounted f now url p c
  Step-IsCounted {p = p} (probed probe clock) c = probe_urls-IsCounted f probe clock p.endpoints p c
  Step-IsCounted {p = p} (probed_down probe clock) c =
      probe_urls-IsCounted f probe clock (down_of f p) p c
  Step-IsCounted {p = p} (dispatched callback now cooldown) c =
      same-IsCounted p _ (scores-dispatch_alerts callback now cooldown p) c

  init_dict_get :
      {V : Type 0} (v : V) (urls : List String) (u : String) → get_or u v (init_dict v urls) ≡ v
  unfolding lookup init_dict
  init_dict_get v [] u = refl
  init_dict_get v (url ∷ urls) u = ground (arith, init_dict_get v urls u)

  init-IsCounted :
      (urls : List String) (threshold : ℕ) (recovery : Carrier) (chain : String)
      → IsCounted f (init f urls threshold recovery chain)
  unfolding init
  init-IsCounted urls threshold recovery chain = record {
    history = λ u. rw (init_dict_get {V = List ProbeRecord} [] (dedup [] urls) u) (omega arith);
    successes = λ u. omega arith;
  }

  -- Whatever settings a pool is created with, and whatever calls of `pick`, of the marks, of the probes
  -- and of the alerts follow, its health scores and its recovery level are in [0, 1] and its failure
  -- threshold is at least 1; no probe history holds more than 20 records, and no endpoint has more
  -- successful probes than probes.
  pub Reach-IsHealthy : {p : Pool Carrier} → Reach p → IsHealthy f p × IsCounted f p
  Reach-IsHealthy (created urls threshold recovery chain) =
      (init-IsHealthy f urls threshold recovery chain, init-IsCounted urls threshold recovery chain)
  Reach-IsHealthy (called r s) =
      let (v, c) = Reach-IsHealthy r in (Step-IsHealthy s v, Step-IsCounted s c)
