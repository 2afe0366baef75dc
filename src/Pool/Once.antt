-- ===== src/Pool/Once.antt =====
-- No endpoint is reported twice.
use hype_coin_predictive_eng.Prelude.{
  ℕ, ◌+◌, ◌≤◌, ◌≡◌, refl, String, Bool, true, false, List, [], ◌∷◌, ◌++◌, if◌then◌else◌, Dict, mem,
  add, mem-add, str_eq, str_eq→≡, arith,
}
use hype_coin_predictive_eng.Float.{Float}
use hype_coin_predictive_eng.Pool.State.{Pool}
use hype_coin_predictive_eng.Pool.Alert.{
  Kind, zero_healthy_endpoints, endpoint_down_cooldown, RpcPoolAlert, sync_alert_state, zero_event,
  down_events, notification_events,
}

abbrev pub is_about : String → Kind → Bool
is_about url zero_healthy_endpoints = false
is_about url (endpoint_down_cooldown u down_for) = str_eq u url

-- How often the endpoint is reported.
unfoldable pub reports : String → List RpcPoolAlert → ℕ
reports url [] = 0
reports url (e ∷ events) = (if is_about url e.kind then 1 else 0) + reports url events

reports-append :
    (url : String) (xs ys : List RpcPoolAlert)
    → reports url (xs ++ ys) ≡ reports url xs + reports url ys
unfolding reports
reports-append url [] ys = omega arith
reports-append url (x ∷ xs) ys = omega (arith, reports-append url xs ys)

mem_same : (u url : String) (s : List String) → str_eq u url ≡ true → mem u s ≡ mem url s
mem_same u url s same = rw (str_eq→≡ u url same) refl

module _ (f : Float) where
  -- An endpoint whose alert was delivered or is under way is not reported, any other at most once.
  down_events_once :
      (now cooldown : ℕ) (since : Dict ℕ) (p : Pool f.Carrier) (url : String)
      → (reports url (down_events f now cooldown since p).0 ≤ 1)
        × (mem url p.down_alerted ≡ true → reports url (down_events f now cooldown since p).0 ≡ 0)
        × (mem url p.alert_inflight ≡ true → reports url (down_events f now cooldown since p).0 ≡ 0)
  unfolding down_events reports
  down_events_once now cooldown [] p url = ground arith
  down_events_once now cooldown ((u, t) ∷ rest) p url =
      let skip = down_events_once now cooldown rest p url in
      let take =
        down_events_once now cooldown rest (record p { alert_inflight = add u p.alert_inflight })
          url in
      ground (
        arith,
        skip,
        take,
        mem-add u url p.alert_inflight,
        mem_same u url p.alert_inflight,
        mem_same u url p.down_alerted,
      )

  zero_event_facts :
      (p : Pool f.Carrier) (url : String)
      → (reports url (zero_event f p).0 ≡ 0)
        × ((zero_event f p).1.down_alerted ≡ p.down_alerted)
        × ((zero_event f p).1.alert_inflight ≡ p.alert_inflight)
  unfolding zero_event reports
  zero_event_facts p url = ground arith

  -- One round of notifications reports each endpoint at most once, and not at all if its alert was
  -- delivered or is under way once the round has forgotten the endpoints that are up.
  pub notification_events_once :
      (now cooldown : ℕ) (p : Pool f.Carrier) (url : String)
      → let events = (notification_events f now cooldown p).0 in
        let synced = sync_alert_state f now p in
        (reports url events ≤ 1)
        × (mem url synced.down_alerted ≡ true → reports url events ≡ 0)
        × (mem url synced.alert_inflight ≡ true → reports url events ≡ 0)
  unfolding notification_events
  notification_events_once now cooldown p url =
      let (none_about, same_alerted, same_inflight) =
        zero_event_facts (sync_alert_state f now p) url in
      let p' = (zero_event f (sync_alert_state f now p)).1 in
      let (once, alerted, inflight) = down_events_once now cooldown p'.down_since p' url in
      let sum =
        reports-append url (zero_event f (sync_alert_state f now p)).0
          (down_events f now cooldown p'.down_since p').0 in
      (
        omega (arith, once),
        (λ h. omega (arith, alerted (rw same_alerted h))),
        (λ h. omega (arith, inflight (rw same_inflight h))),
      )
