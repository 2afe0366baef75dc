-- ===== src/Pool/Alert.antt =====
-- The pool's alerts: `_sync_alert_state_locked`, `_notification_events_locked` and `dispatch_alerts`.
-- The in-flight key `zero_healthy` is a flag; the keys `endpoint:{url}` are the URLs.
use hype_coin_predictive_eng.Prelude.{
  ℕ, ◌+◌, ◌-◌, String, Bool, true, false, List, [], ◌∷◌, ◌++◌, ◌&&◌, not, ltb, leb, ◌==◌,
  if◌then◌else◌, length, Dict, erase, setdefault, mem, add, discard,
}
use hype_coin_predictive_eng.Float.{Float}
use hype_coin_predictive_eng.Pool.State.{Pool, is_down, available_of}

pub data Kind : Type 0 where
  zero_healthy_endpoints : Kind
  endpoint_down_cooldown : String → ℕ → Kind

pub record RpcPoolAlert : Type 0 where
  pub chain_slug : String
  pub kind : Kind
  pub healthy_endpoints : ℕ
  pub total_endpoints : ℕ

module _ (f : Float) where
  open f use {Carrier}

  -- The loop over the endpoints: a down endpoint keeps the time since when, any other forgets all.
  unfoldable pub sync_endpoints : ℕ → List String → Pool Carrier → Pool Carrier
  sync_endpoints now [] p = p
  sync_endpoints now (url ∷ urls) p = sync_endpoints now urls (
      if is_down f p url
      then record p { down_since = setdefault url now p.down_since }
      else record p {
        down_since = erase url p.down_since;
        down_alerted = discard url p.down_alerted;
        alert_inflight = discard url p.alert_inflight;
      })

  abbrev pub any_up : Pool Carrier → Bool
  any_up p = ltb 0 (length (available_of f p))

  unfoldable pub sync_alert_state : ℕ → Pool Carrier → Pool Carrier
  unfolding sync_endpoints
  sync_alert_state now p =
      let p' = sync_endpoints now p.endpoints p in
      if any_up p'
      then record p' { zero_healthy_alerted = false; zero_healthy_inflight = false }
      else p'

  abbrev pub alert_of : Pool Carrier → Kind → RpcPoolAlert
  alert_of p kind = record {
    chain_slug = p.chain_slug;
    kind = kind;
    healthy_endpoints = length (available_of f p);
    total_endpoints = length p.endpoints;
  }

  -- The zero-healthy event.
  unfoldable pub zero_event : Pool Carrier → List RpcPoolAlert × Pool Carrier
  zero_event p =
      if ltb 0 (length p.endpoints)
        && (length (available_of f p) == 0)
        && (not p.zero_healthy_alerted && not p.zero_healthy_inflight)
      then (alert_of p zero_healthy_endpoints ∷ [], record p { zero_healthy_inflight = true })
      else ([], p)

  -- The loop over `_down_since`. A negative cooldown counts as 0.
  unfoldable pub down_events : ℕ → ℕ → Dict ℕ → Pool Carrier → List RpcPoolAlert × Pool Carrier
  down_events now cooldown [] p = ([], p)
  down_events now cooldown ((url, since) ∷ rest) p =
      if leb cooldown (now - since)
        && (not (mem url p.down_alerted) && not (mem url p.alert_inflight))
      then (let (events, p') =
            down_events now cooldown rest
              (record p { alert_inflight = add url p.alert_inflight }) in
          (alert_of p (endpoint_down_cooldown url (now - since)) ∷ events, p'))
      else down_events now cooldown rest p

  unfoldable pub notification_events : ℕ → ℕ → Pool Carrier → List RpcPoolAlert × Pool Carrier
  unfolding sync_alert_state zero_event
  notification_events now cooldown p =
      let (zero, p') = zero_event (sync_alert_state now p) in
      let (down, last) = down_events now cooldown p'.down_since p' in (zero ++ down, last)

  -- What follows the callback for one event, under the lock; `delivered` is its answer, false if it
  -- raised.
  unfoldable pub settle_event : Kind → Bool → Pool Carrier → Pool Carrier
  settle_event zero_healthy_endpoints delivered p = record p {
    zero_healthy_inflight = false;
    zero_healthy_alerted = if delivered then true else p.zero_healthy_alerted;
  }
  settle_event (endpoint_down_cooldown url down_for) delivered p = record p {
    alert_inflight = discard url p.alert_inflight;
    down_alerted = if delivered then add url p.down_alerted else p.down_alerted;
  }

  -- The loop over the events, and the number that was sent.
  unfoldable pub deliver :
      (RpcPoolAlert → Bool) → List RpcPoolAlert → Pool Carrier → ℕ × Pool Carrier
  unfolding settle_event
  deliver callback [] p = (0, p)
  deliver callback (e ∷ events) p =
      let delivered = callback e in
      let (sent, p') = deliver callback events (settle_event e.kind delivered p) in
      ((if delivered then 1 else 0) + sent, p')

  unfoldable pub dispatch_alerts : (RpcPoolAlert → Bool) → ℕ → ℕ → Pool Carrier → ℕ × Pool Carrier
  unfolding deliver notification_events
  dispatch_alerts callback now cooldown p =
      let (events, p') = notification_events now cooldown p in deliver callback events p'
