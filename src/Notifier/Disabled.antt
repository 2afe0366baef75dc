-- ===== src/Notifier/Disabled.antt =====
-- The pool's alerts while the notifier is off or none of its posts succeeds.
use hype_coin_predictive_eng.Prelude.{
  ℕ, ◌≡◌, refl, Bool, false, List, [], ◌∷◌, Dict, arith, add, ◌∙◌,
}
use hype_coin_predictive_eng.Float.{Float}
use hype_coin_predictive_eng.Notifier.Push.{Push, Ntfy, enabled}
use hype_coin_predictive_eng.Notifier.Notices.{notify_rpc_pool_event}
use hype_coin_predictive_eng.Pool.State.{Pool}
use hype_coin_predictive_eng.Pool.Alert.{
  Kind, zero_healthy_endpoints, endpoint_down_cooldown, RpcPoolAlert, sync_alert_state, zero_event,
  down_events, notification_events, settle_event, deliver, dispatch_alerts,
}

module _ (f : Float) where
  settle_nothing :
      (kind : Kind) (p : Pool f.Carrier)
      → ((settle_event f kind false p).down_alerted ≡ p.down_alerted)
        × ((settle_event f kind false p).zero_healthy_alerted ≡ p.zero_healthy_alerted)
  unfolding settle_event
  settle_nothing zero_healthy_endpoints p = (refl, refl)
  settle_nothing (endpoint_down_cooldown url down_for) p = (refl, refl)

  deliver_nothing :
      (callback : RpcPoolAlert → Bool) (events : List RpcPoolAlert) (p : Pool f.Carrier)
      → ((e : RpcPoolAlert) → callback e ≡ false)
      → ((deliver f callback events p).0 ≡ 0)
        × ((deliver f callback events p).1.down_alerted ≡ p.down_alerted)
        × ((deliver f callback events p).1.zero_healthy_alerted ≡ p.zero_healthy_alerted)
  unfolding deliver
  deliver_nothing callback [] p h = (refl, refl, refl)
  deliver_nothing callback (e ∷ events) p h =
      let same = settle_nothing (e.kind) p in
      let rest = deliver_nothing callback events (settle_event f e.kind false p) h in
      rw (h e) (ground (arith, same, rest))

  down_events_marks :
      (now cooldown : ℕ) (since : Dict ℕ) (p : Pool f.Carrier)
      → ((down_events f now cooldown since p).1.down_alerted ≡ p.down_alerted)
        × ((down_events f now cooldown since p).1.zero_healthy_alerted ≡ p.zero_healthy_alerted)
  unfolding down_events
  down_events_marks now cooldown [] p = (refl, refl)
  down_events_marks now cooldown ((url, t) ∷ rest) p = ground (
    arith,
    down_events_marks now cooldown rest p,
    down_events_marks now cooldown rest (record p { alert_inflight = add url p.alert_inflight }),
  )

  zero_event_marks :
      (p : Pool f.Carrier)
      → ((zero_event f p).1.down_alerted ≡ p.down_alerted)
        × ((zero_event f p).1.zero_healthy_alerted ≡ p.zero_healthy_alerted)
  unfolding zero_event
  zero_event_marks p = ground arith

  notification_events_marks :
      (now cooldown : ℕ) (p : Pool f.Carrier)
      → let q = (notification_events f now cooldown p).1 in
        let synced = sync_alert_state f now p in
        (q.down_alerted ≡ synced.down_alerted)
        × (q.zero_healthy_alerted ≡ synced.zero_healthy_alerted)
  unfolding notification_events
  notification_events_marks now cooldown p =
      let p' = (zero_event f (sync_alert_state f now p)).1 in
      let (a, b) = zero_event_marks (sync_alert_state f now p) in
      let (c, d) = down_events_marks now cooldown p'.down_since p' in (c ∙ a, d ∙ b)

  -- While the notifier is off, a dispatch of the pool's alerts sends nothing, and marks no endpoint and
  -- no lack of endpoints as alerted, so that the next dispatch raises them again.
  pub dispatch_alerts-notify_rpc_pool_event :
      (n : Ntfy) (post : Push → Bool) (now cooldown : ℕ) (p : Pool f.Carrier)
      → enabled n ≡ false
      → let (sent, q) = dispatch_alerts f (notify_rpc_pool_event n post) now cooldown p in
        let synced = sync_alert_state f now p in
        (sent ≡ 0)
        × (q.down_alerted ≡ synced.down_alerted)
        × (q.zero_healthy_alerted ≡ synced.zero_healthy_alerted)
  unfolding dispatch_alerts
  dispatch_alerts-notify_rpc_pool_event n post now cooldown p off =
      let (events, p') = notification_events f now cooldown p in
      let (a, b) = notification_events_marks now cooldown p in
      let (none_sent, c, d) =
        deliver_nothing (notify_rpc_pool_event n post) events p' (λ e. rw off refl) in
      (none_sent, c ∙ a, d ∙ b)
