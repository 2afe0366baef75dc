-- ===== src/Notifier/Silent.antt =====
-- When an alert is pushed, over sequences of flushes.
use hype_coin_predictive_eng.Prelude.{
  ℕ, suc, ◌+◌, ◌*◌, ◌≤◌, ◌≡◌, refl, String, Bool, true, false, Option, none, some, List, [], ◌∷◌,
  All, arith, mem,
}
use hype_coin_predictive_eng.Notifier.Push.{Push, Ntfy, Alert, open_state, push_of}
use hype_coin_predictive_eng.Notifier.Flush.{
  expire_snooze, is_pending, flush_alert, ack_row, is_expired,
}

-- A flush of one alert: the posts whose call succeeds, the decision time and the clock.
pub record Round : Type 0 where
  pub post : ℕ → Push → Bool
  pub decision : ℕ
  pub now : ℕ

unfoldable pub flushes : Ntfy → List Round → Alert → Alert
unfolding flush_alert
flushes n [] a = a
flushes n (r ∷ rs) a = flushes n rs (flush_alert n r.post r.decision r.now a)

-- An alert that is snoozed and then acknowledged is open again, and is pushed, by the first flush after
-- the snooze, if it is of a type that is pushed, was not notified, is in the backlog's window, and the
-- call of the push succeeds.
pub flush_alert-ack_row :
    (n : Ntfy) (post : ℕ → Push → Bool) (decision now at t : ℕ) (quality : Option String)
    (a : Alert)
    → a.snoozed_until ≡ some t
    → t ≤ decision
    → mem a.alert_type n.ntfy_alert_types ≡ true
    → a.notified_at ≡ none
    → decision ≤ a.created_at + 3600 * n.ntfy_backlog_hours
    → ((p : Push) → post a.id p ≡ true)
    → let b = flush_alert n post decision now (ack_row at quality a) in
      (b.state ≡ open_state) × (b.pushes ≡ suc a.pushes)
unfolding flush_alert expire_snooze is_pending
flush_alert-ack_row n post decision now at t quality a snoozed over typed fresh recent taken =
    let expired : is_expired decision a.snoozed_until ≡ true = ground arith in
    let b : Alert = record (ack_row at quality a) { snoozed_until = none; state = open_state } in
    rw expired (ground (arith, taken (push_of n b)))

-- The call of the alert's push fails in the round.
abbrev pub IsFailure : Ntfy → Alert → Round → Type 0
IsFailure n a r = r.post a.id (push_of n a) ≡ false

flush_alert_failed :
    (n : Ntfy) (r : Round) (a : Alert)
    → a.snoozed_until ≡ none
    → IsFailure n a r
    → flush_alert n r.post r.decision r.now a ≡ a
unfolding flush_alert expire_snooze
flush_alert_failed n r a free fail = ground arith

flushes_failed :
    (n : Ntfy) (rs : List Round) (a : Alert)
    → a.snoozed_until ≡ none
    → All (IsFailure n a) rs
    → flushes n rs a ≡ a
unfolding flushes
flushes_failed n [] a free fails = refl
flushes_failed n (r ∷ rs) a free fails =
    rw (flush_alert_failed n r a free fails.0) (flushes_failed n rs a free fails.1)

flush_alert_taken :
    (n : Ntfy) (r : Round) (a : Alert)
    → a.snoozed_until ≡ none
    → is_pending n r.decision a ≡ true
    → r.post a.id (push_of n a) ≡ true
    → ((flush_alert n r.post r.decision r.now a).pushes ≡ suc a.pushes)
      × ((flush_alert n r.post r.decision r.now a).notified_at ≡ some r.now)
unfolding flush_alert expire_snooze
flush_alert_taken n r a free pending taken = ground arith

-- After any number of flushes in which its push failed, an alert that is not snoozed and is still
-- pending is pushed and marked by a flush in which the call of its push succeeds.
pub flushes_retry :
    (n : Ntfy) (rs : List Round) (r : Round) (a : Alert)
    → a.snoozed_until ≡ none
    → All (IsFailure n a) rs
    → is_pending n r.decision a ≡ true
    → r.post a.id (push_of n a) ≡ true
    → let b = flush_alert n r.post r.decision r.now (flushes n rs a) in
      (b.pushes ≡ suc a.pushes) × (b.notified_at ≡ some r.now)
flushes_retry n rs r a free fails pending taken =
    rw (flushes_failed n rs a free fails) (flush_alert_taken n r a free pending taken)
