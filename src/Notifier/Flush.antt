-- ===== src/Notifier/Flush.antt =====
-- The alerts' part of `NtfyNotifier.flush`, and the endpoints that snooze and acknowledge an alert.
-- Times are seconds.
use hype_coin_predictive_eng.Prelude.{
  ℕ, suc, ◌+◌, ◌*◌, String, Bool, true, false, ◌&&◌, ◌||◌, Option, none, some, List, [], ◌∷◌, ◌==◌,
  leb, if◌then◌else◌, mem, str_eq,
}
use hype_coin_predictive_eng.Notifier.Push.{
  Push, Ntfy, Alert, AlertState, open_state, acked, closed, push_of,
}

abbrev pub is_open : AlertState → Bool
is_open open_state = true
is_open acked = false
is_open closed = false

-- `snoozed_until is not None and snoozed_until <= decision_ts`
abbrev pub is_expired : ℕ → Option ℕ → Bool
is_expired decision none = false
is_expired decision (some t) = leb t decision

abbrev pub is_unset : Option ℕ → Bool
is_unset none = true
is_unset (some t) = false

-- The loop over the expired snoozes.
unfoldable pub expire_snooze : ℕ → Alert → Alert
expire_snooze decision a =
    if is_expired decision a.snoozed_until
    then record a { snoozed_until = none; state = open_state }
    else a

-- The condition of the query for the rows to push.
unfoldable pub is_pending : Ntfy → ℕ → Alert → Bool
is_pending n decision a =
    mem a.alert_type n.ntfy_alert_types
    && (is_unset a.notified_at
        && (is_open a.state
            && (leb decision (a.created_at + 3600 * n.ntfy_backlog_hours)
                && (is_unset a.snoozed_until || is_expired decision a.snoozed_until))))

-- The body of the loop over the rows: `post` is whether the call of an alert's push succeeds, which is
-- all that the code sees of it.
abbrev pub push_alert : Ntfy → (ℕ → Push → Bool) → ℕ → Alert → Alert
push_alert n post now a =
    if post a.id (push_of n a)
    then record a { notified_at = some now; pushes = suc a.pushes }
    else a

unfoldable pub flush_alert : Ntfy → (ℕ → Push → Bool) → ℕ → ℕ → Alert → Alert
unfolding expire_snooze is_pending
flush_alert n post decision now a =
    let a' = expire_snooze decision a in
    if is_pending n decision a' then push_alert n post now a' else a'

-- How many pushes were sent, failed and were pending.
pub record Counts : Type 0 where
  pub sent : ℕ
  pub errors : ℕ
  pub pending : ℕ

unfoldable pub count_alert : Ntfy → (ℕ → Push → Bool) → ℕ → Alert → Counts → Counts
unfolding expire_snooze is_pending
count_alert n post decision a c =
    let a' = expire_snooze decision a in
    if is_pending n decision a'
    then if post a'.id (push_of n a')
      then record { sent = suc c.sent; errors = c.errors; pending = suc c.pending }
      else record { sent = c.sent; errors = suc c.errors; pending = suc c.pending }
    else c

unfoldable pub flush_alerts : Ntfy → (ℕ → Push → Bool) → ℕ → ℕ → List Alert → List Alert × Counts
unfolding flush_alert count_alert
flush_alerts n post decision now [] = ([], record { sent = 0; errors = 0; pending = 0 })
flush_alerts n post decision now (a ∷ l) =
    let (l', c) = flush_alerts n post decision now l in
    (flush_alert n post decision now a ∷ l', count_alert n post decision a c)

-- `snooze_alert`: the row with this id, if there is one.
abbrev pub snooze_row : ℕ → ℕ → Alert → Alert
snooze_row now hours a = record a { state = open_state; snoozed_until = some (now + 3600 * hours) }

-- `ack_alert`, whose quality has passed the test of the endpoint. It leaves `snoozed_until`.
abbrev pub ack_row : ℕ → Option String → Alert → Alert
ack_row now quality a = record a { state = acked; acked_at = some now; ack_quality = quality }

unfoldable pub update_row : ℕ → (Alert → Alert) → List Alert → List Alert
update_row id change [] = []
update_row id change (a ∷ l) =
    let rest = update_row id change l in if a.id == id then change a ∷ rest else a ∷ rest

abbrev pub is_quality : Option String → Bool
is_quality none = true
is_quality (some q) = str_eq q "useful" || str_eq q "noise"

-- `none` is the answer 422; the quality is stripped and in lower case.
abbrev pub ack_alert : ℕ → ℕ → Option String → List Alert → Option (List Alert)
ack_alert now id quality l =
    if is_quality quality then some (update_row id (ack_row now quality) l) else none

abbrev pub snooze_alert : ℕ → ℕ → ℕ → List Alert → List Alert
snooze_alert now id hours l = update_row id (snooze_row now hours) l
