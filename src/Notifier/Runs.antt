-- ===== src/Notifier/Runs.antt =====
-- The alerts and the digests of the days over any commands, and what the server takes of both. A flush is
-- that of a scan, which commits or rolls back afterwards; alerts that a rolled-back scan raised are not
-- in the table, so no command raises them.
use hype_coin_predictive_eng.Prelude.{
  ℕ, ◌+◌, ◌≤◌, ◌/◌, ◌≡◌, inl, inr, refl, String, Bool, true, false, not, ◌&&◌, ◌||◌, Option, none,
  some, List, [], ◌∷◌, ◌==◌, if◌then◌else◌, map, All, arith, Bool-cases,
}
use hype_coin_predictive_eng.Notifier.Push.{Ntfy, Alert, open_state, enabled}
use hype_coin_predictive_eng.Notifier.Flush.{
  ack_row, snooze_row, is_quality, ack_alert, snooze_alert,
}
use hype_coin_predictive_eng.Notifier.Digest.{
  NotificationDigest, DigestStatus, disabled, already_sent, sent, failed, Events, daily_push,
  daily_digest, Health, Notes, flush,
}
use hype_coin_predictive_eng.Notifier.Once.{
  Wire, Tracked, IsCounted, track_alert, track_alerts-IsCounted, update_tracked,
  update_tracked-IsCounted, rows_of, rows_of-track, rows_of-update,
}
use hype_coin_predictive_eng.Notifier.Daily.{
  rows_on_none, sent_on, is_sent, sent_on-rows_on, IsDaily, daily_digest-IsDaily,
  daily_digest-sent_on,
}

-- A new row of the alerts.
abbrev pub new_alert : ℕ → String → String → ℕ → Alert
new_alert id alert_type message now = record {
  id = id;
  asset_id = id;
  symbol = none;
  alert_type = alert_type;
  state = open_state;
  message = message;
  created_at = now;
  notified_at = none;
  acked_at = none;
  ack_quality = none;
  snoozed_until = none;
  pushes = 0;
}

abbrev acked_or_same : Option (List Alert) → List Alert → List Alert
acked_or_same none l = l
acked_or_same (some l') l = l'

-- What is done to the alerts, at a time that the command names. The last argument of a flush is whether
-- its scan commits.
pub data Command : Type 0 where
  raise : ℕ → String → String → ℕ → Command
  snooze : ℕ → ℕ → ℕ → Command
  ack : ℕ → ℕ → Option String → Command
  flush_at : Wire → Events → ℕ → ℕ → Bool → Command

-- The rows, and the days of the digests that the server took. The table does not know of those whose
-- call failed or whose scan was rolled back.
pub record Desk : Type 0 where
  pub alerts : List Tracked
  pub digests : List NotificationDigest
  pub digests_taken : List ℕ
  pub digests_unknown : List ℕ

abbrev pub no_desk : Desk
no_desk = record { alerts = []; digests = []; digests_taken = []; digests_unknown = [] }

abbrev add_if : Bool → ℕ → List ℕ → List ℕ
add_if true day l = day ∷ l
add_if false day l = l

abbrev is_failed : DigestStatus → Bool
is_failed failed = true
is_failed _ = false

-- `flush` with the end of its scan. The post of a digest counts as that of the alert 0.
unfoldable pub flush_scan : Ntfy → Wire → Events → ℕ → ℕ → Bool → Desk → Desk
unfolding track_alert daily_digest
flush_scan n w events decision now commits s =
    let (status, digests') = daily_digest n w.post events decision now s.digests in
    let ok = is_sent status == 1 in
    let lost = is_failed status && w.kept 0 (daily_push n events decision) in
    let day = decision / 86400 in
    if enabled n
    then record {
      alerts = map (track_alert n w commits decision now) s.alerts;
      digests = if commits then digests' else s.digests;
      digests_taken = add_if (ok || lost) day s.digests_taken;
      digests_unknown = add_if ((ok && not commits) || lost) day s.digests_unknown;
    }
    else s

unfoldable pub step : Ntfy → Command → Desk → Desk
unfolding flush_scan update_tracked
step n (raise id alert_type message now) s = record s {
  alerts = record { row = new_alert id alert_type message now; taken = 0; unknown = 0 } ∷ s.alerts;
}
step n (snooze now id hours) s = record s {
  alerts = update_tracked id (snooze_row now hours) s.alerts;
}
step n (ack now id quality) s =
    if is_quality quality
    then record s { alerts = update_tracked id (ack_row now quality) s.alerts }
    else s
step n (flush_at w events decision now commits) s = flush_scan n w events decision now commits s

unfoldable pub run : Ntfy → List Command → Desk → Desk
unfolding step
run n [] s = s
run n (c ∷ cs) s = run n cs (step n c s)

abbrev notes_of : Option Health → Desk → Notes
notes_of h s = record { alerts = rows_of s.alerts; digests = s.digests; health = h }

-- The rows that a committed flush leaves are those of `flush`, on any health row.
pub flush_scan-flush :
    (n : Ntfy) (w : Wire) (events : Events) (decision now : ℕ) (s : Desk) (h : Option Health)
    → let s' = (flush n w.post events decision now (notes_of h s)).1 in
      (rows_of (flush_scan n w events decision now true s).alerts ≡ s'.alerts)
      × ((flush_scan n w events decision now true s).digests ≡ s'.digests)
unfolding flush_scan flush
flush_scan-flush n w events decision now s h = elim (Bool-cases (enabled n)) [
  | inl on ↦ rw (on, flush, flush_scan) (rows_of-track n w decision now s.alerts, refl)
  | inr off ↦ rw (off, flush, flush_scan) (refl, refl)
]

-- The rows that an endpoint leaves are those of the endpoint.
pub step-snooze_alert :
    (n : Ntfy) (now id hours : ℕ) (s : Desk)
    → rows_of (step n (snooze now id hours) s).alerts ≡ snooze_alert now id hours (rows_of s.alerts)
unfolding step
step-snooze_alert n now id hours s = rows_of-update id (snooze_row now hours) s.alerts

pub step-ack_alert :
    (n : Ntfy) (now id : ℕ) (quality : Option String) (s : Desk)
    → acked_or_same (ack_alert now id quality (rows_of s.alerts)) (rows_of s.alerts)
      ≡ rows_of (step n (ack now id quality) s).alerts
unfolding step
step-ack_alert n now id quality s = elim (Bool-cases (is_quality quality)) [
  | inl good ↦ rw (good, rows_of-update id (ack_row now quality) s.alerts) refl
  | inr bad ↦ rw bad refl
]

unfoldable pub count : ℕ → List ℕ → ℕ
count day [] = 0
count day (d ∷ l) = (if d == day then 1 else 0) + count day l

-- The server took as many digests of a day as the table marks and as it does not know of.
abbrev pub IsCountedDay : Desk → ℕ → Type 0
IsCountedDay s day = count day s.digests_taken ≡ count day s.digests_unknown + sent_on day s.digests

abbrev IsSettled : Desk → Type 0
IsSettled s = All IsCounted s.alerts × (IsDaily s.digests × ((day : ℕ) → IsCountedDay s day))

-- The digest of one flush: `kept` is whether the server takes the post although its call fails.
settled_day :
    (status : DigestStatus) (kept commits : Bool) (d day marks marks' : ℕ) (taken unknown : List ℕ)
    → count day taken ≡ count day unknown + marks
    → marks' ≡ (if d == day then is_sent status else 0) + marks
    → let ok = is_sent status == 1 in
      let lost = is_failed status && kept in
      (count day (add_if (ok || lost) d taken)
        ≡ count day (add_if ((ok && not commits) || lost) d unknown)
          + (if commits then marks' else marks))
unfolding count
settled_day disabled kept commits d day marks marks' taken unknown h e = ground arith
settled_day already_sent kept commits d day marks marks' taken unknown h e = ground arith
settled_day sent kept true d day marks marks' taken unknown h e = ground arith
settled_day sent kept false d day marks marks' taken unknown h e = ground arith
settled_day failed true commits d day marks marks' taken unknown h e = ground arith
settled_day failed false commits d day marks marks' taken unknown h e = ground arith

sent_on_if :
    (b : Bool) (day : ℕ) (l l' : List NotificationDigest)
    → sent_on day (if b then l else l') ≡ (if b then sent_on day l else sent_on day l')
sent_on_if true day l l' = refl
sent_on_if false day l l' = refl

IsDaily-if :
    (b : Bool) (l l' : List NotificationDigest)
    → IsDaily l
    → IsDaily l'
    → IsDaily (if b then l else l')
IsDaily-if true l l' h h' = h
IsDaily-if false l l' h h' = h'

flush_scan-IsSettled :
    (n : Ntfy) (w : Wire) (events : Events) (decision now : ℕ) (commits : Bool) (s : Desk)
    → IsSettled s
    → IsSettled (flush_scan n w events decision now commits s)
unfolding flush_scan
flush_scan-IsSettled n w events decision now commits s (counted, (daily, days)) =
    elim (Bool-cases (enabled n)) [
      | inl on ↦
          let status = (daily_digest n w.post events decision now s.digests).0 in
          let digests' = (daily_digest n w.post events decision now s.digests).1 in
          let kept = w.kept 0 (daily_push n events decision) in
          rw on (
            track_alerts-IsCounted n w commits decision now s.alerts counted,
            (
              IsDaily-if commits digests' s.digests
                  (daily_digest-IsDaily n w.post events decision now s.digests daily) daily,
              λ day. rw (sent_on_if commits day digests' s.digests) (
                  settled_day status kept commits (decision / 86400) day (sent_on day s.digests)
                    (sent_on day digests') s.digests_taken s.digests_unknown (days day)
                    (daily_digest-sent_on n w.post events decision now day s.digests)),
            ),
          )
      | inr off ↦ rw off (counted, (daily, days))
    ]

step-IsSettled : (n : Ntfy) (c : Command) (s : Desk) → IsSettled s → IsSettled (step n c s)
unfolding step
step-IsSettled n (raise id alert_type message now) s (counted, rest) = ((refl, counted), rest)
step-IsSettled n (snooze now id hours) s (counted, rest) =
    (update_tracked-IsCounted id (snooze_row now hours) s.alerts (λ a. refl) counted, rest)
step-IsSettled n (ack now id quality) s (counted, rest) = elim (Bool-cases (is_quality quality)) [
  | inl good ↦
      rw good (update_tracked-IsCounted id (ack_row now quality) s.alerts (λ a. refl) counted, rest)
  | inr bad ↦ rw bad (counted, rest)
]
step-IsSettled n (flush_at w events decision now commits) s h =
    flush_scan-IsSettled n w events decision now commits s h

run-IsSettled : (n : Ntfy) (cs : List Command) (s : Desk) → IsSettled s → IsSettled (run n cs s)
unfolding run
run-IsSettled n [] s h = h
run-IsSettled n (c ∷ cs) s h = run-IsSettled n cs (step n c s) (step-IsSettled n c s h)

no_desk-IsSettled : IsSettled no_desk
unfolding count sent_on
no_desk-IsSettled = (tt, (λ day. rows_on_none day, λ day. omega arith))

-- Whatever is raised, snoozed, acknowledged and flushed, whichever posts fail and scans roll back, the
-- server takes each alert of the table once if it is marked as notified and not at all if it is not,
-- and once more for each push that it took although the call failed, and for each push whose call
-- succeeded in a scan that was rolled back.
pub run-IsCounted : (n : Ntfy) (cs : List Command) → All IsCounted (run n cs no_desk).alerts
run-IsCounted n cs = (run-IsSettled n cs no_desk no_desk-IsSettled).0

-- Over the same commands, the table marks at most one digest of each day as sent, and the server takes
-- that digest, one more for each post of the day that it took although the call failed, and one more for
-- each whose call succeeded in a scan that was rolled back.
pub run-IsCountedDay :
    (n : Ntfy) (cs : List Command) (day : ℕ)
    → (sent_on day (run n cs no_desk).digests ≤ 1) × IsCountedDay (run n cs no_desk) day
run-IsCountedDay n cs day =
    let (daily, days) = (run-IsSettled n cs no_desk no_desk-IsSettled).1 in
    (omega (arith, sent_on-rows_on day (run n cs no_desk).digests, daily day), days day)
