-- ===== src/Notifier/Tests.antt =====
-- A notifier of one type of alert, and the theorems at concrete inputs.
use hype_coin_predictive_eng.Prelude.{
  ℕ, ◌≤◌, ◌≡◌, refl, Bool, true, false, some, List, [], ◌∷◌, All, mem, lookup, arith, map,
}
use hype_coin_predictive_eng.Notifier.Push.{Push, Ntfy, Alert, open_state, push_of}
use hype_coin_predictive_eng.Notifier.Flush.{
  expire_snooze, is_pending, flush_alert, count_alert, flush_alerts, ack_row, snooze_row,
}
use hype_coin_predictive_eng.Notifier.Digest.{Events, upsert_digest, daily_digest, flush}
use hype_coin_predictive_eng.Notifier.Once.{Wire, IsCounted, track_alert, update_tracked}
use hype_coin_predictive_eng.Notifier.Daily.{sent_on}
use hype_coin_predictive_eng.Notifier.Runs.{
  Command, raise, snooze, ack, flush_at, flush_scan, step, run, no_desk, new_alert, count,
  IsCountedDay, run-IsCounted, run-IsCountedDay,
}
use hype_coin_predictive_eng.Notifier.Silent.{Round, flushes, flush_alert-ack_row, flushes_retry}

program : Unit {0}
unfolding lookup mem push_of expire_snooze is_pending flush_alert count_alert flush_alerts
    upsert_digest daily_digest flush step run sent_on flushes track_alert update_tracked flush_scan
    count
program = tt

abbrev ntfy : Ntfy
ntfy = record {
  ntfy_enabled = true;
  ntfy_topic = "serpent";
  ntfy_alert_types = "ignition_detected" ∷ [];
  ntfy_backlog_hours = 24;
  ntfy_daily_digest_enabled = true;
  api_base_url = "http://localhost";
  title_case = λ t. t;
  upper = λ t. t;
}

abbrev no_events : Events
no_events = record { lifecycle = []; ignition = [] }

abbrev taken : ℕ → Push → Bool
taken id p = true

abbrev refused : ℕ → Push → Bool
refused id p = false

abbrev good : Wire
good = record { post = taken; kept = refused }

abbrev bad : Wire
bad = record { post = refused; kept = refused }

-- The server takes each push, and its reply is lost.
abbrev lost : Wire
lost = record { post = refused; kept = taken }

-- A failed flush, a flush that pushes the alert and the digest, and a third.
abbrev commands : List Command
commands =
    raise 1 "ignition_detected" "up" 100
    ∷ raise 2 "noise" "x" 100
    ∷ flush_at bad no_events 200 201 true
    ∷ flush_at good no_events 300 301 true
    ∷ flush_at good no_events 400 401 true
    ∷ []

commands_test :
    (map (λ t. t.taken) (run ntfy commands no_desk).alerts ≡ 0 ∷ 1 ∷ [])
    × (count 0 (run ntfy commands no_desk).digests_taken ≡ 1)
unfolding program
commands_test = (refl, refl)

-- After a lost reply and a flush whose scan is rolled back, the server takes the alert a third time.
abbrev lossy : List Command
lossy =
    raise 1 "ignition_detected" "up" 100
    ∷ flush_at lost no_events 200 201 true
    ∷ flush_at good no_events 300 301 false
    ∷ flush_at good no_events 400 401 true
    ∷ []

lossy_test :
    (map (λ t. t.taken) (run ntfy lossy no_desk).alerts ≡ 3 ∷ [])
    × (map (λ t. t.unknown) (run ntfy lossy no_desk).alerts ≡ 2 ∷ [])
    × (count 0 (run ntfy lossy no_desk).digests_taken ≡ 3)
unfolding program
lossy_test = (refl, refl, refl)

-- An alert that is snoozed at 150 for an hour and acknowledged at 160 is pushed at 4000.
reopened_test :
    map
      (λ t. t.taken)
      (run ntfy
        (raise 1 "ignition_detected" "up" 100
          ∷ snooze 150 1 1
          ∷ ack 160 1 (some "useful")
          ∷ flush_at good no_events 200 201 true
          ∷ flush_at good no_events 4000 4001 true
          ∷ [])
        no_desk).alerts
    ≡ 1 ∷ []
unfolding program
reopened_test = refl

run-IsCounted_example : All IsCounted (run ntfy lossy no_desk).alerts
run-IsCounted_example = run-IsCounted ntfy lossy

run-IsCountedDay_example :
    (sent_on 0 (run ntfy lossy no_desk).digests ≤ 1) × IsCountedDay (run ntfy lossy no_desk) 0
run-IsCountedDay_example = run-IsCountedDay ntfy lossy 0

abbrev alert : Alert
alert = new_alert 1 "ignition_detected" "up" 100

abbrev rounds : List Round
rounds =
    record { post = refused; decision = 200; now = 201 }
    ∷ record { post = refused; decision = 300; now = 301 }
    ∷ []

abbrev snoozed : Alert
snoozed = snooze_row 150 1 alert

alert_typed : mem "ignition_detected" ntfy.ntfy_alert_types ≡ true
unfolding program
alert_typed = refl

flush_alert-ack_row_example :
    let b = flush_alert ntfy taken 4000 4001 (ack_row 160 (some "useful") snoozed) in
    (b.state ≡ open_state) × (b.pushes ≡ 1)
flush_alert-ack_row_example =
    flush_alert-ack_row ntfy taken 4000 4001 160 3750 (some "useful") snoozed refl (omega arith)
      alert_typed refl (omega arith) (λ p. refl)

alert_pending : is_pending ntfy 400 alert ≡ true
unfolding program
alert_pending = refl

flushes_retry_example :
    let b = flush_alert ntfy taken 400 401 (flushes ntfy rounds alert) in
    (b.pushes ≡ 1) × (b.notified_at ≡ some 401)
flushes_retry_example =
    flushes_retry ntfy rounds (record { post = taken; decision = 400; now = 401 }) alert refl
      (refl, (refl, tt)) alert_pending refl
