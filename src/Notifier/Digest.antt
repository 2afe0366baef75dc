-- ===== src/Notifier/Digest.antt =====
-- `_daily_digest` and the whole of `NtfyNotifier.flush`. A day is the number of whole days of the time,
-- which is in UTC and at least a day.
use hype_coin_predictive_eng.Prelude.{
  ℕ, ◌+◌, ◌-◌, ◌/◌, String, Bool, ◌&&◌, ◌||◌, Option, none, some, List, [], ◌∷◌, ◌++◌, ◌==◌, leb,
  if◌then◌else◌, str_eq, filter, length,
}
use hype_coin_predictive_eng.Notifier.Push.{Piece, text, number, Push, Ntfy, Alert, enabled}
use hype_coin_predictive_eng.Notifier.Flush.{Counts, flush_alerts}

-- A lifecycle or ignition event: the phase or type, and its line.
pub record EventRow : Type 0 where
  pub kind : String
  pub ts : ℕ
  pub line : List Piece

-- A row of the digests.
pub record NotificationDigest : Type 0 where
  pub digest_key : ℕ
  pub window_start : ℕ
  pub window_end : ℕ
  pub terminal_count : ℕ
  pub ignition_count : ℕ
  pub message : List Piece
  pub sent_at : Option ℕ

pub data DigestStatus : Type 0 where
  disabled already_sent sent failed : DigestStatus

abbrev pub in_window : ℕ → EventRow → Bool
in_window decision e = leb decision (e.ts + 86400) && leb e.ts decision

abbrev pub is_terminal_phase : String → Bool
is_terminal_phase phase = str_eq phase "collapse" || (str_eq phase "rugged" || str_eq phase "dead")

abbrev pub lines_of : List EventRow → List Piece
lines_of [] = []
lines_of (e ∷ l) = e.line ++ lines_of l

abbrev pub section_of : String → List EventRow → List Piece
section_of title [] = []
section_of title (e ∷ l) = text title ∷ lines_of (e ∷ l)

-- `_format_daily_digest`
abbrev pub format_daily_digest : ℕ → List EventRow → List EventRow → List Piece
format_daily_digest decision terminal ignitions =
    text "Serpent Circle daily digest"
    ∷ text "Window: "
    ∷ number decision
    ∷ text "Terminal transitions: "
    ∷ number (length terminal)
    ∷ text "Ignitions: "
    ∷ number (length ignitions)
    ∷ (section_of "Terminal transitions:" terminal
        ++ (section_of "Ignitions:" ignitions
            ++ (if (length terminal == 0) && (length ignitions == 0)
                then text "No terminal transitions or ignitions in the last 24 hours." ∷ []
                else [])))

abbrev pub digest_push : Ntfy → List Piece → Push
digest_push n message = record {
  message = message;
  title = text "Serpent Circle - Daily Digest" ∷ [];
  priority = 3;
  tags = "bar_chart";
  click = text n.api_base_url ∷ text "/alerts" ∷ [];
}

-- The row of a day that has none, and the row as the next attempt writes it.
abbrev pub fresh_digest : ℕ → NotificationDigest
fresh_digest key = record {
  digest_key = key;
  window_start = 0;
  window_end = 0;
  terminal_count = 0;
  ignition_count = 0;
  message = [];
  sent_at = none;
}

-- `posted` is whether the call of the post succeeded.
abbrev pub attempt : Bool → ℕ → NotificationDigest → NotificationDigest
attempt posted now d = if posted then record d { sent_at = some now } else d

abbrev pub status_of : Bool → DigestStatus
status_of posted = if posted then sent else failed

abbrev pub try_digest : Bool → ℕ → NotificationDigest → DigestStatus × NotificationDigest
try_digest posted now d = elim (d.sent_at) [
  | none ↦ (status_of posted, attempt posted now d)
  | some t ↦ (already_sent, d)
]

-- The row of the day is found or made, written, and its delivery is tried, unless it was sent.
unfoldable pub upsert_digest :
    ℕ
    → (NotificationDigest → DigestStatus × NotificationDigest)
    → List NotificationDigest
    → DigestStatus × List NotificationDigest
upsert_digest key change [] = let (status, d) = change (fresh_digest key) in (status, d ∷ [])
upsert_digest key change (d ∷ l) =
    let (status, l') = upsert_digest key change l in
    if d.digest_key == key
    then (let (status', d') = change d in (status', d' ∷ l))
    else (status, d ∷ l')

abbrev pub write_digest :
    ℕ → List EventRow → List EventRow → NotificationDigest → NotificationDigest
write_digest decision terminal ignitions d = elim (d.sent_at) [
  | none ↦ record d {
    window_start = decision - 86400;
    window_end = decision;
    terminal_count = length terminal;
    ignition_count = length ignitions;
    message = format_daily_digest decision terminal ignitions;
  }
  | some t ↦ d
]

-- The events, in the order of their times.
pub record Events : Type 0 where
  pub lifecycle : List EventRow
  pub ignition : List EventRow

abbrev pub terminal_of : Events → ℕ → List EventRow
terminal_of events decision =
    filter (λ e. is_terminal_phase e.kind && in_window decision e) events.lifecycle

abbrev pub ignitions_of : Events → ℕ → List EventRow
ignitions_of events decision = filter (λ e. in_window decision e) events.ignition

abbrev pub daily_push : Ntfy → Events → ℕ → Push
daily_push n events decision =
    digest_push n
      (format_daily_digest decision (terminal_of events decision) (ignitions_of events decision))

-- The post of a digest counts as that of the alert 0.
unfoldable pub daily_digest :
    Ntfy
    → (ℕ → Push → Bool)
    → Events
    → ℕ
    → ℕ
    → List NotificationDigest
    → DigestStatus × List NotificationDigest
unfolding upsert_digest
daily_digest n post events decision now digests =
    if n.ntfy_daily_digest_enabled
    then upsert_digest (decision / 86400)
        (λ d.
          try_digest (post 0 (daily_push n events decision)) now
            (write_digest decision (terminal_of events decision) (ignitions_of events decision) d))
        digests
    else (disabled, digests)

-- What the notifier reads and writes; `health` is the last health row, `ok` or `yellow`.
pub data Health : Type 0 where
  ok yellow : Health

pub record Notes : Type 0 where
  pub alerts : List Alert
  pub digests : List NotificationDigest
  pub health : Option Health

pub data FlushResult : Type 0 where
  skipped : FlushResult
  flushed : Counts → DigestStatus → FlushResult

abbrev pub digest_errors : DigestStatus → ℕ
digest_errors disabled = 0
digest_errors already_sent = 0
digest_errors sent = 0
digest_errors failed = 1

-- `flush` at the decision time, when the clock reads `now`.
unfoldable pub flush : Ntfy → (ℕ → Push → Bool) → Events → ℕ → ℕ → Notes → FlushResult × Notes
unfolding daily_digest flush_alerts
flush n post events decision now s =
    if enabled n
    then (let (alerts, counts) = flush_alerts n post decision now s.alerts in
        let (status, digests) = daily_digest n post events decision now s.digests in
        (
          flushed counts status,
          record {
            alerts = alerts;
            digests = digests;
            health = some (if counts.errors + digest_errors status == 0 then ok else yellow);
          },
        ))
    else (skipped, s)
