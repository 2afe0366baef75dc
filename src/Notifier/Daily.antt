-- ===== src/Notifier/Daily.antt =====
-- What a flush does to the digests of the days.
use hype_coin_predictive_eng.Prelude.{
  Option, some, ℕ, ◌+◌, ◌≤◌, ◌/◌, ◌≡◌, inl, inr, Bool, none, List, [], ◌∷◌, ◌==◌, if◌then◌else◌,
  arith, Bool-cases,
}
use hype_coin_predictive_eng.Notifier.Push.{Push, Ntfy}
use hype_coin_predictive_eng.Notifier.Once.{marked}
use hype_coin_predictive_eng.Notifier.Digest.{
  disabled, already_sent, sent, failed, EventRow, terminal_of, ignitions_of, daily_push,
  NotificationDigest, DigestStatus, Events, try_digest, write_digest, upsert_digest, fresh_digest,
  daily_digest,
}

unfoldable pub rows_on : ℕ → List NotificationDigest → ℕ
rows_on key [] = 0
rows_on key (d ∷ l) = (if d.digest_key == key then 1 else 0) + rows_on key l

-- The rows of a day that are marked as sent.
unfoldable pub sent_on : ℕ → List NotificationDigest → ℕ
sent_on key [] = 0
sent_on key (d ∷ l) = (if d.digest_key == key then marked d.sent_at else 0) + sent_on key l

abbrev pub is_sent : DigestStatus → ℕ
is_sent disabled = 0
is_sent already_sent = 0
is_sent sent = 1
is_sent failed = 0

pub rows_on_none : (key : ℕ) → rows_on key [] ≤ 1
unfolding rows_on
rows_on_none key = omega arith

marked_few : (o : Option ℕ) → marked o ≤ 1
marked_few none = omega arith
marked_few (some t) = omega arith

pub sent_on-rows_on : (key : ℕ) (l : List NotificationDigest) → sent_on key l ≤ rows_on key l
unfolding sent_on rows_on
sent_on-rows_on key [] = omega arith
sent_on-rows_on key (d ∷ l) = ground (arith, marked_few d.sent_at, sent_on-rows_on key l)

-- The change keeps the row's day, and marks the row where it says that the digest is sent.
abbrev pub Keeps : (NotificationDigest → DigestStatus × NotificationDigest) → Type 0
Keeps change =
    (d : NotificationDigest)
    → ((change d).1.digest_key ≡ d.digest_key)
      × (marked (change d).1.sent_at ≡ is_sent (change d).0 + marked d.sent_at)

upsert_digest-rows_on :
    (key k : ℕ) (change : NotificationDigest → DigestStatus × NotificationDigest)
    (l : List NotificationDigest)
    → Keeps change
    → rows_on k (upsert_digest key change l).1
      ≡ (if (key == k) then (if rows_on k l == 0 then 1 else rows_on k l) else rows_on k l)
unfolding upsert_digest rows_on
upsert_digest-rows_on key k change [] h = ground (arith, h (fresh_digest key))
upsert_digest-rows_on key k change (d ∷ l) h =
    ground (arith, h d, upsert_digest-rows_on key k change l h)

upsert_digest-sent_on :
    (key k : ℕ) (change : NotificationDigest → DigestStatus × NotificationDigest)
    (l : List NotificationDigest)
    → Keeps change
    → sent_on k (upsert_digest key change l).1
      ≡ (if key == k then is_sent (upsert_digest key change l).0 else 0) + sent_on k l
unfolding upsert_digest sent_on
upsert_digest-sent_on key k change [] h = ground (arith, h (fresh_digest key))
upsert_digest-sent_on key k change (d ∷ l) h =
    ground (arith, h d, upsert_digest-sent_on key k change l h)

try-Keeps :
    (posted : Bool) (now decision : ℕ) (terminal ignitions : List EventRow)
    → Keeps (λ d. try_digest posted now (write_digest decision terminal ignitions d))
try-Keeps posted now decision terminal ignitions d = ground arith

-- No day has two rows.
abbrev pub IsDaily : List NotificationDigest → Type 0
IsDaily l = (key : ℕ) → rows_on key l ≤ 1

pub daily_digest-IsDaily :
    (n : Ntfy) (post : ℕ → Push → Bool) (events : Events) (decision now : ℕ)
    (l : List NotificationDigest)
    → IsDaily l
    → IsDaily (daily_digest n post events decision now l).1
unfolding daily_digest
daily_digest-IsDaily n post events decision now l few key =
    elim (Bool-cases (n.ntfy_daily_digest_enabled)) [
      | inl on ↦
          let terminal = terminal_of events decision in
          let ignitions = ignitions_of events decision in
          let posted = post 0 (daily_push n events decision) in
          let counted =
            upsert_digest-rows_on (decision / 86400) key
              (λ d. try_digest posted now (write_digest decision terminal ignitions d)) l
              (try-Keeps posted now decision terminal ignitions) in
          let one = few key in rw on (ground arith)
      | inr off ↦ rw off (few key)
    ]

pub daily_digest-sent_on :
    (n : Ntfy) (post : ℕ → Push → Bool) (events : Events) (decision now key : ℕ)
    (l : List NotificationDigest)
    → let (status, l') = daily_digest n post events decision now l in
      (sent_on key l' ≡ (if decision / 86400 == key then is_sent status else 0) + sent_on key l)
unfolding daily_digest
daily_digest-sent_on n post events decision now key l =
    elim (Bool-cases (n.ntfy_daily_digest_enabled)) [
      | inl on ↦
          let terminal = terminal_of events decision in
          let ignitions = ignitions_of events decision in
          let posted = post 0 (daily_push n events decision) in
          rw on (
            upsert_digest-sent_on (decision / 86400) key
              (λ d. try_digest posted now (write_digest decision terminal ignitions d)) l
              (try-Keeps posted now decision terminal ignitions))
      | inr off ↦ rw off (ground arith)
    ]
