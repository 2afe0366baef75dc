-- ===== src/Notifier/Once.antt =====
-- What the server takes of an alert. `post` is whether the call of a push succeeds; the server may also
-- take a push whose call fails, and a scan that rolls back forgets the marks of its pushes. Neither is
-- seen by the code, so both are counted by a ghost beside the row.
use hype_coin_predictive_eng.Prelude.{
  ℕ, ◌+◌, ◌≡◌, inl, inr, refl, Bool, true, not, ◌&&◌, ◌||◌, Option, none, some, List, [], ◌∷◌, ◌==◌,
  if◌then◌else◌, map, All, arith, Bool-cases,
}
use hype_coin_predictive_eng.Notifier.Push.{Push, Ntfy, Alert, push_of}
use hype_coin_predictive_eng.Notifier.Flush.{
  expire_snooze, is_pending, flush_alert, flush_alerts, update_row,
}

-- Whether the call of a push succeeds, and whether the server takes the push although its call fails.
pub record Wire : Type 0 where
  pub post : ℕ → Push → Bool
  pub kept : ℕ → Push → Bool

-- A row of the alerts, how many of its pushes the server took, and how many of these the table does not
-- know of: the call failed, or the scan was rolled back.
pub record Tracked : Type 0 where
  pub row : Alert
  pub taken : ℕ
  pub unknown : ℕ

abbrev pub marked : Option ℕ → ℕ
marked none = 0
marked (some t) = 1

-- The server took the alert once if it is marked as notified, and once for each push that the table
-- does not know of.
abbrev pub IsCounted : Tracked → Type 0
IsCounted t = t.taken ≡ t.unknown + marked t.row.notified_at

-- The row after a flush whose scan commits or rolls back, and the server's part.
unfoldable pub track_alert : Ntfy → Wire → Bool → ℕ → ℕ → Tracked → Tracked
unfolding flush_alert
track_alert n w commits decision now t =
    let a = expire_snooze decision t.row in
    let pushed = is_pending n decision a in
    let ok = w.post a.id (push_of n a) in
    let lost = not ok && w.kept a.id (push_of n a) in
    record {
      row = if commits then flush_alert n w.post decision now t.row else t.row;
      taken = t.taken + (if pushed && (ok || lost) then 1 else 0);
      unknown = t.unknown + (if pushed && ((ok && not commits) || lost) then 1 else 0);
    }

track_alert-IsCounted :
    (n : Ntfy) (w : Wire) (commits : Bool) (decision now : ℕ) (t : Tracked)
    → IsCounted t
    → IsCounted (track_alert n w commits decision now t)
unfolding track_alert flush_alert expire_snooze is_pending
track_alert-IsCounted n w commits decision now t h = ground arith

pub track_alerts-IsCounted :
    (n : Ntfy) (w : Wire) (commits : Bool) (decision now : ℕ) (l : List Tracked)
    → All IsCounted l
    → All IsCounted (map (track_alert n w commits decision now) l)
track_alerts-IsCounted n w commits decision now [] h = tt
track_alerts-IsCounted n w commits decision now (t ∷ l) h = (
  track_alert-IsCounted n w commits decision now t h.0,
  track_alerts-IsCounted n w commits decision now l h.1,
)

-- A change of the row with this id.
unfoldable pub update_tracked : ℕ → (Alert → Alert) → List Tracked → List Tracked
update_tracked id change [] = []
update_tracked id change (t ∷ l) =
    let rest = update_tracked id change l in
    if t.row.id == id then record t { row = change t.row } ∷ rest else t ∷ rest

pub update_tracked-IsCounted :
    (id : ℕ) (change : Alert → Alert) (l : List Tracked)
    → ((a : Alert) → (change a).notified_at ≡ a.notified_at)
    → All IsCounted l
    → All IsCounted (update_tracked id change l)
unfolding update_tracked
update_tracked-IsCounted id change [] k h = tt
update_tracked-IsCounted id change (t ∷ l) k h =
    let rest = update_tracked-IsCounted id change l k h.1 in
    elim (Bool-cases (t.row.id == id)) [
      | inl e ↦ rw e (rw (k t.row) h.0, rest)
      | inr e ↦ rw e (h.0, rest)
    ]

abbrev pub rows_of : List Tracked → List Alert
rows_of l = map (λ t. t.row) l

-- The rows are those of the notifier.
pub rows_of-track :
    (n : Ntfy) (w : Wire) (decision now : ℕ) (l : List Tracked)
    → rows_of (map (track_alert n w true decision now) l)
      ≡ (flush_alerts n w.post decision now (rows_of l)).0
unfolding track_alert flush_alerts
rows_of-track n w decision now [] = refl
rows_of-track n w decision now (t ∷ l) = rw (rows_of-track n w decision now l) refl

pub rows_of-update :
    (id : ℕ) (change : Alert → Alert) (l : List Tracked)
    → rows_of (update_tracked id change l) ≡ update_row id change (rows_of l)
unfolding update_tracked update_row
rows_of-update id change [] = refl
rows_of-update id change (t ∷ l) = elim (Bool-cases (t.row.id == id)) [
  | inl e ↦ rw (e, rows_of-update id change l) refl
  | inr e ↦ rw (e, rows_of-update id change l) refl
]
