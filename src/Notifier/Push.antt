-- ===== src/Notifier/Push.antt =====
-- One push: its text and headers. What Python's text methods do is a
-- parameter; a text that the source formats is the list of its pieces.
use hype_coin_predictive_eng.Prelude.{
  ℕ, String, Bool, not, ◌&&◌, Option, none, some, List, [], ◌∷◌, str_eq, Dict, lookup,
}

pub data Piece : Type 0 where
  text : String → Piece
  number : ℕ → Piece

pub record Push : Type 0 where
  pub message : List Piece
  pub title : List Piece
  pub priority : ℕ
  pub tags : String
  pub click : List Piece

-- The settings, and the text methods `.replace("_", " ").title()` and `.upper()`.
pub record Ntfy : Type 0 where
  pub ntfy_enabled : Bool
  pub ntfy_topic : String
  pub ntfy_alert_types : List String
  pub ntfy_backlog_hours : ℕ
  pub ntfy_daily_digest_enabled : Bool
  pub api_base_url : String
  pub title_case : String → String
  pub upper : String → String

-- `bool(ntfy_enabled and ntfy_topic)`
abbrev pub enabled : Ntfy → Bool
enabled n = n.ntfy_enabled && not (str_eq n.ntfy_topic "")

abbrev pub push_profile : Dict (ℕ × String)
push_profile =
    ("ignition_detected", (3, "rocket"))
    ∷ ("liquidity_withdrawal_warning", (5, "skull"))
    ∷ ("syndicate_recidivism", (4, "police_car"))
    ∷ ("lifecycle_transition", (5, "collision"))
    ∷ []

abbrev pub profile_or_default : Option (ℕ × String) → ℕ × String
profile_or_default none = (2, "bell")
profile_or_default (some p) = p

-- A row of the alerts, with its asset's symbol if the asset is there, and how many calls of its pushes
-- succeeded, as a ghost.
pub data AlertState : Type 0 where
  open_state acked closed : AlertState

pub record Alert : Type 0 where
  pub id : ℕ
  pub asset_id : ℕ
  pub symbol : Option String
  pub alert_type : String
  pub state : AlertState
  pub message : String
  pub created_at : ℕ
  pub notified_at : Option ℕ
  pub acked_at : Option ℕ
  pub ack_quality : Option String
  pub snoozed_until : Option ℕ
  pub pushes : ℕ

-- The text and headers that `_send` posts.
unfoldable pub push_of : Ntfy → Alert → Push
unfolding lookup
push_of n a =
    let (priority, tag) = profile_or_default (lookup a.alert_type push_profile) in
    record {
      message = text a.message ∷ [];
      title =
          text (elim (a.symbol) [ none ↦ "?" | some s ↦ s ])
          ∷ text (n.title_case a.alert_type)
          ∷ [];
      priority = priority;
      tags = tag;
      click = text n.api_base_url ∷ text "/tokens/" ∷ number a.asset_id ∷ [];
    }
