-- ===== src/Webhooks/Dispatch.antt =====
-- One dispatch of a webhook: `should_dispatch`, `build_payload`, `dispatch_webhook` and
-- `_record_dispatch`. Times are milliseconds. The rows of the two tables are one record: a webhook has
-- the rows of its dispatches and the requests that were made for it, newest first.
use hype_coin_predictive_eng.Prelude.{
  ℕ, ◌+◌, ◌*◌, String, Bool, false, not, ◌&&◌, Option, none, some, List, [], ◌∷◌, ◌++◌, ltb,
  if◌then◌else◌, mem, Dict,
}
use hype_coin_predictive_eng.Webhooks.Policy.{
  Library, Settings, Parsed, WebhookUrlError, Validation, valid, invalid, escaped, is_empty,
  validate_webhook_url,
}

-- The columns that a payload takes of an alert, and those of an asset with its chain's slug.
pub record AlertBody : Type 0 where
  pub id : ℕ
  pub alert_type : String
  pub state : String
  pub message : String

pub record AssetBody : Type 0 where
  pub id : ℕ
  pub symbol : String
  pub chain : Option String
  pub address : String

-- `extra` has none of the keys of the payload.
pub record Payload : Type 0 where
  pub event_type : String
  pub timestamp : ℕ
  pub alert : Option AlertBody
  pub asset : Option AssetBody
  pub extra : Dict String

abbrev pub build_payload : ℕ → String → Option AlertBody → Option AssetBody → Dict String → Payload
build_payload now event_type alert asset extra = record {
  event_type = event_type;
  timestamp = now;
  alert = alert;
  asset = asset;
  extra = extra;
}

-- The lines of a message, without their markup.
pub data Line : Type 0 where
  heading : Line
  event : String → Line
  symbol_on : String → String → Line
  code text : String → Line

abbrev pub asset_lines : Option AssetBody → List Line
asset_lines none = []
asset_lines (some a) =
    symbol_on a.symbol (elim (a.chain) [ none ↦ "unknown" | some c ↦ c ]) ∷ code a.address ∷ []

abbrev pub alert_lines : Option AlertBody → List Line
alert_lines none = []
alert_lines (some a) = if is_empty a.message then [] else text a.message ∷ []

-- `_format_telegram_message` and `_format_discord_message`, which differ in the markup.
abbrev pub format_message : Payload → List Line
format_message p = heading ∷ event p.event_type ∷ (asset_lines p.asset ++ alert_lines p.alert)

-- What is sent: the payload, or what Telegram or Discord wants.
pub data Body : Type 0 where
  plain : Payload → Body
  telegram : String → List Line → Body
  discord : List Line → Body

-- A call of `client.post`, with the digest of the header X-Signature-256.
pub record Post : Type 0 where
  pub url : String
  pub content : String
  pub signature : Option String
  pub sent_at : ℕ

pub data Reply : Type 0 where
  status : ℕ → Reply
  no_reply : String → Reply

-- The libraries that a dispatch calls, and how long it takes until the request and after it.
pub record Wire : Type 0 where
  pub dumps : Body → String
  pub hmac_sha256 : String → String → String
  pub answer : Post → Reply
  pub checking : ℕ → ℕ
  pub sending : ℕ → ℕ

pub data DispatchError : Type 0 where
  blocked : WebhookUrlError → DispatchError
  failed : String → DispatchError

-- `WebhookDispatchResult`, and the columns of a row of webhook_dispatches.
pub record WebhookDispatchResult : Type 0 where
  pub success : Bool
  pub status_code : Option ℕ
  pub error : Option DispatchError

pub record WebhookConfig : Type 0 where
  pub id : ℕ
  pub url : String
  pub name : String
  pub secret : Option String
  pub event_types : List String
  pub enabled : Bool
  pub cooldown_seconds : ℕ
  pub chain_filter : Option String
  pub min_signal_score : ℕ
  pub last_dispatched_at : Option ℕ
  pub dispatches : List WebhookDispatchResult
  pub posts : List Post

-- `elapsed < cooldown_seconds`, where the clock may have gone back.
abbrev pub is_cooling : ℕ → WebhookConfig → Bool
is_cooling now w = elim (w.last_dispatched_at) [
  | none ↦ false
  | some last ↦ ltb now (last + 1000 * w.cooldown_seconds)
]

abbrev pub should_dispatch : ℕ → String → WebhookConfig → Bool
should_dispatch now event_type w =
    if not w.enabled
    then false
    else if not (mem event_type w.event_types)
    then false
    else not (is_cooling now w)

abbrev pub record_dispatch : ℕ → WebhookDispatchResult → WebhookConfig → WebhookConfig
record_dispatch now r w = record w { last_dispatched_at = some now; dispatches = r ∷ w.dispatches }

-- How a dispatch ends, with the webhook and the time; `none` is an exception that leaves it.
abbrev pub Ended : Type 0
Ended = Option WebhookDispatchResult × WebhookConfig × ℕ

module _ (l : Library) (s : Settings) (v : Wire) where
  abbrev pub body_of : WebhookConfig → Parsed → Payload → Body
  body_of w p payload =
      if l.contains "api.telegram.org" p.hostname
      then telegram w.name (format_message payload)
      else if l.contains "discord.com" p.hostname && l.contains "/api/webhooks/" w.url
      then discord (format_message payload)
      else plain payload

  -- `if webhook.secret`: an empty secret signs nothing.
  abbrev pub sign_with : Option String → String → Option String
  sign_with none content = none
  sign_with (some secret) content =
      if is_empty secret then none else some (v.hmac_sha256 secret content)

  abbrev pub result_of : Reply → WebhookDispatchResult
  result_of (status c) = record { success = ltb c 400; status_code = some c; error = none }
  result_of (no_reply e) = record { success = false; status_code = none; error = some (failed e) }

  abbrev pub blocked_by : DispatchError → WebhookDispatchResult
  blocked_by e = record { success = false; status_code = none; error = some e }

  abbrev pub finish : ℕ → WebhookDispatchResult → WebhookConfig → Ended
  finish sent_at r w =
      let end = sent_at + v.sending sent_at in (some r, record_dispatch end r w, end)

  -- From the body to the answer; the parse of the URL is none if it raises.
  unfoldable pub send : ℕ → Payload → WebhookConfig → Option Parsed → Ended
  send sent_at payload w none = finish sent_at (blocked_by (failed "unparseable URL")) w
  send sent_at payload w (some p) =
      let content = v.dumps (body_of w p payload) in
      let post : Post = record {
        url = w.url;
        content = content;
        signature = sign_with w.secret content;
        sent_at = sent_at;
      } in
      finish sent_at (result_of (v.answer post)) (record w { posts = post ∷ w.posts })

  unfoldable pub dispatch_valid : ℕ → Payload → WebhookConfig → Validation → Ended
  unfolding send
  dispatch_valid now payload w (valid raw) =
      send (now + v.checking now) payload w (l.urlparse w.url)
  dispatch_valid now payload w (invalid e) =
      finish (now + v.checking now) (blocked_by (blocked e)) w
  dispatch_valid now payload w escaped = (none, w, now + v.checking now)

  unfoldable pub dispatch_webhook : ℕ → Payload → WebhookConfig → Ended
  unfolding dispatch_valid
  dispatch_webhook now payload w = dispatch_valid now payload w (validate_webhook_url l s now w.url)
