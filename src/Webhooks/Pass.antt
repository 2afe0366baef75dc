-- ===== src/Webhooks/Pass.antt =====
-- The loops over the webhooks: `dispatch_alerts` and `_dispatch_high_signal_webhooks`; and the
-- registration and deletion of webhooks.
use hype_coin_predictive_eng.Prelude.{
  ℕ, ◌+◌, String, Bool, true, false, not, Option, none, some, List, [], ◌∷◌, ◌++◌, if◌then◌else◌,
  ◌==◌, take, filter, Dict,
}
use hype_coin_predictive_eng.Webhooks.Policy.{
  Library, Settings, Validation, valid, invalid, escaped, validate_webhook_url,
}
use hype_coin_predictive_eng.Webhooks.Dispatch.{
  AlertBody, AssetBody, Payload, Wire, WebhookDispatchResult, WebhookConfig, Ended, build_payload,
  should_dispatch, dispatch_webhook,
}

-- The results, the webhooks, the time, and whether the loop came to its end.
pub record Looped : Type 0 where
  pub results : List WebhookDispatchResult
  pub webhooks : List WebhookConfig
  pub now : ℕ
  pub done : Bool

abbrev pub default_event_types : List String
default_event_types =
    "ignition_detected" ∷ "liquidity_withdrawal_warning" ∷ "syndicate_recidivism"
    ∷ "lifecycle_transition" ∷ "high_signal_scan" ∷ []

-- A signal of the batch: what its payload says, and the asset of its market snapshot if that is found.
pub record Signal : Type 0 where
  pub actionable : Bool
  pub extra : Dict String
  pub asset : Option AssetBody

-- The arguments of `register_webhook`.
pub record Registration : Type 0 where
  pub url : String
  pub name : String
  pub event_types : List String
  pub secret : Option String
  pub enabled : Bool
  pub cooldown_seconds : ℕ
  pub chain_filter : Option String
  pub min_signal_score : ℕ

-- The table of the webhooks, newest first, as `list_webhooks` has them.
pub record Hooks : Type 0 where
  pub webhooks : List WebhookConfig
  pub next_id : ℕ
  pub now : ℕ

-- `event_types or DEFAULT_EVENT_TYPES`
abbrev pub or_default : List String → List String
or_default [] = default_event_types
or_default (e ∷ es) = e ∷ es

abbrev pub add_webhook : Registration → Hooks → Validation → Hooks
add_webhook r h (valid url) = record h {
  webhooks =
      record {
        id = h.next_id;
        url = url;
        name = r.name;
        secret = r.secret;
        event_types = or_default r.event_types;
        enabled = r.enabled;
        cooldown_seconds = r.cooldown_seconds;
        chain_filter = r.chain_filter;
        min_signal_score = r.min_signal_score;
        last_dispatched_at = none;
        dispatches = [];
        posts = [];
      }
      ∷ h.webhooks;
  next_id = h.next_id + 1;
}
add_webhook r h (invalid e) = h
add_webhook r h escaped = h

-- The webhooks that delete_webhook leaves; a missing id leaves all.
abbrev pub delete_webhook : ℕ → List WebhookConfig → List WebhookConfig
delete_webhook id ws = filter (λ w. not (w.id == id)) ws

module _ (l : Library) (s : Settings) (v : Wire) where
  unfoldable pub register_webhook : Registration → Hooks → Hooks
  register_webhook r h = add_webhook r h (validate_webhook_url l s h.now r.url)

  abbrev pub skipped : WebhookConfig → Looped → Looped
  skipped w rest = record rest { webhooks = w ∷ rest.webhooks }

  abbrev pub counted : WebhookDispatchResult → WebhookConfig → Looped → Looped
  counted r w rest = record rest { results = r ∷ rest.results; webhooks = w ∷ rest.webhooks }

  abbrev pub after_one : Ended → List WebhookConfig → (ℕ → Looped) → Looped
  after_one (none, w, now) ws rest = record {
    results = [];
    webhooks = w ∷ ws;
    now = now;
    done = false;
  }
  after_one (some r, w, now) ws rest = counted r w (rest now)

  -- The loop over the webhooks. An exception leaves it, and the webhooks that remain are as before.
  unfoldable pub dispatch_each : String → (ℕ → Payload) → ℕ → List WebhookConfig → Looped
  dispatch_each event_type payload now [] = record {
    results = [];
    webhooks = [];
    now = now;
    done = true;
  }
  dispatch_each event_type payload now (w ∷ ws) =
      if should_dispatch now event_type w
      then after_one (dispatch_webhook l s v now (payload now) w) ws
          (λ t. dispatch_each event_type payload t ws)
      else skipped w (dispatch_each event_type payload now ws)

  -- `dispatch_alerts`: all webhooks get the same payload.
  unfoldable pub dispatch_alerts :
      String → Option AlertBody → Option AssetBody → Dict String → ℕ → List WebhookConfig → Looped
  unfolding dispatch_each
  dispatch_alerts event_type alert asset extra now ws =
      dispatch_each event_type (λ _. build_payload now event_type alert asset extra) now ws

  -- The rest of a pass after one round over the webhooks.
  abbrev pub then_rest : Looped → (ℕ → List WebhookConfig → Looped) → Looped
  then_rest r rest =
      if r.done
      then (let r' = rest r.now r.webhooks in record r' { results = r.results ++ r'.results })
      else r

  unfoldable pub dispatch_signals : List Signal → ℕ → List WebhookConfig → Looped
  unfolding dispatch_each
  dispatch_signals [] now ws = record { results = []; webhooks = ws; now = now; done = true }
  dispatch_signals (g ∷ signals) now ws =
      if g.actionable
      then then_rest
          (dispatch_each "high_signal_scan"
            (λ t. build_payload t "high_signal_scan" none g.asset g.extra) now ws)
          (dispatch_signals signals)
      else dispatch_signals signals now ws

  unfoldable pub dispatch_transitions :
      List (AlertBody × Option AssetBody) → ℕ → List WebhookConfig → Looped
  unfolding dispatch_each
  dispatch_transitions [] now ws = record { results = []; webhooks = ws; now = now; done = true }
  dispatch_transitions ((alert, asset) ∷ alerts) now ws =
      then_rest
        (dispatch_each "lifecycle_transition"
          (λ t. build_payload t "lifecycle_transition" (some alert) asset []) now ws)
        (dispatch_transitions alerts)

  -- `_dispatch_high_signal_webhooks`: the first five signals, and the alerts of the last hour.
  unfoldable pub dispatch_high_signal_webhooks :
      List Signal → List (AlertBody × Option AssetBody) → ℕ → List WebhookConfig → Looped
  unfolding dispatch_signals dispatch_transitions
  dispatch_high_signal_webhooks signals alerts now ws =
      then_rest (dispatch_signals (take 5 signals) now ws) (dispatch_transitions alerts)
