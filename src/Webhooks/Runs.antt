-- ===== src/Webhooks/Runs.antt =====
-- Any sequence of registrations, deletions and dispatches.
use hype_coin_predictive_eng.Prelude.{
  ℕ, ◌+◌, inl, inr, String, Option, none, some, List, [], ◌∷◌, All, Bool-cases, Dict, take, ◌==◌,
}
use hype_coin_predictive_eng.Webhooks.Policy.{
  Library, Settings, Validation, valid, invalid, escaped, validate_webhook_url,
}
use hype_coin_predictive_eng.Webhooks.Dispatch.{
  AlertBody, AssetBody, Payload, Wire, WebhookConfig, Ended, should_dispatch, dispatch_webhook,
}
use hype_coin_predictive_eng.Webhooks.Pass.{
  Looped, Signal, Registration, Hooks, add_webhook, register_webhook, delete_webhook, after_one,
  dispatch_each, dispatch_alerts, then_rest, dispatch_signals, dispatch_transitions,
  dispatch_high_signal_webhooks,
}
use hype_coin_predictive_eng.Webhooks.Post.{IsKept, IsLawful, dispatch_webhook-IsKept}

pub data Command : Type 0 where
  wait : ℕ → Command
  register : Registration → Command
  delete : ℕ → Command
  alerts : String → Option AlertBody → Option AssetBody → Dict String → Command
  pass : List Signal → List (AlertBody × Option AssetBody) → Command

abbrev pub no_hooks : Hooks
no_hooks = record { webhooks = []; next_id = 1; now = 0 }

module _ (l : Library) (s : Settings) (v : Wire) where
  abbrev pub after_loop : Looped → Hooks → Hooks
  after_loop r h = record h { webhooks = r.webhooks; now = r.now }

  unfoldable pub step : Command → Hooks → Hooks
  step (wait n) h = record h { now = h.now + n }
  step (register r) h = register_webhook l s v r h
  step (delete id) h = record h { webhooks = delete_webhook id h.webhooks }
  step (alerts event_type alert asset extra) h =
      after_loop (dispatch_alerts l s v event_type alert asset extra h.now h.webhooks) h
  step (pass signals transitions) h =
      after_loop (dispatch_high_signal_webhooks l s v signals transitions h.now h.webhooks) h

  unfoldable pub run : List Command → Hooks → Hooks
  unfolding step
  run [] h = h
  run (c ∷ cs) h = run cs (step c h)

  abbrev pub AllKept : List WebhookConfig → Type 0
  AllKept ws = All (λ w. IsKept l s v w) ws

  after_one-AllKept :
      (e : Ended) (ws : List WebhookConfig) (rest : ℕ → Looped)
      → IsKept l s v e.1
      → AllKept ws
      → ((t : ℕ) → AllKept (rest t).webhooks)
      → AllKept (after_one l s v e ws rest).webhooks
  after_one-AllKept (none, w, now) ws rest h hs k = (h, hs)
  after_one-AllKept (some r, w, now) ws rest h hs k = (h, k now)

  dispatch_each-AllKept :
      (event_type : String) (payload : ℕ → Payload) (now : ℕ) (ws : List WebhookConfig)
      → AllKept ws
      → AllKept (dispatch_each l s v event_type payload now ws).webhooks
  unfolding dispatch_each
  dispatch_each-AllKept event_type payload now [] h = tt
  dispatch_each-AllKept event_type payload now (w ∷ ws) h =
      elim (Bool-cases (should_dispatch now event_type w)) [
        | inl due ↦ rw due (
            after_one-AllKept (dispatch_webhook l s v now (payload now) w) ws
              (λ t. dispatch_each l s v event_type payload t ws)
              (dispatch_webhook-IsKept l s v now event_type (payload now) w due h.0) h.1
              (λ t. dispatch_each-AllKept event_type payload t ws h.1))
        | inr not_due ↦ rw not_due (h.0, dispatch_each-AllKept event_type payload now ws h.1)
      ]

  then_rest-AllKept :
      (r : Looped) (rest : ℕ → List WebhookConfig → Looped)
      → AllKept r.webhooks
      → ((t : ℕ) (ws : List WebhookConfig) → AllKept ws → AllKept (rest t ws).webhooks)
      → AllKept (then_rest l s v r rest).webhooks
  then_rest-AllKept r rest h k = elim (Bool-cases (r.done)) [
    | inl done ↦ rw done (k r.now r.webhooks h)
    | inr left ↦ rw left h
  ]

  dispatch_signals-AllKept :
      (signals : List Signal) (now : ℕ) (ws : List WebhookConfig)
      → AllKept ws
      → AllKept (dispatch_signals l s v signals now ws).webhooks
  unfolding dispatch_signals
  dispatch_signals-AllKept [] now ws h = h
  dispatch_signals-AllKept (g ∷ signals) now ws h = elim (Bool-cases (g.actionable)) [
    | inl act ↦ rw act (
        then_rest-AllKept _ (dispatch_signals l s v signals)
          (dispatch_each-AllKept "high_signal_scan" _ now ws h) (dispatch_signals-AllKept signals))
    | inr idle ↦ rw idle (dispatch_signals-AllKept signals now ws h)
  ]

  dispatch_transitions-AllKept :
      (rows : List (AlertBody × Option AssetBody)) (now : ℕ) (ws : List WebhookConfig)
      → AllKept ws
      → AllKept (dispatch_transitions l s v rows now ws).webhooks
  unfolding dispatch_transitions
  dispatch_transitions-AllKept [] now ws h = h
  dispatch_transitions-AllKept ((alert, asset) ∷ rows) now ws h =
      then_rest-AllKept _ (dispatch_transitions l s v rows)
        (dispatch_each-AllKept "lifecycle_transition" _ now ws h)
        (dispatch_transitions-AllKept rows)

  add_webhook-AllKept :
      (r : Registration) (h : Hooks) (o : Validation)
      → AllKept h.webhooks
      → AllKept (add_webhook r h o).webhooks
  add_webhook-AllKept r h (valid url) k = ((tt, tt, tt), k)
  add_webhook-AllKept r h (invalid e) k = k
  add_webhook-AllKept r h escaped k = k

  delete_webhook-AllKept :
      (id : ℕ) (ws : List WebhookConfig) → AllKept ws → AllKept (delete_webhook id ws)
  delete_webhook-AllKept id [] h = tt
  delete_webhook-AllKept id (w ∷ ws) h =
      let rest = delete_webhook-AllKept id ws h.1 in
      elim (Bool-cases (w.id == id)) [ inl e ↦ rw e rest | inr e ↦ rw e (h.0, rest) ]

  step-AllKept : (c : Command) (h : Hooks) → AllKept h.webhooks → AllKept (step c h).webhooks
  unfolding step register_webhook dispatch_alerts dispatch_high_signal_webhooks
  step-AllKept (wait n) h k = k
  step-AllKept (register r) h k = add_webhook-AllKept r h (validate_webhook_url l s h.now r.url) k
  step-AllKept (delete id) h k = delete_webhook-AllKept id h.webhooks k
  step-AllKept (alerts event_type alert asset extra) h k =
      dispatch_each-AllKept event_type _ h.now h.webhooks k
  step-AllKept (pass signals transitions) h k =
      then_rest-AllKept (dispatch_signals l s v (take 5 signals) h.now h.webhooks)
        (dispatch_transitions l s v transitions)
        (dispatch_signals-AllKept (take 5 signals) h.now h.webhooks k)
        (dispatch_transitions-AllKept transitions)

  run-AllKept : (cs : List Command) (h : Hooks) → AllKept h.webhooks → AllKept (run cs h).webhooks
  unfolding run
  run-AllKept [] h k = k
  run-AllKept (c ∷ cs) h k = run-AllKept cs (step c h) (step-AllKept c h k)

  All-map :
      {P Q : WebhookConfig → Type 0} (ws : List WebhookConfig)
      → ((w : WebhookConfig) → P w → Q w)
      → All P ws
      → All Q ws
  All-map [] k h = tt
  All-map (w ∷ ws) k h = (k w h.0, All-map ws k h.1)

  -- After any sequence of registrations, deletions and dispatches that starts without webhooks, every
  -- request that was made for a webhook that is then registered went to a URL that the policy allowed at some time before the
  -- request, and its signature, if the webhook has a secret, is that of the content that was sent.
  pub run_posts-IsLawful :
      (cs : List Command)
      → All (λ w. All (IsLawful l s v w.secret) w.posts) (run cs no_hooks).webhooks
  run_posts-IsLawful cs =
      All-map _ (λ w (lawful, spaced, before). lawful) (run-AllKept cs no_hooks tt)
