-- ===== src/Webhooks/Post.antt =====
-- What one dispatch does to a webhook: the requests that are made for it stay lawful and apart.
use hype_coin_predictive_eng.Prelude.{
  ℕ, ◌+◌, ◌*◌, ◌≤◌, ◌≡◌, refl, String, true, false, Option, none, some, List, [], ◌∷◌, All, arith,
}
use hype_coin_predictive_eng.Webhooks.Policy.{
  Library, Settings, Parsed, Validation, valid, invalid, escaped, validate_webhook_url,
}
use hype_coin_predictive_eng.Webhooks.Allowed.{IsAllowed, validate_webhook_url-IsAllowed}
use hype_coin_predictive_eng.Webhooks.Dispatch.{
  Payload, Post, Wire, WebhookConfig, WebhookDispatchResult, is_cooling, should_dispatch, sign_with,
  record_dispatch, blocked_by, failed, blocked, send, dispatch_valid, dispatch_webhook,
}

-- A request was sent before the last dispatch was recorded.
abbrev pub Before : Option ℕ → ℕ → Type 0
Before none t = ⊥
Before (some last) t = t ≤ last

-- Any request was sent at least the gap after each older one.
abbrev pub Spaced : ℕ → List Post → Type 0
Spaced gap [] = Unit
Spaced gap (p ∷ ps) = All (λ q. q.sent_at + gap ≤ p.sent_at) ps × Spaced gap ps

All-mono : {P Q : Post → Type 0} (ps : List Post) → ((q : Post) → P q → Q q) → All P ps → All Q ps
All-mono [] k h = tt
All-mono (p ∷ ps) k h = (k p h.0, All-mono ps k h.1)

-- The requests for a webhook whose cooldown is over are a cooldown old.
Before-cooled :
    (last : Option ℕ) (now : ℕ) (w : WebhookConfig) (q : Post)
    → w.last_dispatched_at ≡ last
    → is_cooling now w ≡ false
    → Before last q.sent_at
    → q.sent_at + 1000 * w.cooldown_seconds ≤ now
Before-cooled none now w q e cool h = absurd h
Before-cooled (some last) now w q e cool h = ground arith

is_cooling_not :
    (now : ℕ) (event_type : String) (w : WebhookConfig)
    → should_dispatch now event_type w ≡ true
    → is_cooling now w ≡ false
is_cooling_not now event_type w h = ground arith

module _ (l : Library) (s : Settings) (v : Wire) where
  -- At some time before it, the URL was one that the policy allows; and the signature is that of the
  -- content that was sent.
  abbrev pub IsLawful : Option String → Post → Type 0
  IsLawful secret p =
      ((t : ℕ) × (t ≤ p.sent_at) × IsAllowed l s t p.url)
      × (p.signature ≡ sign_with l s v secret p.content)

  abbrev pub IsKept : WebhookConfig → Type 0
  IsKept w =
      All (IsLawful w.secret) w.posts
      × Spaced (1000 * w.cooldown_seconds) w.posts
      × All (λ q. Before w.last_dispatched_at q.sent_at) w.posts

  -- After a dispatch without a request.
  record_dispatch-IsKept :
      (end : ℕ) (r : WebhookDispatchResult) (w : WebhookConfig)
      → IsKept w
      → All (λ q. q.sent_at + 1000 * w.cooldown_seconds ≤ end) w.posts
      → IsKept (record_dispatch end r w)
  record_dispatch-IsKept end r w (lawful, spaced, before) old =
      (lawful, spaced, All-mono w.posts (λ q h. omega (arith, h)) old)

  send-IsKept :
      (t : ℕ) (payload : Payload) (w : WebhookConfig) (o : Option Parsed) (now : ℕ)
      → IsKept w
      → now ≤ t
      → IsAllowed l s now w.url
      → All (λ q. q.sent_at + 1000 * w.cooldown_seconds ≤ now) w.posts
      → IsKept (send l s v t payload w o).1
  unfolding send
  send-IsKept t payload w none now kept le allowed old =
      record_dispatch-IsKept (t + v.sending t) (blocked_by l s v (failed "unparseable URL")) w kept
        (All-mono w.posts (λ q h. omega (arith, h)) old)
  send-IsKept t payload w (some p) now (lawful, spaced, before) le allowed old = (
    (((now, le, allowed), refl), lawful),
    (All-mono w.posts (λ q h. omega (arith, h)) old, spaced),
    (omega arith, All-mono w.posts (λ q h. omega (arith, h)) old),
  )

  dispatch_valid-IsKept :
      (now : ℕ) (payload : Payload) (w : WebhookConfig) (o : Validation)
      → IsKept w
      → (((raw : String) × (o ≡ valid raw)) → IsAllowed l s now w.url)
      → All (λ q. q.sent_at + 1000 * w.cooldown_seconds ≤ now) w.posts
      → IsKept (dispatch_valid l s v now payload w o).1
  unfolding dispatch_valid
  dispatch_valid-IsKept now payload w (valid raw) kept allowed old =
      send-IsKept (now + v.checking now) payload w (l.urlparse w.url) now kept (omega arith)
        (allowed (raw, refl)) old
  dispatch_valid-IsKept now payload w (invalid e) kept allowed old =
      let t = now + v.checking now in
      record_dispatch-IsKept (t + v.sending t) (blocked_by l s v (blocked e)) w kept
        (All-mono w.posts (λ q h. omega (arith, h)) old)
  dispatch_valid-IsKept now payload w escaped kept allowed old = kept

  pub dispatch_webhook-IsKept :
      (now : ℕ) (event_type : String) (payload : Payload) (w : WebhookConfig)
      → should_dispatch now event_type w ≡ true
      → IsKept w
      → IsKept (dispatch_webhook l s v now payload w).1
  unfolding dispatch_webhook
  dispatch_webhook-IsKept now event_type payload w due kept =
      let (lawful, spaced, before) = kept in
      dispatch_valid-IsKept now payload w (validate_webhook_url l s now w.url) kept
        (λ (raw, e). validate_webhook_url-IsAllowed l s now w.url raw e)
        (All-mono w.posts
          (λ q h.
            Before-cooled w.last_dispatched_at now w q refl (is_cooling_not now event_type w due) h)
          before)
