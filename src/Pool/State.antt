-- ===== src/Pool/State.antt =====
-- The state of `RpcEndpointPool`, its constructor, `pick`, `mark_success` and `mark_failure`, and the
-- probes. Each method holds the pool's lock for its whole body, so a method is one step.
-- `_tick` is a float that counts picks, exact below 2 ^ 53, and is a number here.
use hype_coin_predictive_eng.Prelude.{
  ℕ, ◌+◌, ◌-◌, ◌%◌, String, Bool, false, Option, none, some, List, [], ◌∷◌, ◌++◌, ◌&&◌, ◌||◌, not,
  ltb, leb, ◌==◌, if◌then◌else◌, max, length, drop, filter, Dict, lookup, insert, get_or,
  setdefault, mem,
}
use hype_coin_predictive_eng.Prelude.Int.{pos}
use hype_coin_predictive_eng.Float.{Float}
use hype_coin_predictive_eng.Float.MinMax.{min_float, max_float, zero_float, one_float}

pub record ProbeRecord : Type 0 where
  pub ts : ℕ
  pub ok : Bool

-- A key of the alert sets: `zero_healthy`, or `endpoint:` and a URL.
pub record Pool (F : Type 0) : Type 0 where
  pub endpoints : List String
  pub chain_slug : String
  pub failure_threshold : ℕ
  pub recovery_health : F
  pub health : Dict F
  pub consecutive_failures : Dict ℕ
  pub last_used : Dict ℕ
  pub tick : ℕ
  pub background_active : Bool
  pub down_since : Dict ℕ
  pub down_alerted : List String
  pub zero_healthy_inflight : Bool
  pub alert_inflight : List String
  pub zero_healthy_alerted : Bool
  pub probe_history : Dict (List ProbeRecord)
  pub probe_counts : Dict ℕ
  pub probe_successes : Dict ℕ

-- The endpoints of the list, each once, in order of appearance.
unfoldable pub dedup : List String → List String → List String
dedup seen [] = seen
dedup seen (url ∷ urls) = dedup (if mem url seen then seen else seen ++ (url ∷ [])) urls

-- `{url: v for url in endpoints}`
unfoldable pub init_dict : {V : Type 0} → V → List String → Dict V
init_dict v [] = []
init_dict v (url ∷ urls) = (url, v) ∷ init_dict v urls

-- `deque(maxlen=20)`: an append drops the oldest entry of a full queue.
unfoldable pub push_history : ProbeRecord → List ProbeRecord → List ProbeRecord
push_history p l = let l' = l ++ (p ∷ []) in drop (length l' - 20) l'

-- `min(urls, key=...)` for an order of the keys: the first of the least.
unfoldable pub min_by : (String → String → Bool) → String → List String → String
min_by less best [] = best
min_by less best (url ∷ urls) = min_by less (if less url best then url else best) urls

module _ (f : Float) where
  open f use {Carrier, cents}

  abbrev pub health_success_boost : Carrier
  health_success_boost = cents (pos 5)

  abbrev pub health_failure_decay : Carrier
  health_failure_decay = cents (pos 25)

  unfoldable pub init : List String → ℕ → Carrier → String → Pool Carrier
  init urls failure_threshold recovery_health chain_slug =
      let endpoints = dedup [] urls in
      record {
        endpoints = endpoints;
        chain_slug = chain_slug;
        failure_threshold = max 1 failure_threshold;
        recovery_health = min_float f (one_float f) (max_float f (zero_float f) recovery_health);
        health = init_dict (one_float f) endpoints;
        consecutive_failures = init_dict 0 endpoints;
        last_used = init_dict 0 endpoints;
        tick = 0;
        background_active = false;
        down_since = [];
        down_alerted = [];
        zero_healthy_inflight = false;
        alert_inflight = [];
        zero_healthy_alerted = false;
        probe_history = init_dict [] endpoints;
        probe_counts = init_dict 0 endpoints;
        probe_successes = init_dict 0 endpoints;
      }

  abbrev pub failures_of : Pool Carrier → String → ℕ
  failures_of p url = get_or url 0 p.consecutive_failures

  abbrev pub health_of : Pool Carrier → String → Carrier
  health_of p url = get_or url (zero_float f) p.health

  abbrev pub used_of : Pool Carrier → String → ℕ
  used_of p url = get_or url 0 p.last_used

  abbrev pub is_down : Pool Carrier → String → Bool
  is_down p url = leb p.failure_threshold (failures_of p url)

  -- The least key `last_used`.
  abbrev pub older : Pool Carrier → String → String → Bool
  older p a b = ltb (used_of p a) (used_of p b)

  -- The least key `(-health, last_used)`: tuples compare by their second part where the first parts
  -- are equal, that is, neither is less.
  abbrev pub better : Pool Carrier → String → String → Bool
  better p a b =
      f.ltb (health_of p b) (health_of p a)
      || (f.leb (health_of p b) (health_of p a)
          && (f.leb (health_of p a) (health_of p b) && ltb (used_of p a) (used_of p b)))

  abbrev pub down_of : Pool Carrier → List String
  down_of p = filter (is_down p) p.endpoints

  abbrev pub available_of : Pool Carrier → List String
  available_of p = filter (λ url. not (is_down p url)) p.endpoints

  -- The choice between the two lists, at the tick of this pick. No endpoints is a RuntimeError.
  unfoldable pub choose : Pool Carrier → ℕ → List String → List String → Option String
  choose p tick down available = elim (p.endpoints) [
    | [] ↦ none
    | e ∷ es ↦ elim down [
      | [] ↦ elim available [
        | [] ↦ some (min_by (older p) e es)
        | a ∷ rest ↦ some (min_by (better p) a rest)
      ]
      | d ∷ ds ↦
          if not p.background_active && tick % 20 == 0
          then some (min_by (older p) d ds)
          else elim available [
            | [] ↦ some (min_by (older p) e es)
            | a ∷ rest ↦ some (min_by (better p) a rest)
          ]
    ]
  ]

  -- The endpoint that is used, and the pool after the pick; `none` is the RuntimeError.
  abbrev pub use_endpoint : Pool Carrier → ℕ → Option String → Option (String × Pool Carrier)
  use_endpoint p tick none = none
  use_endpoint p tick (some url) =
      some (url, record p { tick = tick; last_used = insert url tick p.last_used })

  unfoldable pub pick : Pool Carrier → Option (String × Pool Carrier)
  unfolding choose
  pick p = let tick = p.tick + 1 in use_endpoint p tick (choose p tick (down_of p) (available_of p))

  unfoldable pub mark_success : String → Pool Carrier → Pool Carrier
  mark_success url p = elim (lookup url p.health) [
    | none ↦ p
    | some h ↦
        let boosted = min_float f (one_float f) (f.add h health_success_boost) in
        record p {
          health =
              insert url (if is_down p url then max_float f p.recovery_health boosted else boosted)
                p.health;
          consecutive_failures = insert url 0 p.consecutive_failures;
        }
  ]

  -- `down_since` is written at the time `now` that the method reads.
  unfoldable pub mark_failure : ℕ → String → Pool Carrier → Pool Carrier
  mark_failure now url p = elim (lookup url p.health) [
    | none ↦ p
    | some h ↦
        let failures = failures_of p url + 1 in
        record p {
          health = insert url (max_float f (zero_float f) (f.sub h health_failure_decay)) p.health;
          consecutive_failures = insert url failures p.consecutive_failures;
          down_since =
              if leb p.failure_threshold failures
              then setdefault url now p.down_since
              else p.down_since;
        }
  ]
