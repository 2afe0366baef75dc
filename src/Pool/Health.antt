-- ===== src/Pool/Health.antt =====
-- The health scores stay in [0, 1], and marks move an endpoint between up and down.
use hype_coin_predictive_eng.Prelude.{
  ℕ, ◌≤◌, ◌≡◌, inl, inr, refl, String, Bool, true, false, some, List, [], ◌∷◌, if◌then◌else◌, arith,
  lookup, insert, Dict, lookup-insert, str_eq, Bool-cases, Option-cases,
}
use hype_coin_predictive_eng.Prelude.Int.{pos}
use hype_coin_predictive_eng.Float.{Float}
use hype_coin_predictive_eng.Float.MinMax.{min_float, max_float, zero_float, one_float}
use hype_coin_predictive_eng.Pool.State.{
  Pool, health_success_boost, health_failure_decay, init_dict, dedup, init, is_down, mark_success,
  mark_failure,
}

module _ (f : Float) where
  open f use {Carrier, cents}

  abbrev pub InUnit : Carrier → Type 0
  InUnit x = (f.leb (zero_float f) x ≡ true) × (f.leb x (one_float f) ≡ true)

  zero-InUnit : InUnit (zero_float f)
  zero-InUnit = (f.leb_cents (pos 0) (pos 0) refl, f.leb_cents (pos 0) (pos 100) refl)

  one-InUnit : InUnit (one_float f)
  one-InUnit = (f.leb_cents (pos 0) (pos 100) refl, f.leb_cents (pos 100) (pos 100) refl)

  -- `min(1.0, x)` for x from 0 on, and `max(0.0, x)` for x up to 1; NaN gives the bound.
  min-InUnit : (x : Carrier) → f.leb (zero_float f) x ≡ true → InUnit (min_float f (one_float f) x)
  min-InUnit x h = elim (Bool-cases (f.ltb x (one_float f))) [
    | inl lt ↦ rw lt (h, f.leb_of_ltb x (one_float f) lt)
    | inr ge ↦ rw ge one-InUnit
  ]

  max-InUnit : (x : Carrier) → f.leb x (one_float f) ≡ true → InUnit (max_float f (zero_float f) x)
  max-InUnit x h = elim (Bool-cases (f.ltb (zero_float f) x)) [
    | inl lt ↦ rw lt (f.leb_of_ltb (zero_float f) x lt, h)
    | inr ge ↦ rw ge zero-InUnit
  ]

  max-InUnit_two : (x y : Carrier) → InUnit x → InUnit y → InUnit (max_float f x y)
  max-InUnit_two x y h k = elim (Bool-cases (f.ltb x y)) [ inl lt ↦ rw lt k | inr ge ↦ rw ge h ]

  boosted-InUnit :
      (x : Carrier)
      → InUnit x
      → InUnit (min_float f (one_float f) (f.add x (health_success_boost f)))
  boosted-InUnit x h =
      min-InUnit (f.add x (health_success_boost f))
        (f.add_nonneg x (health_success_boost f) h.0 (f.leb_cents (pos 0) (pos 5) refl))

  decayed-InUnit :
      (x : Carrier)
      → InUnit x
      → InUnit (max_float f (zero_float f) (f.sub x (health_failure_decay f)))
  decayed-InUnit x h = max-InUnit (f.sub x (health_failure_decay f)) (
      f.leb_trans _ x _
        (f.sub_le x (health_failure_decay f) h.0 h.1 (f.leb_cents (pos 0) (pos 25) refl)
          (f.leb_cents (pos 25) (pos 100) refl))
        h.1)

  -- `min(1.0, max(0.0, r))` is in range whatever the setting is, NaN included.
  clamped-InUnit : (r : Carrier) → InUnit (min_float f (one_float f) (max_float f (zero_float f) r))
  clamped-InUnit r = min-InUnit _ (elim (Bool-cases (f.ltb (zero_float f) r)) [
    | inl lt ↦ rw lt (f.leb_of_ltb (zero_float f) r lt)
    | inr ge ↦ rw ge zero-InUnit.0
  ])

  if-InUnit : (b : Bool) {x y : Carrier} → InUnit x → InUnit y → InUnit (if b then x else y)
  if-InUnit true h k = h
  if-InUnit false h k = k

  pub record IsHealthy (p : Pool Carrier) : Type 0 where
    pub recovery : InUnit p.recovery_health
    pub scores : (url : String) (h : Carrier) → lookup url p.health ≡ some h → InUnit h
    pub threshold : 1 ≤ p.failure_threshold

  init_dict_value :
      (v : Carrier) (urls : List String) (url : String) (h : Carrier)
      → lookup url (init_dict v urls) ≡ some h
      → h ≡ v
  unfolding lookup init_dict
  init_dict_value v [] url h e = cc
  init_dict_value v (u ∷ urls) url h e = ground (arith, init_dict_value v urls url h)

  insert-scores :
      (url : String) (v : Carrier) (d : Dict Carrier)
      → InUnit v
      → ((u : String) (h : Carrier) → lookup u d ≡ some h → InUnit h)
      → (u : String) (h : Carrier) → lookup u (insert url v d) ≡ some h
      → InUnit h
  insert-scores url v d i s u h e =
      let e' : (if str_eq url u then some v else lookup u d) ≡ some h =
        rw (← lookup-insert url u v d) e in
      elim (Bool-cases (str_eq url u)) [
        | inl same ↦ let hv : v ≡ h = cc (rw same at e') in rw (← hv) i
        | inr other ↦ s u h (rw other at e')
      ]

  -- A new pool is healthy, whatever its settings are: its scores and its recovery level are in [0, 1]
  -- and its failure threshold is at least 1.
  pub init-IsHealthy :
      (urls : List String) (threshold : ℕ) (recovery : Carrier) (chain : String)
      → IsHealthy (init f urls threshold recovery chain)
  unfolding init
  init-IsHealthy urls threshold recovery chain = record {
    recovery = clamped-InUnit recovery;
    scores = λ url h e. rw (init_dict_value (one_float f) (dedup [] urls) url h e) one-InUnit;
    threshold = omega arith;
  }

  -- A success at any URL leaves a healthy pool healthy: scores and recovery level in [0, 1], threshold
  -- at least 1.
  pub mark_success-IsHealthy :
      (url : String) (p : Pool Carrier) → IsHealthy p → IsHealthy (mark_success f url p)
  unfolding mark_success
  mark_success-IsHealthy url p v = elim (Option-cases (lookup url p.health)) [
    | inl unknown ↦ rw (unknown, mark_success) v
    | inr (h, known) ↦
        rw (known, mark_success)
          (record {
            recovery = v.recovery;
            scores =
                insert-scores url _ p.health
                  (if-InUnit (is_down f p url)
                    (max-InUnit_two p.recovery_health _ v.recovery
                      (boosted-InUnit h (v.scores url h known)))
                    (boosted-InUnit h (v.scores url h known)))
                  v.scores;
            threshold = v.threshold;
          })
  ]

  -- A failure at any URL leaves a healthy pool healthy: scores and recovery level in [0, 1], threshold
  -- at least 1.
  pub mark_failure-IsHealthy :
      (now : ℕ) (url : String) (p : Pool Carrier)
      → IsHealthy p
      → IsHealthy (mark_failure f now url p)
  unfolding mark_failure
  mark_failure-IsHealthy now url p v = elim (Option-cases (lookup url p.health)) [
    | inl unknown ↦ rw (unknown, mark_failure) v
    | inr (h, known) ↦
        rw (known, mark_failure)
          (record {
            recovery = v.recovery;
            scores =
                insert-scores url _ p.health (decayed-InUnit h (v.scores url h known)) v.scores;
            threshold = v.threshold;
          })
  ]
