-- ===== src/Pool/Pick.antt =====
-- Which endpoint `pick` takes: the healthiest, and of equally healthy ones the least recently used.
use hype_coin_predictive_eng.Prelude.{
  ◌+◌, ◌%◌, ◌≤◌, ◌≡◌, ◌↔◌, ◌⊎◌, inl, inr, refl, String, Bool, true, false, none, some, List, [],
  ◌∷◌, ◌&&◌, not, ◌==◌, arith, lookup, insert, get_or-some, get_or-none, lookup-insert_self,
  str_eq_refl, Bool-cases, Option-cases, All, filter, mem,
}
use hype_coin_predictive_eng.Prelude.Int.{pos}
use hype_coin_predictive_eng.Float.{Float}
use hype_coin_predictive_eng.Float.MinMax.{zero_float}
use hype_coin_predictive_eng.Pool.State.{
  Pool, health_of, used_of, is_down, min_by, better, down_of, available_of, choose, pick,
}
use hype_coin_predictive_eng.Pool.Health.{IsHealthy}

module _ (f : Float) (p : Pool f.Carrier) where
  -- The endpoint `a` is at least as healthy as `b`, and no later used if they are equally healthy.
  pub record Beats (a b : String) : Type 0 where
    pub healthier : f.leb (health_of f p b) (health_of f p a) ≡ true
    pub least_used :
        f.leb (health_of f p a) (health_of f p b) ≡ true → used_of f p a ≤ used_of f p b

  Beats-trans : (a b c : String) → Beats a b → Beats b c → Beats a c
  Beats-trans a b c x y = record {
    healthier = f.leb_trans _ _ _ y.healthier x.healthier;
    least_used = λ h. omega (
      arith,
      x.least_used (f.leb_trans _ _ _ h y.healthier),
      y.least_used (f.leb_trans _ _ _ x.healthier h),
    );
  }

  number : (v : IsHealthy f p) (u : String) → f.leb (health_of f p u) (health_of f p u) ≡ true
  number v u = elim (Option-cases (lookup u p.health)) [
    | inl unknown ↦
        rw (get_or-none u (zero_float f) p.health unknown) (f.leb_cents (pos 0) (pos 0) refl)
    | inr (h, known) ↦
        rw (get_or-some u (zero_float f) h p.health known)
          ((f.leb_self _ _ (v.scores u h known).1).0)
  ]

  Beats-refl : (v : IsHealthy f p) (u : String) → Beats u u
  Beats-refl v u = record { healthier = number v u; least_used = λ h. omega arith }

  Beats-better : (a b : String) → better f p a b ≡ true → Beats a b
  Beats-better a b h = record {
    healthier = ground (arith, f.leb_of_ltb (health_of f p b) (health_of f p a));
    least_used = λ k. ground (arith, f.not_ltb_of_leb (health_of f p a) (health_of f p b));
  }

  Beats-not-better : (v : IsHealthy f p) (a b : String) → better f p a b ≡ false → Beats b a
  Beats-not-better v a b h = record {
    healthier =
        ground
          (arith, f.leb_of_not_ltb (health_of f p b) (health_of f p a) (number v b) (number v a));
    least_used = λ k.
        ground
          (arith, f.leb_of_not_ltb (health_of f p b) (health_of f p a) (number v b) (number v a));
  }

  -- The fold finds an endpoint of the list that beats them all.
  min_by-Beats :
      (v : IsHealthy f p) (best : String) (urls : List String) (m : String)
      → min_by (better f p) best urls ≡ m
      → Beats m best × All (Beats m) urls
  unfolding min_by
  min_by-Beats v best [] m e = (rw (← e) (Beats-refl v best), tt)
  min_by-Beats v best (url ∷ urls) m e = elim (Bool-cases (better f p url best)) [
    | inl less ↦
        let (b, rest) = min_by-Beats v url urls m (rw less at e) in
        (Beats-trans m url best b (Beats-better url best less), (b, rest))
    | inr more ↦
        let (b, rest) = min_by-Beats v best urls m (rw more at e) in
        (b, (Beats-trans m best url b (Beats-not-better v url best more), rest))
  ]

mem_here : (u : String) (l : List String) → mem u (u ∷ l) ≡ true
unfolding mem
mem_here u l = rw (str_eq_refl u)

mem_swap : (m a b : String) (l : List String) → mem m (a ∷ l) ≡ true → mem m (b ∷ a ∷ l) ≡ true
unfolding mem
mem_swap m a b l h = ground arith

mem_skip : (m a b : String) (l : List String) → mem m (a ∷ l) ≡ true → mem m (a ∷ b ∷ l) ≡ true
unfolding mem
mem_skip m a b l h = ground arith

mem-min_by :
    (less : String → String → Bool) (best : String) (urls : List String)
    → mem (min_by less best urls) (best ∷ urls) ≡ true
unfolding min_by
mem-min_by less best [] = mem_here best []
mem-min_by less best (url ∷ urls) = elim (Bool-cases (less url best)) [
  | inl lt ↦ rw lt (mem_swap _ url best urls (mem-min_by less url urls))
  | inr ge ↦ rw ge (mem_skip _ best url urls (mem-min_by less best urls))
]

module _ (f : Float) (p : Pool f.Carrier) where
  -- The pick is no probe slot: an endpoint is up, and no endpoint is down, the probe thread runs, or
  -- the tick is no multiple of 20.
  abbrev pub IsRegular : Type 0
  IsRegular = (down_of f p ≡ []) ⊎ ((not p.background_active && (p.tick + 1) % 20 == 0) ≡ false)

  choose_regular :
      (e : String) (es down : List String) (a : String) (rest : List String)
      → p.endpoints ≡ e ∷ es
      → (down ≡ []) ⊎ ((not p.background_active && (p.tick + 1) % 20 == 0) ≡ false)
      → choose f p (p.tick + 1) down (a ∷ rest) ≡ some (min_by (better f p) a rest)
  unfolding choose
  choose_regular e es [] a rest he r = rw (he, choose)
  choose_regular e es (d ∷ ds) a rest he (inl none_down) = cc
  choose_regular e es (d ∷ ds) a rest he (inr no_slot) = rw (he, no_slot, choose)

  endpoints_of_available :
      (a : String) (rest : List String)
      → available_of f p ≡ a ∷ rest
      → (e : String) × (es : List String) × (p.endpoints ≡ e ∷ es)
  endpoints_of_available a rest h = go_on p.endpoints refl h
    where
      go_on :
          (l : List String)
          → p.endpoints ≡ l
          → filter (λ url. not (is_down f p url)) l ≡ a ∷ rest
          → (e : String) × (es : List String) × (p.endpoints ≡ e ∷ es)
      go_on [] q k = cc
      go_on (e ∷ es) q k = (e, es, q)

  -- In a healthy pool with an endpoint up, a pick that is no probe slot takes an endpoint that is up
  -- and at least as healthy as every other that is up, and of those that are equally healthy the one
  -- used longest ago; the pick marks it as used now.
  pub pick_best :
      (a : String) (rest : List String)
      → IsHealthy f p
      → available_of f p ≡ a ∷ rest
      → IsRegular
      → (url : String) × (p' : Pool f.Carrier) × (pick f p ≡ some (url, p'))
        × (mem url (available_of f p) ≡ true)
        × All (Beats f p url) (available_of f p)
        × (lookup url p'.last_used ≡ some (p.tick + 1))
  unfolding pick
  pick_best a rest v h r =
      let (e, es, he) = endpoints_of_available a rest h in
      let url = min_by (better f p) a rest in
      let c : choose f p (p.tick + 1) (down_of f p) (available_of f p) ≡ some url =
        rw h (choose_regular e es (down_of f p) a rest he r) in
      (
        url,
        record p { tick = p.tick + 1; last_used = insert url (p.tick + 1) p.last_used },
        rw c refl,
        rw h (mem-min_by (better f p) a rest),
        rw h (min_by-Beats f p v a rest url refl),
        lookup-insert_self url (p.tick + 1) p.last_used,
      )

  -- `pick` raises exactly if the pool has no endpoints.
  pub pick_total : (pick f p ≡ none) ↔ (p.endpoints ≡ [])
  unfolding pick choose
  pick_total = ((λ h. ground arith), (λ h. rw (h, choose)))
