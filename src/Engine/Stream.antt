-- ===== src/Engine/Stream.antt =====
-- What a client of the broker sees of the events, and the bounds of its queues.
use hype_coin_predictive_eng.Prelude.{
  ℕ, ◌≤◌, ◌≡◌, ◌⊎◌, inl, inr, refl, Bool, false, none, List, [], ◌∷◌, ◌++◌, ltb, if◌then◌else◌,
  length, arith, Bool-cases, Option-cases, length-append, subst, subst⁻¹,
}
use hype_coin_predictive_eng.Engine.Broker.{
  max_queue_size, Client, listed, update, enqueue, put, send_all,
}

-- The first list is what is left of the second after some of its elements are dropped.
abbrev pub Within : {E : Type 0} → List E → List E → Type 0
Within [] ys = Unit
Within (x ∷ xs) [] = ⊥
Within (x ∷ xs) (y ∷ ys) = ((x ≡ y) × Within xs ys) ⊎ Within (x ∷ xs) ys

-- No queue is listed twice.
abbrev pub IsDistinct : List ℕ → Type 0
IsDistinct [] = Unit
IsDistinct (q ∷ qs) = (listed q qs ≡ false) × IsDistinct qs

module _ {E : Type 0} where
  Within-skip : (y : E) (xs ys : List E) → Within xs ys → Within xs (y ∷ ys)
  Within-skip y [] ys h = tt
  Within-skip y (x ∷ xs) ys h = inr h

  Within-tail : (x : E) (xs ys : List E) → Within (x ∷ xs) ys → Within xs ys
  Within-tail x xs [] h = elim h [ ]
  Within-tail x xs (y ∷ ys) (inl (e, h)) = Within-skip y xs ys h
  Within-tail x xs (y ∷ ys) (inr h) = Within-skip y xs ys (Within-tail x xs ys h)

  Within-drop :
      (xs : List E) (e : E) (zs ys : List E) → Within (xs ++ (e ∷ zs)) ys → Within (xs ++ zs) ys
  Within-drop [] e zs ys h = Within-tail e zs ys h
  Within-drop (x ∷ xs) e zs [] h = elim h [ ]
  Within-drop (x ∷ xs) e zs (y ∷ ys) (inl (q, h)) = inl (q, Within-drop xs e zs ys h)
  Within-drop (x ∷ xs) e zs (y ∷ ys) (inr h) = inr (Within-drop (x ∷ xs) e zs ys h)

  pub Within-old : (xs ys : List E) (e : E) → Within xs ys → Within xs (ys ++ (e ∷ []))
  Within-old [] ys e h = tt
  Within-old (x ∷ xs) [] e h = elim h [ ]
  Within-old (x ∷ xs) (y ∷ ys) e (inl (q, h)) = inl (q, Within-old xs ys e h)
  Within-old (x ∷ xs) (y ∷ ys) e (inr h) = inr (Within-old (x ∷ xs) ys e h)

  Within-new : (xs ys : List E) (e : E) → Within xs ys → Within (xs ++ (e ∷ [])) (ys ++ (e ∷ []))
  Within-new [] [] e h = inl (refl, tt)
  Within-new [] (y ∷ ys) e h = inr (Within-new [] ys e tt)
  Within-new (x ∷ xs) [] e h = elim h [ ]
  Within-new (x ∷ xs) (y ∷ ys) e (inl (q, h)) = inl (q, Within-new xs ys e h)
  Within-new (x ∷ xs) (y ∷ ys) e (inr h) = inr (Within-new (x ∷ xs) ys e h)

  pub append_assoc : (xs ys zs : List E) → (xs ++ ys) ++ zs ≡ xs ++ (ys ++ zs)
  append_assoc [] ys zs = refl
  append_assoc (x ∷ xs) ys zs = rw (append_assoc xs ys zs) refl

  append_nil : (xs : List E) → xs ++ [] ≡ xs
  append_nil [] = refl
  append_nil (x ∷ xs) = rw (append_nil xs) refl

  -- All that is meant for a client, in the order in which it was or will be taken.
  abbrev line : Client E → List E
  line c = c.taken ++ (c.queue ++ c.waiting)

  -- The client's events are some of those sent, in their order, and its queue is within its bound; a
  -- client without a loop has no call waiting.
  pub record IsServed (sent : List E) (c : Client E) : Type 0 where
    pub order : Within (c.taken ++ (c.queue ++ c.waiting)) sent
    pub bound : length c.queue ≤ max_queue_size

  pub enqueue-length :
      (e : E) (l : List E) → length l ≤ max_queue_size → length (enqueue e l) ≤ max_queue_size
  unfolding enqueue
  enqueue-length e l h = ground (arith, length-append l (e ∷ []))

  -- Whether the queue takes the event or drops it.
  pub enqueue-Within :
      (e : E) (taken queue rest sent : List E)
      → Within (taken ++ (queue ++ (e ∷ rest))) sent
      → Within (taken ++ (enqueue e queue ++ rest)) sent
  unfolding enqueue
  enqueue-Within e taken queue rest sent h = elim (Bool-cases (ltb (length queue) max_queue_size)) [
    | inl room ↦ rw (room, append_assoc queue (e ∷ []) rest) h
    | inr full ↦ rw full (
        subst (λ l. Within l sent) (append_assoc taken queue rest)
          (Within-drop (taken ++ queue) e rest sent
            (subst⁻¹ (λ l. Within l sent) (append_assoc taken queue (e ∷ rest)) h)))
  ]

  -- A client without a loop has no call waiting.
  abbrev pub IsDirect : Client E → Type 0
  IsDirect c = c.loop ≡ none → c.waiting ≡ []

  line-append :
      (c : Client E) (e : E)
      → (c.taken ++ (c.queue ++ c.waiting)) ++ (e ∷ [])
        ≡ c.taken ++ (c.queue ++ (c.waiting ++ (e ∷ [])))
  line-append c e =
      rw
        (
          append_assoc c.taken (c.queue ++ c.waiting) (e ∷ []),
          append_assoc c.queue c.waiting (e ∷ []),
        )
        refl

  pub put-IsServed :
      (closed : Bool) (e : E) (sent : List E) (c : Client E)
      → IsDirect c
      → IsServed sent c
      → IsServed (sent ++ (e ∷ [])) (put closed e c)
  unfolding put
  put-IsServed closed e sent c d s =
      let new = Within-new (c.taken ++ (c.queue ++ c.waiting)) sent e s.order in
      let lined : Within (c.taken ++ (c.queue ++ (c.waiting ++ (e ∷ [])))) (sent ++ (e ∷ [])) =
        subst (λ l. Within l (sent ++ (e ∷ []))) (line-append c e) new in
      elim (Option-cases (c.loop)) [
        | inl none_of ↦
            rw (none_of, put)
              (record {
                order =
                    let empty = d none_of in
                    subst⁻¹ (λ w. Within (c.taken ++ (enqueue e c.queue ++ w)) (sent ++ (e ∷ [])))
                      empty
                      (enqueue-Within e c.taken c.queue [] (sent ++ (e ∷ [])) (
                        subst
                          (λ w. Within (c.taken ++ (c.queue ++ (w ++ (e ∷ [])))) (sent ++ (e ∷ [])))
                          empty lined));
                bound = enqueue-length e c.queue s.bound;
              })
        | inr (l, known) ↦ elim (Bool-cases closed) [
          | inl dead ↦
              rw (known, put, dead)
                (record {
                  order = Within-old (c.taken ++ (c.queue ++ c.waiting)) sent e s.order;
                  bound = s.bound;
                })
          | inr open_loop ↦ rw (known, put, open_loop) (record { order = lined; bound = s.bound })
        ]
      ]

  pub send_all-put :
      (closed : ℕ → Bool) (e : E) (qs : List ℕ) (clients : ℕ → Client E) (q : ℕ)
      → IsDistinct qs
      → send_all closed e qs clients q
        ≡ (if listed q qs then put (closed q) e (clients q) else clients q)
  unfolding send_all listed update
  send_all-put closed e [] clients q d = refl
  send_all-put closed e (p ∷ qs) clients q (h, d) =
      let rest = send_all-put closed e qs (update p (put (closed p) e (clients p)) clients) q d in
      ground arith
