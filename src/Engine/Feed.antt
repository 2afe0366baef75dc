-- ===== src/Engine/Feed.antt =====
-- The broker's invariant, which clients that come and go keep.
use hype_coin_predictive_eng.Prelude.{
  ℕ, ◌≤◌, ◌<◌, ◌≡◌, ◌⊎◌, inl, inr, refl, Bool, true, false, ◌&&◌, ◌||◌, not, Option, List, [], ◌∷◌,
  ◌++◌, leb, ◌==◌, length, filter, arith, Bool-cases, length-append, length-filter-le, subst,
}
use hype_coin_predictive_eng.Engine.Broker.{
  max_subscribers, Client, Broker, listed, update, forget_loop, evict, connect, disconnect,
}
use hype_coin_predictive_eng.Engine.Stream.{IsDistinct, IsServed, IsDirect}

pub List-cases : {A : Type 0} (l : List A) → (l ≡ []) ⊎ ((x : A) × (xs : List A) × (l ≡ x ∷ xs))
List-cases [] = inl refl
List-cases (x ∷ xs) = inr (x, xs, refl)

pub listed-filter :
    (p : ℕ → Bool) (q : ℕ) (l : List ℕ) → listed q (filter p l) ≡ (listed q l && p q)
unfolding listed
listed-filter p q [] = refl
listed-filter p q (i ∷ l) =
    let rest = listed-filter p q l in
    elim (Bool-cases (i == q)) [
      | inl same ↦ let e : i ≡ q = ground arith in rw e (ground arith)
      | inr other ↦ ground arith
    ]

listed-append : (q i : ℕ) (l : List ℕ) → listed q (l ++ (i ∷ [])) ≡ (listed q l || i == q)
unfolding listed
listed-append q i [] = ground arith
listed-append q i (j ∷ l) = ground (arith, listed-append q i l)

pub filter-IsDistinct : (p : ℕ → Bool) (l : List ℕ) → IsDistinct l → IsDistinct (filter p l)
filter-IsDistinct p [] d = tt
filter-IsDistinct p (i ∷ l) (h, d) = elim (Bool-cases (p i)) [
  | inl kept ↦ rw kept (let f = listed-filter p i l in ground arith, filter-IsDistinct p l d)
  | inr gone ↦ rw gone (filter-IsDistinct p l d)
]

append-IsDistinct :
    (i : ℕ) (l : List ℕ) → listed i l ≡ false → IsDistinct l → IsDistinct (l ++ (i ∷ []))
unfolding listed
append-IsDistinct i [] h d = (refl, tt)
append-IsDistinct i (j ∷ l) h (k, d) =
    (let a = listed-append j i l in ground arith, append-IsDistinct i l (ground arith) d)

module _ {E : Type 0} where
  pub update_all :
      (P : Client E → Type 0) (q : ℕ) (c : Client E) (m : ℕ → Client E)
      → P c
      → ((p : ℕ) → P (m p))
      → (p : ℕ) → P (update q c m p)
  unfolding update
  update_all P q c m h k p = elim (Bool-cases (q == p)) [ inl e ↦ rw e h | inr e ↦ rw e (k p) ]

  pub update-listed :
      (P : Client E → Type 0) (q : ℕ) (c : Client E) (m : ℕ → Client E) (l : List ℕ)
      → (listed q l ≡ true → P c)
      → ((p : ℕ) → (q == p) ≡ false → listed p l ≡ true → P (m p))
      → (p : ℕ) → listed p l ≡ true
      → P (update q c m p)
  unfolding update
  update-listed P q c m l h k p i = elim (Bool-cases (q == p)) [
    | inl e ↦ let same : p ≡ q = ground arith in rw e (h (subst (λ j. listed j l ≡ true) same i))
    | inr e ↦ rw e (k p e i)
  ]

  -- The clients are served, those that are listed have numbers that were given out, and no more than
  -- the limit is listed.
  pub record IsSound (sent : List E) (b : Broker E) : Type 0 where
    pub served : (q : ℕ) → IsServed sent (b.clients q)
    pub direct : (q : ℕ) → listed q b.queues ≡ true → IsDirect (b.clients q)
    pub given : (q : ℕ) → b.next_queue ≤ q → listed q b.queues ≡ false
    pub distinct : IsDistinct b.queues
    pub bounded : length b.queues ≤ max_subscribers

  pub forget_loop-IsServed :
      (sent : List E) (c : Client E) → IsServed sent c → IsServed sent (forget_loop c)
  forget_loop-IsServed sent c s = record { order = s.order; bound = s.bound }

  evict-IsSound :
      (sent : List E) (b : Broker E) (l : List ℕ)
      → b.queues ≡ l
      → IsSound sent b
      → IsSound sent (evict l b) × (length (evict l b).queues < max_subscribers)
  unfolding evict listed
  evict-IsSound sent b [] e s = (s, rw e (omega arith))
  evict-IsSound sent b (q ∷ qs) e s =
      let d : IsDistinct (q ∷ qs) = subst (λ l. IsDistinct l) e s.distinct in
      let n : length (q ∷ qs) ≤ max_subscribers =
        subst (λ l. length l ≤ max_subscribers) e s.bounded in
      elim (Bool-cases (leb max_subscribers (length (q ∷ qs)))) [
        | inl full ↦ rw full (
          record {
            served =
                update_all (IsServed sent) q (forget_loop (b.clients q)) b.clients
                  (forget_loop-IsServed sent (b.clients q) (s.served q)) s.served;
            direct =
                update-listed IsDirect q (forget_loop (b.clients q)) b.clients qs
                  (λ i. absurd (ground arith)) (λ p o i. s.direct p (rw e (ground arith)));
            given = λ p h.
                let g : listed p (q ∷ qs) ≡ false =
                  subst (λ l. listed p l ≡ false) e (s.given p h) in
                ground arith;
            distinct = d.1;
            bounded = omega arith;
          },
          omega arith,
        )
        | inr room ↦ rw room (s, rw e (ground arith))
      ]

  pub connect-IsSound :
      (sent : List E) (loop : Option ℕ) (b : Broker E)
      → IsSound sent b
      → IsSound sent (connect loop b).1
  unfolding connect listed
  connect-IsSound sent loop b s =
      let kept = evict b.queues b in
      let (k, room) = evict-IsSound sent b b.queues refl s in
      let q = kept.next_queue in
      let c : Client E = record { loop = loop; queue = []; waiting = []; taken = [] } in
      record {
        served =
            update_all (IsServed sent) q c kept.clients (record { order = tt; bound = omega arith })
              k.served;
        direct =
            update-listed IsDirect q c kept.clients (kept.queues ++ (q ∷ [])) (λ i none_of. refl)
              (λ p o i. let a = listed-append p q kept.queues in k.direct p (ground arith));
        given = λ p h.
            let a = listed-append p q kept.queues in
            let g = k.given p (omega arith) in ground arith;
        distinct = append-IsDistinct q kept.queues (k.given q (omega arith)) k.distinct;
        bounded = let a = length-append kept.queues (q ∷ []) in omega arith;
      }

  pub disconnect-IsSound :
      (sent : List E) (q : ℕ) (b : Broker E) → IsSound sent b → IsSound sent (disconnect q b)
  unfolding disconnect
  disconnect-IsSound sent q b s =
      let test : ℕ → Bool = λ p. not (p == q) in
      record {
        served =
            update_all (IsServed sent) q (forget_loop (b.clients q)) b.clients
              (forget_loop-IsServed sent (b.clients q) (s.served q)) s.served;
        direct =
            update-listed IsDirect q (forget_loop (b.clients q)) b.clients (filter test b.queues)
              (λ i. let f = listed-filter test q b.queues in absurd (ground arith))
              (λ p o i. let f = listed-filter test p b.queues in s.direct p (ground arith));
        given = λ p h. let f = listed-filter test p b.queues in let g = s.given p h in ground arith;
        distinct = filter-IsDistinct test b.queues s.distinct;
        bounded = let f = length-filter-le test b.queues in let n = s.bounded in omega arith;
      }
