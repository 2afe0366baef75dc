-- ===== src/Scoring/Flush.antt =====
-- When the ensemble writes its row: what a crash can lose, and how often a failing write is tried.
use hype_coin_predictive_eng.Prelude.{
  ℕ, ◌+◌, ◌-◌, ◌*◌, ◌≤◌, ◌<◌, ◌≡◌, inl, inr, refl, true, false, ◌&&◌, none, some, List, [], ◌∷◌,
  if◌then◌else◌, All, arith, Bool-cases, Option-cases,
}
use hype_coin_predictive_eng.Float.{Float}
use hype_coin_predictive_eng.Scoring.Scorer.{Rounding}
use hype_coin_predictive_eng.Scoring.Ensemble.{
  Moment, World, ScorerName, get, set, is_due, may_retry, save_to_db, maybe_flush,
}
use hype_coin_predictive_eng.Scoring.Outcomes.{Entry, learn, record_outcome, record_outcomes}

module _ (f : Float) (r : Rounding f) where
  open f use {Carrier}

  -- A call whose save would commit, with the clock at 30 seconds or later.
  abbrev pub Commits : Moment × Entry f r → Type 0
  Commits c = (c.0.commits ≡ true) × (30 ≤ c.0.now) × (c.0.now ≤ c.0.after)

  -- The engine with one more outcome.
  abbrev counted : Moment → Entry f r → ScorerName → World Carrier → World Carrier
  counted m o name w = record w {
    engine = record (w.engine) {
      accuracies = set name (learn f r m.now o (get name w.engine.accuracies)) w.engine.accuracies;
      pending_outcomes = w.engine.pending_outcomes + 1;
    };
  }

  maybe_flush_fresh :
      (m : Moment) (w : World Carrier)
      → m.commits ≡ true
      → 30 ≤ m.now
      → m.now ≤ m.after
      → w.engine.last_flush_attempt ≡ 0
      → let e = (maybe_flush f r m w).engine in
        (e.last_flush_attempt ≡ 0) × (e.pending_outcomes < 50) × (m.now - e.last_flush < 300)
  unfolding maybe_flush save_to_db
  maybe_flush_fresh m w c late h z =
      elim (Bool-cases (is_due f r m.now w.engine && may_retry f r m.now w.engine)) [
        | inl due ↦ rw (due, c) (refl, omega arith, omega arith)
        | inr kept ↦ rw kept (z, ground arith, ground arith)
      ]

  record_outcome_fresh :
      (m : Moment) (o : Entry f r) (w : World Carrier)
      → Commits (m, o)
      → w.engine.last_flush_attempt ≡ 0
      → (record_outcome f r m o w).engine.last_flush_attempt ≡ 0
  unfolding record_outcome
  record_outcome_fresh m o w (c, late, h) z = elim (Option-cases (o.scorer_name)) [
    | inl unknown ↦ rw (unknown, record_outcome) z
    | inr (name, known) ↦
        rw (known, record_outcome) ((maybe_flush_fresh m (counted m o name w) c late h z).0)
  ]

  record_outcomes_fresh :
      (calls : List (Moment × Entry f r)) (w : World Carrier)
      → All Commits calls
      → w.engine.last_flush_attempt ≡ 0
      → (record_outcomes f r calls w).engine.last_flush_attempt ≡ 0
  unfolding record_outcomes
  record_outcomes_fresh [] w h z = z
  record_outcomes_fresh ((m, o) ∷ calls) w (c, h) z =
      record_outcomes_fresh calls (record_outcome f r m o w) h (record_outcome_fresh m o w c z)

  -- Where every save commits and the monotonic clock has reached 30 seconds: after any outcomes, and
  -- another of a known scorer, fewer than 50 outcomes are unsaved and the last save is less than 300
  -- seconds old.
  pub record_outcomes_bounded :
      (calls : List (Moment × Entry f r)) (m : Moment) (o : Entry f r) (name : ScorerName)
      (w : World Carrier)
      → w.engine.last_flush_attempt ≡ 0
      → All Commits calls
      → Commits (m, o)
      → o.scorer_name ≡ some name
      → let e = (record_outcome f r m o (record_outcomes f r calls w)).engine in
        (e.pending_outcomes < 50) × (m.now - e.last_flush < 300)
  unfolding record_outcome
  record_outcomes_bounded calls m o name w z h (c, late, k) known =
      let before = record_outcomes f r calls w in
      let fresh =
        maybe_flush_fresh m (counted m o name before) c late k
          (record_outcomes_fresh calls w h z) in
      rw (known, record_outcome) (fresh.1, fresh.2)

  -- One if the call tries to save.
  abbrev pub tries : Moment → Entry f r → World Carrier → ℕ
  tries m o w = elim (o.scorer_name) [
    | none ↦ 0
    | some name ↦
        if is_due f r m.now (counted m o name w).engine && may_retry f r m.now w.engine
        then 1
        else 0
  ]

  -- How many of the calls try to save, and how many belong to a known scorer.
  unfoldable pub attempts : List (Moment × Entry f r) → World Carrier → ℕ
  attempts [] w = 0
  attempts ((m, o) ∷ calls) w = tries m o w + attempts calls (record_outcome f r m o w)

  abbrev pub known_of : Entry f r → ℕ
  known_of o = elim (o.scorer_name) [ none ↦ 0 | some name ↦ 1 ]

  unfoldable pub recorded : List (Moment × Entry f r) → ℕ
  recorded [] = 0
  recorded ((m, o) ∷ calls) = known_of o + recorded calls

  -- A call at the end time or before whose save would fail.
  abbrev pub Fails : ℕ → Moment × Entry f r → Type 0
  Fails end c = (c.0.commits ≡ false) × (c.0.now ≤ end)

  record_outcome-Fails :
      (end : ℕ) (m : Moment) (o : Entry f r) (w : World Carrier)
      → Fails end (m, o)
      → w.engine.last_flush_attempt ≤ end
      → let e = (record_outcome f r m o w).engine in
        (30 * tries m o w + w.engine.last_flush_attempt ≤ e.last_flush_attempt)
        × (e.last_flush_attempt ≤ end)
        × (e.pending_outcomes ≡ w.engine.pending_outcomes + known_of o)
  unfolding record_outcome maybe_flush save_to_db
  record_outcome-Fails end m o w (c, t) h = elim (Option-cases (o.scorer_name)) [
    | inl unknown ↦ rw (unknown, record_outcome) (omega arith, h, omega arith)
    | inr (name, known) ↦
        let e = (counted m o name w).engine in
        elim (Bool-cases (is_due f r m.now e && may_retry f r m.now w.engine)) [
          | inl due ↦ rw (known, record_outcome, due, c) (ground arith, t, refl)
          | inr kept ↦ rw (known, record_outcome, kept) (omega arith, h, refl)
        ]
  ]

  -- While every save fails, outcomes cause no storm of writes: up to any time the number of attempts is
  -- at most the time since the last attempt by 30 seconds; and no outcome is forgotten, each of a known
  -- scorer stays pending.
  pub attempts_bounded :
      (end : ℕ) (calls : List (Moment × Entry f r)) (w : World Carrier)
      → w.engine.last_flush_attempt ≤ end
      → All (Fails end) calls
      → (30 * attempts calls w + w.engine.last_flush_attempt ≤ end)
        × ((record_outcomes f r calls w).engine.pending_outcomes
            ≡ w.engine.pending_outcomes + recorded calls)
  unfolding attempts recorded record_outcomes
  attempts_bounded end [] w h all = (omega arith, omega arith)
  attempts_bounded end ((m, o) ∷ calls) w h (c, all) =
      let (a, b, p) = record_outcome-Fails end m o w c h in
      let (n, q) = attempts_bounded end calls (record_outcome f r m o w) b all in
      (omega arith, omega arith)
