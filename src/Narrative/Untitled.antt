-- ===== src/Narrative/Untitled.antt =====
-- Mentions without a title: a pass may refuse all that later passes are to cluster.
use hype_coin_predictive_eng.Prelude.{
  ℕ, ◌≡◌, inl, inr, refl, String, false, none, some, [], ◌∷◌, lookup, insert, arith, Bool-cases,
  str_eq_refl,
}
use hype_coin_predictive_eng.Float.{Float}
use hype_coin_predictive_eng.Float.MinMax.{zero_float}
use hype_coin_predictive_eng.Narrative.Cluster.{
  Mention, NarrativeCluster, Embedder, State, best, find_cluster, count_mention, embed_seeds,
  cluster_loop, cluster_mentions,
}

abbrev pub untitled : ℕ → Mention
untitled ts = record { topic = some ""; ts = ts; cluster_key = none }

-- The cluster that a mention without a title founds.
abbrev pub founded : ℕ → NarrativeCluster
founded ts = record {
  seed_topic = "untitled";
  mention_count = 1;
  first_seen_at = ts;
  last_seen_at = ts;
}

module _ (f : Float) (e : Embedder f) (key_of : String → String) (threshold : f.Carrier) where
  -- The similarity of no text to the text `untitled`.
  abbrev pub likeness : f.Carrier
  likeness = e.similarity (e.embed "") (e.embed "untitled")

  abbrev key : String
  key = key_of "untitled"

  abbrev row : ℕ → NarrativeCluster
  row ts = record (founded ts) { mention_count = 0 }

  abbrev first : State f e key_of threshold
  first = record { seeds = []; clusters = [] }

  abbrev second : ℕ → State f e key_of threshold
  second ts = record { seeds = (key, e.embed "untitled") ∷ []; clusters = (key, founded ts) ∷ [] }

  count_first :
      (ts : ℕ)
      → count_mention f e key_of threshold key ts ((key, row ts) ∷ []) ≡ (key, founded ts) ∷ []
  unfolding count_mention lookup insert
  count_first ts = let same = str_eq_refl key in ground arith

  find_first :
      (ts : ℕ)
      → find_cluster f e key_of threshold (untitled ts) first
        ≡ some (key, record { seeds = (key, e.embed "") ∷ []; clusters = (key, row ts) ∷ [] })
  unfolding find_cluster best lookup insert
  find_first ts = refl

  find_second :
      (ts later : ℕ)
      → f.leb threshold likeness ≡ false
      → find_cluster f e key_of threshold (untitled later) (second ts) ≡ none
  unfolding find_cluster best lookup insert
  find_second ts later far =
      let same = str_eq_refl key in
      elim (Bool-cases (f.ltb (zero_float f) likeness)) [
        | inl some_like ↦ rw (find_cluster, best, some_like, far, lookup, same) refl
        | inr none_like ↦ rw (find_cluster, best, none_like, lookup, same) refl
      ]

  -- Where no text is not similar enough to the text `untitled`: the first pass over a mention with an
  -- empty topic founds a cluster, and the next pass with another such mention is refused by the database,
  -- because it founds one with the same key.
  pub cluster_mentions_refused :
      (ts later : ℕ)
      → f.leb threshold likeness ≡ false
      → (cluster_mentions f e key_of threshold (untitled ts ∷ []) []
          ≡ some (
            record (untitled ts) { cluster_key = some (key_of "untitled") } ∷ [],
            (key_of "untitled", founded ts) ∷ [],
          ))
        × (cluster_mentions f e key_of threshold
              (untitled later ∷ [])
              ((key_of "untitled", founded ts) ∷ [])
            ≡ none)
  unfolding cluster_mentions cluster_loop embed_seeds
  cluster_mentions_refused ts later far = (
    rw (cluster_mentions, cluster_loop, find_first ts, count_first ts) refl,
    rw (cluster_mentions, cluster_loop, embed_seeds, find_second ts later far) refl,
  )
