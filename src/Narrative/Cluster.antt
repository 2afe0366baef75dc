-- ===== src/Narrative/Cluster.antt =====
-- `cluster_mentions` of narrative/cluster.py. The embedder is an argument, as it is in the code, and so
-- are the key that a topic's hash gives and the mentions that were observed by the decision. Topics are at
-- most 256 long. `none` is the database's refusal of a second row with one key, which ends the pass.
use hype_coin_predictive_eng.Prelude.{
  ℕ, ◌+◌, String, Option, none, some, List, [], ◌∷◌, if◌then◌else◌, max, Dict, lookup, insert,
  str_eq,
}
use hype_coin_predictive_eng.Float.{Float}
use hype_coin_predictive_eng.Float.MinMax.{zero_float}

pub record Mention : Type 0 where
  pub topic : Option String
  pub ts : ℕ
  pub cluster_key : Option String

pub record NarrativeCluster : Type 0 where
  pub seed_topic : String
  pub mention_count : ℕ
  pub first_seen_at : ℕ
  pub last_seen_at : ℕ

pub record Embedder (f : Float) : Type 1 where
  pub Signature : Type 0
  pub embed : String → Signature
  pub similarity : Signature → Signature → f.Carrier

-- `topic or text`
abbrev pub topic_or : String → Option String → String
topic_or text none = text
topic_or text (some topic) = if str_eq topic "" then text else topic

module _ (f : Float) (e : Embedder f) (key_of : String → String) (threshold : f.Carrier) where
  open f use {Carrier}
  open e use {Signature}

  -- The loop over the seeds: the most similar key, if any is above 0, and its similarity.
  unfoldable pub best :
      Signature → Dict Signature → Option String → Carrier → Option String × Carrier
  best signature [] best_key best_similarity = (best_key, best_similarity)
  best signature ((key, seed) ∷ seeds) best_key best_similarity =
      let similarity = e.similarity signature seed in
      if f.ltb best_similarity similarity
      then best signature seeds (some key) similarity
      else best signature seeds best_key best_similarity

  -- The key of the cluster that the mention joins.
  abbrev pub joined : Option String × Carrier → Option String
  joined (none, similarity) = none
  joined (some key, similarity) = if f.leb threshold similarity then some key else none

  unfoldable pub embed_seeds : Dict NarrativeCluster → Dict Signature
  embed_seeds [] = []
  embed_seeds ((key, c) ∷ clusters) = (key, e.embed c.seed_topic) ∷ embed_seeds clusters

  pub record State : Type 0 where
    pub seeds : Dict Signature
    pub clusters : Dict NarrativeCluster

  -- The cluster for a mention, with a new row if it joins none.
  unfoldable pub find_cluster : Mention → State → Option (String × State)
  unfolding best
  find_cluster m s =
      let signature = e.embed (topic_or "" m.topic) in
      elim (joined (best signature s.seeds none (zero_float f))) [
        | some key ↦ some (key, s)
        | none ↦
            let title = topic_or "untitled" m.topic in
            let key = key_of title in
            elim (lookup key s.clusters) [
              | some c ↦ none
              | none ↦ some (
                key,
                record {
                  seeds = insert key signature s.seeds;
                  clusters =
                      insert key
                        (record {
                          seed_topic = title;
                          mention_count = 0;
                          first_seen_at = m.ts;
                          last_seen_at = m.ts;
                        })
                        s.clusters;
                },
              )
            ]
      ]

  -- The row's count and its last time.
  unfoldable pub count_mention : String → ℕ → Dict NarrativeCluster → Dict NarrativeCluster
  count_mention key ts clusters = elim (lookup key clusters) [
    | none ↦ clusters
    | some c ↦
        insert key
          (record c { mention_count = c.mention_count + 1; last_seen_at = max c.last_seen_at ts })
          clusters
  ]

  abbrev pub keep : Mention → Option (List Mention × State) → Option (List Mention × State)
  keep m none = none
  keep m (some (ms, s)) = some (m ∷ ms, s)

  -- The loop over the mentions; those that have a cluster are left alone.
  unfoldable pub cluster_loop : List Mention → State → Option (List Mention × State)
  unfolding find_cluster count_mention
  cluster_loop [] s = some ([], s)
  cluster_loop (m ∷ ms) s = elim (m.cluster_key) [
    | some key ↦ keep m (cluster_loop ms s)
    | none ↦ elim (find_cluster m s) [
      | none ↦ none
      | some found ↦
          keep (record m { cluster_key = some found.0 })
            (cluster_loop ms
              (record (found.1) { clusters = count_mention found.0 m.ts found.1.clusters }))
    ]
  ]

  abbrev pub rows_of : Option (List Mention × State) → Option (List Mention × Dict NarrativeCluster)
  rows_of none = none
  rows_of (some (ms, s)) = some (ms, s.clusters)

  -- `cluster_mentions`: the mentions and the clusters after it.
  unfoldable pub cluster_mentions :
      List Mention → Dict NarrativeCluster → Option (List Mention × Dict NarrativeCluster)
  unfolding cluster_loop embed_seeds
  cluster_mentions ms clusters =
      rows_of (cluster_loop ms (record { seeds = embed_seeds clusters; clusters = clusters }))
