-- ===== src/Narrative/Keyed.antt =====
-- A pass gives every mention a cluster, and a second pass changes nothing.
use hype_coin_predictive_eng.Prelude.{
  ◌≡◌, inl, inr, refl, String, Option, none, some, List, [], ◌∷◌, Dict, All, Option-cases, subst,
  ap,
}
use hype_coin_predictive_eng.Float.{Float}
use hype_coin_predictive_eng.Narrative.Cluster.{
  Mention, NarrativeCluster, Embedder, State, find_cluster, embed_seeds, keep, cluster_loop,
  rows_of, cluster_mentions,
}

abbrev pub IsKeyed : Mention → Type 0
IsKeyed m = (key : String) × (m.cluster_key ≡ some key)

module _ (f : Float) (e : Embedder f) (key_of : String → String) (threshold : f.Carrier) where
  -- Of mentions that all have clusters a pass changes nothing.
  cluster_loop_keyed :
      (ms : List Mention) (s : State f e key_of threshold)
      → All IsKeyed ms
      → cluster_loop f e key_of threshold ms s ≡ some (ms, s)
  unfolding cluster_loop
  cluster_loop_keyed [] s h = refl
  cluster_loop_keyed (m ∷ ms) s ((key, k), hs) =
      let rest = cluster_loop_keyed ms s hs in simp (k, cluster_loop, rest)

  abbrev AllKeyed : Option (List Mention × State f e key_of threshold) → Type 0
  AllKeyed none = Unit
  AllKeyed (some (ms, s)) = All IsKeyed ms

  keep-AllKeyed :
      (m : Mention) (o : Option (List Mention × State f e key_of threshold))
      → IsKeyed m
      → AllKeyed o
      → AllKeyed (keep f e key_of threshold m o)
  keep-AllKeyed m none k h = tt
  keep-AllKeyed m (some (ms, s)) k h = (k, h)

  cluster_loop-AllKeyed :
      (ms : List Mention) (s : State f e key_of threshold)
      → AllKeyed (cluster_loop f e key_of threshold ms s)
  unfolding cluster_loop
  cluster_loop-AllKeyed [] s = tt
  cluster_loop-AllKeyed (m ∷ ms) s = elim (Option-cases (m.cluster_key)) [
    | inr (key, k) ↦ rw (k, cluster_loop) (keep-AllKeyed m _ (key, k) (cluster_loop-AllKeyed ms s))
    | inl open_mention ↦ elim (Option-cases (find_cluster f e key_of threshold m s)) [
      | inl refused ↦ rw (open_mention, cluster_loop, refused) tt
      | inr (found, there) ↦
          rw (open_mention, cluster_loop, there)
            (keep-AllKeyed (record m { cluster_key = some found.0 }) _ (found.0, refl)
              (cluster_loop-AllKeyed ms _))
    ]
  ]

  rows_of-AllKeyed :
      (o : Option (List Mention × State f e key_of threshold)) (ms : List Mention)
      (clusters : Dict NarrativeCluster)
      → AllKeyed o
      → rows_of f e key_of threshold o ≡ some (ms, clusters)
      → All IsKeyed ms
  rows_of-AllKeyed none ms clusters h q = absurd cc
  rows_of-AllKeyed (some (ns, s)) ms clusters h q =
      let same : ns ≡ ms = cc in subst (λ l. All IsKeyed l) same h

  -- After a pass that the database does not refuse every mention has a cluster, and a pass over the same
  -- mentions again changes neither a mention nor a cluster.
  pub cluster_mentions-IsKeyed :
      (ms ms' : List Mention) (clusters clusters' : Dict NarrativeCluster)
      → cluster_mentions f e key_of threshold ms clusters ≡ some (ms', clusters')
      → All IsKeyed ms'
        × (cluster_mentions f e key_of threshold ms' clusters' ≡ some (ms', clusters'))
  unfolding cluster_mentions
  cluster_mentions-IsKeyed ms ms' clusters clusters' q =
      let s : State f e key_of threshold = record {
        seeds = embed_seeds f e key_of threshold clusters;
        clusters = clusters;
      } in
      let s' : State f e key_of threshold = record {
        seeds = embed_seeds f e key_of threshold clusters';
        clusters = clusters';
      } in
      let h =
        rows_of-AllKeyed (cluster_loop f e key_of threshold ms s) ms' clusters'
          (cluster_loop-AllKeyed ms s) q in
      (h, ap (rows_of f e key_of threshold) (cluster_loop_keyed ms' s' h))
