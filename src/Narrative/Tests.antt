-- ===== src/Narrative/Tests.antt =====
-- The clusters in hundredths, with an embedder for which texts are alike if they are the same.
use hype_coin_predictive_eng.Prelude.{
  ℕ, ◌≡◌, refl, String, Option, none, some, List, [], ◌∷◌, if◌then◌else◌, lookup, insert, str_eq,
  All, Dict,
}
use hype_coin_predictive_eng.Prelude.Int.{pos}
use hype_coin_predictive_eng.Float.{hundredths}
use hype_coin_predictive_eng.Narrative.Cluster.{
  Mention, NarrativeCluster, Embedder, best, find_cluster, count_mention, embed_seeds, cluster_loop,
  cluster_mentions,
}
use hype_coin_predictive_eng.Narrative.Keyed.{IsKeyed, cluster_mentions-IsKeyed}

program : Unit {0}
unfolding lookup insert best find_cluster count_mention embed_seeds cluster_loop cluster_mentions
program = tt

abbrev exact : Embedder hundredths
exact = record {
  Signature = String;
  embed = λ t. t;
  similarity = λ s t. if str_eq s t then pos 100 else pos 0;
}

abbrev key_of : String → String
key_of t = t

abbrev moon : ℕ → Option String → Mention
moon ts key = record { topic = some "moon"; ts = ts; cluster_key = key }

abbrev moons : NarrativeCluster
moons = record { seed_topic = "moon"; mention_count = 2; first_seen_at = 3; last_seen_at = 5 }

-- Two mentions of one topic found one cluster.
moons_test :
    cluster_mentions hundredths exact key_of (pos 60) (moon 3 none ∷ moon 5 none ∷ []) []
    ≡ some (moon 3 (some "moon") ∷ moon 5 (some "moon") ∷ [], ("moon", moons) ∷ [])
unfolding program
moons_test = refl

cluster_mentions-IsKeyed_example :
    let ms : List Mention = moon 3 (some "moon") ∷ moon 5 (some "moon") ∷ [] in
    let clusters : Dict NarrativeCluster = ("moon", moons) ∷ [] in
    All IsKeyed ms
    × (cluster_mentions hundredths exact key_of (pos 60) ms clusters ≡ some (ms, clusters))
cluster_mentions-IsKeyed_example =
    cluster_mentions-IsKeyed hundredths exact key_of (pos 60) (moon 3 none ∷ moon 5 none ∷ [])
      (moon 3 (some "moon") ∷ moon 5 (some "moon") ∷ []) [] (("moon", moons) ∷ []) moons_test
