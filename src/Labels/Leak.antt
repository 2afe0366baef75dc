-- ===== src/Labels/Leak.antt =====
-- What is observed after a pass has no influence on it.
use hype_coin_predictive_eng.Prelude.{
  ℕ, ◌≡◌, ◌∙◌, sym, ap, refl, inl, inr, Bool, false, ◌&&◌, List, [], ◌∷◌, leb, ◌==◌, filter, arith,
  Bool-cases,
}
use hype_coin_predictive_eng.Float.{Float}
use hype_coin_predictive_eng.Labels.Generate.{
  MarketSnapshot, Settings, Labelled, point_in_time_rows, generate, seed_feature, seed_labels,
}

module _ (f : Float) where
  open f use {Carrier}

  abbrev pub Market : Type 0
  Market = List (MarketSnapshot Carrier)

  -- The snapshot is of a time up to the decision and was observed up to it.
  abbrev pub is_visible : ℕ → MarketSnapshot Carrier → Bool
  is_visible decision s = leb s.ts decision && leb s.observed_at decision

  abbrev pub visible : ℕ → Market → Market
  visible decision snapshots = filter (is_visible decision) snapshots

  point_in_time_rows-visible :
      (asset decision : ℕ) (snapshots : Market)
      → point_in_time_rows f asset decision (visible decision snapshots)
        ≡ point_in_time_rows f asset decision snapshots
  unfolding point_in_time_rows
  point_in_time_rows-visible asset decision [] = refl
  point_in_time_rows-visible asset decision (s ∷ l) =
      let rest = point_in_time_rows-visible asset decision l in
      elim (Bool-cases (is_visible decision s)) [
        | inl seen ↦ rw seen (rw (seen, rest) refl)
        | inr hidden ↦
            let skipped : (s.asset_id == asset && false) ≡ false = ground arith in
            rw (hidden, skipped) rest
      ]

  same_rows :
      (asset decision : ℕ) (a b : Market)
      → visible decision a ≡ visible decision b
      → point_in_time_rows f asset decision a ≡ point_in_time_rows f asset decision b
  same_rows asset decision a b same =
      sym (point_in_time_rows-visible asset decision a)
      ∙ (ap (λ l. point_in_time_rows f asset decision l) same
          ∙ point_in_time_rows-visible asset decision b)

  generate_same :
      (s : Settings Carrier) (a b : Market) (decision : ℕ) (assets : List ℕ) (x : Labelled)
      → visible decision a ≡ visible decision b
      → generate f s a decision assets x ≡ generate f s b decision assets x
  unfolding generate
  generate_same s a b decision [] x same = refl
  generate_same s a b decision (asset ∷ assets) x same =
      rw (same_rows asset decision a b same) (generate_same s a b decision assets _ same)

  seed_feature_same :
      (s : Settings Carrier) (a b : Market) (decision asset ts : ℕ) (x : Labelled)
      → visible decision a ≡ visible decision b
      → seed_feature f s a decision asset ts x ≡ seed_feature f s b decision asset ts x
  unfolding seed_feature
  seed_feature_same s a b decision asset ts x same = rw (same_rows asset decision a b same) refl

  seed_labels_same :
      (s : Settings Carrier) (a b : Market) (decision : ℕ) (features : List (ℕ × ℕ)) (x : Labelled)
      → visible decision a ≡ visible decision b
      → seed_labels f s a decision features x ≡ seed_labels f s b decision features x
  unfolding seed_labels
  seed_labels_same s a b decision [] x same = refl
  seed_labels_same s a b decision ((asset, ts) ∷ features) x same =
      rw (seed_feature_same s a b decision asset ts x same)
        (seed_labels_same s a b decision features _ same)

  -- The labels that the label engine and the seeding write at a decision time, and their counts, are the
  -- same over any two markets that differ only in snapshots of a later time or observed later.
  pub labels_no_leak :
      (s : Settings Carrier) (a b : Market) (decision : ℕ) (assets : List ℕ)
      (features : List (ℕ × ℕ)) (x : Labelled)
      → visible decision a ≡ visible decision b
      → (generate f s a decision assets x ≡ generate f s b decision assets x)
        × (seed_labels f s a decision features x ≡ seed_labels f s b decision features x)
  labels_no_leak s a b decision assets features x same =
      (generate_same s a b decision assets x same, seed_labels_same s a b decision features x same)
