-- ===== src/Labels/Elapsed.antt =====
-- A label is only written when its forward window is over.
use hype_coin_predictive_eng.Prelude.{
  ℕ, ◌+◌, ◌≤◌, ◌≡◌, refl, inl, inr, Bool, true, false, not, ◌&&◌, Option, none, some, List, [], ◌∷◌,
  ltb, All, arith, Bool-cases, if◌then◌else◌,
}
use hype_coin_predictive_eng.Float.{Float}
use hype_coin_predictive_eng.Labels.Upsert.{Text, Label, is_dense, is_at, overwrite, upsert_label}
use hype_coin_predictive_eng.Labels.Generate.{
  MarketSnapshot, Settings, Labelled, Priced, point_in_time_rows, prices_until, label_pair,
  label_rows, generate, entry_at, seed_entry, has_labels, count_point, seed_feature, seed_labels,
}

-- The label was written no earlier than the end of its window.
abbrev pub IsElapsed : ℕ → Label → Type 0
IsElapsed window l = l.ts + window ≤ l.observed_at

overwrite-IsElapsed :
    (window : ℕ) (new row : Label)
    → new.ts ≡ row.ts
    → IsElapsed window new
    → IsElapsed window row
    → IsElapsed window (overwrite new row)
overwrite-IsElapsed window new row same h k =
    elim (Bool-cases (is_dense new.label_source && not (is_dense row.label_source))) [
      | inl e ↦ rw e k
      | inr e ↦ rw e (omega (arith, same, h))
    ]

upsert_label-IsElapsed :
    (window : ℕ) (new : Label) (l : List Label)
    → IsElapsed window new
    → All (IsElapsed window) l
    → All (IsElapsed window) (upsert_label new l).1
unfolding upsert_label
upsert_label-IsElapsed window new [] h k = (h, tt)
upsert_label-IsElapsed window new (row ∷ l) h k =
    elim (Bool-cases (is_at new.asset_id new.ts new.label_type row)) [
      | inl same ↦
          let same_ts : new.ts ≡ row.ts = ground (arith, same) in
          rw same (overwrite-IsElapsed window new row same_ts h k.0, k.1)
      | inr other ↦ rw other (k.0, upsert_label-IsElapsed window new l h k.1)
    ]

module _ (f : Float) where
  open f use {Carrier}

  abbrev pub AllElapsed : ℕ → Labelled → Type 0
  AllElapsed window x = All (IsElapsed window) x.labels

  label_pair-AllElapsed :
      (s : Settings Carrier) (source : Text) (asset decision ts : ℕ) (entry : Carrier)
      (prices : List Carrier) (x : Labelled)
      → ts + s.window ≤ decision
      → AllElapsed s.window x
      → AllElapsed s.window (label_pair f s source asset decision ts entry prices x)
  unfolding label_pair
  label_pair-AllElapsed s source asset decision ts entry [] x over h = h
  label_pair-AllElapsed s source asset decision ts entry (p ∷ ps) x over h =
      upsert_label-IsElapsed s.window _ _ over (upsert_label-IsElapsed s.window _ _ over h)

  if-AllElapsed :
      (window : ℕ) (b : Bool) (x y : Labelled)
      → (b ≡ true → AllElapsed window x)
      → (b ≡ false → AllElapsed window y)
      → AllElapsed window (if b then x else y)
  if-AllElapsed window true x y h k = h refl
  if-AllElapsed window false x y h k = k refl

  label_rows-AllElapsed :
      (s : Settings Carrier) (asset decision : ℕ) (rows : List (Priced f)) (x : Labelled)
      → AllElapsed s.window x
      → AllElapsed s.window (label_rows f s asset decision rows x)
  unfolding label_rows
  label_rows-AllElapsed s asset decision [] x h = h
  label_rows-AllElapsed s asset decision (r ∷ rows) x h =
      label_rows-AllElapsed s asset decision rows _ (
        if-AllElapsed s.window (ltb decision (r.at + s.window)) x _ (λ early. h)
          (λ over.
            label_pair-AllElapsed s s.forecast_source asset decision r.at r.price
              (prices_until f (r.at + s.window) rows) x (ground (arith, over)) h))

  generate-AllElapsed :
      (s : Settings Carrier) (snapshots : List (MarketSnapshot Carrier)) (decision : ℕ)
      (assets : List ℕ) (x : Labelled)
      → AllElapsed s.window x
      → AllElapsed s.window (generate f s snapshots decision assets x)
  unfolding generate
  generate-AllElapsed s snapshots decision [] x h = h
  generate-AllElapsed s snapshots decision (asset ∷ assets) x h =
      generate-AllElapsed s snapshots decision assets _
        (label_rows-AllElapsed s asset decision (point_in_time_rows f asset decision snapshots) x h)

  seed_entry-AllElapsed :
      (s : Settings Carrier) (asset decision ts : ℕ) (rows : List (Priced f))
      (o : Option (Priced f)) (x : Labelled)
      → ts + s.window ≤ decision
      → AllElapsed s.window x
      → AllElapsed s.window (seed_entry f s asset decision ts rows o x)
  seed_entry-AllElapsed s asset decision ts rows none x over h = h
  seed_entry-AllElapsed s asset decision ts rows (some e) x over h =
      label_pair-AllElapsed s s.feature_aligned_source asset decision ts e.price _ x over h

  seed_feature-AllElapsed :
      (s : Settings Carrier) (snapshots : List (MarketSnapshot Carrier)) (decision asset ts : ℕ)
      (x : Labelled)
      → AllElapsed s.window x
      → AllElapsed s.window (seed_feature f s snapshots decision asset ts x)
  unfolding seed_feature
  seed_feature-AllElapsed s snapshots decision asset ts x h =
      elim (Bool-cases (ltb decision (ts + s.window))) [
        | inl early ↦ rw early h
        | inr over ↦ elim (Bool-cases (has_labels f asset ts x.labels)) [
          | inl labelled ↦ rw (over, labelled) h
          | inr fresh ↦
              let rows = point_in_time_rows f asset decision snapshots in
              rw (over, fresh)
                (seed_entry-AllElapsed s asset decision ts rows (entry_at f ts rows)
                  (count_point f x) (ground (arith, over)) h)
        ]
      ]

  seed_labels-AllElapsed :
      (s : Settings Carrier) (snapshots : List (MarketSnapshot Carrier)) (decision : ℕ)
      (features : List (ℕ × ℕ)) (x : Labelled)
      → AllElapsed s.window x
      → AllElapsed s.window (seed_labels f s snapshots decision features x)
  unfolding seed_labels
  seed_labels-AllElapsed s snapshots decision [] x h = h
  seed_labels-AllElapsed s snapshots decision ((asset, ts) ∷ features) x h =
      seed_labels-AllElapsed s snapshots decision features _
        (seed_feature-AllElapsed s snapshots decision asset ts x h)

  -- Passes of either kind, over what the market is at their times.
  pub data Pass : Type 0 where
    generated : List (MarketSnapshot Carrier) → ℕ → List ℕ → Pass
    seeded : List (MarketSnapshot Carrier) → ℕ → List (ℕ × ℕ) → Pass

  unfoldable pub passes : Settings Carrier → List Pass → Labelled → Labelled
  unfolding generate seed_labels
  passes s [] x = x
  passes s (generated snapshots decision assets ∷ ps) x =
      passes s ps (generate f s snapshots decision assets x)
  passes s (seeded snapshots decision features ∷ ps) x =
      passes s ps (seed_labels f s snapshots decision features x)

  -- After any passes of the label engine and of the seeding, over whatever market, every label was
  -- written no earlier than the end of its forward window, if that held of the labels before.
  pub passes-AllElapsed :
      (s : Settings Carrier) (ps : List Pass) (x : Labelled)
      → AllElapsed s.window x
      → AllElapsed s.window (passes s ps x)
  unfolding passes
  passes-AllElapsed s [] x h = h
  passes-AllElapsed s (generated snapshots decision assets ∷ ps) x h =
      passes-AllElapsed s ps _ (generate-AllElapsed s snapshots decision assets x h)
  passes-AllElapsed s (seeded snapshots decision features ∷ ps) x h =
      passes-AllElapsed s ps _ (seed_labels-AllElapsed s snapshots decision features x h)
