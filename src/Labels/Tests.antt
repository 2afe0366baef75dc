-- ===== src/Labels/Tests.antt =====
-- Labels in hundredths, and the theorems at concrete inputs.
use hype_coin_predictive_eng.Prelude.{ℕ, ◌≡◌, ◌++◌, refl, true, false, some, List, [], ◌∷◌, map}
use hype_coin_predictive_eng.Prelude.Int.{ℤ, pos, negsuc, ◌+ℤ◌, ◌-ℤ◌}
use hype_coin_predictive_eng.Float.{hundredths}
use hype_coin_predictive_eng.Labels.Upsert.{
  dense_prefix, is_dense, starts_with, ignition, Label, upsert_label, find,
}
use hype_coin_predictive_eng.Labels.Generate.{
  MarketSnapshot, Settings, Labelled, point_in_time_rows, prices_until, label_pair, label_rows,
  generate, entry_at, seed_feature, seed_labels,
}
use hype_coin_predictive_eng.Labels.Real.{upserts, upserts_dense}
use hype_coin_predictive_eng.Labels.Elapsed.{
  AllElapsed, generated, seeded, Pass, passes, passes-AllElapsed,
}
use hype_coin_predictive_eng.Labels.Leak.{labels_no_leak}

program : Unit {0}
unfolding ◌+ℤ◌ ◌-ℤ◌ starts_with upsert_label find point_in_time_rows prices_until label_pair
    label_rows generate entry_at seed_feature seed_labels upserts passes
program = tt

abbrev settings : Settings ℤ
settings = record {
  window = 24;
  forecast_ignition_threshold = pos 50;
  forecast_collapse_threshold = negsuc 49;
  forecast_source = b'f' ∷ [];
  feature_aligned_source = b'a' ∷ [];
}

abbrev snapshot : ℕ → ℕ → MarketSnapshot ℤ
snapshot ts price = record { asset_id = 1; ts = ts; observed_at = ts; price_usd = some (pos price) }

-- The price doubles and then falls to a quarter.
abbrev snapshots : List (MarketSnapshot ℤ)
snapshots = snapshot 10 100 ∷ snapshot 20 200 ∷ snapshot 30 50 ∷ []

abbrev nothing : Labelled
nothing = record {
  labels = [];
  counts = record { ignitions = 0; collapses = 0; decision_points = 0 };
}

abbrev all_passes : List (Pass hundredths)
all_passes = generated snapshots 40 (1 ∷ []) ∷ seeded snapshots 50 ((1, 12) ∷ (1, 40) ∷ []) ∷ []

-- At 40 only the window of the first row is over.
passes_test :
    (map (λ l. l.ts) (passes hundredths settings all_passes nothing).labels
      ≡ 10 ∷ 10 ∷ 12 ∷ 12 ∷ [])
    × (map (λ l. l.label_value) (passes hundredths settings all_passes nothing).labels
        ≡ true ∷ true ∷ true ∷ true ∷ [])
unfolding program
passes_test = (refl, refl)

abbrev real : Label
real = record {
  asset_id = 1;
  ts = 10;
  label_type = ignition;
  label_value = true;
  observed_at = 40;
  label_source = b'f' ∷ [];
}

abbrev dense : Label
dense = record real { label_value = false; label_source = dense_prefix ++ (b'v' ∷ []) }

dense_facts :
    (find 1 10 ignition (real ∷ []) ≡ some real)
    × (is_dense (b'f' ∷ []) ≡ false)
    × (is_dense dense.label_source ≡ true)
unfolding program
dense_facts = (refl, refl, refl)

upserts_dense_example : find 1 10 ignition (upserts (dense ∷ dense ∷ []) (real ∷ [])) ≡ some real
upserts_dense_example =
    let (found, is_real, is_not) = dense_facts in
    upserts_dense (dense ∷ dense ∷ []) 1 10 ignition real (real ∷ []) found is_real
      (is_not, (is_not, tt))

passes-AllElapsed_example : AllElapsed hundredths 24 (passes hundredths settings all_passes nothing)
passes-AllElapsed_example = passes-AllElapsed hundredths settings all_passes nothing tt

-- A price of time 15 that was observed at 45.
abbrev late : MarketSnapshot ℤ
late = record (snapshot 15 1) { observed_at = 45 }

abbrev grown : List (MarketSnapshot ℤ)
grown = snapshot 10 100 ∷ late ∷ snapshot 20 200 ∷ snapshot 30 50 ∷ snapshot 45 1 ∷ []

labels_no_leak_example :
    (generate hundredths settings grown 40 (1 ∷ []) nothing
      ≡ generate hundredths settings snapshots 40 (1 ∷ []) nothing)
    × (seed_labels hundredths settings grown 40 ((1, 12) ∷ []) nothing
        ≡ seed_labels hundredths settings snapshots 40 ((1, 12) ∷ []) nothing)
labels_no_leak_example =
    labels_no_leak hundredths settings grown snapshots 40 (1 ∷ []) ((1, 12) ∷ []) nothing refl
