-- ===== src/Labels/Generate.antt =====
-- `LabelEngine.generate`, `seed_labels_at_feature_timestamps` and the query of backtest/runner.py that
-- gives an asset's market rows. Times are seconds; the database calls do not raise.
use hype_coin_predictive_eng.Prelude.{
  ℕ, suc, ◌+◌, Bool, false, ◌&&◌, ◌||◌, Option, none, some, List, [], ◌∷◌, ltb, leb, ◌==◌,
  if◌then◌else◌, filter,
}
use hype_coin_predictive_eng.Prelude.Int.{pos}
use hype_coin_predictive_eng.Float.{Float}
use hype_coin_predictive_eng.Float.MinMax.{min_float, max_float, one_float}
use hype_coin_predictive_eng.Labels.Upsert.{
  Text, LabelType, ignition, collapse, Label, upsert_label,
}

-- A market snapshot, with the base asset of its pair.
pub record MarketSnapshot (F : Type 0) : Type 0 where
  pub asset_id : ℕ
  pub ts : ℕ
  pub observed_at : ℕ
  pub price_usd : Option F

-- The window is `forecast_forward_hours`; the two sources carry the model's version.
pub record Settings (F : Type 0) : Type 0 where
  pub window : ℕ
  pub forecast_ignition_threshold : F
  pub forecast_collapse_threshold : F
  pub forecast_source : Text
  pub feature_aligned_source : Text

-- `counts`
pub record Counts : Type 0 where
  pub ignitions : ℕ
  pub collapses : ℕ
  pub decision_points : ℕ

pub record Labelled : Type 0 where
  pub labels : List Label
  pub counts : Counts

module _ (f : Float) where
  open f use {Carrier, cents}

  -- A row with its price, which is above 0.
  pub record Priced : Type 0 where
    pub at : ℕ
    pub price : Carrier

  abbrev pub priced_of : ℕ → Option Carrier → List Priced → List Priced
  priced_of ts none rest = rest
  priced_of ts (some price) rest =
      if f.ltb (cents (pos 0)) price then record { at = ts; price = price } ∷ rest else rest

  -- The rows of `point_in_time_market_rows` for an asset, which come in the order of their times, without
  -- those that have no price above 0.
  unfoldable pub point_in_time_rows : ℕ → ℕ → List (MarketSnapshot Carrier) → List Priced
  point_in_time_rows asset decision [] = []
  point_in_time_rows asset decision (s ∷ l) =
      let rest = point_in_time_rows asset decision l in
      if s.asset_id == asset && (leb s.ts decision && leb s.observed_at decision)
      then priced_of s.ts s.price_usd rest
      else rest

  -- The prices of the rows up to a time.
  unfoldable pub prices_until : ℕ → List Priced → List Carrier
  prices_until end [] = []
  prices_until end (r ∷ rows) =
      let rest = prices_until end rows in if leb r.at end then r.price ∷ rest else rest

  -- `max(prices)` and `min(prices)`
  abbrev pub max_of : Carrier → List Carrier → Carrier
  max_of m [] = m
  max_of m (p ∷ ps) = max_of (max_float f m p) ps

  abbrev pub min_of : Carrier → List Carrier → Carrier
  min_of m [] = m
  min_of m (p ∷ ps) = min_of (min_float f m p) ps

  -- Whether the prices after the entry reach the thresholds.
  abbrev pub is_ignition : Settings Carrier → Carrier → Carrier → List Carrier → Bool
  is_ignition s entry p ps =
      f.leb s.forecast_ignition_threshold (f.sub (f.div (max_of p ps) entry) (one_float f))

  abbrev pub is_collapse : Settings Carrier → Carrier → Carrier → List Carrier → Bool
  is_collapse s entry p ps =
      f.leb (f.sub (f.div (min_of p ps) entry) (one_float f)) s.forecast_collapse_threshold

  abbrev pub label : ℕ → ℕ → LabelType → Bool → ℕ → Text → Label
  label asset ts type value decision source = record {
    asset_id = asset;
    ts = ts;
    label_type = type;
    label_value = value;
    observed_at = decision;
    label_source = source;
  }

  abbrev pub one_if : Bool → ℕ → ℕ
  one_if b n = if b then suc n else n

  -- The two upserts for one time; without a later price there are none.
  unfoldable pub label_pair :
      Settings Carrier → Text → ℕ → ℕ → ℕ → Carrier → List Carrier → Labelled → Labelled
  unfolding upsert_label
  label_pair s source asset decision ts entry [] x = x
  label_pair s source asset decision ts entry (p ∷ ps) x =
      let (lit, l) =
        upsert_label (label asset ts ignition (is_ignition s entry p ps) decision source)
          x.labels in
      let (lost, l') =
        upsert_label (label asset ts collapse (is_collapse s entry p ps) decision source) l in
      record {
        labels = l';
        counts = record {
          ignitions = one_if lit x.counts.ignitions;
          collapses = one_if lost x.counts.collapses;
          decision_points = x.counts.decision_points;
        };
      }

  -- The loop over the rows of an asset: a row whose window is not over is skipped.
  unfoldable pub label_rows : Settings Carrier → ℕ → ℕ → List Priced → Labelled → Labelled
  unfolding label_pair prices_until
  label_rows s asset decision [] x = x
  label_rows s asset decision (r ∷ rows) x = label_rows s asset decision rows (
      if ltb decision (r.at + s.window)
      then x
      else label_pair s s.forecast_source asset decision r.at r.price
          (prices_until (r.at + s.window) rows) x)

  unfoldable pub generate :
      Settings Carrier → List (MarketSnapshot Carrier) → ℕ → List ℕ → Labelled → Labelled
  unfolding label_rows point_in_time_rows
  generate s snapshots decision [] x = x
  generate s snapshots decision (asset ∷ assets) x =
      generate s snapshots decision assets
        (label_rows s asset decision (point_in_time_rows asset decision snapshots) x)

  -- The latest of the rows up to a time. The rows up to the end of a window that is over are of times up to
  -- the decision, as in the rows of `generate`.
  unfoldable pub entry_at : ℕ → List Priced → Option Priced
  entry_at ts [] = none
  entry_at ts (r ∷ rows) = elim (entry_at ts rows) [
    | none ↦ if leb r.at ts then some r else none
    | some e ↦ if leb r.at ts && ltb e.at r.at then some r else some e
  ]

  abbrev pub has_labels : ℕ → ℕ → List Label → Bool
  has_labels asset ts [] = false
  has_labels asset ts (l ∷ ls) = (l.asset_id == asset && l.ts == ts) || has_labels asset ts ls

  abbrev pub after : ℕ → List Priced → List Priced
  after ts rows = filter (λ r. ltb ts r.at) rows

  abbrev pub seed_entry :
      Settings Carrier → ℕ → ℕ → ℕ → List Priced → Option Priced → Labelled → Labelled
  seed_entry s asset decision ts rows none x = x
  seed_entry s asset decision ts rows (some e) x =
      label_pair s s.feature_aligned_source asset decision ts e.price
        (prices_until (ts + s.window) (after ts rows)) x

  abbrev pub count_point : Labelled → Labelled
  count_point x = record x {
    counts = record {
      ignitions = x.counts.ignitions;
      collapses = x.counts.collapses;
      decision_points = suc x.counts.decision_points;
    };
  }

  -- The body of the loop over the features.
  unfoldable pub seed_feature :
      Settings Carrier → List (MarketSnapshot Carrier) → ℕ → ℕ → ℕ → Labelled → Labelled
  unfolding label_pair entry_at point_in_time_rows
  seed_feature s snapshots decision asset ts x =
      if ltb decision (ts + s.window)
      then x
      else if has_labels asset ts x.labels
      then x
      else (let rows = point_in_time_rows asset decision snapshots in
          seed_entry s asset decision ts rows (entry_at ts rows) (count_point x))

  -- `seed_labels_at_feature_timestamps` over the assets and times of the features.
  unfoldable pub seed_labels :
      Settings Carrier → List (MarketSnapshot Carrier) → ℕ → List (ℕ × ℕ) → Labelled → Labelled
  unfolding seed_feature
  seed_labels s snapshots decision [] x = x
  seed_labels s snapshots decision ((asset, ts) ∷ features) x =
      seed_labels s snapshots decision features (seed_feature s snapshots decision asset ts x)
