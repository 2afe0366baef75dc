-- ===== src/Observed/Report.antt =====
-- The report of `evaluate_outcomes`: how many of the evaluated rows of each band collapsed and survived,
-- by the band of the rules and by that of the ML scorer.
use hype_coin_predictive_eng.Prelude.{
  ℕ, ◌+◌, ◌*◌, Bool, ◌&&◌, Option, none, some, List, [], ◌∷◌, ◌++◌, ◌==◌, ltb, if◌then◌else◌,
  filter, length, map,
}
use hype_coin_predictive_eng.Prelude.Int.{ℤ, pos, ◌-ℤ◌}
use hype_coin_predictive_eng.Float.{Float}
use hype_coin_predictive_eng.Risk.Band.{RiskBand, green, yellow, orange, red, black}
use hype_coin_predictive_eng.Observed.Rows.{RiskOutcome, is_evaluated}

abbrev pub code_of : RiskBand → ℕ
code_of green = 0
code_of yellow = 1
code_of orange = 2
code_of red = 3
code_of black = 4

abbrev pub is_band : RiskBand → RiskBand → Bool
is_band a b = code_of a == code_of b

-- `for band in RiskBand`
abbrev pub bands : List RiskBand
bands = green ∷ yellow ∷ orange ∷ red ∷ black ∷ []

pub record BandOutcome (F : Type 0) : Type 0 where
  pub band : RiskBand
  pub total_flagged : ℕ
  pub collapsed : ℕ
  pub rugged : ℕ
  pub survived : ℕ
  pub unknown : ℤ
  pub precision : F
  pub recall : F

pub record RiskOutcomeReport (F : Type 0) : Type 0 where
  pub bands : List (BandOutcome F)
  pub overall_precision : F
  pub total_flagged : ℕ
  pub total_collapsed : ℕ
  pub ml_bands : List (BandOutcome F)
  pub ml_total_flagged : ℕ
  pub ml_total_collapsed : ℕ

-- How many rows meet a condition.
unfoldable pub count {ℓ} : {A : Type ℓ} → (A → Bool) → List A → ℕ
count p [] = 0
count p (x ∷ xs) = (if p x then 1 else 0) + count p xs

module _ (f : Float) where
  open f use {Carrier, cents}

  -- `collapsed / total if total > 0 else 0.0`
  abbrev pub ratio : ℕ → ℕ → Carrier
  ratio m n =
      if ltb 0 n then f.div (cents (pos (m * 100))) (cents (pos (n * 100))) else cents (pos 0)

  unfoldable pub band_outcome : RiskBand → List (RiskOutcome Carrier) → BandOutcome Carrier
  unfolding count
  band_outcome band rows = record {
    band = band;
    total_flagged = length rows;
    collapsed = count (λ o. o.collapsed) rows;
    rugged = count (λ o. o.was_rugged) rows;
    survived = count (λ o. o.survived) rows;
    unknown =
        pos (length rows)
        -ℤ pos (count (λ o. o.collapsed) rows)
        -ℤ pos (count (λ o. o.survived) rows);
    precision = ratio (count (λ o. o.collapsed) rows) (length rows);
    recall = cents (pos 0);
  }

  abbrev pub rows_of : RiskBand → List (RiskOutcome Carrier) → List (RiskOutcome Carrier)
  rows_of band rows = filter (λ o. is_band o.risk_band band && is_evaluated f o) rows

  -- The loop over the bands: a band without rows has no entry.
  unfoldable pub band_outcomes :
      List RiskBand → List (RiskOutcome Carrier) → List (BandOutcome Carrier)
  unfolding band_outcome
  band_outcomes [] rows = []
  band_outcomes (b ∷ bs) rows =
      let rest = band_outcomes bs rows in
      if length (rows_of b rows) == 0 then rest else band_outcome b (rows_of b rows) ∷ rest

  unfoldable pub sum_of : (BandOutcome Carrier → ℕ) → List (BandOutcome Carrier) → ℕ
  sum_of part [] = 0
  sum_of part (b ∷ bs) = part b + sum_of part bs

  abbrev pub with_recall : ℕ → BandOutcome Carrier → BandOutcome Carrier
  with_recall all b = if ltb 0 all then record b { recall = ratio b.collapsed all } else b

  -- `ml_by_band`: the groups in the order of their first rows.
  unfoldable pub add_row :
      RiskBand
      → RiskOutcome Carrier
      → List (RiskBand × List (RiskOutcome Carrier))
      → List (RiskBand × List (RiskOutcome Carrier))
  add_row band o [] = (band, o ∷ []) ∷ []
  add_row band o ((b, rows) ∷ groups) =
      let rest = add_row band o groups in
      if is_band b band then (b, rows ++ (o ∷ [])) ∷ groups else (b, rows) ∷ rest

  abbrev pub group_row :
      RiskOutcome Carrier
      → Option RiskBand
      → List (RiskBand × List (RiskOutcome Carrier))
      → List (RiskBand × List (RiskOutcome Carrier))
  group_row o none groups = groups
  group_row o (some band) groups = if is_evaluated f o then add_row band o groups else groups

  unfoldable pub group_rows :
      List (RiskOutcome Carrier)
      → List (RiskBand × List (RiskOutcome Carrier))
      → List (RiskBand × List (RiskOutcome Carrier))
  unfolding add_row
  group_rows [] groups = groups
  group_rows (o ∷ rows) groups = group_rows rows (group_row o o.ml_band groups)

  unfoldable pub report_of : List (RiskOutcome Carrier) → RiskOutcomeReport Carrier
  unfolding band_outcomes sum_of group_rows
  report_of rows =
      let by_band = band_outcomes bands rows in
      let total = sum_of (λ b. b.total_flagged) by_band in
      let lost = sum_of (λ b. b.collapsed) by_band in
      let ml = map (λ g. band_outcome g.0 g.1) (group_rows rows []) in
      record {
        bands = map (with_recall lost) by_band;
        overall_precision = ratio lost total;
        total_flagged = total;
        total_collapsed = lost;
        ml_bands = ml;
        ml_total_flagged = sum_of (λ b. b.total_flagged) ml;
        ml_total_collapsed = sum_of (λ b. b.collapsed) ml;
      }
