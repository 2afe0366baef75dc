-- ===== src/Scoring/Scorer.antt =====
-- `ScorerAccuracy` of scoring/ensemble.py, `clamp` and the bands of a risk score. Python's `round` and
-- `int` of a float are an interface.
use hype_coin_predictive_eng.Prelude.{
  ℕ, ◌+◌, ◌*◌, ◌≡◌, Bool, true, List, [], ◌∷◌, ltb, ◌==◌, if◌then◌else◌, min,
}
use hype_coin_predictive_eng.Prelude.Int.{ℤ, pos, negsuc}
use hype_coin_predictive_eng.Float.{Float}
use hype_coin_predictive_eng.Float.MinMax.{min_float, max_float, zero_float}
use hype_coin_predictive_eng.Risk.Band.{RiskBand, green, yellow, orange, red, black}

-- `round(x, digits)`, `int(x)` and `int(round(x))`; rounding to digits keeps a range from 0 to 100.
pub record Rounding (f : Float) : Type 0 where
  pub round : ℕ → f.Carrier → f.Carrier
  pub int_of : f.Carrier → ℤ
  pub int_round : f.Carrier → ℤ
  pub round_range :
      (digits : ℕ) (x : f.Carrier)
      → f.leb (f.cents (pos 0)) x ≡ true
      → f.leb x (f.cents (pos 10000)) ≡ true
      → (f.leb (f.cents (pos 0)) (round digits x) ≡ true)
        × (f.leb (round digits x) (f.cents (pos 10000)) ≡ true)

-- A bucket of confidence, with its observations and the correct ones.
abbrev pub Buckets : Type 0
Buckets = List (ℕ × ℕ × ℕ)

unfoldable pub bucket_at : ℕ → Buckets → ℕ × ℕ
bucket_at k [] = (0, 0)
bucket_at k ((j, n, c) ∷ buckets) = if j == k then (n, c) else bucket_at k buckets

unfoldable pub set_bucket : ℕ → ℕ → ℕ → Buckets → Buckets
set_bucket k n c [] = (k, n, c) ∷ []
set_bucket k n c ((j, m, d) ∷ buckets) =
    if j == k then (k, n, c) ∷ buckets else (j, m, d) ∷ set_bucket k n c buckets

-- `max(0, min(90, i * 10))`
abbrev pub bucket_of : ℤ → ℕ
bucket_of (pos n) = min 90 (n * 10)
bucket_of (negsuc n) = 0

pub record Scorer (F : Type 0) : Type 0 where
  pub correct_predictions : F
  pub total_predictions : F
  pub last_updated : ℕ
  pub calibration_buckets : Buckets

module _ (f : Float) where
  open f use {Carrier, cents}

  abbrev pub new_scorer : ℕ → Scorer Carrier
  new_scorer now = record {
    correct_predictions = zero_float f;
    total_predictions = zero_float f;
    last_updated = now;
    calibration_buckets = [];
  }

  -- A total equals 0 if it is neither above nor below it.
  abbrev pub accuracy : Scorer Carrier → Carrier
  accuracy s =
      if f.leb s.total_predictions (zero_float f)
      then (if f.leb (zero_float f) s.total_predictions
          then cents (pos 50)
          else f.div s.correct_predictions s.total_predictions)
      else f.div s.correct_predictions s.total_predictions

  -- `clamp(value, low, high)`
  abbrev pub clamp : Carrier → Carrier → Carrier → Carrier
  clamp low high value = max_float f low (min_float f high value)

  abbrev pub clamp_score : Carrier → Carrier
  clamp_score = clamp (zero_float f) (cents (pos 10000))

  unfoldable pub risk_band_from_score : Carrier → RiskBand
  risk_band_from_score risk =
      if f.leb (cents (pos 8000)) risk
      then black
      else if f.leb (cents (pos 6000)) risk
      then red
      else if f.leb (cents (pos 4000)) risk
      then orange
      else if f.leb (cents (pos 2000)) risk
      then yellow
      else green

  module _ (r : Rounding f) where
    abbrev pub confidence_bucket : Carrier → ℕ
    confidence_bucket confidence = bucket_of (r.int_of (f.div confidence (cents (pos 1000))))

    unfoldable pub record_calibration : Carrier → Bool → Scorer Carrier → Scorer Carrier
    unfolding bucket_at set_bucket
    record_calibration confidence correct s =
        let k = confidence_bucket confidence in
        let (n, c) = bucket_at k s.calibration_buckets in
        record s {
          calibration_buckets =
              set_bucket k (n + 1) (c + (if correct then 1 else 0)) s.calibration_buckets;
        }

    -- Fewer than five observations keep the raw value.
    unfoldable pub calibrated_confidence : Carrier → Scorer Carrier → Carrier
    unfolding bucket_at
    calibrated_confidence raw s =
        let (n, c) = bucket_at (confidence_bucket raw) s.calibration_buckets in
        if ltb n 5
        then raw
        else r.round 2 (
            f.add (f.mul (f.div (cents (pos (c * 100))) (cents (pos (n * 100)))) (cents (pos 70)))
              (f.mul (f.mul (f.div raw (cents (pos 10000))) (cents (pos 30))) (cents (pos 10000))))
