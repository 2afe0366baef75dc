-- ===== src/Scoring/Tests.antt =====
-- The ensemble in hundredths, and the theorems at concrete inputs.
use hype_coin_predictive_eng.Prelude.{◌/◌, ◌≤◌, ◌≡◌, refl, true, false, none, some, [], ◌∷◌, length}
use hype_coin_predictive_eng.Prelude.Int.{ℤ, pos, negsuc, ◌+ℤ◌, ◌-ℤ◌}
use hype_coin_predictive_eng.Float.{hundredths}
use hype_coin_predictive_eng.Risk.Band.{green}
use hype_coin_predictive_eng.Scoring.Scorer.{
  Rounding, Scorer, bucket_at, set_bucket, new_scorer, accuracy, record_calibration,
  calibrated_confidence,
}
use hype_coin_predictive_eng.Scoring.Ensemble.{
  rule_scorer, each, World, Moment, answered, new_engine, load_from_db, restore, history_of,
  saved_row, save_to_db, maybe_flush,
}
use hype_coin_predictive_eng.Scoring.Weights.{next_weights, recalibrate, get_weights}
use hype_coin_predictive_eng.Scoring.Outcomes.{
  positive, Entry, learn, record_outcome, record_outcomes,
}
use hype_coin_predictive_eng.Scoring.Blend.{Scores, blended, blend}
use hype_coin_predictive_eng.Scoring.Flush.{attempts, recorded}
use hype_coin_predictive_eng.Scoring.Restart.{learned, load_from_db-save_to_db}

program : Unit {0}
unfolding ◌+ℤ◌ ◌-ℤ◌ bucket_at set_bucket record_calibration calibrated_confidence new_engine
    load_from_db restore saved_row save_to_db maybe_flush next_weights recalibrate get_weights learn
    record_outcome record_outcomes blended blend attempts recorded
program = tt

abbrev whole : ℤ → ℤ
whole (pos n) = pos (n / 100)
whole (negsuc n) = pos 0

-- Hundredths are round as they are.
abbrev plain : Rounding hundredths
plain = record {
  round = λ digits x. x;
  int_of = whole;
  int_round = whole;
  round_range = λ digits x h k. (h, k);
}

abbrev perfect : Scorer ℤ
perfect = record (new_scorer hundredths 0) { calibration_buckets = (90, 5, 5) ∷ [] }

-- A confidence of 100 of a scorer that was always right comes out as 30.7.
calibrated_confidence_test : calibrated_confidence hundredths plain (pos 10000) perfect ≡ pos 3070
unfolding program
calibrated_confidence_test = refl

abbrev world : World ℤ
world = record { engine = new_engine hundredths plain 40; row = none }

abbrev survived : Entry hundredths plain
survived = record {
  scorer_name = some rule_scorer;
  predicted_band = green;
  actual_outcome = positive;
  confidence = some (pos 8000);
  weight = none;
}

abbrev good : Moment
good = record { now = 400; commits = true; after = 401 }

abbrev bad : Moment
bad = record { now = 410; commits = false; after = 410 }

world_zero : world.engine.last_flush_attempt ≡ 0
unfolding program
world_zero = refl

-- The second call comes too early to try again.
attempts_test : attempts hundredths plain ((bad, survived) ∷ (bad, survived) ∷ []) world ≡ 1
unfolding program
attempts_test = refl

load_from_db-save_to_db_example :
    let saved = save_to_db hundredths plain good world in
    let e =
      (load_from_db hundredths plain answered
        (record { engine = new_engine hundredths plain 3; row = saved.row })).engine in
    (e.current_weights ≡ world.engine.current_weights)
    × (each (learned hundredths plain) e.accuracies
        ≡ each (learned hundredths plain) world.engine.accuracies)
    × (each (accuracy hundredths) e.accuracies ≡ each (accuracy hundredths) world.engine.accuracies)
    × (length (history_of hundredths plain saved.row) ≤ 200)
load_from_db-save_to_db_example = load_from_db-save_to_db hundredths plain good 3 world refl

abbrev layers : Scores ℤ
layers = record {
  rule_hype = pos 9000;
  rule_risk = pos 2000;
  rule_confidence = pos 7000;
  ml_hype = some (pos 5000);
  ml_risk = none;
  ml_confidence = some (pos 8000);
  heuristic_score = some (negsuc 99);
}
