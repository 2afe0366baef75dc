-- ===== src/Observed/Tests.antt =====
-- Outcomes in hundredths, and the theorems at concrete inputs.
use hype_coin_predictive_eng.Prelude.{
  ℕ, ◌+◌, ◌/◌, ◌≤◌, ◌≡◌, refl, true, none, some, List, [], ◌∷◌, All, map,
}
use hype_coin_predictive_eng.Prelude.Int.{ℤ, pos, negsuc, ◌+ℤ◌, ◌-ℤ◌}
use hype_coin_predictive_eng.Float.{hundredths}
use hype_coin_predictive_eng.Risk.Band.{green, red}
use hype_coin_predictive_eng.Lifecycle.Phase.{LifecyclePhase, rugged, survivor}
use hype_coin_predictive_eng.Lifecycle.Store.{Event, latest}
use hype_coin_predictive_eng.Scoring.Scorer.{Rounding, bucket_at, set_bucket, record_calibration}
use hype_coin_predictive_eng.Scoring.Ensemble.{
  World, Moment, new_engine, save_to_db, saved_row, maybe_flush, restore, load_from_db,
}
use hype_coin_predictive_eng.Scoring.Weights.{next_weights, recalibrate}
use hype_coin_predictive_eng.Scoring.Outcomes.{learn, record_outcome, record_outcomes}
use hype_coin_predictive_eng.Observed.Rows.{
  RiskOutcome, Market, pair_of, last_price, price_change_since, record_risk_outcome, evaluate_row,
  evaluate_rows, is_evaluated,
}
use hype_coin_predictive_eng.Observed.Report.{
  count, band_outcome, band_outcomes, sum_of, add_row, group_rows, report_of,
}
use hype_coin_predictive_eng.Observed.Feed.{Inputs, feed_row, feed_rows, evaluate_outcomes}
use hype_coin_predictive_eng.Observed.Judged.{Command, score, pass, Observed, step, run}
use hype_coin_predictive_eng.Observed.Bands.{IsExact, report_of-run}
use hype_coin_predictive_eng.Observed.Fed.{
  total_feeds, IsDone, evaluate_outcomes_bounded, evaluate_outcomes-IsDone,
}

program : Unit {0}
unfolding ◌+ℤ◌ ◌-ℤ◌ latest bucket_at set_bucket record_calibration new_engine save_to_db saved_row
    maybe_flush restore load_from_db next_weights recalibrate learn record_outcome record_outcomes
    pair_of last_price price_change_since record_risk_outcome evaluate_row evaluate_rows count
    band_outcome band_outcomes sum_of add_row group_rows report_of feed_row feed_rows
    evaluate_outcomes step run total_feeds
program = tt

abbrev whole : ℤ → ℤ
whole (pos n) = pos (n / 100)
whole (negsuc n) = pos 0

abbrev plain : Rounding hundredths
plain = record {
  round = λ digits x. x;
  int_of = whole;
  int_round = whole;
  round_range = λ digits x h k. (h, k);
}

abbrev world : World ℤ
world = record { engine = new_engine hundredths plain 40; row = none }

abbrev at_forty : Moment
at_forty = record { now = 40; commits = true; after = 41 }

abbrev inputs : Inputs ℤ
inputs = record {
  risk_outcome_price_drop_threshold = negsuc 49;
  risk_outcome_price_gain_threshold = pos 20;
  confidence_of = λ id. some (pos 8000);
  moment = λ n. at_forty;
}

abbrev event : ℕ → ℕ → LifecyclePhase → Event
event id asset phase = record { id = id; asset_id = asset; phase = phase; ts = 90; confidence = 50 }

-- Asset 1 was rugged, asset 2 lives, and asset 3 has no event but lost 60% of its price.
abbrev market : Market ℤ
market = record {
  events = event 1 1 rugged ∷ event 2 2 survivor ∷ [];
  pairs = record { id = 7; base_asset_id = 3; quote_symbol = "SOL" } ∷ [];
  snapshots =
      record { pair_id = 7; ts = 5; price_usd = some (pos 1000) }
      ∷ record { pair_id = 7; ts = 60; price_usd = some (pos 400) }
      ∷ [];
}

abbrev commands : List (Command ℤ)
commands =
    score [] 1 red 11 10 (some red) none
    ∷ score [] 2 green 12 10 none none
    ∷ score [] 3 red 13 10 none none
    ∷ score [] 3 red 13 20 none none
    ∷ score [] 4 red 14 99 none none
    ∷ pass inputs market 100 50
    ∷ pass inputs market 101 50
    ∷ []

abbrev none_yet : Observed ℤ
none_yet = record { rows = []; world = world }

-- The row of score 13 is written once, that of score 14 is too young, and each of the others is fed once.
commands_test :
    (map (λ o. o.feeds) (run hundredths plain commands none_yet).rows ≡ 1 ∷ 1 ∷ 1 ∷ 0 ∷ [])
    × (map
          (λ b. b.unknown)
          (report_of hundredths (run hundredths plain commands none_yet).rows).bands
        ≡ pos 0 ∷ pos 1 ∷ [])
unfolding program
commands_test = (refl, refl)

report_of-run_example :
    let rows = (run hundredths plain commands none_yet).rows in
    ((report_of hundredths rows).total_flagged ≡ count (is_evaluated hundredths) rows)
    × All (IsExact hundredths plain rows) (report_of hundredths rows).bands
report_of-run_example = report_of-run hundredths plain commands world

abbrev rows : List (RiskOutcome ℤ)
rows = record_risk_outcome hundredths [] 1 red 11 10 none none []

evaluate_outcomes_bounded_example :
    let fed = (evaluate_outcomes hundredths plain inputs market 100 50 rows world).1 in
    (total_feeds hundredths plain fed.rows ≡ total_feeds hundredths plain rows + fed.fed_count)
    × (fed.fed_count ≤ 100)
evaluate_outcomes_bounded_example =
    evaluate_outcomes_bounded hundredths plain inputs market 100 50 rows world

evaluate_outcomes-IsDone_example :
    All
      (IsDone hundredths plain 100 50)
      (evaluate_outcomes hundredths plain inputs market 100 50 rows world).1.rows
evaluate_outcomes-IsDone_example =
    evaluate_outcomes-IsDone hundredths plain inputs market 100 50 rows world
