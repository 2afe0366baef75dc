-- ===== src/Replay/Tests.antt =====
-- The replay's functions at concrete inputs.
use hype_coin_predictive_eng.Prelude.{
  ℕ, suc, ◌-◌, ◌/◌, ◌≤◌, ◌<◌, ◌≡◌, ◌↔◌, refl, true, false, Option, none, some, List, [], ◌∷◌,
  length, All, min, max, arith,
}
use hype_coin_predictive_eng.Replay.Hours.{
  hours_loop, hours_between, hours_from, hours_between_complete,
}
use hype_coin_predictive_eng.Replay.Guard.{
  bound, passed, violated, does_not_match, require_decision_ts, Build, done, call, scope, run,
  IsLawful, offenders_from, checked_of, checked, leaked, check_rows_point_in_time, run-IsLawful,
}
use hype_coin_predictive_eng.Replay.Split.{
  CalibrationSample, insert_sample, sorted, split, split_at, chronological_split,
  chronological_split_no_leak,
}

program : Unit {0}
unfolding hours_loop hours_between hours_from require_decision_ts run offenders_from checked_of
    check_rows_point_in_time insert_sample sorted split_at chronological_split
program = tt

-- From 01:30 to 03:10.
hours_between_complete_example :
    hours_between 9 5400000000 11400000000
    ≡ some (
        hours_from
          (5400000000 / 3600000000)
          (suc (11400000000 / 3600000000) - 5400000000 / 3600000000))
hours_between_complete_example = hours_between_complete 9 5400000000 11400000000 (omega arith)

hours_between_test :
    hours_between 9 5400000000 11400000000 ≡ some (3600000000 ∷ 7200000000 ∷ 10800000000 ∷ [])
unfolding program
hours_between_test = refl

-- The inner block has a time of its own; the last call does not agree with the outer one.
abbrev build : Build
build = scope 5 (scope 3 (call (bound (some 3)) done) (call (bound (some 6)) done)) done

run_test : run build none ≡ (violated does_not_match, none)
unfolding program
run_test = refl

run-IsLawful_example :
    (((run build none).0 ≡ passed) ↔ IsLawful none build) × ((run build none).1 ≡ none)
run-IsLawful_example = run-IsLawful build none

abbrev rows : List (Option ℕ)
rows = some 4 ∷ none ∷ some 9 ∷ []

check_test :
    (check_rows_point_in_time 5 9 rows ≡ checked 2)
    × (check_rows_point_in_time 5 8 rows ≡ leaked 1 ((2, 9) ∷ []))
unfolding program
check_test = (refl, refl)

abbrev sample : ℕ → ℕ → CalibrationSample
sample scored evaluated = record {
  scored_at = scored;
  evaluated_at = evaluated;
  survived = true;
  collapsed = false;
}

-- The second sample's outcome is not known when the last one is scored.
split_test :
    chronological_split true 2 (sample 8 9 ∷ sample 1 2 ∷ sample 3 10 ∷ [])
    ≡ split (sample 1 2 ∷ []) (sample 8 9 ∷ []) (some 8)
unfolding program
split_test = refl

chronological_split_no_leak_example :
    (t : ℕ) × (train : List CalibrationSample) × (validation : List CalibrationSample)
    × (chronological_split true 2 (sample 8 9 ∷ sample 1 2 ∷ []) ≡ split train validation (some t))
    × All (λ s. (s.scored_at < t) × (s.evaluated_at ≤ t)) train
    × All (λ s. t ≤ s.scored_at) validation
    × (2 - min (2 - 1) (max 1 2) ≤ length validation)
    × (1 ≤ length validation)
chronological_split_no_leak_example =
    chronological_split_no_leak 2 (sample 8 9 ∷ sample 1 2 ∷ []) (omega arith)
