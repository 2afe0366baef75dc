-- ===== src/Heuristics/Tests.antt =====
-- Sources in hundredths, and the theorems at concrete inputs.
use hype_coin_predictive_eng.Prelude.{◌≡◌, refl, true, none, some, [], lookup, insert, erase}
use hype_coin_predictive_eng.Prelude.Int.{ℤ, pos, ◌+ℤ◌, ◌-ℤ◌}
use hype_coin_predictive_eng.Float.{hundredths}
use hype_coin_predictive_eng.Heuristics.Memory.{
  SourceReliability, HeuristicsEngine, analyze_source_reliability, record_outcome, learn_pattern,
  get_crawl_frequency_multiplier, prune,
}
use hype_coin_predictive_eng.Heuristics.Outcomes.{record_lasting}

program : Unit {0}
unfolding ◌+ℤ◌ ◌-ℤ◌ lookup insert erase analyze_source_reliability record_outcome learn_pattern
    get_crawl_frequency_multiplier prune record_lasting
program = tt

abbrev empty : HeuristicsEngine ℤ
empty = record { source_reliabilities = []; pattern_memory = [] }

abbrev analysed : HeuristicsEngine ℤ
analysed = analyze_source_reliability hundredths "telegram" 2 1 empty

abbrev half : SourceReliability
half = record { total_dispatches = 2; actionable_dispatches = 1; last_actionable_at = none }

analysed_half : lookup "telegram" analysed.source_reliabilities ≡ some half
unfolding program
analysed_half = refl

abbrev learned : HeuristicsEngine ℤ
learned = learn_pattern hundredths "spike" true (pos 5000) 40 empty

prune_test :
    (prune hundredths 41 learned ≡ ((0, 1), empty))
    × (prune hundredths 40 learned ≡ ((0, 0), learned))
unfolding program
prune_test = (refl, refl)
