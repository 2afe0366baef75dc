-- ===== src/Heuristics/Memory.antt =====
-- The state of `HeuristicsEngine` and the operations on it. The counts that `analyze_source_reliability`
-- reads from the database are its arguments, as are the times. Fields that nothing writes after the
-- start (`avg_signal_score`, `effective_frequency_multiplier`, `avg_time_to_peak_hours`) are left out.
use hype_coin_predictive_eng.Prelude.{
  ℕ, ◌+◌, ◌*◌, String, Bool, true, not, Option, none, some, ltb, ◌==◌, if◌then◌else◌, min, length,
  filter, Dict, lookup, insert,
}
use hype_coin_predictive_eng.Prelude.Int.{pos}
use hype_coin_predictive_eng.Float.{Float}
use hype_coin_predictive_eng.Float.MinMax.{min_float, max_float, zero_float, one_float}

pub record SourceReliability : Type 0 where
  pub total_dispatches : ℕ
  pub actionable_dispatches : ℕ
  pub last_actionable_at : Option ℕ

pub record PatternMemory (F : Type 0) : Type 0 where
  pub occurrence_count : ℕ
  pub success_count : ℕ
  pub avg_hype_at_detection : F
  pub last_seen_at : Option ℕ

pub record HeuristicsEngine (F : Type 0) : Type 0 where
  pub source_reliabilities : Dict SourceReliability
  pub pattern_memory : Dict (PatternMemory F)

abbrev pub new_source : SourceReliability
new_source = record { total_dispatches = 0; actionable_dispatches = 0; last_actionable_at = none }

abbrev pub found : {A : Type 0} → A → Option A → A
found default none = default
found default (some x) = x

-- `last is None or last < cutoff`
abbrev pub is_stale : ℕ → Option ℕ → Bool
is_stale cutoff none = true
is_stale cutoff (some t) = ltb t cutoff

module _ (f : Float) where
  open f use {Carrier, cents}

  unfoldable pub analyze_source_reliability :
      String → ℕ → ℕ → HeuristicsEngine Carrier → HeuristicsEngine Carrier
  analyze_source_reliability source_name total_signals actionable h = record h {
    source_reliabilities =
        insert source_name
          (record {
            total_dispatches = total_signals;
            actionable_dispatches = min actionable total_signals;
            last_actionable_at = none;
          })
          h.source_reliabilities;
  }

  unfoldable pub record_outcome :
      String → Bool → ℕ → HeuristicsEngine Carrier → HeuristicsEngine Carrier
  record_outcome source_name token_lasted now h =
      let rel = found new_source (lookup source_name h.source_reliabilities) in
      record h {
        source_reliabilities =
            insert source_name
              (if token_lasted
                then record rel {
                  actionable_dispatches = rel.actionable_dispatches + 1;
                  last_actionable_at = some now;
                }
                else rel)
              h.source_reliabilities;
      }

  abbrev pub new_pattern : PatternMemory Carrier
  new_pattern = record {
    occurrence_count = 0;
    success_count = 0;
    avg_hype_at_detection = zero_float f;
    last_seen_at = none;
  }

  -- The moving average has the weight 0.2 for the new value.
  unfoldable pub learn_pattern :
      String → Bool → Carrier → ℕ → HeuristicsEngine Carrier → HeuristicsEngine Carrier
  learn_pattern pattern_key success hype_at_detection now h =
      let pm = found new_pattern (lookup pattern_key h.pattern_memory) in
      let alpha = cents (pos 20) in
      record h {
        pattern_memory =
            insert pattern_key
              (record {
                occurrence_count = pm.occurrence_count + 1;
                success_count = if success then pm.success_count + 1 else pm.success_count;
                avg_hype_at_detection =
                    f.add (f.mul alpha hype_at_detection)
                      (f.mul (f.sub (one_float f) alpha) pm.avg_hype_at_detection);
                last_seen_at = some now;
              })
              h.pattern_memory;
      }

  -- `a / b` of two counts, exact below 2 ^ 53 before the division.
  abbrev pub actionability_rate : SourceReliability → Carrier
  actionability_rate rel =
      if rel.total_dispatches == 0
      then cents (pos 50)
      else f.div (cents (pos (rel.actionable_dispatches * 100)))
          (cents (pos (rel.total_dispatches * 100)))

  unfoldable pub get_crawl_frequency_multiplier : String → HeuristicsEngine Carrier → Carrier
  get_crawl_frequency_multiplier source_name h = elim (lookup source_name h.source_reliabilities) [
    | none ↦ one_float f
    | some rel ↦
        let rate = actionability_rate rel in
        if f.ltb (cents (pos 30)) rate
        then min_float f (cents (pos 200)) (f.add (one_float f) rate)
        else if f.ltb rate (cents (pos 5))
        then max_float f (cents (pos 25)) (f.sub (cents (pos 50)) rate)
        else one_float f
  ]

  abbrev stale_source : ℕ → String × SourceReliability → Bool
  stale_source cutoff e = is_stale cutoff e.1.last_actionable_at

  abbrev stale_pattern : ℕ → String × PatternMemory Carrier → Bool
  stale_pattern cutoff e = is_stale cutoff e.1.last_seen_at

  -- The numbers of pruned sources and patterns, and what is left.
  unfoldable pub prune : ℕ → HeuristicsEngine Carrier → (ℕ × ℕ) × HeuristicsEngine Carrier
  prune cutoff h = (
    (
      length (filter (stale_source cutoff) h.source_reliabilities),
      length (filter (stale_pattern cutoff) h.pattern_memory),
    ),
    record {
      source_reliabilities = filter (λ e. not (stale_source cutoff e)) h.source_reliabilities;
      pattern_memory = filter (λ e. not (stale_pattern cutoff e)) h.pattern_memory;
    },
  )
