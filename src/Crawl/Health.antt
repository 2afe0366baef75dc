-- ===== src/Crawl/Health.antt =====
-- `CrawlerHealth` of crawlers/base.py. Times and durations are what the clocks gave.
use hype_coin_predictive_eng.Prelude.{
  ℕ, ◌+◌, ◌*◌, String, Bool, true, ◌&&◌, Option, none, some, ltb, max,
}
use hype_coin_predictive_eng.Prelude.Int.{pos}
use hype_coin_predictive_eng.Float.{Float}
use hype_coin_predictive_eng.Float.MinMax.{max_float, zero_float, one_float}

pub record CrawlerHealth (F : Type 0) : Type 0 where
  pub enabled : Bool
  pub total_runs : ℕ
  pub total_items : ℕ
  pub total_errors : ℕ
  pub consecutive_errors : ℕ
  pub last_run_at : Option ℕ
  pub last_error : Option String
  pub last_duration_ms : F
  pub avg_duration_ms : F
  pub error_rate : F
  pub reliability_score : F
  pub priority_score : F
  pub consecutive_empty_runs : ℕ

module _ (f : Float) where
  open f use {Carrier, cents}

  abbrev pub new_health : CrawlerHealth Carrier
  new_health = record {
    enabled = true;
    total_runs = 0;
    total_items = 0;
    total_errors = 0;
    consecutive_errors = 0;
    last_run_at = none;
    last_error = none;
    last_duration_ms = zero_float f;
    avg_duration_ms = zero_float f;
    error_rate = zero_float f;
    reliability_score = one_float f;
    priority_score = one_float f;
    consecutive_empty_runs = 0;
  }

  -- A quotient of two counts, which are exact as floats.
  abbrev pub ratio : ℕ → ℕ → Carrier
  ratio m n = f.div (cents (pos (m * 100))) (cents (pos (n * 100)))

  -- The moving average has the weight 0.3 for the new value.
  abbrev pub next_average : Carrier → Carrier → Carrier
  next_average duration average =
      f.add (f.mul (cents (pos 30)) duration) (f.mul (f.sub (one_float f) (cents (pos 30))) average)

  abbrev pub rate_of : ℕ → ℕ → Carrier
  rate_of errors runs = ratio errors (max 1 runs)

  abbrev pub reliability_of : Carrier → Carrier
  reliability_of rate = max_float f (cents (pos 10)) (f.sub (one_float f) rate)

  unfoldable pub record_success : ℕ → ℕ → Carrier → CrawlerHealth Carrier → CrawlerHealth Carrier
  record_success now item_count duration_ms h =
      let rate = rate_of h.total_errors (h.total_runs + 1) in
      record h {
        total_runs = h.total_runs + 1;
        total_items = h.total_items + item_count;
        consecutive_errors = 0;
        consecutive_empty_runs = 0;
        last_run_at = some now;
        last_duration_ms = duration_ms;
        last_error = none;
        avg_duration_ms = next_average duration_ms h.avg_duration_ms;
        error_rate = rate;
        reliability_score = reliability_of rate;
      }

  unfoldable pub record_empty_run : ℕ → Carrier → CrawlerHealth Carrier → CrawlerHealth Carrier
  record_empty_run now duration_ms h = record h {
    total_runs = h.total_runs + 1;
    consecutive_empty_runs = h.consecutive_empty_runs + 1;
    last_run_at = some now;
    last_duration_ms = duration_ms;
    avg_duration_ms = next_average duration_ms h.avg_duration_ms;
    reliability_score = max_float f (cents (pos 10)) (f.sub h.reliability_score (cents (pos 15)));
    error_rate = rate_of h.total_errors (h.total_runs + 1);
  }

  unfoldable pub record_error : ℕ → String → CrawlerHealth Carrier → CrawlerHealth Carrier
  record_error now error h =
      let rate = rate_of (h.total_errors + 1) (h.total_runs + 1) in
      record h {
        total_runs = h.total_runs + 1;
        total_errors = h.total_errors + 1;
        consecutive_errors = h.consecutive_errors + 1;
        last_run_at = some now;
        last_error = some error;
        error_rate = rate;
        reliability_score = reliability_of rate;
      }

  abbrev pub is_healthy : CrawlerHealth Carrier → Bool
  is_healthy h = h.enabled && ltb h.consecutive_errors 5

  abbrev pub effective_priority : CrawlerHealth Carrier → Carrier
  effective_priority h = f.mul h.priority_score h.reliability_score
