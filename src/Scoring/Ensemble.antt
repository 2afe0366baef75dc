-- ===== src/Scoring/Ensemble.antt =====
-- `EnsembleEngine` of scoring/ensemble.py with the row that it keeps. Times are whole seconds of the
-- monotonic clock; the readings of one call before a save are one moment. The rows are those that the
-- code wrote, without their timestamps, with a float as
-- JSON gives it back, and a read that raises does so before it takes anything.
use hype_coin_predictive_eng.Prelude.{
  ℕ, ◌-◌, Bool, true, false, ◌||◌, ◌&&◌, Option, none, some, List, [], ◌∷◌, ◌++◌, leb,
  if◌then◌else◌, length, drop,
}
use hype_coin_predictive_eng.Prelude.Int.{ℤ, pos}
use hype_coin_predictive_eng.Float.{Float}
use hype_coin_predictive_eng.Scoring.Decimal.{SavedBuckets, save_buckets, load_buckets}
use hype_coin_predictive_eng.Scoring.Scorer.{Rounding, Buckets, Scorer, new_scorer, accuracy}

-- One thing for each scorer.
pub record Three (A : Type 0) : Type 0 where
  pub rule : A
  pub ml : A
  pub heuristic : A

pub data ScorerName : Type 0 where
  rule_scorer ml_scorer heuristic_scorer : ScorerName

abbrev pub get : {A : Type 0} → ScorerName → Three A → A
get rule_scorer t = t.rule
get ml_scorer t = t.ml
get heuristic_scorer t = t.heuristic

abbrev pub set : {A : Type 0} → ScorerName → A → Three A → Three A
set rule_scorer a t = record t { rule = a }
set ml_scorer a t = record t { ml = a }
set heuristic_scorer a t = record t { heuristic = a }

abbrev pub each : {A B : Type 0} → (A → B) → Three A → Three B
each g t = record { rule = g t.rule; ml = g t.ml; heuristic = g t.heuristic }

pub record EnsembleEngine (F : Type 0) : Type 0 where
  pub accuracies : Three (Scorer F)
  pub current_weights : Three F
  pub last_recalibrate : ℕ
  pub persisted : Bool
  pub pending_outcomes : ℕ
  pub last_flush : ℕ
  pub last_flush_attempt : ℕ

pub record ScorerData (F : Type 0) : Type 0 where
  pub correct : F
  pub total : F
  pub accuracy_then : F

pub record EnsembleState (F : Type 0) : Type 0 where
  pub weights : Three F
  pub scorer_accuracy : Three (ScorerData F)
  pub buckets : Three SavedBuckets
  pub total_predictions : ℤ
  pub weight_history : List (Three F × ℤ)

-- The engine and its row, if it is there.
pub record World (F : Type 0) : Type 0 where
  pub engine : EnsembleEngine F
  pub row : Option (EnsembleState F)

-- What one call meets: its moment, whether a write of the row commits, and the moment after it.
pub record Moment : Type 0 where
  pub now : ℕ
  pub commits : Bool
  pub after : ℕ

-- What the read of the row comes to.
pub data Read : Type 0 where
  answered raised : Read

module _ (f : Float) (r : Rounding f) where
  open f use {Carrier, cents}

  unfoldable pub new_engine : ℕ → EnsembleEngine Carrier
  new_engine now = record {
    accuracies = record {
      rule = new_scorer f now;
      ml = new_scorer f now;
      heuristic = new_scorer f now;
    };
    current_weights = record {
      rule = cents (pos 50);
      ml = cents (pos 30);
      heuristic = cents (pos 20);
    };
    last_recalibrate = 0;
    persisted = false;
    pending_outcomes = 0;
    last_flush = now;
    last_flush_attempt = 0;
  }

  -- `sum` of three values.
  abbrev pub sum : Three Carrier → Carrier
  sum t = f.add (f.add t.rule t.ml) t.heuristic

  unfoldable pub restore : ScorerData Carrier → Scorer Carrier → Scorer Carrier
  restore d s = record s { correct_predictions = d.correct; total_predictions = d.total }

  -- The loop over the saved counts.
  abbrev pub restore_counts :
      Three (ScorerData Carrier) → Three (Scorer Carrier) → Three (Scorer Carrier)
  restore_counts d t = record {
    rule = restore d.rule t.rule;
    ml = restore d.ml t.ml;
    heuristic = restore d.heuristic t.heuristic;
  }

  abbrev pub give : Buckets → Scorer Carrier → Scorer Carrier
  give b s = record s { calibration_buckets = b }

  -- The loop over the saved buckets, in the order of the scorers; the first that cannot be read raises
  -- and ends it.
  abbrev pub restore_buckets :
      Option Buckets
      → Option Buckets
      → Option Buckets
      → Three (Scorer Carrier)
      → Three (Scorer Carrier)
  restore_buckets none ml heuristic t = t
  restore_buckets (some a) none heuristic t = record t { rule = give a t.rule }
  restore_buckets (some a) (some b) none t = record t { rule = give a t.rule; ml = give b t.ml }
  restore_buckets (some a) (some b) (some c) t = record {
    rule = give a t.rule;
    ml = give b t.ml;
    heuristic = give c t.heuristic;
  }

  -- `_load_from_db`
  unfoldable pub load_from_db : Read → World Carrier → World Carrier
  unfolding restore load_buckets
  load_from_db raised w = record w { engine = record (w.engine) { persisted = true } }
  load_from_db answered w = if w.engine.persisted then w else elim (w.row) [
    | none ↦ record w { engine = record (w.engine) { persisted = true } }
    | some s ↦ record w {
      engine = record (w.engine) {
        persisted = true;
        current_weights = s.weights;
        accuracies =
            restore_buckets (load_buckets s.buckets.rule) (load_buckets s.buckets.ml)
              (load_buckets s.buckets.heuristic)
              (restore_counts s.scorer_accuracy w.engine.accuracies);
      };
    }
  ]

  abbrev pub total_of : EnsembleEngine Carrier → ℤ
  total_of e = r.int_round (sum (each (λ s. s.total_predictions) e.accuracies))

  abbrev pub history_of : Option (EnsembleState Carrier) → List (Three Carrier × ℤ)
  history_of none = []
  history_of (some s) = s.weight_history

  -- The row that a save writes; the last 200 entries of the history stay.
  unfoldable pub saved_row :
      EnsembleEngine Carrier → Option (EnsembleState Carrier) → EnsembleState Carrier
  unfolding save_buckets
  saved_row e row =
      let history = history_of row ++ ((e.current_weights, total_of e) ∷ []) in
      record {
        weights = e.current_weights;
        scorer_accuracy =
            each
              (λ s. record {
                correct = s.correct_predictions;
                total = s.total_predictions;
                accuracy_then = accuracy f s;
              })
              e.accuracies;
        buckets = each (λ s. save_buckets s.calibration_buckets) e.accuracies;
        total_predictions = total_of e;
        weight_history = drop (length history - 200) history;
      }

  -- `_save_to_db`
  unfoldable pub save_to_db : Moment → World Carrier → World Carrier
  unfolding saved_row
  save_to_db m w =
      if m.commits
      then record {
        row = some (saved_row w.engine w.row);
        engine = record (w.engine) {
          pending_outcomes = 0;
          last_flush = m.after;
          last_flush_attempt = 0;
        };
      }
      else w

  -- 50 outcomes, or 300 seconds since the last save.
  abbrev pub is_due : ℕ → EnsembleEngine Carrier → Bool
  is_due now e = leb 50 e.pending_outcomes || leb 300 (now - e.last_flush)

  -- 30 seconds since the last attempt.
  abbrev pub may_retry : ℕ → EnsembleEngine Carrier → Bool
  may_retry now e = leb 30 (now - e.last_flush_attempt)

  -- `_maybe_flush`
  unfoldable pub maybe_flush : Moment → World Carrier → World Carrier
  unfolding save_to_db
  maybe_flush m w =
      if is_due m.now w.engine && may_retry m.now w.engine
      then save_to_db m (record w { engine = record (w.engine) { last_flush_attempt = m.now } })
      else w
