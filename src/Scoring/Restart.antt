-- ===== src/Scoring/Restart.antt =====
-- What a restart of the process keeps.
use hype_coin_predictive_eng.Prelude.{
  ℕ, ◌-◌, ◌≤◌, ◌≡◌, refl, true, [], ◌∷◌, ◌++◌, length, arith, length-drop,
}
use hype_coin_predictive_eng.Float.{Float}
use hype_coin_predictive_eng.Scoring.Scorer.{Rounding, Buckets, Scorer, accuracy}
use hype_coin_predictive_eng.Scoring.Decimal.{load_buckets-save_buckets}
use hype_coin_predictive_eng.Scoring.Ensemble.{
  Moment, World, answered, each, new_engine, history_of, total_of, load_from_db, restore, saved_row,
  save_to_db,
}

module _ (f : Float) (r : Rounding f) where
  open f use {Carrier}

  -- What a scorer has learned.
  abbrev pub learned : Scorer Carrier → Carrier × Carrier × Buckets
  learned s = (s.correct_predictions, s.total_predictions, s.calibration_buckets)

  -- A new process that reads the row of a save that committed has the weights of the old one, and for
  -- each scorer its counts, its accuracy and its calibration; and a row never has more than 200 entries of
  -- history.
  pub load_from_db-save_to_db :
      (m : Moment) (now : ℕ) (w : World Carrier)
      → m.commits ≡ true
      → let saved = save_to_db f r m w in
        let e =
          (load_from_db f r answered
            (record { engine = new_engine f r now; row = saved.row })).engine in
        (e.current_weights ≡ w.engine.current_weights)
        × (each learned e.accuracies ≡ each learned w.engine.accuracies)
        × (each (accuracy f) e.accuracies ≡ each (accuracy f) w.engine.accuracies)
        × (length (history_of f r saved.row) ≤ 200)
  unfolding save_to_db load_from_db new_engine restore saved_row
  load_from_db-save_to_db m now w c =
      let history =
        history_of f r w.row ++ ((w.engine.current_weights, total_of f r w.engine) ∷ []) in
      let n = length-drop (length history - 200) history in
      let a = w.engine.accuracies in
      rw
        (
          c,
          load_buckets-save_buckets a.rule.calibration_buckets,
          load_buckets-save_buckets a.ml.calibration_buckets,
          load_buckets-save_buckets a.heuristic.calibration_buckets,
        )
        (refl, refl, refl, omega arith)
