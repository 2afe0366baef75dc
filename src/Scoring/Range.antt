-- ===== src/Scoring/Range.antt =====
-- The range of the blended scores.
use hype_coin_predictive_eng.Prelude.{◌≡◌, inl, inr, refl, true, Bool-cases}
use hype_coin_predictive_eng.Prelude.Int.{pos}
use hype_coin_predictive_eng.Float.{Float}
use hype_coin_predictive_eng.Float.MinMax.{min_float, min_float_le}
use hype_coin_predictive_eng.Scoring.Scorer.{Rounding, clamp_score}
use hype_coin_predictive_eng.Scoring.Ensemble.{World, Read, Moment}
use hype_coin_predictive_eng.Scoring.Blend.{Scores, blended, blend}

module _ (f : Float) where
  open f use {Carrier, cents}

  -- A number from 0 to 100.
  abbrev pub IsScore : Carrier → Type 0
  IsScore x = (f.leb (cents (pos 0)) x ≡ true) × (f.leb x (cents (pos 10000)) ≡ true)

  clamp_score-IsScore : (x : Carrier) → IsScore (clamp_score f x)
  clamp_score-IsScore x =
      let low = cents (pos 0) in
      let high = cents (pos 10000) in
      let m = min_float f high x in
      let top = min_float_le f high x (f.leb_cents (pos 10000) (pos 10000) refl) in
      elim (Bool-cases (f.ltb low m)) [
        | inl lt ↦ rw lt (f.leb_of_ltb low m lt, top)
        | inr ge ↦ rw ge (f.leb_cents (pos 0) (pos 0) refl, f.leb_cents (pos 0) (pos 10000) refl)
      ]

  module _ (r : Rounding f) where
    round-IsScore : (x : Carrier) → IsScore x → IsScore (r.round 4 x)
    round-IsScore x h = r.round_range 4 x h.0 h.1

    -- Whatever the layers answer, numbers or not, and whatever the weights are: hype, risk and research
    -- priority are numbers from 0 to 100.
    pub blend-IsScore :
        (read : Read) (m : Moment) (s : Scores Carrier) (w : World Carrier)
        → let e = (blend f r read m s w).0 in
          IsScore e.hype × IsScore e.risk × IsScore e.research_priority
    unfolding blend blended
    blend-IsScore read m s w = (
      round-IsScore _ (clamp_score-IsScore _),
      round-IsScore _ (clamp_score-IsScore _),
      round-IsScore _ (clamp_score-IsScore _),
    )
