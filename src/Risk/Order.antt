-- ===== src/Risk/Order.antt =====
-- The bands grow with the collapse probability.
use hype_coin_predictive_eng.Prelude.{◌≡◌, ◌≤◌, ◌↔◌, true, Option, ℕ, arith}
use hype_coin_predictive_eng.Float.{Float}
use hype_coin_predictive_eng.Risk.Band.{
  RiskBand, green, yellow, red, black, orange, Thresholds, ordered, calibrated, default_prob,
  default_prob_black, band_of, band_from_collapse_probability,
}

-- GREEN, YELLOW, ORANGE, RED, BLACK.
abbrev pub severity : RiskBand → ℕ
severity green = 0
severity yellow = 1
severity orange = 2
severity red = 3
severity black = 4

module _ (f : Float) where
  open f use {Carrier, cents}

  band_of_monotone :
      (p q : Carrier) (t : Thresholds Carrier)
      → f.leb p q ≡ true
      → severity (band_of f p t) ≤ severity (band_of f q t)
  unfolding band_of
  band_of_monotone p q t h = ground (
    arith,
    f.leb_trans (default_prob_black f) p q,
    f.leb_trans t.red_from p q,
    f.leb_trans t.orange_from p q,
    f.leb_trans t.yellow_from p q,
  )

  -- For every calibration: of two collapse probabilities in order, the greater has no lower band, and
  -- the band is BLACK exactly from 0.75 on.
  pub band_from_collapse_probability_monotone :
      (p q : Carrier) (ml : Option (Thresholds Carrier))
      → f.leb p q ≡ true
      → (severity (band_from_collapse_probability f p ml)
          ≤ severity (band_from_collapse_probability f q ml))
        × ((band_from_collapse_probability f q ml ≡ black)
            ↔ (f.leb (default_prob_black f) q ≡ true))
  unfolding band_from_collapse_probability band_of
  band_from_collapse_probability_monotone p q ml h = (
    band_of_monotone p q (ordered f (calibrated f (default_prob f) ml)) h,
    ((λ e. ground arith), (λ e. ground arith)),
  )
