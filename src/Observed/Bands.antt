-- ===== src/Observed/Bands.antt =====
-- The numbers of the report are those of the rows.
use hype_coin_predictive_eng.Prelude.{
  ℕ, ◌+◌, ◌≤◌, ◌≡◌, inl, inr, refl, Bool, ◌&&◌, not, List, [], ◌∷◌, ◌==◌, filter, length, All,
  arith, Bool-cases, sym, ◌∙◌, map, ltb,
}
use hype_coin_predictive_eng.Prelude.Int.{pos, ◌-ℤ◌}
use hype_coin_predictive_eng.Float.{Float}
use hype_coin_predictive_eng.Risk.Band.{RiskBand, green, yellow, orange, red, black}
use hype_coin_predictive_eng.Scoring.Scorer.{Rounding}
use hype_coin_predictive_eng.Scoring.Ensemble.{World}
use hype_coin_predictive_eng.Observed.Rows.{RiskOutcome, is_evaluated}
use hype_coin_predictive_eng.Observed.Report.{
  code_of, bands, with_recall, BandOutcome, count, band_outcome, rows_of, band_outcomes, sum_of,
  report_of,
}
use hype_coin_predictive_eng.Observed.Judged.{IsJudged, Command, run, run-IsJudged}

code_of_le : (b : RiskBand) → code_of b ≤ 4
code_of_le green = omega arith
code_of_le yellow = omega arith
code_of_le orange = omega arith
code_of_le red = omega arith
code_of_le black = omega arith

module _ (f : Float) (r : Rounding f) where
  open f use {Carrier}

  abbrev pub is_open : RiskOutcome Carrier → Bool
  is_open o = not o.collapsed && not o.survived

  abbrev pub Rows : Type 0
  Rows = List (RiskOutcome Carrier)

  count_parts :
      (rows : Rows)
      → All (IsJudged f r) rows
      → count (λ o. o.collapsed) rows + count (λ o. o.survived) rows + count is_open rows
        ≡ length rows
  unfolding count
  count_parts [] h = refl
  count_parts (o ∷ rows) h = ground (arith, count_parts rows h.1)

  sub_sub : (a b c : ℕ) → (pos (a + b + c) -ℤ pos a -ℤ pos b) ≡ pos c
  unfolding ◌-ℤ◌
  sub_sub a b c = ground arith

  -- What a band's entry says: every row of the band is collapsed, survived or open, and the open ones
  -- are the unknown.
  abbrev pub IsExact : Rows → BandOutcome Carrier → Type 0
  IsExact rows b =
      (b.total_flagged ≡ length (rows_of f b.band rows))
      × (b.unknown ≡ pos (count is_open (rows_of f b.band rows)))

  All-filter :
      (p : RiskOutcome Carrier → Bool) (rows : Rows)
      → All (IsJudged f r) rows
      → All (IsJudged f r) (filter p rows)
  All-filter p [] h = tt
  All-filter p (o ∷ rows) h =
      let rest = All-filter p rows h.1 in
      elim (Bool-cases (p o)) [ inl e ↦ rw e (h.0, rest) | inr e ↦ rw e rest ]

  band_outcome-IsExact :
      (rows : Rows) (band : RiskBand)
      → All (IsJudged f r) rows
      → IsExact rows (band_outcome f band (rows_of f band rows))
  unfolding band_outcome
  band_outcome-IsExact rows band h = (
    refl,
    rw (sym (count_parts (rows_of f band rows) (All-filter _ rows h))) (
        sub_sub (count (λ o. o.collapsed) (rows_of f band rows))
          (count (λ o. o.survived) (rows_of f band rows)) (count is_open (rows_of f band rows))),
  )

  band_outcomes-IsExact :
      (bs : List RiskBand) (rows : Rows)
      → All (IsJudged f r) rows
      → All (IsExact rows) (band_outcomes f bs rows)
  unfolding band_outcomes
  band_outcomes-IsExact [] rows h = tt
  band_outcomes-IsExact (b ∷ bs) rows h =
      let rest = band_outcomes-IsExact bs rows h in
      elim (Bool-cases (length (rows_of f b rows) == 0)) [
        | inl none_of ↦ rw none_of rest
        | inr many ↦ rw many (band_outcome-IsExact rows b h, rest)
      ]

  -- The rows of some bands.
  unfoldable pub rows_in : List RiskBand → Rows → ℕ
  rows_in [] rows = 0
  rows_in (b ∷ bs) rows = length (rows_of f b rows) + rows_in bs rows

  sum_of-band_outcomes :
      (bs : List RiskBand) (rows : Rows)
      → sum_of f (λ b. b.total_flagged) (band_outcomes f bs rows) ≡ rows_in bs rows
  unfolding band_outcomes sum_of rows_in band_outcome
  sum_of-band_outcomes [] rows = refl
  sum_of-band_outcomes (b ∷ bs) rows = ground (arith, sum_of-band_outcomes bs rows)

  rows_in-bands : (rows : Rows) → rows_in bands rows ≡ count (is_evaluated f) rows
  unfolding rows_in count
  rows_in-bands [] = refl
  rows_in-bands (o ∷ rows) = ground (arith, code_of_le o.risk_band, rows_in-bands rows)

  with_recall-IsExact :
      (all : ℕ) (rows : Rows) (bs : List (BandOutcome Carrier))
      → All (IsExact rows) bs
      → All (IsExact rows) (map (with_recall f all) bs)
  with_recall-IsExact all rows [] h = tt
  with_recall-IsExact all rows (b ∷ bs) h =
      let rest = with_recall-IsExact all rows bs h.1 in
      elim (Bool-cases (ltb 0 all)) [ inl e ↦ rw e (h.0, rest) | inr e ↦ rw e (h.0, rest) ]

  -- The report over the rows of any recordings and passes: the flagged rows of all bands together are the
  -- rows that were evaluated, each band's count is that of its evaluated rows, and its unknown rows are
  -- those that neither collapsed nor survived, so that the subtraction never falls below 0.
  pub report_of-run :
      (cs : List (Command Carrier)) (w : World Carrier)
      → let rows = (run f r cs (record { rows = []; world = w })).rows in
        ((report_of f rows).total_flagged ≡ count (is_evaluated f) rows)
        × All (IsExact rows) (report_of f rows).bands
  unfolding report_of
  report_of-run cs w =
      let rows = (run f r cs (record { rows = []; world = w })).rows in
      (
        sum_of-band_outcomes bands rows ∙ rows_in-bands rows,
        with_recall-IsExact (sum_of f (λ b. b.collapsed) (band_outcomes f bands rows)) rows
            (band_outcomes f bands rows) (band_outcomes-IsExact bands rows (run-IsJudged f r cs w)),
      )
