-- ===== src/Observed/Rows.antt =====
-- The rows of the outcomes, `record_risk_outcome`, and the evaluation in `evaluate_outcomes`. Times and
-- the window are seconds.
use hype_coin_predictive_eng.Prelude.{
  ℕ, ◌+◌, String, Bool, true, false, ◌&&◌, ◌||◌, Option, none, some, List, [], ◌∷◌, ◌++◌, ltb, leb,
  ◌==◌, if◌then◌else◌, str_eq, filter,
}
use hype_coin_predictive_eng.Prelude.Int.{pos}
use hype_coin_predictive_eng.Float.{Float}
use hype_coin_predictive_eng.Risk.Band.{RiskBand}
use hype_coin_predictive_eng.Lifecycle.Phase.{
  LifecyclePhase, parabolic, saturation, collapse, dead, rugged, survivor,
}
use hype_coin_predictive_eng.Lifecycle.Store.{Event, latest}

-- The phase of an asset that has no event, "unknown", is none.
pub record RiskOutcome (F : Type 0) : Type 0 where
  pub asset_id : ℕ
  pub score_id : ℕ
  pub risk_band : RiskBand
  pub scored_at : ℕ
  pub phase_at_score : Option LifecyclePhase
  pub evaluated_at : Option ℕ
  pub phase_at_eval : Option LifecyclePhase
  pub price_change_pct : Option F
  pub collapsed : Bool
  pub was_rugged : Bool
  pub survived : Bool
  pub ensemble_fed_at : Option ℕ
  pub ml_band : Option RiskBand
  pub heuristic_band : Option RiskBand
  -- how often the ensemble was given the row
  pub feeds : ℕ

pub record Pair : Type 0 where
  pub id : ℕ
  pub base_asset_id : ℕ
  pub quote_symbol : String

pub record MarketSnapshot (F : Type 0) : Type 0 where
  pub pair_id : ℕ
  pub ts : ℕ
  pub price_usd : Option F

-- The other tables that the evaluation reads.
pub record Market (F : Type 0) : Type 0 where
  pub events : List Event
  pub pairs : List Pair
  pub snapshots : List (MarketSnapshot F)

abbrev pub latest_lifecycle_phase : List Event → ℕ → Option LifecyclePhase
latest_lifecycle_phase events asset = elim (latest asset events) [
  | none ↦ none
  | some e ↦ some (e.phase)
]

abbrev pub is_usd : String → Bool
is_usd s = str_eq s "USDC" || (str_eq s "USDT" || str_eq s "USD")

-- The first row that a query finds.
abbrev pub first {ℓ} : {A : Type ℓ} → List A → Option A
first [] = none
first (x ∷ xs) = some x

-- The pair with a dollar quote, or any pair of the asset.
unfoldable pub pair_of : ℕ → List Pair → Option Pair
pair_of asset pairs =
    elim (first (filter (λ p. p.base_asset_id == asset && is_usd p.quote_symbol) pairs)) [
      | some p ↦ some p
      | none ↦ first (filter (λ p. p.base_asset_id == asset) pairs)
    ]

module _ (f : Float) where
  open f use {Carrier, cents}

  abbrev pub is_priced : Option Carrier → Bool
  is_priced none = false
  is_priced (some price) = f.ltb (cents (pos 0)) price

  abbrev pub newer :
      MarketSnapshot Carrier → Option (MarketSnapshot Carrier) → MarketSnapshot Carrier
  newer s none = s
  newer s (some t) = if ltb s.ts t.ts then t else s

  -- `order_by(ts.desc()).limit(1)` over the priced snapshots of a pair that meet a condition.
  unfoldable pub last_price :
      ℕ → (ℕ → Bool) → List (MarketSnapshot Carrier) → Option (MarketSnapshot Carrier)
  last_price pair when [] = none
  last_price pair when (s ∷ l) =
      let rest = last_price pair when l in
      if s.pair_id == pair && (when s.ts && is_priced s.price_usd)
      then some (newer s rest)
      else rest

  abbrev pub price_of : Option (MarketSnapshot Carrier) → Option Carrier
  price_of none = none
  price_of (some s) = s.price_usd

  abbrev pub change_of : Option Carrier → Option Carrier → Option Carrier
  change_of none last = none
  change_of (some entry) none = none
  change_of (some entry) (some last) =
      if f.leb entry (cents (pos 0)) then none else some (f.div (f.sub last entry) entry)

  unfoldable pub price_change_since : Market Carrier → ℕ → ℕ → Option Carrier
  unfolding pair_of last_price
  price_change_since k asset since = elim (pair_of asset k.pairs) [
    | none ↦ none
    | some p ↦
        change_of (price_of (last_price p.id (λ t. leb t since) k.snapshots))
          (price_of (last_price p.id (λ t. ltb since t) k.snapshots))
  ]

  -- `record_risk_outcome`
  abbrev pub has_score : ℕ → List (RiskOutcome Carrier) → Bool
  has_score score [] = false
  has_score score (o ∷ l) = o.score_id == score || has_score score l

  unfoldable pub record_risk_outcome :
      List Event
      → ℕ
      → RiskBand
      → ℕ
      → ℕ
      → Option RiskBand
      → Option RiskBand
      → List (RiskOutcome Carrier)
      → List (RiskOutcome Carrier)
  record_risk_outcome events asset band score decision ml heuristic l =
      if has_score score l
      then l
      else l
        ++ (record {
          asset_id = asset;
          score_id = score;
          risk_band = band;
          scored_at = decision;
          phase_at_score = latest_lifecycle_phase events asset;
          evaluated_at = none;
          phase_at_eval = none;
          price_change_pct = none;
          collapsed = false;
          was_rugged = false;
          survived = false;
          ensemble_fed_at = none;
          ml_band = ml;
          heuristic_band = heuristic;
          feeds = 0;
        }
            ∷ [])

  abbrev pub is_collapsed : Option LifecyclePhase → Bool
  is_collapsed none = false
  is_collapsed (some collapse) = true
  is_collapsed (some dead) = true
  is_collapsed (some rugged) = true
  is_collapsed (some _) = false

  abbrev pub is_rugged : Option LifecyclePhase → Bool
  is_rugged none = false
  is_rugged (some rugged) = true
  is_rugged (some _) = false

  abbrev pub is_survived : Option LifecyclePhase → Bool
  is_survived none = false
  is_survived (some survivor) = true
  is_survived (some parabolic) = true
  is_survived (some saturation) = true
  is_survived (some _) = false

  abbrev pub judge :
      ℕ → Option LifecyclePhase → Option Carrier → RiskOutcome Carrier → RiskOutcome Carrier
  judge decision phase change o = record o {
    phase_at_eval = phase;
    price_change_pct = change;
    evaluated_at = some decision;
    collapsed = is_collapsed phase;
    was_rugged = is_rugged phase;
    survived = is_survived phase;
  }

  abbrev pub is_evaluated : RiskOutcome Carrier → Bool
  is_evaluated o = elim (o.evaluated_at) [ none ↦ false | some t ↦ true ]

  -- The body of the loop: a row that was evaluated is not among its rows.
  unfoldable pub evaluate_row : Market Carrier → ℕ → ℕ → RiskOutcome Carrier → RiskOutcome Carrier
  unfolding price_change_since
  evaluate_row k decision window o =
      if is_evaluated o || ltb decision (o.scored_at + window)
      then o
      else judge decision (latest_lifecycle_phase k.events o.asset_id)
          (price_change_since k o.asset_id o.scored_at) o

  unfoldable pub evaluate_rows :
      Market Carrier → ℕ → ℕ → List (RiskOutcome Carrier) → List (RiskOutcome Carrier)
  unfolding evaluate_row
  evaluate_rows k decision window [] = []
  evaluate_rows k decision window (o ∷ l) =
      evaluate_row k decision window o ∷ evaluate_rows k decision window l
