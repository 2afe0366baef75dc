-- ===== src/Float/MinMax.antt =====
-- Python's `min` and `max` of two floats, and the float literals the parts share.
use hype_coin_predictive_eng.Prelude.{◌≡◌, true, inl, inr, if◌then◌else◌, Bool-cases}
use hype_coin_predictive_eng.Prelude.Int.{pos}
use hype_coin_predictive_eng.Float.{Float}

module _ (f : Float) where
  open f use {Carrier, cents}

  -- Python's `min(a, b)` and `max(a, b)`: the second argument only if it is less, or greater.
  abbrev pub min_float : Carrier → Carrier → Carrier
  min_float a b = if f.ltb b a then b else a

  abbrev pub max_float : Carrier → Carrier → Carrier
  max_float a b = if f.ltb a b then b else a

  abbrev pub zero_float : Carrier
  zero_float = cents (pos 0)

  abbrev pub one_float : Carrier
  one_float = cents (pos 100)

  pub max_float_ge : (r b : Carrier) → f.leb r r ≡ true → f.leb r (max_float r b) ≡ true
  max_float_ge r b h = elim (Bool-cases (f.ltb r b)) [
    | inl lt ↦ rw lt (f.leb_of_ltb r b lt)
    | inr ge ↦ rw ge h
  ]

  pub max_float_le :
      (c r b : Carrier) → f.leb r c ≡ true → f.leb b c ≡ true → f.leb (max_float r b) c ≡ true
  max_float_le c r b h k = elim (Bool-cases (f.ltb r b)) [ inl lt ↦ rw lt k | inr ge ↦ rw ge h ]

  pub min_float_le : (r b : Carrier) → f.leb r r ≡ true → f.leb (min_float r b) r ≡ true
  min_float_le r b h = elim (Bool-cases (f.ltb b r)) [
    | inl lt ↦ rw lt (f.leb_of_ltb b r lt)
    | inr ge ↦ rw ge h
  ]
