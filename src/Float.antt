-- ===== src/Float.antt =====
-- Python's `float`, which the sources only use: an interface of the operations that the engine calls
-- and of the laws of IEEE 754 that the theorems rest on.
use hype_coin_predictive_eng.Prelude.{ℕ, ◌*◌, ◌≤◌, ◌<◌, ◌≡◌, Bool, true, false}
use Hundredths.{mul_ℤ, div_ℤ}
use hype_coin_predictive_eng.Prelude.Int.{ℤ, pos, ◌+ℤ◌, ◌-ℤ◌, ltb_ℤ, leb_ℤ}
pub mod Hundredths
pub mod MinMax

pub record Float : Type 1 where
  pub Carrier : Type 0
  -- the finite double nearest to n / 100, which every literal of the modelled code is
  pub cents : ℤ → Carrier
  -- `<` and `<=`, both false if an argument is not a number
  pub ltb : Carrier → Carrier → Bool
  pub leb : Carrier → Carrier → Bool
  pub add : Carrier → Carrier → Carrier
  pub sub : Carrier → Carrier → Carrier
  pub mul : Carrier → Carrier → Carrier
  pub div : Carrier → Carrier → Carrier
  pub leb_of_ltb : (a b : Carrier) → ltb a b ≡ true → leb a b ≡ true
  pub leb_trans : (a b c : Carrier) → leb a b ≡ true → leb b c ≡ true → leb a c ≡ true
  -- what is in order with anything is a number
  pub leb_self : (a b : Carrier) → leb a b ≡ true → (leb a a ≡ true) × (leb b b ≡ true)
  -- rounding keeps the order
  pub leb_cents : (m n : ℤ) → leb_ℤ m n ≡ true → leb (cents m) (cents n) ≡ true
  -- of two numbers one is less than the other or they are in order
  pub leb_of_not_ltb :
      (a b : Carrier) → leb a a ≡ true → leb b b ≡ true → ltb a b ≡ false → leb b a ≡ true
  pub not_ltb_of_leb : (a b : Carrier) → leb a b ≡ true → ltb b a ≡ false
  -- sums of numbers that are not negative, and differences of numbers in [0, 1]
  pub add_nonneg :
      (a b : Carrier)
      → leb (cents (pos 0)) a ≡ true
      → leb (cents (pos 0)) b ≡ true
      → leb (cents (pos 0)) (add a b) ≡ true
  pub sub_le :
      (a b : Carrier)
      → leb (cents (pos 0)) a ≡ true
      → leb a (cents (pos 100)) ≡ true
      → leb (cents (pos 0)) b ≡ true
      → leb b (cents (pos 100)) ≡ true
      → leb (sub a b) a ≡ true
  pub add_ge :
      (a b : Carrier)
      → leb (cents (pos 0)) a ≡ true
      → leb (cents (pos 0)) b ≡ true
      → leb a (add a b) ≡ true
  -- the quotient of two counts, the first not above the second
  pub div_unit :
      (m n : ℕ)
      → m ≤ n
      → 0 < n
      → (leb (cents (pos 0)) (div (cents (pos (m * 100))) (cents (pos (n * 100)))) ≡ true)
        × (leb (div (cents (pos (m * 100))) (cents (pos (n * 100)))) (cents (pos 100)) ≡ true)

-- Hundredths meet the laws.
abbrev pub hundredths : Float
hundredths = record {
  Carrier = ℤ;
  cents = λ n. n;
  ltb = ltb_ℤ;
  leb = leb_ℤ;
  add = ◌+ℤ◌;
  sub = ◌-ℤ◌;
  mul = mul_ℤ;
  div = div_ℤ;
  leb_of_ltb = Hundredths.leb_of_ltb;
  leb_trans = Hundredths.leb_trans;
  leb_self = Hundredths.leb_self;
  leb_cents = λ m n h. h;
  leb_of_not_ltb = Hundredths.leb_of_not_ltb;
  not_ltb_of_leb = Hundredths.not_ltb_of_leb;
  add_nonneg = Hundredths.add_nonneg;
  sub_le = Hundredths.sub_le;
  add_ge = Hundredths.add_ge;
  div_unit = Hundredths.div_unit;
}
