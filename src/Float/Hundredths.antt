-- ===== src/Float/Hundredths.antt =====
-- Hundredths in place of doubles: numbers with exact sums, products and quotients rounded down. They
-- meet the laws of `Float`.
use native.Mathlib.Nat.{div-lt_iff_lt-mul, div-zero, zero-div}
use hype_coin_predictive_eng.Prelude.{ℕ, ◌≤◌, ◌<◌, ◌+◌, ◌*◌, ◌/◌, ◌≡◌, true, false, arith}
use hype_coin_predictive_eng.Prelude.Int.{
  ℤ, pos, pos_part, neg_part, sub_ℕ, ◌+ℤ◌, ◌-ℤ◌, ltb_ℤ, leb_ℤ,
}

abbrev pub mul_ℤ : ℤ → ℤ → ℤ
mul_ℤ a b =
    sub_ℕ ((pos_part a * pos_part b + neg_part a * neg_part b) / 100)
      ((pos_part a * neg_part b + neg_part a * pos_part b) / 100)

abbrev pub div_ℤ : ℤ → ℤ → ℤ
div_ℤ a b =
    sub_ℕ (pos_part a * 100 / pos_part b + neg_part a * 100 / neg_part b)
      (pos_part a * 100 / neg_part b + neg_part a * 100 / pos_part b)

pub leb_of_ltb : (a b : ℤ) → ltb_ℤ a b ≡ true → leb_ℤ a b ≡ true
leb_of_ltb a b h = ground arith

pub leb_trans : (a b c : ℤ) → leb_ℤ a b ≡ true → leb_ℤ b c ≡ true → leb_ℤ a c ≡ true
leb_trans a b c h k = ground arith

pub leb_of_not_ltb :
    (a b : ℤ) → leb_ℤ a a ≡ true → leb_ℤ b b ≡ true → ltb_ℤ a b ≡ false → leb_ℤ b a ≡ true
leb_of_not_ltb a b ha hb h = ground arith

pub not_ltb_of_leb : (a b : ℤ) → leb_ℤ a b ≡ true → ltb_ℤ b a ≡ false
not_ltb_of_leb a b h = ground arith

pub add_nonneg :
    (a b : ℤ) → leb_ℤ (pos 0) a ≡ true → leb_ℤ (pos 0) b ≡ true → leb_ℤ (pos 0) (a +ℤ b) ≡ true
unfolding ◌+ℤ◌
add_nonneg a b h k = ground arith

pub sub_le :
    (a b : ℤ)
    → leb_ℤ (pos 0) a ≡ true
    → leb_ℤ a (pos 100) ≡ true
    → leb_ℤ (pos 0) b ≡ true
    → leb_ℤ b (pos 100) ≡ true
    → leb_ℤ (a -ℤ b) a ≡ true
unfolding ◌-ℤ◌
sub_le a b h k l m = ground arith

pub add_ge : (a b : ℤ) → leb_ℤ (pos 0) a ≡ true → leb_ℤ (pos 0) b ≡ true → leb_ℤ a (a +ℤ b) ≡ true
unfolding ◌+ℤ◌
add_ge a b h k = ground arith

pub leb_self : (a b : ℤ) → leb_ℤ a b ≡ true → (leb_ℤ a a ≡ true) × (leb_ℤ b b ≡ true)
leb_self a b h = (ground arith, ground arith)

div-le_hundred : (m n : ℕ) → m ≤ n → 0 < n → m * 100 * 100 / (n * 100) ≤ 100
div-le_hundred m n h k =
    let (below, above) =
      div-lt_iff_lt-mul {k = n * 100} {x = m * 100 * 100} {y = 101} (omega arith) in
    let q : m * 100 * 100 / (n * 100) < 101 = above (omega arith) in omega arith

pub div_unit :
    (m n : ℕ)
    → m ≤ n
    → 0 < n
    → (leb_ℤ (pos 0) (div_ℤ (pos (m * 100)) (pos (n * 100))) ≡ true)
      × (leb_ℤ (div_ℤ (pos (m * 100)) (pos (n * 100))) (pos 100) ≡ true)
div_unit m n h k =
    ground
      (arith, div-le_hundred m n, div-zero (0 * 100), div-zero (m * 100 * 100), zero-div (n * 100))
