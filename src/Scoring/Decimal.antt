-- ===== src/Scoring/Decimal.antt =====
-- The keys of a saved dictionary of buckets: `str(k)` and `int(k)` on natural numbers, a text being the
-- list of its code points, and the buckets as JSON keeps them.
use hype_coin_predictive_eng.Prelude.{
  ℕ, zero, suc, ◌+◌, ◌-◌, ◌*◌, ◌/◌, ◌%◌, ◌<◌, ◌≡◌, inl, inr, refl, Bool, true, false, ◌&&◌, Option,
  none, some, List, [], ◌∷◌, leb, ltb, if◌then◌else◌, arith, Bool-cases, ap, ◌∙◌,
}
use hype_coin_predictive_eng.Scoring.Scorer.{Buckets}

-- The digits of a number before a text, on fuel above the number.
unfoldable pub digits : ℕ → ℕ → List ℕ → List ℕ
digits zero n after = after
digits (suc fuel) n after =
    let rest = digits fuel (n / 10) ((b'0' + n % 10) ∷ after) in
    if ltb n 10 then (b'0' + n) ∷ after else rest

-- `str(n)`
abbrev pub str_of : ℕ → List ℕ
str_of n = digits (suc n) n []

abbrev is_digit : ℕ → Bool
is_digit c = leb b'0' c && leb c b'9'

unfoldable pub parse : ℕ → List ℕ → Option ℕ
parse n [] = some n
parse n (c ∷ cs) = let rest = parse (n * 10 + (c - b'0')) cs in if is_digit c then rest else none

-- `int(text)`, none where it raises; a text that `str` does not write, as one with a sign or a space,
-- is not read.
abbrev pub int_of : List ℕ → Option ℕ
int_of [] = none
int_of (c ∷ cs) = parse 0 (c ∷ cs)

parse_digit :
    (n d : ℕ) (after : List ℕ) → d < 10 → parse n ((b'0' + d) ∷ after) ≡ parse (n * 10 + d) after
unfolding parse
parse_digit n d after h =
    let value : n * 10 + (b'0' + d - b'0') ≡ n * 10 + d = omega arith in
    let read : is_digit (b'0' + d) ≡ true = ground arith in rw (read, value) refl

parse-digits :
    (fuel n : ℕ) (after : List ℕ) → n < fuel → parse 0 (digits fuel n after) ≡ parse n after
unfolding digits
parse-digits zero n after h = absurd (omega arith)
parse-digits (suc fuel) n after h = elim (Bool-cases (ltb n 10)) [
  | inl small ↦
      let same : 0 * 10 + n ≡ n = omega arith in
      rw small (parse_digit 0 n after (ground arith) ∙ ap (λ m. parse m after) same)
  | inr large ↦
      let same : n / 10 * 10 + n % 10 ≡ n = omega arith in
      rw large (
        parse-digits fuel (n / 10) ((b'0' + n % 10) ∷ after) (ground arith)
        ∙ parse_digit (n / 10) (n % 10) after (omega arith)
        ∙ rw same refl)
]

abbrev is_nil : List ℕ → Bool
is_nil [] = true
is_nil (c ∷ cs) = false

digits_filled : (fuel n c : ℕ) (after : List ℕ) → is_nil (digits fuel n (c ∷ after)) ≡ false
unfolding digits
digits_filled zero n c after = refl
digits_filled (suc fuel) n c after = elim (Bool-cases (ltb n 10)) [
  | inl small ↦ rw small refl
  | inr large ↦ rw large (digits_filled fuel (n / 10) (b'0' + n % 10) (c ∷ after))
]

str_of_filled : (n : ℕ) → is_nil (str_of n) ≡ false
unfolding digits
str_of_filled n = elim (Bool-cases (ltb n 10)) [
  | inl small ↦ rw small refl
  | inr large ↦ rw large (digits_filled n (n / 10) (b'0' + n % 10) [])
]

int_of-parse : (text : List ℕ) → is_nil text ≡ false → int_of text ≡ parse 0 text
int_of-parse [] h = cc
int_of-parse (c ∷ cs) h = refl

-- `int(str(n)) == n`
pub int_of-str_of : (n : ℕ) → int_of (str_of n) ≡ some n
unfolding parse
int_of-str_of n =
    int_of-parse (str_of n) (str_of_filled n) ∙ parse-digits (suc n) n [] (omega arith)

-- A dictionary of JSON, whose keys are texts and whose values are arrays.
abbrev pub SavedBuckets : Type 0
SavedBuckets = List (List ℕ × List ℕ)

-- `{str(k): list(v) for k, v in buckets.items()}`
unfoldable pub save_buckets : Buckets → SavedBuckets
unfolding digits
save_buckets [] = []
save_buckets ((k, n, c) ∷ buckets) = (str_of k, n ∷ c ∷ []) ∷ save_buckets buckets

-- `tuple(v)`, a pair of the observations and the correct ones.
abbrev pub tuple_of : List ℕ → Option (ℕ × ℕ)
tuple_of (n ∷ c ∷ []) = some (n, c)
tuple_of _ = none

abbrev add_bucket : Option ℕ → Option (ℕ × ℕ) → Option Buckets → Option Buckets
add_bucket none counts buckets = none
add_bucket (some k) none buckets = none
add_bucket (some k) (some counts) none = none
add_bucket (some k) (some (n, c)) (some buckets) = some ((k, n, c) ∷ buckets)

-- `{int(k): tuple(v) for k, v in buckets.items()}`, none where it raises or a value is no pair.
unfoldable pub load_buckets : SavedBuckets → Option Buckets
unfolding parse
load_buckets [] = some []
load_buckets ((k, v) ∷ saved) = add_bucket (int_of k) (tuple_of v) (load_buckets saved)

pub load_buckets-save_buckets :
    (buckets : Buckets) → load_buckets (save_buckets buckets) ≡ some buckets
unfolding load_buckets save_buckets
load_buckets-save_buckets [] = refl
load_buckets-save_buckets ((k, n, c) ∷ buckets) =
    rw (int_of-str_of k, load_buckets-save_buckets buckets) refl
