-- ===== src/Replay/Hours.antt =====
-- `floor_to_hour` and `hours_between` of common/time.py. A time is the number of microseconds since some
-- midnight in UTC, and the loop runs on fuel.
use hype_coin_predictive_eng.Prelude.{
  ℕ, zero, suc, ◌+◌, ◌-◌, ◌*◌, ◌/◌, ◌≤◌, ◌<◌, ◌≡◌, inl, inr, refl, Option, none, some, List, [],
  ◌∷◌, leb, if◌then◌else◌, arith, Bool-cases,
}

abbrev pub hour : ℕ
hour = 3600000000

-- The fields below the hour become 0.
abbrev pub floor_to_hour : ℕ → ℕ
floor_to_hour t = t / 3600000000 * 3600000000

abbrev pub after : ℕ → Option (List ℕ) → Option (List ℕ)
after t none = none
after t (some ts) = some (t ∷ ts)

-- The loop; `none` is fuel that ran out.
unfoldable pub hours_loop : ℕ → ℕ → ℕ → Option (List ℕ)
hours_loop zero current end = none
hours_loop (suc fuel) current end =
    let rest = hours_loop fuel (current + hour) end in
    if leb current end then after current rest else some []

unfoldable pub hours_between : ℕ → ℕ → ℕ → Option (List ℕ)
hours_between fuel start end = hours_loop fuel (floor_to_hour start) (floor_to_hour end)

-- So many full hours from the given one on.
unfoldable pub hours_from : ℕ → ℕ → List ℕ
hours_from a zero = []
hours_from a (suc n) = a * 3600000000 ∷ hours_from (suc a) n

hours_loop_lem :
    (fuel a b : ℕ)
    → suc b - a < fuel
    → hours_loop fuel (a * 3600000000) (b * 3600000000) ≡ some (hours_from a (suc b - a))
unfolding hours_loop hours_from
hours_loop_lem zero a b h = absurd (omega arith)
hours_loop_lem (suc fuel) a b h = elim (Bool-cases (leb (a * 3600000000) (b * 3600000000))) [
  | inl more ↦
      let le : a ≤ b = ground arith in
      let next : suc b - a ≡ suc (suc b - suc a) = omega arith in
      let ih = hours_loop_lem fuel (suc a) b (omega arith) in
      let step : a * 3600000000 + hour ≡ suc a * 3600000000 = omega arith in
      rw (more, step, ih, next) refl
  | inr over ↦ let gt : suc b - a ≡ 0 = ground arith in rw (over, gt) refl
]

-- With fuel for one turn per hour and two more, the loop ends, and its list is every full hour from the
-- hour of the start to the hour of the end, in order and each once; it is empty if the end is in an
-- earlier hour.
pub hours_between_complete :
    (fuel start end : ℕ)
    → end / 3600000000 + 2 ≤ fuel
    → hours_between fuel start end
      ≡ some (hours_from (start / 3600000000) (suc (end / 3600000000) - start / 3600000000))
unfolding hours_between
hours_between_complete fuel start end h =
    hours_loop_lem fuel (start / 3600000000) (end / 3600000000) (omega arith)
