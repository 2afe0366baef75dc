-- ===== src/Replay/Split.antt =====
-- `chronological_split` of risk_engine/confidence_calibration.py. The whole part of
-- `len(ordered) * (1 - validation_fraction)` is an argument, and so is whether the fraction is allowed.
use hype_coin_predictive_eng.Prelude.{
  ℕ, zero, suc, ◌-◌, ◌≤◌, ◌<◌, ◌≡◌, inl, inr, refl, Bool, true, false, ◌&&◌, Option, none, some,
  List, [], ◌∷◌, ltb, leb, if◌then◌else◌, length, drop, filter, All, min, max, arith, Bool-cases,
  drop_cons,
}

-- The confidence and the risk score, which the split does not read, are left out.
pub record CalibrationSample : Type 0 where
  pub scored_at : ℕ
  pub evaluated_at : ℕ
  pub survived : Bool
  pub collapsed : Bool

-- Python's stable sort by the time of the score.
unfoldable pub insert_sample : CalibrationSample → List CalibrationSample → List CalibrationSample
insert_sample s [] = s ∷ []
insert_sample s (t ∷ ts) =
    let rest = insert_sample s ts in if leb s.scored_at t.scored_at then s ∷ t ∷ ts else t ∷ rest

unfoldable pub sorted : List CalibrationSample → List CalibrationSample
unfolding insert_sample
sorted [] = []
sorted (s ∷ ss) = insert_sample s (sorted ss)

pub data Split : Type 0 where
  bad_fraction : Split
  split : List CalibrationSample → List CalibrationSample → Option ℕ → Split

abbrev pub is_known : ℕ → CalibrationSample → Bool
is_known t s = ltb s.scored_at t && leb s.evaluated_at t

-- The split of the sorted rows at the one with the index.
unfoldable pub split_at : List CalibrationSample → List CalibrationSample → Split
split_at ordered [] = split [] [] none
split_at ordered (s ∷ ss) =
    split (filter (is_known s.scored_at) ordered)
      (filter (λ row. leb s.scored_at row.scored_at) ordered) (some s.scored_at)

unfoldable pub chronological_split : Bool → ℕ → List CalibrationSample → Split
unfolding sorted split_at
chronological_split allowed cut samples =
    let ordered = sorted samples in
    if allowed
    then (if ltb (length ordered) 2
        then split [] [] none
        else split_at ordered (drop (min (length ordered - 1) (max 1 cut)) ordered))
    else bad_fraction

length-insert_sample :
    (s : CalibrationSample) (l : List CalibrationSample)
    → length (insert_sample s l) ≡ suc (length l)
unfolding insert_sample
length-insert_sample s [] = refl
length-insert_sample s (t ∷ ts) = ground (arith, length-insert_sample s ts)

length-sorted : (l : List CalibrationSample) → length (sorted l) ≡ length l
unfolding sorted
length-sorted [] = refl
length-sorted (s ∷ ss) = omega (arith, length-insert_sample s (sorted ss), length-sorted ss)

-- No row has an earlier score than the one before it.
abbrev pub IsOrdered : List CalibrationSample → Type 0
IsOrdered [] = Unit
IsOrdered (s ∷ ss) = All (λ t. s.scored_at ≤ t.scored_at) ss × IsOrdered ss

All-insert_sample :
    (k : ℕ) (s : CalibrationSample) (l : List CalibrationSample)
    → k ≤ s.scored_at
    → All (λ t. k ≤ t.scored_at) l
    → All (λ t. k ≤ t.scored_at) (insert_sample s l)
unfolding insert_sample
All-insert_sample k s [] h hs = (h, tt)
All-insert_sample k s (t ∷ ts) h (a, hs) = elim (Bool-cases (leb s.scored_at t.scored_at)) [
  | inl before ↦ rw before (h, (a, hs))
  | inr later ↦ rw later (a, All-insert_sample k s ts h hs)
]

All-later :
    (j k : ℕ) (l : List CalibrationSample)
    → j ≤ k
    → All (λ t. k ≤ t.scored_at) l
    → All (λ t. j ≤ t.scored_at) l
All-later j k [] h hs = tt
All-later j k (t ∷ ts) h (a, hs) = (omega arith, All-later j k ts h hs)

insert_sample-IsOrdered :
    (s : CalibrationSample) (l : List CalibrationSample)
    → IsOrdered l
    → IsOrdered (insert_sample s l)
unfolding insert_sample
insert_sample-IsOrdered s [] h = (tt, tt)
insert_sample-IsOrdered s (t ∷ ts) (a, h) = elim (Bool-cases (leb s.scored_at t.scored_at)) [
  | inl before ↦
      let le : s.scored_at ≤ t.scored_at = ground arith in
      rw before ((le, All-later s.scored_at t.scored_at ts le a), (a, h))
  | inr later ↦
      rw later (All-insert_sample t.scored_at s ts (ground arith) a, insert_sample-IsOrdered s ts h)
]

sorted-IsOrdered : (l : List CalibrationSample) → IsOrdered (sorted l)
unfolding sorted
sorted-IsOrdered [] = tt
sorted-IsOrdered (s ∷ ss) = insert_sample-IsOrdered s (sorted ss) (sorted-IsOrdered ss)

-- Of a list with a tail whose rows all pass the test, at least the tail passes.
length-filter_tail :
    (p : CalibrationSample → Bool) (n : ℕ) (l : List CalibrationSample)
    → All (λ t. p t ≡ true) (drop n l)
    → length l - n ≤ length (filter p l)
length-filter_tail p n [] h = omega arith
length-filter_tail p zero (t ∷ ts) (a, h) =
    rw a (let ih = length-filter_tail p 0 ts h in omega arith)
length-filter_tail p (suc n) (t ∷ ts) h = let ih = length-filter_tail p n ts h in ground arith

drop-IsOrdered : (n : ℕ) (l : List CalibrationSample) → IsOrdered l → IsOrdered (drop n l)
drop-IsOrdered zero l h = h
drop-IsOrdered (suc n) [] h = tt
drop-IsOrdered (suc n) (t ∷ ts) (a, h) = drop-IsOrdered n ts h

All-tested :
    (k : ℕ) (l : List CalibrationSample)
    → All (λ t. k ≤ t.scored_at) l
    → All (λ t. leb k t.scored_at ≡ true) l
All-tested k [] h = tt
All-tested k (t ∷ ts) (a, h) = (ground arith, All-tested k ts h)

All-filter_later :
    (k : ℕ) (l : List CalibrationSample)
    → All (λ t. k ≤ t.scored_at) (filter (λ t. leb k t.scored_at) l)
All-filter_later k [] = tt
All-filter_later k (t ∷ ts) = elim (Bool-cases (leb k t.scored_at)) [
  | inl later ↦ rw later (ground arith, All-filter_later k ts)
  | inr early ↦ rw early (All-filter_later k ts)
]

All-filter_known :
    (k : ℕ) (l : List CalibrationSample)
    → All (λ t. (t.scored_at < k) × (t.evaluated_at ≤ k)) (filter (is_known k) l)
All-filter_known k [] = tt
All-filter_known k (t ∷ ts) = elim (Bool-cases (is_known k t)) [
  | inl known ↦ rw known ((ground arith, ground arith), All-filter_known k ts)
  | inr unknown ↦ rw unknown (All-filter_known k ts)
]

-- Two samples or more are split at some time: every training row was scored before that time and its
-- outcome was known by then, every validation row was scored at that time or later, and the validation
-- has at least the rows from the cut on, and so at least one.
pub chronological_split_no_leak :
    (cut : ℕ) (samples : List CalibrationSample)
    → 2 ≤ length samples
    → (t : ℕ) × (train : List CalibrationSample) × (validation : List CalibrationSample)
      × (chronological_split true cut samples ≡ split train validation (some t))
      × All (λ s. (s.scored_at < t) × (s.evaluated_at ≤ t)) train
      × All (λ s. t ≤ s.scored_at) validation
      × (length samples - min (length samples - 1) (max 1 cut) ≤ length validation)
      × (1 ≤ length validation)
unfolding chronological_split split_at
chronological_split_no_leak cut samples h =
    let ordered = sorted samples in
    let n = min (length ordered - 1) (max 1 cut) in
    let same = length-sorted samples in
    let (s, ss, at) = drop_cons n ordered (omega arith) in
    let tail = drop-IsOrdered n ordered (sorted-IsOrdered samples) in
    let later : All (λ t. s.scored_at ≤ t.scored_at) (drop n ordered) =
      rw at (omega arith, (rw at at tail).0) in
    let enough =
      length-filter_tail (λ t. leb s.scored_at t.scored_at) n ordered
        (All-tested s.scored_at (drop n ordered) later) in
    let two : ltb (length ordered) 2 ≡ false = ground arith in
    (
      s.scored_at,
      filter (is_known s.scored_at) ordered,
      filter (λ row. leb s.scored_at row.scored_at) ordered,
      rw (two, at) refl,
      All-filter_known s.scored_at ordered,
      All-filter_later s.scored_at ordered,
      omega arith,
      omega arith,
    )
