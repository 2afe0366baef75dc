-- ===== src/Replay/Guard.antt =====
-- validation/leakage_guard.py: the frozen decision time, the decorator that asks for it, and the check of
-- the rows. A guarded function does not raise by itself.
use hype_coin_predictive_eng.Prelude.{
  ℕ, suc, ◌≤◌, ◌≡◌, ◌↔◌, ◌⊎◌, inl, inr, refl, Option, none, some, List, [], ◌∷◌, ltb, ◌==◌,
  if◌then◌else◌, length, take, All, arith, Bool-cases,
}

-- A call of a guarded function: its arguments do not fit, or they bind `decision_ts`.
pub data Call : Type 0 where
  unbound : Call
  bound : Option ℕ → Call

pub data Reason : Type 0 where
  could_not_bind requires_decision_ts does_not_match : Reason

pub data Verdict : Type 0 where
  passed : Verdict
  violated : Reason → Verdict

-- The wrapper of `require_decision_ts`, with the frozen time.
unfoldable pub require_decision_ts : Option ℕ → Call → Verdict
require_decision_ts frozen unbound = violated could_not_bind
require_decision_ts frozen (bound none) = violated requires_decision_ts
require_decision_ts none (bound (some ts)) = passed
require_decision_ts (some t) (bound (some ts)) = if ts == t then passed else violated does_not_match

-- A feature build: guarded calls and `with frozen_decision_ts(...)` blocks, one after the other.
pub data Build : Type 0 where
  done : Build
  call : Call → Build → Build
  scope : ℕ → Build → Build → Build

-- What the build comes to, and the context variable after it. A block sets the variable and puts back
-- what it was, also if it is left by a violation.
unfoldable pub run : Build → Option ℕ → Verdict × Option ℕ
unfolding require_decision_ts
run done frozen = (passed, frozen)
run (call c rest) frozen = elim (require_decision_ts frozen c) [
  | passed ↦ run rest frozen
  | violated r ↦ (violated r, frozen)
]
run (scope ts inner rest) frozen = elim ((run inner (some ts)).0) [
  | passed ↦ run rest frozen
  | violated r ↦ (violated r, frozen)
]

-- A row has its time, if it has one. The offenders are the rows with a later time, by their number.
unfoldable pub offenders_from : ℕ → ℕ → List (Option ℕ) → List (ℕ × ℕ)
offenders_from index cutoff [] = []
offenders_from index cutoff (none ∷ rows) = offenders_from (suc index) cutoff rows
offenders_from index cutoff (some ts ∷ rows) =
    let rest = offenders_from (suc index) cutoff rows in
    if ltb cutoff ts then (index, ts) ∷ rest else rest

unfoldable pub checked_of : List (Option ℕ) → ℕ
checked_of [] = 0
checked_of (none ∷ rows) = checked_of rows
checked_of (some ts ∷ rows) = suc (checked_of rows)

-- The number of rows that were checked, or the violation: how many rows, and the first of them.
pub data Checked : Type 0 where
  checked : ℕ → Checked
  leaked : ℕ → List (ℕ × ℕ) → Checked

unfoldable pub check_rows_point_in_time : ℕ → ℕ → List (Option ℕ) → Checked
unfolding offenders_from checked_of
check_rows_point_in_time max_reported decision_ts rows = elim (offenders_from 0 decision_ts rows) [
  | [] ↦ checked (checked_of rows)
  | o ∷ os ↦ leaked (length (o ∷ os)) (take max_reported (o ∷ os))
]

-- Every call has a decision time, and inside of a block it is that of the innermost block.
abbrev pub IsLawful : Option ℕ → Build → Type 0
IsLawful frozen done = Unit
IsLawful frozen (call unbound rest) = ⊥
IsLawful frozen (call (bound none) rest) = ⊥
IsLawful none (call (bound (some ts)) rest) = IsLawful none rest
IsLawful (some t) (call (bound (some ts)) rest) = (ts ≡ t) × IsLawful (some t) rest
IsLawful frozen (scope ts inner rest) = IsLawful (some ts) inner × IsLawful frozen rest

Verdict-cases : (v : Verdict) → (v ≡ passed) ⊎ ((r : Reason) × (v ≡ violated r))
Verdict-cases passed = inl refl
Verdict-cases (violated r) = inr (r, refl)

-- A build passes the guard exactly if it is lawful.
run_passes :
    (b : Build) (frozen : Option ℕ)
    → ((run b frozen).0 ≡ passed → IsLawful frozen b)
      × (IsLawful frozen b → (run b frozen).0 ≡ passed)
unfolding run require_decision_ts
run_passes done frozen = ((λ h. tt), (λ h. refl))
run_passes (call unbound rest) frozen = ((λ h. cc), (λ h. absurd h))
run_passes (call (bound none) rest) frozen = ((λ h. cc), (λ h. absurd h))
run_passes (call (bound (some ts)) rest) none = run_passes rest none
run_passes (call (bound (some ts)) rest) (some t) =
    let (a, b) = run_passes rest (some t) in
    elim (Bool-cases (ts == t)) [
      | inl same ↦ rw (same, run) ((λ h. (ground arith, a h)), (λ h. b h.1))
      | inr other ↦ rw (other, run) ((λ h. absurd cc), (λ h. absurd (let e = h.0 in ground arith)))
    ]
run_passes (scope ts inner rest) frozen =
    let (a, b) = run_passes rest frozen in
    let (c, d) = run_passes inner (some ts) in
    elim (Verdict-cases (run inner (some ts)).0) [
      | inl ok ↦ rw (ok, run) ((λ h. (c ok, a h)), (λ h. b h.1))
      | inr (r, bad) ↦ rw (bad, run) ((λ h. absurd cc), (λ h. absurd (let e = d h.0 in cc)))
    ]

run_restores : (b : Build) (frozen : Option ℕ) → (run b frozen).1 ≡ frozen
unfolding run
run_restores done frozen = refl
run_restores (call c rest) frozen = elim (Verdict-cases (require_decision_ts frozen c)) [
  | inl ok ↦ rw (ok, run) (run_restores rest frozen)
  | inr (r, bad) ↦ rw (bad, run) refl
]
run_restores (scope ts inner rest) frozen = elim (Verdict-cases (run inner (some ts)).0) [
  | inl ok ↦ rw (ok, run) (run_restores rest frozen)
  | inr (r, bad) ↦ rw (bad, run) refl
]

-- A feature build, however its blocks are nested, passes the guard exactly if every guarded call has a
-- decision time that is the one of its innermost block, if there is one; and whether it passes or not,
-- the frozen time after it is the one before it.
pub run-IsLawful :
    (b : Build) (frozen : Option ℕ)
    → (((run b frozen).0 ≡ passed) ↔ IsLawful frozen b) × ((run b frozen).1 ≡ frozen)
run-IsLawful b frozen = (run_passes b frozen, run_restores b frozen)

-- The row has no time, or one that is not after the decision.
abbrev pub IsOnTime : ℕ → Option ℕ → Type 0
IsOnTime cutoff none = Unit
IsOnTime cutoff (some ts) = ts ≤ cutoff

offenders_from-IsOnTime :
    (index cutoff : ℕ) (rows : List (Option ℕ))
    → All (IsOnTime cutoff) rows
    → offenders_from index cutoff rows ≡ []
unfolding offenders_from
offenders_from-IsOnTime index cutoff [] h = refl
offenders_from-IsOnTime index cutoff (none ∷ rows) (h, hs) =
    offenders_from-IsOnTime (suc index) cutoff rows hs
offenders_from-IsOnTime index cutoff (some ts ∷ rows) (h, hs) =
    let rest = offenders_from-IsOnTime (suc index) cutoff rows hs in ground arith

IsOnTime-offenders_from :
    (index cutoff : ℕ) (rows : List (Option ℕ))
    → offenders_from index cutoff rows ≡ []
    → All (IsOnTime cutoff) rows
unfolding offenders_from
IsOnTime-offenders_from index cutoff [] e = tt
IsOnTime-offenders_from index cutoff (none ∷ rows) e =
    (tt, IsOnTime-offenders_from (suc index) cutoff rows e)
IsOnTime-offenders_from index cutoff (some ts ∷ rows) e = elim (Bool-cases (ltb cutoff ts)) [
  | inl late ↦
      let stuck : (index, ts) ∷ offenders_from (suc index) cutoff rows ≡ [] = rw late at e in
      absurd cc
  | inr early ↦
      let rest : offenders_from (suc index) cutoff rows ≡ [] = rw early at e in
      (ground arith, IsOnTime-offenders_from (suc index) cutoff rows rest)
]

offenders-cases : (l : List (ℕ × ℕ)) → (l ≡ []) ⊎ ((o : ℕ × ℕ) × (os : List (ℕ × ℕ)) × (l ≡ o ∷ os))
offenders-cases [] = inl refl
offenders-cases (o ∷ os) = inr (o, os, refl)

-- The check of the rows answers their number, without those that have no time, exactly if none of them is
-- later than the decision; otherwise it is a violation.
pub check_rows_point_in_time_exact :
    (max_reported decision_ts : ℕ) (rows : List (Option ℕ))
    → (check_rows_point_in_time max_reported decision_ts rows ≡ checked (checked_of rows))
      ↔ All (IsOnTime decision_ts) rows
unfolding check_rows_point_in_time
check_rows_point_in_time_exact max_reported decision_ts rows =
    elim (offenders-cases (offenders_from 0 decision_ts rows)) [
      | inl nothing ↦
          rw (nothing, check_rows_point_in_time)
            ((λ h. IsOnTime-offenders_from 0 decision_ts rows nothing), (λ h. refl))
      | inr (o, os, some_late) ↦
          rw (some_late, check_rows_point_in_time)
            (
              (λ h. absurd cc),
              (λ h. let e = offenders_from-IsOnTime 0 decision_ts rows h in absurd cc),
            )
    ]
