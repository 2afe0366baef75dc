-- ===== src/Labels/Real.antt =====
-- An observed label is never replaced by a dense one.
use hype_coin_predictive_eng.Prelude.{
  ℕ, ◌≡◌, ◌∙◌, refl, inl, inr, Bool, true, false, not, ◌&&◌, Option, none, some, List, [], ◌∷◌, All,
  if◌then◌else◌, arith, Bool-cases,
}
use hype_coin_predictive_eng.Labels.Upsert.{
  Label, LabelType, is_dense, is_at, overwrite, upsert_label, find,
}

unfoldable pub upserts : List Label → List Label → List Label
unfolding upsert_label
upserts [] l = l
upserts (n ∷ ns) l = upserts ns (upsert_label n l).1

-- What an upsert does to the row of a key: another key's row stays, its own is overwritten or made.
abbrev pub upserted : Label → Option Label → Option Label
upserted new none = some new
upserted new (some row) = some (overwrite new row)

upserted_real :
    (n : Label) (asset ts : ℕ) (type : LabelType) (row : Label) (l : List Label)
    → find asset ts type l ≡ some row
    → is_dense row.label_source ≡ false
    → is_dense n.label_source ≡ true
    → (if is_at asset ts type n then upserted n (find asset ts type l) else find asset ts type l)
      ≡ some row
upserted_real n asset ts type row l found real dense = rw found (ground (arith, real, dense))

is_at-overwrite :
    (new row : Label) (asset ts : ℕ) (type : LabelType)
    → is_at asset ts type (overwrite new row) ≡ is_at asset ts type row
is_at-overwrite new row asset ts type =
    elim (Bool-cases (is_dense new.label_source && not (is_dense row.label_source))) [
      | inl e ↦ rw e refl
      | inr e ↦ rw e refl
    ]

is_at_same :
    (new row : Label) (asset ts : ℕ) (type : LabelType)
    → is_at new.asset_id new.ts new.label_type row ≡ true
    → is_at asset ts type new ≡ is_at asset ts type row
is_at_same new row asset ts type same = ground arith

is_at_other :
    (new row : Label) (asset ts : ℕ) (type : LabelType)
    → is_at new.asset_id new.ts new.label_type row ≡ false
    → is_at asset ts type row ≡ true
    → is_at asset ts type new ≡ false
is_at_other new row asset ts type other here = ground arith

if_upserted :
    (b : Bool) (new row : Label) (o : Option Label)
    → (if b then some (overwrite new row) else o)
      ≡ (if b then upserted new (if b then some row else o) else if b then some row else o)
if_upserted true new row o = refl
if_upserted false new row o = refl

if_other :
    (b c : Bool) (new row : Label) (o : Option Label)
    → (b ≡ true → c ≡ false)
    → (if b then some row else if c then upserted new o else o)
      ≡ (if c then upserted new (if b then some row else o) else if b then some row else o)
if_other true c new row o h = rw (h refl) refl
if_other false c new row o h = refl

find-upsert_label :
    (new : Label) (asset ts : ℕ) (type : LabelType) (l : List Label)
    → find asset ts type (upsert_label new l).1 ≡ (
        if is_at asset ts type new
        then upserted new (find asset ts type l)
        else find asset ts type l)
unfolding find upsert_label
find-upsert_label new asset ts type [] = ground arith
find-upsert_label new asset ts type (row ∷ l) =
    elim (Bool-cases (is_at new.asset_id new.ts new.label_type row)) [
      | inl same ↦
          rw (same, is_at-overwrite new row asset ts type, is_at_same new row asset ts type same)
            (if_upserted (is_at asset ts type row) new row (find asset ts type l))
      | inr other ↦
          rw (other, find-upsert_label new asset ts type l)
            (if_other (is_at asset ts type row) (is_at asset ts type new) new row
              (find asset ts type l) (is_at_other new row asset ts type other))
    ]

-- Whatever is upserted afterwards with dense sources, at whichever keys, an observed label stays the
-- row of its key as it is.
pub upserts_dense :
    (ns : List Label) (asset ts : ℕ) (type : LabelType) (row : Label) (l : List Label)
    → find asset ts type l ≡ some row
    → is_dense row.label_source ≡ false
    → All (λ n. is_dense n.label_source ≡ true) ns
    → find asset ts type (upserts ns l) ≡ some row
unfolding upserts
upserts_dense [] asset ts type row l found real dense = found
upserts_dense (n ∷ ns) asset ts type row l found real dense =
    upserts_dense ns asset ts type row (upsert_label n l).1
      (find-upsert_label n asset ts type l ∙ upserted_real n asset ts type row l found real dense.0)
      real dense.1
