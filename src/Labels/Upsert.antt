-- ===== src/Labels/Upsert.antt =====
-- `upsert_label`. A source is the list of its code points.
use hype_coin_predictive_eng.Prelude.{
  ℕ, Bool, true, false, not, ◌&&◌, Option, none, some, List, [], ◌∷◌, ◌==◌, if◌then◌else◌,
}

abbrev pub Text : Type 0
Text = List ℕ

-- `text.startswith(prefix)`
unfoldable pub starts_with : Text → Text → Bool
starts_with text [] = true
starts_with [] (p ∷ prefix) = false
starts_with (c ∷ text) (p ∷ prefix) = c == p && starts_with text prefix

-- "dense-labels:"
abbrev pub dense_prefix : Text
dense_prefix =
    b'd' ∷ b'e' ∷ b'n' ∷ b's' ∷ b'e' ∷ b'-' ∷ b'l' ∷ b'a' ∷ b'b' ∷ b'e' ∷ b'l' ∷ b's' ∷ b':' ∷ []

abbrev pub is_dense : Text → Bool
is_dense source = starts_with source dense_prefix

pub data LabelType : Type 0 where
  ignition collapse : LabelType

abbrev pub code_of : LabelType → ℕ
code_of ignition = 0
code_of collapse = 1

abbrev pub same_type : LabelType → LabelType → Bool
same_type a b = code_of a == code_of b

-- A row of the labels; the value "1" is true.
pub record Label : Type 0 where
  pub asset_id : ℕ
  pub ts : ℕ
  pub label_type : LabelType
  pub label_value : Bool
  pub observed_at : ℕ
  pub label_source : Text

abbrev pub is_at : ℕ → ℕ → LabelType → Label → Bool
is_at asset ts type l = l.asset_id == asset && (l.ts == ts && same_type l.label_type type)

-- The row after the upsert of a new one.
abbrev pub overwrite : Label → Label → Label
overwrite new row =
    if is_dense new.label_source && not (is_dense row.label_source) then row else record row {
      label_value = new.label_value;
      observed_at = new.observed_at;
      label_source = new.label_source;
    }

-- Whether a row was added, and the rows.
unfoldable pub upsert_label : Label → List Label → Bool × List Label
unfolding starts_with
upsert_label new [] = (true, new ∷ [])
upsert_label new (row ∷ l) =
    let (added, l') = upsert_label new l in
    if is_at new.asset_id new.ts new.label_type row
    then (false, overwrite new row ∷ l)
    else (added, row ∷ l')

-- The row of an asset, a time and a type.
unfoldable pub find : ℕ → ℕ → LabelType → List Label → Option Label
find asset ts type [] = none
find asset ts type (row ∷ l) =
    let rest = find asset ts type l in if is_at asset ts type row then some row else rest
