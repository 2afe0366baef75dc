-- ===== src/Prelude/Defs.antt =====
-- Python dictionaries and sets keyed by text, in insertion order.
use Prim.Native.String.{String}
use mathlib.Core.Path.{◌≡◌, refl}
use mathlib.Core.Logic.{◌≢◌}
use mathlib.Core.Bool.{Bool, true, false, ◌||◌}
use mathlib.Core.Option.{Option, none, some}
use mathlib.Core.List.{List, [], ◌∷◌, ◌++◌}
use native.Mathlib.Omega.{arith}
use text.Mathlib.Text.{◌==◌ as text_eq}
use text.Mathlib.TextEquality.{eq_iff}
use text.Mathlib.TextPositions.{eq_refl}
use hype_coin_predictive_eng.Prelude.Tests.{if◌then◌else◌}

abbrev pub str_eq : String → String → Bool
str_eq = text_eq

pub str_eq_refl : (a : String) → str_eq a a ≡ true
str_eq_refl a = eq_refl a

pub str_eq→≡ : (a b : String) → str_eq a b ≡ true → a ≡ b
str_eq→≡ a b h = (eq_iff a b).0 h

pub str_ne : (a b : String) → a ≢ b → str_eq a b ≡ false
str_ne a b h = ground (arith, eq_iff a b)

abbrev pub Dict {ℓ} : Type ℓ → Type ℓ
Dict V = List (String × V)

module _ {ℓ} {V : Type ℓ} where
  -- `d.get(k)`
  unfoldable pub lookup : String → Dict V → Option V
  lookup k [] = none
  lookup k ((j, v) ∷ d) = if str_eq j k then some v else lookup k d

  -- `d[k] = v`
  unfoldable pub insert : String → V → Dict V → Dict V
  insert k v [] = (k, v) ∷ []
  insert k v ((j, w) ∷ d) = if str_eq j k then (k, v) ∷ d else (j, w) ∷ insert k v d

  -- `d.pop(k, None)`: every binding of the key goes.
  unfoldable pub erase : String → Dict V → Dict V
  erase k [] = []
  erase k ((j, w) ∷ d) = let rest = erase k d in if str_eq j k then rest else (j, w) ∷ rest

  -- `d.get(k, default)`
  abbrev pub get_or : String → V → Dict V → V
  get_or k v d = elim (lookup k d) [ none ↦ v | some w ↦ w ]

  pub get_or-some : (k : String) (v w : V) (d : Dict V) → lookup k d ≡ some w → get_or k v d ≡ w
  get_or-some k v w d e = ground arith

  pub get_or-none : (k : String) (v : V) (d : Dict V) → lookup k d ≡ none → get_or k v d ≡ v
  get_or-none k v d e = ground arith

  -- `d.setdefault(k, v)`
  abbrev pub setdefault : String → V → Dict V → Dict V
  setdefault k v d = elim (lookup k d) [ none ↦ insert k v d | some _ ↦ d ]

  pub lookup-insert :
      (k j : String) (v : V) (d : Dict V)
      → lookup j (insert k v d) ≡ (if str_eq k j then some v else lookup j d)
  unfolding lookup insert
  lookup-insert k j v [] = refl
  lookup-insert k j v ((i, w) ∷ d) =
      ground (arith, eq_iff k j, eq_iff i k, eq_iff i j, lookup-insert k j v d)

  pub lookup-insert_self : (k : String) (v : V) (d : Dict V) → lookup k (insert k v d) ≡ some v
  lookup-insert_self k v d = simp (lookup-insert, str_eq_refl)

  pub lookup-insert_ne :
      (k j : String) (v : V) (d : Dict V) → k ≢ j → lookup j (insert k v d) ≡ lookup j d
  lookup-insert_ne k j v d h = simp (lookup-insert, str_ne k j h)

  pub lookup-erase :
      (k j : String) (d : Dict V) → lookup j (erase k d) ≡ (if str_eq k j then none else lookup j d)
  unfolding lookup erase
  lookup-erase k j [] = ground arith
  lookup-erase k j ((i, w) ∷ d) =
      ground (arith, eq_iff k j, eq_iff i k, eq_iff i j, lookup-erase k j d)

  pub lookup-erase_self : (k : String) (d : Dict V) → lookup k (erase k d) ≡ none
  lookup-erase_self k d = simp (lookup-erase, str_eq_refl)

  pub lookup-erase_ne : (k j : String) (d : Dict V) → k ≢ j → lookup j (erase k d) ≡ lookup j d
  lookup-erase_ne k j d h = simp (lookup-erase, str_ne k j h)

-- `k in s` for a set or list of texts
unfoldable pub mem : String → List String → Bool
mem k [] = false
mem k (j ∷ s) = str_eq j k || mem k s

-- `s.add(k)`
unfoldable pub add : String → List String → List String
add k s = if mem k s then s else s ++ (k ∷ [])

-- `s.discard(k)`
unfoldable pub discard : String → List String → List String
discard k [] = []
discard k (j ∷ s) = let rest = discard k s in if str_eq j k then rest else j ∷ rest

pub mem-append : (k : String) (s t : List String) → mem k (s ++ t) ≡ (mem k s || mem k t)
unfolding mem
mem-append k [] t = refl
mem-append k (j ∷ s) t = ground (arith, mem-append k s t)

pub mem-add : (k j : String) (s : List String) → mem j (add k s) ≡ (str_eq k j || mem j s)
unfolding add mem
mem-add k j s = ground (arith, mem-append j s (k ∷ []), eq_iff k j)

pub mem-discard :
    (k j : String) (s : List String) → mem j (discard k s) ≡ (if str_eq k j then false else mem j s)
unfolding discard mem
mem-discard k j [] = ground arith
mem-discard k j (i ∷ s) = ground (arith, eq_iff k j, eq_iff i k, eq_iff i j, mem-discard k j s)
