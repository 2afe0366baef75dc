-- ===== src/Mempool/Cursor.antt =====
-- The cursor gives back the signatures that were written to it, where they fit its column.
use mathlib.Core.List.{map-append}
use hype_coin_predictive_eng.Prelude.{
  ℕ, ◌+◌, ◌*◌, ◌-◌, ◌≤◌, ◌<◌, if◌then◌else◌, length-append, length-drop, ◌≡◌, inl, inr, refl, true,
  false, Option, some, List, [], ◌∷◌, ◌++◌, ◌==◌, length, take, drop, drop_cons, take-append-drop,
  length-take, All-drop, map-drop, length-map, map, All, arith, Bool-cases, subst, sym, ◌∙◌, ap,
}
use hype_coin_predictive_eng.Mempool.Watch.{
  Text, text_eq, contains, is_empty, Signature, join, split, push_first, seen_of, ids_of,
  last_twenty, cursor_text, fits, write_cursor, set_watermark, new_signatures,
}

-- The text has no comma.
abbrev pub IsPlain : Text → Type 0
IsPlain t = All (λ c. c == b',' ≡ false) t

-- A text without a comma before a text that is split joins its first part.
abbrev prepend : Text → List Text → List Text
prepend [] ts = ts
prepend (c ∷ cs) ts = push_first c (prepend cs ts)

split-append : (t rest : Text) → IsPlain t → split (t ++ rest) ≡ prepend t (split rest)
unfolding split
split-append [] rest h = refl
split-append (c ∷ cs) rest h = rw (h.0, split-append cs rest h.1) refl

prepend_nil : (t : Text) (ts : List Text) → prepend t ([] ∷ ts) ≡ t ∷ ts
prepend_nil [] ts = refl
prepend_nil (c ∷ cs) ts = rw (prepend_nil cs ts) refl

split_plain : (t : Text) → IsPlain t → split t ≡ t ∷ []
unfolding split
split_plain [] h = refl
split_plain (c ∷ cs) h = rw (h.0, split_plain cs h.1) refl

pub split-join : (t : Text) (ts : List Text) → All IsPlain (t ∷ ts) → split (join (t ∷ ts)) ≡ t ∷ ts
unfolding join split
split-join t [] h = split_plain t h.0
split-join t (u ∷ ts) h =
    split-append t (b',' ∷ join (u ∷ ts)) h.0 ∙ rw (split-join u ts h.1) (prepend_nil t (u ∷ ts))

abbrev pub IsFilled : Text → Type 0
IsFilled t = is_empty t ≡ false

ids_of-IsFilled : (l : List Signature) → All IsFilled (ids_of l)
ids_of-IsFilled [] = tt
ids_of-IsFilled (s ∷ l) = elim (Bool-cases (is_empty s.signature)) [
  | inl empty ↦ rw empty (ids_of-IsFilled l)
  | inr full ↦ rw full (full, ids_of-IsFilled l)
]

seen_of-join :
    (t : Text) (ts : List Text)
    → All IsFilled (t ∷ ts)
    → All IsPlain (t ∷ ts)
    → seen_of (some (join (t ∷ ts))) ≡ t ∷ ts
unfolding join
seen_of-join [] ts full plain = cc
seen_of-join (c ∷ cs) [] full plain = split-join (c ∷ cs) [] plain
seen_of-join (c ∷ cs) (u ∷ ts) full plain = split-join (c ∷ cs) (u ∷ ts) plain

seen_of-write_cursor :
    (width : Option ℕ) (ids : List Text) (cursor : Option Text)
    → All IsFilled ids
    → All IsPlain ids
    → 0 < length ids
    → seen_of (write_cursor width ids cursor)
      ≡ (if fits width (cursor_text ids) then last_twenty ids else seen_of cursor)
seen_of-write_cursor width [] cursor full simple n = absurd (omega arith)
seen_of-write_cursor width (id ∷ ids) cursor full simple n =
    let k = length (id ∷ ids) - 20 in
    let (t, ts, same) = drop_cons k (id ∷ ids) (omega arith) in
    let full' = subst (All IsFilled) same (All-drop IsFilled k (id ∷ ids) full) in
    let plain' = subst (All IsPlain) same (All-drop IsPlain k (id ∷ ids) simple) in
    let read : seen_of (some (cursor_text (id ∷ ids))) ≡ last_twenty (id ∷ ids) =
      rw same (seen_of-join t ts full' plain') in
    elim (Bool-cases (fits width (cursor_text (id ∷ ids)))) [
      | inl fit ↦ rw fit read
      | inr long ↦ rw long refl
    ]

-- After a poll with signatures, none with a comma in it, the next poll reads back the last twenty of
-- those that are not empty if their text fits the column, and otherwise what it read back before.
pub seen_of-set_watermark :
    (width : Option ℕ) (l : List Signature) (cursor : Option Text)
    → All IsPlain (ids_of l)
    → 0 < length (ids_of l)
    → seen_of (set_watermark width l cursor)
      ≡ (if fits width (cursor_text (ids_of l)) then last_twenty (ids_of l) else seen_of cursor)
unfolding set_watermark
seen_of-set_watermark width l cursor plain some_ids =
    seen_of-write_cursor width (ids_of l) cursor (ids_of-IsFilled l) plain some_ids

-- Each text of a joined list counts with its comma, but for the last.
length-join_long :
    (t : Text) (ts : List Text)
    → All (λ u. 86 ≤ length u) (t ∷ ts)
    → 87 * length (t ∷ ts) ≤ length (join (t ∷ ts)) + 1
unfolding join
length-join_long t [] h = omega (arith, h.0)
length-join_long t (u ∷ ts) h =
    omega (arith, h.0, length-join_long u ts h.1, length-append t (b',' ∷ join (u ∷ ts)))

write_cursor_too_long :
    (ids : List Text) (cursor : Option Text)
    → 6 ≤ length ids
    → All (λ t. 86 ≤ length t) ids
    → write_cursor (some 512) ids cursor ≡ cursor
write_cursor_too_long [] cursor many long = refl
write_cursor_too_long (id ∷ ids) cursor many long =
    let k = length (id ∷ ids) - 20 in
    let (t, ts, same) = drop_cons k (id ∷ ids) (omega arith) in
    let long' =
      subst (All (λ u. 86 ≤ length u)) same (All-drop (λ u. 86 ≤ length u) k (id ∷ ids) long) in
    let kept : length (t ∷ ts) ≡ length (id ∷ ids) - k =
      sym (ap length same) ∙ length-drop k (id ∷ ids) in
    let wide = length-join_long t ts long' in
    let over : fits (some 512) (cursor_text (id ∷ ids)) ≡ false = rw same (ground arith) in
    rw over refl

-- On a column of 512 characters, a poll with six or more signatures, each of at least 86 characters,
-- leaves the cursor as it was.
pub set_watermark_too_long :
    (l : List Signature) (cursor : Option Text)
    → 6 ≤ length (ids_of l)
    → All (λ t. 86 ≤ length t) (ids_of l)
    → set_watermark (some 512) l cursor ≡ cursor
unfolding set_watermark
set_watermark_too_long l cursor many long = write_cursor_too_long (ids_of l) cursor many long

text_eq_refl : (t : Text) → text_eq t t ≡ true
text_eq_refl [] = refl
text_eq_refl (c ∷ cs) = ground (arith, text_eq_refl cs)

abbrev pub AllDistinct : List Text → Type 0
AllDistinct [] = Unit
AllDistinct (t ∷ ts) = (contains t ts ≡ false) × AllDistinct ts

contains-append_right :
    (t : Text) (xs ys : List Text) → contains t (xs ++ ys) ≡ false → contains t ys ≡ false
contains-append_right t [] ys h = h
contains-append_right t (x ∷ xs) ys h = contains-append_right t xs ys (ground arith)

abbrev signature_of : Signature → Text
signature_of s = s.signature

new_signatures-append :
    (front : List Signature) (b : Signature) (back : List Signature)
    → AllDistinct (map signature_of (front ++ (b ∷ back)))
    → All IsFilled (map signature_of (front ++ (b ∷ back)))
    → new_signatures (front ++ (b ∷ back)) (map signature_of (b ∷ back)) ≡ map signature_of front
unfolding new_signatures
new_signatures-append [] b back d full = ground (arith, text_eq_refl b.signature)
new_signatures-append (s ∷ front) b back d full =
    let apart : contains s.signature (map signature_of front ++ map signature_of (b ∷ back))
        ≡ false =
      rw (← map-append signature_of front (b ∷ back)) d.0 in
    let unseen =
      contains-append_right s.signature (map signature_of front) (map signature_of (b ∷ back))
        apart in
    let rest = new_signatures-append front b back d.1 full.1 in let first = full.0 in ground arith

ids_of_filled :
    (l : List Signature) → All IsFilled (map signature_of l) → ids_of l ≡ map signature_of l
ids_of_filled [] full = refl
ids_of_filled (s ∷ l) full = rw (full.0, ids_of_filled l full.1) refl

-- The cursor of such a poll, as signatures of the poll.
cursor_of_poll :
    (width : Option ℕ) (l : List Signature) (cursor : Option Text)
    → 0 < length l
    → fits width (cursor_text (ids_of l)) ≡ true
    → All IsFilled (map signature_of l)
    → All IsPlain (map signature_of l)
    → seen_of (set_watermark width l cursor) ≡ map signature_of (drop (length l - 20) l)
cursor_of_poll width l cursor n fit full plain =
    let ids : ids_of l ≡ map signature_of l = ids_of_filled l full in
    let len = length-map signature_of l in
    seen_of-set_watermark width l cursor (rw ids plain) (rw ids (omega arith))
    ∙ rw (fit, ids, len, map-drop signature_of (length l - 20) l) refl

-- A poll that is answered as the one before, by distinct signatures without a comma, newest first,
-- whose text fit the column, counts all but the twenty oldest as new, although none is.
pub new_signatures_repeated :
    (width : Option ℕ) (l : List Signature) (cursor : Option Text)
    → fits width (cursor_text (ids_of l)) ≡ true
    → AllDistinct (map signature_of l)
    → All IsFilled (map signature_of l)
    → All IsPlain (map signature_of l)
    → length (new_signatures l (seen_of (set_watermark width l cursor))) ≡ length l - 20
unfolding new_signatures
new_signatures_repeated width [] cursor fit d full plain = omega arith
new_signatures_repeated width (s ∷ l) cursor fit d full plain =
    let all = s ∷ l in
    let k = length all - 20 in
    let (b, back, same) = drop_cons k all (omega arith) in
    let whole : take k all ++ (b ∷ back) ≡ all = rw (← same) (take-append-drop k all) in
    let counted = new_signatures-append (take k all) b back (rw whole d) (rw whole full) in
    rw (cursor_of_poll width all cursor (omega arith) fit full plain, same)
      (ap length (rw whole at counted)
        ∙ length-map signature_of (take k all)
        ∙ length-take k all (omega arith))
