-- ===== src/Crawl/Fresh.antt =====
-- Deduplication drops exactly what was seen.
use hype_coin_predictive_eng.Prelude.{
  ◌≡◌, inl, inr, refl, String, true, false, ◌||◌, List, [], ◌∷◌, ◌++◌, map, mem, mem-append,
  str_eq_refl, All, arith, subst⁻¹, Bool-cases,
}
use hype_coin_predictive_eng.Crawl.Fetch.{
  CrawlItem, Digest, item_hash, deduplicate_loop, deduplicate,
}

module _ (g : Digest) where
  -- No item of the list has a hash that was seen, or that an item before it has.
  abbrev pub IsFresh : List String → List CrawlItem → Type 0
  IsFresh seen [] = Unit
  IsFresh seen (i ∷ items) =
      (mem (item_hash g i) seen ≡ false) × IsFresh (seen ++ (item_hash g i ∷ [])) items

  abbrev pub IsKept : List String → List CrawlItem → CrawlItem → Type 0
  IsKept seen unique i =
      (mem (item_hash g i) seen || mem (item_hash g i) (map (item_hash g) unique)) ≡ true

  loop_IsFresh :
      (items : List CrawlItem) (seen : List String) → IsFresh seen (deduplicate_loop g items seen).0
  unfolding deduplicate_loop
  loop_IsFresh [] seen = tt
  loop_IsFresh (i ∷ items) seen = elim (Bool-cases (mem (item_hash g i) seen)) [
    | inl old ↦ rw old (loop_IsFresh items seen)
    | inr new ↦ rw new (new, loop_IsFresh items (seen ++ (item_hash g i ∷ [])))
  ]

  IsKept-skip :
      (seen : List String) (unique : List CrawlItem) (i : CrawlItem) (items : List CrawlItem)
      → All (IsKept (seen ++ (item_hash g i ∷ [])) unique) items
      → All (IsKept seen (i ∷ unique)) items
  unfolding mem
  IsKept-skip seen unique i [] h = tt
  IsKept-skip seen unique i (j ∷ items) h = (
    ground (arith, h.0, mem-append (item_hash g j) seen (item_hash g i ∷ [])),
    IsKept-skip seen unique i items h.1,
  )

  loop_old :
      (i : CrawlItem) (items : List CrawlItem) (seen : List String)
      → mem (item_hash g i) seen ≡ true
      → (deduplicate_loop g (i ∷ items) seen).0 ≡ (deduplicate_loop g items seen).0
  unfolding deduplicate_loop
  loop_old i items seen old = rw old refl

  loop_new :
      (i : CrawlItem) (items : List CrawlItem) (seen : List String)
      → mem (item_hash g i) seen ≡ false
      → (deduplicate_loop g (i ∷ items) seen).0
        ≡ i ∷ (deduplicate_loop g items (seen ++ (item_hash g i ∷ []))).0
  unfolding deduplicate_loop
  loop_new i items seen new = rw new refl

  IsKept-old :
      (seen : List String) (unique : List CrawlItem) (i : CrawlItem)
      → mem (item_hash g i) seen ≡ true
      → IsKept seen unique i
  IsKept-old seen unique i old = ground arith

  IsKept-new :
      (seen : List String) (unique : List CrawlItem) (i : CrawlItem) → IsKept seen (i ∷ unique) i
  unfolding mem
  IsKept-new seen unique i = ground (arith, str_eq_refl (item_hash g i))

  loop-IsKept :
      (items : List CrawlItem) (seen : List String)
      → All (IsKept seen (deduplicate_loop g items seen).0) items
  loop-IsKept [] seen = tt
  loop-IsKept (i ∷ items) seen = elim (Bool-cases (mem (item_hash g i) seen)) [
    | inl old ↦
        let unique = (deduplicate_loop g items seen).0 in
        subst⁻¹ (λ u. All (IsKept seen u) (i ∷ items)) (loop_old i items seen old)
          ((IsKept-old seen unique i old, loop-IsKept items seen))
    | inr new ↦
        let after = seen ++ (item_hash g i ∷ []) in
        let unique = (deduplicate_loop g items after).0 in
        subst⁻¹ (λ u. All (IsKept seen u) (i ∷ items)) (loop_new i items seen new)
          (IsKept-new seen unique i, IsKept-skip seen unique i items (loop-IsKept items after))
  ]

  -- What deduplication returns is new, each item by a hash of its own, and every item that it drops has
  -- a hash that was seen before or that an item it returns has.
  pub deduplicate-IsFresh :
      (items : List CrawlItem) (seen : List String)
      → let unique = (deduplicate g items seen).0 in
        IsFresh seen unique × All (IsKept seen unique) items
  unfolding deduplicate
  deduplicate-IsFresh items seen = (loop_IsFresh items seen, loop-IsKept items seen)
