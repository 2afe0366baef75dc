-- ===== src/Evm/Oriented.antt =====
-- The order of a pair's addresses does not matter if one side is stable.
use hype_coin_predictive_eng.Prelude.{
  ℕ, ◌≡◌, ◌∙◌, ap, refl, inl, inr, true, false, not, some, [], ◌∷◌, arith, Bool-cases,
}
use hype_coin_predictive_eng.Float.{Float}
use hype_coin_predictive_eng.Mempool.Watch.{Text, text_eq}
use hype_coin_predictive_eng.Evm.Node.{Node, Texts, Parsed, token_decimals, get_reserves}
use hype_coin_predictive_eng.Evm.Store.{
  Sides, Rows, is_stable, orient, base_of, quote_of, reserve_usd, with_reserves, with_symbols,
}

text_eq_refl : (a : Text) → text_eq a a ≡ true
text_eq_refl [] = refl
text_eq_refl (c ∷ cs) = ground (arith, text_eq_refl cs)

module _ (f : Float) (t : Texts) where
  open f use {Carrier}

  -- The log of the same pair with its tokens in the other order.
  abbrev pub swapped : Parsed → Parsed
  swapped q = record q { token0 = q.token1; token1 = q.token0 }

  -- If one side is stable, the roles are the same for either order, and so are the reserves.
  orient_facts :
      (token0 token1 symbol0 symbol1 : Text) (r0 r1 : ℕ)
      → text_eq token0 token1 ≡ false
      → text_eq token1 token0 ≡ false
      → is_stable f t symbol1 ≡ not (is_stable f t symbol0)
      → let s = orient f t token0 token1 symbol0 symbol1 in
        (orient f t token1 token0 symbol1 symbol0 ≡ s)
        × (base_of f t (text_eq s.base token1) (r1, r0)
            ≡ base_of f t (text_eq s.base token0) (r0, r1))
        × (quote_of f t (text_eq s.base token1) (r1, r0)
            ≡ quote_of f t (text_eq s.base token0) (r0, r1))
  unfolding orient
  orient_facts token0 token1 symbol0 symbol1 r0 r1 apart apart' one =
      elim (Bool-cases (is_stable f t symbol0)) [
        | inl first ↦
            let second : is_stable f t symbol1 ≡ false = one ∙ ap not first in
            rw (first, second, text_eq_refl token1, apart') (refl, refl, refl)
        | inr first ↦
            let second : is_stable f t symbol1 ≡ true = one ∙ ap not first in
            rw (first, second, text_eq_refl token0, apart) (refl, refl, refl)
      ]

  reserve_usd_same :
      (n n' : Node) (s : Sides) (reserve : ℕ)
      → ((a : Text) → token_decimals n' a ≡ token_decimals n a)
      → reserve_usd f t n' s reserve ≡ reserve_usd f t n s reserve
  unfolding reserve_usd
  reserve_usd_same n n' s reserve same = rw (same s.quote) refl

  -- A pair of a stable token and another is stored in the same way whichever of the two has the lower
  -- address: if the node gives the same decimals, and the reserves in the order of the tokens, then the
  -- rows after the log are the same for either order.
  pub with_symbols-swapped :
      (n n' : Node) (q : Parsed) (ts r0 r1 : ℕ) (symbol0 symbol1 : Text) (x : Rows Carrier)
      → text_eq q.token0 q.token1 ≡ false
      → text_eq q.token1 q.token0 ≡ false
      → is_stable f t symbol1 ≡ not (is_stable f t symbol0)
      → get_reserves n q.pair ≡ some (some (r0, r1))
      → get_reserves n' q.pair ≡ some (some (r1, r0))
      → ((a : Text) → token_decimals n' a ≡ token_decimals n a)
      → with_symbols f t n' (swapped q) ts (some symbol1) (some symbol0) x
        ≡ with_symbols f t n q ts (some symbol0) (some symbol1) x
  unfolding with_symbols with_reserves
  with_symbols-swapped n n' q ts r0 r1 symbol0 symbol1 x apart apart' one reserves reserves' same =
      let s = orient f t q.token0 q.token1 symbol0 symbol1 in
      let (sides, base, quote) =
        orient_facts q.token0 q.token1 symbol0 symbol1 r0 r1 apart apart' one in
      let usd = reserve_usd_same n n' s (quote_of f t (text_eq s.base q.token0) (r0, r1)) same in
      rw (sides, reserves, reserves', base, quote, usd) refl
