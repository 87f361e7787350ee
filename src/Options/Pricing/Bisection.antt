-- ===== src/Options/Pricing/Bisection.antt =====
-- The bounds of the bisection of `implied_volatility` (services/options/pricing.py).
use mathlib.Core.Option.{some-injective}
use agnostix_ai_quant_fund.Prelude.{
  ℕ, zero, suc, ◌≡◌, inl, inr, Bool, true, false, Option, none, some, Bool-cases, if◌then◌else◌,
}
use agnostix_ai_quant_fund.Prelude.Outcome.{Outcome, returns, >>=-eq-returns, returns-injective}
use agnostix_ai_quant_fund.Number.{Float, ◌≼◌, ◌⊖◌}
use agnostix_ai_quant_fund.Number.Order.{IsOrdered}
use agnostix_ai_quant_fund.Options.{OptionType}
use agnostix_ai_quant_fund.Options.Pricing.{
  Round, done, more, midpoint, iv_eps, iv_max_iter, narrow, narrow_enough, round_of, continue,
  bisect, some_vol, settle, search_high, search, black_scholes, implied_volatility,
}

-- half the sum of two numbers lies between them, as in doubles whose sum does not overflow
pub record HasMidpoints (W : Type 0) ⦃num : Float W⦄ : Type 0 where
  pub between : (lo hi : W) → lo ≼ hi → (lo ≼ midpoint lo hi) × (midpoint lo hi ≼ hi)

module _ {W : Type 0} ⦃num : Float W⦄ (laws : IsOrdered W) (mids : HasMidpoints W) where
  abbrev Within : W → W → W → Type 0
  Within lo hi v = (lo ≼ v) × (v ≼ hi)

  abbrev RoundWithin : W → W → Round W → Type 0
  RoundWithin lo hi (done v) = Within lo hi v
  RoundWithin lo hi (more lo' hi') = (lo ≼ lo') × (lo' ≼ hi') × (hi' ≼ hi)

  abbrev Inside : W → W → W × W → Type 0
  Inside lo hi (lo', hi') = (lo ≼ lo') × (lo' ≼ hi') × (hi' ≼ hi)

  narrow-Inside : (price lo hi val : W) → lo ≼ hi → Inside lo hi (narrow price lo hi val)
  unfolding narrow
  narrow-Inside price lo hi val h = elim (Bool-cases (num.lt price val)) [
    | inl t ↦ rw t (let (a, b) = mids.between lo hi h in (laws.le_refl lo, a, b))
    | inr t ↦ rw t (let (a, b) = mids.between lo hi h in (a, b, laws.le_refl hi))
  ]

  narrow_enough_within :
      (lo hi : W) (b : W × W) → Inside lo hi b → RoundWithin lo hi (narrow_enough b)
  unfolding narrow_enough
  narrow_enough_within lo hi (lo', hi') (l, m, h) = elim (Bool-cases (num.lt (hi' ⊖ lo') iv_eps)) [
    | inl t ↦
        let (a, b) = mids.between lo' hi' m in
        rw t (laws.le_trans _ _ _ l a, laws.le_trans _ _ _ b h)
    | inr t ↦ rw t (l, m, h)
  ]

  -- a round narrows the bounds, or ends inside them
  round_within : (price lo hi val : W) → lo ≼ hi → RoundWithin lo hi (round_of price lo hi val)
  unfolding round_of
  round_within price lo hi val h = elim (Bool-cases (num.lt (num.abs (val ⊖ price)) iv_eps)) [
    | inl t ↦ rw t (mids.between lo hi h)
    | inr t ↦
        rw t (narrow_enough_within lo hi (narrow price lo hi val) (narrow-Inside price lo hi val h))
  ]

  continue-Within :
      (rest : W → W → Outcome W) (lo hi : W) (r : Round W) {v : W}
      → RoundWithin lo hi r
      → ((lo' hi' w : W) → lo' ≼ hi' → rest lo' hi' ≡ returns w → Within lo' hi' w)
      → continue rest r ≡ returns v
      → Within lo hi v
  continue-Within rest lo hi (done w) inside ih e = rw (← returns-injective e) inside
  continue-Within rest lo hi (more lo' hi') (l, m, h) ih e =
      let (a, b) = ih lo' hi' _ m e in (laws.le_trans _ _ _ l a, laws.le_trans _ _ _ b h)

  bisect-Within :
      (price_at : W → Outcome W) (price : W) (rounds : ℕ) (lo hi v : W)
      → lo ≼ hi
      → bisect price_at price rounds lo hi ≡ returns v
      → Within lo hi v
  unfolding bisect
  bisect-Within price_at price zero lo hi v h e = rw (← returns-injective e) (mids.between lo hi h)
  bisect-Within price_at price (suc rounds) lo hi v h e =
      let (val, priced, rest) = >>=-eq-returns (price_at (midpoint lo hi)) _ e in
      continue-Within (bisect price_at price rounds) lo hi (round_of price lo hi val)
        (round_within price lo hi val h) (bisect-Within price_at price rounds) rest

  past_guard :
      (b : Bool) (m : Outcome (Option W)) {v : W}
      → (if b then returns none else m) ≡ returns (some v)
      → m ≡ returns (some v)
  past_guard true m e = cc
  past_guard false m e = e

  search-Within :
      (price_at : W → Outcome W) (price low high v : W)
      → low ≼ high
      → search price_at price low high ≡ returns (some v)
      → Within low high v
  unfolding search search_high settle
  search-Within price_at price low high v h e =
      let (at_low, p, r) = >>=-eq-returns (price_at low) _ e in
      let past_low : search_high price_at price low high ≡ returns (some v) =
        past_guard (num.lt price at_low) (search_high price_at price low high) r in
      let (at_high, q, s) = >>=-eq-returns (price_at high) _ past_low in
      let past_high : settle price_at price low high ≡ returns (some v) =
        past_guard (num.lt at_high price) (settle price_at price low high) s in
      let (vol, found, last) =
        >>=-eq-returns (bisect price_at price iv_max_iter low high) some_vol past_high in
      let same : vol ≡ v = some-injective _ _ (returns-injective last) in
      rw (← same) (bisect-Within price_at price iv_max_iter low high vol h found)

  -- Under the laws of order and of midpoints: a volatility that `implied_volatility` returns lies
  -- between the bounds `low` and `high` of its search, if these are in order.
  pub implied_volatility_within :
      (price spot strike tte rate : W) (type : OptionType) (low high : W) {v : W}
      → low ≼ high
      → implied_volatility price spot strike tte rate type low high ≡ returns (some v)
      → (low ≼ v) × (v ≼ high)
  unfolding implied_volatility
  implied_volatility_within price spot strike tte rate type low high {v} h e =
      search-Within (λ vol. black_scholes spot strike tte rate vol type) price low high v h
        (past_guard _ _ e)
