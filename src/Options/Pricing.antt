-- ===== src/Options/Pricing.antt =====
-- services/options/pricing.py: Black-Scholes-Merton prices, Greeks and implied volatility.
pub mod Bisection
mod Tests
use agnostix_ai_quant_fund.Prelude.{
  ℕ, zero, suc, Bool, true, false, ◌||◌, Option, none, some, if◌then◌else◌,
}
use agnostix_ai_quant_fund.Prelude.Outcome.{Outcome, returns, raises, ◌>>=◌}
use agnostix_ai_quant_fund.Number.{
  Float, ◌⊕◌, ◌⊖◌, ◌⊗◌, ◌⊘◌, nought, one, max_float, divide, math_exp, math_log, math_sqrt,
}
use agnostix_ai_quant_fund.Options.{OptionType, call, put, Greeks}

abbrev pub is_call : OptionType → Bool
is_call call = true
is_call put = false

-- `_IV_MAX_ITER`
abbrev pub iv_max_iter : ℕ
iv_max_iter = 200

-- what a round of the loop of `implied_volatility` gives: the result, or the next bounds
data Round (W : Type 0) : Type 0 where
  done : W → Round W
  more : W → W → Round W

module _ {W : Type 0} ⦃num : Float W⦄ where
  abbrev pub two : W
  two = num.decimal 2 0

  abbrev pub half : W
  half = num.decimal 5 1

  abbrev hundred : W
  hundred = num.decimal 100 0

  -- `_IV_EPS`
  abbrev pub iv_eps : W
  iv_eps = num.decimal 1 9

  unfoldable pub norm_pdf : W → Outcome W
  norm_pdf x = do
    e ← math_exp (num.neg half ⊗ x ⊗ x)
    root ← math_sqrt (two ⊗ num.pi)
    divide e root

  unfoldable pub norm_cdf : W → Outcome W
  norm_cdf x = do
    t ← divide one (one ⊕ num.decimal 2316419 7 ⊗ num.abs x)
    e ← math_exp (num.neg x ⊗ x ⊘ two)
    let phi = num.decimal 3989422804014327 16 ⊗ e
    let tail =
        phi
        ⊗ t
        ⊗ (num.decimal 319381530 9
            ⊕ t
              ⊗ (num.neg (num.decimal 356563782 9)
                  ⊕ t
                    ⊗ (num.decimal 1781477937 9
                        ⊕ t ⊗ (num.neg (num.decimal 1821255978 9) ⊕ t ⊗ num.decimal 1330274429 9))))
    returns (if num.le nought x then one ⊖ tail else tail)

  -- `_d1_d2`
  unfoldable pub d1_d2 : W → W → W → W → W → Outcome (W × W)
  d1_d2 spot strike tte rate vol =
      let tte' = if num.le tte nought then num.decimal 1 9 else tte in
      let vol' = if num.le vol nought then num.decimal 1 6 else vol in
      math_sqrt tte' >>= λ sqrt_t. divide spot strike >>= λ moneyness. math_log moneyness >>= λ l.
      divide (l ⊕ (rate ⊕ half ⊗ vol' ⊗ vol') ⊗ tte') (vol' ⊗ sqrt_t) >>= λ d1.
      returns (d1, d1 ⊖ vol' ⊗ sqrt_t)

  -- the guard that raises `ValueError`
  abbrev out_of_domain : W → W → W → Bool
  out_of_domain spot strike tte = num.le spot nought || num.le strike nought || num.lt tte nought

  -- the price before the expiry
  live_price : W → W → W → W → W → OptionType → Outcome W
  live_price spot strike tte rate vol type = d1_d2 spot strike tte rate vol >>= λ (d1, d2).
      math_exp (num.neg rate ⊗ tte) >>= λ discount.
      if is_call type
      then (norm_cdf d1 >>= λ a. norm_cdf d2 >>= λ b. returns (spot ⊗ a ⊖ strike ⊗ discount ⊗ b))
      else norm_cdf (num.neg d2) >>= λ b.
          norm_cdf (num.neg d1) >>= λ a. returns (strike ⊗ discount ⊗ b ⊖ spot ⊗ a)

  pub black_scholes : W → W → W → W → W → OptionType → Outcome W
  black_scholes spot strike tte rate vol type =
      if out_of_domain spot strike tte
      then raises "ValueError"
      else if num.eq tte nought
      then returns (
          if is_call type
          then max_float (spot ⊖ strike) nought
          else max_float (strike ⊖ spot) nought)
      else live_price spot strike tte rate vol type

  unfoldable pub live_greeks : W → W → W → W → W → OptionType → Outcome (Greeks W)
  live_greeks spot strike tte rate vol type =
      let sign = if is_call type then one else num.neg one in
      d1_d2 spot strike tte rate vol >>= λ (d1, d2). math_exp (num.neg rate ⊗ tte) >>= λ discount.
      norm_pdf d1 >>= λ pdf_d1. norm_cdf (sign ⊗ d1) >>= λ n1. math_sqrt tte >>= λ sqrt_t.
      divide pdf_d1 (spot ⊗ vol ⊗ sqrt_t) >>= λ gamma.
      divide (num.neg spot ⊗ pdf_d1 ⊗ vol) (two ⊗ sqrt_t) >>= λ decay.
      norm_cdf (sign ⊗ d2) >>= λ n2. returns record {
        delta = sign ⊗ n1;
        gamma = gamma;
        theta = (decay ⊖ sign ⊗ rate ⊗ strike ⊗ discount ⊗ n2) ⊘ num.decimal 365 0;
        vega = spot ⊗ pdf_d1 ⊗ sqrt_t ⊘ hundred;
        rho = sign ⊗ strike ⊗ tte ⊗ discount ⊗ n2 ⊘ hundred;
      }

  unfoldable pub greeks : W → W → W → W → W → OptionType → Outcome (Greeks W)
  greeks spot strike tte rate vol type =
      if out_of_domain spot strike tte
      then raises "ValueError"
      else if num.eq tte nought
      then (let flat : Outcome (Greeks W) = returns (record {
        delta = nought;
        gamma = nought;
        theta = nought;
        vega = nought;
        rho = nought;
      }) in
          flat)
      else live_greeks spot strike tte rate vol type

  abbrev pub midpoint : W → W → W
  midpoint lo hi = half ⊗ (lo ⊕ hi)

  -- the half of the interval that holds the root
  narrow : W → W → W → W → W × W
  narrow price lo hi val = let m = midpoint lo hi in if num.lt price val then (lo, m) else (m, hi)

  narrow_enough : W × W → Round W
  narrow_enough (lo, hi) = if num.lt (hi ⊖ lo) iv_eps then done (midpoint lo hi) else more lo hi

  -- one round of the loop of `implied_volatility`
  round_of : W → W → W → W → Round W
  round_of price lo hi val =
      if num.lt (num.abs (val ⊖ price)) iv_eps
      then done (midpoint lo hi)
      else narrow_enough (narrow price lo hi val)

  -- `return` from the loop, or the rounds that are left
  abbrev continue : (W → W → Outcome W) → Round W → Outcome W
  continue rest (done v) = returns v
  continue rest (more lo hi) = rest lo hi

  -- the loop, with `price_at` for the price at a volatility and the rounds that are left
  bisect : (W → Outcome W) → W → ℕ → W → W → Outcome W
  bisect price_at price zero lo hi = returns (midpoint lo hi)
  bisect price_at price (suc rounds) lo hi = do
    val ← price_at (midpoint lo hi)
    continue (bisect price_at price rounds) (round_of price lo hi val)

  abbrev some_vol : W → Outcome (Option W)
  some_vol v = returns (some v)

  -- `implied_volatility` past its tests at both bounds, past that at the lower one, and past its
  -- first guard
  settle : (W → Outcome W) → W → W → W → Outcome (Option W)
  settle price_at price low high = do vol ← bisect price_at price iv_max_iter low high; some_vol vol

  search_high : (W → Outcome W) → W → W → W → Outcome (Option W)
  search_high price_at price low high = do
    at_high ← price_at high
    if num.lt at_high price then returns none else settle price_at price low high

  search : (W → Outcome W) → W → W → W → Outcome (Option W)
  search price_at price low high = do
    at_low ← price_at low
    if num.lt price at_low then returns none else search_high price_at price low high

  pub implied_volatility : W → W → W → W → W → OptionType → W → W → Outcome (Option W)
  implied_volatility price spot strike tte rate type low high =
      if num.le price nought || num.le spot nought || num.le strike nought || num.le tte nought
      then returns none
      else search (λ vol. black_scholes spot strike tte rate vol type) price low high
