-- ===== src/Options/Market.antt =====
-- services/options/market.py: enrichment of quotes, realized volatility and its rank.
pub mod Enrich
pub mod Rank
mod Tests
use agnostix_ai_quant_fund.Prelude.{
  ℕ, zero, suc, ◌+◌, ◌-◌, Bool, true, false, Option, none, some, List, [], ◌∷◌, map, length, take,
  drop, leb, ltb, if◌then◌else◌,
}
use agnostix_ai_quant_fund.Prelude.Outcome.{Outcome, returns, ◌>>=◌}
use agnostix_ai_quant_fund.Number.{Float, ◌⊖◌, ◌⊗◌, ◌⊘◌, nought, max_float}
use agnostix_ai_quant_fund.Options.{OptionType, Greeks, OptionQuote}
use agnostix_ai_quant_fund.Options.Quotes.{mid}
use agnostix_ai_quant_fund.Options.Pricing.{greeks, implied_volatility}
use agnostix_ai_quant_fund.Options.Iv.{positives, iv_percentile}

module _ {W : Type 0} ⦃num : Float W⦄ where
  -- `(expiration - now).total_seconds()` of two times in microseconds
  unfoldable pub seconds_until : ℕ → ℕ → W
  seconds_until expiration now =
      if leb now expiration
      then num.decimal (expiration - now) 6
      else num.neg (num.decimal (now - expiration) 6)

  -- `_tte`
  unfoldable pub tte : ℕ → ℕ → W
  tte expiration now =
      max_float (seconds_until expiration now ⊘ (num.decimal 365 0 ⊗ num.decimal 86400 0))
        (num.decimal 1 6)

  -- `x or y` of two optional floats
  abbrev pub or_else : Option W → Option W → Option W
  or_else none y = y
  or_else (some x) y = if num.eq x nought then y else some x

  abbrev pub first_of : Option W → W → W
  first_of none d = d
  first_of (some x) d = x

  -- the volatility backed out of a price, or the one that the quote has
  implied_or : Option W → Option W → W → W → W → W → OptionType → Outcome (Option W)
  implied_or none iv spot strike t rate type = returns iv
  implied_or (some price) iv spot strike t rate type =
      if num.lt nought price
      then (do
        found ← implied_volatility price spot strike t rate type (num.decimal 1 4) (num.decimal 5 0)
        returns (or_else found iv))
      else returns iv

  -- the quote with its volatility and the Greeks that it lacks
  unfoldable pub fill : OptionQuote W → W → Greeks W → OptionQuote W
  fill q iv g = record q {
    implied_volatility = some iv;
    delta = some (first_of q.delta g.delta);
    gamma = some (first_of q.gamma g.gamma);
    theta = some (first_of q.theta g.theta);
    vega = some (first_of q.vega g.vega);
  }

  filled : OptionQuote W → W → W → W → W → OptionType → Option W → Outcome (OptionQuote W)
  filled q spot strike t rate type none = returns q
  filled q spot strike t rate type (some iv) =
      if num.lt nought iv
      then (do g ← greeks spot strike t rate iv type; returns (fill q iv g))
      else returns q

  pub enrich_quote : ℕ → OptionQuote W → W → W → ℕ → OptionType → W → Outcome (OptionQuote W)
  enrich_quote now q spot strike expiration type rate = do
    iv ← implied_or (mid q) q.implied_volatility spot strike (tte expiration now) rate type
    filled q spot strike (tte expiration now) rate type iv

  -- `[math.log(recent[i] / recent[i - 1]) for i in range(1, len(recent))]`
  abbrev log_returns : List W → List W
  log_returns [] = []
  log_returns (x ∷ []) = []
  log_returns (x ∷ y ∷ ys) = num.log (y ⊘ x) ∷ log_returns (y ∷ ys)

  -- the annualized deviation of a series of returns
  annualized : List W → ℕ → Option W
  annualized changes periods =
      let n = length changes in
      let mean = num.sum changes ⊘ num.decimal n 0 in
      let squares = map (λ r. (r ⊖ mean) ⊗ (r ⊖ mean)) changes in
      let variance = num.sum squares ⊘ num.decimal (n - 1) 0 in
      if ltb n 2 then none else some (num.sqrt variance ⊗ num.sqrt (num.decimal periods 0))

  pub realized_volatility : List W → ℕ → ℕ → Option W
  realized_volatility closes window periods =
      let usable = positives closes in
      let width = Prim.Native.Nat.min window (length usable - 1) in
      let recent = drop (length usable - (width + 1)) usable in
      if ltb (length usable) (window + 1) then none else annualized (log_returns recent) periods

  -- the series of the rolling volatilities, for the offsets from `offset` on
  rolling : List W → ℕ → ℕ → ℕ → ℕ → List W
  rolling closes window periods zero offset = []
  rolling closes window periods (suc rounds) offset =
      let rest = rolling closes window periods rounds (offset + 1) in
      let rv = realized_volatility (take (length closes - offset) closes) window periods in
      elim rv [ none ↦ rest | some v ↦ if num.lt nought v then v ∷ rest else rest ]

  pub volatility_rank : Option W → List W → ℕ → ℕ → ℕ → Option W
  volatility_rank none closes window periods history_windows = none
  volatility_rank (some current) closes window periods history_windows =
      let usable = positives closes in
      let rounds = Prim.Native.Nat.min history_windows (length usable - window) in
      let series = rolling usable window periods rounds 0 in
      if num.le current nought
      then none
      else if ltb (length usable) (window + 2)
      then none
      else if ltb (length series) 5
      then none
      else iv_percentile (some current) (some series)
