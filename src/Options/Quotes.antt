-- ===== src/Options/Quotes.antt =====
-- services/options/strategies.py: how a builder reads, orders and picks quotes. The clock and the
-- hex digits of `uuid4` are read once, as `Env`.
use Prim.Native.String.{String}
use agnostix_ai_quant_fund.Prelude.{
  ℕ, suc, ◌-◌, ◌/◌, Bool, true, false, ◌&&◌, Option, none, some, List, [], ◌∷◌, filter, is_some,
  ltb, ◌==◌, if◌then◌else◌,
}
use agnostix_ai_quant_fund.Prelude.Int.{ℤ, pos, negsuc}
use agnostix_ai_quant_fund.Prelude.Text.{str_eq}
use agnostix_ai_quant_fund.Prelude.Outcome.{Outcome, returns, raises, ◌>>=◌}
use agnostix_ai_quant_fund.Number.{
  Float, square, ◌⊕◌, ◌⊖◌, ◌⊗◌, ◌⊘◌, nought, one, max_float, min_float, or_zero,
}
use agnostix_ai_quant_fund.Options.{OptionType, OptionSide, OptionContract, OptionQuote, OptionLeg}
use agnostix_ai_quant_fund.Options.Sorting.{sorted}

-- `now` in microseconds, and the digits of a fresh identifier
pub record Env : Type 0 where
  pub now : ℕ
  pub fresh : String

-- a whole day in microseconds
abbrev pub day : ℕ
day = 86_400_000_000

-- `max(0, (expiration - now).days)`
unfoldable pub days_until : ℕ → ℕ → ℕ
days_until expiration now = (expiration - now) / day

-- the constraint on the quantity of an `OptionLeg`
unfoldable pub positive : ℤ → Outcome ℕ
positive (pos n) = if ltb 0 n then returns n else raises "ValidationError"
positive (negsuc n) = raises "ValidationError"

module _ {ℓ} {A : Type ℓ} where
  -- equality of two values that may be `None`
  abbrev pub option_eq : (A → A → Bool) → Option A → Option A → Bool
  option_eq eq none none = true
  option_eq eq (some a) (some b) = eq a b
  option_eq eq _ _ = false

module _ {W : Type 0} ⦃num : Float W⦄ where
  -- the generated `==` of the model class, field by field
  unfoldable pub quote_eq : OptionQuote W → OptionQuote W → Bool
  quote_eq q r =
      num.eq q.strike r.strike
      && str_eq q.symbol r.symbol
      && option_eq num.eq q.bid r.bid
      && option_eq num.eq q.ask r.ask
      && option_eq num.eq q.last r.last
      && option_eq num.eq q.implied_volatility r.implied_volatility
      && option_eq num.eq q.delta r.delta
      && option_eq num.eq q.gamma r.gamma
      && option_eq num.eq q.theta r.theta
      && option_eq num.eq q.vega r.vega
      && option_eq ◌==◌ q.open_interest r.open_interest
      && option_eq ◌==◌ q.volume r.volume

  -- `xs.index(q)`
  unfoldable pub index : OptionQuote W → List (OptionQuote W) → Outcome ℕ
  index q [] = raises "ValueError"
  index q (x ∷ xs) =
      let later : Outcome ℕ = index q xs in
      if quote_eq x q then returns 0 else (do i ← later; returns (suc i))

  -- `_mid`
  abbrev pub mid_of : Option W → Option W → Option W → Option W
  mid_of (some bid) (some ask) last = some ((bid ⊕ ask) ⊘ num.decimal 2 0)
  mid_of _ _ last = last

  unfoldable pub mid : OptionQuote W → Option W
  mid q = mid_of q.bid q.ask q.last

  -- `_sort_puts` and `_sort_calls`
  unfoldable pub sort_quotes : List (OptionQuote W) → List (OptionQuote W)
  sort_quotes = sorted (λ q. q.strike)

  -- the key of `_pick_by_delta`
  unfoldable pub distance : W → OptionQuote W → Outcome W
  distance target q = square (num.abs (or_zero q.delta) ⊖ target)

  -- the quotes with their keys, which `sorted` computes before it compares
  unfoldable pub keyed : W → List (OptionQuote W) → Outcome (List (W × OptionQuote W))
  keyed target [] = returns []
  keyed target (q ∷ qs) =
      distance target q >>= λ key. keyed target qs >>= λ rest. returns ((key, q) ∷ rest)

  -- the quote of the first key
  abbrev pub first_quote : List (W × OptionQuote W) → Option (OptionQuote W)
  first_quote [] = none
  first_quote ((key, q) ∷ rest) = some q

  -- `_pick_by_delta`; its argument `sell` is not used by the code
  unfoldable pub pick_by_delta : List (OptionQuote W) → W → Outcome (Option (OptionQuote W))
  pick_by_delta quotes target = keyed target (filter (λ q. is_some q.delta) quotes) >>= λ keys.
      returns (first_quote (sorted (λ p. p.0) keys))

  unfoldable pub contract_of : OptionQuote W → String → OptionType → ℕ → OptionContract W
  contract_of q underlying type expiration = record {
    symbol = q.symbol;
    underlying = underlying;
    option_type = type;
    strike = q.strike;
    expiration = expiration;
    root = none;
  }

  -- an `OptionLeg` of a quantity that is `positive`; the strike of a quote is already validated
  unfoldable pub leg_of : OptionQuote W → String → OptionType → ℕ → OptionSide → ℕ → W → OptionLeg W
  leg_of q underlying type expiration side quantity price = record {
    contract = contract_of q underlying type expiration;
    side = side;
    quantity = quantity;
    limit_price = none;
    theoretical = some price;
    delta = q.delta;
  }

  -- `x * 100.0 * quantity`
  abbrev pub per_contract : W → ℕ → W
  per_contract x quantity = x ⊗ num.decimal 100 0 ⊗ num.decimal quantity 0

  abbrev pub delta_or : OptionQuote W → W → W
  delta_or q d = elim q.delta [ none ↦ d | some x ↦ x ]

  abbrev pub abs_delta_or : OptionQuote W → W → W
  abs_delta_or q d = elim q.delta [ none ↦ d | some x ↦ num.abs x ]

  -- `round(max(0.0, min(1.0, pop)), 4)`
  abbrev pub as_probability : W → W
  as_probability pop = num.round (max_float nought (min_float one pop)) 4
