-- ===== src/Options/Strategies/Probability.antt =====
-- The probability of profit that the put builders of services/options/strategies.py report. The
-- delta of a put is not positive, and they subtract it with its sign.
use Prim.Native.String.{String}
use agnostix_ai_quant_fund.Prelude.{
  ℕ, ◌≡◌, ap, ◌∙◌, true, Option, none, some, List, arith, All, is_some,
}
use agnostix_ai_quant_fund.Prelude.Outcome.{returns}
use agnostix_ai_quant_fund.Number.{Float, ◌≼◌, ◌⊖◌, nought, one, max_float, min_float}
use agnostix_ai_quant_fund.Number.Order.{IsOrdered, HasUnit}
use agnostix_ai_quant_fund.Options.{OptionQuote, OptionStrategy}
use agnostix_ai_quant_fund.Options.Sorting.{All-sorted}
use agnostix_ai_quant_fund.Options.Quotes.{Env, sort_quotes, delta_or, as_probability}
use agnostix_ai_quant_fund.Options.Picked.{pick-All}
use agnostix_ai_quant_fund.Options.Strategies.{put_spread_of, bull_put_spread, pos}
use agnostix_ai_quant_fund.Options.Strategies.Spread.{put_spread_result}

module _ {W : Type 0} ⦃num : Float W⦄ where
  -- the sign of a put's delta
  abbrev pub IsPutDelta : Option W → Type 0
  IsPutDelta none = Unit
  IsPutDelta (some d) = d ≼ nought

  module _ (laws : IsOrdered W) (unit : HasUnit W) where
    clamped : (pop : W) → one ≼ pop → as_probability pop ≡ num.round one 4
    unfolding max_float min_float
    clamped pop h =
        let below : min_float one pop ≡ one = ground (arith, laws.lt-eq-not-le pop one) in
        let above : max_float nought one ≡ one = ground (arith, unit.zero_lt_one) in
        ap (λ x. num.round x 4) (ap (max_float nought) below ∙ above)

    certain :
        (q : OptionQuote W) (d : W)
        → IsPutDelta q.delta
        → is_some q.delta ≡ true
        → as_probability (one ⊖ delta_or q d) ≡ num.round one 4
    certain q d h s = go q.delta h s
      where
        go :
            (x : Option W)
            → IsPutDelta x
            → is_some x ≡ true
            → as_probability (one ⊖ (elim x [ none ↦ d | some y ↦ y ])) ≡ num.round one 4
        go none h s = cc
        go (some y) h s = clamped (one ⊖ y) (rw unit.sub_zero at (laws.sub_mono y nought one h).1)

    -- Under the laws of order: where the deltas of the puts are not positive, as those of puts are,
    -- every bull put spread reports the probability of profit 1.0, whatever its short leg is.
    pub bull_put_spread_certain :
        (env : Env) (underlying : String) (spot : W) (expiration : ℕ) (puts : List (OptionQuote W))
        (d : W) (width n : ℕ) {s : OptionStrategy W}
        → All (λ q. IsPutDelta q.delta) puts
        → bull_put_spread env underlying spot expiration puts d (pos width) (pos n)
          ≡ returns (some s)
        → s.probability_of_profit ≡ some (num.round one 4)
    unfolding put_spread_of sort_quotes
    bull_put_spread_certain env u spot e puts d width n deltas h =
        let (short, long, i, j, picked, found, got, at, made) =
          put_spread_result env u spot e puts d width n h in
        let (put_delta, given) =
          pick-All (λ q. IsPutDelta q.delta) (sort_quotes puts) d
            (All-sorted (λ q. q.strike) (λ q. IsPutDelta q.delta) puts deltas) picked in
        rw (made, certain short d put_delta given)
