-- ===== src/Options/Strategies/Loss.antt =====
-- When the spreads of services/options/strategies.py have the `defined_risk` that the risk engine
-- asks for first.
use Prim.Native.String.{String}
use agnostix_ai_quant_fund.Prelude.{ℕ, ◌≡◌, true}
use agnostix_ai_quant_fund.Number.{Float, ◌≼◌, ◌⊖◌, nought, max_float, or_zero}
use agnostix_ai_quant_fund.Number.Order.{IsOrdered}
use agnostix_ai_quant_fund.Options
use agnostix_ai_quant_fund.Options.{OptionQuote}
use agnostix_ai_quant_fund.Options.Quotes.{Env, mid, per_contract}
use agnostix_ai_quant_fund.Options.Strategies.{put_spread_of, call_spread_of}

module _ {W : Type 0} ⦃num : Float W⦄ where
  -- the credit of a spread: the difference of the mids, at least zero
  abbrev pub credit_of : OptionQuote W → OptionQuote W → W
  credit_of short long = max_float (or_zero (mid short) ⊖ or_zero (mid long)) nought

module _ {W : Type 0} ⦃num : Float W⦄ (laws : IsOrdered W) where
  open laws use {le_trans, mul_mono, sub_mono, sub_self, eq-le, decimal_nonneg}

  per_contract_mono : (x y : W) (n : ℕ) → x ≼ y → per_contract x n ≼ per_contract y n
  per_contract_mono x y n h =
      (mul_mono _ _ _ (decimal_nonneg n 0) (mul_mono x y _ (decimal_nonneg 100 0) h).0).0

  diff_nonneg : (x y : W) → x ≼ y → nought ≼ y ⊖ x
  diff_nonneg x y h = le_trans _ _ _ (eq-le _ _ (sub_self x)).1 (sub_mono x y x h).0

  -- Under the laws of order: a bull put spread whose credit is at most the distance of its strikes
  -- has defined risk, for every quantity.
  put_spread_defined :
      (env : Env) (underlying : String) (expiration : ℕ) (short long : OptionQuote W) (d : W)
      (n : ℕ)
      → (credit_of short long ≼ short.strike ⊖ long.strike)
      → Options.defined_risk (put_spread_of env underlying expiration short long d n) ≡ true
  unfolding Options.defined_risk put_spread_of
  put_spread_defined env u e short long d n h = diff_nonneg _ _ (per_contract_mono _ _ n h)

  -- Under the laws of order: a bear call spread whose credit is at most the distance of its strikes
  -- has defined risk, for every quantity.
  call_spread_defined :
      (env : Env) (underlying : String) (expiration : ℕ) (short long : OptionQuote W) (d : W)
      (n : ℕ)
      → (credit_of short long ≼ long.strike ⊖ short.strike)
      → Options.defined_risk (call_spread_of env underlying expiration short long d n) ≡ true
  unfolding Options.defined_risk call_spread_of
  call_spread_defined env u e short long d n h = diff_nonneg _ _ (per_contract_mono _ _ n h)
