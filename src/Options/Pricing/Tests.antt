-- ===== src/Options/Pricing/Tests.antt =====
-- Runs of the pricing model (services/options/pricing.py) over whole millionths.
use agnostix_ai_quant_fund.Prelude.{◌≡◌, refl, Option, some, arith}
use agnostix_ai_quant_fund.Prelude.Int.{ℤ, pos}
use agnostix_ai_quant_fund.Prelude.Outcome.{Outcome, returns}
use agnostix_ai_quant_fund.Number.{◌≼◌}
use agnostix_ai_quant_fund.Number.Micro.{micro, Micro-IsOrdered}
use agnostix_ai_quant_fund.Options.{call}
use agnostix_ai_quant_fund.Options.Pricing.{midpoint, black_scholes, implied_volatility}
use agnostix_ai_quant_fund.Options.Pricing.Bisection.{HasMidpoints, implied_volatility_within}

-- a call at the money, a quarter of a year before the expiry, for $2.60
abbrev found : ℤ → ℤ → Outcome (Option ℤ)
found low high =
    implied_volatility (pos 2_600_000) (pos 100_000_000) (pos 100_000_000) (pos 250_000)
      (pos 40_000) call low high

Micro-HasMidpoints : HasMidpoints ℤ
Micro-HasMidpoints = record { between = λ lo hi h. ground arith }

found_vol : found (pos 100_000) (pos 300_000) ≡ returns (some (pos 206_311))
unfolding implied_volatility agnostix_ai_quant_fund.Number.divide
    agnostix_ai_quant_fund.Number.math_log agnostix_ai_quant_fund.Number.math_sqrt
    agnostix_ai_quant_fund.Options.Pricing.search black_scholes
    agnostix_ai_quant_fund.Options.Pricing.live_price
    agnostix_ai_quant_fund.Options.Pricing.norm_cdf agnostix_ai_quant_fund.Options.Pricing.d1_d2
    agnostix_ai_quant_fund.Options.Pricing.search_high agnostix_ai_quant_fund.Options.Pricing.settle
    agnostix_ai_quant_fund.Options.Pricing.bisect agnostix_ai_quant_fund.Options.Pricing.round_of
    agnostix_ai_quant_fund.Options.Pricing.narrow_enough
    agnostix_ai_quant_fund.Options.Pricing.narrow
found_vol = refl

implied_volatility_within_example : (pos 100_000 ≼ pos 206_311) × (pos 206_311 ≼ pos 300_000)
implied_volatility_within_example =
    implied_volatility_within Micro-IsOrdered Micro-HasMidpoints (pos 2_600_000) (pos 100_000_000)
      (pos 100_000_000) (pos 250_000) (pos 40_000) call (pos 100_000) (pos 300_000) refl found_vol
