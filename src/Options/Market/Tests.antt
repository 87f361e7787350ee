-- ===== src/Options/Market/Tests.antt =====
-- Runs of the enrichment and the ranks (services/options/market.py) over whole millionths.
use agnostix_ai_quant_fund.Prelude.{◌*◌, ◌≡◌, refl, Option, some, none, List, [], ◌∷◌}
use agnostix_ai_quant_fund.Prelude.Int.{ℤ, pos, negsuc}
use agnostix_ai_quant_fund.Prelude.Outcome.{Outcome, returns}
use agnostix_ai_quant_fund.Number.{◌≼◌, nought, one}
use agnostix_ai_quant_fund.Number.Micro.{micro}
use agnostix_ai_quant_fund.Options.{call, OptionQuote}
use agnostix_ai_quant_fund.Options.Quotes.{day}
use agnostix_ai_quant_fund.Options.Iv.{positives}
use agnostix_ai_quant_fund.Options.Market.{enrich_quote, volatility_rank}
use agnostix_ai_quant_fund.Options.Market.Enrich.{SameMarket, enrich_quote-SameMarket}

abbrev closes : List ℤ
closes =
    pos 100_000_000
    ∷ pos 101_000_000
    ∷ pos 99_000_000
    ∷ pos 102_000_000
    ∷ pos 98_000_000
    ∷ pos 103_000_000
    ∷ pos 100_000_000
    ∷ pos 104_000_000
    ∷ pos 101_000_000
    ∷ pos 99_000_000
    ∷ []

abbrev rank : Option ℤ
rank = volatility_rank (some (pos 100_000)) closes 2 252 252

-- a quote that has a delta and no volatility
abbrev quote : OptionQuote ℤ
quote = record {
  symbol = "SPY";
  strike = pos 100_000_000;
  bid = none;
  ask = none;
  last = none;
  implied_volatility = some (pos 200_000);
  delta = some (pos 550_000);
  gamma = none;
  theta = none;
  vega = none;
  open_interest = some 10;
  volume = none;
}

abbrev enriched : Outcome (OptionQuote ℤ)
enriched = enrich_quote 0 quote (pos 100_000_000) (pos 100_000_000) (91 * day) call (pos 40_000)

ranked : rank ≡ some (pos 125_000)
unfolding volatility_rank positives agnostix_ai_quant_fund.Options.Market.rolling
    agnostix_ai_quant_fund.Options.Market.realized_volatility
    agnostix_ai_quant_fund.Options.Market.annualized agnostix_ai_quant_fund.Options.Iv.iv_percentile
    agnostix_ai_quant_fund.Options.Iv.percentile_in
ranked = refl

abbrev after : OptionQuote ℤ
after = record quote {
  gamma = some (pos 30_482);
  theta = some (negsuc 23_199);
  vega = some (pos 37_894);
}

greeks_added : enriched ≡ returns after
unfolding agnostix_ai_quant_fund.Number.math_sqrt agnostix_ai_quant_fund.Number.divide
    agnostix_ai_quant_fund.Number.math_log enrich_quote
    agnostix_ai_quant_fund.Options.Market.implied_or agnostix_ai_quant_fund.Options.Quotes.mid
    agnostix_ai_quant_fund.Options.Market.filled agnostix_ai_quant_fund.Options.Pricing.greeks
    agnostix_ai_quant_fund.Options.Market.tte agnostix_ai_quant_fund.Number.max_float
    agnostix_ai_quant_fund.Options.Market.seconds_until agnostix_ai_quant_fund.Options.Market.fill
    agnostix_ai_quant_fund.Options.Pricing.live_greeks
    agnostix_ai_quant_fund.Options.Pricing.norm_pdf agnostix_ai_quant_fund.Options.Pricing.d1_d2
    agnostix_ai_quant_fund.Options.Pricing.norm_cdf
greeks_added = refl

enrich_quote-SameMarket_example : SameMarket quote after
enrich_quote-SameMarket_example =
    enrich_quote-SameMarket 0 quote (pos 100_000_000) (pos 100_000_000) (91 * day) call (pos 40_000)
      greeks_added
