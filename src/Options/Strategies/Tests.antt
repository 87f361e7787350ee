-- ===== src/Options/Strategies/Tests.antt =====
-- Runs of the strategy builders (services/options/strategies.py) over whole millionths.
use agnostix_ai_quant_fund.Prelude.{ℕ, ◌*◌, ◌≡◌, refl, none, some, List, [], ◌∷◌, arith}
use agnostix_ai_quant_fund.Prelude.Int.{ℤ, pos, negsuc}
use agnostix_ai_quant_fund.Prelude.Outcome.{returns}
use agnostix_ai_quant_fund.Number.{or_default, max_float, ◌≼◌, ◌⊖◌, nought, one}
use agnostix_ai_quant_fund.Number.Micro.{micro, Micro-IsOrdered, Micro-HasUnit}
use agnostix_ai_quant_fund.Options
use agnostix_ai_quant_fund.Options.{call, put, OptionQuote, OptionStrategy}
use agnostix_ai_quant_fund.Options.Quotes.{
  Env, distance, keyed, positive, sort_quotes, index, quote_eq, mid, day, pick_by_delta,
}
use agnostix_ai_quant_fund.Options.Strategies.{
  put_long, put_spread_of, bull_put_spread, build_strategy,
}
use agnostix_ai_quant_fund.Options.Strategies.Total.{Returns, build_strategy_total}
use agnostix_ai_quant_fund.Options.Strategies.Probability.{bull_put_spread_certain}
use agnostix_ai_quant_fund.Options.Strategies.Loss.{credit_of}

-- a quote with its strike and mid price in dollars and its delta in hundredths
abbrev quote : ℕ → ℕ → ℤ → OptionQuote ℤ
quote strike price delta = record {
  symbol = "SPY";
  strike = pos (strike * 1_000_000);
  bid = some (pos (price * 1_000_000));
  ask = some (pos (price * 1_000_000));
  last = none;
  implied_volatility = none;
  delta = some delta;
  gamma = none;
  theta = none;
  vega = none;
  open_interest = none;
  volume = none;
}

abbrev puts : List (OptionQuote ℤ)
puts = quote 110 4 (negsuc 399_999) ∷ quote 90 1 (negsuc 99_999) ∷ quote 100 2 (negsuc 199_999) ∷ []

abbrev calls : List (OptionQuote ℤ)
calls = quote 120 2 (pos 200_000) ∷ quote 130 1 (pos 100_000) ∷ []

abbrev env : Env
env = record { now = 0; fresh = "0a1b2c3d" }

abbrev built : OptionStrategy ℤ
built =
    put_spread_of env "SPY" (35 * day) (quote 100 2 (negsuc 199_999)) (quote 90 1 (negsuc 99_999))
      (pos 200_000) 1

picked : pick_by_delta puts (pos 200_000) ≡ returns (some (quote 100 2 (negsuc 199_999)))
unfolding pick_by_delta distance keyed agnostix_ai_quant_fund.Options.Sorting.sorted
    agnostix_ai_quant_fund.Number.or_default
picked = refl

sold :
    bull_put_spread env "SPY" (pos 110_000_000) (35 * day) puts (pos 200_000) (pos 1) (pos 1)
    ≡ returns (some built)
unfolding bull_put_spread sort_quotes pick_by_delta distance keyed positive put_long index quote_eq
    put_spread_of agnostix_ai_quant_fund.Options.Sorting.sorted or_default
sold = refl

build_strategy_total_example : Returns (
    build_strategy env "neutral" "SPY"
      (pos 110_000_000)
      (35 * day)
      calls
      puts
      (pos 200_000)
      (pos 1)
      (pos 1))
unfolding distance
build_strategy_total_example =
    build_strategy_total Micro-IsOrdered env "SPY" (pos 110_000_000) (35 * day) (pos 200_000) 1 1
      (omega arith) "neutral" calls puts ((_, refl), ((_, refl), tt))
      ((_, refl), ((_, refl), ((_, refl), tt)))

bull_put_spread_certain_example : built.probability_of_profit ≡ some (micro.round one 4)
bull_put_spread_certain_example =
    bull_put_spread_certain Micro-IsOrdered Micro-HasUnit env "SPY" (pos 110_000_000) (35 * day)
      puts (pos 200_000) 1 1 (refl, (refl, (refl, tt))) sold

put_credit : credit_of (quote 100 2 (negsuc 199_999)) (quote 90 1 (negsuc 99_999)) ≼ pos 10_000_000
unfolding mid or_default max_float
put_credit = refl

call_credit : credit_of (quote 120 2 (pos 200_000)) (quote 130 1 (pos 100_000)) ≼ pos 10_000_000
unfolding mid or_default max_float
call_credit = refl
