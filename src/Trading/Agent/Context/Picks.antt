-- ===== src/Trading/Agent/Context/Picks.antt =====
-- A choice of an expiration (services/trading/agent.py) among four contracts.
use agnostix_ai_quant_fund.Prelude.{◌*◌, ◌≡◌, refl, ℕ, some, none, List, [], ◌∷◌}
use agnostix_ai_quant_fund.Prelude.Int.{ℤ, pos}
use agnostix_ai_quant_fund.Options.{put, OptionContract}
use agnostix_ai_quant_fund.Options.Quotes.{day}
use agnostix_ai_quant_fund.Trading.Agent.Context.{
  in_range, select_expiration, candidates, first_expiration, earliest,
}

abbrev contract : ℕ → OptionContract ℤ
contract days = record {
  symbol = "SPY";
  underlying = "SPY";
  option_type = put;
  strike = pos 95_000_000;
  expiration = days * day;
  root = none;
}

abbrev contracts : List (OptionContract ℤ)
contracts = contract 30 ∷ contract 3 ∷ contract 10 ∷ contract 30 ∷ []

picks_tenth_day : select_expiration 0 contracts 7 45 ≡ some (10 * day)
unfolding select_expiration candidates first_expiration in_range earliest
picks_tenth_day = refl
