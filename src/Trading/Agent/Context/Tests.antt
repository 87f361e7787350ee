-- ===== src/Trading/Agent/Context/Tests.antt =====
-- A run of `_market_context` (services/trading/agent.py) without contracts or a history.
use agnostix_ai_quant_fund.Prelude.{◌≡◌, refl, ℕ, Option, some, none, []}
use agnostix_ai_quant_fund.Prelude.Int.{ℤ, pos}
use agnostix_ai_quant_fund.Prelude.Outcome.{returns, raises}
use agnostix_ai_quant_fund.Number.Micro.{micro}
use agnostix_ai_quant_fund.Options.Market.{realized_volatility, volatility_rank}
use agnostix_ai_quant_fund.Trading.Agent.{AgentConfig, MarketContext, Services, Gateway}
use agnostix_ai_quant_fund.Trading.Agent.Context.{
  market_context, build_chain, select_expiration, candidates, first_expiration,
}

abbrev pub quiet_services : Option (Gateway ℤ ℕ) → Services ℤ ℕ
quiet_services gateway = record {
  get_underlying_price = λ symbol. returns (some (pos 100_000_000));
  history = λ symbol. returns [];
  get_option_contracts = λ symbol low high. returns [];
  get_option_quotes = λ symbols. returns [];
  submit_option_order = λ order. raises "ConnectionError";
  gateway = gateway;
}

abbrev pub quiet_context : MarketContext ℤ
quiet_context = record {
  spot = some (pos 100_000_000);
  realized_vol = realized_volatility [] 30 252;
  vol_rank = volatility_rank (realized_volatility [] 30 252) [] 30 252 24;
  expiration = none;
  chain = none;
  history = [];
}

pub market_context_quiet :
    (config : AgentConfig ℤ) (gateway : Option (Gateway ℤ ℕ))
    → market_context config (quiet_services gateway) 0 "SPY" ≡ returns quiet_context
unfolding market_context build_chain select_expiration candidates first_expiration
market_context_quiet config gateway = refl
