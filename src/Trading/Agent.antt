-- ===== src/Trading/Agent.antt =====
-- services/trading/agent.py: what the agent sees of the market and of the model, and what it records.
-- The broker, the history of prices and the gateway to the model are parameters, whose calls may
-- raise. Events and reasons keep their kind; their texts are cut.
pub mod Context
pub mod Voice
pub mod Order
pub mod Decide
pub mod Cycle
use Prim.Native.String.{String}
use agnostix_ai_quant_fund.Prelude.{ℕ, Bool, Option, List}
use agnostix_ai_quant_fund.Prelude.Outcome.{Outcome}
use agnostix_ai_quant_fund.Options.{OptionContract, OptionQuote, OptionChain, OptionStrategy}
use agnostix_ai_quant_fund.Risk.{RiskResult, RiskBudget}
use agnostix_ai_quant_fund.Trading.{Signal, OptionOrderRequest, OptionOrderStatus}
use agnostix_ai_quant_fund.Trading.Journal.{TradingJournal}

pub record SignalOutput (W : Type 0) : Type 0 where
  pub direction : String
  pub confidence : W
  pub thesis : String
  pub catalyst : Option String
  pub invalidation : Option String

pub record AccountSnapshot (W : Type 0) : Type 0 where
  pub equity : W
  pub cash : W
  pub buying_power : W
  pub daily_pl : W
  pub open_positions : ℕ
  pub defined_risk_committed : W
  pub exposure_by_underlying : List (String × W)

-- the settings that `TradingAgent.__init__` keeps
pub record AgentConfig (W : Type 0) : Type 0 where
  pub budget : RiskBudget W
  pub rate : W
  pub min_confidence : W
  pub min_dte : ℕ
  pub max_dte : ℕ
  pub execute : Bool
  pub max_contracts : ℕ

-- the dictionary that `_market_context` returns
pub record MarketContext (W : Type 0) : Type 0 where
  pub spot : Option W
  pub realized_vol : Option W
  pub vol_rank : Option W
  pub expiration : Option ℕ
  pub chain : Option (OptionChain W)
  pub history : List W

-- what the gateway replies
pub record Reply (J : Type 0) : Type 0 where
  pub structured : Option J
  pub content : Option String
  pub provider : String
  pub model : String

-- the gateway, `json.loads` of a text to a dictionary, and `SignalOutput.model_validate`
pub record Gateway (W J : Type 0) : Type 0 where
  pub run : String → MarketContext W → Option String → Outcome (Reply J)
  pub loads : String → Option J
  pub validate : J → Outcome (SignalOutput W)

-- what the agent calls
pub record Services (W J : Type 0) : Type 0 where
  pub get_underlying_price : String → Outcome (Option W)
  pub history : String → Outcome (List W)
  pub get_option_contracts : String → ℕ → ℕ → Outcome (List (OptionContract W))
  pub get_option_quotes : List String → Outcome (List (String × OptionQuote W))
  pub submit_option_order : OptionOrderRequest W → Outcome OptionOrderStatus
  pub gateway : Option (Gateway W J)

-- one call of `decide`, with the time and the digits of the two identifiers that it makes
pub record Call : Type 0 where
  pub symbol : String
  pub execute : Option Bool
  pub scenario : Option String
  pub now : ℕ
  pub decision_digits : String
  pub strategy_digits : String

-- the events that are emitted
pub data Event (W : Type 0) : Type 0 where
  agent_analyzing signal_skipped : Event W
  market_ready : MarketContext W → Event W
  signal_failed agent_error agent_abstained agent_dry_run order_failed : String → Event W
  strategy_built : OptionStrategy W → Event W
  risk_evaluated : RiskResult W → Event W
  agent_refused : String → RiskResult W → Event W
  agent_executed : OptionOrderStatus → Event W
  kill_switch_event : Bool → Event W

-- the payloads of the journal
pub data Payload (W : Type 0) : Type 0 where
  reason_of : String → Payload W
  confidence_of : String → W → Payload W
  refusal_of : RiskResult W → Signal W → Payload W
  dry_run_of : OptionStrategy W → RiskResult W → Payload W
  execution_of : OptionOrderStatus → OptionStrategy W → Payload W

-- what outlives a call: the journal, the events, and the orders that reached the broker
pub record World (W H : Type 0) : Type 0 where
  pub journal : TradingJournal (Payload W) H
  pub events : List (Event W)
  pub orders : List (OptionOrderRequest W)
