-- ===== src/Trading.antt =====
-- services/trading: the schemas (services/trading/schemas.py), and below the audit journal, the agent
-- that decides on one symbol, and the desk. Of the schemas only `as_dict` is left out.
pub mod Journal
pub mod Agent
pub mod Desk
mod Tests
use Prim.Native.String.{String}
use agnostix_ai_quant_fund.Prelude.{ℕ, Bool, Option, List, ◌||◌, if◌then◌else◌}
use agnostix_ai_quant_fund.Prelude.Outcome.{Outcome, returns, raises}
use agnostix_ai_quant_fund.Number.{Float, nought, one}
use agnostix_ai_quant_fund.Options.{OptionStrategy, OptionContract, OptionSide}
use agnostix_ai_quant_fund.Risk.{RiskResult}

pub data SignalDirection : Type 0 where
  bullish bearish neutral abstain : SignalDirection

-- `SignalDirection.value`
unfoldable pub value : SignalDirection → String
value bullish = "bullish"
value bearish = "bearish"
value neutral = "neutral"
value abstain = "abstain"

pub record Signal (W : Type 0) : Type 0 where
  pub symbol : String
  pub direction : SignalDirection
  pub confidence : W
  pub thesis : String
  pub catalyst : Option String
  pub invalidation : Option String
  pub model : Option String
  pub provider : Option String

pub data DecisionStatus : Type 0 where
  executed refused abstained error : DecisionStatus

pub record AgentDecision (W : Type 0) : Type 0 where
  pub decision_id : String
  pub symbol : String
  pub timestamp : ℕ
  pub signal : Option (Signal W)
  pub strategy : Option (OptionStrategy W)
  pub risk : Option (RiskResult W)
  pub status : DecisionStatus
  pub order_id : Option String
  pub reason : Option String
  pub market_price : Option W
  pub iv_rank : Option W

-- services/execution/broker/options_base.py: what goes to the broker, and what comes back
pub record OptionOrderRequest (W : Type 0) : Type 0 where
  pub strategy_id : String
  pub underlying : String
  pub legs : List (OptionContract W)
  pub sides : List OptionSide
  pub quantities : List ℕ
  pub mleg : Bool
  pub order_type : String
  pub limit_price : Option W
  pub time_in_force : String
  pub client_order_id : Option String

pub record OptionOrderStatus : Type 0 where
  pub order_id : String
  pub status : String

module _ {W : Type 0} ⦃num : Float W⦄ where
  -- `Signal(...)` with its constraint 0 <= confidence <= 1, which a NaN does not fail
  unfoldable pub make_signal : Signal W → Outcome (Signal W)
  make_signal s =
      if num.lt s.confidence nought || num.lt one s.confidence
      then raises "ValidationError"
      else returns s
