-- ===== src/Trading/Desk/Orders.antt =====
-- The orders of a desk (services/trading/desk.py) over every sequence of commands.
use agnostix_ai_quant_fund.Prelude.{◌≡◌, List, [], ◌∷◌, ◌++◌, ◌⊎◌, false}
use agnostix_ai_quant_fund.Prelude.Outcome.{returns, Outcome}
use agnostix_ai_quant_fund.Number.{Float}
use agnostix_ai_quant_fund.Number.Order.{IsOrdered}
use agnostix_ai_quant_fund.Trading.{OptionOrderRequest, AgentDecision}
use agnostix_ai_quant_fund.Trading.Journal.{Hashing}
use agnostix_ai_quant_fund.Trading.Agent.{AccountSnapshot, AgentConfig, Payload}
use agnostix_ai_quant_fund.Trading.Agent.Decide.Safety.{IsAuthorized}
use agnostix_ai_quant_fund.Trading.Desk.{
  TradingDesk, Command, visit, with_book, step, run, Visit, desk_decide,
}

module _ {W H : Type 0} ⦃num : Float W⦄ (config : AgentConfig W) where
  -- what a visit may do to the orders: none is sent, or one for which `P` holds
  abbrev MaySend :
      (OptionOrderRequest W → Type 0)
      → TradingDesk W H
      → TradingDesk W H × Outcome (AgentDecision W)
      → Type 0
  MaySend P desk r =
      (r.0.world.orders ≡ desk.world.orders)
      ⊎ ((o : OptionOrderRequest W) × (r.0.world.orders ≡ desk.world.orders ++ (o ∷ [])) × P o)

-- an order that a visit of a desk may send: the kill switch is not engaged when it begins, the account
-- getter gives an account, the visit ends with a decision, and the order is authorized by the account
-- with the book of the desk, the call of the visit and that decision
pub record IsVisited {W J H : Type 0} ⦃num : Float W⦄ ⦃hashing : Hashing (Payload W) H⦄
    (config : AgentConfig W) (desk : TradingDesk W H) (v : Visit W J) (order : OptionOrderRequest W)
    : Type 0 where
  pub live : desk.kill_switch ≡ false
  pub base : AccountSnapshot W
  pub getter : v.account ≡ returns base
  pub decision : AgentDecision W
  pub decided : (desk_decide config desk v).1 ≡ returns decision
  pub authorized : IsAuthorized config (with_book desk base) v.call decision order

module _ {W J H : Type 0} ⦃num : Float W⦄ ⦃hashing : Hashing (Payload W) H⦄
    (config : AgentConfig W) where
  -- the orders of a run, each with the visit that sent it, at the desk as it was then
  pub data SentBy
      : TradingDesk W H → List (Command W J) → List (OptionOrderRequest W) → Type 0 where
    nothing : {desk : TradingDesk W H} → SentBy desk [] []
    quiet :
        {desk : TradingDesk W H} {c : Command W J} {cs : List (Command W J)}
        {orders : List (OptionOrderRequest W)}
        → SentBy (step config c desk) cs orders
        → SentBy desk (c ∷ cs) orders
    sent :
        {desk : TradingDesk W H} {v : Visit W J} {cs : List (Command W J)}
        {order : OptionOrderRequest W} {orders : List (OptionOrderRequest W)}
        → IsVisited config desk v order
        → SentBy (step config (visit v) desk) cs orders
        → SentBy desk (visit v ∷ cs) (order ∷ orders)

  module _ (laws : IsOrdered W) where
    abbrev Sent : TradingDesk W H → List (Command W J) → Type 0
    Sent desk cs =
        (orders : List (OptionOrderRequest W)) × ((run config cs desk).world.orders
          ≡ desk.world.orders ++ orders)
        × SentBy desk cs orders
