-- ===== src/Trading/Agent/Cycle.antt =====
-- services/trading/agent.py: a pass of the agent over its watchlist.
pub mod Entries
use agnostix_ai_quant_fund.Prelude.{List, [], ◌∷◌}
use agnostix_ai_quant_fund.Prelude.Outcome.{Outcome, returns, raises}
use agnostix_ai_quant_fund.Number.{Float}
use agnostix_ai_quant_fund.Trading.{AgentDecision}
use agnostix_ai_quant_fund.Trading.Journal.{Hashing}
use agnostix_ai_quant_fund.Trading.Agent.{
  AccountSnapshot, AgentConfig, Services, Call, Payload, World,
}
use agnostix_ai_quant_fund.Trading.Agent.Decide.{decide}

-- one call of `decide`, with what the account getter and the services answer
pub record Pass (W J : Type 0) : Type 0 where
  pub account : AccountSnapshot W
  pub services : Services W J
  pub call : Call

module _ {W H : Type 0} where
  abbrev with_first :
      AgentDecision W
      → World W H × Outcome (List (AgentDecision W))
      → World W H × Outcome (List (AgentDecision W))
  with_first d (w, raises e) = (w, raises e)
  with_first d (w, returns ds) = (w, returns (d ∷ ds))

  abbrev gathered :
      (World W H → World W H × Outcome (List (AgentDecision W)))
      → World W H × Outcome (AgentDecision W)
      → World W H × Outcome (List (AgentDecision W))
  gathered rest (w, raises e) = (w, raises e)
  gathered rest (w, returns d) = with_first d (rest w)

module _ {W J H : Type 0} ⦃num : Float W⦄ ⦃hashing : Hashing (Payload W) H⦄
    (config : AgentConfig W) where
  -- `TradingAgent.run_cycle`; an exception ends the pass
  pub run_cycle : List (Pass W J) → World W H → World W H × Outcome (List (AgentDecision W))
  run_cycle [] w = (w, returns [])
  run_cycle (p ∷ ps) w = gathered (run_cycle ps) (decide config p.account p.services p.call w)
