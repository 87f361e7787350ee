-- ===== src/Trading/Agent/Decide.antt =====
-- services/trading/agent.py: `decide`, from the signal to the order. A function stands for what is
-- left to do after a value is there; its clauses are the early returns. Each returns what outlives
-- the call together with the decision, or with what was raised.
pub mod Safety
pub mod Recorded
use Prim.Native.String.{String, ◌++◌ as text_append}
use agnostix_ai_quant_fund.Prelude.{ℕ, not, Option, none, some, [], ◌∷◌, ◌++◌, if◌then◌else◌}
use agnostix_ai_quant_fund.Prelude.Text.{upper}
use agnostix_ai_quant_fund.Prelude.Int.{pos}
use agnostix_ai_quant_fund.Prelude.Outcome.{Outcome, returns, raises}
use agnostix_ai_quant_fund.Number.{Float}
use agnostix_ai_quant_fund.Options.{OptionChain, OptionStrategy}
use agnostix_ai_quant_fund.Options.Strategies.{build_strategy}
use agnostix_ai_quant_fund.Risk.{RiskResult, passes, evaluate}
use agnostix_ai_quant_fund.Trading.{
  value, Signal, executed, refused, abstained, error, AgentDecision, OptionOrderStatus,
}
use agnostix_ai_quant_fund.Trading.Journal.{Hashing}
use agnostix_ai_quant_fund.Trading.Agent.{
  AccountSnapshot, AgentConfig, MarketContext, Services, Call, agent_analyzing, market_ready,
  agent_error, agent_abstained, agent_dry_run, order_failed, strategy_built, risk_evaluated,
  agent_refused, agent_executed, Payload, reason_of, confidence_of, refusal_of, dry_run_of,
  execution_of, World,
}
use agnostix_ai_quant_fund.Trading.Agent.Context.{market_context}
use agnostix_ai_quant_fund.Trading.Agent.Voice.{signal}
use agnostix_ai_quant_fund.Trading.Agent.Order.{
  Handled, is_abstain, scale_strategy, size, portfolio_of, order_of, should_execute, base, emit,
  emit_all, close_with, env_of,
}

module _ {W J H : Type 0} ⦃num : Float W⦄ ⦃hashing : Hashing (Payload W) H⦄ (config : AgentConfig W)
    (account : AccountSnapshot W) (services : Services W J) (call : Call) where
  -- an early return that abstains
  abstained_with : String → Payload W → AgentDecision W → World W H → Handled W H
  abstained_with reason payload d w =
      close_with call "abstain" payload (agent_abstained reason)
        (record d { status = abstained; reason = some reason }) w

  -- after the broker has answered
  placed : OptionStrategy W → AgentDecision W → Outcome OptionOrderStatus → World W H → Handled W H
  placed s d (raises e) w =
      close_with call "error" (reason_of e) (order_failed e)
        (record d { status = error; reason = some (text_append "order rejected: " e) }) w
  placed s d (returns result) w =
      close_with call "execution" (execution_of result s) (agent_executed result)
        (record d { status = executed; order_id = some result.order_id }) w

  -- the order is sent
  place : OptionStrategy W → AgentDecision W → World W H → Handled W H
  place s d w =
      let order = order_of call s in
      placed s d (services.submit_option_order order)
        (record w { orders = w.orders ++ (order ∷ []) })

  -- after the gates: a refusal, a dry run, or an order
  gated : Signal W → OptionStrategy W → RiskResult W → AgentDecision W → World W H → Handled W H
  gated sg s risk d w =
      if not (passes risk.verdict)
      then close_with call "refusal" (refusal_of risk sg) (agent_refused "risk gates" risk)
          (record d { status = refused; reason = some "risk gates" }) w
      else if not (should_execute config call)
      then close_with call "dry_run" (dry_run_of s risk)
          (agent_dry_run "risk-approved but execution disabled (paper/dry-run)")
          (record d {
            status = abstained;
            reason = some "risk-approved but execution disabled (paper/dry-run)";
          })
          w
      else place s d w

  -- the gates, on a strategy of its final size
  assess : Signal W → Option W → OptionStrategy W → AgentDecision W → World W H → Handled W H
  assess sg rank s d w =
      let risk = evaluate s (portfolio_of account) config.budget rank in
      gated sg s risk (record d { strategy = some s; risk = some risk })
        (emit (risk_evaluated risk) (emit (strategy_built s) w))

  sized :
      Signal W → Option W → OptionStrategy W → AgentDecision W → Outcome ℕ → World W H → Handled W H
  sized sg rank s d (raises e) w = (w, raises e)
  sized sg rank s d (returns quantity) w = assess sg rank (scale_strategy s quantity) d w

  built :
      Signal W
      → Option W
      → AgentDecision W
      → Outcome (Option (OptionStrategy W))
      → World W H
      → Handled W H
  built sg rank d (raises e) w = (w, raises e)
  built sg rank d (returns none) w =
      abstained_with "strategy builder could not construct a defined-risk trade"
        (reason_of "strategy builder could not construct a defined-risk trade") d w
  built sg rank d (returns (some s)) w = sized sg rank s d (size config account s) w

  -- after the confidence: the chain and the price that a strategy needs
  priced :
      MarketContext W
      → Signal W
      → AgentDecision W
      → Option (OptionChain W)
      → Option W
      → World W H
      → Handled W H
  priced context sg d (some chain) (some spot) w =
      built sg context.vol_rank d
        (build_strategy (env_of call) (value sg.direction) (upper call.symbol) spot chain.expiration
          chain.calls chain.puts (num.decimal 30 2) (pos 1) (pos 1))
        w
  priced context sg d _ _ w =
      abstained_with "no tradeable option chain or underlying price"
        (reason_of "no tradeable option chain or underlying price") d w

  judged : MarketContext W → AgentDecision W → Option (Signal W) → World W H → Handled W H
  judged context d none w =
      abstained_with "abstained: no signal" (reason_of "abstained: no signal") d w
  judged context d (some sg) w =
      if is_abstain sg.direction
      then abstained_with "abstained: no edge" (reason_of "abstained: no edge") d w
      else if num.lt sg.confidence config.min_confidence
      then abstained_with "confidence below threshold"
          (confidence_of "confidence below threshold" sg.confidence) d w
      else priced context sg d context.chain context.spot w

  -- after `_signal`, which may raise
  heard : MarketContext W → Outcome (Option (Signal W)) → World W H → Handled W H
  heard context (raises e) w = (w, raises e)
  heard context (returns sg) w =
      judged context
        (record (base call) {
          signal = sg;
          market_price = context.spot;
          iv_rank = context.vol_rank;
        })
        sg w

  seen : Outcome (MarketContext W) → World W H → Handled W H
  seen (raises e) w =
      close_with call "error" (reason_of e) (agent_error e)
        (record (base call) { status = error; reason = some (text_append "market context: " e) }) w
  seen (returns context) w =
      let voice = signal services.gateway call.symbol context call.scenario in
      heard context voice.1 (emit_all voice.0 (emit (market_ready context) w))

  pub decide : World W H → Handled W H
  decide w = seen (market_context config services call.now call.symbol) (emit agent_analyzing w)
