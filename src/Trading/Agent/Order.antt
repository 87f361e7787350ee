-- ===== src/Trading/Agent/Order.antt =====
-- services/trading/agent.py: the size of a strategy, its order, and the ends of `decide`.
use Prim.Native.String.{String, ◌++◌ as text_append}
use agnostix_ai_quant_fund.Prelude.{
  ℕ, Bool, true, false, Option, none, some, List, [], ◌∷◌, ◌++◌, map, length, ltb, ◌==◌,
  if◌then◌else◌,
}
use agnostix_ai_quant_fund.Prelude.Int.{ℤ, pos, negsuc}
use agnostix_ai_quant_fund.Prelude.Text.{upper}
use agnostix_ai_quant_fund.Prelude.Outcome.{Outcome, returns, raises, ◌>>=◌}
use agnostix_ai_quant_fund.Number.{Float, ◌⊗◌, ◌⊘◌, nought, one, max_float, or_zero}
use agnostix_ai_quant_fund.Options.{OptionLeg, OptionStrategy}
use agnostix_ai_quant_fund.Options.Quotes.{Env}
use agnostix_ai_quant_fund.Risk.{PortfolioState}
use agnostix_ai_quant_fund.Trading.{
  SignalDirection, abstain, abstained, AgentDecision, OptionOrderRequest,
}
use agnostix_ai_quant_fund.Trading.Journal.{Hashing, append}
use agnostix_ai_quant_fund.Trading.Agent.{AccountSnapshot, AgentConfig, Call, Event, Payload, World}

-- the clock and the digits that the strategy builder reads
abbrev pub env_of : Call → Env
env_of call = record { now = call.now; fresh = call.strategy_digits }

-- what a call leaves behind, and its result
abbrev pub Handled : Type 0 → Type 0 → Type 0
Handled W H = World W H × Outcome (AgentDecision W)

-- `max(1, min(max_qty, self._max_contracts))`
pub clamp_quantity : ℕ → ℤ → ℕ
clamp_quantity max_contracts (pos n) = Prim.Native.Nat.max 1 (Prim.Native.Nat.min n max_contracts)
clamp_quantity max_contracts (negsuc n) = 1

abbrev pub decision_id_of : Call → String
decision_id_of call = text_append "d-" call.decision_digits

abbrev pub is_abstain : SignalDirection → Bool
is_abstain abstain = true
is_abstain _ = false

module _ {W : Type 0} ⦃num : Float W⦄ where
  -- `scale_strategy`
  unfoldable pub scale_strategy : OptionStrategy W → ℕ → OptionStrategy W
  scale_strategy s quantity =
      let times = λ (x : Option W). some (or_zero x ⊗ num.decimal quantity 0) in
      if quantity == 1 then s else record s {
        legs = map (λ (leg : OptionLeg W). record leg { quantity = quantity }) s.legs;
        max_loss = times s.max_loss;
        max_profit = times s.max_profit;
        net_credit = times s.net_credit;
      }

  -- `int(x)`
  abbrev pub int_of : W → Outcome ℤ
  int_of x = elim (num.int x) [ none ↦ raises "OverflowError" | some n ↦ returns n ]

  -- the number of contracts that the budget of a trade pays for
  pub affordable : AgentConfig W → AccountSnapshot W → Option W → Outcome ℤ
  affordable config account none = returns (pos 0)
  affordable config account (some loss) =
      let limit = config.budget.max_loss_per_trade_pct ⊗ max_float account.equity one in
      if num.eq loss nought then returns (pos 0) else int_of (limit ⊘ loss)

  pub size : AgentConfig W → AccountSnapshot W → OptionStrategy W → Outcome ℕ
  size config account s = do
    max_qty ← affordable config account s.max_loss
    returns (clamp_quantity config.max_contracts max_qty)

  unfoldable pub portfolio_of : AccountSnapshot W → PortfolioState W
  portfolio_of account = record {
    equity = account.equity;
    cash = account.cash;
    daily_pl = account.daily_pl;
    open_positions = account.open_positions;
    defined_risk_committed = account.defined_risk_committed;
    exposure_by_underlying = account.exposure_by_underlying;
  }

  pub order_of : Call → OptionStrategy W → OptionOrderRequest W
  order_of call s = record {
    strategy_id = s.strategy_id;
    underlying = upper call.symbol;
    legs = map (λ (leg : OptionLeg W). leg.contract) s.legs;
    sides = map (λ (leg : OptionLeg W). leg.side) s.legs;
    quantities = map (λ (leg : OptionLeg W). leg.quantity) s.legs;
    mleg = ltb 1 (length s.legs);
    order_type = "market";
    limit_price = none;
    time_in_force = "day";
    client_order_id = some (text_append "agnostix-" (decision_id_of call));
  }

  -- `execute`, or the setting of the agent
  abbrev pub should_execute : AgentConfig W → Call → Bool
  should_execute config call = elim call.execute [ none ↦ config.execute | some b ↦ b ]

  -- the decision before anything is known
  abbrev pub base : Call → AgentDecision W
  base call = record {
    decision_id = decision_id_of call;
    symbol = upper call.symbol;
    timestamp = call.now;
    signal = none;
    strategy = none;
    risk = none;
    status = abstained;
    order_id = none;
    reason = none;
    market_price = none;
    iv_rank = none;
  }

module _ {W H : Type 0} ⦃hashing : Hashing (Payload W) H⦄ where
  unfoldable pub emit : Event W → World W H → World W H
  emit e w = record w { events = w.events ++ (e ∷ []) }

  unfoldable pub emit_all : List (Event W) → World W H → World W H
  emit_all es w = record w { events = w.events ++ es }

  -- a journal entry, then an event, then `return decision`
  unfoldable pub close_with :
      Call → String → Payload W → Event W → AgentDecision W → World W H → Handled W H
  close_with call kind payload e decision w = (
    record w {
      journal = append w.journal call.now kind call.symbol payload;
      events = w.events ++ (e ∷ []);
    },
    returns decision,
  )
