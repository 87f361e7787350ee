-- ===== src/Trading/Desk.antt =====
-- services/trading/desk.py: the desk, with its kill switch, its book of open strategies and its
-- cycles. A call of the account getter, of the broker, of the history and of the model has its own
-- answer at each visit of a symbol. The kill switch may be used while a visit awaits these answers;
-- its events stand then before those of the decision. The start time and `status`, a view, are not
-- modelled.
pub mod Cases
pub mod Book
pub mod Orders
pub mod Ledger
pub mod Cycle
use Prim.Native.String.{String, ◌++◌ as text_append}
use agnostix_ai_quant_fund.Prelude.{
  ℕ, Bool, true, false, not, Option, none, some, List, [], ◌∷◌, ◌++◌, map, length, if◌then◌else◌,
}
use agnostix_ai_quant_fund.Prelude.Text.{str_eq, upper, show}
use agnostix_ai_quant_fund.Prelude.Outcome.{Outcome, returns, raises}
use agnostix_ai_quant_fund.Number.{Float, ◌⊕◌, nought, or_zero}
use agnostix_ai_quant_fund.Options.{OptionStrategy}
use agnostix_ai_quant_fund.Risk.{dict_get}
use agnostix_ai_quant_fund.Trading.{DecisionStatus, executed, abstained, AgentDecision}
use agnostix_ai_quant_fund.Trading.Journal.{Hashing}
use agnostix_ai_quant_fund.Trading.Agent.{
  AccountSnapshot, AgentConfig, Services, Call, Payload, World, kill_switch_event,
}
use agnostix_ai_quant_fund.Trading.Agent.Order.{Handled}
use agnostix_ai_quant_fund.Trading.Agent.Decide.{decide}

-- the state of a desk; `open_book` is its `_open`, and `world` has the journal
pub record TradingDesk (W H : Type 0) : Type 0 where
  pub kill_switch : Bool
  pub open_book : List (String × AgentDecision W)
  pub last_decisions : List (AgentDecision W)
  pub world : World W H

-- a use of the kill switch
pub data Switch : Type 0 where
  trigger_kill resume : Switch

-- one call of `TradingDesk.decide`, with what the account getter and the services answer, and the
-- uses of the kill switch while it awaits them
pub record Visit (W J : Type 0) : Type 0 where
  pub call : Call
  pub services : Services W J
  pub account : Outcome (AccountSnapshot W)
  pub meanwhile : List Switch

-- what may happen to a desk
pub data Command (W J : Type 0) : Type 0 where
  switch : Switch → Command W J
  mark_closed : String → Command W J
  visit : Visit W J → Command W J

-- the state that a use of the switch sets
abbrev pub state_of : Switch → Bool
state_of trigger_kill = true
state_of resume = false

abbrev pub state_after : Bool → List Switch → Bool
state_after state [] = state
state_after state (s ∷ ss) = state_after (state_of s) ss

abbrev is_executed : DecisionStatus → Bool
is_executed executed = true
is_executed _ = false

module _ {ℓ} {V : Type ℓ} where
  -- `d[key] = value`
  unfoldable pub dict_set : List (String × V) → String → V → List (String × V)
  dict_set [] key v = (key, v) ∷ []
  dict_set ((k, u) ∷ rest) key v =
      let later = dict_set rest key v in if str_eq k key then (k, v) ∷ rest else (k, u) ∷ later

  -- `d.pop(key, None)`
  unfoldable pub dict_pop : List (String × V) → String → List (String × V)
  dict_pop [] key = []
  dict_pop ((k, u) ∷ rest) key =
      let later = dict_pop rest key in if str_eq k key then rest else (k, u) ∷ later

module _ {W : Type 0} ⦃num : Float W⦄ where
  -- the maximal losses of the book
  abbrev losses : List (AgentDecision W) → List W
  losses [] = []
  losses (d ∷ ds) = elim d.strategy [ none ↦ losses ds | some s ↦ or_zero s.max_loss ∷ losses ds ]

  -- the loop that sums the exposure by underlying
  exposure_from : List (String × W) → List (AgentDecision W) → List (String × W)
  exposure_from exposure [] = exposure
  exposure_from exposure (d ∷ ds) = elim d.strategy [
    | none ↦ exposure_from exposure ds
    | some s ↦
        exposure_from
          (dict_set exposure d.symbol (dict_get exposure d.symbol nought ⊕ or_zero s.max_loss)) ds
  ]

module _ {W H : Type 0} ⦃num : Float W⦄ where
  -- `open_strategies`
  pub open_strategies : TradingDesk W H → List (AgentDecision W)
  open_strategies desk = map (λ p. p.1) desk.open_book

  -- the account as the broker has it, with the book of the desk
  pub with_book : TradingDesk W H → AccountSnapshot W → AccountSnapshot W
  with_book desk base = record base {
    open_positions = length desk.open_book;
    defined_risk_committed = num.sum (losses (open_strategies desk));
    exposure_by_underlying = exposure_from [] (open_strategies desk);
  }

  -- `_account_snapshot`
  pub account_snapshot : TradingDesk W H → Outcome (AccountSnapshot W) → Outcome (AccountSnapshot W)
  account_snapshot desk (raises e) = raises e
  account_snapshot desk (returns base) = returns (with_book desk base)

  -- `_record`
  pub record_decision : AgentDecision W → TradingDesk W H → TradingDesk W H
  record_decision d desk = record desk {
    last_decisions = desk.last_decisions ++ (d ∷ []);
    open_book =
        if is_executed d.status then dict_set desk.open_book d.decision_id d else desk.open_book;
  }

  -- the decision while the kill switch is engaged
  pub killed : TradingDesk W H → Call → AgentDecision W
  killed desk call = record {
    decision_id = text_append "d-kill-" (show (length desk.last_decisions));
    symbol = upper call.symbol;
    timestamp = call.now;
    signal = none;
    strategy = none;
    risk = none;
    status = abstained;
    order_id = none;
    reason = some "kill switch engaged";
    market_price = none;
    iv_rank = none;
  }

  -- after the agent's `decide`
  pub noted : TradingDesk W H → Handled W H → TradingDesk W H × Outcome (AgentDecision W)
  noted desk (w, raises e) = (record desk { world = w }, raises e)
  noted desk (w, returns d) = (record_decision d (record desk { world = w }), returns d)

module _ {W H : Type 0} where
  -- a decision in front of those of the rest of the cycle
  abbrev with_first :
      AgentDecision W
      → TradingDesk W H × Outcome (List (AgentDecision W))
      → TradingDesk W H × Outcome (List (AgentDecision W))
  with_first d (desk, raises e) = (desk, raises e)
  with_first d (desk, returns ds) = (desk, returns (d ∷ ds))

  abbrev gathered :
      (TradingDesk W H → TradingDesk W H × Outcome (List (AgentDecision W)))
      → TradingDesk W H × Outcome (AgentDecision W)
      → TradingDesk W H × Outcome (List (AgentDecision W))
  gathered rest (desk, raises e) = (desk, raises e)
  gathered rest (desk, returns d) = with_first d (rest desk)

  -- `trigger_kill` and `resume`, with the event that each emits
  pub switched : List Switch → TradingDesk W H → TradingDesk W H
  switched ss desk = record desk {
    kill_switch = state_after desk.kill_switch ss;
    world = record desk.world {
      events = desk.world.events ++ map (λ s. kill_switch_event (state_of s)) ss;
    };
  }

module _ {W J H : Type 0} ⦃num : Float W⦄ ⦃hashing : Hashing (Payload W) H⦄
    (config : AgentConfig W) where
  pub asked :
      TradingDesk W H
      → Visit W J
      → Outcome (AccountSnapshot W)
      → TradingDesk W H × Outcome (AgentDecision W)
  asked desk v (raises e) = (desk, raises e)
  asked desk v (returns account) = noted desk (decide config account v.services v.call desk.world)

  -- `TradingDesk.decide`
  pub desk_decide : TradingDesk W H → Visit W J → TradingDesk W H × Outcome (AgentDecision W)
  desk_decide desk v =
      if desk.kill_switch
      then (desk, returns (killed desk v.call))
      else asked (switched v.meanwhile desk) v (account_snapshot desk v.account)

  -- `run_cycle`; an exception ends the cycle
  pub run_cycle :
      TradingDesk W H → List (Visit W J) → TradingDesk W H × Outcome (List (AgentDecision W))
  run_cycle desk [] = (desk, returns [])
  run_cycle desk (v ∷ vs) =
      if desk.kill_switch
      then (desk, returns [])
      else gathered (λ next. run_cycle next vs) (desk_decide desk v)

  pub step : Command W J → TradingDesk W H → TradingDesk W H
  step (switch s) desk = switched (s ∷ []) desk
  step (mark_closed id) desk = record desk { open_book = dict_pop desk.open_book id }
  step (visit v) desk = (desk_decide desk v).0

  pub run : List (Command W J) → TradingDesk W H → TradingDesk W H
  run [] desk = desk
  run (c ∷ cs) desk = run cs (step c desk)
