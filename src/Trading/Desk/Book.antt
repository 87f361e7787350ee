-- ===== src/Trading/Desk/Book.antt =====
-- The size of the book of a desk (services/trading/desk.py) over every sequence of commands.
use Prim.Native.String.{String}
use agnostix_ai_quant_fund.Prelude.{
  ◌+◌, ◌≤◌, ◌≡◌, ◌≢◌, refl, inl, inr, false, List, [], ◌∷◌, length, arith,
}
use agnostix_ai_quant_fund.Prelude.Outcome.{returns, raises}
use agnostix_ai_quant_fund.Number.{Float}
use agnostix_ai_quant_fund.Number.Order.{IsOrdered}
use agnostix_ai_quant_fund.Trading.{DecisionStatus, executed, refused, abstained, error}
use agnostix_ai_quant_fund.Trading.Journal.{Hashing}
use agnostix_ai_quant_fund.Trading.Agent.{AccountSnapshot, AgentConfig, Call, Payload}
use agnostix_ai_quant_fund.Trading.Agent.Order.{Handled, portfolio_of}
use agnostix_ai_quant_fund.Trading.Agent.Decide.Safety.{Sends, decide-Sends}
use agnostix_ai_quant_fund.Trading.Desk.{
  TradingDesk, Switch, Command, switch, mark_closed, visit, dict_set, dict_pop, is_executed,
  with_book, record_decision, noted, switched, step, run,
}
use agnostix_ai_quant_fund.Trading.Desk.Cases.{visit_cases}

module _ {ℓ} {V : Type ℓ} where
  length-dict_set :
      (d : List (String × V)) (key : String) (v : V) → length (dict_set d key v) ≤ length d + 1
  unfolding dict_set
  length-dict_set [] key v = omega arith
  length-dict_set ((k, u) ∷ rest) key v = ground (arith, length-dict_set rest key v)

  length-dict_pop : (d : List (String × V)) (key : String) → length (dict_pop d key) ≤ length d
  unfolding dict_pop
  length-dict_pop [] key = omega arith
  length-dict_pop ((k, u) ∷ rest) key = ground (arith, length-dict_pop rest key)

not_executed : (x : DecisionStatus) → x ≢ executed → is_executed x ≡ false
not_executed executed h = absurd (h refl)
not_executed refused h = refl
not_executed abstained h = refl
not_executed error h = refl

-- the book holds at most the positions that the budget allows
abbrev pub IsWithin : {W H : Type 0} → AgentConfig W → TradingDesk W H → Type 0
IsWithin config desk = length desk.open_book ≤ config.budget.max_open_positions

module _ {W H : Type 0} ⦃num : Float W⦄ (config : AgentConfig W) where
  noted-IsWithin :
      (desk : TradingDesk W H) (account : AccountSnapshot W) (call : Call) (r : Handled W H)
      → account.open_positions ≡ length desk.open_book
      → Sends config account call desk.world r
      → IsWithin config desk
      → IsWithin config (noted desk r).0
  unfolding noted record_decision portfolio_of
  noted-IsWithin desk account call (w, raises e) same s h = h
  noted-IsWithin desk account call (w, returns d) same (inl (_, idle)) h =
      rw (not_executed d.status idle) h
  noted-IsWithin desk account call (w, returns d) same (inr (o, _, _, _, a)) h =
      ground (arith, same, a.limits.room, length-dict_set desk.open_book d.decision_id d)

module _ {W H : Type 0} ⦃num : Float W⦄ where
  switched-IsWithin :
      (config : AgentConfig W) (ss : List Switch) (desk : TradingDesk W H)
      → IsWithin config desk
      → IsWithin config (switched ss desk)
  unfolding switched
  switched-IsWithin config ss desk h = h

  open_positions-switched :
      (ss : List Switch) (desk : TradingDesk W H) (base : AccountSnapshot W)
      → (with_book desk base).open_positions ≡ length (switched ss desk).open_book
  unfolding switched with_book
  open_positions-switched ss desk base = refl

module _ {W J H : Type 0} ⦃num : Float W⦄ ⦃hashing : Hashing (Payload W) H⦄ (config : AgentConfig W)
    (laws : IsOrdered W) where
  step-IsWithin :
      (c : Command W J) (desk : TradingDesk W H)
      → IsWithin config desk
      → IsWithin config (step config c desk)
  unfolding step
  step-IsWithin (switch s) desk h = switched-IsWithin config (s ∷ []) desk h
  step-IsWithin (mark_closed id) desk h = ground (arith, length-dict_pop desk.open_book id)
  step-IsWithin (visit v) desk h =
      visit_cases config (IsWithin config) desk v h (switched-IsWithin config v.meanwhile desk h)
        λ base _.
          noted-IsWithin config (switched v.meanwhile desk) (with_book desk base) v.call _
            (open_positions-switched v.meanwhile desk base)
            (decide-Sends config (with_book desk base) v.services v.call laws _)
            (switched-IsWithin config v.meanwhile desk h)

  -- Under the laws of order: a desk that starts within its budget never holds more open strategies
  -- than `max_open_positions`, whatever decisions, closings and uses of the kill switch follow.
  pub run-IsWithin :
      (cs : List (Command W J)) (desk : TradingDesk W H)
      → IsWithin config desk
      → IsWithin config (run config cs desk)
  unfolding run
  run-IsWithin [] desk h = h
  run-IsWithin (c ∷ cs) desk h = run-IsWithin cs (step config c desk) (step-IsWithin c desk h)
