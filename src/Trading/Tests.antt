-- ===== src/Trading/Tests.antt =====
-- Runs of the agent and of the desk (services/trading) over whole millionths. Payloads of the model
-- are numbers; the digest of a body is the number of the hashes before it.
use Prim.Native.String.{String}
use agnostix_ai_quant_fund.Prelude.{
  ℕ, ◌+◌, ◌*◌, refl, Bool, true, false, none, some, List, [], ◌∷◌, ◌==◌, ==_iff, arith,
}
use agnostix_ai_quant_fund.Prelude.Int.{ℤ, pos, negsuc}
use agnostix_ai_quant_fund.Prelude.Outcome.{Outcome, returns, raises}
use agnostix_ai_quant_fund.Number.Micro.{micro, Micro-IsOrdered}
use agnostix_ai_quant_fund.Options.{put, OptionContract, OptionQuote}
use agnostix_ai_quant_fund.Options.Quotes.{day}
use agnostix_ai_quant_fund.Trading.{DecisionStatus}
use agnostix_ai_quant_fund.Trading.Journal.{Hashing, journal_of}
use agnostix_ai_quant_fund.Trading.Journal.Chain.{ReadsEquality, IsSound, IsSound-empty}
use agnostix_ai_quant_fund.Trading.Agent.{
  AccountSnapshot, AgentConfig, Gateway, Services, Call, Payload, World,
}
use agnostix_ai_quant_fund.Trading.Agent.Context.Tests.{quiet_services}
use agnostix_ai_quant_fund.Trading.Agent.Decide.{decide}
use agnostix_ai_quant_fund.Trading.Agent.Decide.Safety.{Sends, decide-Sends}
use agnostix_ai_quant_fund.Trading.Agent.Decide.Recorded.{Records, decide-Records}
use agnostix_ai_quant_fund.Trading.Agent.Cycle.{Pass}
use agnostix_ai_quant_fund.Trading.Desk.{
  TradingDesk, Switch, Visit, Command, trigger_kill, resume, switch, mark_closed, visit, run,
  run_cycle,
}
use agnostix_ai_quant_fund.Trading.Desk.Book.{IsWithin, run-IsWithin}
use agnostix_ai_quant_fund.Trading.Desk.Cycle.{IsCycle, run_cycle-IsCycle}
use agnostix_ai_quant_fund.Trading.Desk.Ledger.{IsHalted, run-IsSound, run-IsHalted}

instance abbrev counting : Hashing (Payload ℤ) ℕ
counting = record { genesis = 0; digest = λ p b. p + 1; eqb = ◌==◌ }

counting_reads : ReadsEquality (Payload ℤ) ℕ
counting_reads a b = ==_iff a b

abbrev dollars : ℕ → ℤ
dollars n = pos (n * 1_000_000)

abbrev config : AgentConfig ℤ
config = record {
  budget = record {
    max_loss_per_trade_pct = pos 20_000;
    max_total_defined_risk_pct = pos 250_000;
    max_concentration_pct = pos 100_000;
    min_iv_rank = pos 200_000;
    max_iv_rank = pos 950_000;
    min_dte = 7;
    max_dte = 45;
    min_probability_of_profit = pos 600_000;
    daily_loss_limit_pct = pos 30_000;
    max_open_positions = 10;
  };
  rate = pos 40_000;
  min_confidence = pos 550_000;
  min_dte = 7;
  max_dte = 45;
  execute = true;
  max_contracts = 10;
}

abbrev account : AccountSnapshot ℤ
account = record {
  equity = dollars 100_000;
  cash = dollars 50_000;
  buying_power = dollars 50_000;
  daily_pl = pos 0;
  open_positions = 0;
  defined_risk_committed = pos 0;
  exposure_by_underlying = [];
}

-- an expiration in 30 days with puts at $90, $95 and $100
abbrev contract : String → ℕ → OptionContract ℤ
contract symbol strike = record {
  symbol = symbol;
  underlying = "SPY";
  option_type = put;
  strike = dollars strike;
  expiration = 30 * day;
  root = none;
}

abbrev quote : String → ℕ → ℕ → ℕ → String × OptionQuote ℤ
quote symbol strike price delta = (
  symbol,
  record {
    symbol = symbol;
    strike = dollars strike;
    bid = none;
    ask = none;
    last = some (dollars price);
    implied_volatility = none;
    delta = some (negsuc delta);
    gamma = none;
    theta = none;
    vega = none;
    open_interest = none;
    volume = none;
  },
)

-- a model that answers with the direction and the confidence that are given
abbrev model : String → ℤ → Gateway ℤ ℕ
model direction confidence = record {
  run = λ symbol context scenario.
      returns (record { structured = some 1; content = none; provider = "test"; model = "test" });
  loads = λ text. none;
  validate = λ payload. returns (record {
    direction = direction;
    confidence = confidence;
    thesis = "range";
    catalyst = none;
    invalidation = none;
  });
}

abbrev services : Services ℤ ℕ
services = record {
  get_underlying_price = λ symbol. returns (some (dollars 100));
  history = λ symbol. returns [];
  get_option_contracts =
      λ symbol low high. returns (contract "A" 90 ∷ contract "B" 95 ∷ contract "C" 100 ∷ []);
  get_option_quotes = λ symbols.
      returns (quote "A" 90 1 99_999 ∷ quote "B" 95 2 299_999 ∷ quote "C" 100 4 499_999 ∷ []);
  submit_option_order = λ order. returns (record { order_id = "o-1"; status = "accepted" });
  gateway = some (model "Bullish" (pos 800_000));
}

abbrev spy : Call
spy = record {
  symbol = "SPY";
  execute = none;
  scenario = none;
  now = 0;
  decision_digits = "0a1b2c3d4e5f";
  strategy_digits = "5f4e3d2c1b0a";
}

abbrev start : World ℤ ℕ
start = record { journal = journal_of []; events = []; orders = [] }

abbrev executed_status : Outcome DecisionStatus
executed_status = elim (decide config account services spy start).1 [
  | returns d ↦ returns d.status
  | raises e ↦ raises e
]

decide-Sends_example : Sends config account spy start (decide config account services spy start)
decide-Sends_example = decide-Sends config account services spy Micro-IsOrdered start

decide-Records_example : Records spy start (decide config account services spy start)
decide-Records_example = decide-Records config account services spy start

-- a model that is twice as sure as it may be
abbrev overconfident : Gateway ℤ ℕ
overconfident = model "bullish" (pos 2_000_000)

abbrev desk : Bool → TradingDesk ℤ ℕ
desk kill = record { kill_switch = kill; open_book = []; last_decisions = []; world = start }

-- a visit during which the kill switch is used so
abbrev visit_with : List Switch → Visit ℤ ℕ
visit_with ss = record {
  call = spy;
  services = services;
  account = returns account;
  meanwhile = ss;
}

-- a decision, a second one, a closing, and the kill switch in between
abbrev session : List (Command ℤ ℕ)
session =
    visit (visit_with [])
    ∷ switch trigger_kill
    ∷ visit (visit_with [])
    ∷ switch resume
    ∷ mark_closed "d-0a1b2c3d4e5f"
    ∷ []

run-IsWithin_example : IsWithin config (run config session (desk false))
run-IsWithin_example = run-IsWithin config Micro-IsOrdered session (desk false) (omega arith)

run-IsSound_example : IsSound (run config session (desk false)).world.journal
run-IsSound_example = run-IsSound config counting_reads session (desk false) IsSound-empty

abbrev halted_session : List (Command ℤ ℕ)
halted_session = visit (visit_with []) ∷ switch trigger_kill ∷ mark_closed "d-0a1b2c3d4e5f" ∷ []

run-IsHalted_example : IsHalted 1 (desk true) (run config halted_session (desk true))
run-IsHalted_example =
    run-IsHalted config halted_session (desk true) ((λ e. cc), ((λ e. cc), ((λ e. cc), tt))) refl

-- a cycle of two symbols that is killed while the first is decided
abbrev cycle : List (Visit ℤ ℕ)
cycle = visit_with (trigger_kill ∷ []) ∷ visit_with [] ∷ []

run_cycle-IsCycle_example : IsCycle config (desk false) cycle (run_cycle config (desk false) cycle)
run_cycle-IsCycle_example = run_cycle-IsCycle config cycle (desk false)

-- two passes over one symbol, the second with a model that is twice as sure as it may be
abbrev watchlist : List (Pass ℤ ℕ)
watchlist =
    record { account = account; services = services; call = spy }
    ∷ record { account = account; services = quiet_services (some overconfident); call = spy }
    ∷ []
