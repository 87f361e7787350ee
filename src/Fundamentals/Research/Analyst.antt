-- ===== src/Fundamentals/Research/Analyst.antt =====
-- services/fundamentals/research/agent.py: the agent that writes the thesis. The gateway and the
-- validation of a payload against the schema of the thesis are parameters that may raise.
use Prim.Native.String.{String}
use agnostix_ai_quant_fund.Prelude.{ℕ, Option, none, some, List, [], ◌∷◌, ◌++◌}
use agnostix_ai_quant_fund.Prelude.Outcome.{Outcome, returns, raises}
use agnostix_ai_quant_fund.Fundamentals.Context.{FundamentalResearchContext}
use agnostix_ai_quant_fund.Fundamentals.Research.{InvestmentThesis}
use agnostix_ai_quant_fund.Fundamentals.Research.Trail.{
  Event, research_agent_started, research_agent_failed, research_agent_completed, Usage, Response,
  extract,
}

-- the gateway of an agent; `validate` fills in the symbol and the time that a payload lacks
pub record Author (P W : Type 0) : Type 0 where
  pub run : FundamentalResearchContext W → Outcome (Response P W)
  pub loads : String → Option P
  pub validate : String → P → Outcome (InvestmentThesis W)

pub record AgentRunResult (W : Type 0) : Type 0 where
  pub thesis : InvestmentThesis W
  pub provider : String
  pub model : String
  pub context_version : String
  pub context_hash : String
  pub latency_ms : ℕ
  pub input_tokens : Option ℕ
  pub output_tokens : Option ℕ
  pub total_tokens : Option ℕ
  pub estimated_cost_usd : Option W

abbrev text_or : String → Option String → String
text_or d none = d
text_or d (some t) = t

abbrev count_or_zero : Option ℕ → ℕ
count_or_zero none = 0
count_or_zero (some n) = n

abbrev pub Ran : Type 0 → Type 0
Ran W = List (Event W) × Outcome (AgentRunResult W)

module _ {W : Type 0} where
  abbrev usage_int : (Usage W → Option ℕ) → Option (Usage W) → Option ℕ
  usage_int field none = none
  usage_int field (some u) = field u

  abbrev usage_float : Option (Usage W) → Option W
  usage_float none = none
  usage_float (some u) = u.estimated_cost_usd

  abbrev failed : FundamentalResearchContext W → String → String → List (Event W) → Ran W
  failed ctx error e log = (log ++ (research_agent_failed ctx.symbol error ∷ []), raises e)

module _ {P W : Type 0} where
  abbrev run_result :
      FundamentalResearchContext W → Response P W → InvestmentThesis W → AgentRunResult W
  run_result ctx r thesis = record {
    thesis = thesis;
    provider = text_or "unknown" r.provider;
    model = text_or "unknown" r.model;
    context_version = ctx.context_version;
    context_hash = ctx.context_hash;
    latency_ms = count_or_zero r.latency_ms;
    input_tokens = usage_int (λ u. u.prompt_tokens) r.usage;
    output_tokens = usage_int (λ u. u.completion_tokens) r.usage;
    total_tokens = usage_int (λ u. u.total_tokens) r.usage;
    estimated_cost_usd = usage_float r.usage;
  }

  -- after the validation
  abbrev validated :
      FundamentalResearchContext W
      → Response P W
      → Outcome (InvestmentThesis W)
      → List (Event W)
      → Ran W
  validated ctx r (raises e) log = failed ctx "schema violation" e log
  validated ctx r (returns thesis) log =
      let result = run_result ctx r thesis in
      (
        log
            ++ (research_agent_completed ctx.symbol thesis.fundamental_view thesis.confidence
                  result.provider result.model
                ∷ []),
        returns result,
      )

  abbrev read :
      Author P W → FundamentalResearchContext W → Response P W → Option P → List (Event W) → Ran W
  read author ctx r none log = failed ctx "unparseable model output" "ValueError" log
  read author ctx r (some payload) log = validated ctx r (author.validate ctx.symbol payload) log

  -- after the call of the gateway
  abbrev answered :
      Author P W → FundamentalResearchContext W → Outcome (Response P W) → List (Event W) → Ran W
  answered author ctx (raises e) log = failed ctx e e log
  answered author ctx (returns r) log = read author ctx r (extract author.loads r) log

  -- `FundamentalResearchAgent.run`
  pub agent_run : Author P W → FundamentalResearchContext W → List (Event W) → Ran W
  agent_run author ctx log =
      answered author ctx (author.run ctx)
        (log ++ (research_agent_started ctx.symbol ctx.context_hash ∷ []))
