-- ===== src/Fundamentals/Research/Trail.antt =====
-- The events that the research agents emit (services/fundamentals/research), and what a gateway
-- answers them. An emitter is taken to return.
use Prim.Native.String.{String}
use agnostix_ai_quant_fund.Prelude.{ℕ, Option, none, some, if◌then◌else◌}
use agnostix_ai_quant_fund.Prelude.Text.{str_eq}
use agnostix_ai_quant_fund.Fundamentals.Research.{FundamentalView, Verdict}

pub data Event (W : Type 0) : Type 0 where
  research_agent_started : String → String → Event W
  research_agent_failed : String → String → Event W
  research_agent_completed : String → FundamentalView → W → String → String → Event W
  research_critic_started : String → Event W
  research_critic_completed : String → Verdict → Event W
  evaluation_model_finished : String → String → String → String → Option String → Event W

-- the token counts and the cost of a response, where the provider reports them
pub record Usage (W : Type 0) : Type 0 where
  pub prompt_tokens : Option ℕ
  pub completion_tokens : Option ℕ
  pub total_tokens : Option ℕ
  pub estimated_cost_usd : Option W

-- a response of the gateway; `structured` is a dictionary `P`
pub record Response (P W : Type 0) : Type 0 where
  pub content : Option String
  pub structured : Option P
  pub provider : Option String
  pub model : Option String
  pub latency_ms : Option ℕ
  pub usage : Option (Usage W)

module _ {P : Type 0} (loads : String → Option P) where
  -- the parsed content, if it is there and a dictionary
  abbrev parsed : Option String → Option P
  parsed none = none
  parsed (some t) = if str_eq t "" then none else loads t

  abbrev first_dict : Option P → Option String → Option P
  first_dict (some p) content = some p
  first_dict none content = parsed content

module _ {P W : Type 0} (loads : String → Option P) where
  -- `_extract` of the critic, and the payload of the agent
  unfoldable pub extract : Response P W → Option P
  extract r = first_dict loads r.structured r.content
