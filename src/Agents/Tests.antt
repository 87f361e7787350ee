-- ===== src/Agents/Tests.antt =====
-- Runs of the emitters, the roles and the pipeline (services/agents).
use Prim.Native.String.{String}
use agnostix_ai_quant_fund.Prelude.{ℕ, ◌≡◌, refl, inl, inr, none, List, [], ◌∷◌, ◌++◌}
use agnostix_ai_quant_fund.Prelude.Outcome.{raises}
use agnostix_ai_quant_fund.Permissions.{critic, AgentSpec}
use agnostix_ai_quant_fund.Agents.Events.{
  text, other, Emission, EventSinkRegistry, registry_emit, CorrelatedEmitter, correlated_emits,
}
use agnostix_ai_quant_fund.Agents.Events.Numbered.{AreNumbered, correlated_emits-AreNumbered}
use agnostix_ai_quant_fund.Agents.Pipeline
use agnostix_ai_quant_fund.Agents.Pipeline.{Node, build_pipeline_graph, Walk, stay, go, Walk-gated}

-- an emitter whose sink fails, and a payload that names another run
abbrev emitter : CorrelatedEmitter (EventSinkRegistry ℕ)
emitter = record {
  inner = record { sinks = (λ e. raises "ConnectionError") ∷ []; memory = [] };
  run_id = "run-7";
  key = "run_id";
  seq = 0;
}

abbrev event : String → Emission ℕ
event kind = record {
  id = "e";
  timestamp = 0;
  agent_id = "critic_v1";
  event_type = kind;
  payload = ("run_id", text "run-6") ∷ ("symbol", other 3) ∷ [];
  proposal_id = none;
}

abbrev events : List (Emission ℕ)
events = event "started" ∷ event "completed" ∷ []

correlated_emits-AreNumbered_example :
    (rs : List (Emission ℕ)) × ((correlated_emits registry_emit events emitter).inner.memory
      ≡ [] ++ rs)
    × AreNumbered "run_id" "run-7" 1 events rs
correlated_emits-AreNumbered_example = correlated_emits-AreNumbered emitter events refl

abbrev spec : AgentSpec
spec = record {
  agent_id = "fundamental_research_critic";
  version = "v1";
  role = critic;
  description = "";
  input_schema_name = "CriticInput";
  output_schema_name = "CriticReviewOutput";
  model_class = "standard";
  prompt_version = "m2-critic-v1";
  tool_permissions = [];
}

abbrev path : List Node
path = Pipeline.critic ∷ Pipeline.risk ∷ Pipeline.human_gate ∷ Pipeline.execution ∷ []

whole-Walk : Walk build_pipeline_graph Pipeline.signal path Pipeline.execution
unfolding build_pipeline_graph
whole-Walk = go (inl (refl, refl)) (
    go (inr (inl (refl, refl)))
      (go (inr (inr (inl (refl, refl)))) (go (inr (inr (inr (inl (refl, refl))))) stay)))

Walk-gated_example :
    Pipeline.signal ∷ path
    ≡ Pipeline.signal ∷ Pipeline.critic ∷ Pipeline.risk ∷ Pipeline.human_gate ∷ Pipeline.execution
      ∷ []
unfolding build_pipeline_graph
Walk-gated_example = Walk-gated (inl refl) whole-Walk
