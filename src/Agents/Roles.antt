-- ===== src/Agents/Roles.antt =====
-- services/agents/base.py and services/agents/roles.py: which agents can be made of which role, and
-- the events of an agent's lifecycle. `describe`, a view, is left out.
use Prim.Native.String.{String, ◌++◌ as text_append}
use agnostix_ai_quant_fund.Prelude.{
  ◌≡◌, ◌↔◌, refl, Bool, true, false, List, [], ◌∷◌, any, if◌then◌else◌,
}
use agnostix_ai_quant_fund.Prelude.Outcome.{Outcome, returns, raises, ◌>>=◌}
use agnostix_ai_quant_fund.Permissions.{
  AgentRole, research, signal, critic, risk, execution, portfolio, ToolPermission, read_market_data,
  read_news, read_snapshot, read_portfolio, submit_proposal, evaluate_risk_rules, verify_evidence,
  place_order, AgentSpec, role_permissions, spec_with_role_defaults,
}

unfoldable pub permission_eq : ToolPermission → ToolPermission → Bool
permission_eq read_market_data read_market_data = true
permission_eq read_news read_news = true
permission_eq read_snapshot read_snapshot = true
permission_eq read_portfolio read_portfolio = true
permission_eq submit_proposal submit_proposal = true
permission_eq evaluate_risk_rules evaluate_risk_rules = true
permission_eq verify_evidence verify_evidence = true
permission_eq place_order place_order = true
permission_eq _ _ = false

-- `AgentSpec.qualified_id`
pub qualified_id : AgentSpec → String
qualified_id spec = text_append spec.agent_id (text_append "_" spec.version)

-- `BaseAgent.require_permission`
pub require_permission : AgentSpec → ToolPermission → Outcome (Unit {0})
require_permission spec permission =
    if any (permission_eq permission) spec.tool_permissions
    then returns tt
    else raises "PermissionDeniedError"

-- the classes of services/agents/roles.py
pub data AgentClass : Type 0 where
  research_agent signal_agent critic_agent risk_agent execution_agent portfolio_agent : AgentClass

abbrev all_required : AgentSpec → List ToolPermission → Outcome AgentSpec
all_required spec [] = returns spec
all_required spec (p ∷ ps) = require_permission spec p >>= λ _. all_required spec ps

-- what a constructor requires after `BaseAgent.__init__`, the superclass's first
pub required : AgentClass → List ToolPermission
required research_agent = read_market_data ∷ []
required signal_agent = read_market_data ∷ submit_proposal ∷ []
required critic_agent = evaluate_risk_rules ∷ verify_evidence ∷ []
required risk_agent = read_portfolio ∷ []
required execution_agent = []
required portfolio_agent = read_portfolio ∷ []

-- `__init__` of a class: the spec that the agent keeps
pub make_agent : AgentClass → AgentSpec → Outcome AgentSpec
make_agent kind spec = all_required (spec_with_role_defaults spec) (required kind)

-- the value of the enumeration
abbrev role_text : AgentRole → String
role_text research = "research"
role_text signal = "signal"
role_text critic = "critic"
role_text risk = "risk"
role_text execution = "execution"
role_text portfolio = "portfolio"

module _ {S : Type 0}
    (emit : String → String → List (String × String) → S → S × Outcome (Unit {0})) where
  -- `BaseAgent.initialize`
  initialize : AgentSpec → S → S × Outcome (Unit {0})
  initialize spec =
      emit (qualified_id spec) "agent_initialized" (("role", role_text spec.role) ∷ [])

  -- `BaseAgent.shutdown`
  shutdown : AgentSpec → S → S × Outcome (Unit {0})
  shutdown spec = emit (qualified_id spec) "agent_stopped" []

-- the roles that an agent of a class can have
abbrev pub Fits : AgentClass → AgentRole → Type 0
Fits research_agent research = Unit
Fits research_agent signal = Unit
Fits research_agent critic = Unit
Fits signal_agent signal = Unit
Fits critic_agent critic = Unit
Fits risk_agent risk = Unit
Fits risk_agent execution = Unit
Fits risk_agent portfolio = Unit
Fits execution_agent role = Unit
Fits portfolio_agent risk = Unit
Fits portfolio_agent execution = Unit
Fits portfolio_agent portfolio = Unit
Fits _ _ = ⊥

required_iff :
    (kind : AgentClass) (role : AgentRole) (spec : AgentSpec)
    → spec.tool_permissions ≡ role_permissions role
    → (all_required spec (required kind) ≡ returns spec) ↔ Fits kind role
unfolding required require_permission role_permissions permission_eq
required_iff research_agent research spec h = (λ _. tt, λ _. rw h refl)
required_iff research_agent signal spec h = (λ _. tt, λ _. rw h refl)
required_iff research_agent critic spec h = (λ _. tt, λ _. rw h refl)
required_iff research_agent risk spec h = (λ e. cc (rw h at e), λ f. absurd f)
required_iff research_agent execution spec h = (λ e. cc (rw h at e), λ f. absurd f)
required_iff research_agent portfolio spec h = (λ e. cc (rw h at e), λ f. absurd f)
required_iff signal_agent research spec h = (λ e. cc (rw h at e), λ f. absurd f)
required_iff signal_agent signal spec h = (λ _. tt, λ _. rw h refl)
required_iff signal_agent critic spec h = (λ e. cc (rw h at e), λ f. absurd f)
required_iff signal_agent risk spec h = (λ e. cc (rw h at e), λ f. absurd f)
required_iff signal_agent execution spec h = (λ e. cc (rw h at e), λ f. absurd f)
required_iff signal_agent portfolio spec h = (λ e. cc (rw h at e), λ f. absurd f)
required_iff critic_agent research spec h = (λ e. cc (rw h at e), λ f. absurd f)
required_iff critic_agent signal spec h = (λ e. cc (rw h at e), λ f. absurd f)
required_iff critic_agent critic spec h = (λ _. tt, λ _. rw h refl)
required_iff critic_agent risk spec h = (λ e. cc (rw h at e), λ f. absurd f)
required_iff critic_agent execution spec h = (λ e. cc (rw h at e), λ f. absurd f)
required_iff critic_agent portfolio spec h = (λ e. cc (rw h at e), λ f. absurd f)
required_iff risk_agent research spec h = (λ e. cc (rw h at e), λ f. absurd f)
required_iff risk_agent signal spec h = (λ e. cc (rw h at e), λ f. absurd f)
required_iff risk_agent critic spec h = (λ e. cc (rw h at e), λ f. absurd f)
required_iff risk_agent risk spec h = (λ _. tt, λ _. rw h refl)
required_iff risk_agent execution spec h = (λ _. tt, λ _. rw h refl)
required_iff risk_agent portfolio spec h = (λ _. tt, λ _. rw h refl)
required_iff execution_agent research spec h = (λ _. tt, λ _. rw h refl)
required_iff execution_agent signal spec h = (λ _. tt, λ _. rw h refl)
required_iff execution_agent critic spec h = (λ _. tt, λ _. rw h refl)
required_iff execution_agent risk spec h = (λ _. tt, λ _. rw h refl)
required_iff execution_agent execution spec h = (λ _. tt, λ _. rw h refl)
required_iff execution_agent portfolio spec h = (λ _. tt, λ _. rw h refl)
required_iff portfolio_agent research spec h = (λ e. cc (rw h at e), λ f. absurd f)
required_iff portfolio_agent signal spec h = (λ e. cc (rw h at e), λ f. absurd f)
required_iff portfolio_agent critic spec h = (λ e. cc (rw h at e), λ f. absurd f)
required_iff portfolio_agent risk spec h = (λ _. tt, λ _. rw h refl)
required_iff portfolio_agent execution spec h = (λ _. tt, λ _. rw h refl)
required_iff portfolio_agent portfolio spec h = (λ _. tt, λ _. rw h refl)

no_orders : (role : AgentRole) → any (permission_eq place_order) (role_permissions role) ≡ false
unfolding role_permissions permission_eq
no_orders research = refl
no_orders signal = refl
no_orders critic = refl
no_orders risk = refl
no_orders execution = refl
no_orders portfolio = refl

-- An agent of a class is made exactly of the roles that fit the class, and keeps the default
-- permissions of its role, which never include placing orders.
make_agent_iff :
    (kind : AgentClass) (spec : AgentSpec)
    → ((make_agent kind spec ≡ returns (spec_with_role_defaults spec)) ↔ Fits kind spec.role)
      × (any (permission_eq place_order) (spec_with_role_defaults spec).tool_permissions ≡ false)
unfolding make_agent spec_with_role_defaults
make_agent_iff kind spec =
    (required_iff kind spec.role (spec_with_role_defaults spec) refl, no_orders spec.role)
