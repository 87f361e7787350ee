-- ===== src/Permissions.antt =====
-- services/execution/mcp_boundary.py and services/agents/contracts.py: which role may use which
-- tool. The server behind the boundary is a parameter; the texts of the errors are left out.
pub mod Boundary
mod Tests
use Prim.Native.String.{String}
use agnostix_ai_quant_fund.Prelude.{
  ℕ, Bool, true, false, not, ◌&&◌, ◌||◌, Option, none, some, List, [], ◌∷◌, any, if◌then◌else◌,
}
use agnostix_ai_quant_fund.Prelude.Text.{str_eq}
use agnostix_ai_quant_fund.Prelude.Outcome.{Outcome, returns, raises}

pub data McpTool : Type 0 where
  get_account get_positions get_bars get_news submit_order : McpTool

-- the roles of the boundary
pub data McpRole : Type 0 where
  mcp_signal mcp_critic mcp_execution : McpRole

-- `ROLE_TOOLS`
pub role_tools : McpRole → List McpTool
role_tools mcp_signal = get_bars ∷ get_news ∷ []
role_tools mcp_critic = get_bars ∷ get_news ∷ []
role_tools mcp_execution = get_account ∷ get_positions ∷ []

unfoldable pub tool_eq : McpTool → McpTool → Bool
tool_eq get_account get_account = true
tool_eq get_positions get_positions = true
tool_eq get_bars get_bars = true
tool_eq get_news get_news = true
tool_eq submit_order submit_order = true
tool_eq _ _ = false

-- `tool in allowed`
abbrev pub allows : McpRole → McpTool → Bool
allows role tool = any (tool_eq tool) (role_tools role)

-- the truth of an identifier
abbrev pub is_given : Option String → Bool
is_given none = false
is_given (some s) = not (str_eq s "")

-- one call of the boundary
pub record ToolCall (P : Type 0) : Type 0 where
  pub role : McpRole
  pub tool : McpTool
  pub params : Option P
  pub authorization_event_id : Option String
  pub authorized_by_user_id : Option String

-- the guard on orders
abbrev needs_provenance : {P : Type 0} → ToolCall P → Bool
needs_provenance c =
    tool_eq c.tool submit_order
    && (not (is_given c.authorization_event_id) || not (is_given c.authorized_by_user_id))

module _ {P R : Type 0} (server : String → ToolCall P → Outcome R) where
  -- the request to the server, if its address is configured
  abbrev post : Option String → ToolCall P → Outcome R
  post none c = raises "McpUnavailableError"
  post (some url) c = if str_eq url "" then raises "McpUnavailableError" else server url c

  -- `ToolGateway.call`
  pub call_tool : Option String → ToolCall P → Outcome R
  call_tool url c =
      if not (allows c.role c.tool)
      then raises "PermissionError"
      else if needs_provenance c
      then raises "PermissionError"
      else post url c

pub data AgentRole : Type 0 where
  research signal critic risk execution portfolio : AgentRole

pub data ToolPermission : Type 0 where
  read_market_data read_news read_snapshot read_portfolio submit_proposal : ToolPermission
  evaluate_risk_rules verify_evidence place_order : ToolPermission

-- `ROLE_PERMISSIONS`
unfoldable pub role_permissions : AgentRole → List ToolPermission
role_permissions research = read_market_data ∷ read_news ∷ read_snapshot ∷ []
role_permissions signal = read_market_data ∷ read_news ∷ submit_proposal ∷ []
role_permissions critic = read_market_data ∷ evaluate_risk_rules ∷ verify_evidence ∷ []
role_permissions risk = read_portfolio ∷ evaluate_risk_rules ∷ []
role_permissions execution = read_portfolio ∷ []
role_permissions portfolio = read_portfolio ∷ []

pub record AgentSpec : Type 0 where
  pub agent_id : String
  pub version : String
  pub role : AgentRole
  pub description : String
  pub input_schema_name : String
  pub output_schema_name : String
  pub model_class : String
  pub prompt_version : String
  pub tool_permissions : List ToolPermission

unfoldable pub spec_with_role_defaults : AgentSpec → AgentSpec
spec_with_role_defaults spec = record spec { tool_permissions = role_permissions spec.role }
