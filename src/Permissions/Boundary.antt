-- ===== src/Permissions/Boundary.antt =====
-- No role reaches the tool that submits orders, and what reaches the server was allowed
-- (services/execution/mcp_boundary.py, services/agents/contracts.py).
use Prim.Native.String.{String}
use agnostix_ai_quant_fund.Prelude.{
  ◌≡◌, ◌≢◌, ◌⊎◌, refl, true, false, Option, none, some, List, [], ◌∷◌, All, inl, inr, Bool-cases,
}
use agnostix_ai_quant_fund.Prelude.Text.{str_eq}
use agnostix_ai_quant_fund.Prelude.Outcome.{Outcome, returns, raises}
use agnostix_ai_quant_fund.Permissions.{
  McpTool, submit_order, get_bars, get_news, get_account, get_positions, McpRole, mcp_signal,
  mcp_critic, mcp_execution, role_tools, tool_eq, allows, ToolCall, needs_provenance, post,
  call_tool, AgentRole, research, signal, critic, risk, execution, portfolio, ToolPermission,
  read_market_data, read_news, read_portfolio, place_order, role_permissions, AgentSpec,
  spec_with_role_defaults,
}

submits_nowhere : (role : McpRole) → allows role submit_order ≡ false
unfolding role_tools tool_eq
submits_nowhere mcp_signal = refl
submits_nowhere mcp_critic = refl
submits_nowhere mcp_execution = refl

module _ {P R : Type 0} (server : String → ToolCall P → Outcome R) where
  -- `submit_order` raises `PermissionError` for every role, whatever authorization the call carries:
  -- the check of the authorization is never reached.
  pub submit_order_unreachable :
      (url : Option String) (c : ToolCall P)
      → c.tool ≡ submit_order
      → call_tool server url c ≡ raises "PermissionError"
  unfolding call_tool
  submit_order_unreachable url c e =
      let denied : allows c.role c.tool ≡ false = rw e (submits_nowhere c.role) in rw denied refl

  returned_by_post :
      (url : Option String) (c : ToolCall P) {r : R}
      → post server url c ≡ returns r
      → (address : String) × (url ≡ some address) × (server address c ≡ returns r)
  returned_by_post none c h = cc
  returned_by_post (some a) c h = elim (Bool-cases (str_eq a "")) [
    | inl t ↦ cc (rw t at h)
    | inr t ↦ (a, refl, rw t at h)
  ]

  -- What `ToolGateway.call` returns is the answer of the configured server to the same call, and the
  -- tool is one of the tools of the role.
  call_tool_allowed :
      (url : Option String) (c : ToolCall P) {r : R}
      → call_tool server url c ≡ returns r
      → (allows c.role c.tool ≡ true)
        × ((address : String) × (url ≡ some address) × (server address c ≡ returns r))
  unfolding call_tool
  call_tool_allowed url c h = elim (Bool-cases (allows c.role c.tool)) [
    | inl a ↦ elim (Bool-cases (needs_provenance c)) [
      | inl n ↦ cc (rw (a, n) at h)
      | inr n ↦ (a, returned_by_post url c (rw (a, n) at h))
    ]
    | inr a ↦ cc (rw a at h)
  ]

-- the permission that a tool of the boundary needs in the contracts of the agents
abbrev pub permission_for : McpTool → ToolPermission
permission_for get_account = read_portfolio
permission_for get_positions = read_portfolio
permission_for get_bars = read_market_data
permission_for get_news = read_news
permission_for submit_order = place_order

-- the role of an agent at the boundary
abbrev pub agent_role : McpRole → AgentRole
agent_role mcp_signal = signal
agent_role mcp_critic = critic
agent_role mcp_execution = execution

-- Whatever an agent's permissions were, after `spec_with_role_defaults` none of them is
-- `place_order`, its role is the same, and the defaults do not change when they are applied again.
spec_with_role_defaults_safe :
    (spec : AgentSpec)
    → All (λ p. p ≢ place_order) (spec_with_role_defaults spec).tool_permissions
      × ((spec_with_role_defaults spec).role ≡ spec.role)
      × (spec_with_role_defaults (spec_with_role_defaults spec) ≡ spec_with_role_defaults spec)
unfolding spec_with_role_defaults role_permissions
spec_with_role_defaults_safe spec = (no_order spec.role, refl, refl)
  where
    no_order : (r : AgentRole) → All (λ p. p ≢ place_order) (role_permissions r)
    no_order research = ((λ e. cc), ((λ e. cc), ((λ e. cc), tt)))
    no_order signal = ((λ e. cc), ((λ e. cc), ((λ e. cc), tt)))
    no_order critic = ((λ e. cc), ((λ e. cc), ((λ e. cc), tt)))
    no_order risk = ((λ e. cc), ((λ e. cc), tt))
    no_order execution = ((λ e. cc), tt)
    no_order portfolio = ((λ e. cc), tt)

-- `p` is in the list
abbrev pub Holds : ToolPermission → List ToolPermission → Type 0
Holds p [] = ⊥
Holds p (q ∷ qs) = (q ≡ p) ⊎ Holds p qs

-- A tool that the boundary allows to a role is one that the contracts of the agents permit to that
-- role, with one exception: the critic may read news at the boundary, which its contract omits.
allowed_permitted :
    (role : McpRole) (tool : McpTool)
    → allows role tool ≡ true
    → Holds (permission_for tool) (role_permissions (agent_role role))
      ⊎ ((role ≡ mcp_critic)
          × (tool ≡ get_news)
          × ¬ Holds (permission_for tool) (role_permissions (agent_role role)))
unfolding role_tools role_permissions tool_eq
allowed_permitted mcp_signal get_bars h = inl (inl refl)
allowed_permitted mcp_signal get_news h = inl (inr (inl refl))
allowed_permitted mcp_critic get_bars h = inl (inl refl)
allowed_permitted mcp_critic get_news h = inr (
  refl,
  refl,
  λ x. elim x [
    | inl e ↦ cc
    | inr (inl e) ↦ cc
    | inr (inr (inl e)) ↦ cc
    | inr (inr (inr e)) ↦ absurd e
  ],
)
allowed_permitted mcp_execution get_account h = inl (inl refl)
allowed_permitted mcp_execution get_positions h = inl (inl refl)
allowed_permitted mcp_signal get_account h = cc
allowed_permitted mcp_signal get_positions h = cc
allowed_permitted mcp_signal submit_order h = cc
allowed_permitted mcp_critic get_account h = cc
allowed_permitted mcp_critic get_positions h = cc
allowed_permitted mcp_critic submit_order h = cc
allowed_permitted mcp_execution get_bars h = cc
allowed_permitted mcp_execution get_news h = cc
allowed_permitted mcp_execution submit_order h = cc
