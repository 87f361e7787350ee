-- ===== src/Permissions/Tests.antt =====
-- Runs of the permission boundary (services/execution/mcp_boundary.py) against an echoing server.
use Prim.Native.String.{String}
use agnostix_ai_quant_fund.Prelude.{ℕ, ◌≡◌, refl, true, some, none, [], ◌∷◌}
use agnostix_ai_quant_fund.Prelude.Outcome.{Outcome, returns, raises}
use agnostix_ai_quant_fund.Permissions.{
  get_bars, get_news, submit_order, mcp_signal, mcp_critic, mcp_execution, allows, ToolCall,
  call_tool, role_tools, tool_eq, execution, place_order, AgentSpec,
}
use agnostix_ai_quant_fund.Permissions.Boundary.{submit_order_unreachable}

abbrev server : String → ToolCall ℕ → Outcome ℕ
server url c = returns 7

abbrev order : ToolCall ℕ
order = record {
  role = mcp_execution;
  tool = submit_order;
  params = some 1;
  authorization_event_id = some "e-1";
  authorized_by_user_id = some "u-1";
}

submit_order_unreachable_example :
    call_tool server (some "http://mcp") order ≡ raises "PermissionError"
submit_order_unreachable_example = submit_order_unreachable server (some "http://mcp") order refl

abbrev bars : ToolCall ℕ
bars = record {
  role = mcp_signal;
  tool = get_bars;
  params = none;
  authorization_event_id = none;
  authorized_by_user_id = none;
}

bars_returned : call_tool server (some "http://mcp") bars ≡ returns 7
unfolding call_tool role_tools tool_eq
bars_returned = refl

abbrev trader : AgentSpec
trader = record {
  agent_id = "trader";
  version = "v1";
  role = execution;
  description = "";
  input_schema_name = "";
  output_schema_name = "";
  model_class = "standard";
  prompt_version = "v0";
  tool_permissions = place_order ∷ [];
}

news_allowed : allows mcp_critic get_news ≡ true
unfolding role_tools tool_eq
news_allowed = refl
