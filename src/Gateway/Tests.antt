-- ===== src/Gateway/Tests.antt =====
-- Runs of the gateway (services/model_gateway) with two providers, of which one is configured.
use Prim.Native.String.{String}
use agnostix_ai_quant_fund.Prelude.{ℕ, ◌≡◌, refl, Bool, true, false, none, [], ◌∷◌, ◌++◌, arith}
use agnostix_ai_quant_fund.Prelude.Outcome.{returns}
use agnostix_ai_quant_fund.Gateway.{
  reasoning, ModelRequest, CallTelemetry, ProviderAdapter, ModelGateway, order_for, get_adapter,
  first_usable, select_adapter, run_model,
}
use agnostix_ai_quant_fund.Gateway.Retry.{Answer, transport_error, responded, post_loop}
use agnostix_ai_quant_fund.Gateway.Retry.Bounded.{IsBounded, post_loop-IsBounded}
use agnostix_ai_quant_fund.Prelude.{zero, suc}
use agnostix_ai_quant_fund.Gateway.Telemetry.{
  keep_last, record_calls, record_calls-keep_last, Logged, run_model-Logged,
}

abbrev adapter : String → Bool → ProviderAdapter ℕ ℕ
adapter name configured = record {
  name = name;
  is_configured = configured;
  generate = λ request.
      returns (record { provider = name; model = "m"; content = request.messages; latency_ms = 5 });
}

abbrev gateway : ModelGateway ℕ ℕ
gateway = record {
  adapters = adapter "anthropic" false ∷ adapter "ollama" true ∷ [];
  telemetry = record { records = []; max_records = 1 };
  routing_preference = "anthropic" ∷ "openai" ∷ "ollama" ∷ [];
}

abbrev request : ModelRequest ℕ
request = record {
  task = "options_signal";
  model_class = reasoning;
  messages = 3;
  prompt_version = "v0";
  caller_agent_id = none;
}

chosen_ollama : select_adapter gateway reasoning ≡ returns (adapter "ollama" true)
unfolding select_adapter first_usable get_adapter order_for
chosen_ollama = refl

run_model-Logged_example :
    Logged gateway request (run_model gateway request).0 (run_model gateway request).1
run_model-Logged_example = run_model-Logged gateway request

abbrev telemetry : String → CallTelemetry
telemetry task = record {
  task = task;
  model_class = reasoning;
  provider = "ollama";
  model = "m";
  prompt_version = "v0";
  latency_ms = 5;
  success = true;
  error = none;
  caller_agent_id = none;
}

record_calls-keep_last_example :
    (record_calls gateway.telemetry (telemetry "a" ∷ telemetry "b" ∷ [])).records
    ≡ keep_last 1 ([] ++ (telemetry "a" ∷ telemetry "b" ∷ []))
record_calls-keep_last_example =
    record_calls-keep_last (telemetry "a" ∷ telemetry "b" ∷ []) gateway.telemetry (omega arith)

-- a failure of the transport, a status 503, and then a response
abbrev flaky : ℕ → Answer ℕ
flaky zero = transport_error
flaky (suc zero) = responded 503 0
flaky (suc (suc n)) = responded 200 7

post_loop-IsBounded_example : IsBounded flaky 2 0 (post_loop flaky 2 0)
post_loop-IsBounded_example = post_loop-IsBounded flaky 2 0
