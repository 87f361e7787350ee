-- ===== src/Gateway.antt =====
-- services/model_gateway/gateway.py and services/model_gateway/schemas.py: the choice of a provider,
-- a call, and its telemetry. The adapters of the providers are parameters. Messages, options and
-- usage are carried along as one value of the request and of the response.
pub mod Telemetry
pub mod Routing
pub mod Retry
mod Tests
use Prim.Native.String.{String}
use agnostix_ai_quant_fund.Prelude.{
  ℕ, ◌-◌, Bool, true, false, not, Option, none, some, List, [], ◌∷◌, ◌++◌, length, drop, ltb,
  filter, if◌then◌else◌,
}
use agnostix_ai_quant_fund.Prelude.Text.{str_eq}
use agnostix_ai_quant_fund.Prelude.Outcome.{Outcome, returns, raises}

pub data ModelClass : Type 0 where
  reasoning standard cheap embedding : ModelClass

-- one call of `run`: `messages` stands for the messages and the options of sampling
pub record ModelRequest (M : Type 0) : Type 0 where
  pub task : String
  pub model_class : ModelClass
  pub messages : M
  pub prompt_version : String
  pub caller_agent_id : Option String

-- `content` stands for the text, the structure and the metadata
pub record ModelResponse (C : Type 0) : Type 0 where
  pub provider : String
  pub model : String
  pub content : C
  pub latency_ms : ℕ

pub record CallTelemetry : Type 0 where
  pub task : String
  pub model_class : ModelClass
  pub provider : String
  pub model : String
  pub prompt_version : String
  pub latency_ms : ℕ
  pub success : Bool
  pub error : Option String
  pub caller_agent_id : Option String

pub record TelemetrySink : Type 0 where
  pub records : List CallTelemetry
  pub max_records : ℕ

-- an adapter; `generate` may raise
pub record ProviderAdapter (M C : Type 0) : Type 0 where
  pub name : String
  pub is_configured : Bool
  pub generate : ModelRequest M → Outcome (ModelResponse C)

pub record ModelGateway (M C : Type 0) : Type 0 where
  pub adapters : List (ProviderAdapter M C)
  pub telemetry : TelemetrySink
  pub routing_preference : List String

-- the records that `del records[: len(records) - max]` leaves
pub trim {ℓ} : {A : Type ℓ} → ℕ → List A → List A
trim max xs = if ltb max (length xs) then drop (length xs - max) xs else xs

-- `TelemetrySink.record`
pub record_call : TelemetrySink → CallTelemetry → TelemetrySink
record_call sink t = record sink { records = trim sink.max_records (sink.records ++ (t ∷ [])) }

abbrev is_embedding : ModelClass → Bool
is_embedding embedding = true
is_embedding _ = false

-- the order of the providers: a local one first for embeddings
pub order_for : ModelClass → List String → List String
order_for c preference =
    if is_embedding c
    then "ollama" ∷ filter (λ p. not (str_eq p "ollama")) preference
    else preference

module _ {M C : Type 0} where
  -- `self._adapters.get(name)`; a later adapter of a name replaces an earlier one
  pub get_adapter : List (ProviderAdapter M C) → String → Option (ProviderAdapter M C)
  get_adapter [] name = none
  get_adapter (a ∷ others) name = elim (get_adapter others name) [
    | some b ↦ some b
    | none ↦ if str_eq a.name name then some a else none
  ]

  -- the adapter of a name, if it is configured
  abbrev usable_one : Option (ProviderAdapter M C) → Option (ProviderAdapter M C)
  usable_one none = none
  usable_one (some a) = if a.is_configured then some a else none

  abbrev usable : List (ProviderAdapter M C) → String → Option (ProviderAdapter M C)
  usable adapters name = usable_one (get_adapter adapters name)

  -- `return` from the loop, or what is left of it
  abbrev chosen :
      Option (ProviderAdapter M C) → Outcome (ProviderAdapter M C) → Outcome (ProviderAdapter M C)
  chosen none rest = rest
  chosen (some a) rest = returns a

  -- the loop of `_select_adapter`
  pub first_usable : List (ProviderAdapter M C) → List String → Outcome (ProviderAdapter M C)
  first_usable adapters [] = raises "NoProviderConfiguredError"
  first_usable adapters (name ∷ names) = chosen (usable adapters name) (first_usable adapters names)

  pub select_adapter : ModelGateway M C → ModelClass → Outcome (ProviderAdapter M C)
  select_adapter g c = first_usable g.adapters (order_for c g.routing_preference)

  -- the record of a call that returned
  abbrev success_of : ModelRequest M → ModelResponse C → CallTelemetry
  success_of request response = record {
    task = request.task;
    model_class = request.model_class;
    provider = response.provider;
    model = response.model;
    prompt_version = request.prompt_version;
    latency_ms = response.latency_ms;
    success = true;
    error = none;
    caller_agent_id = request.caller_agent_id;
  }

  -- `_record_failure`
  abbrev failure_of : ModelRequest M → ProviderAdapter M C → String → CallTelemetry
  failure_of request adapter error = record {
    task = request.task;
    model_class = request.model_class;
    provider = adapter.name;
    model = "unavailable";
    prompt_version = request.prompt_version;
    latency_ms = 0;
    success = false;
    error = some error;
    caller_agent_id = request.caller_agent_id;
  }

  abbrev noted_call : ModelGateway M C → CallTelemetry → ModelGateway M C
  noted_call g t = record g { telemetry = record_call g.telemetry t }

  -- after the adapter has answered
  answered :
      ModelGateway M C
      → ModelRequest M
      → ProviderAdapter M C
      → Outcome (ModelResponse C)
      → ModelGateway M C × Outcome (ModelResponse C)
  answered g request a (raises e) = (noted_call g (failure_of request a e), raises e)
  answered g request a (returns r) = (noted_call g (success_of request r), returns r)

  selected :
      ModelGateway M C
      → ModelRequest M
      → Outcome (ProviderAdapter M C)
      → ModelGateway M C × Outcome (ModelResponse C)
  selected g request (raises e) = (g, raises e)
  selected g request (returns a) = answered g request a (a.generate request)

  -- `ModelGateway.run`
  pub run_model : ModelGateway M C → ModelRequest M → ModelGateway M C × Outcome (ModelResponse C)
  run_model g request = selected g request (select_adapter g request.model_class)
