-- ===== src/Api/Providers/Tests.antt =====
-- Runs of the provider management (apps/api).
use Prim.Native.String.{String}
use agnostix_ai_quant_fund.Prelude.{
  ℕ, ◌≡◌, refl, Bool, true, false, Option, none, some, List, [], ◌∷◌, if◌then◌else◌,
}
use agnostix_ai_quant_fund.Prelude.Outcome.{returns, raises}
use agnostix_ai_quant_fund.Api.Auth.{pm}
use agnostix_ai_quant_fund.Api.Providers.{
  ai, own, unknown, ProviderConfiguration, Database, ModelConfigurationIn,
}
use agnostix_ai_quant_fund.Api.Providers.Secrets.{Fernet, Texts}
use agnostix_ai_quant_fund.Api.Providers.Store.Rows.{hidden}
use agnostix_ai_quant_fund.Api.Providers.Service.{Setting, Moment}
use agnostix_ai_quant_fund.Api.Providers.Service.Probe.{Services}
use agnostix_ai_quant_fund.Api.Providers.Service.Effect.{Appended}
use agnostix_ai_quant_fund.Api.Providers.Service.Models.{handle-model_request}
use agnostix_ai_quant_fund.Api.Providers.Service.Routes.{
  Request, credential_request, model_request, handle,
}
use agnostix_ai_quant_fund.Api.Providers.Service.Tenancy.{
  AreSafe, Served, run, handle-hidden, handle-Appended, run-AreSafe,
}

-- a cipher that only marks what it encrypts
abbrev fernet : Fernet
fernet = record {
  is_key = λ key. true;
  encrypt = λ key value. String.◌∷◌ "!" value;
  decrypt = λ key ciphertext. marked ciphertext;
}
  where
    marked : String → Option String
    marked String.[] = none
    marked (String.◌∷◌ c s) = some s

-- JSON of one dictionary
abbrev json : Texts
json = record { dumps = λ values. "{}"; loads = λ raw. returns [] }

abbrev setting : Setting
setting = record { fernet = fernet; json = json; key = some "k"; repr = λ value. "" }

abbrev services : Services
services = record {
  run_gateway = λ provider model key url. none;
  get_latest_quote = λ key secret feed. none;
  get_news = λ key secret. none;
  get_models = λ url key name. agnostix_ai_quant_fund.Prelude.inr [];
}

abbrev moment : Moment
moment = record { now = 5; latency_ms = 1; new_id = 9; model_id = λ n. n }

abbrev configuration : ℕ → ℕ → ProviderConfiguration
configuration id user = record {
  id = id;
  kind = ai;
  provider = "openai";
  display_name = "OpenAI";
  enabled = true;
  scope = own;
  scope_id = some user;
  created_by = user;
  last_tested_at = none;
  connection_status = unknown;
  metadata_json = [];
  secret_ciphertext = none;
  credential_version = 1;
}

-- one configuration of each of two users
abbrev db : Database
db = record {
  configurations = configuration 1 7 ∷ configuration 2 8 ∷ [];
  models = [];
  events = [];
}

abbrev request : Request
request = credential_request ai 1 (record { api_key = "sk"; secret_key = none })

handle-hidden_example :
    hidden 7 (handle setting services moment 7 (some pm) request db).1.configurations
    ≡ hidden 7 db.configurations
handle-hidden_example =
    handle-hidden setting services moment 7 (some pm) request db ((refl, tt), (tt, tt))

handle-Appended_example :
    Appended 7 db.events (handle setting services moment 7 (some pm) request db).1.events
handle-Appended_example = handle-Appended setting services moment 7 (some pm) request db

abbrev served : List Served
served =
    record { services = services; moment = moment; user = 7; role = some pm; request = request }
    ∷ []

run-AreSafe_example : AreSafe (run setting served db)
run-AreSafe_example = run-AreSafe setting served db ((tt, (tt, tt)), tt)

abbrev model : ModelConfigurationIn
model = record {
  model = "gpt";
  display_name = none;
  enabled = true;
  is_default = true;
  metadata = [];
}

handle-model_request_example :
    (e : String) × (handle setting services moment 7 (some pm) (model_request 1 model) db
      ≡ (raises e, db))
handle-model_request_example = handle-model_request setting moment 7 services (some pm) 1 model db
