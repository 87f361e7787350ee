-- ===== src/Api/Providers/Service.antt =====
-- apps/api/app/services/provider_management.py: the service. Its session is the database before and
-- after; an exception undoes what was written, so that none is kept with it. The answers of other
-- services, the clock and new identifiers are parameters.
pub mod Changes
pub mod Effect
pub mod Writes
pub mod Probes
pub mod Probe
pub mod Routes
pub mod Tenancy
pub mod Models
use Prim.Native.String.{String}
use agnostix_ai_quant_fund.Prelude.{
  ℕ, ◌+◌, Bool, true, false, not, ◌&&◌, ◌||◌, Option, none, some, List, [], ◌∷◌, ◌++◌, any, filter,
  is_some, ◌==◌, if◌then◌else◌,
}
use agnostix_ai_quant_fund.Prelude.Text.{str_eq}
use agnostix_ai_quant_fund.Prelude.Dicts.{lookup, assign}
use agnostix_ai_quant_fund.Prelude.Outcome.{Outcome, returns, raises, ◌>>=◌}
use agnostix_ai_quant_fund.Api.Providers.{
  Json, text, Metadata, ProviderKind, ai, market, ProviderScope, platform, organization, own,
  unknown, ProviderConfiguration, ProviderModelConfiguration, AgentEvent, Database, ProviderCreate,
  ProviderUpdate, CredentialReplace, ModelConfigurationIn, ModelConfigurationOut, ProviderOut,
}
use agnostix_ai_quant_fund.Api.Providers.Metadata.{safe_metadata, remove, default_model_of}
use agnostix_ai_quant_fund.Api.Providers.Secrets.{
  Fernet, Texts, require_key, mask_secret, credentials_ciphertext, credentials_of,
}
use agnostix_ai_quant_fund.Api.Providers.Attributes.{validate_model}
use agnostix_ai_quant_fund.Api.Providers.Store.{
  kind_eq, scope_eq, same_id, get_visible, list_visible, models_of, clear_default, delete_row,
  put_row, insert_row, insert_model,
}

-- what the service is given: the cipher, `json`, the setting of the key, and `str` of JSON values
pub record Setting : Type 0 where
  pub fernet : Fernet
  pub json : Texts
  pub key : Option String
  pub repr : Json → String

-- the clock, the measured latency, and the identifiers of new rows
pub record Moment : Type 0 where
  pub now : ℕ
  pub latency_ms : ℕ
  pub new_id : ℕ
  pub model_id : ℕ → ℕ

-- `AI_PROVIDERS`, which are the `known_providers` of the gateway, and `DATA_PROVIDERS`
abbrev pub known_providers : List String
known_providers = "anthropic" ∷ "custom" ∷ "ollama" ∷ "openai" ∷ "openrouter" ∷ []

abbrev pub supported : ProviderKind → List String
supported ai = known_providers
supported market = "alpaca" ∷ []

abbrev pub data_capabilities : List String
data_capabilities = "market_data" ∷ "news" ∷ "security_metadata" ∷ "trading" ∷ []

-- `raise HTTPException(code)` where the test holds
unfoldable pub reject : String → Bool → Outcome (Unit {0})
reject code bad = if bad then raises code else returns tt

abbrev pub is_set : Option String → Bool
is_set none = false
is_set (some s) = not (str_eq s "")

-- `_audit`
unfoldable pub audit : ℕ → String → ℕ → Database → Database
audit user event_type id db = record db {
  events =
      db.events ++ (record { user_id = user; event_type = event_type; configuration_id = id } ∷ []);
}

-- the row of an object that is changed and flushed
unfoldable pub save : ProviderConfiguration → Database → Database
save row db = record db { configurations = put_row row db.configurations }

-- `_get_row`
unfoldable pub get_row : ℕ → ProviderKind → ℕ → Database → Outcome ProviderConfiguration
get_row user kind id db = of_kind (get_visible db id user)
  where
    of_kind : Option ProviderConfiguration → Outcome ProviderConfiguration
    of_kind none = raises "HTTPException 404"
    of_kind (some row) = if kind_eq row.kind kind then returns row else raises "HTTPException 404"

-- `dict.update`
unfoldable pub update_all : Metadata → Metadata → Metadata
update_all metadata [] = metadata
update_all metadata ((name, value) ∷ incoming) =
    update_all (assign str_eq metadata name value) incoming

-- `metadata[name] = value` where there is a value
unfoldable pub put_text : String → Option String → Metadata → Metadata
put_text name none metadata = metadata
put_text name (some value) metadata = assign str_eq metadata name (text value)

-- the same for a field that a client sets, where None removes the name
unfoldable pub set_text : String → Option (Option String) → Metadata → Metadata
set_text name none metadata = metadata
set_text name (some none) metadata = remove metadata name
set_text name (some (some value)) metadata = put_text name (some value) metadata

-- an entry of the credentials, where it is there and not empty
abbrev pub given : String → Option String → List (String × String)
given name none = []
given name (some value) = if str_eq value "" then [] else (name, value) ∷ []

-- the list of `ModelConfigurationOut`
unfoldable pub validate_models :
    List ProviderModelConfiguration → Outcome (List ModelConfigurationOut)
validate_models [] = returns []
validate_models (m ∷ models) =
    validate_model m >>= λ out. validate_models models >>= λ rest. returns (out ∷ rest)

module _ (s : Setting) where
  abbrev capabilities_of : ProviderKind → List String
  capabilities_of ai = []
  capabilities_of market = data_capabilities

  abbrev some_values : List (String × String) → Bool
  some_values [] = false
  some_values (v ∷ values) = true

  -- `_out`
  unfoldable pub provider_out : ProviderConfiguration → Database → Outcome ProviderOut
  provider_out row db = require_key s.fernet s.key >>= λ key.
      credentials_of s.fernet s.json row key >>= λ values.
      validate_models (models_of db row.id) >>= λ models. returns record {
        id = row.id;
        kind = row.kind;
        provider = row.provider;
        display_name = row.display_name;
        enabled = row.enabled;
        scope = row.scope;
        scope_id = row.scope_id;
        configured = some_values values;
        masked_credential = mask_secret (lookup str_eq values "api_key");
        masked_secret = mask_secret (lookup str_eq values "secret_key");
        base_url = lookup str_eq row.metadata_json "base_url";
        market_data_feed = lookup str_eq row.metadata_json "market_data_feed";
        default_model = default_model_of s.repr row.metadata_json;
        connection_status = row.connection_status;
        last_tested_at = row.last_tested_at;
        metadata =
            filter
              (λ (k, v).
                not (any (str_eq k) ("base_url" ∷ "default_model" ∷ "market_data_feed" ∷ [])))
              row.metadata_json;
        capabilities = capabilities_of row.kind;
        models = models;
      }

  -- the answer with the row, and the database that is committed
  unfoldable pub answer : ProviderConfiguration → Database → Outcome (ProviderOut × Database)
  answer row db = provider_out row db >>= λ out. returns (out, db)

  -- `[await self._out(row) for row in rows]`
  unfoldable pub outs : List ProviderConfiguration → Database → Outcome (List ProviderOut)
  outs [] db = returns []
  outs (row ∷ rows) db =
      provider_out row db >>= λ out. outs rows db >>= λ rest. returns (out ∷ rest)

  unfoldable pub list_providers : ℕ → ProviderKind → Database → Outcome (List ProviderOut)
  list_providers user kind db =
      outs (filter (λ row. kind_eq row.kind kind) (list_visible db user)) db

  unfoldable pub get_provider : ℕ → ProviderKind → ℕ → Database → Outcome ProviderOut
  get_provider user kind id db = get_row user kind id db >>= λ row. provider_out row db
