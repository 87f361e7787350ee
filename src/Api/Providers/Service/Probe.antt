-- ===== src/Api/Providers/Service/Probe.antt =====
-- apps/api/app/services/provider_management.py: the connection test and the discovery of models. What
-- the gateway, the clients of Alpaca and HTTP answer is a parameter.
use Prim.Native.Char.{code}
use Prim.Native.String.{String, ◌++◌ as text_append}
use agnostix_ai_quant_fund.Prelude.{
  ℕ, Bool, true, false, ◌&&◌, ◌||◌, ◌⊎◌, inl, inr, Option, none, some, List, [], ◌∷◌, any, length,
  leb, ◌==◌, if◌then◌else◌,
}
use agnostix_ai_quant_fund.Prelude.Text.{str_eq, lower, strip, contains}
use agnostix_ai_quant_fund.Prelude.Dicts.{lookup}
use agnostix_ai_quant_fund.Prelude.Outcome.{Outcome, returns, ◌>>=◌}
use agnostix_ai_quant_fund.Api.Providers.{
  text, Metadata, ProviderKind, ai, market, ConnectionStatus, connected, testing, failed, timeout,
  unauthorized, unavailable, not_configured, ProviderConfiguration, ProviderModelConfiguration,
  Database, ModelConfigurationOut, ConnectionTestOut, ModelDiscoveryOut,
}
use agnostix_ai_quant_fund.Api.Providers.Metadata.{default_model_of, feed_of, base_url_of}
use agnostix_ai_quant_fund.Api.Providers.Secrets.{require_key, credentials_of}
use agnostix_ai_quant_fund.Api.Providers.Attributes.{validate_model}
use agnostix_ai_quant_fund.Api.Providers.Store.{same_target}
use agnostix_ai_quant_fund.Api.Providers.Service.{
  Setting, Moment, data_capabilities, is_set, audit, save, get_row,
}

-- what kind of exception it is: a timeout, a response with a status, or another
pub data Cause : Type 0 where
  timed_out : Cause
  responded : ℕ → Cause
  other_cause : Cause

-- an exception with its text
pub record Failure : Type 0 where
  pub message : String
  pub cause : Cause

-- a row of the list of models that a provider answers with
pub record Listed : Type 0 where
  pub name : Option String
  pub id : Option String
  pub context_length : Option ℕ
  pub owned_by : Option String

-- the other services: what a call raises, or what it answers
pub record Services : Type 0 where
  pub run_gateway : String → String → Option String → Option String → Option Failure
  pub get_latest_quote : String → String → String → Option Failure
  pub get_news : String → String → Option Failure
  pub get_models : String → Option String → String → Failure ⊎ List Listed

-- what the classification gives: the status, the code and the safe text
pub record Report : Type 0 where
  pub status : ConnectionStatus
  pub code : Option String
  pub safe_error : Option String

abbrev report_of : ConnectionStatus → String → String → Report
report_of status code safe_error = record {
  status = status;
  code = some code;
  safe_error = some safe_error;
}

abbrev otherwise_failed : Report
otherwise_failed = report_of failed "PROVIDER_UNAVAILABLE" "Provider connection failed"

-- the cases of `httpx.HTTPStatusError`
unfoldable pub of_status : ℕ → Report
of_status status =
    if (status == 401) || (status == 403)
    then report_of unauthorized "INVALID_CREDENTIALS" "Provider rejected the credentials"
    else if status == 404
    then report_of failed "MODEL_NOT_FOUND" "Provider resource was not found"
    else if leb 500 status
    then report_of unavailable "PROVIDER_UNAVAILABLE" "Provider is unavailable"
    else otherwise_failed

unfoldable pub of_cause : Cause → Report
of_cause timed_out = report_of timeout "TIMEOUT" "Provider request timed out"
of_cause (responded status) = of_status status
of_cause other_cause = otherwise_failed

-- the text says that something is not configured
unfoldable pub is_incomplete : String → Bool
is_incomplete message =
    any (λ part. contains part (lower message)) ("not configured" ∷ "credentials" ∷ "not set" ∷ [])

-- `_error_status`
unfoldable pub error_status : Failure → Report
error_status f =
    if is_incomplete f.message
    then report_of not_configured "CONFIGURATION_INVALID" "Provider configuration is incomplete"
    else of_cause f.cause

abbrev value_error : String → Failure
value_error message = record { message = message; cause = other_cause }

-- the first of two failures
abbrev or_else : Option Failure → Option Failure → Option Failure
or_else none second = second
or_else (some f) second = some f

abbrev pub or_text : Option String → String → String
or_text none default = default
or_text (some t) default = t

-- `text.rstrip("/")`
unfoldable pub strip_slashes : String → String
strip_slashes String.[] = ""
strip_slashes (String.◌∷◌ c t) =
    let rest = strip_slashes t in
    if str_eq rest "" && (code c == b'/') then "" else String.◌∷◌ c rest

module _ (s : Setting) (services : Services) (moment : Moment) (user : ℕ) where
  -- the body of the `try` of a connection test: the exception that it raises
  abbrev ai_failure :
      ProviderConfiguration → List (String × String) → Option String → Option Failure
  ai_failure row values none = some (value_error "model not configured")
  ai_failure row values (some model) =
      services.run_gateway row.provider model (lookup str_eq values "api_key")
        (base_url_of s.repr row.metadata_json)

  abbrev alpaca_failure : ProviderConfiguration → Option String → Option String → Option Failure
  alpaca_failure row (some api_key) (some secret_key) =
      if is_set (some api_key) && is_set (some secret_key)
      then or_else
          (services.get_latest_quote api_key secret_key
            (or_text (feed_of s.repr row.metadata_json) "iex"))
          (services.get_news api_key secret_key)
      else some (value_error "credentials not configured")
  alpaca_failure row _ _ = some (value_error "credentials not configured")

  unfoldable pub tried :
      ProviderKind → ProviderConfiguration → List (String × String) → Option Failure
  tried ai row values = ai_failure row values (default_model_of s.repr row.metadata_json)
  tried market row values =
      if str_eq row.provider "alpaca"
      then alpaca_failure row (lookup str_eq values "api_key") (lookup str_eq values "secret_key")
      else some (value_error "unsupported provider")

  unfoldable pub reported : Option Failure → Report
  reported none = record { status = connected; code = none; safe_error = none }
  reported (some f) = error_status f

  -- the capabilities are set after the calls of Alpaca
  abbrev tested_capabilities : ProviderKind → Option Failure → List String
  tested_capabilities ai f = []
  tested_capabilities market none = data_capabilities
  tested_capabilities market (some f) = []

  -- `test`; the status `testing`, flushed before the calls, is overwritten after them
  unfoldable pub test_connection :
      ProviderKind → ℕ → Database → Outcome (ConnectionTestOut × Database)
  test_connection kind id db = get_row user kind id db >>= λ row.
      require_key s.fernet s.key >>= λ key. credentials_of s.fernet s.json row key >>= λ values.
      let failure = tried kind row values in
      let report = reported failure in
      returns (
        record {
          provider_id = row.id;
          provider = row.provider;
          status = report.status;
          capabilities = tested_capabilities kind failure;
          latency_ms = moment.latency_ms;
          last_tested_at = moment.now;
          error_code = report.code;
          error_safe = report.safe_error;
        },
        audit user "provider_connection_tested" row.id (
            save
              (record row { connection_status = report.status; last_tested_at = some moment.now })
              (save (record row { connection_status = testing }) db)),
      )

  -- the name of a listed model, its name or else its identifier
  abbrev pub first_text : Option String → Option String → Option String
  first_text (some a) b = if str_eq a "" then b else some a
  first_text none b = b

  abbrev pub owner_of : Option String → Option Metadata
  owner_of none = none
  owner_of (some owner) = if str_eq owner "" then none else some (("owned_by", text owner) ∷ [])

  -- the row of a listed model, without its identifier
  abbrev listed_row : ProviderConfiguration → Listed → String → ProviderModelConfiguration
  listed_row row item model = record {
    id = 0;
    provider_configuration_id = row.id;
    provider = row.provider;
    model = model;
    display_name = first_text item.name item.id;
    enabled = true;
    is_default = false;
    context_window = item.context_length;
    source = "discovery";
    available = some true;
    metadata_json = owner_of item.owned_by;
  }

  -- the loop at the end of `_discover_http`: models without a name are left out
  unfoldable pub listed_rows : ProviderConfiguration → List Listed → List ProviderModelConfiguration
  listed_rows row [] = []
  listed_rows row (item ∷ items) =
      let rest = listed_rows row items in
      let model = strip (or_text (first_text item.name item.id) "") in
      if str_eq model "" then rest else listed_row row item model ∷ rest

  -- `default_urls.get(provider)`
  abbrev default_url : String → Option String
  default_url provider =
      if str_eq provider "openrouter"
      then some "https://openrouter.ai/api/v1"
      else if str_eq provider "openai"
      then some "https://api.openai.com/v1"
      else none

  abbrev or_default : Option String → Option String → Option String
  or_default none default = default
  or_default (some url) default = some url

  abbrev get_from : Option String → Option String → Failure ⊎ List Listed
  get_from none api_key = inl (value_error "base URL not configured")
  get_from (some base) api_key =
      services.get_models (text_append (strip_slashes base) "/models") api_key "data"

  -- `_discover_http`
  unfoldable pub discover_http : ProviderConfiguration → Option String → Failure ⊎ List Listed
  discover_http row api_key =
      let base = or_default (base_url_of s.repr row.metadata_json) (default_url row.provider) in
      if str_eq row.provider "ollama"
      then services.get_models (text_append (or_text base "http://localhost:11434") "/api/tags")
          api_key "models"
      else get_from base api_key

  -- a model that is there is marked as discovered, another one is added
  unfoldable pub merge_model :
      ProviderModelConfiguration
      → List ProviderModelConfiguration
      → ProviderModelConfiguration × List ProviderModelConfiguration
  merge_model found [] = (found, found ∷ [])
  merge_model found (m ∷ models) =
      let marked = record m {
        available = some true;
        source = "discovery";
        metadata_json = found.metadata_json;
      } in
      let (row, rest) = merge_model found models in
      if same_target found m then (marked, marked ∷ models) else (row, m ∷ rest)

  -- the loop of `discover`
  unfoldable pub record_models :
      List ProviderModelConfiguration → Database → Outcome (List ModelConfigurationOut × Database)
  record_models [] db = returns ([], db)
  record_models (found ∷ rest) db =
      let (row, models) =
        merge_model (record found { id = moment.model_id (length db.models) }) db.models in
      validate_model row >>= λ out.
      record_models rest (record db { models = models }) >>= λ (outs, after).
      returns (out ∷ outs, after)

  abbrev discovery : ProviderConfiguration → String → Option String → ModelDiscoveryOut
  discovery row status code = record {
    provider_id = row.id;
    provider = row.provider;
    status = status;
    models = [];
    error_code = code;
  }

  abbrev pub recorded :
      ProviderConfiguration
      → Database
      → Failure ⊎ List Listed
      → Outcome (ModelDiscoveryOut × Database)
  recorded row db (inl f) = returns (discovery row "failed" (error_status f).code, db)
  recorded row db (inr items) = record_models (listed_rows row items) db >>= λ (outs, after).
      returns (
        record (discovery row "supported" none) { models = outs },
        audit user "model_discovered" row.id after,
      )

  -- `discover`
  unfoldable pub discover : ℕ → Database → Outcome (ModelDiscoveryOut × Database)
  discover id db = get_row user ai id db >>= λ row.
      if any (str_eq row.provider) ("openrouter" ∷ "openai" ∷ "ollama" ∷ "custom" ∷ [])
      then (require_key s.fernet s.key >>= λ key.
          credentials_of s.fernet s.json row key >>= λ values.
          recorded row db (discover_http row (lookup str_eq values "api_key")))
      else returns (discovery row "unsupported" none, db)
