-- ===== src/Api/Providers/Service/Changes.antt =====
-- apps/api/app/services/provider_management.py: the operations that a client changes providers with.
use Prim.Native.String.{String}
use agnostix_ai_quant_fund.Prelude.{
  ℕ, ◌+◌, Bool, true, false, not, ◌&&◌, ◌||◌, Option, none, some, List, [], ◌∷◌, ◌++◌, any, length,
  is_some, if◌then◌else◌,
}
use agnostix_ai_quant_fund.Prelude.Text.{str_eq}
use agnostix_ai_quant_fund.Prelude.Dicts.{assign}
use agnostix_ai_quant_fund.Prelude.Outcome.{Outcome, returns, raises, ◌>>=◌}
use agnostix_ai_quant_fund.Api.Providers.{
  text, Metadata, ProviderKind, ai, market, organization, own, unknown, ProviderConfiguration,
  Database, ProviderCreate, ProviderUpdate, CredentialReplace, ModelConfigurationIn, ProviderOut,
}
use agnostix_ai_quant_fund.Api.Providers.Metadata.{safe_metadata}
use agnostix_ai_quant_fund.Api.Providers.Secrets.{
  require_key, credentials_ciphertext, credentials_of,
}
use agnostix_ai_quant_fund.Api.Providers.Store.{
  kind_eq, scope_eq, same_id, clear_default, delete_row, insert_row, insert_model,
}
use agnostix_ai_quant_fund.Api.Providers.Service.{
  Setting, Moment, supported, reject, is_set, audit, save, get_row, update_all, put_text, set_text,
  given, answer,
}

-- the scope of a new provider may be used by the user
abbrev pub is_foreign : ℕ → ProviderCreate → Bool
is_foreign user r =
    scope_eq r.scope own && not (same_id r.scope_id none || same_id r.scope_id (some user))

abbrev pub scope_id_of : ℕ → ProviderCreate → Option ℕ
scope_id_of user r = if scope_eq r.scope own then some user else r.scope_id

-- the guards of `create`, in their order
unfoldable pub check_create : ℕ → ProviderKind → ProviderCreate → Outcome (Unit {0})
check_create user kind r =
    let alpaca = kind_eq kind market && str_eq r.provider "alpaca" in
    reject "HTTPException 422" (not (any (str_eq r.provider) (supported kind))) >>= λ _.
    reject "HTTPException 422" (scope_eq r.scope organization) >>= λ _.
    reject "HTTPException 403" (is_foreign user r) >>= λ _.
    reject "HTTPException 422" (alpaca && (not (is_set r.api_key) || not (is_set r.secret_key)))
    >>= λ _. reject "HTTPException 422" (alpaca && is_some r.base_url) >>= λ _.
        reject "HTTPException 422"
          (kind_eq kind ai && (not (str_eq r.provider "ollama") && not (is_set r.api_key)))

-- the fields of the request that are kept in the metadata
unfoldable pub with_fields : ProviderCreate → Metadata → Metadata
with_fields r metadata =
    put_text "market_data_feed" r.market_data_feed
      (put_text "default_model" r.default_model (put_text "base_url" r.base_url metadata))

-- `raise HTTPException(409) from exc`
unfoldable pub conflicting : Outcome Database → Outcome Database
conflicting (returns db) = returns db
conflicting (raises e) = raises "HTTPException 409"

unfoldable pub updated_fields : ProviderUpdate → Metadata → Metadata
updated_fields r metadata =
    set_text "market_data_feed" r.market_data_feed
      (set_text "default_model" r.default_model (set_text "base_url" r.base_url metadata))

-- `metadata.update(_safe_metadata(incoming))`
unfoldable pub merged : Option Metadata → Metadata → Outcome Metadata
merged none metadata = returns metadata
merged (some incoming) metadata =
    safe_metadata incoming >>= λ safe. returns (update_all metadata safe)

-- `setattr`; a column that may not be NULL refuses None when it is flushed
unfoldable pub set_column : {A : Type 0} → Option (Option A) → A → Outcome A
set_column none old = returns old
set_column (some none) old = raises "IntegrityError"
set_column (some (some new)) old = returns new

abbrev pub update_event : Option (Option Bool) → String
update_event (some (some false)) = "provider_disabled"
update_event (some (some true)) = "provider_updated"
update_event (some none) = "provider_updated"
update_event none = "provider_updated"

-- the secret key of a credential, where the request has one
abbrev pub with_secret : Option String → List (String × String) → List (String × String)
with_secret none values = values
with_secret (some secret) values = assign str_eq values "secret_key" secret

module _ (s : Setting) (moment : Moment) (user : ℕ) where
  -- `_credentials_ciphertext(values, self._key()) if values else None`
  unfoldable pub sealed : List (String × String) → Outcome (Option String)
  sealed [] = returns none
  sealed (v ∷ values) = require_key s.fernet s.key >>= λ key.
      credentials_ciphertext s.fernet s.json (v ∷ values) key >>= λ ciphertext.
      returns (some ciphertext)

  -- the row of the default model of a new provider
  unfoldable pub add_default : ProviderConfiguration → Option String → Database → Outcome Database
  add_default row none db = returns db
  add_default row (some model) db =
      if kind_eq row.kind ai && not (str_eq model "")
      then insert_model db record {
        id = moment.model_id (length db.models);
        provider_configuration_id = row.id;
        provider = row.provider;
        model = model;
        display_name = none;
        enabled = true;
        is_default = true;
        context_window = none;
        source = "configured";
        available = none;
        metadata_json = none;
      }
      else returns db

  unfoldable pub new_row :
      ProviderKind → ProviderCreate → Metadata → Option String → ProviderConfiguration
  new_row kind r metadata ciphertext = record {
    id = moment.new_id;
    kind = kind;
    provider = r.provider;
    display_name = r.display_name;
    enabled = r.enabled;
    scope = r.scope;
    scope_id = scope_id_of user r;
    created_by = user;
    last_tested_at = none;
    connection_status = unknown;
    metadata_json = with_fields r metadata;
    secret_ciphertext = ciphertext;
    credential_version = 1;
  }

  unfoldable pub create :
      ProviderKind → ProviderCreate → Database → Outcome (ProviderOut × Database)
  create kind r db = check_create user kind r >>= λ _. safe_metadata r.metadata >>= λ metadata.
      sealed (given "api_key" r.api_key ++ given "secret_key" r.secret_key) >>= λ ciphertext.
      let row = new_row kind r metadata ciphertext in
      conflicting (insert_row db row) >>= λ inserted.
      add_default row r.default_model inserted >>= λ added.
      answer s row (audit user "provider_created" row.id added)

  unfoldable pub update :
      ProviderKind → ℕ → ProviderUpdate → Database → Outcome (ProviderOut × Database)
  update kind id r db = get_row user kind id db >>= λ row.
      reject "HTTPException 422" (kind_eq kind market && is_some r.base_url) >>= λ _.
      merged r.metadata row.metadata_json >>= λ metadata.
      set_column r.display_name row.display_name >>= λ display_name.
      set_column r.enabled row.enabled >>= λ enabled.
      let changed = record row {
        display_name = display_name;
        enabled = enabled;
        metadata_json = updated_fields r metadata;
      } in
      answer s changed (audit user (update_event r.enabled) row.id (save changed db))

  unfoldable pub replace_credential :
      ProviderKind → ℕ → CredentialReplace → Database → Outcome (ProviderOut × Database)
  replace_credential kind id r db = get_row user kind id db >>= λ row.
      require_key s.fernet s.key >>= λ key. credentials_of s.fernet s.json row key >>= λ values.
      credentials_ciphertext s.fernet s.json
        (with_secret r.secret_key (assign str_eq values "api_key" r.api_key)) key
      >>= λ ciphertext.
          let changed = record row {
            secret_ciphertext = some ciphertext;
            credential_version = row.credential_version + 1;
            connection_status = unknown;
          } in
          answer s changed (audit user "provider_credential_replaced" row.id (save changed db))

  unfoldable pub delete : ProviderKind → ℕ → Database → Outcome (Unit {0} × Database)
  delete kind id db = get_row user kind id db >>= λ row.
      returns (tt, delete_row (audit user "provider_deleted" row.id db) row.id)

  -- the row and the tables of a request for a default model
  unfoldable pub with_default : ModelConfigurationIn → ProviderConfiguration → ProviderConfiguration
  with_default r row =
      if r.is_default
      then record row {
        metadata_json = assign str_eq row.metadata_json "default_model" (text r.model);
      }
      else row

  unfoldable pub cleared : ModelConfigurationIn → ProviderConfiguration → Database → Database
  cleared r row db =
      if r.is_default then save (with_default r row) (clear_default db row.id) else db

  unfoldable pub add_model : ℕ → ModelConfigurationIn → Database → Outcome (ProviderOut × Database)
  add_model id r db = get_row user ai id db >>= λ row. safe_metadata r.metadata >>= λ metadata.
      insert_model (cleared r row db) record {
        id = moment.model_id (length db.models);
        provider_configuration_id = row.id;
        provider = row.provider;
        model = r.model;
        display_name = r.display_name;
        enabled = r.enabled;
        is_default = r.is_default;
        context_window = none;
        source = "configured";
        available = none;
        metadata_json = some metadata;
      }
      >>= λ added. answer s (with_default r row) (
          audit user (if r.is_default then "default_model_changed" else "model_enabled") row.id
            added)
