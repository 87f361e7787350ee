-- ===== src/Api/Providers.antt =====
-- The management of providers (apps/api/app/schemas/provider_management.py, db/models.py): requests,
-- answers and rows. Identifiers are numbers, JSON numbers are their texts. The times of creation and
-- change, the health of a provider, and the bounds on the lengths of texts are left out.
pub mod Metadata
pub mod Secrets
pub mod Attributes
pub mod Store
pub mod Service
mod Tests
use Prim.Native.String.{String}
use agnostix_ai_quant_fund.Prelude.{ℕ, Bool, Option, List}

-- the values of JSON
mutual
  pub data Json : Type 0 where
    null : Json
    truth : Bool → Json
    number : String → Bool → Json
    text : String → Json
    array : Items → Json
    object : Fields → Json

  pub data Items : Type 0 where
    nil : Items
    item : Json → Items → Items

  pub data Fields : Type 0 where
    end : Fields
    field : String → Json → Fields → Fields

abbrev pub Metadata : Type 0
Metadata = List (String × Json)

-- `ProviderKind`, `ProviderScope` and `ProviderConnectionStatus`
pub data ProviderKind : Type 0 where
  ai market : ProviderKind

pub data ProviderScope : Type 0 where
  platform organization own : ProviderScope

pub data ConnectionStatus : Type 0 where
  unknown connected testing failed timeout unauthorized unavailable not_configured :
      ConnectionStatus

pub record ProviderConfiguration : Type 0 where
  pub id : ℕ
  pub kind : ProviderKind
  pub provider : String
  pub display_name : String
  pub enabled : Bool
  pub scope : ProviderScope
  pub scope_id : Option ℕ
  pub created_by : ℕ
  pub last_tested_at : Option ℕ
  pub connection_status : ConnectionStatus
  pub metadata_json : Metadata
  pub secret_ciphertext : Option String
  pub credential_version : ℕ

pub record ProviderModelConfiguration : Type 0 where
  pub id : ℕ
  pub provider_configuration_id : ℕ
  pub provider : String
  pub model : String
  pub display_name : Option String
  pub enabled : Bool
  pub is_default : Bool
  pub context_window : Option ℕ
  pub source : String
  pub available : Option Bool
  pub metadata_json : Option Metadata

-- `AgentEvent`, as `_audit` writes it
pub record AgentEvent : Type 0 where
  pub user_id : ℕ
  pub event_type : String
  pub configuration_id : ℕ

-- the tables
pub record Database : Type 0 where
  pub configurations : List ProviderConfiguration
  pub models : List ProviderModelConfiguration
  pub events : List AgentEvent

pub record ProviderCreate : Type 0 where
  pub provider : String
  pub display_name : String
  pub enabled : Bool
  pub scope : ProviderScope
  pub scope_id : Option ℕ
  pub metadata : Metadata
  pub base_url : Option String
  pub default_model : Option String
  pub api_key : Option String
  pub secret_key : Option String
  pub market_data_feed : Option String

-- the fields that a client sets; the inner option is `None`
pub record ProviderUpdate : Type 0 where
  pub display_name : Option (Option String)
  pub enabled : Option (Option Bool)
  pub metadata : Option Metadata
  pub base_url : Option (Option String)
  pub default_model : Option (Option String)
  pub market_data_feed : Option (Option String)

pub record CredentialReplace : Type 0 where
  pub api_key : String
  pub secret_key : Option String

pub record ModelConfigurationIn : Type 0 where
  pub model : String
  pub display_name : Option String
  pub enabled : Bool
  pub is_default : Bool
  pub metadata : Metadata

pub record ModelConfigurationOut : Type 0 where
  pub id : ℕ
  pub provider : String
  pub model : String
  pub display_name : Option String
  pub enabled : Bool
  pub is_default : Bool
  pub context_window : Option ℕ
  pub source : String
  pub available : Option Bool
  pub metadata : Option Metadata

pub record ProviderOut : Type 0 where
  pub id : ℕ
  pub kind : ProviderKind
  pub provider : String
  pub display_name : String
  pub enabled : Bool
  pub scope : ProviderScope
  pub scope_id : Option ℕ
  pub configured : Bool
  pub masked_credential : Option String
  pub masked_secret : Option String
  pub base_url : Option Json
  pub market_data_feed : Option Json
  pub default_model : Option String
  pub connection_status : ConnectionStatus
  pub last_tested_at : Option ℕ
  pub metadata : Metadata
  pub capabilities : List String
  pub models : List ModelConfigurationOut

pub record ConnectionTestOut : Type 0 where
  pub provider_id : ℕ
  pub provider : String
  pub status : ConnectionStatus
  pub capabilities : List String
  pub latency_ms : ℕ
  pub last_tested_at : ℕ
  pub error_code : Option String
  pub error_safe : Option String

pub record ModelDiscoveryOut : Type 0 where
  pub provider_id : ℕ
  pub provider : String
  pub status : String
  pub models : List ModelConfigurationOut
  pub error_code : Option String
