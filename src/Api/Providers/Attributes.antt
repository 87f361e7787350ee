-- ===== src/Api/Providers/Attributes.antt =====
-- `ModelConfigurationOut` (apps/api/app/schemas/provider_management.py), which is read from the
-- attributes of a row of `ProviderModelConfiguration` (apps/api/app/db/models.py). The capabilities,
-- which nothing fills, are left out.
use Prim.Native.String.{String}
use agnostix_ai_quant_fund.Prelude.{ℕ, ◌≡◌, refl, Bool, Option, none, some, if◌then◌else◌}
use agnostix_ai_quant_fund.Prelude.Text.{str_eq}
use agnostix_ai_quant_fund.Prelude.Outcome.{Outcome, returns, raises, ◌>>=◌}
use agnostix_ai_quant_fund.Api.Providers.{
  Metadata, ProviderModelConfiguration, ModelConfigurationOut,
}

-- what an attribute of a row may be: a value of a column, or the `MetaData` of the tables, which
-- SQLAlchemy's declarative base has under the name `metadata`
pub data Attribute : Type 0 where
  uuid : ℕ → Attribute
  string : Option String → Attribute
  flag : Option Bool → Attribute
  integer : Option ℕ → Attribute
  dictionary : Option Metadata → Attribute
  table_metadata : Attribute

-- `getattr(row, name)`; `none` where there is no such attribute
unfoldable pub attribute : ProviderModelConfiguration → String → Option Attribute
attribute row name =
    if str_eq name "id"
    then some (uuid row.id)
    else if str_eq name "provider_configuration_id"
    then some (uuid row.provider_configuration_id)
    else if str_eq name "provider"
    then some (string (some row.provider))
    else if str_eq name "model"
    then some (string (some row.model))
    else if str_eq name "display_name"
    then some (string row.display_name)
    else if str_eq name "enabled"
    then some (flag (some row.enabled))
    else if str_eq name "is_default"
    then some (flag (some row.is_default))
    else if str_eq name "context_window"
    then some (integer row.context_window)
    else if str_eq name "source"
    then some (string (some row.source))
    else if str_eq name "available"
    then some (flag row.available)
    else if str_eq name "metadata_json"
    then some (dictionary row.metadata_json)
    else if str_eq name "metadata"
    then some table_metadata
    else none

-- the validators of the types of fields; any other attribute, or none, is an error
abbrev as_uuid : Option Attribute → Outcome ℕ
as_uuid (some (uuid n)) = returns n
as_uuid _ = raises "ValidationError"

abbrev as_optional_string : Option Attribute → Outcome (Option String)
as_optional_string (some (string s)) = returns s
as_optional_string _ = raises "ValidationError"

abbrev as_optional_flag : Option Attribute → Outcome (Option Bool)
as_optional_flag (some (flag b)) = returns b
as_optional_flag _ = raises "ValidationError"

abbrev as_optional_integer : Option Attribute → Outcome (Option ℕ)
as_optional_integer (some (integer n)) = returns n
as_optional_integer _ = raises "ValidationError"

abbrev as_optional_dictionary : Option Attribute → Outcome (Option Metadata)
as_optional_dictionary (some (dictionary d)) = returns d
as_optional_dictionary _ = raises "ValidationError"

abbrev required : {A : Type 0} → Option A → Outcome A
required none = raises "ValidationError"
required (some a) = returns a

-- `ModelConfigurationOut.model_validate`, from attributes, field by field
unfoldable pub validate_model : ProviderModelConfiguration → Outcome ModelConfigurationOut
validate_model row = as_uuid (attribute row "id") >>= λ id.
    as_optional_string (attribute row "provider") >>= required >>= λ provider.
    as_optional_string (attribute row "model") >>= required >>= λ model.
    as_optional_string (attribute row "display_name") >>= λ display_name.
    as_optional_flag (attribute row "enabled") >>= required >>= λ enabled.
    as_optional_flag (attribute row "is_default") >>= required >>= λ is_default.
    as_optional_integer (attribute row "context_window") >>= λ context_window.
    as_optional_string (attribute row "source") >>= required >>= λ source.
    as_optional_flag (attribute row "available") >>= λ available.
    as_optional_dictionary (attribute row "metadata") >>= λ metadata. returns record {
      id = id;
      provider = provider;
      model = model;
      display_name = display_name;
      enabled = enabled;
      is_default = is_default;
      context_window = context_window;
      source = source;
      available = available;
      metadata = metadata;
    }

-- no row passes the validation
pub validate_model-raises :
    (row : ProviderModelConfiguration) → validate_model row ≡ raises "ValidationError"
unfolding validate_model attribute
validate_model-raises row = refl
