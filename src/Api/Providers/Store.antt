-- ===== src/Api/Providers/Store.antt =====
-- apps/api/app/db/repositories/provider_repo.py and the unique indexes of db/models.py.
pub mod Rows
use Prim.Native.String.{String}
use agnostix_ai_quant_fund.Prelude.{
  ℕ, Bool, true, false, not, ◌&&◌, ◌||◌, Option, none, some, List, [], ◌∷◌, ◌++◌, any, filter, map,
  ◌==◌, if◌then◌else◌,
}
use agnostix_ai_quant_fund.Prelude.Text.{str_eq}
use agnostix_ai_quant_fund.Prelude.Sort.{sort_by}
use agnostix_ai_quant_fund.Prelude.Outcome.{Outcome, returns, raises}
use agnostix_ai_quant_fund.Fundamentals.Context.Selected.{text_lt}
use agnostix_ai_quant_fund.Api.Providers.{
  ProviderKind, ai, market, ProviderScope, platform, organization, own, ProviderConfiguration,
  ProviderModelConfiguration, Database,
}

unfoldable pub kind_eq : ProviderKind → ProviderKind → Bool
kind_eq ai ai = true
kind_eq market market = true
kind_eq ai market = false
kind_eq market ai = false

unfoldable pub scope_eq : ProviderScope → ProviderScope → Bool
scope_eq platform platform = true
scope_eq organization organization = true
scope_eq own own = true
scope_eq _ _ = false

abbrev pub same_id : Option ℕ → Option ℕ → Bool
same_id none none = true
same_id (some a) (some b) = a == b
same_id none (some b) = false
same_id (some a) none = false

-- the condition of `list_visible` and `get_visible`
unfoldable pub is_visible : ℕ → ProviderConfiguration → Bool
is_visible user c =
    scope_eq c.scope platform || (scope_eq c.scope own && same_id c.scope_id (some user))

-- `a` stands before `b` in `order_by(kind, provider)`; the texts of the kinds are "ai" and "data"
abbrev listed_before : ProviderConfiguration → ProviderConfiguration → Bool
listed_before a b =
    (kind_eq a.kind ai && kind_eq b.kind market)
    || (kind_eq a.kind b.kind && text_lt a.provider b.provider)

pub list_visible : Database → ℕ → List ProviderConfiguration
list_visible db user = sort_by listed_before (filter (is_visible user) db.configurations)

unfoldable pub find_visible : ℕ → ℕ → List ProviderConfiguration → Option ProviderConfiguration
find_visible id user [] = none
find_visible id user (c ∷ rest) =
    let later = find_visible id user rest in
    if (c.id == id) && is_visible user c then some c else later

unfoldable pub get_visible : Database → ℕ → ℕ → Option ProviderConfiguration
get_visible db id user = find_visible id user db.configurations

abbrev model_before : ProviderModelConfiguration → ProviderModelConfiguration → Bool
model_before a b =
    (a.is_default && not b.is_default)
    || (not (b.is_default && not a.is_default) && text_lt a.model b.model)

-- `models`
unfoldable pub models_of : Database → ℕ → List ProviderModelConfiguration
models_of db id = sort_by model_before (filter (λ m. m.provider_configuration_id == id) db.models)

-- `clear_default`
unfoldable pub clear_default : Database → ℕ → Database
clear_default db id = record db {
  models =
      map (λ m. if m.provider_configuration_id == id then record m { is_default = false } else m)
        db.models;
}

-- `delete`, with the models that the database deletes with it
unfoldable pub delete_row : Database → ℕ → Database
delete_row db id = record db {
  configurations = filter (λ c. not (c.id == id)) db.configurations;
  models = filter (λ m. not (m.provider_configuration_id == id)) db.models;
}

-- the row of a changed object
unfoldable pub put_row :
    ProviderConfiguration → List ProviderConfiguration → List ProviderConfiguration
put_row row [] = []
put_row row (c ∷ rest) = let later = put_row row rest in (if c.id == row.id then row else c) ∷ later

-- the columns of both unique indexes are the same, where NULLs are equal
abbrev pub same_identity : ProviderConfiguration → ProviderConfiguration → Bool
same_identity a b =
    kind_eq a.kind b.kind
    && (scope_eq a.scope b.scope && (same_id a.scope_id b.scope_id && str_eq a.provider b.provider))

-- a new row, which the indexes may refuse
unfoldable pub insert_row : Database → ProviderConfiguration → Outcome Database
insert_row db row =
    if any (same_identity row) db.configurations
    then raises "IntegrityError"
    else returns (record db { configurations = db.configurations ++ (row ∷ []) })

abbrev pub same_target : ProviderModelConfiguration → ProviderModelConfiguration → Bool
same_target a b =
    (a.provider_configuration_id == b.provider_configuration_id)
    && (str_eq a.provider b.provider && str_eq a.model b.model)

unfoldable pub insert_model : Database → ProviderModelConfiguration → Outcome Database
insert_model db model =
    if any (same_target model) db.models
    then raises "IntegrityError"
    else returns (record db { models = db.models ++ (model ∷ []) })
