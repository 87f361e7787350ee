-- ===== src/Api/Providers/Metadata.antt =====
-- apps/api/app/services/provider_management.py: the metadata of a provider.
pub mod Safe
use Prim.Native.String.{String}
use agnostix_ai_quant_fund.Prelude.{
  Bool, true, false, not, ◌||◌, Option, none, some, List, [], ◌∷◌, any, if◌then◌else◌,
}
use agnostix_ai_quant_fund.Prelude.Text.{str_eq, lower, contains}
use agnostix_ai_quant_fund.Prelude.Outcome.{Outcome, returns, raises, ◌>>=◌}
use agnostix_ai_quant_fund.Prelude.Dicts.{lookup}
use agnostix_ai_quant_fund.Api.Providers.{
  Json, null, truth, number, text, array, object, Items, nil, item, Fields, end, field, Metadata,
}

-- a key with one of the forbidden parts
unfoldable pub is_forbidden : String → Bool
is_forbidden key =
    any (λ part. contains part (lower key))
      ("key" ∷ "secret" ∷ "token" ∷ "password" ∷ "authorization" ∷ "bearer" ∷ [])

-- `raise HTTPException(422)` where the test holds
abbrev pub refuse : Bool → Outcome (Unit {0})
refuse bad = if bad then raises "HTTPException 422" else returns tt

-- `walk`, for a value, the children of a list, and those of a dictionary
unfoldable mutual
  pub walk : Json → Outcome (Unit {0})
  walk null = returns tt
  walk (truth b) = returns tt
  walk (number t zero) = returns tt
  walk (text s) = returns tt
  walk (array items) = walk_items items
  walk (object fields) = walk_fields fields

  pub walk_items : Items → Outcome (Unit {0})
  walk_items nil = returns tt
  walk_items (item value items) = walk value >>= λ _. walk_items items

  pub walk_fields : Fields → Outcome (Unit {0})
  walk_fields end = returns tt
  walk_fields (field key value fields) =
      refuse (is_forbidden key) >>= λ _. walk value >>= λ _. walk_fields fields

-- `walk` of the metadata, a dictionary
unfoldable pub walk_metadata : Metadata → Outcome (Unit {0})
walk_metadata [] = returns tt
walk_metadata ((key, value) ∷ metadata) =
    refuse (is_forbidden key) >>= λ _. walk value >>= λ _. walk_metadata metadata

-- the loop over the keys of the metadata
unfoldable pub check_keys : Metadata → Outcome (Unit {0})
check_keys [] = returns tt
check_keys ((key, value) ∷ metadata) = refuse (is_forbidden key) >>= λ _. check_keys metadata

-- `_safe_metadata`
unfoldable pub safe_metadata : Metadata → Outcome Metadata
safe_metadata metadata =
    check_keys metadata >>= λ _. walk_metadata metadata >>= λ _. returns metadata

-- `d.pop(name, None)`
unfoldable pub remove : Metadata → String → Metadata
remove [] name = []
remove ((key, value) ∷ metadata) name =
    let rest = remove metadata name in if str_eq key name then rest else (key, value) ∷ rest

-- the truth value
abbrev pub truthy : Json → Bool
truthy null = false
truthy (truth b) = b
truthy (number t zero) = not zero
truthy (text s) = not (str_eq s "")
truthy (array nil) = false
truthy (array (item value items)) = true
truthy (object end) = false
truthy (object (field key value fields)) = true

-- `str(value)`, where `repr` is that of values that are no texts
abbrev pub text_of : (Json → String) → Json → String
text_of repr (text s) = s
text_of repr null = repr null
text_of repr (truth b) = repr (truth b)
text_of repr (number t zero) = t
text_of repr (array items) = repr (array items)
text_of repr (object fields) = repr (object fields)

abbrev truthy_text : (Json → String) → Option Json → Option String
truthy_text repr none = none
truthy_text repr (some value) = if truthy value then some (text_of repr value) else none

-- `_default_model`, `_feed` and `_base_url`
pub default_model_of : (Json → String) → Metadata → Option String
default_model_of repr metadata = truthy_text repr (lookup str_eq metadata "default_model")

pub feed_of : (Json → String) → Metadata → Option String
feed_of repr metadata = truthy_text repr (lookup str_eq metadata "market_data_feed")

pub base_url_of : (Json → String) → Metadata → Option String
base_url_of repr metadata = truthy_text repr (lookup str_eq metadata "base_url")
