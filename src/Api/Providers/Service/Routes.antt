-- ===== src/Api/Providers/Service/Routes.antt =====
-- apps/api/app/api/routes/providers.py: who may call the service, and the session of a request
-- (apps/api/app/db/session.py), which commits what the service wrote or undoes it.

use agnostix_ai_quant_fund.Prelude.{ℕ, Bool, Option, List, if◌then◌else◌}
use agnostix_ai_quant_fund.Prelude.Outcome.{Outcome, returns, raises}
use agnostix_ai_quant_fund.Api.Auth.{UserRole, may_read, may_write, may_delete}
use agnostix_ai_quant_fund.Api.Providers.{
  ProviderKind, Database, ProviderCreate, ProviderUpdate, CredentialReplace, ModelConfigurationIn,
  ProviderOut, ConnectionTestOut, ModelDiscoveryOut,
}
use agnostix_ai_quant_fund.Api.Providers.Service.{Setting, Moment, list_providers, get_provider}
use agnostix_ai_quant_fund.Api.Providers.Service.Changes.{
  create, update, replace_credential, delete, add_model,
}
use agnostix_ai_quant_fund.Api.Providers.Service.Probe.{Services, test_connection, discover}

-- a request to one of the routes
pub data Request : Type 0 where
  list_request : ProviderKind → Request
  get_request : ProviderKind → ℕ → Request
  create_request : ProviderKind → ProviderCreate → Request
  update_request : ProviderKind → ℕ → ProviderUpdate → Request
  delete_request : ProviderKind → ℕ → Request
  credential_request : ProviderKind → ℕ → CredentialReplace → Request
  test_request : ProviderKind → ℕ → Request
  model_request : ℕ → ModelConfigurationIn → Request
  discover_request : ℕ → Request

pub data Response : Type 0 where
  listed : List ProviderOut → Response
  shown : ProviderOut → Response
  removed : Response
  tested : ConnectionTestOut → Response
  discovered : ModelDiscoveryOut → Response

-- the dependency of the route
unfoldable pub is_permitted : Option UserRole → Request → Bool
is_permitted role (list_request kind) = may_read role
is_permitted role (get_request kind id) = may_read role
is_permitted role (delete_request kind id) = may_delete role
is_permitted role (create_request kind r) = may_write role
is_permitted role (update_request kind id r) = may_write role
is_permitted role (credential_request kind id r) = may_write role
is_permitted role (test_request kind id) = may_write role
is_permitted role (model_request id r) = may_write role
is_permitted role (discover_request id) = may_write role

module _ {A : Type 0} where
  -- what was read, with the database as it was
  abbrev pub unchanged : Database → Outcome A → Outcome (A × Database)
  unchanged db (returns a) = returns (a, db)
  unchanged db (raises e) = raises e

  -- the answer as a response
  abbrev pub as_response : (A → Response) → Outcome (A × Database) → Outcome (Response × Database)
  as_response f (returns (a, db)) = returns (f a, db)
  as_response f (raises e) = raises e

module _ (s : Setting) (services : Services) (moment : Moment) (user : ℕ) where
  -- the call of the service
  unfoldable pub serve : Request → Database → Outcome (Response × Database)
  serve (list_request kind) db = as_response listed (unchanged db (list_providers s user kind db))
  serve (get_request kind id) db = as_response shown (unchanged db (get_provider s user kind id db))
  serve (create_request kind r) db = as_response shown (create s moment user kind r db)
  serve (update_request kind id r) db = as_response shown (update s moment user kind id r db)
  serve (delete_request kind id) db = as_response (λ _. removed) (delete s moment user kind id db)
  serve (credential_request kind id r) db =
      as_response shown (replace_credential s moment user kind id r db)
  serve (test_request kind id) db =
      as_response tested (test_connection s services moment user kind id db)
  serve (model_request id r) db = as_response shown (add_model s moment user id r db)
  serve (discover_request id) db = as_response discovered (discover s services moment user id db)

  -- `get_session`: the commit, or the rollback
  abbrev pub commit : Database → Outcome (Response × Database) → Outcome Response × Database
  commit db (returns (response, after)) = (returns response, after)
  commit db (raises e) = (raises e, db)

  -- a request of the user with a role
  unfoldable pub handle : Option UserRole → Request → Database → Outcome Response × Database
  handle role request db =
      if is_permitted role request
      then commit db (serve request db)
      else (raises "HTTPException 403", db)
