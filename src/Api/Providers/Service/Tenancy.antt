-- ===== src/Api/Providers/Service/Tenancy.antt =====
-- What requests do to the tables, by whom they are made
-- (apps/api/app/api/routes/providers.py and services/provider_management.py).
use agnostix_ai_quant_fund.Prelude.{
  ℕ, ◌≡◌, ◌∙◌, sym, ap, subst, refl, inl, inr, Option, some, List, [], ◌∷◌, All, All-append, ==_iff,
  Bool-cases,
}
use agnostix_ai_quant_fund.Prelude.Outcome.{Outcome, returns, raises, returns-injective}
use agnostix_ai_quant_fund.Api.Auth.{UserRole}
use agnostix_ai_quant_fund.Api.Providers.{ProviderConfiguration, Database}
use agnostix_ai_quant_fund.Api.Providers.Metadata.Safe.{IsSafe}
use agnostix_ai_quant_fund.Api.Providers.Store.{find_visible}
use agnostix_ai_quant_fund.Api.Providers.Store.Rows.{
  HasKeys, hidden, OnlyVisible, find_visible-OnlyVisible, find_visible-found, hidden-put_row,
  hidden-append_visible, hidden-remove, All-put_row, All-filter, find_visible-All,
}
use agnostix_ai_quant_fund.Api.Providers.Service.{Setting, Moment}
use agnostix_ai_quant_fund.Api.Providers.Service.Probe.{Services}
use agnostix_ai_quant_fund.Api.Providers.Service.Effect.{
  Change, same, changed, added, removed, Appended, Effect, unchanged-Effect, IsSafeModel,
}
use agnostix_ai_quant_fund.Api.Providers.Service.Writes.{
  create-Effect, update-Effect, replace_credential-Effect, delete-Effect, add_model-Effect,
}
use agnostix_ai_quant_fund.Api.Providers.Service.Probes.{test_connection-Effect, discover-Effect}
use agnostix_ai_quant_fund.Api.Providers.Service.Routes.{
  Request, list_request, get_request, create_request, update_request, delete_request,
  credential_request, test_request, model_request, discover_request, Response, as_response,
  unchanged, is_permitted, serve, commit, handle,
}

as_response-returns :
    {A : Type 0} (f : A → Response) (m : Outcome (A × Database)) {response : Response}
    {after : Database}
    → as_response f m ≡ returns (response, after)
    → (a : A) × (m ≡ returns (a, after))
as_response-returns f (returns (a, db)) h =
    (a, ap (λ d. returns (a, d)) (ap (λ p. p.1) (returns-injective h)))
as_response-returns f (raises e) h = cc

unchanged-returns :
    {A : Type 0} (db : Database) (m : Outcome A) {a : A} {after : Database}
    → unchanged db m ≡ returns (a, after)
    → after ≡ db
unchanged-returns db (returns a) h = sym (ap (λ p. p.1) (returns-injective h))
unchanged-returns db (raises e) h = cc

module _ (s : Setting) (services : Services) (moment : Moment) (user : ℕ) where
  serve-Effect :
      (request : Request) (db : Database) {response : Response} {after : Database}
      → serve s services moment user request db ≡ returns (response, after)
      → Effect user db after
  unfolding serve
  serve-Effect (list_request kind) db h =
      let (_, e) = as_response-returns _ _ h in
      rw (unchanged-returns db _ e) (unchanged-Effect user db)
  serve-Effect (get_request kind id) db h =
      let (_, e) = as_response-returns _ _ h in
      rw (unchanged-returns db _ e) (unchanged-Effect user db)
  serve-Effect (create_request kind r) db h =
      let (_, e) = as_response-returns _ _ h in create-Effect s moment user kind r db e
  serve-Effect (update_request kind id r) db h =
      let (_, e) = as_response-returns _ _ h in update-Effect s moment user kind id r db e
  serve-Effect (delete_request kind id) db h =
      let (tt, e) = as_response-returns _ _ h in delete-Effect s moment user kind id db e
  serve-Effect (credential_request kind id r) db h =
      let (_, e) = as_response-returns _ _ h in
      replace_credential-Effect s moment user kind id r db e
  serve-Effect (test_request kind id) db h =
      let (_, e) = as_response-returns _ _ h in
      test_connection-Effect s services moment user kind id db e
  serve-Effect (model_request id r) db h =
      let (_, e) = as_response-returns _ _ h in add_model-Effect s moment user id r db e
  serve-Effect (discover_request id) db h =
      let (_, e) = as_response-returns _ _ h in discover-Effect s services moment user id db e

  commit-Effect :
      (db : Database) (o : Outcome (Response × Database))
      → ((response : Response) (after : Database)
          → o ≡ returns (response, after)
          → Effect user db after)
      → Effect user db (commit s services moment user db o).1
  commit-Effect db (returns (response, after)) h = h response after refl
  commit-Effect db (raises e) h = unchanged-Effect user db

  handle-Effect :
      (role : Option UserRole) (request : Request) (db : Database)
      → Effect user db (handle s services moment user role request db).1
  unfolding handle
  handle-Effect role request db = elim (Bool-cases (is_permitted role request)) [
    | inr e ↦ rw e (unchanged-Effect user db)
    | inl e ↦ rw e (
        commit-Effect db (serve s services moment user request db)
          (λ _ _ k. serve-Effect request db k))
  ]

-- a changed or removed row is one that the user sees
seen_only :
    (user id other : ℕ) (cs : List ProviderConfiguration) (old : ProviderConfiguration)
    → HasKeys cs
    → find_visible id user cs ≡ some old
    → other ≡ old.id
    → OnlyVisible user other cs
seen_only user id other cs old keys found is_old =
    let at : old.id ≡ id = (==_iff old.id id).0 (find_visible-found id user cs found).0 in
    subst (λ i. OnlyVisible user i cs) (sym (is_old ∙ at))
      (find_visible-OnlyVisible id user cs keys found)

Change-hidden :
    (user : ℕ) (before after : List ProviderConfiguration)
    → HasKeys before
    → Change user before after
    → hidden user after ≡ hidden user before
Change-hidden user before after keys (same e) = ap (hidden user) e
Change-hidden user before after keys (changed id old row found is_old seen safe e) =
    ap (hidden user) e
    ∙ hidden-put_row user row before (seen_only user id row.id before old keys found is_old) seen
Change-hidden user before after keys (added row seen safe e) =
    ap (hidden user) e ∙ hidden-append_visible user row before seen
Change-hidden user before after keys (removed id old found e) =
    ap (hidden user) e
    ∙ hidden-remove user old.id before (seen_only user id old.id before old keys found refl)

abbrev AreSafeRows : List ProviderConfiguration → Type 0
AreSafeRows = All (λ c. IsSafe c.metadata_json)

-- the metadata of all configurations and of all models
abbrev pub AreSafe : Database → Type 0
AreSafe db = AreSafeRows db.configurations × All IsSafeModel db.models

Change-AreSafeRows :
    (user : ℕ) (before after : List ProviderConfiguration)
    → Change user before after
    → AreSafeRows before
    → AreSafeRows after
Change-AreSafeRows user before after (same e) h = subst AreSafeRows (sym e) h
Change-AreSafeRows user before after (changed id old row found is_old seen safe e) h =
    let clean = safe (find_visible-All (λ c. IsSafe c.metadata_json) id user before h found) in
    subst AreSafeRows (sym e) (All-put_row (λ c. IsSafe c.metadata_json) row before h clean)
Change-AreSafeRows user before after (added row seen safe e) h =
    subst AreSafeRows (sym e)
      (All-append (λ c. IsSafe c.metadata_json) before (row ∷ []) h (safe, tt))
Change-AreSafeRows user before after (removed id old found e) h =
    subst AreSafeRows (sym e)
      (All-filter (λ (c : ProviderConfiguration). IsSafe c.metadata_json) _ before h)

module _ (s : Setting) (services : Services) (moment : Moment) (user : ℕ) where
  -- Where no two configurations have the same identifier: no request of a user, whatever its role and
  -- outcome, changes, adds or removes a configuration that the user does not see.
  pub handle-hidden :
      (role : Option UserRole) (request : Request) (db : Database)
      → HasKeys db.configurations
      → hidden user (handle s services moment user role request db).1.configurations
        ≡ hidden user db.configurations
  handle-hidden role request db keys =
      Change-hidden user _ _ keys (handle-Effect s services moment user role request db).0

  -- The audit is append-only: a request appends at most one event, and that is an event of its user.
  pub handle-Appended :
      (role : Option UserRole) (request : Request) (db : Database)
      → Appended user db.events (handle s services moment user role request db).1.events
  handle-Appended role request db = (handle-Effect s services moment user role request db).1

-- a request that was handled: by whom, in which role, and with which answers of the world
pub record Served : Type 0 where
  pub services : Services
  pub moment : Moment
  pub user : ℕ
  pub role : Option UserRole
  pub request : Request

module _ (s : Setting) where
  -- the tables after the requests
  unfoldable pub run : List Served → Database → Database
  run [] db = db
  run (r ∷ served) db = run served (handle s r.services r.moment r.user r.role r.request db).1

  -- Over every sequence of requests, of any users: where no metadata of a configuration or of a model
  -- has, at any depth, a key with one of the forbidden parts, none has one afterwards.
  pub run-AreSafe : (served : List Served) (db : Database) → AreSafe db → AreSafe (run served db)
  unfolding run
  run-AreSafe [] db h = h
  run-AreSafe (r ∷ served) db h =
      let effect = handle-Effect s r.services r.moment r.user r.role r.request db in
      run-AreSafe served _ (Change-AreSafeRows r.user _ _ effect.0 h.0, effect.2 h.1)
