-- ===== src/Api/Providers/Service/Writes.antt =====
-- What the operations that change a provider have done
-- (apps/api/app/services/provider_management.py).
use Prim.Native.String.{String}
use agnostix_ai_quant_fund.Prelude.{
  ℕ, ◌≡◌, ◌∙◌, sym, ap, subst, refl, inl, inr, Bool, true, false, not, ◌&&◌, ◌||◌, Option, none,
  some, [], ◌∷◌, ◌++◌, any, ==_iff, Bool-cases, if_cases, if◌then◌else◌, All, All-append, map, ◌==◌,
  List,
}
use agnostix_ai_quant_fund.Prelude.Text.{str_eq}
use agnostix_ai_quant_fund.Prelude.Outcome.{returns, >>=-eq-returns, >>=-then, returns-injective}
use agnostix_ai_quant_fund.Api.Providers.{
  text, Metadata, ProviderKind, ai, ProviderScope, platform, organization, own,
  ProviderConfiguration, ProviderModelConfiguration, Database, ProviderCreate, ProviderUpdate,
  CredentialReplace, ModelConfigurationIn, ProviderOut, List,
}
use agnostix_ai_quant_fund.Api.Providers.Metadata.{safe_metadata, is_forbidden}
use agnostix_ai_quant_fund.Api.Providers.Metadata.Safe.{
  IsSafe, IsClean, safe_metadata-IsSafe, assign-IsSafe, remove-IsSafe, names_allowed,
}
use agnostix_ai_quant_fund.Api.Providers.Secrets.{
  require_key, credentials_of, credentials_ciphertext,
}
use agnostix_ai_quant_fund.Api.Providers.Store.{
  kind_eq, scope_eq, same_id, same_identity, same_target, is_visible, find_visible, insert_row,
  insert_model, clear_default, delete_row,
}
use agnostix_ai_quant_fund.Api.Providers.Store.Rows.{find_visible-found, All-filter}
use agnostix_ai_quant_fund.Api.Providers.Service.{
  Setting, Moment, reject, audit, save, get_row, answer, update_all, put_text, set_text,
}
use agnostix_ai_quant_fund.Api.Providers.Service.Changes.{
  check_create, with_fields, conflicting, updated_fields, merged, set_column, add_default, new_row,
  create, update, replace_credential, delete, with_default, cleared, add_model, sealed,
}
use agnostix_ai_quant_fund.Api.Providers.Service.Effect.{
  Effect, Change, Appended, same, changed, added, removed, audited, get_row-found, answer-same,
  IsSafeModel, Keeps,
}

-- what the service writes into metadata keeps it safe
put_text-IsSafe :
    (name : String) (value : Option String) (metadata : Metadata)
    → is_forbidden name ≡ false
    → IsSafe metadata
    → IsSafe (put_text name value metadata)
unfolding put_text IsClean
put_text-IsSafe name none metadata allowed h = h
put_text-IsSafe name (some value) metadata allowed h =
    assign-IsSafe metadata name (text value) h allowed tt

set_text-IsSafe :
    (name : String) (value : Option (Option String)) (metadata : Metadata)
    → is_forbidden name ≡ false
    → IsSafe metadata
    → IsSafe (set_text name value metadata)
unfolding set_text
set_text-IsSafe name none metadata allowed h = h
set_text-IsSafe name (some none) metadata allowed h = remove-IsSafe metadata name h
set_text-IsSafe name (some (some value)) metadata allowed h =
    put_text-IsSafe name (some value) metadata allowed h

with_fields-IsSafe :
    (r : ProviderCreate) (metadata : Metadata) → IsSafe metadata → IsSafe (with_fields r metadata)
unfolding with_fields
with_fields-IsSafe r metadata h =
    let (base, model, feed) = names_allowed in
    put_text-IsSafe _ r.market_data_feed _ feed
      (put_text-IsSafe _ r.default_model _ model (put_text-IsSafe _ r.base_url _ base h))

updated_fields-IsSafe :
    (r : ProviderUpdate) (metadata : Metadata)
    → IsSafe metadata
    → IsSafe (updated_fields r metadata)
unfolding updated_fields
updated_fields-IsSafe r metadata h =
    let (base, model, feed) = names_allowed in
    set_text-IsSafe _ r.market_data_feed _ feed
      (set_text-IsSafe _ r.default_model _ model (set_text-IsSafe _ r.base_url _ base h))

update_all-IsSafe :
    (incoming metadata : Metadata)
    → IsSafe incoming
    → IsSafe metadata
    → IsSafe (update_all metadata incoming)
unfolding update_all
update_all-IsSafe [] metadata h k = k
update_all-IsSafe ((name, value) ∷ incoming) metadata ((allowed, clean), h) k =
    update_all-IsSafe incoming _ h (assign-IsSafe metadata name value k allowed clean)

merged-IsSafe :
    (incoming : Option Metadata) (metadata : Metadata) {all : Metadata}
    → merged incoming metadata ≡ returns all
    → IsSafe metadata
    → IsSafe all
unfolding merged
merged-IsSafe none metadata e h = subst IsSafe (returns-injective e) h
merged-IsSafe (some incoming) metadata e h =
    let (safe, checked, made) =
      >>=-eq-returns (safe_metadata incoming) (λ safe. returns (update_all metadata safe)) e in
    subst IsSafe (returns-injective made)
      (update_all-IsSafe safe metadata (safe_metadata-IsSafe incoming checked) h)

-- a changed row that keeps its scope stays visible
pub kept_visible :
    (user : ℕ) (old row : ProviderConfiguration)
    → row.scope ≡ old.scope
    → row.scope_id ≡ old.scope_id
    → is_visible user old ≡ true
    → is_visible user row ≡ true
unfolding is_visible
kept_visible user old row scope scope_id h = rw (scope, scope_id) h

-- rows of models that are no longer the default
unset-IsSafeModel :
    (id : ℕ) (models : List ProviderModelConfiguration)
    → All IsSafeModel models
    → All IsSafeModel (
        map
          (λ m. if m.provider_configuration_id == id then record m { is_default = false } else m)
          models)
unset-IsSafeModel id [] h = tt
unset-IsSafeModel id (m ∷ models) (safe, h) = (
  if_cases IsSafeModel (m.provider_configuration_id == id) (record m { is_default = false }) m safe
      safe,
  unset-IsSafeModel id models h,
)

module _ (s : Setting) (user : ℕ) where
  -- a row that a user sees, changed and saved with an event
  pub saved-Effect :
      (id : ℕ) (old row : ProviderConfiguration) (event_type : String) (db : Database)
      {out : ProviderOut} {after : Database}
      → find_visible id user db.configurations ≡ some old
      → row.id ≡ old.id
      → row.scope ≡ old.scope
      → row.scope_id ≡ old.scope_id
      → (IsSafe old.metadata_json → IsSafe row.metadata_json)
      → answer s row (audit user event_type old.id (save row db)) ≡ returns (out, after)
      → Effect user db after
  unfolding audit save
  saved-Effect id old row event_type db found same_row scope scope_id safe h =
      let seen =
        kept_visible user old row scope scope_id
          (find_visible-found id user db.configurations found).1 in
      rw (answer-same s row _ h) (
        changed id old row found same_row seen safe refl,
        audited user old.id event_type db,
        λ models. models,
      )

module _ (s : Setting) (moment : Moment) (user : ℕ) where
  pub replace_credential-Effect :
      (kind : ProviderKind) (id : ℕ) (r : CredentialReplace) (db : Database) {out : ProviderOut}
      {after : Database}
      → replace_credential s moment user kind id r db ≡ returns (out, after)
      → Effect user db after
  unfolding replace_credential
  replace_credential-Effect kind id r db h = >>=-then (get_row user kind id db) _ h (λ row got h1.
      >>=-then (require_key s.fernet s.key) _ h1 (λ key _ h2.
        >>=-then (credentials_of s.fernet s.json row key) _ h2 (λ values _ h3.
          >>=-then (credentials_ciphertext s.fernet s.json _ key) _ h3 (λ ciphertext _ h4.
            saved-Effect s user id row _ _ db (get_row-found user kind id db got) refl refl refl
              (λ safe. safe) h4))))

  pub update-Effect :
      (kind : ProviderKind) (id : ℕ) (r : ProviderUpdate) (db : Database) {out : ProviderOut}
      {after : Database}
      → update s moment user kind id r db ≡ returns (out, after)
      → Effect user db after
  unfolding update
  update-Effect kind id r db h = >>=-then (get_row user kind id db) _ h (λ row got h1.
      >>=-then (reject "HTTPException 422" _) _ h1 (λ _ _ h2.
        >>=-then (merged r.metadata row.metadata_json) _ h2 (λ metadata together h3.
          >>=-then (set_column r.display_name row.display_name) _ h3 (λ name _ h4.
            >>=-then (set_column r.enabled row.enabled) _ h4 (λ enabled _ h5.
              saved-Effect s user id row _ _ db (get_row-found user kind id db got) refl refl refl
                (λ safe.
                  updated_fields-IsSafe r metadata
                    (merged-IsSafe r.metadata row.metadata_json together safe))
                h5)))))

  pub delete-Effect :
      (kind : ProviderKind) (id : ℕ) (db : Database) {after : Database}
      → delete s moment user kind id db ≡ returns (tt, after)
      → Effect user db after
  unfolding delete delete_row audit
  delete-Effect kind id db h = >>=-then (get_row user kind id db) _ h (λ row got h1.
      rw (sym (ap (λ p. p.1) (returns-injective h1))) (
        removed id row (get_row-found user kind id db got) refl,
        audited user row.id "provider_deleted" db,
        λ models. All-filter IsSafeModel _ db.models models,
      ))

  insert_model-kept :
      (db : Database) (model : ProviderModelConfiguration) {after : Database}
      → insert_model db model ≡ returns after
      → IsSafeModel model
      → (after.configurations ≡ db.configurations) × (after.events ≡ db.events) × Keeps db after
  unfolding insert_model
  insert_model-kept db model h safe = elim (Bool-cases (any (same_target model) db.models)) [
    | inl e ↦ cc (rw e at h)
    | inr e ↦
        rw (sym (returns-injective (rw e at h)))
          (refl, refl, λ models. All-append IsSafeModel db.models (model ∷ []) models (safe, tt))
  ]

  add_default-kept :
      (row : ProviderConfiguration) (model : Option String) (db : Database) {after : Database}
      → add_default s moment user row model db ≡ returns after
      → (after.configurations ≡ db.configurations) × (after.events ≡ db.events) × Keeps db after
  unfolding add_default
  add_default-kept row none db h = rw (sym (returns-injective h)) (refl, refl, λ models. models)
  add_default-kept row (some model) db h =
      elim (Bool-cases (kind_eq row.kind ai && not (str_eq model ""))) [
        | inl e ↦ insert_model-kept db _ (rw e at h) tt
        | inr e ↦ rw (sym (returns-injective (rw e at h))) (refl, refl, λ models. models)
      ]

  with_default-IsSafe :
      (r : ModelConfigurationIn) (row : ProviderConfiguration)
      → IsSafe row.metadata_json
      → IsSafe (with_default s moment user r row).metadata_json
  unfolding with_default IsClean
  with_default-IsSafe r row h = elim (Bool-cases r.is_default) [
    | inl e ↦
        rw e (assign-IsSafe row.metadata_json "default_model" (text r.model) h names_allowed.1 tt)
    | inr e ↦ rw e h
  ]

  with_default_kept :
      (r : ModelConfigurationIn) (row : ProviderConfiguration)
      → let after = with_default s moment user r row in
        (after.id ≡ row.id) × (after.scope ≡ row.scope) × (after.scope_id ≡ row.scope_id)
  unfolding with_default
  with_default_kept r row = elim (Bool-cases r.is_default) [
    | inl e ↦ rw e (refl, refl, refl)
    | inr e ↦ rw e (refl, refl, refl)
  ]

  cleared-Change :
      (id : ℕ) (r : ModelConfigurationIn) (row : ProviderConfiguration) (db : Database)
      → find_visible id user db.configurations ≡ some row
      → Change user db.configurations (cleared s moment user r row db).configurations
        × ((cleared s moment user r row db).events ≡ db.events)
        × Keeps db (cleared s moment user r row db)
  unfolding cleared save clear_default
  cleared-Change id r row db found =
      let (same_row, scope, scope_id) = with_default_kept r row in
      let seen =
        kept_visible user row (with_default s moment user r row) scope scope_id
          (find_visible-found id user db.configurations found).1 in
      if_cases
        (λ d. Change user db.configurations d.configurations × (d.events ≡ db.events) × Keeps db d)
        r.is_default (save (with_default s moment user r row) (clear_default db row.id)) db
        (
          changed id row (with_default s moment user r row) found same_row seen
              (with_default-IsSafe r row) refl,
          refl,
          unset-IsSafeModel row.id db.models,
        )
        (same refl, refl, λ models. models)

  pub add_model-Effect :
      (id : ℕ) (r : ModelConfigurationIn) (db : Database) {out : ProviderOut} {after : Database}
      → add_model s moment user id r db ≡ returns (out, after)
      → Effect user db after
  unfolding add_model audit
  add_model-Effect id r db h = >>=-then (get_row user ai id db) _ h (λ row got h1.
      >>=-then (safe_metadata r.metadata) _ h1 (λ metadata checked h2.
        >>=-then (insert_model (cleared s moment user r row db) _) _ h2 (λ with_model inserted h3.
          let (change, events, keeps) =
            cleared-Change id r row db (get_row-found user ai id db got) in
          let clean = safe_metadata-IsSafe r.metadata checked in
          let (rows, kept, more) = insert_model-kept _ _ inserted clean in
          subst (Effect user db) (sym (answer-same s _ _ h3)) (
            subst (Change user db.configurations) (sym rows) change,
            subst
                (λ es.
                  Appended user es
                    (audit user (if r.is_default then "default_model_changed" else "model_enabled")
                      row.id with_model).events)
                (kept ∙ events) (audited user row.id _ with_model),
            λ models. more (keeps models),
          ))))

  scoped_visible :
      (scope : ProviderScope) (scope_id : Option ℕ)
      → scope_eq scope organization ≡ false
      → (scope_eq scope platform
          || (scope_eq scope own
              && same_id (if scope_eq scope own then some user else scope_id) (some user)))
        ≡ true
  unfolding scope_eq
  scoped_visible platform scope_id h = refl
  scoped_visible organization scope_id h = cc
  scoped_visible own scope_id h = (==_iff user user).1 refl

  reject-false :
      (code : String) (bad : Bool) {u : Unit {0}} → reject code bad ≡ returns u → bad ≡ false
  unfolding reject
  reject-false code true h = cc
  reject-false code false h = refl

  new_row_visible :
      (kind : ProviderKind) (r : ProviderCreate) (metadata : Metadata) (secret : Option String)
      {u : Unit {0}}
      → check_create user kind r ≡ returns u
      → is_visible user (new_row s moment user kind r metadata secret) ≡ true
  unfolding check_create new_row is_visible
  new_row_visible kind r metadata secret h = >>=-then (reject _ _) _ h (λ _ _ h1.
      >>=-then (reject _ _) _ h1
        (λ _ known h2. scoped_visible r.scope r.scope_id (reject-false _ _ known)))

  new_row-IsSafe :
      (kind : ProviderKind) (r : ProviderCreate) (metadata : Metadata) (secret : Option String)
      → IsSafe (with_fields r metadata)
      → IsSafe (new_row s moment user kind r metadata secret).metadata_json
  unfolding new_row
  new_row-IsSafe kind r metadata secret h = h

  insert_row-added :
      (db : Database) (row : ProviderConfiguration) {after : Database}
      → conflicting (insert_row db row) ≡ returns after
      → (after.configurations ≡ db.configurations ++ (row ∷ []))
        × (after.events ≡ db.events)
        × Keeps db after
  unfolding conflicting insert_row
  insert_row-added db row h = elim (Bool-cases (any (same_identity row) db.configurations)) [
    | inl e ↦ cc (rw e at h)
    | inr e ↦ rw (sym (returns-injective (rw e at h))) (refl, refl, λ models. models)
  ]

  pub create-Effect :
      (kind : ProviderKind) (r : ProviderCreate) (db : Database) {out : ProviderOut}
      {after : Database}
      → create s moment user kind r db ≡ returns (out, after)
      → Effect user db after
  unfolding create audit
  create-Effect kind r db h = >>=-then (check_create user kind r) _ h (λ _ passed h1.
      >>=-then (safe_metadata r.metadata) _ h1 (λ metadata safe h2.
        >>=-then (sealed s moment user _) _ h2 (λ secret _ h3.
          >>=-then (conflicting (insert_row db _)) _ h3 (λ inserted row_added h4.
            >>=-then (add_default s moment user _ r.default_model inserted) _ h4
              (λ all added_model h5.
                let row = new_row s moment user kind r metadata secret in
                let (rows, events, keeps) = insert_row-added db row row_added in
                let (rows', events', more) =
                  add_default-kept row r.default_model inserted added_model in
                let clean = with_fields-IsSafe r metadata (safe_metadata-IsSafe r.metadata safe) in
                rw (answer-same s _ _ h5) (
                  added row (new_row_visible kind r metadata secret passed)
                      (new_row-IsSafe kind r metadata secret clean) (rows' ∙ rows),
                  subst (λ es. Appended user es (audit user "provider_created" row.id all).events)
                      (events' ∙ events) (audited user row.id "provider_created" all),
                  λ models. more (keeps models),
                ))))))
