-- ===== src/Api/Providers/Service/Models.antt =====
-- Models of a provider, where their rows cannot be shown
-- (apps/api/app/services/provider_management.py).
use Prim.Native.String.{String}
use agnostix_ai_quant_fund.Prelude.{
  ℕ, ◌≡◌, ◌∙◌, sym, ap, subst, refl, inl, inr, Bool, true, List, [], ◌∷◌, any, filter, Has,
  Has-append_right, Option, ◌==◌, ==_iff, Bool-cases,
}
use agnostix_ai_quant_fund.Prelude.Sort.{Has-sort_by}
use agnostix_ai_quant_fund.Prelude.Outcome.{Outcome, returns, raises, >>=-then, returns-injective}
use agnostix_ai_quant_fund.Api.Providers.{
  ai, ProviderConfiguration, ProviderModelConfiguration, Database, ModelConfigurationIn,
  ProviderOut, ModelConfigurationOut,
}
use agnostix_ai_quant_fund.Api.Providers.Metadata.{safe_metadata}
use agnostix_ai_quant_fund.Api.Providers.Secrets.{require_key, credentials_of}
use agnostix_ai_quant_fund.Api.Providers.Store.{models_of, insert_model, same_target}
use agnostix_ai_quant_fund.Api.Providers.Service.{
  Setting, Moment, get_row, audit, answer, provider_out, validate_models,
}
use agnostix_ai_quant_fund.Api.Auth.{UserRole, may_write}
use agnostix_ai_quant_fund.Api.Providers.Attributes.{validate_model-raises}
use agnostix_ai_quant_fund.Api.Providers.Service.Probe.{Services}
use agnostix_ai_quant_fund.Api.Providers.Service.Routes.{model_request, handle, serve, is_permitted}
use agnostix_ai_quant_fund.Api.Providers.Service.Changes.{add_model, cleared, with_default}

Has-filter :
    (p : ProviderModelConfiguration → Bool) (m : ProviderModelConfiguration)
    (ms : List ProviderModelConfiguration)
    → Has m ms
    → p m ≡ true
    → Has m (filter p ms)
Has-filter p m [] h e = absurd h
Has-filter p m (x ∷ ms) (inl same) e = rw (ap p same ∙ e) (inl same)
Has-filter p m (x ∷ ms) (inr h) e = elim (Bool-cases (p x)) [
  | inl f ↦ rw f (inr (Has-filter p m ms h e))
  | inr f ↦ rw f (Has-filter p m ms h e)
]

module _ (s : Setting) where
  validate_models-fails :
      (ms : List ProviderModelConfiguration) (m : ProviderModelConfiguration)
      {outs : List ModelConfigurationOut}
      → Has m ms
      → validate_models ms ≡ returns outs
      → ⊥
  unfolding validate_models
  validate_models-fails [] m h e = absurd h
  validate_models-fails (x ∷ ms) m h e = cc (rw (validate_model-raises x) at e)

  -- a provider with a model cannot be shown
  answer-fails :
      (row : ProviderConfiguration) (db : Database) (m : ProviderModelConfiguration)
      {out : ProviderOut} {after : Database} {id : ℕ}
      → row.id ≡ id
      → Has m (models_of db id)
      → answer s row db ≡ returns (out, after)
      → ⊥
  unfolding answer provider_out
  answer-fails row db m {id} is_row has h = >>=-then (provider_out s row db) _ h (λ out shown _.
      >>=-then (require_key s.fernet s.key) _ shown (λ key _ h1.
        >>=-then (credentials_of s.fernet s.json row key) _ h1 (λ values _ h2.
          >>=-then (validate_models (models_of db row.id)) _ h2 (λ outs valid _.
            validate_models-fails _ m (subst (λ i. Has m (models_of db i)) (sym is_row) has)
              valid))))

-- the added row is among the models of its provider
added-Has :
    (db : Database) (m : ProviderModelConfiguration) {after : Database}
    → insert_model db m ≡ returns after
    → Has m (models_of after m.provider_configuration_id)
unfolding insert_model models_of
added-Has db m h = elim (Bool-cases (any (same_target m) db.models)) [
  | inl e ↦ cc (rw e at h)
  | inr e ↦
      let own = (==_iff m.provider_configuration_id m.provider_configuration_id).1 refl in
      rw (sym (returns-injective (rw e at h))) (
        Has-sort_by _ m _ (
          Has-filter (λ x. x.provider_configuration_id == m.provider_configuration_id) m _
            (Has-append_right m db.models (m ∷ []) (inl refl)) own))
]

module _ (s : Setting) (moment : Moment) (user : ℕ) where
  with_default_id :
      (r : ModelConfigurationIn) (row : ProviderConfiguration)
      → (with_default s moment user r row).id ≡ row.id
  unfolding with_default
  with_default_id r row = elim (Bool-cases r.is_default) [ inl e ↦ rw e refl | inr e ↦ rw e refl ]

  add_model-fails :
      (id : ℕ) (r : ModelConfigurationIn) (db : Database) {out : ProviderOut} {after : Database}
      → add_model s moment user id r db ≡ returns (out, after)
      → ⊥
  unfolding add_model audit models_of
  add_model-fails id r db h = >>=-then (get_row user ai id db) _ h (λ row got h1.
      >>=-then (safe_metadata r.metadata) _ h1 (λ metadata _ h2.
        >>=-then (insert_model (cleared s moment user r row db) _) _ h2 (λ with_model inserted h3.
          answer-fails s (with_default s moment user r row) _ _ (with_default_id r row)
            (added-Has _ _ inserted) h3)))

  add_model_raises :
      (id : ℕ) (r : ModelConfigurationIn) (db : Database)
      → (e : String) × (add_model s moment user id r db ≡ raises e)
  add_model_raises id r db =
      raised (add_model s moment user id r db) (λ out after h. add_model-fails id r db h)
    where
      raised :
          (o : Outcome (ProviderOut × Database))
          → ((out : ProviderOut) (after : Database) → o ≡ returns (out, after) → ⊥)
          → (e : String) × (o ≡ raises e)
      raised (returns (out, after)) never = absurd (never out after refl)
      raised (raises e) never = (e, refl)

  -- A request to add a model to a provider raises, whoever makes it, with every content and on every
  -- database, and leaves the database as it was: the answer lists the new row, and its schema rejects
  -- every row of a model.
  pub handle-model_request :
      (services : Services) (role : Option UserRole) (id : ℕ) (r : ModelConfigurationIn)
      (db : Database)
      → (e : String) × (handle s services moment user role (model_request id r) db ≡ (raises e, db))
  unfolding handle serve is_permitted
  handle-model_request services role id r db =
      let (e, failed) = add_model_raises id r db in
      elim (Bool-cases (may_write role)) [
        | inl w ↦ (e, rw (w, failed) refl)
        | inr w ↦ ("HTTPException 403", rw w refl)
      ]
