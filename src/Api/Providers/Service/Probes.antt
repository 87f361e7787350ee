-- ===== src/Api/Providers/Service/Probes.antt =====
-- What a connection test and a discovery of models have done
-- (apps/api/app/services/provider_management.py).
use agnostix_ai_quant_fund.Api.Providers.Metadata.Safe.{IsClean}
use agnostix_ai_quant_fund.Api.Providers.Metadata.{is_forbidden}
use agnostix_ai_quant_fund.Api.Providers.Store.{same_target}
use agnostix_ai_quant_fund.Prelude.{
  ℕ, ◌≡◌, sym, ap, subst, refl, ◌⊎◌, inl, inr, List, [], ◌∷◌, any, arith, Bool-cases, All, if_cases,
  Option, none, some, length,
}
use agnostix_ai_quant_fund.Prelude.Text.{str_eq, strip}
use agnostix_ai_quant_fund.Prelude.Outcome.{returns, >>=-then, returns-injective}
use agnostix_ai_quant_fund.Api.Providers.{
  ProviderKind, ai, ProviderConfiguration, ProviderModelConfiguration, Database,
  ModelConfigurationOut, ConnectionTestOut, ModelDiscoveryOut, String,
}
use agnostix_ai_quant_fund.Api.Providers.Secrets.{require_key, credentials_of}
use agnostix_ai_quant_fund.Api.Providers.Store.Rows.{find_visible-found, put_row-put_row}
use agnostix_ai_quant_fund.Api.Providers.Service.{
  Setting, Moment, audit, save, get_row, validate_model,
}
use agnostix_ai_quant_fund.Api.Providers.Service.Probe.{
  Services, Failure, Listed, record_models, recorded, test_connection, discover, merge_model,
  listed_rows, or_text, first_text, owner_of,
}
use agnostix_ai_quant_fund.Api.Providers.Service.Effect.{
  Effect, Appended, same, changed, audited, get_row-found, unchanged-Effect, IsSafeModel, Keeps,
  IsSafeOption,
}
use agnostix_ai_quant_fund.Api.Providers.Service.Writes.{kept_visible}

module _ (s : Setting) (services : Services) (moment : Moment) (user : ℕ) where
  pub test_connection-Effect :
      (kind : ProviderKind) (id : ℕ) (db : Database) {out : ConnectionTestOut} {after : Database}
      → test_connection s services moment user kind id db ≡ returns (out, after)
      → Effect user db after
  unfolding test_connection audit save
  test_connection-Effect kind id db h = >>=-then (get_row user kind id db) _ h (λ row got h1.
      >>=-then (require_key s.fernet s.key) _ h1 (λ key _ h2.
        >>=-then (credentials_of s.fernet s.json row key) _ h2 (λ values _ h3.
          let found = get_row-found user kind id db got in
          let seen = (find_visible-found id user db.configurations found).1 in
          rw (sym (ap (λ p. p.1) (returns-injective h3))) (
            changed id row _ found refl (kept_visible user row _ refl refl seen) (λ safe. safe)
                (put_row-put_row _ _ db.configurations refl),
            (_, refl, omega arith, (refl, tt)),
            λ models. models,
          ))))

  owner_safe : (owner : Option String) → IsSafeOption (owner_of s services moment user owner)
  unfolding is_forbidden IsClean agnostix_ai_quant_fund.Prelude.Text.contains
      agnostix_ai_quant_fund.Prelude.Text.lower agnostix_ai_quant_fund.Prelude.Text.starts_with
  owner_safe none = tt
  owner_safe (some owner) = if_cases IsSafeOption (str_eq owner "") none _ tt ((refl, tt), tt)

  merge_model-IsSafeModel :
      (found : ProviderModelConfiguration) (models : List ProviderModelConfiguration)
      → IsSafeModel found
      → All IsSafeModel models
      → All IsSafeModel (merge_model s services moment user found models).1
  unfolding merge_model
  merge_model-IsSafeModel found [] safe h = (safe, tt)
  merge_model-IsSafeModel found (m ∷ models) safe (clean, h) =
      if_cases
        (λ (p : ProviderModelConfiguration × List ProviderModelConfiguration). All IsSafeModel p.1)
        (same_target found m) _ _ (safe, h) (clean, merge_model-IsSafeModel found models safe h)

  listed_rows-IsSafeModel :
      (row : ProviderConfiguration) (items : List Listed)
      → All IsSafeModel (listed_rows s services moment user row items)
  unfolding listed_rows
  listed_rows-IsSafeModel row [] = tt
  listed_rows-IsSafeModel row (item ∷ items) =
      if_cases (All IsSafeModel)
        (str_eq (strip (or_text (first_text s services moment user item.name item.id) "")) "") _ _
        (listed_rows-IsSafeModel row items)
        (owner_safe item.owned_by, listed_rows-IsSafeModel row items)

  record_models-kept :
      (found : List ProviderModelConfiguration) (db : Database) {outs : List ModelConfigurationOut}
      {after : Database}
      → All IsSafeModel found
      → record_models s services moment user found db ≡ returns (outs, after)
      → (after.configurations ≡ db.configurations) × (after.events ≡ db.events) × Keeps db after
  unfolding record_models
  record_models-kept [] db clean h =
      rw (sym (ap (λ p. p.1) (returns-injective h))) (refl, refl, λ models. models)
  record_models-kept (m ∷ found) db (safe, clean) h = >>=-then (validate_model _) _ h (λ out _ h1.
      >>=-then (record_models s services moment user found _) _ h1 (λ (outs, after) rest h2.
        let (rows, events, keeps) = record_models-kept found _ clean rest in
        rw (sym (ap (λ p. p.1) (returns-injective h2))) (
          rows,
          events,
          λ models. keeps (
              merge_model-IsSafeModel (record m { id = moment.model_id (length db.models) })
                db.models safe models),
        )))

  recorded-Effect :
      (row : ProviderConfiguration) (db : Database) (answer : Failure ⊎ List Listed)
      {out : ModelDiscoveryOut} {after : Database}
      → recorded s services moment user row db answer ≡ returns (out, after)
      → Effect user db after
  unfolding audit
  recorded-Effect row db (inl f) h =
      rw (sym (ap (λ p. p.1) (returns-injective h))) (unchanged-Effect user db)
  recorded-Effect row db (inr items) h =
      >>=-then (record_models s services moment user _ db) _ h (λ (outs, with_models) rest h1.
        let (rows, events, keeps) =
          record_models-kept _ db (listed_rows-IsSafeModel row items) rest in
        rw (sym (ap (λ p. p.1) (returns-injective h1))) (
          same rows,
          subst (λ es. Appended user es (audit user "model_discovered" row.id with_models).events)
              events (audited user row.id "model_discovered" with_models),
          keeps,
        ))

  pub discover-Effect :
      (id : ℕ) (db : Database) {out : ModelDiscoveryOut} {after : Database}
      → discover s services moment user id db ≡ returns (out, after)
      → Effect user db after
  unfolding discover
  discover-Effect id db h = >>=-then (get_row user ai id db) _ h (λ row got h1.
      elim (Bool-cases
        (any (str_eq row.provider) ("openrouter" ∷ "openai" ∷ "ollama" ∷ "custom" ∷ []))) [
          | inr e ↦
              rw (sym (ap (λ p. p.1) (returns-injective (rw e at h1)))) (unchanged-Effect user db)
          | inl e ↦ >>=-then (require_key s.fernet s.key) _ (rw e at h1) (λ key _ h2.
              >>=-then (credentials_of s.fernet s.json row key) _ h2
                (λ values _ h3. recorded-Effect row db _ h3))
        ])
