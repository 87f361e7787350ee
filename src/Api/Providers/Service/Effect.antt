-- ===== src/Api/Providers/Service/Effect.antt =====
-- What a successful operation of the service has done to the tables
-- (apps/api/app/services/provider_management.py).
use Prim.Native.String.{String}
use agnostix_ai_quant_fund.Prelude.{
  ℕ, ◌≤◌, ◌≡◌, ◌∙◌, sym, ap, refl, inl, inr, true, not, Option, none, some, List, [], ◌∷◌, ◌++◌,
  All, length, filter, ◌==◌, arith, Bool-cases, Option-cases, append-nil,
}
use agnostix_ai_quant_fund.Prelude.Outcome.{returns, >>=-eq-returns, returns-injective}
use agnostix_ai_quant_fund.Api.Providers.{
  ProviderKind, ProviderConfiguration, AgentEvent, Database, ProviderOut,
  ProviderModelConfiguration, Metadata,
}
use agnostix_ai_quant_fund.Api.Providers.Metadata.Safe.{IsSafe}
use agnostix_ai_quant_fund.Api.Providers.Store.{
  kind_eq, is_visible, find_visible, get_visible, put_row,
}
use agnostix_ai_quant_fund.Api.Providers.Service.{Setting, audit, get_row, answer, provider_out}

-- the rows of configurations: as they were, with a visible row changed within its scope, with a
-- visible row added, or with a visible row removed; metadata stays safe
pub data Change (user : ℕ) (before after : List ProviderConfiguration) : Type 0 where
  same : after ≡ before → Change user before after
  changed :
      (id : ℕ) (old row : ProviderConfiguration)
      → find_visible id user before ≡ some old
      → row.id ≡ old.id
      → is_visible user row ≡ true
      → (IsSafe old.metadata_json → IsSafe row.metadata_json)
      → after ≡ put_row row before
      → Change user before after
  added :
      (row : ProviderConfiguration)
      → is_visible user row ≡ true
      → IsSafe row.metadata_json
      → after ≡ before ++ (row ∷ [])
      → Change user before after
  removed :
      (id : ℕ) (old : ProviderConfiguration)
      → find_visible id user before ≡ some old
      → after ≡ filter (λ c. not (c.id == old.id)) before
      → Change user before after

-- at most one event is appended, which is the user's
abbrev pub Appended : ℕ → List AgentEvent → List AgentEvent → Type 0
Appended user before after =
    (new : List AgentEvent) × (after ≡ before ++ new)
    × (length new ≤ 1)
    × All (λ e. e.user_id ≡ user) new

abbrev pub IsSafeOption : Option Metadata → Type 0
IsSafeOption none = Unit
IsSafeOption (some metadata) = IsSafe metadata

-- the metadata of the rows of models
abbrev pub IsSafeModel : ProviderModelConfiguration → Type 0
IsSafeModel m = IsSafeOption m.metadata_json

-- safe metadata of models stays safe
abbrev pub Keeps : Database → Database → Type 0
Keeps db after = All IsSafeModel db.models → All IsSafeModel after.models

abbrev pub Effect : ℕ → Database → Database → Type 0
Effect user db after =
    Change user db.configurations after.configurations
    × Appended user db.events after.events
    × Keeps db after

pub unchanged-Effect : (user : ℕ) (db : Database) → Effect user db db
unchanged-Effect user db = (same refl, ([], sym (append-nil db.events), omega arith, tt), λ h. h)

-- the event of `audit`
pub audited :
    (user id : ℕ) (event_type : String) (db : Database)
    → Appended user db.events (audit user event_type id db).events
unfolding audit
audited user id event_type db = (_, refl, omega arith, (refl, tt))

pub get_row-found :
    (user : ℕ) (kind : ProviderKind) (id : ℕ) (db : Database) {row : ProviderConfiguration}
    → get_row user kind id db ≡ returns row
    → find_visible id user db.configurations ≡ some row
unfolding get_row get_visible
get_row-found user kind id db h = elim (Option-cases (find_visible id user db.configurations)) [
  | inl e ↦ cc (rw e at h)
  | inr (row, e) ↦ elim (Bool-cases (kind_eq row.kind kind)) [
    | inl k ↦ e ∙ ap some (returns-injective (rw (e, k) at h))
    | inr k ↦ cc (rw (e, k) at h)
  ]
]

pub answer-same :
    (s : Setting) (row : ProviderConfiguration) (db : Database) {out : ProviderOut}
    {after : Database}
    → answer s row db ≡ returns (out, after)
    → after ≡ db
unfolding answer
answer-same s row db h =
    let (_, _, h') = >>=-eq-returns (provider_out s row db) (λ out. returns (out, db)) h in
    sym (ap (λ p. p.1) (returns-injective h'))
