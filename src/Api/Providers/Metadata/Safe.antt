-- ===== src/Api/Providers/Metadata/Safe.antt =====
-- Metadata without credentials (apps/api/app/services/provider_management.py).
use Prim.Native.String.{String}
use agnostix_ai_quant_fund.Prelude.{
  ◌≡◌, refl, inl, inr, Bool, true, false, [], ◌∷◌, All, Bool-cases,
}
use agnostix_ai_quant_fund.Prelude.Text.{str_eq, eq_iff, lower, contains, starts_with}
use agnostix_ai_quant_fund.Prelude.Outcome.{returns, ◌>>=◌, >>=-eq-returns, returns-injective}
use agnostix_ai_quant_fund.Prelude.Dicts.{assign, All-assign}
use agnostix_ai_quant_fund.Api.Providers.{
  Json, null, truth, number, text, array, object, Items, nil, item, Fields, end, field, Metadata,
}
use agnostix_ai_quant_fund.Api.Providers.Metadata.{
  is_forbidden, refuse, walk, walk_items, walk_fields, walk_metadata, check_keys, safe_metadata,
  remove,
}

-- no dictionary within the value has a forbidden key
unfoldable mutual
  pub IsClean : Json → Type 0
  IsClean null = Unit
  IsClean (truth b) = Unit
  IsClean (number t zero) = Unit
  IsClean (text s) = Unit
  IsClean (array items) = AreClean items
  IsClean (object fields) = HasClean fields

  pub AreClean : Items → Type 0
  AreClean nil = Unit
  AreClean (item value items) = IsClean value × AreClean items

  pub HasClean : Fields → Type 0
  HasClean end = Unit
  HasClean (field key value fields) = (is_forbidden key ≡ false) × IsClean value × HasClean fields

-- the key of an entry is not forbidden, and its value is clean
abbrev pub CleanEntry : String × Json → Type 0
CleanEntry (key, value) = (is_forbidden key ≡ false) × IsClean value

abbrev pub IsSafe : Metadata → Type 0
IsSafe = All CleanEntry

refuse-false : (bad : Bool) {u : Unit {0}} → refuse bad ≡ returns u → bad ≡ false
refuse-false true h = cc
refuse-false false h = refl

mutual
  unfolding walk walk_items walk_fields IsClean AreClean HasClean

  walk-IsClean : (value : Json) {u : Unit {0}} → walk value ≡ returns u → IsClean value
  walk-IsClean null h = tt
  walk-IsClean (truth b) h = tt
  walk-IsClean (number t zero) h = tt
  walk-IsClean (text s) h = tt
  walk-IsClean (array items) h = walk_items_clean items h
  walk-IsClean (object fields) h = walk_fields_clean fields h

  walk_items_clean : (items : Items) {u : Unit {0}} → walk_items items ≡ returns u → AreClean items
  walk_items_clean nil h = tt
  walk_items_clean (item value items) h =
      let (_, first, rest) = >>=-eq-returns (walk value) (λ _. walk_items items) h in
      (walk-IsClean value first, walk_items_clean items rest)

  walk_fields_clean :
      (fields : Fields) {u : Unit {0}} → walk_fields fields ≡ returns u → HasClean fields
  walk_fields_clean end h = tt
  walk_fields_clean (field key value fields) h =
      let (_, allowed, h') =
        >>=-eq-returns (refuse (is_forbidden key)) (λ _. walk value >>= λ _. walk_fields fields)
          h in
      let (_, first, rest) = >>=-eq-returns (walk value) (λ _. walk_fields fields) h' in
      (
        refuse-false (is_forbidden key) allowed,
        walk-IsClean value first,
        walk_fields_clean fields rest,
      )

walk_metadata-IsSafe :
    (metadata : Metadata) {u : Unit {0}} → walk_metadata metadata ≡ returns u → IsSafe metadata
unfolding walk_metadata
walk_metadata-IsSafe [] h = tt
walk_metadata-IsSafe ((key, value) ∷ metadata) h =
    let (_, allowed, h') =
      >>=-eq-returns (refuse (is_forbidden key)) (λ _. walk value >>= λ _. walk_metadata metadata)
        h in
    let (_, first, rest) = >>=-eq-returns (walk value) (λ _. walk_metadata metadata) h' in
    (
      (refuse-false (is_forbidden key) allowed, walk-IsClean value first),
      walk_metadata-IsSafe metadata rest,
    )

-- what `_safe_metadata` returns is what it was given, and it is safe
pub safe_metadata-IsSafe :
    (metadata : Metadata) {safe : Metadata} → safe_metadata metadata ≡ returns safe → IsSafe safe
unfolding safe_metadata
safe_metadata-IsSafe metadata h =
    let (_, _, h') =
      >>=-eq-returns (check_keys metadata) (λ _. walk_metadata metadata >>= λ _. returns metadata)
        h in
    let (_, walked, same) = >>=-eq-returns (walk_metadata metadata) (λ _. returns metadata) h' in
    mathlib.Core.Path.subst IsSafe (returns-injective same) (walk_metadata-IsSafe metadata walked)

pub assign-IsSafe :
    (metadata : Metadata) (name : String) (value : Json)
    → IsSafe metadata
    → is_forbidden name ≡ false
    → IsClean value
    → IsSafe (assign str_eq metadata name value)
assign-IsSafe metadata name value safe allowed clean =
    All-assign str_eq CleanEntry metadata name value safe (allowed, clean)
      (λ k e. (rw ((eq_iff k name).0 e) allowed, clean))

pub remove-IsSafe :
    (metadata : Metadata) (name : String) → IsSafe metadata → IsSafe (remove metadata name)
unfolding remove
remove-IsSafe [] name h = tt
remove-IsSafe ((key, value) ∷ metadata) name (h, hs) = elim (Bool-cases (str_eq key name)) [
  | inl e ↦ rw e (remove-IsSafe metadata name hs)
  | inr e ↦ rw e (h, remove-IsSafe metadata name hs)
]

-- the names that the service itself writes
pub names_allowed :
    (is_forbidden "base_url" ≡ false)
    × (is_forbidden "default_model" ≡ false)
    × (is_forbidden "market_data_feed" ≡ false)
unfolding is_forbidden contains starts_with lower
names_allowed = (refl, refl, refl)
