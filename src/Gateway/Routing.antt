-- ===== src/Gateway/Routing.antt =====
-- The provider that `_select_adapter` (services/model_gateway/gateway.py) chooses.
use mathlib.Core.Option.{some-injective}
use Prim.Native.String.{String}
use agnostix_ai_quant_fund.Prelude.{
  ◌≡◌, refl, ap, ◌∙◌, ◌⊎◌, inl, inr, true, Option, none, some, List, [], ◌∷◌, ◌++◌, All,
  Option-cases, if_some, subst, Bool-cases,
}
use agnostix_ai_quant_fund.Prelude.Text.{str_eq, eq_iff}
use agnostix_ai_quant_fund.Prelude.Outcome.{Outcome, returns, returns-injective}
use agnostix_ai_quant_fund.Gateway.{
  ModelClass, ProviderAdapter, ModelGateway, get_adapter, usable_one, usable, chosen, first_usable,
  order_for, select_adapter,
}

module _ {M C : Type 0} where
  -- the adapter `a` is the first in the order that can be used
  pub record IsFirst (adapters : List (ProviderAdapter M C)) (order : List String)
      (a : ProviderAdapter M C) : Type 0 where
    pub before : List String
    pub name : String
    pub after : List String
    pub split : order ≡ before ++ (name ∷ after)
    pub skipped : All (λ n. usable adapters n ≡ none) before
    pub found : get_adapter adapters name ≡ some a
    pub named : a.name ≡ name
    pub configured : a.is_configured ≡ true

  get_adapter_name :
      (others : List (ProviderAdapter M C)) (name : String) {a : ProviderAdapter M C}
      → get_adapter others name ≡ some a
      → a.name ≡ name
  unfolding get_adapter
  get_adapter_name [] name e = cc
  get_adapter_name (b ∷ others) name e = elim (Option-cases (get_adapter others name)) [
    | inr (c, f) ↦ get_adapter_name others name (f ∙ rw f at e)
    | inl f ↦ elim (Bool-cases (str_eq b.name name)) [
      | inl t ↦ rw (← some-injective _ _ (rw (f, t) at e)) ((eq_iff b.name name).0 t)
      | inr t ↦ cc (rw (f, t) at e)
    ]
  ]

  usable_one_inv :
      (o : Option (ProviderAdapter M C)) {a : ProviderAdapter M C}
      → usable_one o ≡ some a
      → (o ≡ some a) × (a.is_configured ≡ true)
  usable_one_inv none e = cc
  usable_one_inv (some b) e =
      let (ok, same) = if_some b.is_configured b e in
      (ap some same, subst (λ x. x.is_configured ≡ true) same ok)

  chosen-eq-returns :
      (o : Option (ProviderAdapter M C)) (m : Outcome (ProviderAdapter M C))
      {a : ProviderAdapter M C}
      → chosen o m ≡ returns a
      → (o ≡ some a) ⊎ ((o ≡ none) × (m ≡ returns a))
  chosen-eq-returns none m e = inr (refl, e)
  chosen-eq-returns (some b) m e = inl (ap some (returns-injective e))

  first_usable-IsFirst :
      (adapters : List (ProviderAdapter M C)) (order : List String) {a : ProviderAdapter M C}
      → first_usable adapters order ≡ returns a
      → IsFirst adapters order a
  unfolding first_usable
  first_usable-IsFirst adapters [] e = cc
  first_usable-IsFirst adapters (n ∷ ns) e =
      elim (chosen-eq-returns (usable adapters n) (first_usable adapters ns) e) [
        | inl f ↦
            let (got, ok) = usable_one_inv (get_adapter adapters n) f in
            record {
              before = [];
              name = n;
              after = ns;
              split = refl;
              skipped = tt;
              found = got;
              named = get_adapter_name adapters n got;
              configured = ok;
            }
        | inr (f, later) ↦
            let rest = first_usable-IsFirst adapters ns later in
            record {
              before = n ∷ rest.before;
              name = rest.name;
              after = rest.after;
              split = ap (λ xs. n ∷ xs) rest.split;
              skipped = (f, rest.skipped);
              found = rest.found;
              named = rest.named;
              configured = rest.configured;
            }
      ]

  -- The adapter that `_select_adapter` returns is configured, has the name that the order of the
  -- class asks for, and every name before it in that order is unknown or not configured.
  select_adapter-IsFirst :
      (g : ModelGateway M C) (c : ModelClass) {a : ProviderAdapter M C}
      → select_adapter g c ≡ returns a
      → IsFirst g.adapters (order_for c g.routing_preference) a
  unfolding select_adapter
  select_adapter-IsFirst g c e =
      first_usable-IsFirst g.adapters (order_for c g.routing_preference) e
