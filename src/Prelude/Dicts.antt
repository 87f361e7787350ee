-- ===== src/Prelude/Dicts.antt =====
-- Python dictionaries as association lists in the order of insertion, over a test of keys.
use mathlib.Core.Path.{◌≡◌, refl, subst}
use mathlib.Core.Logic.{◌↔◌, inl, inr}
use mathlib.Core.Bool.{Bool, true, false}
use mathlib.Core.List.{List, [], ◌∷◌}
use mathlib.Core.Option.{Option, none, some, some-injective}
use agnostix_ai_quant_fund.Prelude.Lists.{All}
use agnostix_ai_quant_fund.Prelude.Tests.{if◌then◌else◌, Bool-cases}

-- the test decides equality
abbrev pub Decides {ℓ} : {K : Type ℓ} → (K → K → Bool) → Type ℓ
Decides same = (a b : _) → (same a b ≡ true) ↔ (a ≡ b)

module _ {ℓ κ} {K : Type ℓ} {V : Type κ} (same : K → K → Bool) where
  -- `d.get(key)`
  unfoldable pub lookup : List (K × V) → K → Option V
  lookup [] key = none
  lookup ((k, v) ∷ d) key = let later = lookup d key in if same k key then some v else later

  -- `d[key] = value`
  unfoldable pub assign : List (K × V) → K → V → List (K × V)
  assign [] key v = (key, v) ∷ []
  assign ((k, u) ∷ d) key v =
      let later = assign d key v in if same k key then (k, v) ∷ d else (k, u) ∷ later

  pub lookup-assign_same :
      (d : List (K × V)) (key : K) (v : V) → Decides same → lookup (assign d key v) key ≡ some v
  unfolding lookup assign
  lookup-assign_same [] key v decides = rw ((decides key key).1 refl) refl
  lookup-assign_same ((k, u) ∷ d) key v decides = elim (Bool-cases (same k key)) [
    | inl e ↦ rw (e, e) refl
    | inr e ↦ rw (e, e) (lookup-assign_same d key v decides)
  ]

  pub lookup-assign_other :
      (d : List (K × V)) (key other : K) (v : V)
      → Decides same
      → same key other ≡ false
      → lookup (assign d key v) other ≡ lookup d other
  unfolding lookup assign
  lookup-assign_other [] key other v decides h = rw h refl
  lookup-assign_other ((k, u) ∷ d) key other v decides h = elim (Bool-cases (same k key)) [
    | inl e ↦ let same_key : k ≡ key = (decides k key).0 e in rw (e, same_key, h) refl
    | inr e ↦ elim (Bool-cases (same k other)) [
      | inl f ↦ rw (e, f) refl
      | inr f ↦ rw (e, f) (lookup-assign_other d key other v decides h)
    ]
  ]

module _ {ℓ κ μ} {K : Type ℓ} {V : Type κ} (same : K → K → Bool) (P : K × V → Type μ) where
  -- what holds of the entries of a dictionary and of a new one holds after the assignment, where it
  -- depends on no more of a key than the test sees
  pub All-assign :
      (d : List (K × V)) (key : K) (v : V)
      → All P d
      → P (key, v)
      → ((k : K) → same k key ≡ true → P (k, v))
      → All P (assign same d key v)
  unfolding assign
  All-assign [] key v h p q = (p, tt)
  All-assign ((k, u) ∷ d) key v (h, hs) p q = elim (Bool-cases (same k key)) [
    | inl e ↦ rw e (q k e, hs)
    | inr e ↦ rw e (h, All-assign d key v hs p q)
  ]

  pub All-lookup :
      (d : List (K × V)) (key : K) (v : V)
      → All P d
      → lookup same d key ≡ some v
      → (k : K) × (same k key ≡ true) × P (k, v)
  unfolding lookup
  All-lookup [] key v h e = cc
  All-lookup ((k, u) ∷ d) key v (h, hs) e = elim (Bool-cases (same k key)) [
    | inl t ↦
        let found : u ≡ v = some-injective _ _ (rw t at e) in (k, t, subst (λ x. P (k, x)) found h)
    | inr t ↦ All-lookup d key v hs (rw t at e)
  ]
