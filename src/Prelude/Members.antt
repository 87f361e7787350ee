-- ===== src/Prelude/Members.antt =====
-- Membership of texts by a test, `s in xs`, and what the tests say of lists.
use Prim.Native.String.{String}
use mathlib.Core.Path.{◌≡◌, refl, sym}
use mathlib.Core.Logic.{inl, inr}
use mathlib.Core.Bool.{Bool, true, ◌||◌}
use mathlib.Core.List.{List, [], ◌∷◌, ◌++◌}
use native.Mathlib.Omega.{arith}
use agnostix_ai_quant_fund.Prelude.Tests.{Bool-cases}
use agnostix_ai_quant_fund.Prelude.Lists.{any, Has}
use agnostix_ai_quant_fund.Prelude.Text.{str_eq, eq_iff}

pub any-Has : (s : String) (xs : List String) → Has s xs → any (str_eq s) xs ≡ true
any-Has s [] h = absurd h
any-Has s (x ∷ xs) (inl same) = let e = (eq_iff s x).1 (sym same) in rw e refl
any-Has s (x ∷ xs) (inr m) = let ih = any-Has s xs m in ground (arith, ih)

pub Has-any : (s : String) (xs : List String) → any (str_eq s) xs ≡ true → Has s xs
Has-any s [] h = cc
Has-any s (x ∷ xs) h = elim (Bool-cases (str_eq s x)) [
  | inl e ↦ inl (sym ((eq_iff s x).0 e))
  | inr e ↦ inr (Has-any s xs (rw e at h))
]

pub any-append {ℓ} :
    {A : Type ℓ} (p : A → Bool) (xs ys : List A) → any p (xs ++ ys) ≡ (any p xs || any p ys)
any-append p [] ys = refl
any-append p (x ∷ xs) ys = elim (Bool-cases (p x)) [
  | inl e ↦ rw e refl
  | inr e ↦ rw e (any-append p xs ys)
]
