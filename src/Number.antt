-- ===== src/Number.antt =====
-- Python's `float` as an interface: the operations that the program makes, with no law, so that
-- every definition over it reads as the source does, NaN and rounding included. The laws that a
-- theorem needs are named hypotheses (Number/Order), and Number/Micro is a concrete instance.
pub mod Order
pub mod Micro
use agnostix_ai_quant_fund.Prelude.{
  ℕ, ◌≡◌, Bool, true, false, not, Option, none, some, List, if◌then◌else◌,
}
use agnostix_ai_quant_fund.Prelude.Int.{ℤ}
use agnostix_ai_quant_fund.Prelude.Outcome.{Outcome, returns, raises}

pub record Float (W : Type 0) : Type 0 where
  -- `decimal m k` is the literal m × 10^-k; `decimal n 0` converts an `int` that is not negative
  pub decimal : ℕ → ℕ → W
  pub add : W → W → W
  pub sub : W → W → W
  pub mul : W → W → W
  pub div : W → W → W
  pub neg : W → W
  pub abs : W → W
  -- `x < y`, `x <= y` and `x == y`, which are false at NaN
  pub lt : W → W → Bool
  pub le : W → W → Bool
  pub eq : W → W → Bool
  -- `round x k` is the built-in `round(x, k)`
  pub round : W → ℕ → W
  -- `int(x)`; `none` is the exception at an infinity or NaN
  pub int : W → Option ℤ
  -- `math.exp(x)` and `x ** 2`; `none` is their `OverflowError`
  pub exp : W → Option W
  pub pow2 : W → Option W
  -- `math.log` and `math.sqrt` where they do not raise, and `math.pi`
  pub log : W → W
  pub sqrt : W → W
  pub pi : W
  -- the built-in `sum` of a list of floats
  pub sum : List W → W

module _ {W : Type 0} ⦃num : Float W⦄ where
  infixl 65 ◌⊕◌ ◌⊖◌
  infixl 70 ◌⊗◌ ◌⊘◌
  infix 4 ◌≼◌ ◌≺◌
  abbrev pub ◌⊕◌ : W → W → W
  x ⊕ y = num.add x y

  abbrev pub ◌⊖◌ : W → W → W
  x ⊖ y = num.sub x y

  abbrev pub ◌⊗◌ : W → W → W
  x ⊗ y = num.mul x y

  abbrev pub ◌⊘◌ : W → W → W
  x ⊘ y = num.div x y

  abbrev pub ◌≼◌ : W → W → Type 0
  x ≼ y = num.le x y ≡ true

  abbrev pub ◌≺◌ : W → W → Type 0
  x ≺ y = num.lt x y ≡ true

  abbrev pub nought : W
  nought = num.decimal 0 0

  abbrev pub one : W
  one = num.decimal 1 0

  -- `max(x, y)` and `min(x, y)` of two floats: the first one, unless the second is past it
  unfoldable pub max_float : W → W → W
  max_float x y = if num.lt x y then y else x

  unfoldable pub min_float : W → W → W
  min_float x y = if num.lt y x then y else x

  -- `x or d`: the default where `x` is `None` or zero
  unfoldable pub or_default : Option W → W → W
  or_default none d = d
  or_default (some x) d = if num.eq x nought then d else x

  abbrev pub or_zero : Option W → W
  or_zero x = or_default x nought

  -- the operations that raise: `x / y`, `math.exp`, `x ** 2`, `math.log` and `math.sqrt`
  unfoldable pub divide : W → W → Outcome W
  divide x y = if num.eq y nought then raises "ZeroDivisionError" else returns (x ⊘ y)

  abbrev pub in_range : Option W → Outcome W
  in_range none = raises "OverflowError"
  in_range (some x) = returns x

  abbrev pub math_exp : W → Outcome W
  math_exp x = in_range (num.exp x)

  abbrev pub square : W → Outcome W
  square x = in_range (num.pow2 x)

  unfoldable pub math_log : W → Outcome W
  math_log x = if num.le x nought then raises "ValueError" else returns (num.log x)

  unfoldable pub math_sqrt : W → Outcome W
  math_sqrt x = if num.lt x nought then raises "ValueError" else returns (num.sqrt x)
