-- ===== src/Number/Order.antt =====
-- Laws of floating point that IEEE doubles have away from NaN: the order is total, and rounding is
-- monotone. A theorem that uses them takes `IsOrdered W` as its hypothesis.
use agnostix_ai_quant_fund.Prelude.{◌≡◌, ◌≤◌, ◌<◌, true, false, not, arith}
use agnostix_ai_quant_fund.Number.{Float, ◌≼◌, ◌≺◌, ◌⊕◌, ◌⊖◌, ◌⊗◌, nought, one, max_float}
use agnostix_ai_quant_fund.Prelude.{ℕ}

pub record IsOrdered (W : Type 0) ⦃num : Float W⦄ : Type 0 where
  pub le_refl : (x : W) → x ≼ x
  pub le_trans : (x y z : W) → x ≼ y → y ≼ z → x ≼ z
  -- on comparable values `<` is the negation of `>=`
  pub lt-eq-not-le : (x y : W) → num.lt x y ≡ not (num.le y x)
  pub le_of_lt : (x y : W) → num.lt x y ≡ true → x ≼ y
  pub eq-le : (x y : W) → num.eq x y ≡ true → (x ≼ y) × (y ≼ x)
  pub eq_refl : (x : W) → num.eq x x ≡ true
  pub add_mono : (x y z : W) → x ≼ y → (x ⊕ z ≼ y ⊕ z) × (z ⊕ x ≼ z ⊕ y)
  pub sub_mono : (x y z : W) → x ≼ y → (x ⊖ z ≼ y ⊖ z) × (z ⊖ y ≼ z ⊖ x)
  pub neg_anti : (x y : W) → x ≼ y → num.neg y ≼ num.neg x
  pub mul_mono : (x y z : W) → nought ≼ z → x ≼ y → (x ⊗ z ≼ y ⊗ z) × (z ⊗ x ≼ z ⊗ y)
  pub decimal_nonneg : (m k : ℕ) → nought ≼ num.decimal m k
  pub sub_self : (x : W) → num.eq (x ⊖ x) nought ≡ true

-- facts about the unit interval: 1.0 - 0.0 is 1.0, zero is below one, 0.5 lies between
pub record HasUnit (W : Type 0) ⦃num : Float W⦄ : Type 0 where
  pub sub_zero : ◌≡◌ {A = W} (num.sub one nought) one
  pub zero_lt_one : num.lt nought one ≡ true
  pub half_unit : (num.le nought (num.decimal 5 1) ≡ true) × (num.le (num.decimal 5 1) one ≡ true)
  -- a fraction of counts lies between zero and one
  pub ratio_unit :
      (a b : ℕ)
      → a ≤ b
      → 0 < b
      → (num.le nought (num.div (num.decimal a 0) (num.decimal b 0)) ≡ true)
        × (num.le (num.div (num.decimal a 0) (num.decimal b 0)) one ≡ true)

module _ {W : Type 0} ⦃num : Float W⦄ (laws : IsOrdered W) where
  open laws use {le_refl, lt-eq-not-le, le_of_lt, le_trans}

  pub le_total : (x y : W) → num.le x y ≡ false → y ≼ x
  le_total x y h = le_of_lt y x (ground (arith, lt-eq-not-le y x))

  pub lt_of_le_of_lt : (x y z : W) → x ≼ y → y ≺ z → x ≺ z
  lt_of_le_of_lt x y z p q = ground (arith, lt-eq-not-le x z, lt-eq-not-le y z, le_trans z x y)

  pub lt_of_lt_of_le : (x y z : W) → x ≺ y → y ≼ z → x ≺ z
  lt_of_lt_of_le x y z p q = ground (arith, lt-eq-not-le x z, lt-eq-not-le x y, le_trans y z x)

  -- `max` is above both of its arguments, below every common bound, and monotone
  pub max_float_upper : (x y : W) → (x ≼ max_float x y) × (y ≼ max_float x y)
  unfolding max_float
  max_float_upper x y = ground (arith, le_refl x, le_refl y, le_of_lt x y, lt-eq-not-le x y)

  pub max_float_least : (x y z : W) → x ≼ z → y ≼ z → max_float x y ≼ z
  unfolding max_float
  max_float_least x y z p q = ground arith

  pub max_float_mono : (x y z : W) → x ≼ y → max_float x z ≼ max_float y z
  max_float_mono x y z p =
      let (l, r) = max_float_upper y z in max_float_least x z (max_float y z) (le_trans x y _ p l) r
