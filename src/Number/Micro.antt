-- ===== src/Number/Micro.antt =====
-- A concrete `Float`: whole millionths, with products and quotients cut towards zero, and with the
-- first terms of their series at 1 for `exp`, `log` and `sqrt`.
use agnostix_ai_quant_fund.Prelude.{
  ℕ, suc, ◌+◌, ◌-◌, ◌*◌, ◌/◌, ◌^◌, ◌≤◌, ◌<◌, ◌≡◌, refl, true, some, List, [], ◌∷◌, arith,
  if◌then◌else◌, leb,
}
use agnostix_ai_quant_fund.Prelude.Int.{
  ℤ, pos, negsuc, pos_part, neg_part, sub_ℕ, ◌+ℤ◌, ◌-ℤ◌, ltb_ℤ, leb_ℤ, eqb_ℤ, magnitude,
}
use agnostix_ai_quant_fund.Number.{Float}
use agnostix_ai_quant_fund.Number.Order.{IsOrdered, HasUnit}

abbrev scale : ℕ
scale = 10 ^ 6

abbrev pub mul_micro : ℤ → ℤ → ℤ
mul_micro a b =
    sub_ℕ ((pos_part a * pos_part b + neg_part a * neg_part b) / scale)
      ((pos_part a * neg_part b + neg_part a * pos_part b) / scale)

abbrev pub div_micro : ℤ → ℤ → ℤ
div_micro a (pos n) = sub_ℕ (pos_part a * scale / n) (neg_part a * scale / n)
div_micro a (negsuc n) = sub_ℕ (neg_part a * scale / suc n) (pos_part a * scale / suc n)

abbrev pub sum_micro : ℤ → List ℤ → ℤ
sum_micro acc [] = acc
sum_micro acc (x ∷ xs) = sum_micro (acc +ℤ x) xs

abbrev round_micro : ℤ → ℕ → ℤ
round_micro x k =
    let unit = 10 ^ (6 - k) in
    if leb 6 k
    then x
    else sub_ℕ ((pos_part x + unit / 2) / unit * unit) ((neg_part x + unit / 2) / unit * unit)

instance abbrev pub micro : Float ℤ
micro = record {
  decimal = λ m k. pos (m * scale / 10 ^ k);
  add = ◌+ℤ◌;
  sub = ◌-ℤ◌;
  mul = mul_micro;
  div = div_micro;
  neg = λ x. pos 0 -ℤ x;
  abs = λ x. pos (magnitude x);
  lt = ltb_ℤ;
  le = leb_ℤ;
  eq = eqb_ℤ;
  round = round_micro;
  int = λ x. some (sub_ℕ (pos_part x / scale) (neg_part x / scale));
  exp = λ x. some (pos scale +ℤ x);
  pow2 = λ x. some (mul_micro x x);
  log = λ x. x -ℤ pos scale;
  sqrt = λ x. x;
  pi = pos 3_141_593;
  sum = sum_micro (pos 0);
}

mul_le : (a b c : ℕ) → a ≤ b → a * c ≤ b * c
mul_le a b c h = grind arith

mul_mono :
    (x y z : ℤ)
    → leb_ℤ (pos 0) z ≡ true
    → leb_ℤ x y ≡ true
    → leb_ℤ (mul_micro x z) (mul_micro y z) ≡ true
mul_mono (pos a) (pos b) (pos c) hz h = ground (arith, mul_le a b c)
mul_mono (pos a) (negsuc b) (pos c) hz h = ground arith
mul_mono (negsuc a) (pos b) (pos c) hz h = ground arith
mul_mono (negsuc a) (negsuc b) (pos c) hz h = ground (arith, mul_le (b + 1) (a + 1) c)
mul_mono x y (negsuc c) hz h = ground arith

mul_comm_micro : (x z : ℤ) → mul_micro x z ≡ mul_micro z x
mul_comm_micro x z = ground arith

-- the millionths meet the laws
pub Micro-IsOrdered : IsOrdered ℤ
Micro-IsOrdered = record {
  le_refl = λ x. ground arith;
  le_trans = λ x y z p q. ground arith;
  lt-eq-not-le = λ x y. ground arith;
  le_of_lt = λ x y h. ground arith;
  eq-le = λ x y h. ground arith;
  eq_refl = λ x. ground arith;
  add_mono = λ x y z h. ground arith;
  sub_mono = λ x y z h. ground arith;
  neg_anti = λ x y h. ground arith;
  mul_mono = λ x y z p h. (
    mul_mono x y z p h,
    ground (arith, mul_mono x y z p h, mul_comm_micro x z, mul_comm_micro y z),
  );
  decimal_nonneg = λ m k. ground arith;
  sub_self = λ x. ground arith;
}

quotient-le : (x y s : ℕ) → x ≤ y → 0 < y → x * s / y ≤ s
quotient-le x y s h p = grind arith

pub Micro-HasUnit : HasUnit ℤ
Micro-HasUnit = record {
  sub_zero = refl;
  zero_lt_one = refl;
  half_unit = (refl, refl);
  ratio_unit = λ a b h p. ground (arith, quotient-le (a * scale / 1) (b * scale / 1) scale);
}
