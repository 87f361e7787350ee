-- ===== src/Options/Iv/Range.antt =====
-- IV rank and IV percentile (services/options/iv.py) lie between 0 and 1.
use mathlib.Core.Option.{some-injective}
use agnostix_ai_quant_fund.Prelude.{
  ◌≤◌, ◌≡◌, inl, inr, Bool, Option, none, some, List, [], ◌∷◌, arith, filter, length, Bool-cases,
}
use agnostix_ai_quant_fund.Number.{Float, ◌≼◌, ◌⊖◌, nought, one, max_float, min_float}
use agnostix_ai_quant_fund.Number.Order.{IsOrdered, HasUnit, max_float_upper, max_float_least}
use agnostix_ai_quant_fund.Options.Iv.{
  min_from, max_from, clean, rank_in, iv_rank, percentile_in, iv_percentile,
}

length-filter-le {ℓ} : {A : Type ℓ} (p : A → Bool) (xs : List A) → length (filter p xs) ≤ length xs
length-filter-le p [] = omega arith
length-filter-le p (x ∷ xs) = ground (arith, length-filter-le p xs)

module _ {W : Type 0} ⦃num : Float W⦄ (laws : IsOrdered W) (unit : HasUnit W) where
  min_float_le : (x y : W) → min_float x y ≼ x
  unfolding min_float
  min_float_le x y = ground (arith, laws.le_refl x, laws.le_of_lt y x)

  clamp_unit :
      (x : W)
      → (nought ≼ max_float nought (min_float one x)) × (max_float nought (min_float one x) ≼ one)
  clamp_unit x = (
    (max_float_upper laws nought (min_float one x)).0,
    max_float_least laws nought (min_float one x) one (laws.le_of_lt _ _ unit.zero_lt_one)
        (min_float_le one x),
  )

  rank_in_unit :
      (current : W) (hist : List W) {r : W}
      → rank_in current hist ≡ some r
      → (nought ≼ r) × (r ≼ one)
  unfolding rank_in
  rank_in_unit current [] e = cc
  rank_in_unit current (v ∷ []) e = cc
  rank_in_unit current (v ∷ w ∷ vs) e =
      let low = min_from v (w ∷ vs) in
      let high = max_from v (w ∷ vs) in
      elim (Bool-cases (num.le (high ⊖ low) (num.decimal 1 9))) [
        | inl t ↦ rw (← some-injective _ _ (rw t at e)) unit.half_unit
        | inr t ↦ rw (← some-injective _ _ (rw t at e)) (clamp_unit _)
      ]

  percentile_in_unit :
      (current : W) (hist : List W) {r : W}
      → percentile_in current hist ≡ some r
      → (nought ≼ r) × (r ≼ one)
  unfolding percentile_in
  percentile_in_unit current [] e = cc
  percentile_in_unit current (v ∷ vs) e =
      let hist = v ∷ vs in
      rw (← some-injective _ _ e) (
        unit.ratio_unit (length (filter (λ x. num.lt x current) hist)) (length hist)
          (length-filter-le (λ x. num.lt x current) hist) (omega arith))

  -- Under the laws of order and of the unit interval: a rank of `iv_rank` lies between 0 and 1.
  iv_rank_unit :
      (current : Option W) (history : Option (List W)) {r : W}
      → iv_rank current history ≡ some r
      → (nought ≼ r) × (r ≼ one)
  unfolding iv_rank
  iv_rank_unit none history e = cc
  iv_rank_unit (some c) history e = elim (Bool-cases (num.le c nought)) [
    | inl t ↦ cc (rw t at e)
    | inr t ↦ rank_in_unit c (clean history) (rw t at e)
  ]

  -- Under the laws of order and of the unit interval: a percentile of `iv_percentile` lies between
  -- 0 and 1.
  pub iv_percentile_unit :
      (current : Option W) (history : Option (List W)) {r : W}
      → iv_percentile current history ≡ some r
      → (nought ≼ r) × (r ≼ one)
  unfolding iv_percentile
  iv_percentile_unit none history e = cc
  iv_percentile_unit (some c) history e = elim (Bool-cases (num.le c nought)) [
    | inl t ↦ cc (rw t at e)
    | inr t ↦ percentile_in_unit c (clean history) (rw t at e)
  ]
