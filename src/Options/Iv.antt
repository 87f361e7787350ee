-- ===== src/Options/Iv.antt =====
-- services/options/iv.py: IV rank and IV percentile.
pub mod Range
mod Tests
use agnostix_ai_quant_fund.Prelude.{
  ℕ, suc, Bool, true, false, Option, none, some, List, [], ◌∷◌, filter, length, ltb, ◌==◌, ◌||◌,
  if◌then◌else◌,
}
use agnostix_ai_quant_fund.Number.{Float, ◌⊖◌, ◌⊘◌, nought, one, max_float, min_float}

module _ {W : Type 0} ⦃num : Float W⦄ where
  -- the built-in `min` and `max` of a list that is not empty
  unfoldable pub min_from : W → List W → W
  min_from m [] = m
  min_from m (x ∷ xs) = min_from (min_float m x) xs

  unfoldable pub max_from : W → List W → W
  max_from m [] = m
  max_from m (x ∷ xs) = max_from (max_float m x) xs

  -- `[v for v in values if v > 0]`
  unfoldable pub positives : List W → List W
  positives = filter (λ v. num.lt nought v)

  -- `_clean`
  abbrev clean : Option (List W) → List W
  clean none = []
  clean (some values) = positives values

  -- the rank of a value in a history
  unfoldable pub rank_in : W → List W → Option W
  rank_in current [] = none
  rank_in current (v ∷ []) = none
  rank_in current (v ∷ w ∷ vs) =
      let low = min_from v (w ∷ vs) in
      let high = max_from v (w ∷ vs) in
      if num.le (high ⊖ low) (num.decimal 1 9)
      then some (num.decimal 5 1)
      else some (max_float nought (min_float one ((current ⊖ low) ⊘ (high ⊖ low))))

  pub iv_rank : Option W → Option (List W) → Option W
  iv_rank none history = none
  iv_rank (some current) history =
      if num.le current nought then none else rank_in current (clean history)

  unfoldable pub percentile_in : W → List W → Option W
  percentile_in current [] = none
  percentile_in current (v ∷ vs) =
      let hist = v ∷ vs in
      let below = length (filter (λ x. num.lt x current) hist) in
      some (num.decimal below 0 ⊘ num.decimal (length hist) 0)

  unfoldable pub iv_percentile : Option W → Option (List W) → Option W
  iv_percentile none history = none
  iv_percentile (some current) history =
      if num.le current nought then none else percentile_in current (clean history)
