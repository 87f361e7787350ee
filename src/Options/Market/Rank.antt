-- ===== src/Options/Market/Rank.antt =====
-- `volatility_rank` (services/options/market.py) is a fraction, and needs enough history.
use agnostix_ai_quant_fund.Prelude.{
  ℕ, ◌+◌, ◌-◌, ◌<◌, ◌≡◌, refl, Bool, true, false, Option, none, some, List, arith, length, ltb,
  if◌then◌else◌,
}
use agnostix_ai_quant_fund.Number.{Float, ◌≼◌, nought, one}
use agnostix_ai_quant_fund.Number.Order.{IsOrdered, HasUnit}
use agnostix_ai_quant_fund.Options.Iv.{positives}
use agnostix_ai_quant_fund.Options.Iv.Range.{iv_percentile_unit}
use agnostix_ai_quant_fund.Options.Market.{rolling, volatility_rank}

guarded {ℓ} :
    {A : Type ℓ} (b : Bool) (m : Option A) {v : A}
    → (if b then none else m) ≡ some v
    → (b ≡ false) × (m ≡ some v)
guarded true m e = cc
guarded false m e = (refl, e)

module _ {W : Type 0} ⦃num : Float W⦄ (laws : IsOrdered W) (unit : HasUnit W) where
  -- Under the laws of order and of the unit interval: a rank of `volatility_rank` lies between 0
  -- and 1, and there is one only where the history has at least `window + 2` positive closes.
  volatility_rank_unit :
      (current : Option W) (closes : List W) (window periods windows : ℕ) {r : W}
      → volatility_rank current closes window periods windows ≡ some r
      → (nought ≼ r) × (r ≼ one) × (window + 1 < length (positives closes))
  unfolding volatility_rank
  volatility_rank_unit none closes window periods windows e = cc
  volatility_rank_unit (some c) closes window periods windows {r} e =
      let series =
        rolling (positives closes) window periods
          (Prim.Native.Nat.min windows (length (positives closes) - window)) 0 in
      let (_, e1) = guarded (num.le c nought) _ e in
      let (long, e2) = guarded (ltb (length (positives closes)) (window + 2)) _ e1 in
      let (_, e3) = guarded (ltb (length series) 5) _ e2 in
      let (a, b) = iv_percentile_unit laws unit (some c) (some series) e3 in
      let enough : window + 1 < length (positives closes) = ground (arith, long) in (a, b, enough)
