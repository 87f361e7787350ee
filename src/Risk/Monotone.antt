-- ===== src/Risk/Monotone.antt =====
-- A safer trade, or a better account, is never refused where the worse one passed
-- (services/risk/engine.py).
use Prim.Native.String.{String}
use agnostix_ai_quant_fund.Prelude.{◌≤◌, ◌≡◌, true, Option, arith}
use agnostix_ai_quant_fund.Number.{Float, ◌⊕◌, ◌⊗◌, ◌≼◌, nought}
use agnostix_ai_quant_fund.Number.Order.{IsOrdered, max_float_mono, lt_of_le_of_lt, lt_of_lt_of_le}
use agnostix_ai_quant_fund.Options
use agnostix_ai_quant_fund.Options.{OptionStrategy}
use agnostix_ai_quant_fund.Risk.{
  RiskBudget, PortfolioState, dict_get, passes, loss_of, equity_of, evaluate,
}
use agnostix_ai_quant_fund.Risk.Verdict.{MeetsHardLimits, passes_iff}

module _ {W : Type 0} ⦃num : Float W⦄ where
  -- `s'` risks at most what `s` risks, on the same underlying and expiry
  pub record IsSafer (s s' : OptionStrategy W) : Type 0 where
    pub defined : Options.defined_risk s' ≡ true
    pub loss : loss_of s' ≼ loss_of s
    pub underlying : s'.underlying ≡ s.underlying
    pub days : s'.days_to_expiration ≡ s.days_to_expiration

  -- the account `p'` has at least the means of `p` and at most its commitments
  pub record IsBetter (key : String) (p p' : PortfolioState W) : Type 0 where
    pub equity : p.equity ≼ p'.equity
    pub cash : p.cash ≼ p'.cash
    pub daily : p.daily_pl ≼ p'.daily_pl
    pub positions : p'.open_positions ≤ p.open_positions
    pub committed : p'.defined_risk_committed ≼ p.defined_risk_committed
    pub exposure :
        dict_get p'.exposure_by_underlying key nought ≼ dict_get p.exposure_by_underlying key nought

  pub record IsSensible (b : RiskBudget W) : Type 0 where
    pub trade : nought ≼ b.max_loss_per_trade_pct
    pub total : nought ≼ b.max_total_defined_risk_pct
    pub concentration : nought ≼ b.max_concentration_pct
    pub daily : nought ≼ b.daily_loss_limit_pct

module _ {W : Type 0} ⦃num : Float W⦄ (laws : IsOrdered W) where
  open laws use {le_trans, add_mono, mul_mono, neg_anti}

  -- a fraction of a larger equity is larger
  fraction_mono :
      (pct : W) (p p' : PortfolioState W)
      → nought ≼ pct
      → p.equity ≼ p'.equity
      → (pct ⊗ equity_of p) ≼ (pct ⊗ equity_of p')
  fraction_mono pct p p' h e = (mul_mono _ _ pct h (max_float_mono laws _ _ _ e)).1

  sum_mono : (x x' y y' : W) → x ≼ x' → y ≼ y' → (x ⊕ y) ≼ (x' ⊕ y')
  sum_mono x x' y y' p q = le_trans _ _ _ (add_mono x x' y p).0 (add_mono y y' x' q).1

  MeetsHardLimits-mono :
      (s s' : OptionStrategy W) (p p' : PortfolioState W) (b : RiskBudget W)
      → IsSensible b
      → IsSafer s s'
      → IsBetter s.underlying p p'
      → MeetsHardLimits s p b
      → MeetsHardLimits s' p' b
  MeetsHardLimits-mono s s' p p' b sensible safer better m = record {
    defined = safer.defined;
    per_trade = within _ safer.loss m.per_trade (fraction_mono _ p p' sensible.trade better.equity);
    total =
        within _ (sum_mono _ _ _ _ better.committed safer.loss) m.total
          (fraction_mono _ p p' sensible.total better.equity);
    concentrated = rw safer.underlying (
        within _ (sum_mono _ _ _ _ better.exposure safer.loss) m.concentrated
          (fraction_mono _ p p' sensible.concentration better.equity));
    window = rw safer.days m.window;
    daily =
        lt_of_lt_of_le laws _ _ _
          (lt_of_le_of_lt laws _ _ _
            (neg_anti _ _ (fraction_mono _ p p' sensible.daily better.equity)) m.daily)
          better.daily;
    room = omega (arith, m.room, better.positions);
    cash = within _ safer.loss m.cash better.cash;
  }
    where
      within : (x : W) {y z u : W} → x ≼ y → y ≼ z → z ≼ u → x ≼ u
      within x p q r = le_trans _ _ _ (le_trans _ _ _ p q) r

  -- Under the laws of order, with percentages that are not negative: if a trade passes the engine,
  -- then a safer trade on the same underlying and expiry passes it in a better account, whatever
  -- the IV ranks.
  passes_mono :
      (s s' : OptionStrategy W) (p p' : PortfolioState W) (b : RiskBudget W) (iv iv' : Option W)
      → IsSensible b
      → IsSafer s s'
      → IsBetter s.underlying p p'
      → passes (evaluate s p b iv).verdict ≡ true
      → passes (evaluate s' p' b iv').verdict ≡ true
  passes_mono s s' p p' b iv iv' sensible safer better h =
      (passes_iff s' p' b iv').1
        (MeetsHardLimits-mono s s' p p' b sensible safer better ((passes_iff s p b iv).0 h))
