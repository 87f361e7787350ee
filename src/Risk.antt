-- ===== src/Risk.antt =====
-- services/risk/engine.py: the gates, the budget and `evaluate`. The texts of `detail` are not
-- modelled; counts that a gate records as `limit` or `actual` become floats there.
pub mod Verdict
pub mod Monotone
mod Tests
use Prim.Native.String.{String}
use agnostix_ai_quant_fund.Prelude.{
  ℕ, Bool, true, false, not, ◌&&◌, Option, none, some, List, [], ◌∷◌, filter, leb, ltb,
  if◌then◌else◌,
}
use agnostix_ai_quant_fund.Prelude.Text.{str_eq}
use agnostix_ai_quant_fund.Number.{Float, ◌⊕◌, ◌⊗◌, nought, max_float, or_zero}
use agnostix_ai_quant_fund.Options
use agnostix_ai_quant_fund.Options.{OptionStrategy}

pub data GateVerdict : Type 0 where
  approve refuse reduce : GateVerdict

pub data Gate : Type 0 where
  defined_risk max_loss_per_trade max_loss_total concentration iv_rank_band dte_window : Gate
  probability_of_profit daily_loss_circuit_breaker open_positions_limit cash_collateral : Gate

pub record GateResult (W : Type 0) : Type 0 where
  pub gate : Gate
  pub passed : Bool
  pub hard : Bool
  pub limit : Option W
  pub actual : Option W

pub record RiskResult (W : Type 0) : Type 0 where
  pub verdict : GateVerdict
  pub gates : List (GateResult W)

pub record RiskBudget (W : Type 0) : Type 0 where
  pub max_loss_per_trade_pct : W
  pub max_total_defined_risk_pct : W
  pub max_concentration_pct : W
  pub min_iv_rank : W
  pub max_iv_rank : W
  pub min_dte : ℕ
  pub max_dte : ℕ
  pub min_probability_of_profit : W
  pub daily_loss_limit_pct : W
  pub max_open_positions : ℕ

pub record PortfolioState (W : Type 0) : Type 0 where
  pub equity : W
  pub cash : W
  pub daily_pl : W
  pub open_positions : ℕ
  pub defined_risk_committed : W
  pub exposure_by_underlying : List (String × W)

-- `RiskResult.passed`
unfoldable pub passes : GateVerdict → Bool
passes refuse = false
passes _ = true

-- `d.get(key, 0.0)`
unfoldable pub dict_get {ℓ} : {V : Type ℓ} → List (String × V) → String → V → V
dict_get [] key d = d
dict_get ((k, v) ∷ rest) key d =
    let later = dict_get rest key d in if str_eq k key then v else later

module _ {W : Type 0} where
  is_hard_failure : GateResult W → Bool
  is_hard_failure g = not g.passed && g.hard

  is_soft_failure : GateResult W → Bool
  is_soft_failure g = not g.passed && not g.hard

  abbrev is_empty : List (GateResult W) → Bool
  is_empty [] = true
  is_empty (g ∷ gs) = false

  -- the end of `evaluate`: the verdict from the failures
  verdict_of : List (GateResult W) → GateVerdict
  verdict_of gates =
      if not (is_empty (filter is_hard_failure gates))
      then refuse
      else if not (is_empty (filter is_soft_failure gates))
      then reduce
      else approve

module _ {W : Type 0} ⦃num : Float W⦄ where
  abbrev pub loss_of : OptionStrategy W → W
  loss_of s = or_zero s.max_loss

  abbrev pub equity_of : PortfolioState W → W
  equity_of p = max_float p.equity (num.decimal 1 6)

  abbrev gate_result : Gate → Bool → Bool → Option W → Option W → GateResult W
  gate_result g ok hard limit actual = record {
    gate = g;
    passed = ok;
    hard = hard;
    limit = limit;
    actual = actual;
  }

  gate_per_trade : OptionStrategy W → PortfolioState W → RiskBudget W → GateResult W
  gate_per_trade s p b =
      let limit = b.max_loss_per_trade_pct ⊗ equity_of p in
      gate_result max_loss_per_trade (num.le (loss_of s) limit) true (some limit) (some (loss_of s))

  gate_total : OptionStrategy W → PortfolioState W → RiskBudget W → GateResult W
  gate_total s p b =
      let total_after = p.defined_risk_committed ⊕ loss_of s in
      let total_limit = b.max_total_defined_risk_pct ⊗ equity_of p in
      gate_result max_loss_total (num.le total_after total_limit) true (some total_limit)
        (some total_after)

  gate_concentration : OptionStrategy W → PortfolioState W → RiskBudget W → GateResult W
  gate_concentration s p b =
      let current = dict_get p.exposure_by_underlying s.underlying nought in
      let conc_limit = b.max_concentration_pct ⊗ equity_of p in
      let conc_after = current ⊕ loss_of s in
      gate_result concentration (num.le conc_after conc_limit) true (some conc_limit)
        (some conc_after)

  gate_iv_rank : RiskBudget W → Option W → GateResult W
  gate_iv_rank b none = gate_result iv_rank_band true false none none
  gate_iv_rank b (some iv_rank) =
      gate_result iv_rank_band (num.le b.min_iv_rank iv_rank && num.le iv_rank b.max_iv_rank) false
        (some b.min_iv_rank) (some iv_rank)

  abbrev in_window : RiskBudget W → Option ℕ → Bool
  in_window b none = true
  in_window b (some dte) = leb b.min_dte dte && leb dte b.max_dte

  abbrev count_as_float : Option ℕ → Option W
  count_as_float none = none
  count_as_float (some n) = some (num.decimal n 0)

  gate_dte : OptionStrategy W → RiskBudget W → GateResult W
  gate_dte s b =
      let dte = s.days_to_expiration in
      gate_result dte_window (in_window b dte) true (some (num.decimal b.min_dte 0))
        (count_as_float dte)

  abbrev likely_enough : RiskBudget W → Option W → Bool
  likely_enough b none = true
  likely_enough b (some pop) = num.le b.min_probability_of_profit pop

  gate_probability : OptionStrategy W → RiskBudget W → GateResult W
  gate_probability s b =
      let pop = s.probability_of_profit in
      gate_result probability_of_profit (likely_enough b pop) false
        (some b.min_probability_of_profit) pop

  gate_breaker : PortfolioState W → RiskBudget W → GateResult W
  gate_breaker p b =
      let daily_limit = b.daily_loss_limit_pct ⊗ equity_of p in
      gate_result daily_loss_circuit_breaker (num.lt (num.neg daily_limit) p.daily_pl) true
        (some daily_limit) (some p.daily_pl)

  gate_open_positions : PortfolioState W → RiskBudget W → GateResult W
  gate_open_positions p b =
      gate_result open_positions_limit (ltb p.open_positions b.max_open_positions) true
        (some (num.decimal b.max_open_positions 0)) (some (num.decimal p.open_positions 0))

  gate_cash : OptionStrategy W → PortfolioState W → GateResult W
  gate_cash s p =
      gate_result cash_collateral (num.le (loss_of s) p.cash) true (some (loss_of s)) (some p.cash)

  -- the ten gates of a strategy of defined risk, in the order in which they are appended
  gate_list : OptionStrategy W → PortfolioState W → RiskBudget W → Option W → List (GateResult W)
  gate_list s p b iv_rank =
      gate_result defined_risk true true none s.max_loss
      ∷ gate_per_trade s p b
      ∷ gate_total s p b
      ∷ gate_concentration s p b
      ∷ gate_iv_rank b iv_rank
      ∷ gate_dte s b
      ∷ gate_probability s b
      ∷ gate_breaker p b
      ∷ gate_open_positions p b
      ∷ gate_cash s p
      ∷ []

  pub evaluate : OptionStrategy W → PortfolioState W → RiskBudget W → Option W → RiskResult W
  evaluate s p b iv_rank =
      if not (Options.defined_risk s)
      then (let refused : RiskResult W = record {
        verdict = refuse;
        gates = gate_result defined_risk false true none none ∷ [];
      } in
          refused)
      else (let gates = gate_list s p b iv_rank in
          record { verdict = verdict_of gates; gates = gates })
