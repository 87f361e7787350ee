-- ===== src/Risk/Tests.antt =====
-- Runs of the risk engine (services/risk/engine.py) over whole millionths.
use agnostix_ai_quant_fund.Prelude.{ℕ, ◌*◌, ◌≡◌, ◌↔◌, refl, true, none, some, [], ◌∷◌, arith}
use agnostix_ai_quant_fund.Prelude.Int.{ℤ, pos}
use agnostix_ai_quant_fund.Number.Micro.{micro}
use agnostix_ai_quant_fund.Options
use agnostix_ai_quant_fund.Options.{OptionStrategy}
use agnostix_ai_quant_fund.Risk.{
  approve, reduce, refuse, RiskBudget, PortfolioState, dict_get, passes, is_hard_failure,
  is_soft_failure, verdict_of, gate_per_trade, gate_total, gate_concentration, gate_iv_rank,
  gate_dte, gate_probability, gate_breaker, gate_open_positions, gate_cash, gate_list, evaluate,
}
use agnostix_ai_quant_fund.Risk.Verdict.{MeetsHardLimits, MeetsSoftLimits, passes_iff, approve_iff}
use agnostix_ai_quant_fund.Risk.Monotone.{IsSafer, IsBetter, IsSensible}

abbrev dollars : ℕ → ℤ
dollars n = pos (n * 1_000_000)

abbrev spread : ℕ → OptionStrategy ℤ
spread loss = record {
  strategy_id = "bps-0a1b2c3d";
  name = "bull_put_spread";
  underlying = "SPY";
  legs = [];
  net_credit = some (dollars 1);
  net_debit = none;
  max_loss = some (dollars loss);
  max_profit = some (dollars 100);
  break_even = [];
  probability_of_profit = some (pos 700_000);
  days_to_expiration = some 35;
}

abbrev budget : RiskBudget ℤ
budget = record {
  max_loss_per_trade_pct = pos 20_000;
  max_total_defined_risk_pct = pos 150_000;
  max_concentration_pct = pos 250_000;
  min_iv_rank = pos 200_000;
  max_iv_rank = pos 950_000;
  min_dte = 14;
  max_dte = 60;
  min_probability_of_profit = pos 550_000;
  daily_loss_limit_pct = pos 20_000;
  max_open_positions = 8;
}

abbrev account : ℕ → PortfolioState ℤ
account cash = record {
  equity = dollars 100_000;
  cash = dollars cash;
  daily_pl = pos 0;
  open_positions = 2;
  defined_risk_committed = dollars 3_000;
  exposure_by_underlying = ("SPY", dollars 1_000) ∷ [];
}

-- a loss of $400 is approved, and with an IV rank below the band the size is to be reduced
approved : (evaluate (spread 400) (account 50_000) budget (some (pos 500_000))).verdict ≡ approve
unfolding evaluate Options.defined_risk gate_list verdict_of is_hard_failure is_soft_failure
    gate_per_trade gate_total gate_concentration gate_iv_rank gate_dte gate_probability gate_breaker
    gate_open_positions gate_cash dict_get agnostix_ai_quant_fund.Number.or_default
    agnostix_ai_quant_fund.Number.max_float
approved = refl

reduced : (evaluate (spread 400) (account 50_000) budget (some (pos 100_000))).verdict ≡ reduce
unfolding evaluate Options.defined_risk gate_list verdict_of is_hard_failure is_soft_failure
    gate_per_trade gate_total gate_concentration gate_iv_rank gate_dte gate_probability gate_breaker
    gate_open_positions gate_cash dict_get agnostix_ai_quant_fund.Number.or_default
    agnostix_ai_quant_fund.Number.max_float
reduced = refl

-- a loss of $2,500 exceeds 2% of the equity
refused : (evaluate (spread 2_500) (account 50_000) budget none).verdict ≡ refuse
unfolding evaluate Options.defined_risk gate_list verdict_of is_hard_failure is_soft_failure
    gate_per_trade gate_total gate_concentration gate_iv_rank gate_dte gate_probability gate_breaker
    gate_open_positions gate_cash dict_get agnostix_ai_quant_fund.Number.or_default
    agnostix_ai_quant_fund.Number.max_float
refused = refl

passes_iff_example :
    (passes (evaluate (spread 400) (account 50_000) budget none).verdict ≡ true)
    ↔ MeetsHardLimits (spread 400) (account 50_000) budget
passes_iff_example = passes_iff (spread 400) (account 50_000) budget none

approve_iff_example :
    ((evaluate (spread 400) (account 50_000) budget (some (pos 500_000))).verdict ≡ approve) ↔ (
      MeetsHardLimits (spread 400) (account 50_000) budget
      × MeetsSoftLimits (spread 400) budget (some (pos 500_000)))
approve_iff_example = approve_iff (spread 400) (account 50_000) budget (some (pos 500_000))

sensible : IsSensible budget
sensible = record { trade = refl; total = refl; concentration = refl; daily = refl }

safer : IsSafer (spread 400) (spread 300)
unfolding Options.defined_risk agnostix_ai_quant_fund.Number.or_default
safer = record { defined = refl; loss = refl; underlying = refl; days = refl }

better : IsBetter "SPY" (account 50_000) (account 60_000)
unfolding dict_get
better = record {
  equity = refl;
  cash = refl;
  daily = refl;
  positions = omega arith;
  committed = refl;
  exposure = refl;
}

passed : passes (evaluate (spread 400) (account 50_000) budget none).verdict ≡ true
unfolding evaluate Options.defined_risk gate_list verdict_of is_hard_failure is_soft_failure
    gate_per_trade gate_total gate_concentration gate_iv_rank gate_dte gate_probability gate_breaker
    gate_open_positions gate_cash dict_get passes agnostix_ai_quant_fund.Number.or_default
    agnostix_ai_quant_fund.Number.max_float
passed = refl
