-- ===== src/Risk/Verdict.antt =====
-- The verdict of `evaluate` (services/risk/engine.py) against the limits as a risk officer states
-- them, one field for each rule.
use agnostix_ai_quant_fund.Prelude.{
  ℕ, ◌≤◌, ◌<◌, ◌≡◌, refl, ◌≢◌, ◌↔◌, inl, inr, Bool, true, false, Option, none, some, List, [], ◌∷◌,
  arith, filter, All, ltb→lt, lt→ltb, Bool-cases,
}
use agnostix_ai_quant_fund.Number.{Float, ◌⊕◌, ◌⊗◌, ◌≼◌, ◌≺◌, nought}
use agnostix_ai_quant_fund.Options
use agnostix_ai_quant_fund.Options.{OptionStrategy}
use agnostix_ai_quant_fund.Risk.{
  GateVerdict, approve, refuse, reduce, GateResult, RiskBudget, PortfolioState, dict_get, passes,
  is_hard_failure, is_soft_failure, is_empty, verdict_of, loss_of, equity_of, gate_per_trade,
  gate_total, gate_concentration, gate_iv_rank, gate_dte, gate_probability, gate_breaker,
  gate_open_positions, gate_cash, gate_list, in_window, likely_enough, evaluate,
}

-- a condition on a value that may be missing
abbrev pub Given {ℓ} : {A : Type ℓ} → (A → Type 0) → Option A → Type 0
Given P none = Unit
Given P (some a) = P a

module _ {W : Type 0} ⦃num : Float W⦄ where
  -- the rules that refuse a trade
  pub record MeetsHardLimits (s : OptionStrategy W) (p : PortfolioState W) (b : RiskBudget W)
      : Type 0 where
    pub defined : Options.defined_risk s ≡ true
    pub per_trade : loss_of s ≼ b.max_loss_per_trade_pct ⊗ equity_of p
    pub total :
        (p.defined_risk_committed ⊕ loss_of s) ≼ (b.max_total_defined_risk_pct ⊗ equity_of p)
    pub concentrated :
        (dict_get p.exposure_by_underlying s.underlying nought ⊕ loss_of s)
        ≼ (b.max_concentration_pct ⊗ equity_of p)
    pub window : Given (λ n. (b.min_dte ≤ n) × (n ≤ b.max_dte)) s.days_to_expiration
    pub daily : num.neg (b.daily_loss_limit_pct ⊗ equity_of p) ≺ p.daily_pl
    pub room : p.open_positions < b.max_open_positions
    pub cash : loss_of s ≼ p.cash

  -- the rules that only ask for a smaller trade
  pub record MeetsSoftLimits (s : OptionStrategy W) (b : RiskBudget W) (iv_rank : Option W)
      : Type 0 where
    pub premium : Given (λ r. (b.min_iv_rank ≼ r) × (r ≼ b.max_iv_rank)) iv_rank
    pub likely : Given (λ pop. b.min_probability_of_profit ≼ pop) s.probability_of_profit

module _ {W : Type 0} where
  filter_empty :
      (p : GateResult W → Bool) (gs : List (GateResult W))
      → (is_empty (filter p gs) ≡ true) ↔ All (λ g. p g ≡ false) gs
  filter_empty p [] = (λ _. tt, λ _. refl)
  filter_empty p (g ∷ gs) = elim (Bool-cases (p g)) [
    | inl e ↦ rw e (λ h. cc, λ h. cc)
    | inr e ↦ rw e (λ h. (refl, (filter_empty p gs).0 h), λ h. (filter_empty p gs).1 h.1)
  ]

  hard_passed : (g : GateResult W) → g.hard ≡ true → is_hard_failure g ≡ false → g.passed ≡ true
  unfolding is_hard_failure
  hard_passed g h e = ground arith

  soft_passed : (g : GateResult W) → g.hard ≡ false → is_soft_failure g ≡ false → g.passed ≡ true
  unfolding is_soft_failure
  soft_passed g h e = ground arith

  passed_no_failure :
      (g : GateResult W)
      → g.passed ≡ true
      → (is_hard_failure g ≡ false) × (is_soft_failure g ≡ false)
  unfolding is_hard_failure is_soft_failure
  passed_no_failure g h = ground arith

  hard_no_soft : (g : GateResult W) → g.hard ≡ true → is_soft_failure g ≡ false
  unfolding is_soft_failure
  hard_no_soft g h = ground arith

  soft_no_hard : (g : GateResult W) → g.hard ≡ false → is_hard_failure g ≡ false
  unfolding is_hard_failure
  soft_no_hard g h = ground arith

  -- the three verdicts by what failed
  verdict_cases :
      (gs : List (GateResult W))
      → (((verdict_of gs ≢ refuse) ↔ All (λ g. is_hard_failure g ≡ false) gs)
          × ((verdict_of gs ≡ approve) ↔ (
              All (λ g. is_hard_failure g ≡ false) gs × All (λ g. is_soft_failure g ≡ false) gs)))
  unfolding verdict_of
  verdict_cases gs =
      let h = filter_empty is_hard_failure gs in
      let s = filter_empty is_soft_failure gs in
      elim (Bool-cases (is_empty (filter is_hard_failure gs))) [
        | inl eh ↦ elim (Bool-cases (is_empty (filter is_soft_failure gs))) [
          | inl es ↦ rw (eh, es) ((λ _. h.0 eh, λ _. cc), (λ _. (h.0 eh, s.0 es), λ _. refl))
          | inr es ↦ rw (eh, es) ((λ _. h.0 eh, λ _. cc), (λ e. cc, λ a. cc (s.1 a.1)))
        ]
        | inr eh ↦ rw eh ((λ n. absurd (n refl), λ a. cc (h.1 a)), (λ e. cc, λ a. cc (h.1 a.0)))
      ]

module _ {W : Type 0} ⦃num : Float W⦄ where
  window_iff :
      (b : RiskBudget W) (d : Option ℕ)
      → (in_window b d ≡ true) ↔ Given (λ n. (b.min_dte ≤ n) × (n ≤ b.max_dte)) d
  window_iff b none = (λ _. tt, λ _. refl)
  window_iff b (some n) = ground arith

  premium_iff :
      (b : RiskBudget W) (iv : Option W)
      → (is_soft_failure (gate_iv_rank b iv) ≡ false)
        ↔ Given (λ r. (b.min_iv_rank ≼ r) × (r ≼ b.max_iv_rank)) iv
  unfolding gate_iv_rank is_soft_failure
  premium_iff b none = (λ _. tt, λ _. refl)
  premium_iff b (some r) = ground arith

  likely_iff :
      (b : RiskBudget W) (pop : Option W)
      → (likely_enough b pop ≡ true) ↔ Given (λ r. b.min_probability_of_profit ≼ r) pop
  likely_iff b none = (λ _. tt, λ _. refl)
  likely_iff b (some r) = (λ h. h, λ h. h)

  iv_gate_is_soft : (b : RiskBudget W) (iv : Option W) → (gate_iv_rank b iv).hard ≡ false
  unfolding gate_iv_rank
  iv_gate_is_soft b none = refl
  iv_gate_is_soft b (some r) = refl

passes_ne_refuse : (v : GateVerdict) → (passes v ≡ true) ↔ (v ≢ refuse)
unfolding passes
passes_ne_refuse approve = (λ _ e. cc, λ _. refl)
passes_ne_refuse refuse = (λ h. cc, λ n. absurd (n refl))
passes_ne_refuse reduce = (λ _ e. cc, λ _. refl)

module _ {W : Type 0} ⦃num : Float W⦄ (s : OptionStrategy W) (p : PortfolioState W)
    (b : RiskBudget W) (iv : Option W) where
  no_hard_failure_iff :
      Options.defined_risk s ≡ true
      → All (λ g. is_hard_failure g ≡ false) (gate_list s p b iv) ↔ MeetsHardLimits s p b
  unfolding gate_list gate_per_trade gate_total gate_concentration gate_dte gate_probability
      gate_breaker gate_open_positions gate_cash
  no_hard_failure_iff d = (
    λ (_, (per, (tot, (conc, (_, (win, (_, (brk, (room, (csh, _)))))))))). record {
      defined = d;
      per_trade = hard_passed _ refl per;
      total = hard_passed _ refl tot;
      concentrated = hard_passed _ refl conc;
      window = (window_iff b s.days_to_expiration).0 (hard_passed _ refl win);
      daily = hard_passed _ refl brk;
      room = ltb→lt _ _ (hard_passed _ refl room);
      cash = hard_passed _ refl csh;
    },
    λ m. (
      (passed_no_failure _ refl).0,
      (
        (passed_no_failure _ m.per_trade).0,
        (
          (passed_no_failure _ m.total).0,
          (
            (passed_no_failure _ m.concentrated).0,
            (
              soft_no_hard _ (iv_gate_is_soft b iv),
              (
                (passed_no_failure _ ((window_iff b s.days_to_expiration).1 m.window)).0,
                (
                  soft_no_hard _ refl,
                  (
                    (passed_no_failure _ m.daily).0,
                    (
                      (passed_no_failure _ (lt→ltb _ _ m.room)).0,
                      ((passed_no_failure _ m.cash).0, tt),
                    ),
                  ),
                ),
              ),
            ),
          ),
        ),
      ),
    ),
  )

  no_soft_failure_iff :
      All (λ g. is_soft_failure g ≡ false) (gate_list s p b iv) ↔ MeetsSoftLimits s b iv
  unfolding gate_list gate_per_trade gate_total gate_concentration gate_dte gate_probability
      gate_breaker gate_open_positions gate_cash
  no_soft_failure_iff = (
    λ (_, (_, (_, (_, (premium, (_, (likely, _))))))). record {
      premium = (premium_iff b iv).0 premium;
      likely = (likely_iff b s.probability_of_profit).0 (soft_passed _ refl likely);
    },
    λ m. (
      hard_no_soft _ refl,
      (
        hard_no_soft _ refl,
        (
          hard_no_soft _ refl,
          (
            hard_no_soft _ refl,
            (
              (premium_iff b iv).1 m.premium,
              (
                hard_no_soft _ refl,
                (
                  (passed_no_failure _ ((likely_iff b s.probability_of_profit).1 m.likely)).1,
                  (hard_no_soft _ refl, (hard_no_soft _ refl, (hard_no_soft _ refl, tt))),
                ),
              ),
            ),
          ),
        ),
      ),
    ),
  )

  abbrev gates : List (GateResult W)
  gates = gate_list s p b iv

  -- `RiskResult.passed` holds exactly when the trade meets every hard limit: the risk is defined,
  -- the loss fits the budget of the trade, of the book and of the underlying and the cash, the days
  -- to expiration lie in the window, the day's loss is above the breaker and a position is free.
  pub passes_iff : (passes (evaluate s p b iv).verdict ≡ true) ↔ MeetsHardLimits s p b
  unfolding evaluate passes
  passes_iff = elim (Bool-cases (Options.defined_risk s)) [
    | inl d ↦ rw d (
        let v = (verdict_cases gates).0 in
        let limits = no_hard_failure_iff d in
        let not_refused = passes_ne_refuse (verdict_of gates) in
        (λ h. limits.0 (v.0 (not_refused.0 h)), λ m. not_refused.1 (v.1 (limits.1 m))))
    | inr d ↦ rw d (λ h. cc, λ m. cc (m.defined))
  ]

  -- `evaluate` approves exactly when the trade meets every hard limit, its IV rank, where there is
  -- one, lies in the band, and its probability of profit, where there is one, is at least the floor.
  pub approve_iff :
      ((evaluate s p b iv).verdict ≡ approve) ↔ (MeetsHardLimits s p b × MeetsSoftLimits s b iv)
  unfolding evaluate
  approve_iff = elim (Bool-cases (Options.defined_risk s)) [
    | inl d ↦ rw d (
        let v = (verdict_cases gates).1 in
        let hard = no_hard_failure_iff d in
        let soft = no_soft_failure_iff in
        (λ h. (hard.0 (v.0 h).0, soft.0 (v.0 h).1), λ m. v.1 (hard.1 m.0, soft.1 m.1)))
    | inr d ↦ rw d (λ h. cc, λ m. cc (m.0.defined))
  ]
