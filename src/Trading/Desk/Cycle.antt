-- ===== src/Trading/Desk/Cycle.antt =====
-- A cycle of a desk (services/trading/desk.py) against the runs of its single steps.
use agnostix_ai_quant_fund.Prelude.{
  ℕ, suc, ◌≤◌, ◌≡◌, ◌⊎◌, inl, inr, refl, ap, sym, ◌∙◌, subst, true, false, List, [], ◌∷◌, length,
  map, take, arith, Bool-cases, ◌++◌,
}
use agnostix_ai_quant_fund.Prelude.Outcome.{Outcome, returns, raises}
use agnostix_ai_quant_fund.Number.{Float}
use agnostix_ai_quant_fund.Trading.{AgentDecision}
use agnostix_ai_quant_fund.Trading.Journal.{Hashing}
use agnostix_ai_quant_fund.Trading.Agent.{AgentConfig, Payload}
use agnostix_ai_quant_fund.Trading.Desk.{
  TradingDesk, Visit, visit, with_first, gathered, desk_decide, run_cycle, step, run,
}

module _ {W H : Type 0} where
  -- the result of a cycle of `count` symbols after `n` visits with these outcomes
  abbrev pub Ends :
      ℕ
      → ℕ
      → TradingDesk W H
      → List (Outcome (AgentDecision W))
      → Outcome (List (AgentDecision W))
      → Type 0
  Ends count n after given (returns ds) =
      (given ≡ map returns ds) × ((n ≡ count) ⊎ (after.kill_switch ≡ true))
  Ends count n after given (raises e) =
      (ds : List (AgentDecision W)) × (given ≡ map returns ds ++ (raises e ∷ []))

module _ {W J H : Type 0} ⦃num : Float W⦄ ⦃hashing : Hashing (Payload W) H⦄
    (config : AgentConfig W) where
  -- what `decide` gives for each visit, where they follow on each other
  abbrev pub outcomes : TradingDesk W H → List (Visit W J) → List (Outcome (AgentDecision W))
  outcomes desk [] = []
  outcomes desk (v ∷ vs) = (desk_decide config desk v).1 ∷ outcomes (desk_decide config desk v).0 vs

  -- the kill switch is not engaged when a visit begins
  abbrev pub AreLive : TradingDesk W H → List (Visit W J) → Type 0
  AreLive desk [] = Unit
  AreLive desk (v ∷ vs) = (desk.kill_switch ≡ false) × AreLive (desk_decide config desk v).0 vs

  -- a cycle over the visits makes the first `n` of them, each while the kill switch is not engaged.
  -- It returns what they decide, and then there are no more or the kill switch is engaged; or it
  -- raises what the last of them raises
  abbrev pub IsCycle :
      TradingDesk W H
      → List (Visit W J)
      → TradingDesk W H × Outcome (List (AgentDecision W))
      → Type 0
  IsCycle desk vs (after, result) =
      (n : ℕ) × (n ≤ length vs)
      × (after ≡ run config (map visit (take n vs)) desk)
      × AreLive desk (take n vs)
      × Ends (length vs) n after (outcomes desk (take n vs)) result

  with_first-IsCycle :
      (desk next : TradingDesk W H) (v : Visit W J) (vs : List (Visit W J)) (d : AgentDecision W)
      (r : TradingDesk W H × Outcome (List (AgentDecision W)))
      → desk.kill_switch ≡ false
      → desk_decide config desk v ≡ (next, returns d)
      → IsCycle next vs r
      → IsCycle desk (v ∷ vs) (with_first {H = H} d r)
  unfolding run step
  with_first-IsCycle desk next v vs d (after, raises e) k h (n, le, eq, live, (ds, out)) =
      let next_is = sym (ap (λ x. x.0) h) in
      (
        suc n,
        omega (arith, le),
        eq ∙ ap (run config (map visit (take n vs))) next_is,
        (k, subst (λ x. AreLive x (take n vs)) next_is live),
        (d ∷ ds, ap (λ x. x.1 ∷ outcomes x.0 (take n vs)) h ∙ ap (λ os. returns d ∷ os) out),
      )
  with_first-IsCycle desk next v vs d (after, returns ds) k h (n, le, eq, live, (out, end)) =
      let next_is = sym (ap (λ x. x.0) h) in
      (
        suc n,
        omega (arith, le),
        eq ∙ ap (run config (map visit (take n vs))) next_is,
        (k, subst (λ x. AreLive x (take n vs)) next_is live),
        (
          ap (λ x. x.1 ∷ outcomes x.0 (take n vs)) h ∙ ap (λ os. returns d ∷ os) out,
          elim end [ inl p ↦ inl (ap suc p) | inr p ↦ inr p ],
        ),
      )

  gathered-IsCycle :
      (desk : TradingDesk W H) (v : Visit W J) (vs : List (Visit W J))
      (rest : TradingDesk W H → TradingDesk W H × Outcome (List (AgentDecision W)))
      (r : TradingDesk W H × Outcome (AgentDecision W))
      → desk.kill_switch ≡ false
      → desk_decide config desk v ≡ r
      → ((next : TradingDesk W H) → IsCycle next vs (rest next))
      → IsCycle desk (v ∷ vs) (gathered rest r)
  unfolding run step
  gathered-IsCycle desk v vs rest (next, raises e) k h cycles =
      (1, omega arith, sym (ap (λ x. x.0) h), (k, tt), ([], ap (λ x. x.1 ∷ []) h))
  gathered-IsCycle desk v vs rest (next, returns d) k h cycles =
      with_first-IsCycle desk next v vs d (rest next) k h (cycles next)

  run_cycle_halted :
      (desk : TradingDesk W H) (v : Visit W J) (vs : List (Visit W J))
      → desk.kill_switch ≡ true
      → run_cycle config desk (v ∷ vs) ≡ (desk, returns [])
  unfolding run_cycle
  run_cycle_halted desk v vs k = rw k refl

  run_cycle_visits :
      (desk : TradingDesk W H) (v : Visit W J) (vs : List (Visit W J))
      → desk.kill_switch ≡ false
      → run_cycle config desk (v ∷ vs)
        ≡ gathered (λ next. run_cycle config next vs) (desk_decide config desk v)
  unfolding run_cycle
  run_cycle_visits desk v vs k = rw k refl

  -- A cycle visits its symbols in their order, each while the kill switch is not engaged, and leaves
  -- the desk as these visits leave it. It returns exactly the decisions of the visits, and ends early
  -- only where the kill switch is engaged, also by a kill during a visit; or the last visit raises,
  -- and it raises the same.
  pub run_cycle-IsCycle :
      (vs : List (Visit W J)) (desk : TradingDesk W H) → IsCycle desk vs (run_cycle config desk vs)
  unfolding run_cycle run
  run_cycle-IsCycle [] desk = (0, omega arith, refl, tt, (refl, inl refl))
  run_cycle-IsCycle (v ∷ vs) desk = elim (Bool-cases desk.kill_switch) [
    | inl k ↦
        subst (IsCycle desk (v ∷ vs)) (sym (run_cycle_halted desk v vs k))
          (0, omega arith, refl, tt, (refl, inr k))
    | inr k ↦
        subst (IsCycle desk (v ∷ vs)) (sym (run_cycle_visits desk v vs k))
          (gathered-IsCycle desk v vs _ (desk_decide config desk v) k refl (run_cycle-IsCycle vs))
  ]
