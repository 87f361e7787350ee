-- ===== src/Trading/Agent/Cycle/Entries.antt =====
-- What a pass of the agent (services/trading/agent.py) leaves in the audit journal.
use agnostix_ai_quant_fund.Prelude.{
  ℕ, suc, ◌+◌, ◌≤◌, ◌≡◌, refl, ap, ◌∙◌, List, [], ◌∷◌, length, arith,
}
use agnostix_ai_quant_fund.Prelude.Outcome.{Outcome, returns, raises}
use agnostix_ai_quant_fund.Number.{Float}
use agnostix_ai_quant_fund.Trading.{AgentDecision}
use agnostix_ai_quant_fund.Trading.Journal.{Hashing}
use agnostix_ai_quant_fund.Trading.Journal.Chain.{length-entries}
use agnostix_ai_quant_fund.Trading.Agent.{AgentConfig, Call, Payload, World}
use agnostix_ai_quant_fund.Trading.Agent.Order.{Handled}
use agnostix_ai_quant_fund.Trading.Agent.Decide.{decide}
use agnostix_ai_quant_fund.Trading.Agent.Decide.Recorded.{Records, decide-Records}
use agnostix_ai_quant_fund.Trading.Agent.Cycle.{Pass, with_first, gathered, run_cycle}

abbrev pub entry_count : {W H : Type 0} → World W H → ℕ
entry_count w = length w.journal.entries

module _ {W H : Type 0} where
  -- an entry and a decision for each of `n` calls, or an entry for each call before one that raised
  abbrev pub Counts : ℕ → World W H → World W H × Outcome (List (AgentDecision W)) → Type 0
  Counts n w (after, returns ds) = (length ds ≡ n) × (entry_count after ≡ entry_count w + n)
  Counts n w (after, raises e) = (m : ℕ) × (suc m ≤ n) × (entry_count after ≡ entry_count w + m)

  with_first-Counts :
      (n : ℕ) (w next : World W H) (d : AgentDecision W)
      (r : World W H × Outcome (List (AgentDecision W)))
      → entry_count next ≡ suc (entry_count w)
      → Counts n next r
      → Counts (suc n) w (with_first d r)
  with_first-Counts n w next d (after, returns ds) more (len, eq) =
      (omega (arith, len), omega (arith, eq, more))
  with_first-Counts n w next d (after, raises e) more (m, le, eq) =
      (suc m, omega (arith, le), omega (arith, eq, more))

module _ {W H : Type 0} ⦃hashing : Hashing (Payload W) H⦄ where
  gathered-Counts :
      (n : ℕ) (call : Call) (w : World W H)
      (rest : World W H → World W H × Outcome (List (AgentDecision W))) (r : Handled W H)
      → Records call w r
      → ((next : World W H) → Counts n next (rest next))
      → Counts (suc n) w (gathered rest r)
  gathered-Counts n call w rest (next, raises e) same counts =
      (0, omega arith, omega (arith, ap (λ j. length j.entries) same))
  gathered-Counts n call w rest (next, returns d) (kind, p, more, _) counts =
      with_first-Counts n w next d (rest next)
        (ap (λ j. length j.entries) more ∙ length-entries w.journal call.now kind call.symbol p)
        (counts next)

module _ {W J H : Type 0} ⦃num : Float W⦄ ⦃hashing : Hashing (Payload W) H⦄
    (config : AgentConfig W) where
  -- A pass of the agent over its watchlist that returns gives one decision and adds one journal entry
  -- for each symbol. One that raises adds an entry for each symbol before the one that raised.
  run_cycle-Counts :
      (ps : List (Pass W J)) (w : World W H) → Counts (length ps) w (run_cycle config ps w)
  unfolding run_cycle
  run_cycle-Counts [] w = (refl, omega arith)
  run_cycle-Counts (p ∷ ps) w =
      gathered-Counts (length ps) p.call w (run_cycle config ps)
        (decide config p.account p.services p.call w)
        (decide-Records config p.account p.services p.call w) (run_cycle-Counts ps)
