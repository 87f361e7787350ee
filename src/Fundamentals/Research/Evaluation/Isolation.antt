-- ===== src/Fundamentals/Research/Evaluation/Isolation.antt =====
-- An evaluation gives every target its record on the one context, whatever the models do
-- (services/fundamentals/research/evaluation.py).
use Prim.Native.String.{String, ◌++◌ as text_append}
use agnostix_ai_quant_fund.Prelude.{
  ℕ, ◌≡◌, ◌⊎◌, inl, inr, refl, ap, sym, ◌∙◌, subst, Bool, true, false, Option, none, some, List, [],
  ◌∷◌, if◌then◌else◌,
}
use agnostix_ai_quant_fund.Prelude.Text.{str_eq, eq_iff}
use agnostix_ai_quant_fund.Prelude.Outcome.{Outcome, returns, raises}
use agnostix_ai_quant_fund.Number.{Float}
use agnostix_ai_quant_fund.Fundamentals.Context.{FundamentalResearchContext}
use agnostix_ai_quant_fund.Fundamentals.Research.Numbers.{FloatText}
use agnostix_ai_quant_fund.Fundamentals.Research.Grounding.{Checks}
use agnostix_ai_quant_fund.Fundamentals.Research.Trail.{Event}
use agnostix_ai_quant_fund.Fundamentals.Research.Critic.{CriticResult}
use agnostix_ai_quant_fund.Fundamentals.Research.Analyst.{Author, AgentRunResult, agent_run}
use agnostix_ai_quant_fund.Fundamentals.Research.Evaluation.{
  ModelTarget, EvaluationRecord, Visit, new_record, failed_record, with_run, with_checks,
  criticized, grounded, ran, evaluate_model, verify_same_context, Records, with_record, verified,
  turn, evaluate_all, context_version_now, EvaluationRunResult, Evaluated, reported, on_context,
  one_context, run_evaluation,
}

-- how a run of a model ended
abbrev pub HasEnded : {W : Type 0} → EvaluationRecord W → Type 0
HasEnded r =
    (r.status ≡ "completed") × (r.success ≡ true) × (r.error ≡ none)
    ⊎ (r.status ≡ "failed") × (r.success ≡ false) × ((e : String) × (r.error ≡ some e))

-- the record of a target on the context
abbrev pub IsRecordOf :
    {W : Type 0} → FundamentalResearchContext W → ModelTarget → EvaluationRecord W → Type 0
IsRecordOf ctx target r =
    (r.provider ≡ target.provider)
    × (r.model ≡ target.model)
    × (r.context_version ≡ ctx.context_version)
    × (r.context_hash ≡ ctx.context_hash)
    × (r.symbol ≡ ctx.symbol)
    × (r.data_gaps ≡ ctx.unavailable)
    × HasEnded r

-- where no gateway could be made, the record says so, and holds no output
abbrev pub Reflects :
    {P W : Type 0}
    → FundamentalResearchContext W
    → Visit P W
    → Outcome (Author P W)
    → EvaluationRecord W
    → Type 0
Reflects ctx v (raises e) r = r ≡ failed_record ctx v.target (text_append "gateway unavailable: " e)
Reflects ctx v (returns gateway) r = Unit

module _ {W : Type 0} ⦃num : Float W⦄ ⦃texts : FloatText W⦄ (ctx : FundamentalResearchContext W)
    (rendered : String) (target : ModelTarget) where
  criticized-IsRecordOf :
      (elapsed : ℕ) (run : AgentRunResult W) (det : Checks)
      (o : List (Event W) × Outcome CriticResult)
      → IsRecordOf ctx target
          (criticized elapsed (with_checks det (with_run elapsed run (new_record ctx target))) o).1
  criticized-IsRecordOf elapsed run det (log, raises e) =
      (refl, refl, refl, refl, refl, refl, inr (refl, refl, (e, refl)))
  criticized-IsRecordOf elapsed run det (log, returns result) =
      (refl, refl, refl, refl, refl, refl, inl (refl, refl, refl))

  grounded-IsRecordOf :
      (elapsed : ℕ) (run : AgentRunResult W) (log : List (Event W)) (o : Outcome Checks)
      → IsRecordOf ctx target
          (grounded ctx rendered elapsed run.thesis
            (with_run elapsed run (new_record ctx target))
            log
            o).1
  grounded-IsRecordOf elapsed run log (raises e) =
      (refl, refl, refl, refl, refl, refl, inr (refl, refl, (e, refl)))
  grounded-IsRecordOf elapsed run log (returns det) = criticized-IsRecordOf elapsed run det _

  ran-IsRecordOf :
      (elapsed : ℕ) (o : List (Event W) × Outcome (AgentRunResult W))
      → IsRecordOf ctx target (ran ctx rendered elapsed (new_record ctx target) o).1
  ran-IsRecordOf elapsed (log, raises e) =
      (refl, refl, refl, refl, refl, refl, inr (refl, refl, (e, refl)))
  ran-IsRecordOf elapsed (log, returns run) = grounded-IsRecordOf elapsed run log _

module _ {W : Type 0} (ctx : FundamentalResearchContext W) where
  failed_record-IsRecordOf :
      (target : ModelTarget) (e : String) → IsRecordOf ctx target (failed_record ctx target e)
  unfolding failed_record
  failed_record-IsRecordOf target e =
      (refl, refl, refl, refl, refl, refl, inr (refl, refl, (e, refl)))

  verify_same_context-returns :
      (target : ModelTarget) (r : EvaluationRecord W)
      → IsRecordOf ctx target r
      → verify_same_context ctx r ≡ returns tt
  unfolding verify_same_context
  verify_same_context-returns target r (_, _, v, h, _, _, _) =
      let a = (eq_iff r.context_version ctx.context_version).1 v in
      let b = (eq_iff r.context_hash ctx.context_hash).1 h in rw (a, b) refl

module _ {P W : Type 0} ⦃num : Float W⦄ ⦃texts : FloatText W⦄ (ctx : FundamentalResearchContext W)
    (rendered : String) where
  evaluate_model-IsRecordOf :
      (target : ModelTarget) (elapsed : ℕ) (gateway : Author P W) (log : List (Event W))
      → IsRecordOf ctx target (evaluate_model ctx rendered target elapsed gateway log).1
  unfolding evaluate_model
  evaluate_model-IsRecordOf target elapsed gateway log =
      ran-IsRecordOf ctx rendered target elapsed (agent_run gateway ctx log)

  -- the records are those of the targets, in their order
  abbrev pub AreRecords : List (Visit P W) → List (EvaluationRecord W) → Type 0
  AreRecords [] [] = Unit
  AreRecords (v ∷ vs) (r ∷ rs) =
      IsRecordOf ctx v.target r × Reflects ctx v v.gateway r × AreRecords vs rs
  AreRecords _ _ = ⊥

  -- a loop that returns with such records
  abbrev Finishes : List (Visit P W) → Records W → Type 0
  Finishes vs answer =
      (log : List (Event W)) × (rs : List (EvaluationRecord W)) × (answer ≡ (log, returns rs))
      × AreRecords vs rs

  with_record-Finishes :
      (v : Visit P W) (vs : List (Visit P W)) (r : EvaluationRecord W) (rest : Records W)
      → IsRecordOf ctx v.target r
      → Reflects ctx v v.gateway r
      → Finishes vs rest
      → Finishes (v ∷ vs) (with_record r rest)
  with_record-Finishes v vs r rest is reflects (log, rs, same, are) =
      (log, r ∷ rs, ap (with_record r) same, (is, reflects, are))

  turn-Finishes :
      (v : Visit P W) (vs : List (Visit P W)) (rest : List (Event W) → Records W)
      (o : Outcome (Author P W)) (log : List (Event W))
      → v.gateway ≡ o
      → ((next : List (Event W)) → Finishes vs (rest next))
      → Finishes (v ∷ vs) (turn ctx rendered rest v o log)
  turn-Finishes v vs rest (raises e) log is finish =
      let r = failed_record ctx v.target (text_append "gateway unavailable: " e) in
      with_record-Finishes v vs r _ (failed_record-IsRecordOf ctx v.target _)
        (subst (λ o. Reflects ctx v o r) (sym is) refl) (finish _)
  turn-Finishes v vs rest (returns gateway) log is finish =
      let s = evaluate_model ctx rendered v.target v.elapsed gateway log in
      let record_of = evaluate_model-IsRecordOf v.target v.elapsed gateway log in
      subst (λ o. Finishes (v ∷ vs) (verified ctx rest s o))
        (sym (verify_same_context-returns ctx v.target s.1 record_of))
        (with_record-Finishes v vs s.1 _ record_of (subst (λ o. Reflects ctx v o s.1) (sym is) tt)
          (finish _))

  evaluate_all-Finishes :
      (vs : List (Visit P W)) (log : List (Event W))
      → Finishes vs (evaluate_all ctx rendered vs log)
  unfolding evaluate_all
  evaluate_all-Finishes [] log = (log, [], refl, tt)
  evaluate_all-Finishes (v ∷ vs) log =
      turn-Finishes v vs (evaluate_all ctx rendered vs) v.gateway log refl
        (evaluate_all-Finishes vs)

on_version {ℓ} : {A : Type ℓ} (b : Bool) (x y : A) → b ≡ true → (if b then x else y) ≡ x
on_version b x y h = rw h refl

module _ {P W : Type 0} ⦃num : Float W⦄ ⦃texts : FloatText W⦄ where
  -- a run that returns with a record for each target on the context
  abbrev pub IsEvaluated :
      (FundamentalResearchContext W → String)
      → FundamentalResearchContext W
      → List (Visit P W)
      → Evaluated W
      → Type 0
  IsEvaluated render ctx vs answer =
      (log : List (Event W)) × (result : EvaluationRunResult W) × (answer ≡ (log, returns result))
      × (result.context_version ≡ ctx.context_version)
      × (result.context_hash ≡ ctx.context_hash)
      × (result.unavailable ≡ ctx.unavailable)
      × AreRecords ctx (render ctx) vs result.records

  -- With a target and with one context, given or built, of the expected version: an evaluation returns,
  -- whatever gateways cannot be made and whatever models, checks and critics raise. Its records are
  -- those of the targets in their order, all on that context, each completed or failed with its error.
  -- A target without a gateway has a failed record without output.
  pub run_evaluation-IsEvaluated :
      (render : FundamentalResearchContext W → String) (symbol : String) (v : Visit P W)
      (vs : List (Visit P W)) (context : Option (FundamentalResearchContext W))
      (context_builder : Option (String → Outcome (FundamentalResearchContext W)))
      (ctx : FundamentalResearchContext W) (log : List (Event W))
      → one_context context context_builder symbol ≡ returns ctx
      → ctx.context_version ≡ context_version_now
      → IsEvaluated render ctx
          (v ∷ vs)
          (run_evaluation render symbol (v ∷ vs) context context_builder log)
  unfolding run_evaluation
  run_evaluation-IsEvaluated render symbol v vs context context_builder ctx log is version =
      let (after, rs, same, are) = evaluate_all-Finishes ctx (render ctx) (v ∷ vs) log in
      let versioned = (eq_iff ctx.context_version context_version_now).1 version in
      (
        after,
        _,
        ap (on_context render (v ∷ vs) log) is
            ∙ (on_version (str_eq ctx.context_version context_version_now) _ _ versioned
                ∙ ap (reported ctx) same),
        refl,
        refl,
        refl,
        are,
      )
