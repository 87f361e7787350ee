-- ===== src/Fundamentals/Research/Critic/Authority.antt =====
-- The deterministic checks have the last word in a review (services/fundamentals/research/critic.py).
use Prim.Native.String.{String}
use agnostix_ai_quant_fund.Prelude.{
  ◌≡◌, ◌⊎◌, inl, inr, refl, sym, ap, ◌∙◌, Bool, true, false, Option, none, some, List, [], ◌∷◌,
  ◌++◌, All, append-nil, append_assoc, if◌then◌else◌, Bool-cases, ◌==◌,
}
use agnostix_ai_quant_fund.Prelude.Outcome.{Outcome, returns, raises, returns-injective}
use agnostix_ai_quant_fund.Number.{Float}
use agnostix_ai_quant_fund.Fundamentals.Context.{FundamentalResearchContext}
use agnostix_ai_quant_fund.Fundamentals.Research.{InvestmentThesis, Verdict, pass, CriticFinding}
use agnostix_ai_quant_fund.Fundamentals.Research.Numbers.{FloatText}
use agnostix_ai_quant_fund.Fundamentals.Research.Grounding.{
  Checks, context_numbers, known_ids, statements_of, run_deterministic_checks,
}
use agnostix_ai_quant_fund.Fundamentals.Research.Grounding.Passed.{
  IsCited, IsTraceable, HasBasis, passed_iff,
}
use agnostix_ai_quant_fund.Fundamentals.Research.Trail.{
  Event, research_critic_started, research_critic_completed, Response,
}
use agnostix_ai_quant_fund.Fundamentals.Research.Critic.{
  CriticResult, Reviewer, verdict_of, valid_findings, Review, with_findings, with_verdict,
  with_payload, with_response, reviewed, result_of, completed, critic_run,
}

-- a review that keeps the findings of the checks, and their verdict where they failed
abbrev pub IsAuthorized : Checks → Review → Type 0
IsAuthorized det r =
    ((r.verdict ≡ verdict_of det) ⊎ (det.passed ≡ true))
    × ((more : List CriticFinding) × (r.findings ≡ det.findings ++ more))

kept : (b : Bool) (v w : Verdict) → b ≡ false → (if b then v else w) ≡ w
kept b v w h = rw h refl

module _ {P W : Type 0} where
  with_findings-IsAuthorized :
      (det : Checks) (response : Response P W) (r : Review)
      (o : Outcome (List (Option CriticFinding)))
      → IsAuthorized det r
      → IsAuthorized det (with_findings response r o)
  with_findings-IsAuthorized det response r (raises e) h = h
  with_findings-IsAuthorized det response r (returns fs) (v, (more, same)) = (
    v,
    (
      more ++ valid_findings fs,
      ap (λ x. x ++ valid_findings fs) same ∙ append_assoc det.findings more (valid_findings fs),
    ),
  )

  with_verdict-IsAuthorized :
      (gateway : Reviewer P W) (det : Checks) (response : Response P W) (payload : P)
      (o : Option Verdict) (r : Review)
      → IsAuthorized det r
      → IsAuthorized det (with_verdict gateway det response payload o r)
  with_verdict-IsAuthorized gateway det response payload none r h = h
  with_verdict-IsAuthorized gateway det response payload (some v) r (verdict, findings) =
      with_findings-IsAuthorized det response _ (gateway.findings payload) (
        elim (Bool-cases det.passed) [
          | inl p ↦ inr p
          | inr p ↦ elim verdict [
            | inl same ↦ inl (kept det.passed v r.verdict p ∙ same)
            | inr q ↦ inr q
          ]
        ],
        findings,
      )

  with_payload-IsAuthorized :
      (gateway : Reviewer P W) (det : Checks) (response : Response P W) (o : Option P) (r : Review)
      → IsAuthorized det r
      → IsAuthorized det (with_payload gateway det response o r)
  with_payload-IsAuthorized gateway det response none r h = h
  with_payload-IsAuthorized gateway det response (some payload) r h =
      with_verdict-IsAuthorized gateway det response payload _ r h

  with_response-IsAuthorized :
      (gateway : Reviewer P W) (det : Checks) (o : Outcome (Response P W)) (r : Review)
      → IsAuthorized det r
      → IsAuthorized det (with_response gateway det o r)
  with_response-IsAuthorized gateway det (raises e) r h = h
  with_response-IsAuthorized gateway det (returns response) r h =
      with_payload-IsAuthorized gateway det response _ r h

  reviewed-IsAuthorized :
      (gateway : Option (Reviewer P W)) (ctx : FundamentalResearchContext W)
      (thesis : InvestmentThesis W) (det : Checks) (r : Review)
      → IsAuthorized det r
      → IsAuthorized det (reviewed gateway ctx thesis det r)
  unfolding reviewed
  reviewed-IsAuthorized none ctx thesis det r h = h
  reviewed-IsAuthorized (some gateway) ctx thesis det r h =
      with_response-IsAuthorized gateway det (gateway.run ctx thesis) r h

-- checks with the verdict `PASS` passed
verdict_of-pass : (det : Checks) → verdict_of det ≡ pass → det.passed ≡ true
unfolding verdict_of
verdict_of-pass det h = elim (Bool-cases det.passed) [
  | inl p ↦ p
  | inr p ↦ elim (Bool-cases (det.contradicted_count == 0)) [
    | inl z ↦ cc (simp (p, z) at h)
    | inr z ↦ cc (simp (p, z) at h)
  ]
]

module _ {W : Type 0} where
  -- a review of a thesis whose checks returned `det`
  abbrev pub IsReviewed :
      FundamentalResearchContext W
      → Checks
      → List (Event W)
      → List (Event W) × Outcome CriticResult
      → Type 0
  IsReviewed ctx det log answer =
      (r : Review) × (answer ≡ (
        (log ++ (research_critic_started ctx.symbol ∷ []))
            ++ (research_critic_completed ctx.symbol r.verdict ∷ []),
        returns (result_of det r),
      ))
      × IsAuthorized det r

module _ {P W : Type 0} ⦃num : Float W⦄ ⦃texts : FloatText W⦄ where
  -- Where the checks return, a review returns, whatever the gateway answers or raises, between its two
  -- events. Its findings are those of the checks and then those of the model. Its verdict is that of the
  -- checks, unless the checks passed. Its claim checks are those of the checks.
  critic_run-IsReviewed :
      (gateway : Option (Reviewer P W)) (ctx : FundamentalResearchContext W)
      (thesis : InvestmentThesis W) (rendered : String) (log : List (Event W)) (det : Checks)
      → run_deterministic_checks thesis ctx rendered ≡ returns det
      → IsReviewed ctx det log (critic_run gateway ctx thesis rendered log)
  unfolding critic_run
  critic_run-IsReviewed gateway ctx thesis rendered log det h =
      let start : Review = record {
        verdict = verdict_of det;
        findings = det.findings;
        llm_provider = none;
        llm_model = none;
      } in
      (
        reviewed gateway ctx thesis det start,
        ap (completed gateway ctx thesis (log ++ (research_critic_started ctx.symbol ∷ []))) h,
        reviewed-IsAuthorized gateway ctx thesis det start (inl refl, ([], sym (append-nil _))),
      )

  passed_of_pass :
      (gateway : Option (Reviewer P W)) (ctx : FundamentalResearchContext W)
      (thesis : InvestmentThesis W) (rendered : String) (log : List (Event W))
      (result : CriticResult) (o : Outcome Checks)
      → run_deterministic_checks thesis ctx rendered ≡ o
      → (completed gateway ctx thesis log o).1 ≡ returns result
      → result.review.verdict ≡ pass
      → (det : Checks) × (o ≡ returns det) × (det.passed ≡ true)
  passed_of_pass gateway ctx thesis rendered log result (raises e) is h v = cc
  passed_of_pass gateway ctx thesis rendered log result (returns det) is h v =
      let start : Review = record {
        verdict = verdict_of det;
        findings = det.findings;
        llm_provider = none;
        llm_model = none;
      } in
      let (verdict, _) =
        reviewed-IsAuthorized gateway ctx thesis det start (inl refl, ([], sym (append-nil _))) in
      let same = ap (λ (x : CriticResult). x.review.verdict) (returns-injective h) in
      (det, refl, elim verdict [ inl own ↦ verdict_of-pass det (sym own ∙ (same ∙ v)) | inr p ↦ p ])

  -- A review whose verdict is `PASS`, whatever the model said: the thesis cites only what the context
  -- knows, its numbers that are no years are grounded in it, and it has a basis.
  pub critic_run_grounded :
      (gateway : Option (Reviewer P W)) (ctx : FundamentalResearchContext W)
      (thesis : InvestmentThesis W) (rendered : String) (log : List (Event W))
      (result : CriticResult)
      → (critic_run gateway ctx thesis rendered log).1 ≡ returns result
      → result.review.verdict ≡ pass
      → All (IsCited (known_ids ctx)) thesis.evidence
        × All (IsTraceable (context_numbers ctx) rendered) (statements_of thesis)
        × HasBasis thesis ctx
  unfolding critic_run
  critic_run_grounded gateway ctx thesis rendered log result h v =
      let (det, is, p) =
        passed_of_pass gateway ctx thesis rendered _ result
          (run_deterministic_checks thesis ctx rendered) refl h v in
      (passed_iff thesis ctx rendered det is).0 p
