-- ===== src/Fundamentals/Research/Critic.antt =====
-- services/fundamentals/research/critic.py: the review of a thesis. The gateway is a parameter whose
-- call may raise; so is the reading of what it answers.
pub mod Authority
use Prim.Native.String.{String}
use agnostix_ai_quant_fund.Prelude.{
  ℕ, Bool, true, false, Option, none, some, List, [], ◌∷◌, ◌++◌, ◌==◌, if◌then◌else◌,
}
use agnostix_ai_quant_fund.Prelude.Text.{str_eq}
use agnostix_ai_quant_fund.Prelude.Outcome.{Outcome, returns, raises}
use agnostix_ai_quant_fund.Number.{Float}
use agnostix_ai_quant_fund.Fundamentals.Context.{FundamentalResearchContext}
use agnostix_ai_quant_fund.Fundamentals.Research.{
  InvestmentThesis, Verdict, pass, revise, reject, CriticFinding, CriticReviewOutput,
}
use agnostix_ai_quant_fund.Fundamentals.Research.Numbers.{FloatText}
use agnostix_ai_quant_fund.Fundamentals.Research.Grounding.{Checks, run_deterministic_checks}
use agnostix_ai_quant_fund.Fundamentals.Research.Trail.{
  Event, research_critic_started, research_critic_completed, Response, extract,
}

pub record CriticResult : Type 0 where
  pub review : CriticReviewOutput
  pub llm_provider : Option String
  pub llm_model : Option String

-- the gateway of a critic, and what it reads in a payload: the verdict, and the findings, each valid
-- or not
pub record Reviewer (P W : Type 0) : Type 0 where
  pub run : FundamentalResearchContext W → InvestmentThesis W → Outcome (Response P W)
  pub loads : String → Option P
  pub verdict_text : P → Option String
  pub findings : P → Outcome (List (Option CriticFinding))

-- the verdict of the deterministic checks
unfoldable pub verdict_of : Checks → Verdict
verdict_of det = if det.passed then pass else if det.contradicted_count == 0 then revise else reject

-- `Verdict(...)` of a text of the vocabulary
unfoldable pub parse_verdict : Option String → Option Verdict
parse_verdict none = none
parse_verdict (some t) =
    if str_eq t "PASS"
    then some pass
    else if str_eq t "REVISE"
    then some revise
    else if str_eq t "REJECT"
    then some reject
    else none

abbrev valid_findings : List (Option CriticFinding) → List CriticFinding
valid_findings [] = []
valid_findings (none ∷ fs) = valid_findings fs
valid_findings (some f ∷ fs) = f ∷ valid_findings fs

-- the variables that the block of the model's review assigns
pub record Review : Type 0 where
  pub verdict : Verdict
  pub findings : List CriticFinding
  pub llm_provider : Option String
  pub llm_model : Option String

abbrev pub result_of : Checks → Review → CriticResult
result_of det r = record {
  review = record {
    verdict = r.verdict;
    findings = r.findings;
    claim_checks = det.claim_checks;
    deterministic_checks_passed = det.passed;
  };
  llm_provider = r.llm_provider;
  llm_model = r.llm_model;
}

module _ {P W : Type 0} where
  -- the findings of the model; an exception ends the block
  abbrev with_findings : Response P W → Review → Outcome (List (Option CriticFinding)) → Review
  with_findings response r (raises e) = r
  with_findings response r (returns fs) = record r {
    findings = r.findings ++ valid_findings fs;
    llm_provider = response.provider;
    llm_model = response.model;
  }

  abbrev with_verdict : Reviewer P W → Checks → Response P W → P → Option Verdict → Review → Review
  with_verdict gateway det response payload none r = r
  with_verdict gateway det response payload (some v) r =
      with_findings response (record r { verdict = if det.passed then v else r.verdict })
        (gateway.findings payload)

  abbrev with_payload : Reviewer P W → Checks → Response P W → Option P → Review → Review
  with_payload gateway det response none r = r
  with_payload gateway det response (some payload) r =
      with_verdict gateway det response payload (parse_verdict (gateway.verdict_text payload)) r

  abbrev with_response : Reviewer P W → Checks → Outcome (Response P W) → Review → Review
  with_response gateway det (raises e) r = r
  with_response gateway det (returns response) r =
      with_payload gateway det response (extract gateway.loads response) r

  -- the block `if self._gateway is not None`
  unfoldable pub reviewed :
      Option (Reviewer P W)
      → FundamentalResearchContext W
      → InvestmentThesis W
      → Checks
      → Review
      → Review
  reviewed none ctx thesis det r = r
  reviewed (some gateway) ctx thesis det r = with_response gateway det (gateway.run ctx thesis) r

module _ {P W : Type 0} ⦃num : Float W⦄ ⦃texts : FloatText W⦄ where
  abbrev pub completed :
      Option (Reviewer P W)
      → FundamentalResearchContext W
      → InvestmentThesis W
      → List (Event W)
      → Outcome Checks
      → List (Event W) × Outcome CriticResult
  completed gateway ctx thesis log (raises e) = (log, raises e)
  completed gateway ctx thesis log (returns det) =
      let r = reviewed gateway ctx thesis det (record {
        verdict = verdict_of det;
        findings = det.findings;
        llm_provider = none;
        llm_model = none;
      }) in
      (log ++ (research_critic_completed ctx.symbol r.verdict ∷ []), returns (result_of det r))

  -- `FundamentalResearchCritic.run`
  unfoldable pub critic_run :
      Option (Reviewer P W)
      → FundamentalResearchContext W
      → InvestmentThesis W
      → String
      → List (Event W)
      → List (Event W) × Outcome CriticResult
  critic_run gateway ctx thesis rendered log =
      completed gateway ctx thesis (log ++ (research_critic_started ctx.symbol ∷ []))
        (run_deterministic_checks thesis ctx rendered)
