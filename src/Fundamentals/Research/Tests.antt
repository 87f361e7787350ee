-- ===== src/Fundamentals/Research/Tests.antt =====
-- A thesis with one reference and one number, its review and its evaluation
-- (services/fundamentals/research).
use Prim.Native.String.{String}
use agnostix_ai_quant_fund.Prelude.{ℕ, ◌≡◌, ◌↔◌, refl, ap, true, some, none, [], ◌∷◌, All}
use agnostix_ai_quant_fund.Prelude.Int.{ℤ, pos}
use agnostix_ai_quant_fund.Prelude.Outcome.{Outcome, returns, raises}
use agnostix_ai_quant_fund.Number.Micro.{micro}
use agnostix_ai_quant_fund.Fundamentals.{annual, filing, ok, FinancialMetric, ResearchDocument}
use agnostix_ai_quant_fund.Fundamentals.Context.{FundamentalResearchContext}
use agnostix_ai_quant_fund.Fundamentals.Research.{
  bullish, fact, Assessment, InvestmentThesis, pass, supported,
}
use agnostix_ai_quant_fund.Fundamentals.Research.Numbers.{
  FloatText, checked_numbers, numbers_in, scan_from, scan_end, scan_char, is_grounded, close_to,
}
use agnostix_ai_quant_fund.Fundamentals.Research.Grounding.{
  context_numbers, known_ids, statements_of, Checks, run_deterministic_checks,
  check_numerical_grounding, check_statements, check_statement, ungrounded_of, slice,
  check_evidence_existence, check_evidence, check_insufficient_data_handling,
}
use agnostix_ai_quant_fund.Fundamentals.Research.Grounding.Passed.{
  IsCited, IsTraceable, HasBasis, passed_iff,
}
use agnostix_ai_quant_fund.Fundamentals.Research.Trail.{research_critic_started}
use agnostix_ai_quant_fund.Fundamentals.Research.Critic.{
  CriticResult, Reviewer, completed, reviewed, verdict_of, critic_run,
}
use agnostix_ai_quant_fund.Fundamentals.Research.Critic.Authority.{critic_run_grounded}
use agnostix_ai_quant_fund.Fundamentals.Research.Analyst.{Author}
use agnostix_ai_quant_fund.Fundamentals.Research.Evaluation.{Visit, run_evaluation}
use agnostix_ai_quant_fund.Fundamentals.Research.Evaluation.Isolation.{
  IsEvaluated, run_evaluation-IsEvaluated,
}

-- no number is found by its text
instance abbrev no_texts : FloatText ℤ
no_texts = record { repr = λ x. ""; fixed = λ n x. ""; grouped = λ n x. ""; grouped_int = λ n. "" }

abbrev revenue : FinancialMetric ℤ
revenue = record {
  symbol = "AAPL";
  metric = "revenue";
  value = some (pos 120_500_000);
  period = record {
    period_type = annual;
    period_end = record { year = 2025; month = 12; day = 31 };
    fiscal_year = some 2025;
    fiscal_quarter = none;
  };
  currency = "USD";
  units = "usd";
  quality = ok;
  provider_info = record { provider = "fixture"; raw_record_id = none };
}

abbrev annual_report : ResearchDocument
annual_report = record {
  document_id = "10-K";
  symbol = "AAPL";
  title = "Annual report";
  document_type = filing;
  published_at = 0;
  provider_info = record { provider = "fixture"; raw_record_id = none };
}

abbrev context : FundamentalResearchContext ℤ
context = record {
  context_version = "m2-v2";
  context_hash = "0a1b2c3d4e5f6071";
  built_at = 0;
  symbol = "AAPL";
  company_profile = none;
  financial_metrics = revenue ∷ [];
  derived_metrics = [];
  earnings = [];
  valuation = none;
  documents = annual_report ∷ [];
  news = [];
  market_snapshot_summary = [];
  market_snapshot_generated_at = none;
  data_status = [];
  unavailable = "earnings" ∷ [];
}

abbrev nothing : String → Assessment
nothing area = record { area = area; statements = [] }

abbrev thesis : InvestmentThesis ℤ
thesis = record {
  symbol = "AAPL";
  fundamental_view = bullish;
  confidence = pos 700_000;
  financial_assessment = record {
    area = "financial";
    statements = record { kind = fact; text = "In 2025 sales were 120.5." } ∷ [];
  };
  growth_assessment = nothing "growth";
  profitability_assessment = nothing "profitability";
  cash_flow_assessment = nothing "cash_flow";
  balance_sheet_assessment = nothing "balance_sheet";
  valuation_assessment = nothing "valuation";
  catalysts = [];
  risks = [];
  evidence = record { evidence_id = "e1"; source = "10-K" } ∷ [];
}

abbrev checks : Checks
checks = record {
  claim_checks =
      record { statement = "evidence:e1"; status = supported }
      ∷ record { statement = "financial/FACT: In 2025 sales were 120.5."; status = supported }
      ∷ [];
  findings = [];
  passed = true;
  unsupported_count = 0;
  contradicted_count = 0;
}

checks_returned : run_deterministic_checks thesis context "" ≡ returns checks
unfolding run_deterministic_checks check_numerical_grounding check_statements check_statement
    ungrounded_of slice statements_of checked_numbers numbers_in scan_from scan_end scan_char
    is_grounded context_numbers close_to check_evidence_existence check_evidence
    check_insufficient_data_handling known_ids
checks_returned = refl

passed_iff_example : (checks.passed ≡ true) ↔ (
    All (IsCited (known_ids context)) thesis.evidence
    × All (IsTraceable (context_numbers context) "") (statements_of thesis)
    × HasBasis thesis context)
passed_iff_example = passed_iff thesis context "" checks checks_returned

-- a model that rejects
abbrev skeptic : Reviewer ℕ ℤ
skeptic = record {
  run = λ ctx t. returns (record {
    content = none;
    structured = some 0;
    provider = some "test";
    model = some "m";
    latency_ms = none;
    usage = none;
  });
  loads = λ t. none;
  verdict_text = λ p. some "REJECT";
  findings = λ p. raises "TypeError";
}

abbrev passing : CriticResult
passing = record {
  review = record {
    verdict = pass;
    findings = [];
    claim_checks = checks.claim_checks;
    deterministic_checks_passed = true;
  };
  llm_provider = none;
  llm_model = none;
}

no_reviewer_passes : (critic_run {P = ℕ} none context thesis "" []).1 ≡ returns passing
unfolding critic_run reviewed verdict_of
no_reviewer_passes =
    ap (λ o. (completed {P = ℕ} none context thesis (research_critic_started "AAPL" ∷ []) o).1)
      checks_returned

critic_run_grounded_example :
    All (IsCited (known_ids context)) thesis.evidence
    × All (IsTraceable (context_numbers context) "") (statements_of thesis)
    × HasBasis thesis context
critic_run_grounded_example =
    critic_run_grounded {P = ℕ} none context thesis "" [] passing no_reviewer_passes refl

abbrev author : Author ℕ ℤ
author = record {
  run = λ ctx. skeptic.run ctx thesis;
  loads = λ t. none;
  validate = λ symbol p. returns thesis;
}

abbrev broken : Author ℕ ℤ
broken = record {
  run = λ ctx. raises "TimeoutError";
  loads = λ t. none;
  validate = λ symbol p. returns thesis;
}

abbrev visit : Outcome (Author ℕ ℤ) → Visit ℕ ℤ
visit gateway = record {
  target = record { provider = "test"; model = "m" };
  gateway = gateway;
  elapsed = 7;
}

run_evaluation-IsEvaluated_example :
    IsEvaluated
      (λ ctx. "")
      context
      (visit (raises "RuntimeError") ∷ visit (returns broken) ∷ visit (returns author) ∷ [])
      (run_evaluation
        (λ ctx. "")
        "AAPL"
        (visit (raises "RuntimeError") ∷ visit (returns broken) ∷ visit (returns author) ∷ [])
        (some context)
        none
        [])
run_evaluation-IsEvaluated_example =
    run_evaluation-IsEvaluated (λ ctx. "") "AAPL" (visit (raises "RuntimeError"))
      (visit (returns broken) ∷ visit (returns author) ∷ []) (some context) none context [] refl
      refl
