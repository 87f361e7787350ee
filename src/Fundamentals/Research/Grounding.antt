-- ===== src/Fundamentals/Research/Grounding.antt =====
-- services/fundamentals/research/grounding.py: the deterministic checks of a thesis against its
-- context. The rendered text of the context is an argument. The details of checks and findings, texts
-- for people, are left out.
pub mod Passed
use Prim.Native.String.{String, ◌++◌ as text_append}
use agnostix_ai_quant_fund.Prelude.{
  ℕ, zero, suc, Bool, true, false, not, ◌&&◌, ◌||◌, Option, none, some, List, [], ◌∷◌, ◌++◌, map,
  any, filter, length, ◌==◌, if◌then◌else◌,
}
use agnostix_ai_quant_fund.Prelude.Text.{str_eq, contains}
use agnostix_ai_quant_fund.Prelude.Outcome.{Outcome, returns, raises, ◌>>=◌}
use agnostix_ai_quant_fund.Number.{Float}
use agnostix_ai_quant_fund.Fundamentals.{
  FinancialMetric, MetricInput, DerivedMetric, EarningsEvent, EarningsResult, ValuationSnapshot,
  CompanyProfile, ProviderInfo, ResearchDocument,
}
use agnostix_ai_quant_fund.Fundamentals.Context.{ContextNewsItem, FundamentalResearchContext}
use agnostix_ai_quant_fund.Fundamentals.Research.{
  FundamentalView, bullish, neutral, bearish, insufficient_data, kind_text, EvidenceRef,
  ResearchStatement, Assessment, InvestmentThesis, ClaimCheckStatus, supported, unsupported,
  contradicted, missing_evidence, ClaimCheck, CriticFinding,
}
use agnostix_ai_quant_fund.Fundamentals.Research.Numbers.{FloatText, checked_numbers, is_grounded}

module _ {W : Type 0} ⦃num : Float W⦄ where
  -- the magnitudes of the values that are there
  abbrev magnitudes : List (Option W) → List W
  magnitudes [] = []
  magnitudes (none ∷ xs) = magnitudes xs
  magnitudes (some x ∷ xs) = num.abs x ∷ magnitudes xs

  abbrev metric_numbers : List (FinancialMetric W) → List W
  metric_numbers ms = magnitudes (map (λ m. m.value) ms)

  abbrev derived_numbers : List (DerivedMetric W) → List W
  derived_numbers [] = []
  derived_numbers (d ∷ ds) =
      (num.abs d.value ∷ map (λ i. num.abs i.value) d.inputs) ++ derived_numbers ds

  abbrev earnings_numbers : List (EarningsResult W) → List W
  earnings_numbers [] = []
  earnings_numbers (e ∷ es) =
      magnitudes (
        e.event.eps_actual ∷ e.event.eps_estimate ∷ e.event.revenue_actual
        ∷ e.event.revenue_estimate ∷ e.eps_surprise ∷ e.eps_surprise_pct ∷ e.revenue_surprise
        ∷ e.revenue_surprise_pct ∷ [])
      ++ earnings_numbers es

  abbrev valuation_numbers : Option (ValuationSnapshot W) → List W
  valuation_numbers none = []
  valuation_numbers (some v) = magnitudes (
      v.price ∷ v.market_cap ∷ v.pe_ratio ∷ v.forward_pe ∷ v.ps_ratio ∷ v.ev_ebitda ∷ v.fcf_yield
      ∷ v.shares_outstanding ∷ [])

  abbrev headcount : Option ℕ → List W
  headcount none = []
  headcount (some n) = if n == 0 then [] else num.decimal n 0 ∷ []

  abbrev profile_numbers : Option CompanyProfile → List W
  profile_numbers none = []
  profile_numbers (some p) = headcount p.employees

  -- `_context_numbers`
  unfoldable pub context_numbers : FundamentalResearchContext W → List W
  context_numbers ctx =
      metric_numbers ctx.financial_metrics
      ++ (derived_numbers ctx.derived_metrics
          ++ (earnings_numbers ctx.earnings
              ++ (valuation_numbers ctx.valuation ++ profile_numbers ctx.company_profile)))

-- an identifier that is given and not empty
abbrev named : Option String → List String
named none = []
named (some s) = if str_eq s "" then [] else s ∷ []

abbrev check_of : String → Bool → ClaimCheck
check_of statement ok = record {
  statement = statement;
  status = if ok then supported else unsupported;
}

unfoldable pub check_evidence : List String → List EvidenceRef → List ClaimCheck
check_evidence known [] = []
check_evidence known (ev ∷ evs) =
    check_of (text_append "evidence:" ev.evidence_id)
      (any (str_eq ev.source) known || any (str_eq ev.evidence_id) known)
    ∷ check_evidence known evs

abbrev is_empty {ℓ} : {A : Type ℓ} → List A → Bool
is_empty [] = true
is_empty (x ∷ xs) = false

-- the identifiers that a news item can be cited by
abbrev news_ids : List ContextNewsItem → List String
news_ids [] = []
news_ids (n ∷ ns) = (n.provider_article_id ∷ named n.source) ++ news_ids ns

module _ {W : Type 0} where
  abbrev metric_ids : List (FinancialMetric W) → List String
  metric_ids [] = []
  metric_ids (m ∷ ms) = named m.provider_info.raw_record_id ++ metric_ids ms

  abbrev earnings_ids : List (EarningsResult W) → List String
  earnings_ids [] = []
  earnings_ids (e ∷ es) = named e.event.provider_info.raw_record_id ++ earnings_ids es

  abbrev valuation_ids : Option (ValuationSnapshot W) → List String
  valuation_ids none = []
  valuation_ids (some v) = named v.provider_info.raw_record_id

  -- `known` of `check_evidence_existence`
  unfoldable pub known_ids : FundamentalResearchContext W → List String
  known_ids ctx =
      map (λ d. d.document_id) ctx.documents
      ++ (metric_ids ctx.financial_metrics
          ++ (earnings_ids ctx.earnings ++ (valuation_ids ctx.valuation ++ news_ids ctx.news)))

  unfoldable pub check_evidence_existence :
      InvestmentThesis W → FundamentalResearchContext W → List ClaimCheck
  check_evidence_existence thesis ctx = check_evidence (known_ids ctx) thesis.evidence

-- a text and where it stands
abbrev pub Placed : Type 0
Placed = String × String

abbrev area_statements : String → List ResearchStatement → List Placed
area_statements area [] = []
area_statements area (s ∷ ss) =
    (text_append area (text_append "/" (kind_text s.kind)), s.text) ∷ area_statements area ss

abbrev of_area : Assessment → List Placed
of_area a = area_statements a.area a.statements

module _ {W : Type 0} where
  -- `statements` of `check_numerical_grounding`
  unfoldable pub statements_of : InvestmentThesis W → List Placed
  statements_of t =
      of_area t.financial_assessment
      ++ (of_area t.growth_assessment
          ++ (of_area t.profitability_assessment
              ++ (of_area t.cash_flow_assessment
                  ++ (of_area t.balance_sheet_assessment
                      ++ (of_area t.valuation_assessment
                          ++ (map (λ c. ("catalyst", c.description)) t.catalysts
                              ++ map (λ r. ("risk", r.description)) t.risks))))))

-- `text[:n]`
unfoldable pub slice : ℕ → String → String
slice zero s = String.[]
slice (suc n) String.[] = String.[]
slice (suc n) (String.◌∷◌ c s) = String.◌∷◌ c (slice n s)

abbrev pub Verified : Type 0
Verified = List ClaimCheck × List CriticFinding

-- the check and the finding of a statement with ungrounded numbers, or without
abbrev judged : String → String → Bool → Verified
judged place text false = (
  record { statement = text_append place (text_append ": " (slice 200 text)); status = supported }
      ∷ [],
  [],
)
judged place text true =
    let statement = text_append place (text_append ": " (slice 200 text)) in
    if contains "/FACT" place
    then (
      record { statement = statement; status = contradicted } ∷ [],
      record { category = "numerical_consistency"; severity = "critical" } ∷ [],
    )
    else (record { statement = statement; status = unsupported } ∷ [], [])

module _ {W : Type 0} ⦃num : Float W⦄ ⦃texts : FloatText W⦄ where
  -- `[n for n in numbers if not _is_grounded(...)]`
  unfoldable pub ungrounded_of : List W → String → List W → Outcome (List W)
  ungrounded_of values rendered [] = returns []
  ungrounded_of values rendered (n ∷ ns) = is_grounded values rendered n >>= λ ok.
      ungrounded_of values rendered ns >>= λ rest. returns (if ok then rest else n ∷ rest)

  -- one turn of the loop of `check_numerical_grounding`
  unfoldable pub check_statement : List W → String → Placed → Outcome Verified
  check_statement values rendered (place, text) =
      if str_eq text "" || is_empty (checked_numbers {W = W} text)
      then returns ([], [])
      else ungrounded_of values rendered (checked_numbers text) >>= λ bad.
          returns (judged place text (not (is_empty bad)))

  unfoldable pub check_statements : List W → String → List Placed → Outcome Verified
  check_statements values rendered [] = returns ([], [])
  check_statements values rendered (s ∷ ss) = check_statement values rendered s >>= λ r.
      check_statements values rendered ss >>= λ rest. returns (r.0 ++ rest.0, r.1 ++ rest.1)

  unfoldable pub check_numerical_grounding :
      InvestmentThesis W → FundamentalResearchContext W → String → Outcome Verified
  check_numerical_grounding thesis ctx rendered =
      check_statements (context_numbers ctx) rendered (statements_of thesis)

abbrev is_directional : FundamentalView → Bool
is_directional bullish = true
is_directional bearish = true
is_directional _ = false

abbrev is_insufficient : FundamentalView → Bool
is_insufficient insufficient_data = true
is_insufficient _ = false

module _ {W : Type 0} ⦃num : Float W⦄ where
  unfoldable pub check_insufficient_data_handling :
      InvestmentThesis W → FundamentalResearchContext W → List CriticFinding
  check_insufficient_data_handling thesis ctx =
      (if not (is_empty ctx.unavailable)
          && (is_directional thesis.fundamental_view && num.lt (num.decimal 8 1) thesis.confidence)
        then record { category = "confidence_calibration"; severity = "warning" } ∷ []
        else [])
      ++ (if is_empty ctx.financial_metrics && not (is_insufficient thesis.fundamental_view)
          then record { category = "factual_grounding"; severity = "critical" } ∷ []
          else [])

-- the dictionary that `run_deterministic_checks` returns
pub record Checks : Type 0 where
  pub claim_checks : List ClaimCheck
  pub findings : List CriticFinding
  pub passed : Bool
  pub unsupported_count : ℕ
  pub contradicted_count : ℕ

abbrev pub is_unsupported : ClaimCheck → Bool
is_unsupported c = elim c.status [ unsupported ↦ true | _ ↦ false ]

abbrev pub is_contradicted : ClaimCheck → Bool
is_contradicted c = elim c.status [ contradicted ↦ true | _ ↦ false ]

abbrev pub fails : ClaimCheck → Bool
fails c = is_contradicted c || is_unsupported c

abbrev pub is_critical : CriticFinding → Bool
is_critical f = str_eq f.severity "critical"

abbrev checks_of : List ClaimCheck → List CriticFinding → Checks
checks_of checks findings = record {
  claim_checks = checks;
  findings = findings;
  passed = not (any fails checks) && is_empty (filter is_critical findings);
  unsupported_count = length (filter is_unsupported checks);
  contradicted_count = length (filter is_contradicted checks);
}

module _ {W : Type 0} ⦃num : Float W⦄ ⦃texts : FloatText W⦄ where
  unfoldable pub run_deterministic_checks :
      InvestmentThesis W → FundamentalResearchContext W → String → Outcome Checks
  run_deterministic_checks thesis ctx rendered =
      check_numerical_grounding thesis ctx rendered >>= λ r. returns (
        checks_of (check_evidence_existence thesis ctx ++ r.0)
          (r.1 ++ check_insufficient_data_handling thesis ctx))
