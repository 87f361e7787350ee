-- ===== src/Fundamentals/Context.antt =====
-- services/fundamentals/context.py: the context that the research model receives. Its
-- text is an argument of what reads it; the values of the summary are their texts.
pub mod Selected
pub mod Builder
use Prim.Native.String.{String}
use agnostix_ai_quant_fund.Prelude.{ℕ, Option, List}
use agnostix_ai_quant_fund.Fundamentals.{
  DataQuality, FinancialMetric, DerivedMetric, EarningsResult, ValuationSnapshot, CompanyProfile,
  ResearchDocument,
}

pub record ContextNewsItem : Type 0 where
  pub provider_article_id : String
  pub headline : String
  pub summary : Option String
  pub source : Option String
  pub url : Option String
  pub symbols : List String
  pub published_at : ℕ
  pub received_at : Option ℕ
  pub provider : Option String

-- `FundamentalDataStatus` of services/fundamentals/schemas.py
pub record FundamentalDataStatus : Type 0 where
  pub datatype : String
  pub symbol : String
  pub state : DataQuality
  pub detail : Option String

pub record FundamentalResearchContext (W : Type 0) : Type 0 where
  pub context_version : String
  pub context_hash : String
  pub built_at : ℕ
  pub symbol : String
  pub company_profile : Option CompanyProfile
  pub financial_metrics : List (FinancialMetric W)
  pub derived_metrics : List (DerivedMetric W)
  pub earnings : List (EarningsResult W)
  pub valuation : Option (ValuationSnapshot W)
  pub documents : List ResearchDocument
  pub news : List ContextNewsItem
  pub market_snapshot_summary : List (String × String)
  pub market_snapshot_generated_at : Option ℕ
  pub data_status : List FundamentalDataStatus
  pub unavailable : List String
