-- ===== src/Fundamentals/Research.antt =====
-- services/fundamentals/research/schemas.py: the thesis and the review. Of a record the fields are kept
-- that the checks read; texts for people are left out.
pub mod Numbers
pub mod Grounding
pub mod Trail
pub mod Critic
pub mod Analyst
pub mod Evaluation
mod Tests
use Prim.Native.String.{String}
use agnostix_ai_quant_fund.Prelude.{Bool, true, false, Option, List}

pub data FundamentalView : Type 0 where
  bullish neutral bearish insufficient_data : FundamentalView

pub data ClaimKind : Type 0 where
  fact interpretation conclusion : ClaimKind

-- the value of the enumeration
abbrev pub kind_text : ClaimKind → String
kind_text fact = "FACT"
kind_text interpretation = "INTERPRETATION"
kind_text conclusion = "CONCLUSION"

pub record EvidenceRef : Type 0 where
  pub evidence_id : String
  pub source : String

pub record ResearchStatement : Type 0 where
  pub kind : ClaimKind
  pub text : String

pub record Assessment : Type 0 where
  pub area : String
  pub statements : List ResearchStatement

-- a catalyst or a risk
pub record Catalyst : Type 0 where
  pub description : String

pub record RiskItem : Type 0 where
  pub description : String

pub record InvestmentThesis (W : Type 0) : Type 0 where
  pub symbol : String
  pub fundamental_view : FundamentalView
  pub confidence : W
  pub financial_assessment : Assessment
  pub growth_assessment : Assessment
  pub profitability_assessment : Assessment
  pub cash_flow_assessment : Assessment
  pub balance_sheet_assessment : Assessment
  pub valuation_assessment : Assessment
  pub catalysts : List Catalyst
  pub risks : List RiskItem
  pub evidence : List EvidenceRef

pub data Verdict : Type 0 where
  pass revise reject : Verdict

pub data ClaimCheckStatus : Type 0 where
  supported unsupported contradicted missing_evidence : ClaimCheckStatus

pub record ClaimCheck : Type 0 where
  pub statement : String
  pub status : ClaimCheckStatus

pub record CriticFinding : Type 0 where
  pub category : String
  pub severity : String

pub record CriticReviewOutput : Type 0 where
  pub verdict : Verdict
  pub findings : List CriticFinding
  pub claim_checks : List ClaimCheck
  pub deterministic_checks_passed : Bool
