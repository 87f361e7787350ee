-- ===== src/Fundamentals.antt =====
-- services/fundamentals: the records (services/fundamentals/schemas.py). A `date` is its year, month
-- and day. The times of receipt and storage, which nothing here reads, are left out, and a timestamp
-- that has passed its check for a zone is a number of microseconds.
pub mod Metrics
pub mod Validation
pub mod Trusted
pub mod Context
pub mod Research
mod Tests
use Prim.Native.String.{String, ◌++◌ as text_append}
use agnostix_ai_quant_fund.Prelude.{
  ℕ, ◌≤◌, Bool, true, false, not, ◌&&◌, ◌||◌, Option, none, some, List, leb, ltb, ◌==◌, is_some,
  if◌then◌else◌,
}
use agnostix_ai_quant_fund.Prelude.Text.{str_eq, show}
use agnostix_ai_quant_fund.Prelude.Outcome.{Outcome, returns, raises}

pub record Date : Type 0 where
  pub year : ℕ
  pub month : ℕ
  pub day : ℕ

-- `date.isoformat()`, for the years up to 9999
abbrev two_digits : ℕ → String
two_digits n = if ltb n 10 then text_append "0" (show n) else show n

abbrev four_digits : ℕ → String
four_digits n =
    if ltb n 10
    then text_append "000" (show n)
    else if ltb n 100
    then text_append "00" (show n)
    else if ltb n 1000
    then text_append "0" (show n)
    else show n

pub isoformat : Date → String
isoformat d =
    text_append (four_digits d.year)
      (text_append "-" (text_append (two_digits d.month) (text_append "-" (two_digits d.day))))

-- `a == b` of two dates
unfoldable pub date_eq : Date → Date → Bool
date_eq a b = a.year == b.year && (a.month == b.month && a.day == b.day)

pub record ProviderInfo : Type 0 where
  pub provider : String
  pub raw_record_id : Option String

pub data DataQuality : Type 0 where
  ok conflicting incomplete invalid unavailable : DataQuality

unfoldable pub is_ok : DataQuality → Bool
is_ok ok = true
is_ok _ = false

pub data PeriodType : Type 0 where
  annual quarterly ttm : PeriodType

unfoldable pub period_type_eq : PeriodType → PeriodType → Bool
period_type_eq annual annual = true
period_type_eq quarterly quarterly = true
period_type_eq ttm ttm = true
period_type_eq _ _ = false

-- the value of the enumeration
abbrev pub period_type_text : PeriodType → String
period_type_text annual = "annual"
period_type_text quarterly = "quarterly"
period_type_text ttm = "ttm"

pub data DocumentType : Type 0 where
  filing earnings_release transcript ir_presentation announcement news : DocumentType

pub record FinancialPeriod : Type 0 where
  pub period_type : PeriodType
  pub period_end : Date
  pub fiscal_year : Option ℕ
  pub fiscal_quarter : Option ℕ

-- the bounds of `fiscal_quarter`
abbrev quarter_fits : Option ℕ → Bool
quarter_fits none = true
quarter_fits (some q) = leb 1 q && leb q 4

abbrev lacks_identifier : FinancialPeriod → Bool
lacks_identifier p =
    (period_type_eq p.period_type quarterly && not (is_some p.fiscal_quarter))
    || (period_type_eq p.period_type annual && not (is_some p.fiscal_year))

-- the checks that the constructor makes
pub make_period : FinancialPeriod → Outcome FinancialPeriod
make_period p =
    if not (quarter_fits p.fiscal_quarter) || lacks_identifier p
    then raises "ValidationError"
    else returns p

pub record FinancialMetric (W : Type 0) : Type 0 where
  pub symbol : String
  pub metric : String
  pub value : Option W
  pub period : FinancialPeriod
  pub currency : String
  pub units : String
  pub quality : DataQuality
  pub provider_info : ProviderInfo

pub record EarningsEvent (W : Type 0) : Type 0 where
  pub symbol : String
  pub event_time : ℕ
  pub reporting_period : FinancialPeriod
  pub eps_actual : Option W
  pub eps_estimate : Option W
  pub revenue_actual : Option W
  pub revenue_estimate : Option W
  pub provider_info : ProviderInfo

pub record EarningsResult (W : Type 0) : Type 0 where
  pub event : EarningsEvent W
  pub eps_surprise : Option W
  pub eps_surprise_pct : Option W
  pub revenue_surprise : Option W
  pub revenue_surprise_pct : Option W

pub record ValuationSnapshot (W : Type 0) : Type 0 where
  pub symbol : String
  pub price : Option W
  pub market_cap : Option W
  pub pe_ratio : Option W
  pub forward_pe : Option W
  pub ps_ratio : Option W
  pub ev_ebitda : Option W
  pub fcf_yield : Option W
  pub shares_outstanding : Option W
  pub provider_info : ProviderInfo

pub record CompanyProfile : Type 0 where
  pub symbol : String
  pub name : String
  pub employees : Option ℕ

pub record ResearchDocument : Type 0 where
  pub document_id : String
  pub symbol : String
  pub title : String
  pub document_type : DocumentType
  pub published_at : ℕ
  pub provider_info : ProviderInfo

-- one input of a derived metric, as it is recorded
pub record MetricInput (W : Type 0) : Type 0 where
  pub metric : String
  pub period_type : PeriodType
  pub period_end : Date
  pub value : W
  pub provider : String

pub record DerivedMetric (W : Type 0) : Type 0 where
  pub symbol : String
  pub metric : String
  pub value : W
  pub formula : String
  pub inputs : List (MetricInput W)
  pub calculated_at : ℕ
