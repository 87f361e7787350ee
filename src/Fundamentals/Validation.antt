-- ===== src/Fundamentals/Validation.antt =====
-- services/fundamentals/validation.py: integrity checks of reported figures. An issue is its subject
-- and its code; the detail, which is text for people, is left out.
pub mod Quality
use Prim.Native.String.{String, ◌++◌ as text_append}
use agnostix_ai_quant_fund.Prelude.{
  ℕ, Bool, true, false, not, ◌&&◌, ◌||◌, Option, none, some, List, [], ◌∷◌, ◌++◌, any, filter,
  length, is_some, ltb, ◌==◌, if◌then◌else◌,
}
use agnostix_ai_quant_fund.Prelude.Text.{str_eq, starts_with, contains, upper}
use agnostix_ai_quant_fund.Prelude.Dicts.{lookup, assign}
use agnostix_ai_quant_fund.Number.{Float, ◌⊖◌, ◌⊗◌, ◌⊘◌, nought, max_float}
use agnostix_ai_quant_fund.Fundamentals.{
  Date, isoformat, date_eq, DataQuality, conflicting, invalid, PeriodType, ttm, period_type_eq,
  period_type_text, FinancialPeriod, FinancialMetric, EarningsEvent, ValuationSnapshot,
}

pub record IntegrityIssue : Type 0 where
  pub subject : String
  pub issue : String

abbrev issue_of : String → String → IntegrityIssue
issue_of subject issue = record { subject = subject; issue = issue }

-- `_NON_NEGATIVE_METRICS`
abbrev non_negative_metrics : List String
non_negative_metrics =
    "revenue" ∷ "gross_profit" ∷ "operating_income" ∷ "cash_and_equivalents" ∷ "total_debt"
    ∷ "shares_outstanding" ∷ "market_cap" ∷ []

-- `issues.append(...)` under a condition
abbrev pub flagged : Bool → IntegrityIssue → List IntegrityIssue → List IntegrityIssue
flagged true i issues = issues ++ (i ∷ [])
flagged false i issues = issues

module _ {W : Type 0} where
  pub metric_key : FinancialMetric W → String
  metric_key m =
      text_append "metric:" (text_append m.metric (text_append ":" (isoformat m.period.period_end)))

-- a TTM period with a fiscal year or quarter
abbrev pub mixes_periods : FinancialPeriod → Bool
mixes_periods p =
    period_type_eq p.period_type ttm && (is_some p.fiscal_year || is_some p.fiscal_quarter)

-- what identifies a figure of a provider
pub record Identity : Type 0 where
  pub symbol : String
  pub metric : String
  pub period_type : PeriodType
  pub period_end : Date
  pub provider : String

unfoldable pub identity_eq : Identity → Identity → Bool
identity_eq a b =
    str_eq a.symbol b.symbol
    && (str_eq a.metric b.metric
        && (period_type_eq a.period_type b.period_type
            && (date_eq a.period_end b.period_end && str_eq a.provider b.provider)))

abbrev pub conflict_key : Identity → String
conflict_key i = text_append "conflict:" (
    text_append i.provider (
      text_append ":" (
        text_append i.symbol (
          text_append ":" (
            text_append i.metric (
              text_append ":" (
                text_append (period_type_text i.period_type)
                  (text_append ":" (isoformat i.period_end)))))))))

module _ {W : Type 0} ⦃num : Float W⦄ (infinity : W) where
  -- NaN, `float("inf")` or `float("-inf")`
  abbrev pub non_finite : W → Bool
  non_finite v = not (num.eq v v) || (num.eq v infinity || num.eq v (num.neg infinity))

  abbrev pub bad_percent : String → W → Bool
  bad_percent units v =
      str_eq units "percent"
      && not (num.le (num.neg (num.decimal 1000 0)) v && num.le v (num.decimal 1000 0))

  -- the issues of a value that is there
  abbrev value_issues : FinancialMetric W → W → List IntegrityIssue
  value_issues m v =
      if non_finite v
      then issue_of (metric_key m) "non_finite" ∷ []
      else flagged (mixes_periods m.period) (issue_of (metric_key m) "ttm_with_fiscal_ids") (
          flagged (bad_percent m.units v) (issue_of (metric_key m) "percent_out_of_range") (
            flagged (any (str_eq m.metric) non_negative_metrics && num.lt v nought)
              (issue_of (metric_key m) "negative_magnitude") []))

  abbrev issues_at : FinancialMetric W → Option W → List IntegrityIssue
  issues_at m none = []
  issues_at m (some v) = value_issues m v

  unfoldable pub validate_metric : FinancialMetric W → List IntegrityIssue
  validate_metric m = issues_at m m.value

module _ {V : Type 0} where
  -- `d[key].append(v)` of a `defaultdict(list)`
  abbrev with_more : Option (List V) → V → List V
  with_more none v = v ∷ []
  with_more (some vs) v = vs ++ (v ∷ [])

  unfoldable pub append_at :
      {K : Type 0} → (K → K → Bool) → List (K × List V) → K → V → List (K × List V)
  append_at same d key v = assign same d key (with_more (lookup same d key) v)

-- the dictionary from subjects to their issues
abbrev pub Issues : Type 0
Issues = List (String × List IntegrityIssue)

-- `for issue in ...: out[issue.subject].append(issue)`
unfoldable pub file_issues : List IntegrityIssue → Issues → Issues
file_issues [] out = out
file_issues (i ∷ is) out = file_issues is (append_at str_eq out i.subject i)

module _ {W : Type 0} ⦃num : Float W⦄ where
  abbrev pub identity_of : FinancialMetric W → Identity
  identity_of m = record {
    symbol = m.symbol;
    metric = m.metric;
    period_type = m.period.period_type;
    period_end = m.period.period_end;
    provider = m.provider_info.provider;
  }

  abbrev note_value :
      FinancialMetric W → Option W → List (Identity × List W) → List (Identity × List W)
  note_value m none seen = seen
  note_value m (some v) seen = append_at identity_eq seen (identity_of m) v

  -- the values by identity, of the first loop of `validate_metrics`
  unfoldable pub values_seen :
      List (FinancialMetric W) → List (Identity × List W) → List (Identity × List W)
  values_seen [] seen = seen
  values_seen (m ∷ ms) seen = values_seen ms (note_value m m.value seen)

  -- `set(values)`, as a list
  pub distinct : List W → List W
  distinct [] = []
  distinct (v ∷ vs) = let rest = distinct vs in if any (num.eq v) rest then rest else v ∷ rest

  abbrev pub conflicted : List W → Bool
  conflicted values = ltb 1 (length values) && ltb 1 (length (distinct values))

  -- the second loop of `validate_metrics`
  unfoldable pub file_conflicts : List (Identity × List W) → Issues → Issues
  file_conflicts [] out = out
  file_conflicts ((i, values) ∷ rest) out = file_conflicts rest (
      if conflicted values
      then append_at str_eq out (conflict_key i) (issue_of (conflict_key i) "source_conflict")
      else out)

module _ {W : Type 0} ⦃num : Float W⦄ (infinity : W) where
  -- the issues by subject, of the first loop of `validate_metrics`
  unfoldable pub file_metrics : List (FinancialMetric W) → Issues → Issues
  file_metrics [] out = out
  file_metrics (m ∷ ms) out = file_metrics ms (file_issues (validate_metric infinity m) out)

  unfoldable pub validate_metrics : List (FinancialMetric W) → Issues
  validate_metrics ms = file_conflicts (values_seen ms []) (file_metrics ms [])

-- `{i.subject for lst in issues.values() for i in lst}`
unfoldable pub subjects_in : List IntegrityIssue → List String
subjects_in [] = []
subjects_in (i ∷ is) = i.subject ∷ subjects_in is

unfoldable pub subjects_of : Issues → List String
subjects_of [] = []
subjects_of ((k, is) ∷ rest) = subjects_in is ++ subjects_of rest

module _ {W : Type 0} where
  -- the conflict keys that speak of a figure
  abbrev pub concerns : FinancialMetric W → String → Bool
  concerns m k =
      starts_with k "conflict:"
      && (contains (text_append ":" (text_append m.symbol ":")) k
          && (contains (text_append ":" (text_append m.metric ":")) k
              && contains (isoformat m.period.period_end) k))

  -- the body of the loop of `flag_quality`
  unfoldable pub flag_one : List String → FinancialMetric W → FinancialMetric W
  flag_one by_subject m =
      let conflict_keys = filter (concerns m) by_subject in
      if any (λ k. any (str_eq k) by_subject) (metric_key m ∷ conflict_keys)
      then record m {
        quality =
            if any (λ c. any (str_eq c) by_subject) conflict_keys then conflicting else invalid;
      }
      else m

  unfoldable pub flag_all : List String → List (FinancialMetric W) → List (FinancialMetric W)
  flag_all by_subject [] = []
  flag_all by_subject (m ∷ ms) = flag_one by_subject m ∷ flag_all by_subject ms

module _ {W : Type 0} ⦃num : Float W⦄ (infinity : W) where
  unfoldable pub flag_quality : List (FinancialMetric W) → List (FinancialMetric W)
  flag_quality ms = flag_all (subjects_of (validate_metrics infinity ms)) ms

-- what identifies an earnings record
abbrev pub EarningsIdentity : Type 0
EarningsIdentity = String × String × PeriodType × Date

unfoldable pub earnings_eq : EarningsIdentity → EarningsIdentity → Bool
earnings_eq (a, b, p, d) (a', b', p', d') =
    str_eq a a' && (str_eq b b' && (period_type_eq p p' && date_eq d d'))

module _ {W : Type 0} where
  abbrev pub earnings_identity : EarningsEvent W → EarningsIdentity
  earnings_identity e = (
    e.provider_info.provider, e.symbol, e.reporting_period.period_type,
    e.reporting_period.period_end,
  )

  abbrev earnings_subject : EarningsEvent W → String
  earnings_subject e =
      text_append "earnings:"
        (text_append e.symbol (text_append ":" (isoformat e.reporting_period.period_end)))

  -- the loop of `validate_earnings`
  earnings_from :
      List EarningsIdentity → List IntegrityIssue → List (EarningsEvent W) → List IntegrityIssue
  earnings_from seen issues [] = issues
  earnings_from seen issues (e ∷ es) =
      earnings_from (earnings_identity e ∷ seen)
        (flagged (any (earnings_eq (earnings_identity e)) seen)
          (issue_of (earnings_subject e) "duplicate_reporting_period") issues)
        es

  pub validate_earnings : List (EarningsEvent W) → List IntegrityIssue
  validate_earnings events = earnings_from [] [] events

module _ {W : Type 0} ⦃num : Float W⦄ where
  abbrev bad_price : Option W → Bool
  bad_price none = false
  bad_price (some price) = num.le price nought

  -- the market capitalization differs by more than a twentieth from price times shares
  abbrev inconsistent_cap : Option W → Option W → Option W → Bool
  inconsistent_cap (some cap) (some shares) (some price) =
      num.lt (num.decimal 5 2)
        (num.abs ((price ⊗ shares) ⊖ cap) ⊘ max_float (price ⊗ shares) (num.decimal 1 9))
  inconsistent_cap _ _ _ = false

  pub validate_valuation : ValuationSnapshot W → List IntegrityIssue
  validate_valuation v =
      let subject = text_append "valuation:" v.symbol in
      flagged (inconsistent_cap v.market_cap v.shares_outstanding v.price)
        (issue_of subject "market_cap_inconsistent")
        (flagged (bad_price v.price) (issue_of subject "bad_price") [])

pub check_currency_consistency : String → String → Bool
check_currency_consistency records_currency expected =
    str_eq (upper records_currency) (upper expected)

-- `a < b` of the keys of two periods by `period_sort_key`: the end, then the type's text
abbrev pub date_lt : Date → Date → Bool
date_lt a b =
    ltb a.year b.year
    || (a.year == b.year && (ltb a.month b.month || (a.month == b.month && ltb a.day b.day)))
