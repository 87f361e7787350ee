-- ===== src/Fundamentals/Context/Builder.antt =====
-- services/fundamentals/context.py: `build_fundamental_context`. The order in which Python lists a set
-- of dates and the digest of a context are parameters.
pub mod Gaps
use Prim.Native.String.{String, ◌++◌ as text_append}
use agnostix_ai_quant_fund.Prelude.{
  ℕ, Bool, true, false, not, ◌&&◌, ◌||◌, Option, none, some, List, [], ◌∷◌, ◌++◌, any, map, filter,
  length, take, ltb, is_some, if◌then◌else◌,
}
use agnostix_ai_quant_fund.Prelude.Text.{str_eq, lower, strip, upper}
use agnostix_ai_quant_fund.Prelude.Dicts.{lookup}
use agnostix_ai_quant_fund.Prelude.Sort.{sort_by}
use agnostix_ai_quant_fund.Fundamentals.{
  Date, date_eq, DataQuality, ok, conflicting, incomplete, invalid, unavailable, PeriodType, annual,
  quarterly, period_type_eq, period_type_text, FinancialPeriod, FinancialMetric, DerivedMetric,
  EarningsResult, ValuationSnapshot, CompanyProfile, ResearchDocument,
}
use agnostix_ai_quant_fund.Fundamentals.Validation.{date_lt}
use agnostix_ai_quant_fund.Fundamentals.Context.{
  ContextNewsItem, FundamentalDataStatus, FundamentalResearchContext,
}
use agnostix_ai_quant_fund.Fundamentals.Context.Selected.{
  text_lt, select_documents, select_news, freshness_to_quality,
}

-- the arguments of the builder; an absent list is empty
pub record Inputs (W : Type 0) : Type 0 where
  pub profile : Option CompanyProfile
  pub metrics : List (FinancialMetric W)
  pub derived : List (DerivedMetric W)
  pub earnings : List (EarningsResult W)
  pub valuation : Option (ValuationSnapshot W)
  pub documents : List ResearchDocument
  pub news : List ContextNewsItem
  pub news_freshness : Option String
  pub market_snapshot_summary : List (String × String)

-- `set`, by its items in the order of their first occurrence
unfoldable pub distinct : List String → List String
distinct [] = []
distinct (x ∷ xs) = x ∷ filter (λ y. not (str_eq x y)) (distinct xs)

-- `a < b` of the keys of two periods, and of two figures
abbrev period_before : FinancialPeriod → FinancialPeriod → Bool
period_before a b =
    date_lt a.period_end b.period_end
    || (date_eq a.period_end b.period_end
        && text_lt (period_type_text a.period_type) (period_type_text b.period_type))

module _ {W : Type 0} where
  abbrev figure_before : FinancialMetric W → FinancialMetric W → Bool
  figure_before a b =
      date_lt a.period.period_end b.period.period_end
      || (date_eq a.period.period_end b.period.period_end && text_lt a.metric b.metric)

  -- the figures of a type of period, the latest first
  abbrev latest_of : PeriodType → List (FinancialMetric W) → List (FinancialMetric W)
  latest_of type metrics =
      sort_by (λ a b. period_before b.period a.period)
        (filter (λ m. period_type_eq m.period.period_type type) metrics)

  -- those of the first periods of the set
  abbrev in_top : (List Date → List Date) → ℕ → List (FinancialMetric W) → List (FinancialMetric W)
  in_top list_set budget figures =
      let top_ends = take budget (list_set (map (λ m. m.period.period_end) figures)) in
      filter (λ m. any (date_eq m.period.period_end) top_ends) figures

  -- the budget on the names, `MAX_METRIC_NAMES`
  unfoldable pub limit_names : List (FinancialMetric W) → List (FinancialMetric W)
  limit_names selected =
      let metric_names = distinct (map (λ m. m.metric) selected) in
      let keep = take 20 (sort_by text_lt metric_names) in
      if ltb 20 (length metric_names)
      then filter (λ m. any (str_eq m.metric) keep) selected
      else selected

  unfoldable pub select_metrics :
      (List Date → List Date) → List (FinancialMetric W) → List (FinancialMetric W)
  select_metrics list_set metrics = limit_names (
      sort_by (λ a b. figure_before b a)
        (in_top list_set 5 (latest_of annual metrics)
          ++ in_top list_set 4 (latest_of quarterly metrics)))

  -- `MAX_EARNINGS_EVENTS` of them, the latest first
  unfoldable pub select_earnings : List (EarningsResult W) → List (EarningsResult W)
  select_earnings earnings =
      take 4 (sort_by (λ a b. ltb b.event.event_time a.event.event_time) earnings)

-- what a part adds to the gaps, and its status
abbrev pub Part : Type 0
Part = List String × FundamentalDataStatus

abbrev report : String → String → DataQuality → Option String → FundamentalDataStatus
report datatype symbol state detail = record {
  datatype = datatype;
  symbol = symbol;
  state = state;
  detail = detail;
}

-- a part that is there or is a gap
unfoldable pub part_of : String → String → String → Bool → Part
part_of gap datatype symbol present =
    if present
    then ([], report datatype symbol ok none)
    else (gap ∷ [], report datatype symbol unavailable none)

-- `quality in {DataQuality.UNAVAILABLE, DataQuality.INVALID}`
abbrev is_gap : DataQuality → Bool
is_gap ok = false
is_gap conflicting = false
is_gap incomplete = false
is_gap invalid = true
is_gap unavailable = true

-- a feed that is there, by its quality
unfoldable pub evaluated_feed :
    String → String → String → String → String → Option DataQuality → Part
evaluated_feed name symbol unreported label state none =
    ([], report name symbol incomplete (some unreported))
evaluated_feed name symbol unreported label state (some quality) = (
  if is_gap quality then name ∷ [] else [],
  report name symbol quality (some (text_append label state)),
)

-- the news and the snapshot: present or not, with the state of their feed
unfoldable pub feed_of : String → String → String → String → String → Bool → String → Part
feed_of name symbol lacking unreported label present state =
    if present
    then evaluated_feed name symbol unreported label state (freshness_to_quality state)
    else (name ∷ [], report name symbol unavailable (some lacking))

abbrev is_present {ℓ} : {A : Type ℓ} → List A → Bool
is_present [] = false
is_present (x ∷ xs) = true

-- `text or ""`, and the same of an entry
abbrev text_or_empty : Option String → String
text_or_empty none = ""
text_or_empty (some t) = t

-- the gaps of the parts, in order
unfoldable pub gaps_of : List Part → List String
gaps_of [] = []
gaps_of ((gaps, status) ∷ parts) = gaps ++ gaps_of parts

module _ {W : Type 0} (list_set : List Date → List Date) where
  -- the seven parts, in the order of their statuses
  unfoldable pub parts_of : String → Inputs W → List Part
  parts_of symbol i =
      part_of "company_profile" "profile" symbol (is_some i.profile)
      ∷ part_of "financial_metrics" "metrics" symbol
          (is_present (select_metrics list_set i.metrics))
      ∷ part_of "earnings" "earnings" symbol (is_present (select_earnings i.earnings))
      ∷ part_of "valuation" "valuation" symbol (is_some i.valuation)
      ∷ part_of "research_documents" "documents" symbol (is_present (select_documents i.documents))
      ∷ feed_of "news" symbol "no relevant articles available" "feed freshness not evaluated"
          "feed freshness=" (is_present (select_news i.news))
          (lower (strip (text_or_empty i.news_freshness)))
      ∷ feed_of "market_snapshot" symbol "no market snapshot available"
          "snapshot overall_state not reported" "overall_state="
          (is_present i.market_snapshot_summary)
          (lower (strip (text_or_empty (lookup str_eq i.market_snapshot_summary "overall_state"))))
      ∷ []

  module _ (digest : FundamentalResearchContext W → String) where
    -- what the digest sees of a context: not its hash and its times
    unfoldable pub hashed : FundamentalResearchContext W → String
    hashed c =
        digest (record c { context_hash = ""; built_at = 0; market_snapshot_generated_at = none })

    -- `compute_hash`
    unfoldable pub compute_hash : FundamentalResearchContext W → FundamentalResearchContext W
    compute_hash c = record c { context_hash = hashed c }

    unfoldable pub build_fundamental_context :
        String → Inputs W → Option ℕ → ℕ → FundamentalResearchContext W
    build_fundamental_context symbol i generated_at now =
        let parts = parts_of (upper symbol) i in
        compute_hash record {
          context_version = "m2-v2";
          context_hash = "";
          built_at = now;
          symbol = upper symbol;
          company_profile = i.profile;
          financial_metrics = select_metrics list_set i.metrics;
          derived_metrics = i.derived;
          earnings = select_earnings i.earnings;
          valuation = i.valuation;
          documents = select_documents i.documents;
          news = select_news i.news;
          market_snapshot_summary = i.market_snapshot_summary;
          market_snapshot_generated_at = generated_at;
          data_status = map (λ (gaps, status). status) parts;
          unavailable = sort_by text_lt (distinct (gaps_of parts));
        }
