-- ===== src/Fundamentals/Tests.antt =====
-- Figures of two years, and the metrics on them
-- (services/fundamentals).
use Prim.Native.String.{String}
use agnostix_ai_quant_fund.Prelude.{ℕ, ◌≡◌, refl, ap, ◌∙◌, some, none, List, [], ◌∷◌, any}
use agnostix_ai_quant_fund.Prelude.Text.{str_eq}
use agnostix_ai_quant_fund.Prelude.Int.{ℤ, pos}
use agnostix_ai_quant_fund.Number.Micro.{micro}
use agnostix_ai_quant_fund.Prelude.Sort.{sort_by, insert_by}
use agnostix_ai_quant_fund.Fundamentals.Context.Builder.{Inputs, build_fundamental_context}
use agnostix_ai_quant_fund.Fundamentals.Context.Builder.Gaps.{
  names_gap, build_fundamental_context-gaps,
}
use agnostix_ai_quant_fund.Fundamentals.Context.{ContextNewsItem}
use agnostix_ai_quant_fund.Fundamentals.Context.Selected.{
  select_news, unique_from, order_news, same_article,
}
use agnostix_ai_quant_fund.Fundamentals.Context.Selected.News.{IsSelection, select_news-IsSelection}
use agnostix_ai_quant_fund.Fundamentals.{
  Date, annual, ok, FinancialMetric, DerivedMetric, date_eq, is_ok, isoformat, period_type_eq,
}
use agnostix_ai_quant_fund.Fundamentals.Metrics.{
  input_of, derive, divide, get, index, index_from, inputs_of, key_eq, revenue_growth_yoy,
}
use agnostix_ai_quant_fund.Fundamentals.Metrics.Reproducible.{growth, derived}
use agnostix_ai_quant_fund.Fundamentals.Validation.{
  flag_quality, append_at, file_conflicts, file_issues, file_metrics, flag_all, flag_one,
  identity_eq, subjects_of, validate_metric, validate_metrics, values_seen,
}
use agnostix_ai_quant_fund.Fundamentals.Trusted.{IsTrusted, derived-IsTrusted}
use agnostix_ai_quant_fund.Prelude.Dicts.{assign, lookup}
use agnostix_ai_quant_fund.Prelude.Text.{show, show_from}

-- no number of the tests is as large
abbrev infinity : ℤ
infinity = pos 1_000_000_000_000_000_000_000

abbrev year_end : ℕ → Date
year_end y = record { year = y; month = 12; day = 31 }

abbrev figure : String → String → ℕ → ℤ → FinancialMetric ℤ
figure symbol metric y v = record {
  symbol = symbol;
  metric = metric;
  value = some v;
  period = record {
    period_type = annual;
    period_end = year_end y;
    fiscal_year = some y;
    fiscal_quarter = none;
  };
  currency = "USD";
  units = "usd";
  quality = ok;
  provider_info = record { provider = "fixture"; raw_record_id = none };
}

abbrev figures : List (FinancialMetric ℤ)
figures =
    figure "AAPL" "revenue" 2024 (pos 100_000_000)
    ∷ figure "AAPL" "revenue" 2025 (pos 120_000_000)
    ∷ []

abbrev yoy : DerivedMetric ℤ
yoy = record {
  symbol = "AAPL";
  metric = "revenue_growth_yoy";
  value = pos 200_000;
  formula = "(revenue_t - revenue_prior) / abs(revenue_prior)";
  inputs =
      input_of (figure "AAPL" "revenue" 2025 (pos 120_000_000)) (pos 120_000_000)
      ∷ input_of (figure "AAPL" "revenue" 2024 (pos 100_000_000)) (pos 100_000_000)
      ∷ [];
  calculated_at = 0;
}

figures_clean : flag_quality infinity figures ≡ figures
unfolding flag_quality flag_all flag_one subjects_of validate_metrics file_conflicts values_seen
    append_at assign identity_eq period_type_eq date_eq lookup file_metrics file_issues
    validate_metric
figures_clean = refl

derived_clean : derived 0 figures annual (growth (year_end 2025) (year_end 2024)) ≡ some yoy
unfolding revenue_growth_yoy get lookup index index_from is_ok assign key_eq period_type_eq
    isoformat show show_from derive inputs_of divide
derived_clean = refl

derived-yoy :
    derived 0 (flag_quality infinity figures) annual (growth (year_end 2025) (year_end 2024))
    ≡ some yoy
derived-yoy =
    ap (λ ms. derived 0 ms annual (growth (year_end 2025) (year_end 2024))) figures_clean
    ∙ derived_clean

derived-IsTrusted_example : IsTrusted infinity figures yoy
derived-IsTrusted_example =
    derived-IsTrusted infinity 0 figures annual (growth (year_end 2025) (year_end 2024)) yoy
      derived-yoy

abbrev article : String → ℕ → ContextNewsItem
article id published_at = record {
  provider_article_id = id;
  headline = "Results";
  summary = none;
  source = none;
  url = none;
  symbols = [];
  published_at = published_at;
  received_at = none;
  provider = some "alpaca";
}

-- the second is the first again
abbrev articles : List ContextNewsItem
articles = article "a" 1 ∷ article "a" 1 ∷ article "b" 2 ∷ []

select_news-IsSelection_example : IsSelection articles (select_news articles)
select_news-IsSelection_example = select_news-IsSelection articles

select_news_newest : select_news articles ≡ article "b" 2 ∷ article "a" 1 ∷ []
unfolding select_news unique_from order_news same_article sort_by insert_by
select_news_newest = refl

-- one article of a feed that is stale, and nothing else
abbrev inputs : Inputs ℤ
inputs = record {
  profile = none;
  metrics = [];
  derived = [];
  earnings = [];
  valuation = none;
  documents = [];
  news = article "a" 1 ∷ [];
  news_freshness = some "stale";
  market_snapshot_summary = [];
}

build_fundamental_context-gaps_example :
    any
      (str_eq "earnings")
      (build_fundamental_context (λ dates. dates) (λ c. c.symbol) "aapl" inputs none 9).unavailable
    ≡ names_gap (λ dates. dates) inputs "earnings"
build_fundamental_context-gaps_example =
    build_fundamental_context-gaps (λ dates. dates) (λ c. c.symbol) "aapl" inputs none 9 "earnings"
