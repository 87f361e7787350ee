-- ===== src/MarketData/Snapshot.antt =====
-- services/market_data/snapshot.py: the snapshot of a symbol from the stored rows, and what the
-- context of the research takes from it. The repositories are a parameter, with the answers of their
-- queries. `D` is the type of decimal numbers and `F` that of floats.
pub mod Builder
pub mod Summary
mod Tests
use Prim.Native.String.{String}
use agnostix_ai_quant_fund.Prelude.{
  ℕ, Bool, Option, none, some, List, [], ◌∷◌, ◌++◌, map, length, is_some, if◌then◌else◌,
}
use agnostix_ai_quant_fund.Prelude.Text.{str_eq, upper}
use agnostix_ai_quant_fund.Prelude.Outcome.{Outcome, returns, raises, ◌>>=◌}
use agnostix_ai_quant_fund.Prelude.Int.{ℤ}
use agnostix_ai_quant_fund.MarketData.{
  DateTime, FreshnessState, fresh, stale, missing, invalid, MarketDataStatus, NewsArticle,
  overall_state,
}
use agnostix_ai_quant_fund.MarketData.Freshness.{
  for_datatype, load_thresholds_from_settings, evaluate_freshness,
}

-- a value of a block of `market`
pub data Cell (D F : Type 0) : Type 0 where
  time : DateTime → Cell D F
  decimal : D → Cell D F
  number : F → Cell D F
  text : String → Cell D F
  null : Cell D F

-- a dictionary of values
abbrev pub Block : Type 0 → Type 0 → Type 0
Block D F = List (String × Cell D F)

-- a value of `market`
pub data MarketValue (D F : Type 0) : Type 0 where
  block : Block D F → MarketValue D F
  blocks : List (Block D F) → MarketValue D F

-- the columns of the stored rows that are read
pub record BarRow (D : Type 0) : Type 0 where
  pub event_time : DateTime
  pub open_price : D
  pub high : D
  pub low : D
  pub close : D
  pub volume : D
  pub provider : String
  pub received_at : DateTime

pub record QuoteRow (D : Type 0) : Type 0 where
  pub event_time : DateTime
  pub bid_price : Option D
  pub ask_price : Option D
  pub last_price : Option D
  pub provider : String
  pub received_at : DateTime

pub record TradeRow (D : Type 0) : Type 0 where
  pub event_time : DateTime
  pub price : D
  pub size : D
  pub provider : String
  pub received_at : DateTime

pub record SecurityRow : Type 0 where
  pub name : Option String
  pub exchange : Option String
  pub asset_class : String
  pub status : String

pub record NewsRow : Type 0 where
  pub provider_article_id : String
  pub headline : String
  pub summary : Option String
  pub source : Option String
  pub url : Option String
  pub symbols : List String
  pub published_at : DateTime
  pub received_at : DateTime
  pub provider : String

-- the queries of the repositories
pub record Repositories (D : Type 0) : Type 0 where
  pub get_by_symbol : String → Option SecurityRow
  pub get_latest_bar : String → Option (BarRow D)
  pub get_latest_quote : String → Option (QuoteRow D)
  pub get_recent_trades : String → ℕ → List (TradeRow D)
  pub get_recent_news : List String → ℕ → List NewsRow

pub record MarketSnapshot (D F : Type 0) : Type 0 where
  pub symbol : String
  pub generated_at : DateTime
  pub market : List (String × MarketValue D F)
  pub news : List (NewsArticle DateTime)
  pub data_quality : List MarketDataStatus

-- `if state is FreshnessState.MISSING: status.detail = "no data ingested"`
unfoldable pub with_detail : FreshnessState × MarketDataStatus → MarketDataStatus
with_detail (missing, status) = record status { detail = some "no data ingested" }
with_detail (fresh, status) = status
with_detail (stale, status) = status
with_detail (invalid, status) = status

-- `_status`
unfoldable pub status_for : String → String → Option DateTime → DateTime → Outcome MarketDataStatus
status_for datatype symbol event_time now =
    for_datatype (load_thresholds_from_settings none) datatype >>= λ threshold.
    returns (with_detail (evaluate_freshness event_time now threshold symbol datatype))

-- `_require_tzaware`
unfoldable pub require_aware : DateTime → Outcome DateTime
require_aware t = if is_some t.utc_offset then returns t else raises "ValidationError"

-- `_news_schema`
unfoldable pub news_schema : NewsRow → Outcome (NewsArticle DateTime)
news_schema n =
    if str_eq n.headline ""
    then raises "ValidationError"
    else require_aware n.published_at >>= λ published_at.
        require_aware n.received_at >>= λ received_at. returns record {
          provider_article_id = n.provider_article_id;
          headline = n.headline;
          summary = n.summary;
          source = n.source;
          url = n.url;
          symbols = map upper n.symbols;
          published_at = published_at;
          provider_info = record { provider = n.provider; feed = none; raw_record_id = none };
          received_at = received_at;
        }

-- `[_news_schema(n) for n in news]`
unfoldable pub news_schemas : List NewsRow → Outcome (List (NewsArticle DateTime))
news_schemas [] = returns []
news_schemas (n ∷ rows) =
    news_schema n >>= λ article. news_schemas rows >>= λ articles. returns (article ∷ articles)
