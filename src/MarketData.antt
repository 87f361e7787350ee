-- ===== src/MarketData.antt =====
-- services/market_data: the records and their states (services/market_data/schemas.py), freshness
-- (services/market_data/freshness.py) and validation (services/market_data/validation.py). Times are
-- microseconds. A `datetime` is a reading of the clock with the offset of its zone, where it has one.
pub mod Freshness
pub mod Validation
pub mod Cache
pub mod Snapshot
mod Tests
use Prim.Native.String.{String}
use agnostix_ai_quant_fund.Prelude.{ℕ, Bool, Option, none, some, List, [], ◌∷◌, ltb, if◌then◌else◌}
use agnostix_ai_quant_fund.Prelude.Int.{ℤ}

pub record DateTime : Type 0 where
  pub clock : ℤ
  pub utc_offset : Option ℤ

pub data FreshnessState : Type 0 where
  fresh stale missing invalid : FreshnessState

-- `_FRESHNESS_SEVERITY`
unfoldable pub severity : FreshnessState → ℕ
severity missing = 3
severity invalid = 2
severity stale = 1
severity fresh = 0

pub record MarketDataStatus : Type 0 where
  pub datatype : String
  pub symbol : String
  pub state : FreshnessState
  pub as_of : Option DateTime
  pub age_seconds : Option ℤ
  pub threshold_seconds : Option ℤ
  pub detail : Option String

-- the fields of the bars, quotes and trades that validation reads; an article with times `T`
pub record Bar (W : Type 0) : Type 0 where
  pub event_time : ℕ
  pub open_price : W
  pub high : W
  pub low : W
  pub close : W
  pub volume : W

pub record Quote (W : Type 0) : Type 0 where
  pub event_time : ℕ
  pub bid_price : Option W
  pub ask_price : Option W

pub record Trade (W : Type 0) : Type 0 where
  pub event_time : ℕ
  pub price : W
  pub size : W

pub record ProviderInfo : Type 0 where
  pub provider : String
  pub feed : Option String
  pub raw_record_id : Option String

pub record NewsArticle (T : Type 0) : Type 0 where
  pub provider_article_id : String
  pub headline : String
  pub summary : Option String
  pub source : Option String
  pub url : Option String
  pub symbols : List String
  pub published_at : T
  pub provider_info : ProviderInfo
  pub received_at : T

-- the body of the loop of `MarketSnapshot.overall_state`
unfoldable pub worse : FreshnessState → FreshnessState → FreshnessState
worse worst state = if ltb (severity worst) (severity state) then state else worst

-- that loop, from the worst state so far
unfoldable pub worst_from : FreshnessState → List MarketDataStatus → FreshnessState
worst_from worst [] = worst
worst_from worst (s ∷ rest) = worst_from (worse worst s.state) rest

pub overall_state : List MarketDataStatus → FreshnessState
overall_state data_quality = worst_from fresh data_quality
