-- ===== src/MarketData/Snapshot/Summary.antt =====
-- services/market_data/snapshot.py: the projections for the context of the research. The text of a
-- time and the float of a decimal are parameters.
pub mod Reproducible
use Prim.Native.String.{String}
use agnostix_ai_quant_fund.Prelude.{
  ℕ, Option, none, some, List, [], ◌∷◌, map, length, if◌then◌else◌,
}
use agnostix_ai_quant_fund.Prelude.Text.{str_eq}
use agnostix_ai_quant_fund.Prelude.Outcome.{Outcome, returns, raises, ◌>>=◌}
use agnostix_ai_quant_fund.Prelude.Int.{ℤ}
use agnostix_ai_quant_fund.MarketData.{
  DateTime, FreshnessState, fresh, stale, missing, invalid, MarketDataStatus, NewsArticle,
  overall_state,
}
use agnostix_ai_quant_fund.MarketData.Snapshot.{
  Cell, time, decimal, number, text, null, Block, MarketValue, block, blocks, MarketSnapshot,
}

-- the value of a `FreshnessState`
abbrev state_value : FreshnessState → String
state_value fresh = "fresh"
state_value stale = "stale"
state_value missing = "missing"
state_value invalid = "invalid"

-- the dictionary of a status
pub record StatusSummary : Type 0 where
  pub datatype : String
  pub state : String
  pub as_of : Option String
  pub threshold_seconds : Option ℤ
  pub detail : Option String

-- a value of `market` in the summary: a count or a block
pub data MarketSummary (D F : Type 0) : Type 0 where
  count : ℕ → MarketSummary D F
  projected : Block D F → MarketSummary D F

pub record SnapshotSummary (D F : Type 0) : Type 0 where
  pub symbol : String
  pub overall_state : String
  pub data_quality : List StatusSummary
  pub market : List (String × MarketSummary D F)

-- the dictionary of an article
pub record NewsItem : Type 0 where
  pub provider_article_id : String
  pub headline : String
  pub summary : Option String
  pub source : Option String
  pub url : Option String
  pub symbols : List String
  pub published_at : DateTime
  pub received_at : DateTime
  pub provider : String

-- `context_news_items`
pub context_news_items : List (NewsArticle DateTime) → List NewsItem
context_news_items = map (λ a. record {
  provider_article_id = a.provider_article_id;
  headline = a.headline;
  summary = a.summary;
  source = a.source;
  url = a.url;
  symbols = a.symbols;
  published_at = a.published_at;
  received_at = a.received_at;
  provider = a.provider_info.provider;
})

abbrev iso_of : (DateTime → String) → Option DateTime → Option String
iso_of isoformat none = none
iso_of isoformat (some t) = some (isoformat t)

unfoldable pub status_summary : (DateTime → String) → MarketDataStatus → StatusSummary
status_summary isoformat s = record {
  datatype = s.datatype;
  state = state_value s.state;
  as_of = iso_of isoformat s.as_of;
  threshold_seconds = s.threshold_seconds;
  detail = s.detail;
}

module _ {D F : Type 0} (isoformat : DateTime → String) (to_float : D → F) where
  -- `_jsonable`
  unfoldable pub jsonable : Cell D F → Cell D F
  jsonable (time t) = text (isoformat t)
  jsonable (decimal d) = number (to_float d)
  jsonable (number x) = number x
  jsonable (text s) = text s
  jsonable null = null

  -- `_block`, which raises on a list
  unfoldable pub project_block : MarketValue D F → Outcome (MarketSummary D F)
  project_block (block b) = returns (projected (map (λ (k, v). (k, jsonable v)) b))
  project_block (blocks bs) = raises "AttributeError"

  -- `len(value)`
  unfoldable pub size_of : MarketValue D F → ℕ
  size_of (block b) = length b
  size_of (blocks bs) = length bs

  -- the loop over `snapshot.market`, whose keys differ; none is "recent_trades_count"
  unfoldable pub project_market :
      List (String × MarketValue D F) → Outcome (List (String × MarketSummary D F))
  project_market [] = returns []
  project_market ((key, value) ∷ rest) =
      let later = project_market rest in
      if str_eq key "recent_trades"
      then (later >>= λ market. returns (("recent_trades_count", count (size_of value)) ∷ market))
      else (project_block value >>= λ b. later >>= λ market. returns ((key, b) ∷ market))

  unfoldable pub snapshot_research_summary : MarketSnapshot D F → Outcome (SnapshotSummary D F)
  snapshot_research_summary snapshot = project_market snapshot.market >>= λ market. returns record {
    symbol = snapshot.symbol;
    overall_state = state_value (overall_state snapshot.data_quality);
    data_quality = map (status_summary isoformat) snapshot.data_quality;
    market = market;
  }
