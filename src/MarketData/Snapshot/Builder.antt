-- ===== src/MarketData/Snapshot/Builder.antt =====
-- services/market_data/snapshot.py: `build_snapshot`. The clock is a parameter.
pub mod Fresh
use Prim.Native.String.{String}
use agnostix_ai_quant_fund.Prelude.{ℕ, Option, none, some, List, [], ◌∷◌, ◌++◌, map}
use agnostix_ai_quant_fund.Prelude.Text.{upper}
use agnostix_ai_quant_fund.Prelude.Outcome.{Outcome, returns, ◌>>=◌}
use agnostix_ai_quant_fund.MarketData.{DateTime, MarketDataStatus}
use agnostix_ai_quant_fund.MarketData.Snapshot.{
  Cell, time, decimal, text, null, Block, MarketValue, block, blocks, BarRow, QuoteRow, TradeRow,
  SecurityRow, NewsRow, Repositories, MarketSnapshot, status_for, require_aware, news_schemas,
}

-- the times of the newest records, where there are records
abbrev pub bar_time : {D : Type 0} → Option (BarRow D) → Option DateTime
bar_time none = none
bar_time (some b) = some b.event_time

abbrev pub quote_time : {D : Type 0} → Option (QuoteRow D) → Option DateTime
quote_time none = none
quote_time (some q) = some q.event_time

abbrev pub trade_time : {D : Type 0} → List (TradeRow D) → Option DateTime
trade_time [] = none
trade_time (t ∷ trades) = some t.event_time

abbrev pub news_time : List NewsRow → Option DateTime
news_time [] = none
news_time (n ∷ news) = some n.published_at

module _ {D : Type 0} (F : Type 0) where
  price_cell : Option D → Cell D F
  price_cell none = null
  price_cell (some p) = decimal p

  text_cell : Option String → Cell D F
  text_cell none = null
  text_cell (some t) = text t

  -- each adds its block to `market`
  bar_entry : Option (BarRow D) → List (String × MarketValue D F)
  bar_entry none = []
  bar_entry (some b) =
      (
        "latest_bar",
        block (
            ("event_time", time b.event_time)
            ∷ ("open", decimal b.open_price)
            ∷ ("high", decimal b.high)
            ∷ ("low", decimal b.low)
            ∷ ("close", decimal b.close)
            ∷ ("volume", decimal b.volume)
            ∷ ("provider", text b.provider)
            ∷ ("received_at", time b.received_at)
            ∷ []),
      )
      ∷ []

  quote_entry : Option (QuoteRow D) → List (String × MarketValue D F)
  quote_entry none = []
  quote_entry (some q) =
      (
        "quote",
        block (
            ("event_time", time q.event_time)
            ∷ ("bid_price", price_cell q.bid_price)
            ∷ ("ask_price", price_cell q.ask_price)
            ∷ ("last_price", price_cell q.last_price)
            ∷ ("provider", text q.provider)
            ∷ ("received_at", time q.received_at)
            ∷ []),
      )
      ∷ []

  trade_block : TradeRow D → Block D F
  trade_block t =
      ("event_time", time t.event_time)
      ∷ ("price", decimal t.price)
      ∷ ("size", decimal t.size)
      ∷ ("provider", text t.provider)
      ∷ ("received_at", time t.received_at)
      ∷ []

  trades_entry : List (TradeRow D) → List (String × MarketValue D F)
  trades_entry [] = []
  trades_entry (t ∷ trades) =
      ("recent_trades", blocks (trade_block t ∷ map trade_block trades)) ∷ []

  security_entry : Option SecurityRow → List (String × MarketValue D F)
  security_entry none = []
  security_entry (some s) =
      (
        "security",
        block (
            ("name", text_cell s.name)
            ∷ ("exchange", text_cell s.exchange)
            ∷ ("asset_class", text s.asset_class)
            ∷ ("status", text s.status)
            ∷ []),
      )
      ∷ []

-- the list of the four statuses
unfoldable pub data_quality_of :
    {D : Type 0}
    → String
    → DateTime
    → Option (BarRow D)
    → Option (QuoteRow D)
    → List (TradeRow D)
    → List NewsRow
    → Outcome (List MarketDataStatus)
data_quality_of symbol now latest_bar quote trades news =
    status_for "bars" symbol (bar_time latest_bar) now >>= λ bars.
    status_for "quotes" symbol (quote_time quote) now >>= λ quotes.
    status_for "trades" symbol (trade_time trades) now >>= λ prints.
    status_for "news" symbol (news_time news) now >>= λ articles.
    returns (bars ∷ quotes ∷ prints ∷ articles ∷ [])

-- `market`: the blocks of the rows that are there
pub market_of :
    {D : Type 0} (F : Type 0) → Repositories D → String → List (String × MarketValue D F)
market_of F db symbol =
    bar_entry F (db.get_latest_bar symbol)
    ++ quote_entry F (db.get_latest_quote symbol)
    ++ trades_entry F (db.get_recent_trades symbol 20)
    ++ security_entry F (db.get_by_symbol symbol)

module _ {D : Type 0} (F : Type 0) (db : Repositories D) (clock : DateTime) where
  -- the snapshot of a symbol in upper case at `now`
  unfoldable pub snapshot_at : String → DateTime → Outcome (MarketSnapshot D F)
  snapshot_at symbol now =
      let latest_bar = db.get_latest_bar symbol in
      let quote = db.get_latest_quote symbol in
      let trades = db.get_recent_trades symbol 20 in
      let news = db.get_recent_news (symbol ∷ []) 10 in
      data_quality_of symbol now latest_bar quote trades news >>= λ data_quality.
      news_schemas news >>= λ articles. require_aware now >>= λ generated_at. returns record {
        symbol = symbol;
        generated_at = generated_at;
        market = market_of F db symbol;
        news = articles;
        data_quality = data_quality;
      }

  -- `now`, or the time of the clock
  unfoldable pub build_snapshot : String → Option DateTime → Outcome (MarketSnapshot D F)
  build_snapshot symbol none = snapshot_at (upper symbol) clock
  build_snapshot symbol (some now) = snapshot_at (upper symbol) now
