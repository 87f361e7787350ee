-- ===== src/MarketData/Snapshot/Builder/Fresh.antt =====
-- When a snapshot is there, and when it is fresh (services/market_data/snapshot.py).
use Prim.Native.String.{String}
use agnostix_ai_quant_fund.Prelude.{
  ◌≡◌, ◌↔◌, ◌∙◌, sym, refl, true, false, Option, some, List, [], ◌∷◌, All, is_some,
}
use agnostix_ai_quant_fund.Prelude.Text.{str_eq, upper}
use agnostix_ai_quant_fund.Prelude.Outcome.{returns}
use agnostix_ai_quant_fund.Prelude.Int.{ℤ}
use agnostix_ai_quant_fund.MarketData.{
  DateTime, FreshnessState, fresh, stale, missing, invalid, MarketDataStatus, NewsArticle,
  overall_state,
}
use agnostix_ai_quant_fund.MarketData.Freshness.{
  for_datatype, load_thresholds_from_settings, default_thresholds, evaluate_freshness,
}
use agnostix_ai_quant_fund.MarketData.Freshness.States.{
  IsRecent, fresh_iff, overall_state_fresh, evaluate_freshness-state,
}
use agnostix_ai_quant_fund.MarketData.Snapshot.{
  BarRow, QuoteRow, TradeRow, NewsRow, Repositories, MarketSnapshot, with_detail, status_for,
  require_aware, news_schema, news_schemas,
}
use agnostix_ai_quant_fund.MarketData.Snapshot.Builder.{
  bar_time, quote_time, trade_time, news_time, data_quality_of, market_of, snapshot_at,
  build_snapshot,
}

with_detail_state : (p : FreshnessState × MarketDataStatus) → (with_detail p).state ≡ p.1.state
unfolding with_detail
with_detail_state (fresh, s) = refl
with_detail_state (stale, s) = refl
with_detail_state (missing, s) = refl
with_detail_state (invalid, s) = refl

-- the status of a datatype at a threshold
abbrev pub status_at : String → ℤ → String → Option DateTime → DateTime → MarketDataStatus
status_at datatype threshold symbol event_time now =
    with_detail (evaluate_freshness event_time now threshold symbol datatype)

pub status_state :
    (datatype : String) (threshold : ℤ) (symbol : String) (event_time : Option DateTime)
    (now : DateTime)
    → (status_at datatype threshold symbol event_time now).state
      ≡ (evaluate_freshness event_time now threshold symbol datatype).0
status_state datatype threshold symbol event_time now =
    with_detail_state (evaluate_freshness event_time now threshold symbol datatype)
    ∙ evaluate_freshness-state event_time now threshold symbol datatype

status_fresh :
    (datatype : String) (threshold : ℤ) (symbol : String) (event_time : Option DateTime)
    (now : DateTime)
    → ((status_at datatype threshold symbol event_time now).state ≡ fresh)
      ↔ IsRecent event_time now threshold
status_fresh datatype threshold symbol event_time now =
    let same = status_state datatype threshold symbol event_time now in
    let iff = fresh_iff event_time now threshold symbol datatype in
    (λ h. iff.0 (sym same ∙ h), λ h. same ∙ iff.1 h)

module _ {D : Type 0} where
  -- the four statuses, at the default thresholds
  abbrev pub statuses :
      String
      → DateTime
      → Option (BarRow D)
      → Option (QuoteRow D)
      → List (TradeRow D)
      → List NewsRow
      → List MarketDataStatus
  statuses symbol now bar quote trades news =
      status_at "bars" default_thresholds.bars_seconds symbol (bar_time bar) now
      ∷ status_at "quotes" default_thresholds.quotes_seconds symbol (quote_time quote) now
      ∷ status_at "trades" default_thresholds.trades_seconds symbol (trade_time trades) now
      ∷ status_at "news" default_thresholds.news_seconds symbol (news_time news) now
      ∷ []

  pub data_quality_statuses :
      (symbol : String) (now : DateTime) (bar : Option (BarRow D)) (quote : Option (QuoteRow D))
      (trades : List (TradeRow D)) (news : List NewsRow)
      → data_quality_of symbol now bar quote trades news
        ≡ returns (statuses symbol now bar quote trades news)
  unfolding data_quality_of status_for for_datatype load_thresholds_from_settings
  data_quality_statuses symbol now bar quote trades news = refl

  statuses_fresh :
      (symbol : String) (now : DateTime) (bar : Option (BarRow D)) (quote : Option (QuoteRow D))
      (trades : List (TradeRow D)) (news : List NewsRow)
      → (overall_state (statuses symbol now bar quote trades news) ≡ fresh) ↔ (
          IsRecent (bar_time bar) now default_thresholds.bars_seconds
          × IsRecent (quote_time quote) now default_thresholds.quotes_seconds
          × IsRecent (trade_time trades) now default_thresholds.trades_seconds
          × IsRecent (news_time news) now default_thresholds.news_seconds)
  statuses_fresh symbol now bar quote trades news =
      let all = overall_state_fresh (statuses symbol now bar quote trades news) in
      let t = default_thresholds in
      let b = status_fresh "bars" t.bars_seconds symbol (bar_time bar) now in
      let q = status_fresh "quotes" t.quotes_seconds symbol (quote_time quote) now in
      let p = status_fresh "trades" t.trades_seconds symbol (trade_time trades) now in
      let n = status_fresh "news" t.news_seconds symbol (news_time news) now in
      (
        λ h. let (hb, (hq, (hp, (hn, _)))) = all.0 h in (b.0 hb, q.0 hq, p.0 hp, n.0 hn),
        λ (hb, hq, hp, hn). all.1 (b.1 hb, (q.1 hq, (p.1 hp, (n.1 hn, tt)))),
      )

-- the row makes an article: it has a headline and its times have a zone
abbrev pub IsArticle : NewsRow → Type 0
IsArticle n =
    (str_eq n.headline "" ≡ false)
    × (is_some n.published_at.utc_offset ≡ true)
    × (is_some n.received_at.utc_offset ≡ true)

pub news_schemas_total :
    (rows : List NewsRow)
    → All IsArticle rows
    → (articles : List (NewsArticle DateTime)) × (news_schemas rows ≡ returns articles)
unfolding news_schemas news_schema require_aware
news_schemas_total [] h = ([], refl)
news_schemas_total (n ∷ rows) ((headline, published, received), hs) =
    let (articles, made) = news_schemas_total rows hs in
    rw (headline, published, received, made) (_, refl)

module _ {D : Type 0} (F : Type 0) (db : Repositories D) (clock : DateTime) where
  -- the reports on the newest records of the symbol
  abbrev pub reports_of : String → DateTime → List MarketDataStatus
  reports_of symbol now =
      statuses symbol now (db.get_latest_bar symbol) (db.get_latest_quote symbol)
        (db.get_recent_trades symbol 20) (db.get_recent_news (symbol ∷ []) 10)

  abbrev pub snapshot_with : String → DateTime → List (NewsArticle DateTime) → MarketSnapshot D F
  snapshot_with symbol now articles = record {
    symbol = symbol;
    generated_at = now;
    market = market_of F db symbol;
    news = articles;
    data_quality = reports_of symbol now;
  }

  pub build_snapshot_total :
      (symbol : String) (now : DateTime)
      → is_some now.utc_offset ≡ true
      → All IsArticle (db.get_recent_news (upper symbol ∷ []) 10)
      → (articles : List (NewsArticle DateTime)) × (build_snapshot F db clock symbol (some now)
          ≡ returns (snapshot_with (upper symbol) now articles))
  unfolding build_snapshot snapshot_at require_aware
  build_snapshot_total symbol now aware valid =
      let s = upper symbol in
      let (articles, made) = news_schemas_total (db.get_recent_news (s ∷ []) 10) valid in
      rw
        (
          data_quality_statuses s now (db.get_latest_bar s) (db.get_latest_quote s)
              (db.get_recent_trades s 20) (db.get_recent_news (s ∷ []) 10),
          made,
          aware,
        )
        (articles, refl)

  -- the newest bar, quote, trade and article of the symbol are all recent
  abbrev pub IsCurrent : String → DateTime → Type 0
  IsCurrent symbol now =
      IsRecent (bar_time (db.get_latest_bar symbol)) now default_thresholds.bars_seconds
      × IsRecent (quote_time (db.get_latest_quote symbol)) now default_thresholds.quotes_seconds
      × IsRecent (trade_time (db.get_recent_trades symbol 20)) now default_thresholds.trades_seconds
      × IsRecent (news_time (db.get_recent_news (symbol ∷ []) 10)) now
          default_thresholds.news_seconds

  -- Where `now` has a zone and every stored article has a headline and times with zones,
  -- `build_snapshot` returns a snapshot, and its overall state is fresh exactly when the newest bar,
  -- quote, trade and article of the symbol in upper case are there, their zones known, and their ages
  -- at most a day, a minute, five minutes and six hours.
  pub build_snapshot_fresh :
      (symbol : String) (now : DateTime)
      → is_some now.utc_offset ≡ true
      → All IsArticle (db.get_recent_news (upper symbol ∷ []) 10)
      → (snapshot : MarketSnapshot D F) × (build_snapshot F db clock symbol (some now)
          ≡ returns snapshot)
        × ((overall_state snapshot.data_quality ≡ fresh) ↔ IsCurrent (upper symbol) now)
  build_snapshot_fresh symbol now aware valid =
      let (articles, built) = build_snapshot_total symbol now aware valid in
      (snapshot_with (upper symbol) now articles, built, statuses_fresh (upper symbol) now _ _ _ _)
