-- ===== src/MarketData/Snapshot/Tests.antt =====
-- Runs of the snapshot builder (services/market_data/snapshot.py).
use Prim.Native.String.{String}
use agnostix_ai_quant_fund.Prelude.{ℕ, ◌≡◌, ◌↔◌, refl, some, none, [], ◌∷◌}
use agnostix_ai_quant_fund.Prelude.Int.{pos}
use agnostix_ai_quant_fund.Prelude.Outcome.{returns}
use agnostix_ai_quant_fund.MarketData.{DateTime, fresh, overall_state}
use agnostix_ai_quant_fund.MarketData.Snapshot.{NewsRow, Repositories, MarketSnapshot}
use agnostix_ai_quant_fund.MarketData.Snapshot.Builder.{build_snapshot}
use agnostix_ai_quant_fund.MarketData.Snapshot.Builder.Fresh.{IsCurrent, build_snapshot_fresh}
use agnostix_ai_quant_fund.MarketData.Snapshot.Summary.{snapshot_research_summary}
use agnostix_ai_quant_fund.MarketData.Snapshot.Summary.Reproducible.{states, summary_reproducible}

abbrev at : ℕ → DateTime
at n = record { clock = pos n; utc_offset = some (pos 0) }

abbrev article : NewsRow
article = record {
  provider_article_id = "a1";
  headline = "Results";
  summary = none;
  source = none;
  url = none;
  symbols = "spy" ∷ [];
  published_at = at 1;
  received_at = at 2;
  provider = "alpaca";
}

abbrev db : Repositories ℕ
db = record {
  get_by_symbol = λ s. none;
  get_latest_bar = λ s. some record {
    event_time = at 1;
    open_price = 10;
    high = 12;
    low = 9;
    close = 11;
    volume = 100;
    provider = "alpaca";
    received_at = at 2;
  };
  get_latest_quote = λ s. some record {
    event_time = at 3;
    bid_price = some 10;
    ask_price = none;
    last_price = none;
    provider = "alpaca";
    received_at = at 4;
  };
  get_recent_trades = λ s n. [];
  get_recent_news = λ s n. article ∷ [];
}

build_snapshot_fresh_example :
    (snapshot : MarketSnapshot ℕ ℕ) × (build_snapshot ℕ db (at 0) "spy" (some (at 9))
      ≡ returns snapshot)
    × ((overall_state snapshot.data_quality ≡ fresh) ↔ IsCurrent ℕ db (at 0) "SPY" (at 9))
build_snapshot_fresh_example =
    build_snapshot_fresh ℕ db (at 0) "spy" (at 9) refl ((refl, refl, refl), tt)

abbrev iso : DateTime → String
iso t = "2026-01-01T00:00:00+00:00"

summary_reproducible_example :
    (a b : MarketSnapshot ℕ ℕ) × (build_snapshot ℕ db (at 0) "spy" (some (at 9)) ≡ returns a)
    × (build_snapshot ℕ db (at 0) "spy" (some (at 10)) ≡ returns b)
    × (states a.data_quality ≡ states b.data_quality
        → snapshot_research_summary iso (λ x. x) a ≡ snapshot_research_summary iso (λ x. x) b)
summary_reproducible_example =
    summary_reproducible iso (λ x. x) db (at 0) "spy" (at 9) (at 10) refl refl
      ((refl, refl, refl), tt)
