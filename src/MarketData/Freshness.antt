-- ===== src/MarketData/Freshness.antt =====
-- services/market_data/freshness.py: how the newest record of a datatype is classified.
pub mod States
use Prim.Native.String.{String}
use agnostix_ai_quant_fund.Prelude.{
  ℕ, ◌≤◌, ◌≡◌, ◌≢◌, ◌↔◌, ◌⊎◌, inl, inr, refl, Bool, true, false, Option, none, some, List, [], ◌∷◌,
  All, ltb, arith, Bool-cases, if◌then◌else◌,
}
use agnostix_ai_quant_fund.Prelude.Text.{str_eq}
use agnostix_ai_quant_fund.Prelude.Dicts.{lookup}
use agnostix_ai_quant_fund.Prelude.Outcome.{Outcome, returns, raises}
use agnostix_ai_quant_fund.Prelude.Int.{
  ℤ, pos, negsuc, pos_part, neg_part, ◌+ℤ◌, ◌-ℤ◌, ◌≤ℤ◌, leb_ℤ, ltb_ℤ, int_laws,
}
use agnostix_ai_quant_fund.MarketData.{
  DateTime, FreshnessState, fresh, stale, missing, invalid, severity, MarketDataStatus, worst_from,
  overall_state,
}

pub record FreshnessThresholds : Type 0 where
  pub bars_seconds : ℤ
  pub quotes_seconds : ℤ
  pub trades_seconds : ℤ
  pub news_seconds : ℤ
  pub security_metadata_seconds : ℤ

-- the defaults, in microseconds
abbrev pub default_thresholds : FreshnessThresholds
default_thresholds = record {
  bars_seconds = pos 86_400_000_000;
  quotes_seconds = pos 60_000_000;
  trades_seconds = pos 300_000_000;
  news_seconds = pos 21_600_000_000;
  security_metadata_seconds = pos 604_800_000_000;
}

-- the value of a setting, or its default
abbrev setting : List (String × ℤ) → String → ℤ → ℤ
setting raw key default = given (lookup str_eq raw key)
  where
    given : Option ℤ → ℤ
    given none = default
    given (some seconds) = seconds

-- a dictionary that is empty sets nothing either
unfoldable pub load_thresholds_from_settings : Option (List (String × ℤ)) → FreshnessThresholds
load_thresholds_from_settings none = default_thresholds
load_thresholds_from_settings (some raw) = record {
  bars_seconds = setting raw "bars_seconds" default_thresholds.bars_seconds;
  quotes_seconds = setting raw "quotes_seconds" default_thresholds.quotes_seconds;
  trades_seconds = setting raw "trades_seconds" default_thresholds.trades_seconds;
  news_seconds = setting raw "news_seconds" default_thresholds.news_seconds;
  security_metadata_seconds =
      setting raw "security_metadata_seconds" default_thresholds.security_metadata_seconds;
}

unfoldable pub for_datatype : FreshnessThresholds → String → Outcome ℤ
for_datatype t datatype =
    if str_eq datatype "bars"
    then returns t.bars_seconds
    else if str_eq datatype "quotes"
    then returns t.quotes_seconds
    else if str_eq datatype "trades"
    then returns t.trades_seconds
    else if str_eq datatype "news"
    then returns t.news_seconds
    else if str_eq datatype "security_metadata"
    then returns t.security_metadata_seconds
    else raises "ValueError"

-- the offset of `now`, or that of the record where `now` is naive
abbrev offset_or : Option ℤ → ℤ → ℤ
offset_or none d = d
offset_or (some o) d = o

-- `(now_aware - newest_event_time).total_seconds()`
abbrev pub age_of : DateTime → ℤ → ℤ → ℤ
age_of now clock offset = (now.clock -ℤ offset_or now.utc_offset offset) -ℤ (clock -ℤ offset)

abbrev status_of :
    String
    → String
    → ℤ
    → FreshnessState
    → Option DateTime
    → Option ℤ
    → Option String
    → FreshnessState × MarketDataStatus
status_of symbol datatype threshold state as_of age detail = (
  state,
  record {
    datatype = datatype;
    symbol = symbol;
    state = state;
    as_of = as_of;
    age_seconds = age;
    threshold_seconds = some threshold;
    detail = detail;
  },
)

aged : String → String → ℤ → DateTime → ℤ → FreshnessState × MarketDataStatus
aged symbol datatype threshold newest age =
    status_of symbol datatype threshold (if leb_ℤ age threshold then fresh else stale) (some newest)
      (some (if ltb_ℤ age (pos 0) then pos 0 else age)) none

dated : String → String → ℤ → DateTime → DateTime → Option ℤ → FreshnessState × MarketDataStatus
dated symbol datatype threshold now newest none =
    status_of symbol datatype threshold invalid none none (some "event_time is timezone-naive")
dated symbol datatype threshold now newest (some offset) =
    aged symbol datatype threshold newest (age_of now newest.clock offset)

pub evaluate_freshness :
    Option DateTime → DateTime → ℤ → String → String → FreshnessState × MarketDataStatus
evaluate_freshness none now threshold symbol datatype =
    status_of symbol datatype threshold missing none none (some "no records available")
evaluate_freshness (some newest) now threshold symbol datatype =
    dated symbol datatype threshold now newest newest.utc_offset
