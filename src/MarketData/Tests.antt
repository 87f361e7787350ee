-- ===== src/MarketData/Tests.antt =====
-- Runs of the market data services (services/market_data).
use Prim.Native.String.{String}
use agnostix_ai_quant_fund.Prelude.{
  arith, ℕ, ◌≡◌, ◌↔◌, refl, sym, Option, some, none, List, [], ◌∷◌, if◌then◌else◌, leb, ltb,
}
use agnostix_ai_quant_fund.Prelude.Int.{ℤ, pos}
use agnostix_ai_quant_fund.Number.Micro.{micro, Micro-IsOrdered}
use agnostix_ai_quant_fund.Prelude.Text.{str_eq, eq_iff, show}
use agnostix_ai_quant_fund.Prelude.Outcome.{returns, returns-injective}
use agnostix_ai_quant_fund.Prelude.Dicts.{lookup, assign, lookup-assign_same, lookup-assign_other}
use agnostix_ai_quant_fund.MarketData.Cache.{default_ttl, dict, Json, Redis, get_json}
use agnostix_ai_quant_fund.MarketData.Cache.Refined.{
  Call, get, set, deadline, IsServer, run, replay, run-replay,
}
use agnostix_ai_quant_fund.MarketData.{
  DateTime, FreshnessState, fresh, stale, MarketDataStatus, Bar,
}
use agnostix_ai_quant_fund.MarketData.Validation.{validate_bar}
use agnostix_ai_quant_fund.MarketData.Validation.Valid.{IsConsistent, validate_bar_iff}

abbrev at : ℕ → DateTime
at n = record { clock = pos n; utc_offset = some (pos 0) }

abbrev status : FreshnessState → MarketDataStatus
status s = record {
  datatype = "bars";
  symbol = "SPY";
  state = s;
  as_of = none;
  age_seconds = none;
  threshold_seconds = none;
  detail = none;
}

abbrev reports : List MarketDataStatus
reports = status fresh ∷ status stale ∷ status fresh ∷ []

abbrev bar : Bar ℤ
bar = record {
  event_time = 0;
  open_price = pos 10;
  high = pos 12;
  low = pos 9;
  close = pos 11;
  volume = pos 100;
}

validate_bar_iff_example : (validate_bar 0 bar ≡ []) ↔ IsConsistent 0 bar
validate_bar_iff_example = validate_bar_iff Micro-IsOrdered 0 bar

-- small numbers are a problem
abbrev validator : ℕ → List String
validator n = if leb n 3 then "small" ∷ [] else []

-- an entry of the cache: a dictionary of texts
abbrev Entry : Type 0
Entry = List (String × String)

abbrev json : Json Entry String
json = record { loads = λ entry. returns (dict entry); dumps = λ entry. entry; of_text = λ s. s }

abbrev Stored : Type 0
Stored = List (String × (Entry × ℕ))

abbrev alive : ℕ → Option (Entry × ℕ) → Option Entry
alive now none = none
alive now (some (raw, until)) = if ltb now until then some raw else none

abbrev redis : Redis Entry Stored
redis = record {
  fetch = λ now s key. returns (alive now (lookup str_eq s key));
  put = λ now s key raw ttl. returns (assign str_eq s key (raw, deadline now ttl));
}

redis-IsServer : IsServer Entry Stored redis
redis-IsServer = record {
  put_total = λ now s key raw ttl pos. (assign str_eq s key (raw, deadline now ttl), refl);
  fetch_same = λ now s key raw ttl s' done later le.
      rw
        (
          sym (returns-injective done),
          lookup-assign_same str_eq s key (raw, deadline now ttl) eq_iff,
        )
        refl;
  fetch_other = λ now s key raw ttl s' done later other le h.
      rw
        (
          sym (returns-injective done),
          lookup-assign_other str_eq s key other (raw, deadline now ttl) eq_iff h,
        )
        refl;
}

-- a quote that is cached for a minute, read in time, and read too late
abbrev calls : List (ℕ × Call String)
calls =
    (5, get "m1:quotes:SPY")
    ∷ (6, set "m1:quotes:SPY" "101" default_ttl)
    ∷ (60_000_005, get "m1:quotes:SPY")
    ∷ (60_000_006, get "m1:quotes:SPY")
    ∷ []

run-replay_example : run json show redis [] calls ≡ returns (replay (λ _. none) calls)
unfolding get_json lookup
run-replay_example =
    run-replay json show redis redis-IsServer (λ entry. refl) 0 [] (λ _. none) calls
      (λ t key le. refl) (omega arith, (omega arith, omega arith, (omega arith, (omega arith, tt))))

replay_calls : replay (λ _. none) calls ≡ none ∷ some "101" ∷ none ∷ []
unfolding replay
replay_calls = refl
