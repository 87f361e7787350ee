-- ===== src/Trading/Agent/Context.antt =====
-- services/trading/agent.py: the market context and the signal.
pub mod Expiry
pub mod Picks
pub mod Tests
use Prim.Native.String.{String}
use agnostix_ai_quant_fund.Prelude.{
  ℕ, ◌+◌, ◌-◌, ◌/◌, Bool, true, false, not, ◌&&◌, Option, none, some, List, [], ◌∷◌, ◌++◌, map, any,
  filter, length, leb, ltb, ◌==◌, if◌then◌else◌,
}
use agnostix_ai_quant_fund.Prelude.Text.{str_eq, lower, strip}
use agnostix_ai_quant_fund.Prelude.Outcome.{Outcome, returns, ◌>>=◌}
use agnostix_ai_quant_fund.Number.{Float}
use agnostix_ai_quant_fund.Options.{OptionType, OptionContract, OptionQuote, OptionChain}
use agnostix_ai_quant_fund.Options.Quotes.{day}
use agnostix_ai_quant_fund.Options.Pricing.{is_call}
use agnostix_ai_quant_fund.Options.Market.{enrich_quote, realized_volatility, volatility_rank}
use agnostix_ai_quant_fund.Trading.{SignalDirection, bullish, bearish, neutral, abstain}
use agnostix_ai_quant_fund.Trading.Agent.{AgentConfig, MarketContext, Services}

-- `value in (...)`
abbrev is_one_of : String → List String → Bool
is_one_of value = any (str_eq value)

-- `_to_direction`
pub to_direction : String → SignalDirection
to_direction raw =
    let value = lower (strip raw) in
    if is_one_of value ("bull" ∷ "bullish" ∷ "long" ∷ [])
    then bullish
    else if is_one_of value ("bear" ∷ "bearish" ∷ "short" ∷ [])
    then bearish
    else if is_one_of value ("neutral" ∷ "sideways" ∷ "range" ∷ [])
    then neutral
    else abstain

-- `min_dte <= (expiration - now).days <= max_dte`; the days of a past expiration are negative
unfoldable pub in_range : ℕ → ℕ → ℕ → ℕ → Bool
in_range now min_dte max_dte expiration =
    let dte = (expiration - now) / day in leb now expiration && leb min_dte dte && leb dte max_dte

-- the item that `sorted` puts first
earliest : ℕ → List ℕ → ℕ
earliest e [] = e
earliest e (x ∷ xs) = earliest (Prim.Native.Nat.min e x) xs

-- `sorted(candidates)[0]`, or `None`
first_expiration : List ℕ → Option ℕ
first_expiration [] = none
first_expiration (e ∷ es) = some (earliest e es)

module _ {W : Type 0} where
  -- the distinct expirations in the window, after those in `seen`
  candidates : ℕ → ℕ → ℕ → List ℕ → List (OptionContract W) → List ℕ
  candidates now min_dte max_dte seen [] = []
  candidates now min_dte max_dte seen (c ∷ cs) =
      let skipped = candidates now min_dte max_dte seen cs in
      let taken = c.expiration ∷ candidates now min_dte max_dte (c.expiration ∷ seen) cs in
      if in_range now min_dte max_dte c.expiration && not (any (λ e. e == c.expiration) seen)
      then taken
      else skipped

  pub select_expiration : ℕ → List (OptionContract W) → ℕ → ℕ → Option ℕ
  select_expiration now contracts min_dte max_dte =
      first_expiration (candidates now min_dte max_dte [] contracts)

  -- `raw_quotes.get(symbol)`
  get_quote : List (String × OptionQuote W) → String → Option (OptionQuote W)
  get_quote [] symbol = none
  get_quote ((k, q) ∷ rest) symbol =
      let later = get_quote rest symbol in if str_eq k symbol then some q else later

-- `MIN_TRADEABLE_QUOTES`
abbrev min_tradeable_quotes : ℕ
min_tradeable_quotes = 3

abbrev Sides : Type 0 → Type 0
Sides W = List (OptionQuote W) × List (OptionQuote W)

module _ {W : Type 0} ⦃num : Float W⦄ where
  -- a quote goes to the calls or to the puts
  abbrev add_to : OptionType → OptionQuote W → Sides W → Sides W
  add_to type q (calls, puts) = if is_call type then (q ∷ calls, puts) else (calls, q ∷ puts)

  -- the loop of `_build_chain`
  gather : W → ℕ → W → List (String × OptionQuote W) → List (OptionContract W) → Outcome (Sides W)
  gather rate now spot quotes [] = returns ([], [])
  gather rate now spot quotes (c ∷ cs) = elim (get_quote quotes c.symbol) [
    | none ↦ gather rate now spot quotes cs
    | some q ↦ do
      enriched ← enrich_quote now q spot c.strike c.expiration c.option_type rate
      sides ← gather rate now spot quotes cs
      returns (add_to c.option_type enriched sides)
  ]

  -- the chain, where there are enough quotes
  chain_of : String → W → ℕ → Sides W → Option (OptionChain W)
  chain_of symbol spot expiration (calls, puts) =
      if ltb (length calls + length puts) min_tradeable_quotes
      then none
      else some (record {
        underlying = symbol;
        underlying_price = some spot;
        expiration = expiration;
        calls = calls;
        puts = puts;
      })

  abbrev symbols_of : Bool → List (OptionContract W) → List String
  symbols_of calls cs =
      map (λ c. c.symbol)
        (filter (λ c. if calls then is_call c.option_type else not (is_call c.option_type)) cs)

module _ {W J : Type 0} ⦃num : Float W⦄ (config : AgentConfig W) (services : Services W J) where
  build_chain :
      ℕ → String → Option W → List (OptionContract W) → Option ℕ → Outcome (Option (OptionChain W))
  build_chain now symbol (some spot) contracts (some expiration) =
      let selected = filter (λ c. c.expiration == expiration) contracts in
      (do
        quotes ← services.get_option_quotes (symbols_of true selected ++ symbols_of false selected)
        sides ← gather config.rate now spot quotes selected
        returns (chain_of symbol spot expiration sides))
  build_chain now symbol _ contracts _ = returns none

  -- the price of the underlying, or the last one of the history
  abbrev last_of : List W → Option W
  last_of [] = none
  last_of (x ∷ []) = some x
  last_of (x ∷ y ∷ ys) = last_of (y ∷ ys)

  abbrev spot_of : Option W → List W → Option W
  spot_of none history = last_of history
  spot_of (some x) history = some x

  pub market_context : ℕ → String → Outcome (MarketContext W)
  market_context now symbol = do
    price ← services.get_underlying_price symbol
    history ← services.history symbol
    contracts ← services.get_option_contracts symbol config.min_dte config.max_dte
    chain ←
        build_chain now symbol (spot_of price history) contracts
          (select_expiration now contracts config.min_dte config.max_dte)
    returns (record {
      spot = spot_of price history;
      realized_vol = realized_volatility history 30 252;
      vol_rank = volatility_rank (realized_volatility history 30 252) history 30 252 24;
      expiration = select_expiration now contracts config.min_dte config.max_dte;
      chain = chain;
      history = history;
    })
