-- ===== src/Options/Market/Enrich.antt =====
-- `enrich_quote` (services/options/market.py) never touches what the market said.
use agnostix_ai_quant_fund.Prelude.{ℕ, ◌≡◌, refl, inl, inr, Option, none, some, Bool-cases}
use agnostix_ai_quant_fund.Prelude.Outcome.{returns, >>=-eq-returns, returns-injective}
use agnostix_ai_quant_fund.Number.{Float, nought}
use agnostix_ai_quant_fund.Options.{OptionType, Greeks, OptionQuote}
use agnostix_ai_quant_fund.Options.Quotes.{mid}
use agnostix_ai_quant_fund.Options.Pricing.{greeks}
use agnostix_ai_quant_fund.Options.Market.{first_of, implied_or, fill, filled, tte, enrich_quote}

-- a value that was there is there still
abbrev pub Keeps {ℓ} : {A : Type ℓ} → Option A → Option A → Type ℓ
Keeps none y = Unit
Keeps (some a) y = y ≡ some a

module _ {W : Type 0} ⦃num : Float W⦄ where
  pub record SameMarket (q r : OptionQuote W) : Type 0 where
    pub symbol : r.symbol ≡ q.symbol
    pub strike : r.strike ≡ q.strike
    pub bid : r.bid ≡ q.bid
    pub ask : r.ask ≡ q.ask
    pub last : r.last ≡ q.last
    pub open_interest : r.open_interest ≡ q.open_interest
    pub volume : r.volume ≡ q.volume
    pub delta : Keeps q.delta r.delta
    pub gamma : Keeps q.gamma r.gamma
    pub theta : Keeps q.theta r.theta
    pub vega : Keeps q.vega r.vega

  Keeps-refl : (x : Option W) → Keeps x x
  Keeps-refl none = tt
  Keeps-refl (some a) = refl

  Keeps-first : (x : Option W) (d : W) → Keeps x (some (first_of x d))
  Keeps-first none d = tt
  Keeps-first (some a) d = refl

  SameMarket-refl : (q : OptionQuote W) → SameMarket q q
  SameMarket-refl q = record {
    symbol = refl;
    strike = refl;
    bid = refl;
    ask = refl;
    last = refl;
    open_interest = refl;
    volume = refl;
    delta = Keeps-refl q.delta;
    gamma = Keeps-refl q.gamma;
    theta = Keeps-refl q.theta;
    vega = Keeps-refl q.vega;
  }

  SameMarket-fill : (q : OptionQuote W) (iv : W) (g : Greeks W) → SameMarket q (fill q iv g)
  unfolding fill
  SameMarket-fill q iv g = record {
    symbol = refl;
    strike = refl;
    bid = refl;
    ask = refl;
    last = refl;
    open_interest = refl;
    volume = refl;
    delta = Keeps-first q.delta g.delta;
    gamma = Keeps-first q.gamma g.gamma;
    theta = Keeps-first q.theta g.theta;
    vega = Keeps-first q.vega g.vega;
  }

  filled_same :
      (q : OptionQuote W) (spot strike t rate : W) (type : OptionType) (iv : Option W)
      {r : OptionQuote W}
      → filled q spot strike t rate type iv ≡ returns r
      → SameMarket q r
  unfolding filled
  filled_same q spot strike t rate type none e = rw (← returns-injective e) (SameMarket-refl q)
  filled_same q spot strike t rate type (some iv) e = elim (Bool-cases (num.lt nought iv)) [
    | inl p ↦
        let (g, made, last) =
          >>=-eq-returns (greeks spot strike t rate iv type) (λ g. returns (fill q iv g))
            (rw p at e) in
        rw (← returns-injective last) (SameMarket-fill q iv g)
    | inr p ↦ rw (← returns-injective (rw p at e)) (SameMarket-refl q)
  ]

  -- What `enrich_quote` returns has the symbol, strike, bid, ask, last price, open interest and
  -- volume of the quote, and each of delta, gamma, theta and vega that the quote had.
  pub enrich_quote-SameMarket :
      (now : ℕ) (q : OptionQuote W) (spot strike : W) (expiration : ℕ) (type : OptionType)
      (rate : W) {r : OptionQuote W}
      → enrich_quote now q spot strike expiration type rate ≡ returns r
      → SameMarket q r
  unfolding enrich_quote
  enrich_quote-SameMarket now q spot strike expiration type rate e =
      let (iv, found, rest) =
        >>=-eq-returns
          (implied_or (mid q) q.implied_volatility spot strike (tte expiration now) rate type) _
          e in
      filled_same q spot strike (tte expiration now) rate type iv rest
