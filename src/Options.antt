-- ===== src/Options.antt =====
-- services/options/schemas.py: the contracts of the options domain. Python's `datetime` of an
-- expiration is a
-- number of microseconds.
pub mod Sorting
pub mod Quotes
pub mod Picked
pub mod Pricing
pub mod Iv
pub mod Market
pub mod Strategies
use Prim.Native.String.{String}
use agnostix_ai_quant_fund.Prelude.{ℕ, Bool, false, Option, none, some, List}
use agnostix_ai_quant_fund.Number.{Float, nought}

pub data OptionType : Type 0 where
  call put : OptionType

pub data OptionSide : Type 0 where
  buy_to_open sell_to_open buy_to_close sell_to_close : OptionSide

pub record Greeks (W : Type 0) : Type 0 where
  pub delta : W
  pub gamma : W
  pub theta : W
  pub vega : W
  pub rho : W

pub record OptionContract (W : Type 0) : Type 0 where
  pub symbol : String
  pub underlying : String
  pub option_type : OptionType
  pub strike : W
  pub expiration : ℕ
  pub root : Option String

pub record OptionQuote (W : Type 0) : Type 0 where
  pub symbol : String
  pub strike : W
  pub bid : Option W
  pub ask : Option W
  pub last : Option W
  pub implied_volatility : Option W
  pub delta : Option W
  pub gamma : Option W
  pub theta : Option W
  pub vega : Option W
  pub open_interest : Option ℕ
  pub volume : Option ℕ

pub record OptionChain (W : Type 0) : Type 0 where
  pub underlying : String
  pub underlying_price : Option W
  pub expiration : ℕ
  pub calls : List (OptionQuote W)
  pub puts : List (OptionQuote W)

pub record OptionLeg (W : Type 0) : Type 0 where
  pub contract : OptionContract W
  pub side : OptionSide
  pub quantity : ℕ
  pub limit_price : Option W
  pub theoretical : Option W
  pub delta : Option W

pub record OptionStrategy (W : Type 0) : Type 0 where
  pub strategy_id : String
  pub name : String
  pub underlying : String
  pub legs : List (OptionLeg W)
  pub net_credit : Option W
  pub net_debit : Option W
  pub max_loss : Option W
  pub max_profit : Option W
  pub break_even : List W
  pub probability_of_profit : Option W
  pub days_to_expiration : Option ℕ

module _ {W : Type 0} ⦃num : Float W⦄ where
  -- `OptionStrategy.defined_risk`
  unfoldable pub defined_risk : OptionStrategy W → Bool
  defined_risk s = elim s.max_loss [ none ↦ false | some x ↦ num.le nought x ]
