-- ===== src/Options/Strategies.antt =====
-- services/options/strategies.py: construction of defined-risk strategies. The texts of `notes` are
-- not modelled.
pub mod Spread
pub mod Probability
pub mod Covered
pub mod Total
pub mod Loss
mod Tests
use Prim.Native.String.{String, ◌++◌ as text_append}
use agnostix_ai_quant_fund.Prelude.{
  ℕ, suc, ◌+◌, ◌-◌, Option, none, some, List, [], ◌∷◌, ◌++◌, get_elem?, length, ltb, leb,
  if◌then◌else◌,
}
use agnostix_ai_quant_fund.Prelude.Int.{ℤ, pos, negsuc}
use agnostix_ai_quant_fund.Prelude.Text.{str_eq}
use agnostix_ai_quant_fund.Prelude.Outcome.{Outcome, returns, raises, ◌>>=◌}
use agnostix_ai_quant_fund.Number.{
  Float, ◌⊕◌, ◌⊖◌, ◌⊗◌, nought, one, max_float, or_default, or_zero,
}
use agnostix_ai_quant_fund.Options.{
  call, put, sell_to_open, buy_to_open, OptionQuote, OptionStrategy,
}
use agnostix_ai_quant_fund.Options.Quotes.{
  Env, days_until, index, mid, sort_quotes, pick_by_delta, contract_of, leg_of, per_contract,
  delta_or, abs_delta_or, as_probability, positive,
}

module _ {W : Type 0} ⦃num : Float W⦄ where
  -- `xs[i]`
  abbrev item : List (OptionQuote W) → ℕ → Outcome (Option (OptionQuote W))
  item xs i = elim (get_elem? xs i) [ none ↦ raises "IndexError" | some q ↦ returns (some q) ]

  -- `xs[-i]`, for a positive `i`
  abbrev item_from_end : List (OptionQuote W) → ℕ → Outcome (Option (OptionQuote W))
  item_from_end xs i = if ltb (length xs) i then raises "IndexError" else item xs (length xs - i)

  -- the long leg of a put spread, `width` strikes below the short one; `none` where there is none
  put_long : List (OptionQuote W) → ℤ → ℕ → Outcome (Option (OptionQuote W))
  put_long ordered (pos width) short_idx =
      if ltb short_idx width then returns none else item ordered (short_idx - width)
  put_long ordered (negsuc n) short_idx = item ordered (short_idx + suc n)

  -- the long leg of a call spread, `width` strikes above the short one; an index below zero counts
  -- from the end
  call_long : List (OptionQuote W) → ℤ → ℕ → Outcome (Option (OptionQuote W))
  call_long ordered (pos width) short_idx =
      if leb (length ordered) (short_idx + width)
      then returns none
      else item ordered (short_idx + width)
  call_long ordered (negsuc n) short_idx =
      if ltb short_idx (suc n)
      then item_from_end ordered (suc n - short_idx)
      else if leb (length ordered) (short_idx - suc n)
      then returns none
      else item ordered (short_idx - suc n)

  -- the strategy of a quantity, which the legs constrain
  abbrev make_from :
      ℤ
      → (OptionQuote W → ℕ → OptionStrategy W)
      → Option (OptionQuote W)
      → Outcome (Option (OptionStrategy W))
  make_from quantity make none = returns none
  make_from quantity make (some long) = positive quantity >>= λ n. returns (some (make long n))

  -- the early returns of a builder: no short leg, or no long leg
  abbrev build_from :
      ℤ
      → (OptionQuote W → Outcome (Option (OptionQuote W)))
      → (OptionQuote W → OptionQuote W → ℕ → OptionStrategy W)
      → Option (OptionQuote W)
      → Outcome (Option (OptionStrategy W))
  build_from quantity long_of make none = returns none
  build_from quantity long_of make (some short) = do
    long ← long_of short
    make_from quantity (make short) long

  -- the strategy that `bull_put_spread` returns, from its two quotes
  unfoldable pub put_spread_of :
      Env → String → ℕ → OptionQuote W → OptionQuote W → W → ℕ → OptionStrategy W
  unfolding mid leg_of contract_of days_until
  put_spread_of env underlying expiration short long short_delta quantity =
      let short_mid = or_zero (mid short) in
      let long_mid = or_zero (mid long) in
      let net_credit = max_float (short_mid ⊖ long_mid) nought in
      let width = short.strike ⊖ long.strike in
      record {
        strategy_id = text_append "bps-" env.fresh;
        name = "bull_put_spread";
        underlying = underlying;
        legs =
            leg_of short underlying put expiration sell_to_open quantity short_mid
            ∷ leg_of long underlying put expiration buy_to_open quantity long_mid
            ∷ [];
        net_credit = some net_credit;
        net_debit = none;
        max_loss = some (per_contract width quantity ⊖ per_contract net_credit quantity);
        max_profit = some (per_contract net_credit quantity);
        break_even = (short.strike ⊖ net_credit) ∷ [];
        probability_of_profit = some (as_probability (one ⊖ delta_or short short_delta));
        days_to_expiration = some (days_until expiration env.now);
      }

  pub bull_put_spread :
      Env → String → W → ℕ → List (OptionQuote W) → W → ℤ → ℤ → Outcome (Option (OptionStrategy W))
  bull_put_spread env underlying spot expiration puts short_delta width_strikes quantity =
      let ordered = sort_quotes puts in
      pick_by_delta ordered short_delta >>= λ picked.
      build_from quantity
        (λ short. do short_idx ← index short ordered; put_long ordered width_strikes short_idx)
        (λ short long n. put_spread_of env underlying expiration short long short_delta n) picked

  -- the strategy that `bear_call_spread` returns, from its two quotes
  unfoldable pub call_spread_of :
      Env → String → ℕ → OptionQuote W → OptionQuote W → W → ℕ → OptionStrategy W
  unfolding mid leg_of contract_of days_until
  call_spread_of env underlying expiration short long short_delta quantity =
      let short_mid = or_zero (mid short) in
      let long_mid = or_zero (mid long) in
      let net_credit = max_float (short_mid ⊖ long_mid) nought in
      let width = long.strike ⊖ short.strike in
      record {
        strategy_id = text_append "bcs-" env.fresh;
        name = "bear_call_spread";
        underlying = underlying;
        legs =
            leg_of short underlying call expiration sell_to_open quantity short_mid
            ∷ leg_of long underlying call expiration buy_to_open quantity long_mid
            ∷ [];
        net_credit = some net_credit;
        net_debit = none;
        max_loss = some (per_contract width quantity ⊖ per_contract net_credit quantity);
        max_profit = some (per_contract net_credit quantity);
        break_even = (short.strike ⊕ net_credit) ∷ [];
        probability_of_profit = some (as_probability (one ⊖ abs_delta_or short short_delta));
        days_to_expiration = some (days_until expiration env.now);
      }

  pub bear_call_spread :
      Env → String → W → ℕ → List (OptionQuote W) → W → ℤ → ℤ → Outcome (Option (OptionStrategy W))
  bear_call_spread env underlying spot expiration calls short_delta width_strikes quantity =
      let ordered = sort_quotes calls in
      pick_by_delta ordered short_delta >>= λ picked.
      build_from quantity
        (λ short. do short_idx ← index short ordered; call_long ordered width_strikes short_idx)
        (λ short long n. call_spread_of env underlying expiration short long short_delta n) picked

  -- `x[0]` of a list of floats
  abbrev first_or : List W → W → W
  first_or [] d = d
  first_or (x ∷ xs) d = x

  -- the condor that `iron_condor` returns, from its two sides
  unfoldable pub condor_of :
      Env → String → ℕ → OptionStrategy W → OptionStrategy W → OptionStrategy W
  unfolding days_until or_default
  condor_of env underlying expiration put_side call_side =
      let half = num.decimal 5 1 in
      record {
        strategy_id = text_append "ic-" env.fresh;
        name = "iron_condor";
        underlying = underlying;
        legs = put_side.legs ++ call_side.legs;
        net_credit = some (or_zero put_side.net_credit ⊕ or_zero call_side.net_credit);
        net_debit = none;
        max_loss = some (or_zero put_side.max_loss ⊕ or_zero call_side.max_loss);
        max_profit = some (or_zero put_side.max_profit ⊕ or_zero call_side.max_profit);
        break_even =
            (first_or put_side.break_even nought ⊖ or_zero put_side.net_credit)
            ∷ (first_or call_side.break_even nought ⊖ or_zero call_side.net_credit)
            ∷ [];
        probability_of_profit = some (
            num.round
              (or_default put_side.probability_of_profit half
                ⊗ or_default call_side.probability_of_profit half)
              4);
        days_to_expiration = some (days_until expiration env.now);
      }

  abbrev condor_of_sides :
      Env
      → String
      → ℕ
      → Option (OptionStrategy W)
      → Option (OptionStrategy W)
      → Option (OptionStrategy W)
  condor_of_sides env underlying expiration (some p) (some c) =
      some (condor_of env underlying expiration p c)
  condor_of_sides env underlying expiration _ _ = none

  pub iron_condor :
      Env
      → String
      → W
      → ℕ
      → List (OptionQuote W)
      → List (OptionQuote W)
      → W
      → ℤ
      → ℤ
      → Outcome (Option (OptionStrategy W))
  iron_condor env underlying spot expiration calls puts short_delta width_strikes quantity = do
    put_side ←
        bull_put_spread env underlying spot expiration puts short_delta width_strikes quantity
    call_side ←
        bear_call_spread env underlying spot expiration calls short_delta width_strikes quantity
    returns (condor_of_sides env underlying expiration put_side call_side)

  -- the strategy that `cash_secured_put` returns, from its quote
  cash_secured_of : Env → String → ℕ → OptionQuote W → W → ℕ → OptionStrategy W
  unfolding mid leg_of days_until
  cash_secured_of env underlying expiration short short_delta quantity =
      let premium = or_zero (mid short) in
      record {
        strategy_id = text_append "csp-" env.fresh;
        name = "cash_secured_put";
        underlying = underlying;
        legs = leg_of short underlying put expiration sell_to_open quantity premium ∷ [];
        net_credit = some premium;
        net_debit = none;
        max_loss = some (per_contract short.strike quantity ⊖ per_contract premium quantity);
        max_profit = some (per_contract premium quantity);
        break_even = (short.strike ⊖ premium) ∷ [];
        probability_of_profit = some (as_probability (one ⊖ delta_or short short_delta));
        days_to_expiration = some (days_until expiration env.now);
      }

  -- `cash_secured_put`; its argument `risk_free_rate` is not used by the code
  pub cash_secured_put :
      Env → String → W → ℕ → List (OptionQuote W) → W → ℤ → Outcome (Option (OptionStrategy W))
  cash_secured_put env underlying spot expiration puts short_delta quantity =
      pick_by_delta (sort_quotes puts) short_delta
      >>= make_from quantity
          (λ short n. cash_secured_of env underlying expiration short short_delta n)

  pub build_strategy :
      Env
      → String
      → String
      → W
      → ℕ
      → List (OptionQuote W)
      → List (OptionQuote W)
      → W
      → ℤ
      → ℤ
      → Outcome (Option (OptionStrategy W))
  build_strategy env direction underlying spot expiration calls puts short_delta width quantity =
      if str_eq direction "bullish"
      then bull_put_spread env underlying spot expiration puts short_delta width quantity
      else if str_eq direction "bearish"
      then bear_call_spread env underlying spot expiration calls short_delta width quantity
      else iron_condor env underlying spot expiration calls puts short_delta width quantity
