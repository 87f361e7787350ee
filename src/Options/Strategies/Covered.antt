-- ===== src/Options/Strategies/Covered.antt =====
-- Every strategy of `build_strategy` (services/options/strategies.py) has defined risk by its legs:
-- each short leg is followed by a long leg that covers it. The builders never raise.
use mathlib.Core.Option.{some-injective}
use Prim.Native.String.{String}
use agnostix_ai_quant_fund.Prelude.{
  ℕ, ◌≡◌, refl, inl, inr, Option, none, some, List, [], ◌∷◌, ◌++◌, Bool-cases,
}
use agnostix_ai_quant_fund.Prelude.Text.{str_eq}
use agnostix_ai_quant_fund.Prelude.Outcome.{returns, >>=-eq-returns, returns-injective}
use agnostix_ai_quant_fund.Number.{Float, ◌≼◌}
use agnostix_ai_quant_fund.Number.Order.{IsOrdered}
use agnostix_ai_quant_fund.Options.{
  OptionType, call, put, sell_to_open, buy_to_open, OptionQuote, OptionLeg, OptionStrategy,
}
use agnostix_ai_quant_fund.Options.Quotes.{Env}
use agnostix_ai_quant_fund.Options.Strategies.{
  put_spread_of, call_spread_of, condor_of, condor_of_sides, bull_put_spread, bear_call_spread,
  iron_condor, build_strategy, pos,
}
use agnostix_ai_quant_fund.Options.Strategies.Spread.{put_strikes, call_strikes}

module _ {W : Type 0} ⦃num : Float W⦄ where
  -- a long leg at this strike caps what a short one at that strike can lose
  abbrev pub Caps : OptionType → W → W → Type 0
  Caps put short long = long ≼ short
  Caps call short long = short ≼ long

  pub record Covers (underlying : String) (expiration quantity : ℕ) (short long : OptionLeg W)
      : Type 0 where
    pub sold : short.side ≡ sell_to_open
    pub bought : long.side ≡ buy_to_open
    pub type : long.contract.option_type ≡ short.contract.option_type
    pub short_underlying : short.contract.underlying ≡ underlying
    pub long_underlying : long.contract.underlying ≡ underlying
    pub short_expiration : short.contract.expiration ≡ expiration
    pub long_expiration : long.contract.expiration ≡ expiration
    pub short_quantity : short.quantity ≡ quantity
    pub long_quantity : long.quantity ≡ quantity
    pub caps : Caps short.contract.option_type short.contract.strike long.contract.strike

  abbrev pub IsCovered : String → ℕ → ℕ → List (OptionLeg W) → Type 0
  IsCovered u e n [] = Unit
  IsCovered u e n (short ∷ []) = ⊥
  IsCovered u e n (short ∷ long ∷ rest) = Covers u e n short long × IsCovered u e n rest

  IsCovered-append :
      (u : String) (e n : ℕ) (xs ys : List (OptionLeg W))
      → IsCovered u e n xs
      → IsCovered u e n ys
      → IsCovered u e n (xs ++ ys)
  IsCovered-append u e n [] ys h k = k
  IsCovered-append u e n (x ∷ []) ys h k = absurd h
  IsCovered-append u e n (x ∷ y ∷ xs) ys (c, h) k = (c, IsCovered-append u e n xs ys h k)

module _ {W : Type 0} ⦃num : Float W⦄ (laws : IsOrdered W) (env : Env) (underlying : String)
    (spot : W) (expiration : ℕ) where
  put-IsCovered :
      (short long : OptionQuote W) (short_delta : W) (n : ℕ)
      → long.strike ≼ short.strike
      → IsCovered underlying expiration n
          (put_spread_of env underlying expiration short long short_delta n).legs
  unfolding put_spread_of
  put-IsCovered short long d n h = (
    record {
      sold = refl;
      bought = refl;
      type = refl;
      short_underlying = refl;
      long_underlying = refl;
      short_expiration = refl;
      long_expiration = refl;
      short_quantity = refl;
      long_quantity = refl;
      caps = h;
    },
    tt,
  )

  call-IsCovered :
      (short long : OptionQuote W) (short_delta : W) (n : ℕ)
      → short.strike ≼ long.strike
      → IsCovered underlying expiration n
          (call_spread_of env underlying expiration short long short_delta n).legs
  unfolding call_spread_of
  call-IsCovered short long d n h = (
    record {
      sold = refl;
      bought = refl;
      type = refl;
      short_underlying = refl;
      long_underlying = refl;
      short_expiration = refl;
      long_expiration = refl;
      short_quantity = refl;
      long_quantity = refl;
      caps = h;
    },
    tt,
  )

  bull_put-IsCovered :
      (puts : List (OptionQuote W)) (d : W) (width n : ℕ) {s : OptionStrategy W}
      → bull_put_spread env underlying spot expiration puts d (pos width) (pos n) ≡ returns (some s)
      → IsCovered underlying expiration n s.legs
  bull_put-IsCovered puts d width n h =
      let (short, long, made, le) =
        put_strikes env underlying spot expiration puts d width n laws h in
      rw made (put-IsCovered short long d n le)

  bear_call-IsCovered :
      (calls : List (OptionQuote W)) (d : W) (width n : ℕ) {s : OptionStrategy W}
      → bear_call_spread env underlying spot expiration calls d (pos width) (pos n)
        ≡ returns (some s)
      → IsCovered underlying expiration n s.legs
  bear_call-IsCovered calls d width n h =
      let (short, long, made, le) =
        call_strikes env underlying spot expiration calls d width n laws h in
      rw made (call-IsCovered short long d n le)

  sides-IsCovered :
      (n : ℕ) (p c : Option (OptionStrategy W)) {s : OptionStrategy W}
      → ((x : OptionStrategy W) → p ≡ some x → IsCovered underlying expiration n x.legs)
      → ((x : OptionStrategy W) → c ≡ some x → IsCovered underlying expiration n x.legs)
      → condor_of_sides env underlying expiration p c ≡ some s
      → IsCovered underlying expiration n s.legs
  unfolding condor_of
  sides-IsCovered n none c hp hc e = cc
  sides-IsCovered n (some p) none hp hc e = cc
  sides-IsCovered n (some p) (some c) hp hc e =
      rw (← some-injective _ _ e)
        (IsCovered-append underlying expiration n p.legs c.legs (hp p refl) (hc c refl))

  condor-IsCovered :
      (calls puts : List (OptionQuote W)) (d : W) (width n : ℕ) {s : OptionStrategy W}
      → iron_condor env underlying spot expiration calls puts d (pos width) (pos n)
        ≡ returns (some s)
      → IsCovered underlying expiration n s.legs
  unfolding iron_condor
  condor-IsCovered calls puts d width n h =
      let (p, put_side, rest) =
        >>=-eq-returns (bull_put_spread env underlying spot expiration puts d (pos width) (pos n)) _
          h in
      let (c, call_side, last) =
        >>=-eq-returns (bear_call_spread env underlying spot expiration calls d (pos width) (pos n))
          _ rest in
      sides-IsCovered n p c (λ x e. bull_put-IsCovered puts d width n (rw e at put_side))
        (λ x e. bear_call-IsCovered calls d width n (rw e at call_side)) (returns-injective last)

  pub build_strategy-IsCovered :
      (direction : String) (calls puts : List (OptionQuote W)) (d : W) (width n : ℕ)
      {s : OptionStrategy W}
      → build_strategy env direction underlying spot expiration calls puts d (pos width) (pos n)
        ≡ returns (some s)
      → IsCovered underlying expiration n s.legs
  unfolding build_strategy
  build_strategy-IsCovered direction calls puts d width n h =
      elim (Bool-cases (str_eq direction "bullish")) [
        | inl e ↦ bull_put-IsCovered puts d width n (rw e at h)
        | inr e ↦ elim (Bool-cases (str_eq direction "bearish")) [
          | inl f ↦ bear_call-IsCovered calls d width n (rw (e, f) at h)
          | inr f ↦ condor-IsCovered calls puts d width n (rw (e, f) at h)
        ]
      ]
