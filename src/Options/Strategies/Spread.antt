-- ===== src/Options/Strategies/Spread.antt =====
-- What `bull_put_spread` and `bear_call_spread` (services/options/strategies.py) return.
use mathlib.Core.Option.{some-injective}
use agnostix_ai_quant_fund.Prelude.{
  ℕ, ◌+◌, ◌-◌, ◌≡◌, refl, true, Option, none, some, List, arith, get_elem?, Bool-cases, ◌∙◌, ap,
  inl, sym, inr,
}
use agnostix_ai_quant_fund.Prelude.Outcome.{Outcome, returns, >>=-eq-returns, returns-injective}
use Prim.Native.String.{String}
use agnostix_ai_quant_fund.Number.{Float, ◌≼◌}
use agnostix_ai_quant_fund.Number.Order.{IsOrdered}
use agnostix_ai_quant_fund.Options.{OptionQuote, OptionStrategy}
use agnostix_ai_quant_fund.Options.Sorting.{IsSorted, sorted-IsSorted, IsSorted-get_elem?}
use agnostix_ai_quant_fund.Options.Quotes.{
  Env, index, pick_by_delta, sort_quotes, quote_eq, positive,
}
use agnostix_ai_quant_fund.Options.Picked.{index-get_elem?}
use agnostix_ai_quant_fund.Options.Strategies.{
  put_spread_of, call_spread_of, put_long, call_long, make_from, build_from, bull_put_spread,
  bear_call_spread, pos, ltb,
}

module _ {W : Type 0} ⦃num : Float W⦄ where
  made_from :
      (n : ℕ) (make : OptionQuote W → ℕ → OptionStrategy W) (l : Option (OptionQuote W))
      {s : OptionStrategy W}
      → make_from (pos n) make l ≡ returns (some s)
      → (long : OptionQuote W) × (l ≡ some long) × (s ≡ make long n)
  unfolding positive
  made_from n make none h = cc
  made_from n make (some long) h = elim (Bool-cases (ltb 0 n)) [
    | inl e ↦ (long, refl, sym (some-injective _ _ (returns-injective (rw e at h))))
    | inr e ↦ cc (rw e at h)
  ]

  build_from_result :
      (n : ℕ) (long_of : OptionQuote W → Outcome (Option (OptionQuote W)))
      (make : OptionQuote W → OptionQuote W → ℕ → OptionStrategy W)
      (picked : Option (OptionQuote W)) {s : OptionStrategy W}
      → build_from (pos n) long_of make picked ≡ returns (some s)
      → (short long : OptionQuote W) × (picked ≡ some short)
        × (long_of short ≡ returns (some long))
        × (s ≡ make short long n)
  build_from_result n long_of make none h = cc
  build_from_result n long_of make (some short) h =
      let (l, got, made) = >>=-eq-returns (long_of short) (make_from (pos n) (make short)) h in
      let (long, is_long, s_eq) = made_from n (make short) l made in
      (short, long, refl, rw is_long at got, s_eq)

  put_long_result :
      (ordered : List (OptionQuote W)) (width i : ℕ) {long : OptionQuote W}
      → put_long ordered (pos width) i ≡ returns (some long)
      → (j : ℕ) × (i ≡ j + width) × (get_elem? ordered j ≡ some long)
  unfolding put_long
  put_long_result ordered width i h = (i - width, ground arith, ground arith)

  call_long_result :
      (ordered : List (OptionQuote W)) (width i : ℕ) {long : OptionQuote W}
      → call_long ordered (pos width) i ≡ returns (some long)
      → get_elem? ordered (i + width) ≡ some long
  unfolding call_long
  call_long_result ordered width i h = ground arith

module _ {W : Type 0} ⦃num : Float W⦄ (env : Env) (underlying : String) (spot : W) (expiration : ℕ)
    (quotes : List (OptionQuote W)) (short_delta : W) (width quantity : ℕ) where
  pub put_spread_result :
      {s : OptionStrategy W}
      → bull_put_spread env underlying spot expiration quotes short_delta (pos width) (pos quantity)
        ≡ returns (some s)
      → (short long : OptionQuote W) × (i j : ℕ) × (pick_by_delta (sort_quotes quotes) short_delta
          ≡ returns (some short))
        × (index short (sort_quotes quotes) ≡ returns i)
        × (get_elem? (sort_quotes quotes) j ≡ some long)
        × (i ≡ j + width)
        × (s ≡ put_spread_of env underlying expiration short long short_delta quantity)
  unfolding bull_put_spread
  put_spread_result h =
      let ordered = sort_quotes quotes in
      let (q, picked_q, built) = >>=-eq-returns (pick_by_delta ordered short_delta) _ h in
      let (short, long, is_short, chosen, made) = build_from_result quantity _ _ q built in
      let picked = picked_q ∙ ap returns is_short in
      let (i, found, rest) =
        >>=-eq-returns (index short ordered) (put_long ordered (pos width)) chosen in
      let (j, at, got) = put_long_result ordered width i rest in
      (short, long, i, j, picked, found, got, at, made)

  pub call_spread_result :
      {s : OptionStrategy W}
      → bear_call_spread env underlying spot expiration quotes short_delta
          (pos width)
          (pos quantity)
        ≡ returns (some s)
      → (short long : OptionQuote W) × (i : ℕ) × (pick_by_delta (sort_quotes quotes) short_delta
          ≡ returns (some short))
        × (index short (sort_quotes quotes) ≡ returns i)
        × (get_elem? (sort_quotes quotes) (i + width) ≡ some long)
        × (s ≡ call_spread_of env underlying expiration short long short_delta quantity)
  unfolding bear_call_spread
  call_spread_result h =
      let ordered = sort_quotes quotes in
      let (q, picked_q, built) = >>=-eq-returns (pick_by_delta ordered short_delta) _ h in
      let (short, long, is_short, chosen, made) = build_from_result quantity _ _ q built in
      let picked = picked_q ∙ ap returns is_short in
      let (i, found, rest) =
        >>=-eq-returns (index short ordered) (call_long ordered (pos width)) chosen in
      (short, long, i, picked, found, call_long_result ordered width i rest, made)

  module _ (laws : IsOrdered W) where
    strikes-IsSorted : IsSorted (λ (q : OptionQuote W). q.strike) (sort_quotes quotes)
    unfolding sort_quotes
    strikes-IsSorted = sorted-IsSorted (λ q. q.strike) laws quotes

    same_strike :
        (q r : OptionQuote W) → quote_eq q r ≡ true → (q.strike ≼ r.strike) × (r.strike ≼ q.strike)
    unfolding quote_eq
    same_strike q r h = laws.eq-le _ _ (ground arith)

    -- the long put of a bull put spread is not above the short one, and the short call of a bear call
    -- spread is not above the long one
    pub put_strikes :
        {s : OptionStrategy W}
        → bull_put_spread env underlying spot expiration quotes short_delta
            (pos width)
            (pos quantity)
          ≡ returns (some s)
        → (short long : OptionQuote W) × (s
            ≡ put_spread_of env underlying expiration short long short_delta quantity)
          × (long.strike ≼ short.strike)
    put_strikes h =
        let (short, long, i, j, picked, found, got, at, made) = put_spread_result h in
        let (x, got_x, same) = index-get_elem? short (sort_quotes quotes) i found in
        let below =
          IsSorted-get_elem? (λ (q : OptionQuote W). q.strike) laws (sort_quotes quotes) j i
            strikes-IsSorted (omega arith) got got_x in
        (short, long, made, laws.le_trans _ _ _ below (same_strike x short same).0)

    pub call_strikes :
        {s : OptionStrategy W}
        → bear_call_spread env underlying spot expiration quotes short_delta
            (pos width)
            (pos quantity)
          ≡ returns (some s)
        → (short long : OptionQuote W) × (s
            ≡ call_spread_of env underlying expiration short long short_delta quantity)
          × (short.strike ≼ long.strike)
    call_strikes h =
        let (short, long, i, picked, found, got, made) = call_spread_result h in
        let (x, got_x, same) = index-get_elem? short (sort_quotes quotes) i found in
        let above =
          IsSorted-get_elem? (λ (q : OptionQuote W). q.strike) laws (sort_quotes quotes) i
            (i + width) strikes-IsSorted (omega arith) got_x got in
        (short, long, made, laws.le_trans _ _ _ (same_strike x short same).1 above)
