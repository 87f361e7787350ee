-- ===== src/Options/Strategies/Total.antt =====
-- When the builders of services/options/strategies.py do not raise: `ordered.index(short)` finds the
-- picked quote, and the index of the long leg stays in the list.
use Prim.Native.String.{String}
use agnostix_ai_quant_fund.Prelude.{
  ℕ, zero, suc, ◌+◌, ◌-◌, ◌<◌, ◌≡◌, refl, ap, ◌∙◌, true, All, inl, inr, Option, none, some, List,
  [], ◌∷◌, arith, get_elem?, length, ltb, leb, Bool-cases,
}
use agnostix_ai_quant_fund.Prelude.Int.{pos}
use agnostix_ai_quant_fund.Prelude.Text.{str_eq}
use agnostix_ai_quant_fund.Prelude.Outcome.{Outcome, returns}
use agnostix_ai_quant_fund.Number.{Float}
use agnostix_ai_quant_fund.Number.Order.{IsOrdered}
use agnostix_ai_quant_fund.Options.{OptionQuote, OptionStrategy}
use agnostix_ai_quant_fund.Options.Quotes.{Env, distance, positive, sort_quotes}
use agnostix_ai_quant_fund.Options.Sorting.{All-sorted}
use agnostix_ai_quant_fund.Options.Picked.{index-get_elem?, index-pick, pick_total}
use agnostix_ai_quant_fund.Options.Strategies.{
  condor_of_sides, item, put_long, call_long, make_from, build_from, bull_put_spread,
  bear_call_spread, iron_condor, build_strategy,
}

abbrev pub Returns {ℓ} : {A : Type ℓ} → Outcome A → Type ℓ
Returns {A} m = (a : A) × (m ≡ returns a)

module _ {ℓ} {A : Type ℓ} where
  get_elem?-lt : (xs : List A) (i : ℕ) {a : A} → get_elem? xs i ≡ some a → i < length xs
  get_elem?-lt [] i e = cc
  get_elem?-lt (x ∷ xs) zero e = omega arith
  get_elem?-lt (x ∷ xs) (suc i) e = omega (arith, get_elem?-lt xs i e)

  get_elem?_total : (xs : List A) (i : ℕ) → i < length xs → (a : A) × (get_elem? xs i ≡ some a)
  get_elem?_total [] i h = elim h [ ]
  get_elem?_total (x ∷ xs) zero h = (x, refl)
  get_elem?_total (x ∷ xs) (suc i) h = get_elem?_total xs i (omega arith)

module _ {W : Type 0} ⦃num : Float W⦄ where
  put_long_total :
      (xs : List (OptionQuote W)) (width i : ℕ)
      → i < length xs
      → Returns (put_long xs (pos width) i)
  unfolding put_long
  put_long_total xs width i h =
      let (a, e) = get_elem?_total xs (i - width) (omega arith) in
      elim (Bool-cases (ltb i width)) [ inl t ↦ (none, rw t) | inr t ↦ (some a, rw (t, e, item)) ]

  call_long_total : (xs : List (OptionQuote W)) (width i : ℕ) → Returns (call_long xs (pos width) i)
  unfolding call_long
  call_long_total xs width i = elim (Bool-cases (leb (length xs) (i + width))) [
    | inl t ↦ (none, rw t)
    | inr t ↦
        let (a, e) = get_elem?_total xs (i + width) (ground arith) in (some a, rw (t, e, item))
  ]

  make_from_total :
      (n : ℕ) (make : OptionQuote W → ℕ → OptionStrategy W) (l : Option (OptionQuote W))
      → 0 < n
      → Returns (make_from (pos n) make l)
  unfolding positive
  make_from_total n make none h = (none, refl)
  make_from_total n make (some q) h =
      let one_or_more : ltb 0 n ≡ true = ground arith in (some (make q n), rw one_or_more refl)

  build_from_total :
      (n : ℕ) (long_of : OptionQuote W → Outcome (Option (OptionQuote W)))
      (make : OptionQuote W → OptionQuote W → ℕ → OptionStrategy W)
      (picked : Option (OptionQuote W))
      → 0 < n
      → ((q : OptionQuote W) → picked ≡ some q → Returns (long_of q))
      → Returns (build_from (pos n) long_of make picked)
  build_from_total n long_of make none k h = (none, refl)
  build_from_total n long_of make (some q) k h =
      let (l, e) = h q refl in let (o, f) = make_from_total n (make q) l k in (o, rw e f)

  -- the squared distances of the deltas to a target do not overflow
  abbrev pub HaveKeys : W → List (OptionQuote W) → Type 0
  HaveKeys target = All (λ q. (key : W) × (distance target q ≡ returns key))

  module _ (laws : IsOrdered W) (env : Env) (underlying : String) (spot : W) (expiration : ℕ)
      (d : W) (width n : ℕ) (more : 0 < n) where
    bull_put_total :
        (puts : List (OptionQuote W))
        → HaveKeys d puts
        → Returns (bull_put_spread env underlying spot expiration puts d (pos width) (pos n))
    unfolding bull_put_spread sort_quotes
    bull_put_total puts keys =
        let ordered = sort_quotes puts in
        let (picked, p) = pick_total ordered d (All-sorted (λ q. q.strike) _ puts keys) in
        rw p (
          build_from_total n _ _ picked more λ q e.
            let (i, found) = index-pick laws ordered d (p ∙ ap returns e) in
            let (x, got, same) = index-get_elem? q ordered i found in
            rw found (put_long_total ordered width i (get_elem?-lt ordered i got)))

    bear_call_total :
        (calls : List (OptionQuote W))
        → HaveKeys d calls
        → Returns (bear_call_spread env underlying spot expiration calls d (pos width) (pos n))
    unfolding bear_call_spread sort_quotes
    bear_call_total calls keys =
        let ordered = sort_quotes calls in
        let (picked, p) = pick_total ordered d (All-sorted (λ q. q.strike) _ calls keys) in
        rw p (
          build_from_total n _ _ picked more λ q e.
            let (i, found) = index-pick laws ordered d (p ∙ ap returns e) in
            rw found (call_long_total ordered width i))

    condor_total :
        (calls puts : List (OptionQuote W))
        → HaveKeys d calls
        → HaveKeys d puts
        → Returns (iron_condor env underlying spot expiration calls puts d (pos width) (pos n))
    unfolding iron_condor
    condor_total calls puts kc kp =
        let (p, e) = bull_put_total puts kp in
        let (c, f) = bear_call_total calls kc in
        (condor_of_sides env underlying expiration p c, rw (e, f))

    -- Under the laws of order, for a positive quantity, a width that is not negative, and deltas whose
    -- squared distances to the target do not overflow: `build_strategy` returns for every direction
    -- and every chain. No `ValueError` of `index` and no `IndexError` escapes.
    pub build_strategy_total :
        (direction : String) (calls puts : List (OptionQuote W))
        → HaveKeys d calls
        → HaveKeys d puts
        → Returns (
            build_strategy env direction underlying spot expiration calls puts d
              (pos width)
              (pos n))
    unfolding build_strategy
    build_strategy_total direction calls puts kc kp =
        elim (Bool-cases (str_eq direction "bullish")) [
          | inl e ↦ rw e (bull_put_total puts kp)
          | inr e ↦ elim (Bool-cases (str_eq direction "bearish")) [
            | inl f ↦ rw (e, f) (bear_call_total calls kc)
            | inr f ↦ rw (e, f) (condor_total calls puts kc kp)
          ]
        ]
