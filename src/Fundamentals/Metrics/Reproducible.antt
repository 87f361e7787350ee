-- ===== src/Fundamentals/Metrics/Reproducible.antt =====
-- What a derived metric says of the figures it is computed from (services/fundamentals/metrics.py).
use Prim.Native.String.{String}
use mathlib.Core.Option.{some-injective}
use agnostix_ai_quant_fund.Prelude.{
  ℕ, ◌≡◌, ◌↔◌, inl, inr, refl, sym, ap, ◌∙◌, true, Option, none, some, List, [], ◌∷◌, All, Has,
  All-items, arith, Bool-cases,
}
use agnostix_ai_quant_fund.Prelude.Text.{eq_iff}
use agnostix_ai_quant_fund.Prelude.Dicts.{Decides, assign, All-assign, All-lookup}
use agnostix_ai_quant_fund.Number.{Float, ◌⊖◌}
use agnostix_ai_quant_fund.Fundamentals.{
  Date, isoformat, PeriodType, annual, quarterly, ttm, period_type_eq, FinancialMetric, MetricInput,
  DerivedMetric,
}
use agnostix_ai_quant_fund.Fundamentals.Metrics.{
  Key, key_eq, key_of, usable, index_from, index, get, input_of, valued, inputs_of, divide, binary,
  rounded, computed, derive, both, revenue_growth_yoy, margin, net_debt, free_cash_flow,
}

period_type_eq_iff : (p q : PeriodType) → (period_type_eq p q ≡ true) ↔ (p ≡ q)
unfolding period_type_eq
period_type_eq_iff annual annual = (λ _. refl, λ _. refl)
period_type_eq_iff annual quarterly = (λ e. cc, λ e. cc)
period_type_eq_iff annual ttm = (λ e. cc, λ e. cc)
period_type_eq_iff quarterly annual = (λ e. cc, λ e. cc)
period_type_eq_iff quarterly quarterly = (λ _. refl, λ _. refl)
period_type_eq_iff quarterly ttm = (λ e. cc, λ e. cc)
period_type_eq_iff ttm annual = (λ e. cc, λ e. cc)
period_type_eq_iff ttm quarterly = (λ e. cc, λ e. cc)
period_type_eq_iff ttm ttm = (λ _. refl, λ _. refl)

key_eq-Decides : Decides key_eq
unfolding key_eq
key_eq-Decides (a, p, e) (b, q, f) = ground (arith, eq_iff a b, period_type_eq_iff p q, eq_iff e f)

-- the four metrics by name
pub data Derivation : Type 0 where
  growth : Date → Date → Derivation
  margin_of : String → Date → Derivation
  debt flow : Date → Derivation

module _ {W : Type 0} where
  -- an entry of the index: a usable figure of the list, under its key
  abbrev Entry : List (FinancialMetric W) → Key × FinancialMetric W → Type 0
  Entry ms (k, m) = Has m ms × (usable m ≡ true) × (key_of m ≡ k)

  index_from-Entry :
      (all : List (FinancialMetric W)) (d : List (Key × FinancialMetric W))
      (ms : List (FinancialMetric W))
      → All (Entry all) d
      → All (λ m. Has m all) ms
      → All (Entry all) (index_from d ms)
  unfolding index_from
  index_from-Entry all d [] h m = h
  index_from-Entry all d (m ∷ ms) h (m_in, ms_in) = elim (Bool-cases (usable m)) [
    | inl u ↦ rw u (
        index_from-Entry all (assign key_eq d (key_of m) m) ms
          (All-assign key_eq (Entry all) d (key_of m) m h (m_in, u, refl)
            (λ k e. (m_in, u, sym ((key_eq-Decides k (key_of m)).0 e))))
          ms_in)
    | inr u ↦ rw u (index_from-Entry all d ms h ms_in)
  ]

  -- a figure that `_get` finds
  abbrev pub IsFigure :
      List (FinancialMetric W) → String → PeriodType → Date → FinancialMetric W → Type 0
  IsFigure ms metric period_type period_end m =
      Has m ms × (usable m ≡ true) × (key_of m ≡ (metric, period_type, isoformat period_end))

  get-IsFigure :
      (ms : List (FinancialMetric W)) (metric : String) (pt : PeriodType) (e : Date)
      (m : FinancialMetric W)
      → get (index ms) metric pt e ≡ some m
      → IsFigure ms metric pt e m
  unfolding get index
  get-IsFigure ms metric pt e m h =
      let (k, t, (m_in, u, same)) =
        All-lookup key_eq (Entry ms) (index_from [] ms) (metric, pt, isoformat e) m
          (index_from-Entry ms [] ms tt (All-items ms)) h in
      (m_in, u, same ∙ (key_eq-Decides k _).0 t)

module _ {W : Type 0} ⦃num : Float W⦄ where
  -- the metric is the rounded formula of the values of the two figures, which it records
  abbrev pub IsComputed :
      (W → W → Option W) → FinancialMetric W → FinancialMetric W → DerivedMetric W → Type 0
  IsComputed f m n d =
      (a : W) × (b : W) × (v : W) × (m.value ≡ some a)
      × (n.value ≡ some b)
      × (d.inputs ≡ input_of m a ∷ input_of n b ∷ [])
      × (f a b ≡ some v)
      × (num.eq v v ≡ true)
      × (d.value ≡ num.round v 6)

  rounded_lem :
      (symbol name formula : String) (now : ℕ) (inputs : List (MetricInput W)) (o : Option W)
      (d : DerivedMetric W)
      → rounded symbol name formula now inputs o ≡ some d
      → (v : W) × (o ≡ some v)
        × (num.eq v v ≡ true)
        × (d.inputs ≡ inputs)
        × (d.value ≡ num.round v 6)
  rounded_lem symbol name formula now inputs none d h = cc
  rounded_lem symbol name formula now inputs (some v) d h = elim (Bool-cases (num.eq v v)) [
    | inl e ↦
        let same = some-injective _ _ (rw e at h) in
        (v, refl, e, ap (λ x. x.inputs) (sym same), ap (λ x. x.value) (sym same))
    | inr e ↦ cc (rw e at h)
  ]

  computed-IsComputed :
      (symbol name formula : String) (now : ℕ) (f : W → W → Option W) (m n : FinancialMetric W)
      (o p : Option W) (d : DerivedMetric W)
      → m.value ≡ o
      → n.value ≡ p
      → computed symbol name formula now (binary f) (valued m o (valued n p (some []))) ≡ some d
      → IsComputed f m n d
  computed-IsComputed symbol name formula now f m n none p d hm hn h = cc
  computed-IsComputed symbol name formula now f m n (some a) none d hm hn h = cc
  computed-IsComputed symbol name formula now f m n (some a) (some b) d hm hn h =
      let (v, e, real, inputs, value) = rounded_lem symbol name formula now _ (f a b) d h in
      (a, b, v, hm, hn, inputs, e, real, value)

  derive-IsComputed :
      (symbol name formula : String) (now : ℕ) (f : W → W → Option W) (m n : FinancialMetric W)
      (d : DerivedMetric W)
      → derive now symbol name formula (m ∷ n ∷ []) (binary f) ≡ some d
      → IsComputed f m n d
  unfolding derive inputs_of
  derive-IsComputed symbol name formula now f m n d h =
      computed-IsComputed symbol name formula now f m n m.value n.value d refl refl h

  -- two figures of the list, and the formula on them
  abbrev pub IsReproducible :
      List (FinancialMetric W)
      → String × PeriodType × Date
      → String × PeriodType × Date
      → (W → W → Option W)
      → DerivedMetric W
      → Type 0
  IsReproducible ms (x, p, e) (y, q, g) f d =
      (m : FinancialMetric W) × (n : FinancialMetric W) × IsFigure ms x p e m
      × IsFigure ms y q g n
      × IsComputed f m n d

  both-IsReproducible :
      (ms : List (FinancialMetric W)) (x y : String) (p : PeriodType) (e g : Date)
      (k : FinancialMetric W → FinancialMetric W → Option (DerivedMetric W)) (f : W → W → Option W)
      (o q : Option (FinancialMetric W)) (d : DerivedMetric W)
      → get (index ms) x p e ≡ o
      → get (index ms) y p g ≡ q
      → ((m n : FinancialMetric W) → k m n ≡ some d → IsComputed f m n d)
      → both o q k ≡ some d
      → IsReproducible ms (x, p, e) (y, p, g) f d
  both-IsReproducible ms x y p e g k f none q d ho hq step h = cc
  both-IsReproducible ms x y p e g k f (some m) none d ho hq step h = cc
  both-IsReproducible ms x y p e g k f (some m) (some n) d ho hq step h =
      (m, n, get-IsFigure ms x p e m ho, get-IsFigure ms y p g n hq, step m n h)

  abbrev pub derived :
      ℕ → List (FinancialMetric W) → PeriodType → Derivation → Option (DerivedMetric W)
  derived now ms p (growth current prior) = revenue_growth_yoy now ms current prior p
  derived now ms p (margin_of name e) = margin now ms name e p
  derived now ms p (debt e) = net_debt now ms e p
  derived now ms p (flow e) = free_cash_flow now ms e p

  -- the names and ends of the figures and the formula that a metric stands for
  abbrev pub Meaning : List (FinancialMetric W) → PeriodType → Derivation → DerivedMetric W → Type 0
  Meaning ms p (growth current prior) d =
      IsReproducible ms ("revenue", p, current) ("revenue", p, prior)
        (λ c q. divide (c ⊖ q) (num.abs q)) d
  Meaning ms p (margin_of name e) d =
      IsReproducible ms (name, p, e) ("revenue", p, e) (λ n r. divide n r) d
  Meaning ms p (debt e) d =
      IsReproducible ms ("total_debt", p, e) ("cash_and_equivalents", p, e) (λ x c. some (x ⊖ c)) d
  Meaning ms p (flow e) d =
      IsReproducible ms ("operating_cash_flow", p, e) ("capital_expenditure", p, e)
        (λ o c. some (o ⊖ c)) d

  -- A derived metric that is returned is the rounded value of its formula, without a division by zero
  -- and not NaN, on two figures of the list that are there, marked as in order, and carry the name, the
  -- period type and the end that the metric asks for. It records both figures as its inputs.
  pub derived-Meaning :
      (now : ℕ) (ms : List (FinancialMetric W)) (p : PeriodType) (x : Derivation)
      (d : DerivedMetric W)
      → derived now ms p x ≡ some d
      → Meaning ms p x d
  unfolding revenue_growth_yoy margin net_debt free_cash_flow
  derived-Meaning now ms p (growth current prior) d h =
      both-IsReproducible ms _ _ p current prior _ _ _ _ d refl refl
        (λ m n e. derive-IsComputed _ _ _ now _ m n d e) h
  derived-Meaning now ms p (margin_of name g) d h =
      both-IsReproducible ms _ _ p g g _ _ _ _ d refl refl
        (λ m n e. derive-IsComputed _ _ _ now _ m n d e) h
  derived-Meaning now ms p (debt g) d h =
      both-IsReproducible ms _ _ p g g _ _ _ _ d refl refl
        (λ m n e. derive-IsComputed _ _ _ now _ m n d e) h
  derived-Meaning now ms p (flow g) d h =
      both-IsReproducible ms _ _ p g g _ _ _ _ d refl refl
        (λ m n e. derive-IsComputed _ _ _ now _ m n d e) h
