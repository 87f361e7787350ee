-- ===== src/Fundamentals/Metrics.antt =====
-- services/fundamentals/metrics.py: the metrics that are computed from reported figures. The clock is
-- an argument.
pub mod Reproducible
use Prim.Native.String.{String, ◌++◌ as text_append}
use agnostix_ai_quant_fund.Prelude.{
  ℕ, Bool, not, ◌&&◌, Option, none, some, List, [], ◌∷◌, is_some, if◌then◌else◌,
}
use agnostix_ai_quant_fund.Prelude.Text.{str_eq}
use agnostix_ai_quant_fund.Prelude.Dicts.{lookup, assign}
use agnostix_ai_quant_fund.Number.{Float, ◌⊖◌, ◌⊘◌, nought}
use agnostix_ai_quant_fund.Fundamentals.{
  Date, isoformat, PeriodType, period_type_eq, FinancialMetric, is_ok, MetricInput, DerivedMetric,
}

-- the keys of the index: metric, period type and the ISO text of the period's end
abbrev pub Key : Type 0
Key = String × PeriodType × String

unfoldable pub key_eq : Key → Key → Bool
key_eq (a, p, e) (b, q, f) = str_eq a b && (period_type_eq p q && str_eq e f)

module _ {W : Type 0} where
  abbrev pub key_of : FinancialMetric W → Key
  key_of m = (m.metric, m.period.period_type, isoformat m.period.period_end)

  -- a figure that is there and in order
  abbrev pub usable : FinancialMetric W → Bool
  usable m = is_some m.value && is_ok m.quality

  -- the dictionary comprehension of `_index`; a later figure replaces an earlier one with its key
  unfoldable pub index_from :
      List (Key × FinancialMetric W) → List (FinancialMetric W) → List (Key × FinancialMetric W)
  index_from d [] = d
  index_from d (m ∷ ms) = index_from (if usable m then assign key_eq d (key_of m) m else d) ms

  -- `_index`
  unfoldable pub index : List (FinancialMetric W) → List (Key × FinancialMetric W)
  index ms = index_from [] ms

  -- `_get`
  unfoldable pub get :
      List (Key × FinancialMetric W) → String → PeriodType → Date → Option (FinancialMetric W)
  get idx metric period_type period_end =
      lookup key_eq idx (metric, period_type, isoformat period_end)

  -- `metrics[0].symbol if metrics else ""`
  abbrev pub symbol_of : List (FinancialMetric W) → String
  symbol_of [] = ""
  symbol_of (m ∷ ms) = m.symbol

  abbrev pub input_of : FinancialMetric W → W → MetricInput W
  input_of m v = record {
    metric = m.metric;
    period_type = m.period.period_type;
    period_end = m.period.period_end;
    value = v;
    provider = m.provider_info.provider;
  }

  -- the inputs with their values, or `None` where one is missing
  abbrev valued :
      FinancialMetric W → Option W → Option (List (MetricInput W)) → Option (List (MetricInput W))
  valued m (some v) (some rest) = some (input_of m v ∷ rest)
  valued m _ _ = none

  unfoldable pub inputs_of : List (FinancialMetric W) → Option (List (MetricInput W))
  inputs_of [] = some []
  inputs_of (m ∷ ms) = valued m m.value (inputs_of ms)

  abbrev values_of : List (MetricInput W) → List W
  values_of [] = []
  values_of (i ∷ is) = i.value ∷ values_of is

module _ {W : Type 0} ⦃num : Float W⦄ where
  -- `a / b`, or `none` where it raises ZeroDivisionError
  unfoldable pub divide : W → W → Option W
  divide a b = if num.eq b nought then none else some (a ⊘ b)

  -- a formula of two inputs as a function of the values
  abbrev pub binary : (W → W → Option W) → List W → Option W
  binary f (a ∷ b ∷ []) = f a b
  binary f _ = none

  -- the result is rounded, unless it is NaN
  abbrev rounded :
      String → String → String → ℕ → List (MetricInput W) → Option W → Option (DerivedMetric W)
  rounded symbol name formula now inputs none = none
  rounded symbol name formula now inputs (some v) =
      if not (num.eq v v)
      then none
      else some (record {
        symbol = symbol;
        metric = name;
        value = num.round v 6;
        formula = formula;
        inputs = inputs;
        calculated_at = now;
      })

  abbrev computed :
      String
      → String
      → String
      → ℕ
      → (List W → Option W)
      → Option (List (MetricInput W))
      → Option (DerivedMetric W)
  computed symbol name formula now compute none = none
  computed symbol name formula now compute (some inputs) =
      rounded symbol name formula now inputs (compute (values_of inputs))

  -- `_derive`
  unfoldable pub derive :
      ℕ
      → String
      → String
      → String
      → List (FinancialMetric W)
      → (List W → Option W)
      → Option (DerivedMetric W)
  derive now symbol name formula inputs compute =
      computed symbol name formula now compute (inputs_of inputs)

  -- both figures, or `None`
  abbrev both :
      Option (FinancialMetric W)
      → Option (FinancialMetric W)
      → (FinancialMetric W → FinancialMetric W → Option (DerivedMetric W))
      → Option (DerivedMetric W)
  both (some a) (some b) f = f a b
  both _ _ f = none

  unfoldable pub revenue_growth_yoy :
      ℕ → List (FinancialMetric W) → Date → Date → PeriodType → Option (DerivedMetric W)
  revenue_growth_yoy now ms current_period_end prior_period_end period_type =
      both (get (index ms) "revenue" period_type current_period_end)
        (get (index ms) "revenue" period_type prior_period_end)
        λ cur pri.
          derive now cur.symbol "revenue_growth_yoy"
            "(revenue_t - revenue_prior) / abs(revenue_prior)" (cur ∷ pri ∷ [])
            (binary λ c p. divide (c ⊖ p) (num.abs p))

  pub margin : ℕ → List (FinancialMetric W) → String → Date → PeriodType → Option (DerivedMetric W)
  margin now ms numerator_metric period_end period_type =
      both (get (index ms) numerator_metric period_type period_end)
        (get (index ms) "revenue" period_type period_end)
        λ a b.
          derive now (symbol_of ms) (text_append numerator_metric "_margin")
            (text_append numerator_metric " / revenue") (a ∷ b ∷ []) (binary λ n r. divide n r)

  pub net_debt : ℕ → List (FinancialMetric W) → Date → PeriodType → Option (DerivedMetric W)
  net_debt now ms period_end period_type =
      both (get (index ms) "total_debt" period_type period_end)
        (get (index ms) "cash_and_equivalents" period_type period_end)
        λ a b.
          derive now (symbol_of ms) "net_debt" "total_debt - cash_and_equivalents" (a ∷ b ∷ [])
            (binary λ d c. some (d ⊖ c))

  pub free_cash_flow : ℕ → List (FinancialMetric W) → Date → PeriodType → Option (DerivedMetric W)
  free_cash_flow now ms period_end period_type =
      both (get (index ms) "operating_cash_flow" period_type period_end)
        (get (index ms) "capital_expenditure" period_type period_end)
        λ a b.
          derive now (symbol_of ms) "free_cash_flow" "operating_cash_flow - capital_expenditure"
            (a ∷ b ∷ []) (binary λ o c. some (o ⊖ c))

  pub earnings_surprise : Option W → Option W → Option W × Option W
  earnings_surprise (some actual) (some estimate) =
      if num.eq estimate nought then (none, none) else (
        some (num.round (actual ⊖ estimate) 6),
        some (num.round ((actual ⊖ estimate) ⊘ num.abs estimate) 6),
      )
  earnings_surprise _ _ = (none, none)
