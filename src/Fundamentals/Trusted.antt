-- ===== src/Fundamentals/Trusted.antt =====
-- The metrics of services/fundamentals/metrics.py on figures that services/fundamentals/validation.py
-- has marked.
use Prim.Native.String.{String}
use agnostix_ai_quant_fund.Prelude.{
  ℕ, ◌≡◌, refl, true, ◌&&◌, Option, some, List, [], ◌∷◌, Has, is_some, arith,
}
use agnostix_ai_quant_fund.Number.{Float}
use agnostix_ai_quant_fund.Fundamentals.{
  Date, PeriodType, DataQuality, ok, conflicting, incomplete, invalid, unavailable, is_ok,
  FinancialMetric, DerivedMetric,
}
use agnostix_ai_quant_fund.Fundamentals.Metrics.{input_of}
use agnostix_ai_quant_fund.Fundamentals.Metrics.Reproducible.{
  IsReproducible, Derivation, growth, margin_of, debt, flow, derived, derived-Meaning,
}
use agnostix_ai_quant_fund.Fundamentals.Validation.{validate_metric, flag_quality}
use agnostix_ai_quant_fund.Fundamentals.Validation.Quality.{flag_quality_ok}

is_ok-eq : (q : DataQuality) → is_ok q ≡ true → q ≡ ok
unfolding is_ok
is_ok-eq ok h = refl
is_ok-eq conflicting h = cc
is_ok-eq incomplete h = cc
is_ok-eq invalid h = cc
is_ok-eq unavailable h = cc

module _ {W : Type 0} ⦃num : Float W⦄ (infinity : W) where
  -- two figures of the batch without an issue, which the metric records with their values
  abbrev pub IsTrusted : List (FinancialMetric W) → DerivedMetric W → Type 0
  IsTrusted ms d =
      (m : FinancialMetric W) × (n : FinancialMetric W) × (a : W) × (b : W) × Has m ms
      × Has n ms
      × (validate_metric infinity m ≡ [])
      × (validate_metric infinity n ≡ [])
      × (m.value ≡ some a)
      × (n.value ≡ some b)
      × (d.inputs ≡ input_of m a ∷ input_of n b ∷ [])

  usable_valid :
      (ms : List (FinancialMetric W)) (m : FinancialMetric W)
      → Has m (flag_quality infinity ms)
      → (is_some m.value && is_ok m.quality) ≡ true
      → Has m ms × (validate_metric infinity m ≡ [])
  usable_valid ms m h u = flag_quality_ok infinity m ms h (is_ok-eq m.quality (ground (arith, u)))

  IsReproducible-IsTrusted :
      (ms : List (FinancialMetric W)) (x y : String × PeriodType × Date) (f : W → W → Option W)
      (d : DerivedMetric W)
      → IsReproducible (flag_quality infinity ms) x y f d
      → IsTrusted ms d
  IsReproducible-IsTrusted ms (x, p, e) (y, q, g) f d
        (m, n, (m_in, mu, _), (n_in, nu, _), (a, b, v, hm, hn, inputs, _, _, _)) =
      let (mh, mv) = usable_valid ms m m_in mu in
      let (nh, nv) = usable_valid ms n n_in nu in (m, n, a, b, mh, nh, mv, nv, hm, hn, inputs)

  -- A metric that is derived from a batch after `flag_quality` rests on two figures of that batch, as
  -- they were reported, in which `validate_metric` finds no issue, and records their values.
  pub derived-IsTrusted :
      (now : ℕ) (ms : List (FinancialMetric W)) (p : PeriodType) (x : Derivation)
      (d : DerivedMetric W)
      → derived now (flag_quality infinity ms) p x ≡ some d
      → IsTrusted ms d
  derived-IsTrusted now ms p (growth c r) d h =
      IsReproducible-IsTrusted ms _ _ _ d (derived-Meaning now _ p (growth c r) d h)
  derived-IsTrusted now ms p (margin_of name e) d h =
      IsReproducible-IsTrusted ms _ _ _ d (derived-Meaning now _ p (margin_of name e) d h)
  derived-IsTrusted now ms p (debt e) d h =
      IsReproducible-IsTrusted ms _ _ _ d (derived-Meaning now _ p (debt e) d h)
  derived-IsTrusted now ms p (flow e) d h =
      IsReproducible-IsTrusted ms _ _ _ d (derived-Meaning now _ p (flow e) d h)
