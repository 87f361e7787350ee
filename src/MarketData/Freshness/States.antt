-- ===== src/MarketData/Freshness/States.antt =====
-- When a record is fresh, and what the overall state of a snapshot is (services/market_data).
use mathlib.Core.Option.{some-injective}
use Prim.Native.String.{String}
use agnostix_ai_quant_fund.Prelude.{
  ◌≤◌, ◌≡◌, ◌↔◌, ◌⊎◌, inl, inr, refl, Option, none, some, List, [], ◌∷◌, All, ltb, arith,
  Bool-cases, if_cases, sym, ◌∙◌, subst,
}
use agnostix_ai_quant_fund.Prelude.Int.{ℤ, ◌≤ℤ◌, leb_ℤ}
use agnostix_ai_quant_fund.MarketData.{
  DateTime, FreshnessState, fresh, severity, MarketDataStatus, worse, worst_from, overall_state,
}
use agnostix_ai_quant_fund.MarketData.Freshness.{age_of, aged, dated, evaluate_freshness}

-- the record is there, its zone is known, and its age is at most the threshold
abbrev pub IsRecent : Option DateTime → DateTime → ℤ → Type 0
IsRecent none now threshold = ⊥
IsRecent (some t) now threshold =
    (offset : ℤ) × (t.utc_offset ≡ some offset) × (age_of now t.clock offset ≤ℤ threshold)

aged_state :
    (symbol datatype : String) (threshold : ℤ) (t : DateTime) (age : ℤ)
    → ((aged symbol datatype threshold t age).0 ≡ fresh) ↔ (age ≤ℤ threshold)
unfolding aged
aged_state symbol datatype threshold t age = elim (Bool-cases (leb_ℤ age threshold)) [
  | inl e ↦ rw e (λ _. ground (arith, e), λ _. refl)
  | inr e ↦ rw e (λ h. cc, λ h. absurd (ground (arith, e, h)))
]

dated_fresh :
    (symbol datatype : String) (threshold : ℤ) (now t : DateTime) (o : Option ℤ)
    → ((dated symbol datatype threshold now t o).0 ≡ fresh)
      ↔ ((offset : ℤ) × (o ≡ some offset) × (age_of now t.clock offset ≤ℤ threshold))
unfolding dated
dated_fresh symbol datatype threshold now t none = (λ h. cc, λ (o, e, _). cc)
dated_fresh symbol datatype threshold now t (some o) =
    let by_age = aged_state symbol datatype threshold t (age_of now t.clock o) in
    (
      λ h. (o, refl, by_age.0 h),
      λ (o', e, young).
          by_age.1
            (subst (λ k. age_of now t.clock k ≤ℤ threshold) (sym (some-injective _ _ e)) young),
    )

-- `evaluate_freshness` calls a record fresh exactly when there is one, the zone of its time is known,
-- and its age at `now` is at most the threshold.
pub fresh_iff :
    (newest : Option DateTime) (now : DateTime) (threshold : ℤ) (symbol datatype : String)
    → ((evaluate_freshness newest now threshold symbol datatype).0 ≡ fresh)
      ↔ IsRecent newest now threshold
unfolding evaluate_freshness
fresh_iff none now threshold symbol datatype = (λ h. cc, λ h. absurd h)
fresh_iff (some t) now threshold symbol datatype =
    dated_fresh symbol datatype threshold now t t.utc_offset

-- every state of the report is at most as severe as the overall state
abbrev pub IsWorst : FreshnessState → List MarketDataStatus → Type 0
IsWorst worst = All (λ s. severity s.state ≤ severity worst)

-- the state is that of one of the reports
abbrev pub Reported : FreshnessState → List MarketDataStatus → Type 0
Reported x [] = ⊥
Reported x (s ∷ rest) = (s.state ≡ x) ⊎ Reported x rest

worse_upper :
    (w x : FreshnessState)
    → (severity w ≤ severity (worse w x)) × (severity x ≤ severity (worse w x))
unfolding worse
worse_upper w x = ground arith

worse_cases : (w x : FreshnessState) → (worse w x ≡ w) ⊎ (worse w x ≡ x)
unfolding worse
worse_cases w x =
    if_cases (λ y. (y ≡ w) ⊎ (y ≡ x)) (ltb (severity w) (severity x)) x w (inr refl) (inl refl)

worst_from-IsWorst :
    (worst : FreshnessState) (reports : List MarketDataStatus)
    → (severity worst ≤ severity (worst_from worst reports))
      × IsWorst (worst_from worst reports) reports
unfolding worst_from
worst_from-IsWorst worst [] = (omega arith, tt)
worst_from-IsWorst worst (s ∷ rest) =
    let (below, here) = worse_upper worst s.state in
    let (up, all) = worst_from-IsWorst (worse worst s.state) rest in
    (omega (arith, below, up), (omega (arith, here, up), all))

worst_from-Reported :
    (worst : FreshnessState) (reports : List MarketDataStatus)
    → (worst_from worst reports ≡ worst) ⊎ Reported (worst_from worst reports) reports
unfolding worst_from
worst_from-Reported worst [] = inl refl
worst_from-Reported worst (s ∷ rest) = elim (worst_from-Reported (worse worst s.state) rest) [
  | inr r ↦ inr (inr r)
  | inl same ↦ elim (worse_cases worst s.state) [
    | inl kept ↦ inl (same ∙ kept)
    | inr new ↦ inr (inl (sym (same ∙ new)))
  ]
]

-- `overall_state` is the worst state of the reports: none of them is more severe, and it is `fresh`
-- or the state of one of them.
overall_state-IsWorst :
    (reports : List MarketDataStatus)
    → IsWorst (overall_state reports) reports
      × ((overall_state reports ≡ fresh) ⊎ Reported (overall_state reports) reports)
unfolding overall_state
overall_state-IsWorst reports =
    ((worst_from-IsWorst fresh reports).1, worst_from-Reported fresh reports)

-- the overall state is fresh exactly when every report is
severity_fresh : (x : FreshnessState) → severity x ≤ severity fresh → x ≡ fresh
unfolding severity
severity_fresh x h = ground arith

all_fresh :
    (reports : List MarketDataStatus) → IsWorst fresh reports → All (λ s. s.state ≡ fresh) reports
all_fresh [] h = tt
all_fresh (s ∷ rest) (h, hs) = (severity_fresh s.state h, all_fresh rest hs)

worst_from_fresh :
    (reports : List MarketDataStatus)
    → All (λ s. s.state ≡ fresh) reports
    → worst_from fresh reports ≡ fresh
unfolding worst_from worse severity
worst_from_fresh [] h = refl
worst_from_fresh (s ∷ rest) (h, hs) = rw h (worst_from_fresh rest hs)

pub overall_state_fresh :
    (reports : List MarketDataStatus)
    → (overall_state reports ≡ fresh) ↔ All (λ s. s.state ≡ fresh) reports
unfolding overall_state
overall_state_fresh reports = (
  λ h. all_fresh reports (subst (λ x. IsWorst x reports) h (worst_from-IsWorst fresh reports).1),
  worst_from_fresh reports,
)

-- the report has the state that comes with it
pub evaluate_freshness-state :
    (newest : Option DateTime) (now : DateTime) (threshold : ℤ) (symbol datatype : String)
    → (evaluate_freshness newest now threshold symbol datatype).1.state
      ≡ (evaluate_freshness newest now threshold symbol datatype).0
unfolding evaluate_freshness dated aged
evaluate_freshness-state none now threshold symbol datatype = refl
evaluate_freshness-state (some t) now threshold symbol datatype = dated_state t.utc_offset
  where
    dated_state :
        (o : Option ℤ)
        → (dated symbol datatype threshold now t o).1.state
          ≡ (dated symbol datatype threshold now t o).0
    dated_state none = refl
    dated_state (some o) = refl

-- the report without its age
abbrev pub timeless : MarketDataStatus → MarketDataStatus
timeless s = record s { age_seconds = none }

aged-timeless :
    (symbol datatype : String) (threshold : ℤ) (t : DateTime) (age older : ℤ)
    → (aged symbol datatype threshold t age).0 ≡ (aged symbol datatype threshold t older).0
    → timeless (aged symbol datatype threshold t age).1
      ≡ timeless (aged symbol datatype threshold t older).1
unfolding aged
aged-timeless symbol datatype threshold t age older h = rw h refl

-- beside its age, a report depends on the instant only through the state
pub evaluate_freshness-timeless :
    (newest : Option DateTime) (now later : DateTime) (threshold : ℤ) (symbol datatype : String)
    → (evaluate_freshness newest now threshold symbol datatype).0
      ≡ (evaluate_freshness newest later threshold symbol datatype).0
    → timeless (evaluate_freshness newest now threshold symbol datatype).1
      ≡ timeless (evaluate_freshness newest later threshold symbol datatype).1
unfolding evaluate_freshness dated
evaluate_freshness-timeless none now later threshold symbol datatype h = refl
evaluate_freshness-timeless (some t) now later threshold symbol datatype h =
    at_offset t.utc_offset h
  where
    at_offset :
        (o : Option ℤ)
        → (dated symbol datatype threshold now t o).0
          ≡ (dated symbol datatype threshold later t o).0
        → timeless (dated symbol datatype threshold now t o).1
          ≡ timeless (dated symbol datatype threshold later t o).1
    at_offset none h = refl
    at_offset (some o) h = aged-timeless symbol datatype threshold t _ _ h
