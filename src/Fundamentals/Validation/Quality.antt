-- ===== src/Fundamentals/Validation/Quality.antt =====
-- What the quality marks of `flag_quality` mean (services/fundamentals/validation.py).
use Prim.Native.String.{String}
use mathlib.Core.Bool.{true≢false}
use agnostix_ai_quant_fund.Prelude.{
  ◌≡◌, ◌⊎◌, inl, inr, refl, sym, ap, ◌∙◌, subst, Bool, true, false, ◌||◌, Option, none, some, List,
  [], ◌∷◌, ◌++◌, any, filter, All, All-append, if_cases, if◌then◌else◌, Has, Has-append_left,
  Has-append_right, Has-append_either, Bool-cases,
}
use agnostix_ai_quant_fund.Prelude.Text.{str_eq}
use agnostix_ai_quant_fund.Prelude.Members.{any-Has}
use agnostix_ai_quant_fund.Prelude.Dicts.{lookup, assign}
use agnostix_ai_quant_fund.Number.{Float}
use agnostix_ai_quant_fund.Fundamentals.{ok, conflicting, invalid, FinancialMetric}
use agnostix_ai_quant_fund.Fundamentals.Validation.{
  IntegrityIssue, metric_key, non_finite, bad_percent, mixes_periods, issues_at, validate_metric,
  append_at, Identity, conflict_key, flagged, Issues, file_issues, conflicted, file_conflicts,
  file_metrics, validate_metrics, subjects_in, subjects_of, concerns, flag_one, flag_all,
  flag_quality,
}

subjects_in-append :
    (is js : List IntegrityIssue) → subjects_in (is ++ js) ≡ subjects_in is ++ subjects_in js
unfolding subjects_in
subjects_in-append [] js = refl
subjects_in-append (i ∷ is) js = ap (◌∷◌ i.subject) (subjects_in-append is js)

-- an issue is filed, and what was filed stays
filed_here :
    (s : String) (i : IntegrityIssue) (is : List IntegrityIssue) (rest : List String)
    → (i.subject ≡ s) ⊎ Has s (subjects_in is ++ rest)
    → Has s (subjects_in (is ++ (i ∷ [])) ++ rest)
unfolding subjects_in
filed_here s i is rest h =
    let both = subst (λ x. Has s (x ++ rest)) (sym (subjects_in-append is (i ∷ []))) in
    elim h [
      | inl same ↦ both (
          Has-append_left s (subjects_in is ++ (i.subject ∷ [])) rest
            (Has-append_right s (subjects_in is) (i.subject ∷ []) (inl same)))
      | inr m ↦ both (elim (Has-append_either s (subjects_in is) rest m) [
        | inl l ↦
            Has-append_left s (subjects_in is ++ (i.subject ∷ [])) rest
              (Has-append_left s (subjects_in is) (i.subject ∷ []) l)
        | inr r ↦ Has-append_right s (subjects_in is ++ (i.subject ∷ [])) rest r
      ])
    ]

filed_later :
    (s : String) (i : IntegrityIssue) (is : List IntegrityIssue) (rest more : List String)
    → (i.subject ≡ s) ⊎ Has s (subjects_in is ++ rest)
    → ((i.subject ≡ s) ⊎ Has s rest → Has s more)
    → Has s (subjects_in is ++ more)
filed_later s i is rest more (inl same) f = Has-append_right s (subjects_in is) more (f (inl same))
filed_later s i is rest more (inr m) f = elim (Has-append_either s (subjects_in is) rest m) [
  | inl l ↦ Has-append_left s (subjects_in is) more l
  | inr r ↦ Has-append_right s (subjects_in is) more (f (inr r))
]

pub append_at-Filed :
    (s key : String) (i : IntegrityIssue) (out : Issues)
    → (i.subject ≡ s) ⊎ Has s (subjects_of out)
    → Has s (subjects_of (append_at str_eq out key i))
unfolding append_at lookup assign subjects_of subjects_in
append_at-Filed s key i [] (inl same) = inl same
append_at-Filed s key i [] (inr m) = absurd m
append_at-Filed s key i ((k, is) ∷ out) h = elim (Bool-cases (str_eq k key)) [
  | inl e ↦ rw e (filed_here s i is (subjects_of out) h)
  | inr e ↦ rw e (
      filed_later s i is (subjects_of out) (subjects_of (append_at str_eq out key i)) h
        (append_at-Filed s key i out))
]

file_issues-Filed :
    (s : String) (is : List IntegrityIssue) (out : Issues)
    → Has s (subjects_in is) ⊎ Has s (subjects_of out)
    → Has s (subjects_of (file_issues is out))
unfolding file_issues subjects_in
file_issues-Filed s [] out (inl m) = absurd m
file_issues-Filed s [] out (inr m) = m
file_issues-Filed s (i ∷ is) out (inl (inl same)) =
    file_issues-Filed s is _ (inr (append_at-Filed s i.subject i out (inl same)))
file_issues-Filed s (i ∷ is) out (inl (inr m)) = file_issues-Filed s is _ (inl m)
file_issues-Filed s (i ∷ is) out (inr m) =
    file_issues-Filed s is _ (inr (append_at-Filed s i.subject i out (inr m)))

module _ {W : Type 0} ⦃num : Float W⦄ where
  pub file_conflicts-Filed :
      (s : String) (seen : List (Identity × List W)) (out : Issues)
      → Has s (subjects_of out)
      → Has s (subjects_of (file_conflicts seen out))
  unfolding file_conflicts
  file_conflicts-Filed s [] out m = m
  file_conflicts-Filed s ((i, values) ∷ rest) out m = elim (Bool-cases (conflicted values)) [
    | inl e ↦
        rw e (file_conflicts-Filed s rest _ (append_at-Filed s (conflict_key i) _ out (inr m)))
    | inr e ↦ rw e (file_conflicts-Filed s rest out m)
  ]

module _ {W : Type 0} ⦃num : Float W⦄ (infinity : W) where
  file_metrics-Filed :
      (s : String) (ms : List (FinancialMetric W)) (out : Issues)
      → Has s (subjects_of out)
      → Has s (subjects_of (file_metrics infinity ms out))
  unfolding file_metrics
  file_metrics-Filed s [] out m = m
  file_metrics-Filed s (x ∷ ms) out m =
      file_metrics-Filed s ms _ (file_issues-Filed s (validate_metric infinity x) out (inr m))

  file_metrics_subject :
      (m : FinancialMetric W) (s : String) (ms : List (FinancialMetric W)) (out : Issues)
      → Has m ms
      → Has s (subjects_in (validate_metric infinity m))
      → Has s (subjects_of (file_metrics infinity ms out))
  unfolding file_metrics
  file_metrics_subject m s [] out h i = absurd h
  file_metrics_subject m s (x ∷ ms) out (inl same) i = file_metrics-Filed s ms _ (
      file_issues-Filed s (validate_metric infinity x) out
        (inl (subst (λ y. Has s (subjects_in (validate_metric infinity y))) (sym same) i)))
  file_metrics_subject m s (x ∷ ms) out (inr h) i = file_metrics_subject m s ms _ h i

  -- the subject of an issue of a figure is the key of the figure
  abbrev Speaks : FinancialMetric W → IntegrityIssue → Type 0
  Speaks m i = i.subject ≡ metric_key m

  All-flagged :
      (m : FinancialMetric W) (b : Bool) (i : IntegrityIssue) (is : List IntegrityIssue)
      → Speaks m i
      → All (Speaks m) is
      → All (Speaks m) (flagged b i is)
  All-flagged m true i is p ps = All-append (Speaks m) is (i ∷ []) ps (p, tt)
  All-flagged m false i is p ps = ps

  issues_at-Speaks :
      (m : FinancialMetric W) (o : Option W) → All (Speaks m) (issues_at infinity m o)
  issues_at-Speaks m none = tt
  issues_at-Speaks m (some v) =
      if_cases (All (Speaks m)) (non_finite infinity v) _ _ (refl, tt)
        (All-flagged m (mixes_periods m.period) _ _ refl
          (All-flagged m (bad_percent infinity m.units v) _ _ refl (All-flagged m _ _ [] refl tt)))

  spoken :
      (m : FinancialMetric W) (is : List IntegrityIssue)
      → All (Speaks m) is
      → (is ≡ []) ⊎ Has (metric_key m) (subjects_in is)
  unfolding subjects_in
  spoken m [] h = inl refl
  spoken m (i ∷ is) (h, _) = inr (inl h)

  validate_metric-subject :
      (m : FinancialMetric W)
      → (validate_metric infinity m ≡ [])
        ⊎ Has (metric_key m) (subjects_in (validate_metric infinity m))
  unfolding validate_metric
  validate_metric-subject m = spoken m _ (issues_at-Speaks m m.value)

  -- the mark of a figure after the check, where all else stays
  abbrev pub OnlyMarks : FinancialMetric W → FinancialMetric W → Type 0
  OnlyMarks m n =
      (n ≡ m) ⊎ (n ≡ record m { quality = conflicting }) ⊎ (n ≡ record m { quality = invalid })

  abbrev marked : FinancialMetric W → Bool → Bool → FinancialMetric W
  marked m own conflict =
      if own || conflict
      then record m { quality = if conflict then conflicting else invalid }
      else m

  marked-ok :
      (m : FinancialMetric W) (own conflict : Bool)
      → (marked m own conflict).quality ≡ ok
      → (marked m own conflict ≡ m) × (own ≡ false)
  marked-ok m true true h = cc
  marked-ok m true false h = cc
  marked-ok m false true h = cc
  marked-ok m false false h = (refl, refl)

  marked-OnlyMarks :
      (m : FinancialMetric W) (own conflict : Bool) → OnlyMarks m (marked m own conflict)
  marked-OnlyMarks m true true = inr (inl refl)
  marked-OnlyMarks m true false = inr (inr refl)
  marked-OnlyMarks m false true = inr (inl refl)
  marked-OnlyMarks m false false = inl refl

  -- a figure that `flag_one` leaves in order is unchanged, and its key is not a subject
  flag_one-ok :
      (by_subject : List String) (m : FinancialMetric W)
      → (flag_one by_subject m).quality ≡ ok
      → (flag_one by_subject m ≡ m) × (any (str_eq (metric_key m)) by_subject ≡ false)
  unfolding flag_one
  flag_one-ok by_subject m h = marked-ok m _ _ h

  flag_all-ok :
      (by_subject : List String) (n : FinancialMetric W) (ms : List (FinancialMetric W))
      → Has n (flag_all by_subject ms)
      → n.quality ≡ ok
      → Has n ms × (any (str_eq (metric_key n)) by_subject ≡ false)
  unfolding flag_all
  flag_all-ok by_subject n [] h q = absurd h
  flag_all-ok by_subject n (m ∷ ms) (inl same) q =
      let (kept, silent) = flag_one-ok by_subject m (ap (λ x. x.quality) same ∙ q) in
      (
        inl (sym kept ∙ same),
        subst (λ x. any (str_eq (metric_key x)) by_subject ≡ false) (sym kept ∙ same) silent,
      )
  flag_all-ok by_subject n (m ∷ ms) (inr h) q =
      let (m_in, silent) = flag_all-ok by_subject n ms h q in (inr m_in, silent)

  -- A figure that `flag_quality` leaves marked as in order is a figure of the batch, with its value, and
  -- `validate_metric` finds no issue with it.
  pub flag_quality_ok :
      (n : FinancialMetric W) (ms : List (FinancialMetric W))
      → Has n (flag_quality infinity ms)
      → n.quality ≡ ok
      → Has n ms × (validate_metric infinity n ≡ [])
  unfolding flag_quality validate_metrics
  flag_quality_ok n ms h q =
      let (n_in, silent) = flag_all-ok _ n ms h q in
      (
        n_in,
        elim (validate_metric-subject n) [
          | inl clean ↦ clean
          | inr spoken_of ↦ absurd (
              true≢false (
                sym (
                  any-Has (metric_key n) _ (
                    file_conflicts-Filed (metric_key n) _ _
                      (file_metrics_subject n (metric_key n) ms [] n_in spoken_of)))
                ∙ silent))
        ],
      )

  abbrev pub Pairwise : List (FinancialMetric W) → List (FinancialMetric W) → Type 0
  Pairwise [] [] = Unit
  Pairwise (m ∷ ms) (n ∷ ns) = OnlyMarks m n × Pairwise ms ns
  Pairwise _ _ = ⊥

  flag_one-OnlyMarks :
      (by_subject : List String) (m : FinancialMetric W) → OnlyMarks m (flag_one by_subject m)
  unfolding flag_one
  flag_one-OnlyMarks by_subject m =
      marked-OnlyMarks m (any (str_eq (metric_key m)) by_subject)
        (any (λ k. any (str_eq k) by_subject) (filter (concerns m) by_subject))

  flag_all-Pairwise :
      (by_subject : List String) (ms : List (FinancialMetric W))
      → Pairwise ms (flag_all by_subject ms)
  unfolding flag_all
  flag_all-Pairwise by_subject [] = tt
  flag_all-Pairwise by_subject (m ∷ ms) =
      (flag_one-OnlyMarks by_subject m, flag_all-Pairwise by_subject ms)

  -- `flag_quality` keeps the figures and their order. Of each it changes at most the quality, to
  -- `conflicting` or `invalid`.
  flag_quality-Pairwise : (ms : List (FinancialMetric W)) → Pairwise ms (flag_quality infinity ms)
  unfolding flag_quality
  flag_quality-Pairwise ms = flag_all-Pairwise _ ms
