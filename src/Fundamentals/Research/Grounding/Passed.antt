-- ===== src/Fundamentals/Research/Grounding/Passed.antt =====
-- What it means that a thesis passes the deterministic checks
-- (services/fundamentals/research/grounding.py).
use Prim.Native.String.{String}
use agnostix_ai_quant_fund.Prelude.{
  ◌≡◌, ◌≢◌, ◌↔◌, ◌⊎◌, inl, inr, refl, sym, ap, ◌∙◌, subst, Bool, true, false, not, ◌&&◌, ◌||◌, List,
  [], ◌∷◌, ◌++◌, any, All, Has, filter, Bool-cases, arith, if◌then◌else◌,
}
use agnostix_ai_quant_fund.Prelude.Text.{str_eq, eq_iff, contains}
use agnostix_ai_quant_fund.Prelude.Members.{any-Has, Has-any, any-append}
use agnostix_ai_quant_fund.Prelude.Outcome.{returns, >>=-eq-returns, returns-injective}
use agnostix_ai_quant_fund.Number.{Float}
use agnostix_ai_quant_fund.Fundamentals.Context.{FundamentalResearchContext}
use agnostix_ai_quant_fund.Fundamentals.Research.{
  FundamentalView, bullish, neutral, bearish, insufficient_data, EvidenceRef, InvestmentThesis,
  CriticFinding,
}
use agnostix_ai_quant_fund.Fundamentals.Research.Numbers.{
  FloatText, checked_numbers, checked_numbers_empty, is_grounded,
}
use agnostix_ai_quant_fund.Fundamentals.Research.Grounding.{
  context_numbers, known_ids, check_evidence, check_evidence_existence, Placed, statements_of,
  Verified, judged, ungrounded_of, check_statement, check_statements, check_numerical_grounding,
  is_insufficient, is_directional, is_empty, check_insufficient_data_handling, Checks, fails,
  is_critical, checks_of, run_deterministic_checks,
}

-- a piece of evidence that the context knows by its source or by its identifier
abbrev pub IsCited : List String → EvidenceRef → Type 0
IsCited known ev = Has ev.source known ⊎ Has ev.evidence_id known

check_evidence_iff :
    (known : List String) (evs : List EvidenceRef)
    → (any fails (check_evidence known evs) ≡ false) ↔ All (IsCited known) evs
unfolding check_evidence
check_evidence_iff known [] = (λ _. tt, λ _. refl)
check_evidence_iff known (ev ∷ evs) =
    let ih = check_evidence_iff known evs in
    let source = any (str_eq ev.source) known in
    let id = any (str_eq ev.evidence_id) known in
    (
      λ h. elim (Bool-cases source) [
        | inl s ↦ (inl (Has-any ev.source known s), ih.0 (ground (arith, s, h)))
        | inr s ↦ elim (Bool-cases id) [
          | inl t ↦ (inr (Has-any ev.evidence_id known t), ih.0 (ground (arith, s, t, h)))
          | inr t ↦ cc (rw (s, t) at h)
        ]
      ],
      λ (c, cs).
          let rest = ih.1 cs in
          elim c [
            | inl m ↦ let s = any-Has ev.source known m in ground (arith, s, rest)
            | inr m ↦ let s = any-Has ev.evidence_id known m in ground (arith, s, rest)
          ],
    )

judged_lem :
    (place text : String) (nil : Bool)
    → ((any fails (judged place text (not nil)).0 ≡ false) ↔ (nil ≡ true))
      × (any fails (judged place text (not nil)).0 ≡ false → (judged place text (not nil)).1 ≡ [])
judged_lem place text true = ((λ _. refl, λ _. refl), λ _. refl)
judged_lem place text false = elim (Bool-cases (contains "/FACT" place)) [
  | inl f ↦ rw f ((λ e. cc, λ e. cc), λ e. cc)
  | inr f ↦ rw f ((λ e. cc, λ e. cc), λ e. cc)
]

is_insufficient-eq : (v : FundamentalView) → is_insufficient v ≡ true → v ≡ insufficient_data
is_insufficient-eq bullish h = cc
is_insufficient-eq neutral h = cc
is_insufficient-eq bearish h = cc
is_insufficient-eq insufficient_data h = refl

is_insufficient_refl : (v : FundamentalView) → v ≡ insufficient_data → is_insufficient v ≡ true
is_insufficient_refl v e = rw e refl

-- of the two findings on the data only the second is critical
calibration_critical :
    (a b : Bool)
    → is_empty (
        filter is_critical (
          (if a
            then record { category = "confidence_calibration"; severity = "warning" } ∷ []
            else [])
          ++ (if b
              then record { category = "factual_grounding"; severity = "critical" } ∷ []
              else [])))
      ≡ not b
calibration_critical true true = refl
calibration_critical true false = refl
calibration_critical false true = refl
calibration_critical false false = refl

not_empty_iff {ℓ} : {A : Type ℓ} (xs : List A) → (is_empty xs ≡ false) ↔ (xs ≢ [])
not_empty_iff [] = (λ h. cc, λ h. absurd (h refl))
not_empty_iff (x ∷ xs) = (λ _ e. cc, λ _. refl)

module _ {W : Type 0} ⦃num : Float W⦄ ⦃texts : FloatText W⦄ where
  -- every number of the text that is no year is grounded
  abbrev pub IsTraceable : List W → String → Placed → Type 0
  IsTraceable values rendered (place, text) =
      All (λ n. is_grounded values rendered n ≡ returns true) (checked_numbers text)

  ungrounded_step :
      (values : List W) (rendered : String) (n : W) (ns rest bad : List W) (ok : Bool)
      → is_grounded values rendered n ≡ returns ok
      → (if ok then rest else n ∷ rest) ≡ bad
      → (is_empty rest ≡ true) ↔ All (λ x. is_grounded values rendered x ≡ returns true) ns
      → (is_empty bad ≡ true) ↔ (
          (is_grounded values rendered n ≡ returns true)
          × All (λ x. is_grounded values rendered x ≡ returns true) ns)
  ungrounded_step values rendered n ns rest bad true is same (to, from) =
      (λ h. (is, to (ap is_empty same ∙ h)), λ (_, a). ap is_empty (sym same) ∙ from a)
  ungrounded_step values rendered n ns rest bad false is same (to, from) =
      (λ h. cc (ap is_empty same, h), λ (t, _). cc (sym is ∙ t))

  ungrounded_of_iff :
      (values : List W) (rendered : String) (ns bad : List W)
      → ungrounded_of values rendered ns ≡ returns bad
      → (is_empty bad ≡ true) ↔ All (λ n. is_grounded values rendered n ≡ returns true) ns
  unfolding ungrounded_of
  ungrounded_of_iff values rendered [] bad h = (λ _. tt, λ _. cc)
  ungrounded_of_iff values rendered (n ∷ ns) bad h =
      let (ok, is, more) = >>=-eq-returns (is_grounded values rendered n) _ h in
      let (rest, found, last) = >>=-eq-returns (ungrounded_of values rendered ns) _ more in
      ungrounded_step values rendered n ns rest bad ok is (returns-injective last)
        (ungrounded_of_iff values rendered ns rest found)

  is_empty-eq : (ns : List W) → is_empty ns ≡ true → ns ≡ []
  is_empty-eq [] h = refl
  is_empty-eq (n ∷ ns) h = cc

  -- a statement that is skipped has no number to check
  skipped :
      (text : String)
      → (str_eq text "" || is_empty (checked_numbers {W = W} text)) ≡ true
      → checked_numbers {W = W} text ≡ []
  skipped text h = elim (Bool-cases (str_eq text "")) [
    | inl e ↦ ap checked_numbers ((eq_iff text "").0 e) ∙ checked_numbers_empty
    | inr e ↦ is_empty-eq _ (rw e at h)
  ]

  abbrev Clear : List W → String → List Placed → Verified → Type 0
  Clear values rendered ss r =
      ((any fails r.0 ≡ false) ↔ All (IsTraceable values rendered) ss)
      × (any fails r.0 ≡ false → r.1 ≡ [])

  abbrev ClearOf : List W → String → Placed → Verified → Type 0
  ClearOf values rendered s r =
      ((any fails r.0 ≡ false) ↔ IsTraceable values rendered s) × (any fails r.0 ≡ false → r.1 ≡ [])

  check_statement-Clear :
      (values : List W) (rendered : String) (s : Placed) (r : Verified)
      → check_statement values rendered s ≡ returns r
      → ClearOf values rendered s r
  unfolding check_statement
  check_statement-Clear values rendered (place, text) r h =
      elim (Bool-cases (str_eq text "" || is_empty (checked_numbers {W = W} text))) [
        | inl skip ↦
            subst (ClearOf values rendered (place, text)) (returns-injective (rw skip at h))
              ((λ _. subst (All _) (sym (skipped text skip)) tt, λ _. refl), λ _. refl)
        | inr go ↦
            let (bad, found, last) =
              >>=-eq-returns (ungrounded_of values rendered (checked_numbers text)) _
                (rw go at h) in
            let (judge, quiet) = judged_lem place text (is_empty bad) in
            let (to, from) = ungrounded_of_iff values rendered (checked_numbers text) bad found in
            subst (ClearOf values rendered (place, text)) (returns-injective last)
              ((λ e. to (judge.0 e), λ t. judge.1 (from t)), quiet)
      ]

  check_statements-Clear :
      (values : List W) (rendered : String) (ss : List Placed) (r : Verified)
      → check_statements values rendered ss ≡ returns r
      → Clear values rendered ss r
  unfolding check_statements
  check_statements-Clear values rendered [] r h =
      subst (Clear values rendered []) (returns-injective h) ((λ _. tt, λ _. refl), λ _. refl)
  check_statements-Clear values rendered (s ∷ ss) r h =
      let (one, found, more) = >>=-eq-returns (check_statement values rendered s) _ h in
      let (rest, later, last) = >>=-eq-returns (check_statements values rendered ss) _ more in
      let (first, quiet) = check_statement-Clear values rendered s one found in
      let (others, silent) = check_statements-Clear values rendered ss rest later in
      let split = any-append fails one.0 rest.0 in
      subst (Clear values rendered (s ∷ ss)) (returns-injective last) (
        (
          λ e. (first.0 (ground (arith, split, e)), others.0 (ground (arith, split, e))),
          λ (t, ts). let a = first.1 t in let b = others.1 ts in ground (arith, split, a, b),
        ),
        λ e.
            let a = quiet (ground (arith, split, e)) in
            let b = silent (ground (arith, split, e)) in cc,
      )

module _ {W : Type 0} ⦃num : Float W⦄ where
  -- the view says that data are missing, or there are figures
  abbrev pub HasBasis : InvestmentThesis W → FundamentalResearchContext W → Type 0
  HasBasis thesis ctx = (thesis.fundamental_view ≡ insufficient_data) ⊎ (ctx.financial_metrics ≢ [])

  calibration_iff :
      (thesis : InvestmentThesis W) (ctx : FundamentalResearchContext W)
      → (is_empty (filter is_critical (check_insufficient_data_handling thesis ctx)) ≡ true)
        ↔ HasBasis thesis ctx
  unfolding check_insufficient_data_handling
  calibration_iff thesis ctx =
      let missing = is_empty ctx.financial_metrics in
      let admitted = is_insufficient thesis.fundamental_view in
      let e =
        calibration_critical
          (not (is_empty ctx.unavailable)
            && (is_directional thesis.fundamental_view
                && num.lt (num.decimal 8 1) thesis.confidence))
          (missing && not admitted) in
      (
        λ h. elim (Bool-cases admitted) [
          | inl a ↦ inl (is_insufficient-eq _ a)
          | inr a ↦ inr ((not_empty_iff ctx.financial_metrics).0 (ground (arith, e, h, a)))
        ],
        λ b. elim b [
          | inl v ↦ let a = is_insufficient_refl _ v in ground (arith, e, a)
          | inr v ↦ let m = (not_empty_iff ctx.financial_metrics).1 v in ground (arith, e, m)
        ],
      )

module _ {W : Type 0} ⦃num : Float W⦄ ⦃texts : FloatText W⦄ where
  checks_of_iff :
      (known : List String) (evs : List EvidenceRef) (values : List W) (rendered : String)
      (ss : List Placed) (r : Verified) (cal : List CriticFinding) (B : Type 0)
      → Clear values rendered ss r
      → (is_empty (filter is_critical cal) ≡ true) ↔ B
      → ((checks_of (check_evidence known evs ++ r.0) (r.1 ++ cal)).passed ≡ true)
        ↔ (All (IsCited known) evs × All (IsTraceable values rendered) ss × B)
  checks_of_iff known evs values rendered ss (checks, findings) cal B (clear, quiet) basis =
      let split = any-append fails (check_evidence known evs) checks in
      let cited = check_evidence_iff known evs in
      (
        λ h.
            let e : any fails (check_evidence known evs) ≡ false = ground (arith, split, h) in
            let n : any fails checks ≡ false = ground (arith, split, h) in
            let none_found = quiet n in
            (
              cited.0 e,
              clear.0 n,
              basis.0 (
                  ground
                    (arith, ap (λ fs. is_empty (filter is_critical (fs ++ cal))) none_found, h)),
            ),
        λ (c, t, b).
            let e = cited.1 c in
            let n = clear.1 t in
            let none_found = ap (λ fs. is_empty (filter is_critical (fs ++ cal))) (quiet n) in
            let k = basis.1 b in ground (arith, split, e, n, none_found, k),
      )

  -- Where the checks return: a thesis passes exactly when each of its evidence references is known to
  -- the context by its source or its identifier, each number in its statements, catalysts and risks
  -- that is no year is grounded in the context, and it has figures to rest on or says
  -- `INSUFFICIENT_DATA`. Interpretations and conclusions are held to this as facts are.
  pub passed_iff :
      (thesis : InvestmentThesis W) (ctx : FundamentalResearchContext W) (rendered : String)
      (det : Checks)
      → run_deterministic_checks thesis ctx rendered ≡ returns det
      → (det.passed ≡ true) ↔ (
          All (IsCited (known_ids ctx)) thesis.evidence
          × All (IsTraceable (context_numbers ctx) rendered) (statements_of thesis)
          × HasBasis thesis ctx)
  unfolding run_deterministic_checks check_numerical_grounding check_evidence_existence
  passed_iff thesis ctx rendered det h =
      let (r, found, last) = >>=-eq-returns (check_numerical_grounding thesis ctx rendered) _ h in
      let clear =
        check_statements-Clear (context_numbers ctx) rendered (statements_of thesis) r found in
      subst
        (λ (x : Checks). (x.passed ≡ true) ↔ (
          All (IsCited (known_ids ctx)) thesis.evidence
          × All (IsTraceable (context_numbers ctx) rendered) (statements_of thesis)
          × HasBasis thesis ctx))
        (returns-injective last)
        (checks_of_iff (known_ids ctx) thesis.evidence (context_numbers ctx) rendered
          (statements_of thesis) r (check_insufficient_data_handling thesis ctx)
          (HasBasis thesis ctx) clear (calibration_iff thesis ctx))
