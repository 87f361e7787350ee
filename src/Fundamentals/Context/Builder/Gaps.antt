-- ===== src/Fundamentals/Context/Builder/Gaps.antt =====
-- Which gaps a context names, and what its hash depends on (services/fundamentals/context.py).
use Prim.Native.String.{String}
use agnostix_ai_quant_fund.Prelude.{
  ℕ, ◌≡◌, ◌∙◌, sym, ap, refl, inl, inr, Bool, true, false, not, ◌&&◌, ◌||◌, Option, List, [], ◌∷◌,
  any, filter, is_some, Bool-cases,
}
use agnostix_ai_quant_fund.Prelude.Text.{str_eq, eq_iff, lower, strip, upper}
use agnostix_ai_quant_fund.Prelude.Dicts.{lookup}
use agnostix_ai_quant_fund.Prelude.Members.{any-append}
use agnostix_ai_quant_fund.Prelude.Sort.{any-sort_by}
use agnostix_ai_quant_fund.Fundamentals.{Date}
use agnostix_ai_quant_fund.Fundamentals.Context.{FundamentalResearchContext}
use agnostix_ai_quant_fund.Fundamentals.Context.Selected.{
  text_lt, select_documents, select_news, freshness_to_quality,
}
use agnostix_ai_quant_fund.Fundamentals.Context.Builder.{
  Inputs, distinct, select_metrics, select_earnings, part_of, feed_of, evaluated_feed, is_present,
  text_or_empty, gaps_of, parts_of, compute_hash, build_fundamental_context,
}

or_false : (b : Bool) → (b || false) ≡ b
or_false true = refl
or_false false = refl

and_false : (b : Bool) → (b && false) ≡ false
and_false true = refl
and_false false = refl

and_true : (b : Bool) → (b && true) ≡ b
and_true true = refl
and_true false = refl

-- a filter that drops another text leaves the test as it is
any-others :
    (g x : String) (ys : List String)
    → str_eq g x ≡ false
    → any (str_eq g) (filter (λ y. not (str_eq x y)) ys) ≡ any (str_eq g) ys
any-others g x [] h = refl
any-others g x (y ∷ ys) h = elim (Bool-cases (str_eq x y)) [
  | inl e ↦
      let same : x ≡ y = (eq_iff x y).0 e in
      let unlike : str_eq g y ≡ false = ap (str_eq g) (sym same) ∙ h in
      rw (e, unlike) (any-others g x ys h)
  | inr e ↦ rw (e, any-others g x ys h) refl
]

any-distinct : (g : String) (xs : List String) → any (str_eq g) (distinct xs) ≡ any (str_eq g) xs
unfolding distinct
any-distinct g [] = refl
any-distinct g (x ∷ xs) = elim (Bool-cases (str_eq g x)) [
  | inl e ↦ rw e refl
  | inr e ↦ rw e (any-others g x (distinct xs) e ∙ any-distinct g xs)
]

any-part_of :
    (g gap datatype symbol : String) (present : Bool)
    → any (str_eq g) (part_of gap datatype symbol present).0 ≡ (str_eq g gap && not present)
unfolding part_of
any-part_of g gap datatype symbol true = sym (and_false (str_eq g gap))
any-part_of g gap datatype symbol false = or_false (str_eq g gap) ∙ sym (and_true (str_eq g gap))

-- the state of a feed says that it has no data, or none that is valid
abbrev pub is_unusable : String → Bool
is_unusable state = str_eq state "missing" || str_eq state "invalid"

any-evaluated_feed :
    (g name symbol unreported label state : String)
    → any
        (str_eq g)
        (evaluated_feed name symbol unreported label state (freshness_to_quality state)).0
      ≡ (is_unusable state && str_eq g name)
unfolding evaluated_feed
any-evaluated_feed g name symbol unreported label state = elim (Bool-cases (str_eq state "fresh")) [
  | inl e ↦ let at : state ≡ "fresh" = (eq_iff state "fresh").0 e in rw at refl
  | inr e ↦ elim (Bool-cases (str_eq state "stale")) [
    | inl f ↦ let at : state ≡ "stale" = (eq_iff state "stale").0 f in rw at refl
    | inr f ↦ elim (Bool-cases (str_eq state "missing")) [
      | inl h ↦
          let at : state ≡ "missing" = (eq_iff state "missing").0 h in
          rw at (or_false (str_eq g name))
      | inr h ↦ elim (Bool-cases (str_eq state "invalid")) [
        | inl k ↦ rw (e, f, h, k) (or_false (str_eq g name))
        | inr k ↦ rw (e, f, h, k) refl
      ]
    ]
  ]
]

-- a feed is a gap where it is absent or unusable
abbrev pub is_feed_gap : Bool → String → Bool
is_feed_gap present state = not present || is_unusable state

any-feed_of :
    (g name symbol lacking unreported label : String) (present : Bool) (state : String)
    → any (str_eq g) (feed_of name symbol lacking unreported label present state).0
      ≡ (is_feed_gap present state && str_eq g name)
unfolding feed_of
any-feed_of g name symbol lacking unreported label true state =
    any-evaluated_feed g name symbol unreported label state
any-feed_of g name symbol lacking unreported label false state = or_false (str_eq g name)

module _ {W : Type 0} (list_set : List Date → List Date) where
  -- the name is that of a part that is a gap
  abbrev pub names_gap : Inputs W → String → Bool
  names_gap i g =
      (str_eq g "company_profile" && not (is_some i.profile))
      || ((str_eq g "financial_metrics" && not (is_present (select_metrics list_set i.metrics)))
          || ((str_eq g "earnings" && not (is_present (select_earnings i.earnings)))
              || ((str_eq g "valuation" && not (is_some i.valuation))
                  || ((str_eq g "research_documents"
                        && not (is_present (select_documents i.documents)))
                      || ((is_feed_gap (is_present (select_news i.news))
                              (lower (strip (text_or_empty i.news_freshness)))
                            && str_eq g "news")
                          || ((is_feed_gap (is_present i.market_snapshot_summary) (
                                  lower (
                                    strip (
                                      text_or_empty
                                        (lookup str_eq i.market_snapshot_summary "overall_state"))))
                                && str_eq g "market_snapshot")
                              || false))))))

  any-parts_of :
      (g symbol : String) (i : Inputs W)
      → any (str_eq g) (gaps_of (parts_of list_set symbol i)) ≡ names_gap i g
  unfolding parts_of gaps_of
  any-parts_of g symbol i = simp (any-append, any-part_of, any-feed_of) refl

  -- A name stands in `unavailable` exactly where it is that of a gap: the profile or the valuation
  -- where there is none; the metrics, the earnings or the documents where none are selected; the news
  -- where no article is selected and the snapshot where its summary is empty, or either where its
  -- state, stripped and in lower case, is missing or invalid. No other name stands there.
  pub build_fundamental_context-gaps :
      (digest : FundamentalResearchContext W → String) (symbol : String) (i : Inputs W)
      (generated_at : Option ℕ) (now : ℕ) (g : String)
      → any
          (str_eq g)
          (build_fundamental_context list_set digest symbol i generated_at now).unavailable
        ≡ names_gap i g
  unfolding build_fundamental_context compute_hash
  build_fundamental_context-gaps digest symbol i generated_at now g =
      any-sort_by text_lt (str_eq g) (distinct (gaps_of (parts_of list_set (upper symbol) i)))
      ∙ any-distinct g (gaps_of (parts_of list_set (upper symbol) i))
      ∙ any-parts_of g (upper symbol) i
