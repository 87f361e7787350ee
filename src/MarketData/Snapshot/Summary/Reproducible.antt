-- ===== src/MarketData/Snapshot/Summary/Reproducible.antt =====
-- What the summary of a snapshot depends on (services/market_data/snapshot.py).
use Prim.Native.String.{String}
use agnostix_ai_quant_fund.Prelude.{
  ◌≡◌, ◌∙◌, sym, ap, refl, true, Option, some, List, [], ◌∷◌, All, map, is_some,
}
use agnostix_ai_quant_fund.Prelude.Text.{upper}
use agnostix_ai_quant_fund.Prelude.Outcome.{returns}
use agnostix_ai_quant_fund.Prelude.Int.{ℤ}
use agnostix_ai_quant_fund.MarketData.{
  DateTime, FreshnessState, fresh, stale, missing, invalid, MarketDataStatus, overall_state, worse,
  worst_from,
}
use agnostix_ai_quant_fund.MarketData.Freshness.{evaluate_freshness}
use agnostix_ai_quant_fund.MarketData.Freshness.States.{timeless, evaluate_freshness-timeless}
use agnostix_ai_quant_fund.MarketData.Snapshot.{Repositories, MarketSnapshot, with_detail}
use agnostix_ai_quant_fund.MarketData.Snapshot.Builder.{build_snapshot}
use agnostix_ai_quant_fund.MarketData.Snapshot.Builder.Fresh.{
  status_at, status_state, IsArticle, build_snapshot_total, reports_of,
}
use agnostix_ai_quant_fund.MarketData.Snapshot.Summary.{status_summary, snapshot_research_summary}

-- the detail of a missing record does not change the age
with_detail-timeless :
    (p : FreshnessState × MarketDataStatus)
    → timeless (with_detail p) ≡ with_detail (p.0, timeless p.1)
unfolding with_detail
with_detail-timeless (fresh, s) = refl
with_detail-timeless (stale, s) = refl
with_detail-timeless (missing, s) = refl
with_detail-timeless (invalid, s) = refl

-- two reports of the same state on the same record differ in their age only
status_at-timeless :
    (datatype : String) (threshold : ℤ) (symbol : String) (event_time : Option DateTime)
    (now later : DateTime)
    → (status_at datatype threshold symbol event_time now).state
      ≡ (status_at datatype threshold symbol event_time later).state
    → timeless (status_at datatype threshold symbol event_time now)
      ≡ timeless (status_at datatype threshold symbol event_time later)
status_at-timeless datatype threshold symbol event_time now later h =
    let at : DateTime → FreshnessState × MarketDataStatus =
      λ t. evaluate_freshness event_time t threshold symbol datatype in
    let same : (at now).0 ≡ (at later).0 =
      sym (status_state datatype threshold symbol event_time now)
      ∙ h
      ∙ status_state datatype threshold symbol event_time later in
    let reports = evaluate_freshness-timeless event_time now later threshold symbol datatype same in
    with_detail-timeless (at now)
    ∙ ap (λ s. with_detail ((at now).0, s)) reports
    ∙ ap (λ x. with_detail (x, timeless (at later).1)) same
    ∙ sym (with_detail-timeless (at later))

-- the dictionary of a report leaves its age out
status_summary-timeless :
    (isoformat : DateTime → String) (a b : MarketDataStatus)
    → timeless a ≡ timeless b
    → status_summary isoformat a ≡ status_summary isoformat b
unfolding status_summary
status_summary-timeless isoformat a b h = ap (status_summary isoformat) h

∷-injective {ℓ} :
    {A : Type ℓ} {x y : A} {xs ys : List A} → (x ∷ xs) ≡ (y ∷ ys) → (x ≡ y) × (xs ≡ ys)
∷-injective h = (cc, cc)

-- the states of reports
abbrev pub states : List MarketDataStatus → List FreshnessState
states = map (λ s. s.state)

-- the reports differ pairwise in their ages only, where their states agree
abbrev Twins : List MarketDataStatus → List MarketDataStatus → Type 0
Twins [] ys = Unit
Twins (x ∷ xs) [] = ⊥
Twins (x ∷ xs) (y ∷ ys) = (x.state ≡ y.state → timeless x ≡ timeless y) × Twins xs ys

summaries_same :
    (isoformat : DateTime → String) (xs ys : List MarketDataStatus)
    → Twins xs ys
    → states xs ≡ states ys
    → map (status_summary isoformat) xs ≡ map (status_summary isoformat) ys
summaries_same isoformat [] [] twins h = refl
summaries_same isoformat [] (y ∷ ys) twins h = cc
summaries_same isoformat (x ∷ xs) [] twins h = cc
summaries_same isoformat (x ∷ xs) (y ∷ ys) (same, twins) h =
    let (first, rest) = ∷-injective h in
    rw
      (
        status_summary-timeless isoformat x y (same first),
        summaries_same isoformat xs ys twins rest,
      )
      refl

worst_from_same :
    (xs ys : List MarketDataStatus) (worst : FreshnessState)
    → states xs ≡ states ys
    → worst_from worst xs ≡ worst_from worst ys
unfolding worst_from
worst_from_same [] [] worst h = refl
worst_from_same [] (y ∷ ys) worst h = cc
worst_from_same (x ∷ xs) [] worst h = cc
worst_from_same (x ∷ xs) (y ∷ ys) worst h =
    let (first, rest) = ∷-injective h in rw first (worst_from_same xs ys (worse worst y.state) rest)

overall_state_same :
    (xs ys : List MarketDataStatus) → states xs ≡ states ys → overall_state xs ≡ overall_state ys
unfolding overall_state
overall_state_same xs ys h = worst_from_same xs ys fresh h

module _ {D F : Type 0} (isoformat : DateTime → String) (to_float : D → F) (db : Repositories D)
    (clock : DateTime) where
  -- The summary does not depend on when the snapshot was taken beyond the states: two snapshots of a
  -- symbol from the same stored rows, at instants that have a zone, both exist where every stored
  -- article has a headline and times with zones, and their summaries are the same where the states of
  -- their four reports are the same.
  pub summary_reproducible :
      (symbol : String) (now later : DateTime)
      → is_some now.utc_offset ≡ true
      → is_some later.utc_offset ≡ true
      → All IsArticle (db.get_recent_news (upper symbol ∷ []) 10)
      → (a b : MarketSnapshot D F) × (build_snapshot F db clock symbol (some now) ≡ returns a)
        × (build_snapshot F db clock symbol (some later) ≡ returns b)
        × (states a.data_quality ≡ states b.data_quality
            → snapshot_research_summary isoformat to_float a
              ≡ snapshot_research_summary isoformat to_float b)
  unfolding snapshot_research_summary
  summary_reproducible symbol now later aware aware' valid =
      let (_, built) = build_snapshot_total F db clock symbol now aware valid in
      let (_, built') = build_snapshot_total F db clock symbol later aware' valid in
      let reports = reports_of F db clock (upper symbol) in
      let twins : Twins (reports now) (reports later) = (
        status_at-timeless _ _ _ _ now later,
        (
          status_at-timeless _ _ _ _ now later,
          (status_at-timeless _ _ _ _ now later, (status_at-timeless _ _ _ _ now later, tt)),
        ),
      ) in
      (
        _,
        _,
        built,
        built',
        λ h.
            rw
              (
                summaries_same isoformat (reports now) (reports later) twins h,
                overall_state_same (reports now) (reports later) h,
              )
              refl,
      )
