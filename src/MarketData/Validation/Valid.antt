-- ===== src/MarketData/Validation/Valid.antt =====
-- What a record without problems is, and that a batch is split without loss
-- (services/market_data/validation.py).
use Prim.Native.String.{String}
use agnostix_ai_quant_fund.Prelude.{
  ℕ, zero, suc, ◌+◌, ◌≤◌, ◌≡◌, ◌≢◌, ◌↔◌, refl, ap, sym, ◌∙◌, inl, inr, Bool, true, false, not, some,
  List, [], ◌∷◌, ◌++◌, length, get_elem?, filter, All, ltb, arith, Bool-cases, if◌then◌else◌,
}
use agnostix_ai_quant_fund.Number.{Float, ◌≼◌, ◌≺◌, nought, max_float, min_float}
use agnostix_ai_quant_fund.Number.Order.{IsOrdered}
use agnostix_ai_quant_fund.MarketData.{Bar}
use agnostix_ai_quant_fund.MarketData.Validation.{
  skew_tolerance, report, future_check, validate_bar, has_problems, validate_from, validate_batch,
}

append_not_nil : (ps : List String) (p : String) → (ps ++ (p ∷ [])) ≢ []
append_not_nil [] p e = cc
append_not_nil (q ∷ ps) p e = cc

report_empty :
    (bad : Bool) (p : String) (ps : List String)
    → (report bad p ps ≡ []) ↔ ((bad ≡ false) × (ps ≡ []))
unfolding report
report_empty true p ps = (λ h. absurd (append_not_nil ps p h), λ (e, _). cc)
report_empty false p ps = (λ h. (refl, h), λ (_, h). h)

future_check_empty :
    (now t : ℕ) (p : String) (ps : List String)
    → (future_check now t p ps ≡ []) ↔ ((t ≤ now + skew_tolerance) × (ps ≡ []))
unfolding future_check
future_check_empty now t p ps =
    let r = report_empty (ltb (now + skew_tolerance) t) p ps in
    (λ h. let (a, b) = r.0 h in (ground (arith, a), b), λ (a, b). r.1 (ground (arith, a), b))

module _ {W : Type 0} ⦃num : Float W⦄ where
  -- a bar whose low and high enclose its open and its close, with a positive close and a volume that
  -- is not negative, not later than the clock and its tolerance
  pub record IsConsistent (now : ℕ) (b : Bar W) : Type 0 where
    pub ordered : b.low ≼ b.high
    pub open_below : b.open_price ≼ b.high
    pub close_below : b.close ≼ b.high
    pub open_above : b.low ≼ b.open_price
    pub close_above : b.low ≼ b.close
    pub volume : nought ≼ b.volume
    pub close : nought ≺ b.close
    pub time : b.event_time ≤ now + skew_tolerance

  module _ (laws : IsOrdered W) where
    max_below : (x y z : W) → (num.lt z (max_float x y) ≡ false) ↔ ((x ≼ z) × (y ≼ z))
    unfolding max_float
    max_below x y z = (
      λ h. ground (
        arith,
        laws.lt-eq-not-le z x,
        laws.lt-eq-not-le z y,
        laws.lt-eq-not-le x y,
        laws.le_trans x y z,
        laws.le_trans y x z,
        laws.le_of_lt x y,
      ),
      λ (a, b). ground (arith, laws.lt-eq-not-le z x, laws.lt-eq-not-le z y, a, b),
    )

    min_above : (x y z : W) → (num.lt (min_float x y) z ≡ false) ↔ ((z ≼ x) × (z ≼ y))
    unfolding min_float
    min_above x y z = (
      λ h. ground (
        arith,
        laws.lt-eq-not-le x z,
        laws.lt-eq-not-le y z,
        laws.lt-eq-not-le y x,
        laws.le_trans z x y,
        laws.le_trans z y x,
        laws.le_of_lt y x,
      ),
      λ (a, b). ground (arith, laws.lt-eq-not-le x z, laws.lt-eq-not-le y z, a, b),
    )

    -- Under the laws of order: `validate_bar` has no complaint exactly when the bar is consistent.
    pub validate_bar_iff : (now : ℕ) (b : Bar W) → (validate_bar now b ≡ []) ↔ IsConsistent now b
    unfolding validate_bar
    validate_bar_iff now b =
        let time = future_check_empty now b.event_time _ _ in
        let close = report_empty (num.le b.close nought) _ _ in
        let volume = report_empty (num.lt b.volume nought) _ _ in
        let low = report_empty (num.lt (min_float b.open_price b.close) b.low) _ _ in
        let high = report_empty (num.lt b.high (max_float b.open_price b.close)) _ _ in
        let order = report_empty (num.lt b.high b.low) _ [] in
        let above = min_above b.open_price b.close b.low in
        let below = max_below b.open_price b.close b.high in
        (
          λ h.
              let (t, h1) = time.0 h in
              let (c, h2) = close.0 h1 in
              let (v, h3) = volume.0 h2 in
              let (l, h4) = low.0 h3 in
              let (hi, h5) = high.0 h4 in
              let (o, _) = order.0 h5 in
              record {
                ordered = ground (arith, o, laws.lt-eq-not-le b.high b.low);
                open_below = (below.0 hi).0;
                close_below = (below.0 hi).1;
                open_above = (above.0 l).0;
                close_above = (above.0 l).1;
                volume = ground (arith, v, laws.lt-eq-not-le b.volume nought);
                close = ground (arith, c, laws.lt-eq-not-le nought b.close);
                time = t;
              },
          λ m. time.1 (
            m.time,
            close.1 (
              ground (arith, m.close, laws.lt-eq-not-le nought b.close),
              volume.1 (
                ground (arith, m.volume, laws.lt-eq-not-le b.volume nought),
                low.1 (
                  above.1 (m.open_above, m.close_above),
                  high.1 (
                    below.1 (m.open_below, m.close_below),
                    order.1 (ground (arith, m.ordered, laws.lt-eq-not-le b.high b.low), refl),
                  ),
                ),
              ),
            ),
          ),
        )

module _ {ℓ} {A : Type ℓ} where
  filter_skip : (p : A → Bool) (x : A) (xs : List A) → p x ≡ false → filter p (x ∷ xs) ≡ filter p xs
  filter_skip p x xs e = ap (λ b. if b then x ∷ filter p xs else filter p xs) e

  filter_keep :
      (p : A → Bool) (x : A) (xs : List A) → p x ≡ true → filter p (x ∷ xs) ≡ x ∷ filter p xs
  filter_keep p x xs e = ap (λ b. if b then x ∷ filter p xs else filter p xs) e

module _ {ℓ} {A : Type ℓ} (validator : A → List String) where
  abbrev pub is_valid : A → Bool
  is_valid x = not (has_problems (validator x))

  -- an index from `i` on with the problems of the item that stands there
  abbrev pub PointsAt : ℕ → List A → ℕ × List String → Type ℓ
  PointsAt i items (j, problems) =
      (k : ℕ) × (x : A) × (j ≡ i + k)
      × (get_elem? items k ≡ some x)
      × (validator x ≡ problems)
      × (has_problems problems ≡ true)

  -- the two halves of a batch
  pub record IsSplit (i : ℕ) (items : List A) (halves : List A × List (ℕ × List String))
      : Type ℓ where
    pub valid : halves.0 ≡ filter is_valid items
    pub invalid : All (PointsAt i items) halves.1
    pub complete : length halves.0 + length halves.1 ≡ length items

  shift_points :
      (i : ℕ) (x : A) (items : List A) (ps : List (ℕ × List String))
      → All (PointsAt (suc i) items) ps
      → All (PointsAt i (x ∷ items)) ps
  shift_points i x items [] h = tt
  shift_points i x items ((j, problems) ∷ ps) ((k, y, at, here, same, bad), h) =
      ((suc k, y, omega (arith, at), here, same, bad), shift_points i x items ps h)

  validate_from-IsSplit :
      (i : ℕ) (items : List A) → IsSplit i items (validate_from validator i items)
  unfolding validate_from
  validate_from-IsSplit i [] = record { valid = refl; invalid = tt; complete = omega arith }
  validate_from-IsSplit i (x ∷ items) =
      let rest = validate_from-IsSplit (suc i) items in
      elim (Bool-cases (has_problems (validator x))) [
        | inl e ↦ rw e (record {
          valid = rest.valid ∙ sym (filter_skip is_valid x items (ap not e));
          invalid = ((zero, x, omega arith, refl, refl, e), shift_points i x items _ rest.invalid);
          complete = omega (arith, rest.complete);
        })
        | inr e ↦ rw e (record {
          valid = ap (λ ys. x ∷ ys) rest.valid ∙ sym (filter_keep is_valid x items (ap not e));
          invalid = shift_points i x items _ rest.invalid;
          complete = omega (arith, rest.complete);
        })
      ]

  -- `validate_batch` splits a batch without loss: the valid half is the items without problems, in
  -- their order; each entry of the other half is the index of an item with the problems of that
  -- item, of which there are some; and the two halves have as many entries as the batch.
  validate_batch-IsSplit : (items : List A) → IsSplit 0 items (validate_batch validator items)
  unfolding validate_batch
  validate_batch-IsSplit items = validate_from-IsSplit 0 items
