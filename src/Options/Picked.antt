-- ===== src/Options/Picked.antt =====
-- The quote that `_pick_by_delta` takes (services/options/strategies.py), and where it stands.
use mathlib.Core.Option.{some-injective}
use mathlib.Core.Path.{subst}
use agnostix_ai_quant_fund.Prelude.{
  ℕ, suc, ◌≡◌, refl, inl, inr, Bool, true, Option, none, some, List, [], ◌∷◌, arith, All, filter,
  any, is_some, get_elem?, Bool-cases, ◌==◌, sym,
}
use agnostix_ai_quant_fund.Prelude.Text.{eq_refl}
use agnostix_ai_quant_fund.Prelude.Outcome.{returns, returns-injective, >>=-eq-returns, >>=-then}
use agnostix_ai_quant_fund.Number.{Float}
use agnostix_ai_quant_fund.Number.Order.{IsOrdered}
use agnostix_ai_quant_fund.Options.{OptionQuote}
use agnostix_ai_quant_fund.Options.Sorting.{All-sorted, sorted}
use agnostix_ai_quant_fund.Options.Quotes.{
  option_eq, quote_eq, index, distance, keyed, first_quote, pick_by_delta,
}

module _ {ℓ} {A : Type ℓ} where
  pub All-filter {κ} :
      (P : A → Type κ) (p : A → Bool) (xs : List A)
      → All P xs
      → All (λ x. P x × (p x ≡ true)) (filter p xs)
  All-filter P p [] h = tt
  All-filter P p (x ∷ xs) (q, qs) = elim (Bool-cases (p x)) [
    | inl e ↦ rw e ((q, e), All-filter P p xs qs)
    | inr e ↦ rw e (All-filter P p xs qs)
  ]

count_eq_refl : (x : Option ℕ) → option_eq ◌==◌ x x ≡ true
count_eq_refl none = refl
count_eq_refl (some n) = ground arith

module _ {W : Type 0} ⦃num : Float W⦄ where
  keyed-All {κ} :
      (P : OptionQuote W → Type κ) (target : W) (qs : List (OptionQuote W))
      {keys : List (W × OptionQuote W)}
      → All P qs
      → keyed target qs ≡ returns keys
      → All (λ p. P p.1) keys
  unfolding keyed
  keyed-All P target [] h e = rw (sym (returns-injective e)) tt
  keyed-All P target (q ∷ qs) (p, ps) e = >>=-then (distance target q) _ e λ key _ e1.
      >>=-then (keyed target qs) _ e1
        λ rest more e2. rw (sym (returns-injective e2)) (p, keyed-All P target qs ps more)

  All-first_quote {κ} :
      (P : OptionQuote W → Type κ) (keys : List (W × OptionQuote W)) {q : OptionQuote W}
      → All (λ p. P p.1) keys
      → first_quote keys ≡ some q
      → P q
  All-first_quote P [] h e = cc
  All-first_quote P ((key, q) ∷ keys) (p, _) e = subst P (some-injective _ _ e) p

  keyed_total :
      (target : W) (qs : List (OptionQuote W))
      → All (λ q. ((key : W) × (distance target q ≡ returns key)) × (is_some q.delta ≡ true)) qs
      → (keys : List (W × OptionQuote W)) × (keyed target qs ≡ returns keys)
  unfolding keyed
  keyed_total target [] h = ([], refl)
  keyed_total target (q ∷ qs) (((key, e), _), h) =
      let (keys, more) = keyed_total target qs h in ((key, q) ∷ keys, rw (e, more) refl)

  -- where no key overflows, a quote is picked or none
  pub pick_total :
      (quotes : List (OptionQuote W)) (target : W)
      → All (λ q. (key : W) × (distance target q ≡ returns key)) quotes
      → (o : Option (OptionQuote W)) × (pick_by_delta quotes target ≡ returns o)
  unfolding pick_by_delta
  pick_total quotes target h =
      let (keys, e) = keyed_total target _ (All-filter _ (λ q. is_some q.delta) quotes h) in
      (first_quote (sorted (λ p. p.0) keys), rw e refl)

  -- what holds of every quote holds of the one that is picked, and it has a delta
  pub pick-All {κ} :
      (P : OptionQuote W → Type κ) (quotes : List (OptionQuote W)) (target : W) {q : OptionQuote W}
      → All P quotes
      → pick_by_delta quotes target ≡ returns (some q)
      → P q × (is_some q.delta ≡ true)
  unfolding pick_by_delta
  pick-All P quotes target h e =
      >>=-then (keyed target (filter (λ q. is_some q.delta) quotes)) _ e λ keys found last.
        let Q : OptionQuote W → Type κ = λ q. P q × (is_some q.delta ≡ true) in
        All-first_quote Q _
          (All-sorted (λ p. p.0) (λ p. Q p.1) keys
            (keyed-All Q target _ (All-filter P (λ q. is_some q.delta) quotes h) found))
          (returns-injective last)

  module _ (laws : IsOrdered W) where
    option_eq_refl : (x : Option W) → option_eq num.eq x x ≡ true
    option_eq_refl none = refl
    option_eq_refl (some x) = laws.eq_refl x

    quote_eq_refl : (q : OptionQuote W) → quote_eq q q ≡ true
    unfolding quote_eq
    quote_eq_refl q = simp (laws.eq_refl, option_eq_refl, eq_refl, count_eq_refl)

    any-cons :
        (z : OptionQuote W) (xs ys : List (OptionQuote W))
        → All (λ x. any (λ y. quote_eq y x) ys ≡ true) xs
        → All (λ x. any (λ y. quote_eq y x) (z ∷ ys) ≡ true) xs
    any-cons z [] ys h = tt
    any-cons z (x ∷ xs) ys (h, hs) = (ground arith, any-cons z xs ys hs)

    -- every quote of a list equals some quote of it
    any_refl : (xs : List (OptionQuote W)) → All (λ x. any (λ y. quote_eq y x) xs ≡ true) xs
    any_refl [] = tt
    any_refl (x ∷ xs) = (rw (quote_eq_refl x) refl, any-cons x xs xs (any_refl xs))

  index_of_any :
      (q : OptionQuote W) (xs : List (OptionQuote W))
      → any (λ y. quote_eq y q) xs ≡ true
      → (i : ℕ) × (index q xs ≡ returns i)
  unfolding index
  index_of_any q [] h = cc
  index_of_any q (x ∷ xs) h = elim (Bool-cases (quote_eq x q)) [
    | inl e ↦ (0, rw e)
    | inr e ↦ let (i, r) = index_of_any q xs (rw e at h) in (suc i, rw (e, r))
  ]

  -- where `index` says that an equal quote stands, one does
  pub index-get_elem? :
      (q : OptionQuote W) (xs : List (OptionQuote W)) (i : ℕ)
      → index q xs ≡ returns i
      → (x : OptionQuote W) × (get_elem? xs i ≡ some x) × (quote_eq x q ≡ true)
  unfolding index
  index-get_elem? q [] i h = cc
  index-get_elem? q (x ∷ xs) i h = elim (Bool-cases (quote_eq x q)) [
    | inl e ↦ let at_zero : i ≡ 0 = ground arith in rw at_zero (x, refl, e)
    | inr e ↦
        let (j, found, last) = >>=-eq-returns (index q xs) (λ j. returns (suc j)) (rw e at h) in
        let (y, got, same) = index-get_elem? q xs j found in
        let at : i ≡ suc j = ground arith in rw at (y, got, same)
  ]

  -- Under the laws of order, `index` finds the quote that was picked.
  pub index-pick :
      (laws : IsOrdered W) (quotes : List (OptionQuote W)) (target : W) {q : OptionQuote W}
      → pick_by_delta quotes target ≡ returns (some q)
      → (i : ℕ) × (index q quotes ≡ returns i)
  index-pick laws quotes target e =
      index_of_any _ quotes
        (pick-All (λ x. any (λ y. quote_eq y x) quotes ≡ true) quotes target (any_refl laws quotes)
          e).0
