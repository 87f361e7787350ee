-- ===== src/Options/Sorting.antt =====
-- The built-in `sorted(xs, key=key)` over float keys, as a stable insertion sort: the sort compares
-- keys by `<` alone, and items with equal keys keep their order.
use mathlib.Core.Option.{some-injective}
use agnostix_ai_quant_fund.Prelude.{
  ℕ, zero, suc, ◌≤◌, ◌≡◌, inl, inr, some, List, [], ◌∷◌, arith, All, All-get_elem?, get_elem?,
  Bool-cases, if◌then◌else◌,
}
use agnostix_ai_quant_fund.Number.{Float, ◌≼◌}
use agnostix_ai_quant_fund.Number.Order.{IsOrdered}

module _ {W : Type 0} ⦃num : Float W⦄ {A : Type 0} (key : A → W) where
  unfoldable pub insert_sorted : A → List A → List A
  insert_sorted x [] = x ∷ []
  insert_sorted x (y ∷ ys) =
      let rest = insert_sorted x ys in if num.lt (key y) (key x) then y ∷ rest else x ∷ y ∷ ys

  unfoldable pub sorted : List A → List A
  unfolding insert_sorted
  sorted [] = []
  sorted (x ∷ xs) = insert_sorted x (sorted xs)

  abbrev pub IsBelow : W → List A → Type 0
  IsBelow w = All (λ y. w ≼ key y)

  abbrev pub IsSorted : List A → Type 0
  IsSorted [] = Unit
  IsSorted (x ∷ xs) = IsBelow (key x) xs × IsSorted xs

  -- what holds of every item holds after sorting
  pub All-insert_sorted {κ} :
      (P : A → Type κ) (x : A) (ys : List A) → P x → All P ys → All P (insert_sorted x ys)
  unfolding insert_sorted
  All-insert_sorted P x [] p h = (p, tt)
  All-insert_sorted P x (y ∷ ys) p (q, qs) = elim (Bool-cases (num.lt (key y) (key x))) [
    | inl e ↦ rw e (q, All-insert_sorted P x ys p qs)
    | inr e ↦ rw e (p, (q, qs))
  ]

  pub All-sorted {κ} : (P : A → Type κ) (xs : List A) → All P xs → All P (sorted xs)
  unfolding sorted
  All-sorted P [] h = tt
  All-sorted P (x ∷ xs) (p, ps) = All-insert_sorted P x (sorted xs) p (All-sorted P xs ps)

  -- and what holds of every sorted item held before
  All-of_insert_sorted {κ} :
      (P : A → Type κ) (x : A) (ys : List A) → All P (insert_sorted x ys) → P x × All P ys
  unfolding insert_sorted
  All-of_insert_sorted P x [] h = h
  All-of_insert_sorted P x (y ∷ ys) h = elim (Bool-cases (num.lt (key y) (key x))) [
    | inl e ↦
        let (q, rest) = rw e at h in let (p, qs) = All-of_insert_sorted P x ys rest in (p, (q, qs))
    | inr e ↦ rw e at h
  ]

  pub All-of_sorted {κ} : (P : A → Type κ) (xs : List A) → All P (sorted xs) → All P xs
  unfolding sorted
  All-of_sorted P [] h = tt
  All-of_sorted P (x ∷ xs) h =
      let (p, ps) = All-of_insert_sorted P x (sorted xs) h in (p, All-of_sorted P xs ps)

  module _ (laws : IsOrdered W) where
    IsBelow-trans : (v w : W) (ys : List A) → v ≼ w → IsBelow w ys → IsBelow v ys
    IsBelow-trans v w [] h b = tt
    IsBelow-trans v w (y ∷ ys) h (p, ps) = (laws.le_trans _ _ _ h p, IsBelow-trans v w ys h ps)

    insert_sorted-IsSorted : (x : A) (ys : List A) → IsSorted ys → IsSorted (insert_sorted x ys)
    unfolding insert_sorted
    insert_sorted-IsSorted x [] h = (tt, tt)
    insert_sorted-IsSorted x (y ∷ ys) (b, s) = elim (Bool-cases (num.lt (key y) (key x))) [
      | inl e ↦ rw e (
        All-insert_sorted (λ z. key y ≼ key z) x ys (laws.le_of_lt _ _ e) b,
        insert_sorted-IsSorted x ys s,
      )
      | inr e ↦ rw e (
          let le : key x ≼ key y = ground (arith, laws.lt-eq-not-le (key y) (key x)) in
          ((le, IsBelow-trans (key x) (key y) ys le b), (b, s)))
    ]

    pub sorted-IsSorted : (xs : List A) → IsSorted (sorted xs)
    unfolding sorted
    sorted-IsSorted [] = tt
    sorted-IsSorted (x ∷ xs) = insert_sorted-IsSorted x (sorted xs) (sorted-IsSorted xs)

    -- in a sorted list a later index has a key that is not smaller
    pub IsSorted-get_elem? :
        (xs : List A) (i j : ℕ) {a b : A}
        → IsSorted xs
        → i ≤ j
        → get_elem? xs i ≡ some a
        → get_elem? xs j ≡ some b
        → key a ≼ key b
    IsSorted-get_elem? [] i j s h p q = cc
    IsSorted-get_elem? (x ∷ xs) zero zero s h p q =
        rw (← some-injective _ _ p, ← some-injective _ _ q) (laws.le_refl (key x))
    IsSorted-get_elem? (x ∷ xs) zero (suc j) (below, s) h p q =
        rw (← some-injective _ _ p) (All-get_elem? (λ y. key x ≼ key y) xs j below q)
    IsSorted-get_elem? (x ∷ xs) (suc i) zero s h p q = absurd (omega arith)
    IsSorted-get_elem? (x ∷ xs) (suc i) (suc j) (b, s) h p q =
        IsSorted-get_elem? xs i j s (omega arith) p q
