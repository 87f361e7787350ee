-- ===== src/Prelude/Sort.antt =====
-- The built-in sort as a stable insertion sort: `before a b` says that `a` has to stand before `b`,
-- which is `key a < key b`, and `key b < key a` with `reverse=True`; equal items keep their order.
use mathlib.Core.Path.{◌≡◌, refl}
use mathlib.Core.Logic.{◌⊎◌, inl, inr}
use mathlib.Core.Bool.{Bool, true, false, ◌||◌}
use mathlib.Core.List.{List, [], ◌∷◌}
use agnostix_ai_quant_fund.Prelude.Lists.{any, All, Has, All-imp}
use agnostix_ai_quant_fund.Prelude.Tests.{Bool-cases, if◌then◌else◌}

||-swap : (a b c : Bool) → (a || (b || c)) ≡ (b || (a || c))
||-swap true true c = refl
||-swap true false c = refl
||-swap false b c = refl

-- every item is in the relation to all that follow
abbrev pub Ordered {κ} : {A : Type 0} → (A → A → Type κ) → List A → Type κ
Ordered R [] = Unit
Ordered R (x ∷ xs) = All (R x) xs × Ordered R xs

module _ {A : Type 0} (before : A → A → Bool) where
  unfoldable pub insert_by : A → List A → List A
  insert_by x [] = x ∷ []
  insert_by x (y ∷ ys) = let rest = insert_by x ys in if before y x then y ∷ rest else x ∷ y ∷ ys

  unfoldable pub sort_by : List A → List A
  sort_by [] = []
  sort_by (x ∷ xs) = insert_by x (sort_by xs)

  pub All-insert_by {κ} :
      (P : A → Type κ) (x : A) (ys : List A) → P x → All P ys → All P (insert_by x ys)
  unfolding insert_by
  All-insert_by P x [] p h = (p, tt)
  All-insert_by P x (y ∷ ys) p (q, qs) = elim (Bool-cases (before y x)) [
    | inl e ↦ rw e (q, All-insert_by P x ys p qs)
    | inr e ↦ rw e (p, (q, qs))
  ]

  pub All-sort_by {κ} : (P : A → Type κ) (xs : List A) → All P xs → All P (sort_by xs)
  unfolding sort_by
  All-sort_by P [] h = tt
  All-sort_by P (x ∷ xs) (p, ps) = All-insert_by P x (sort_by xs) p (All-sort_by P xs ps)

  Has-insert_by : (a x : A) (ys : List A) → (x ≡ a) ⊎ Has a ys → Has a (insert_by x ys)
  unfolding insert_by
  Has-insert_by a x [] (inl e) = inl e
  Has-insert_by a x [] (inr m) = absurd m
  Has-insert_by a x (y ∷ ys) h = elim (Bool-cases (before y x)) [
    | inl e ↦ rw e (placed (λ k. Has-insert_by a x ys k) h)
    | inr e ↦ rw e h
  ]
    where
      placed :
          ((x ≡ a) ⊎ Has a ys → Has a (insert_by x ys))
          → (x ≡ a) ⊎ Has a (y ∷ ys)
          → Has a (y ∷ insert_by x ys)
      placed below (inl same) = inr (below (inl same))
      placed below (inr (inl same)) = inl same
      placed below (inr (inr m)) = inr (below (inr m))

  -- the sort loses no item
  pub Has-sort_by : (a : A) (xs : List A) → Has a xs → Has a (sort_by xs)
  unfolding sort_by
  Has-sort_by a [] m = absurd m
  Has-sort_by a (x ∷ xs) (inl same) = Has-insert_by a x (sort_by xs) (inl same)
  Has-sort_by a (x ∷ xs) (inr m) = Has-insert_by a x (sort_by xs) (inr (Has-sort_by a xs m))

  any-insert_by : (p : A → Bool) (x : A) (ys : List A) → any p (insert_by x ys) ≡ (p x || any p ys)
  unfolding insert_by
  any-insert_by p x [] = refl
  any-insert_by p x (y ∷ ys) = elim (Bool-cases (before y x)) [
    | inl e ↦ rw (e, any-insert_by p x ys) (||-swap (p y) (p x) (any p ys))
    | inr e ↦ rw e refl
  ]

  -- the sort keeps what some item passes
  pub any-sort_by : (p : A → Bool) (xs : List A) → any p (sort_by xs) ≡ any p xs
  unfolding sort_by
  any-sort_by p [] = refl
  any-sort_by p (x ∷ xs) = rw (any-insert_by p x (sort_by xs), any-sort_by p xs) refl

  module _ (R : A → A → Type 0) (first : (x y : A) → before y x ≡ true → R y x)
      (later : (x y : A) → before y x ≡ false → R x y)
      (trans : (x y z : A) → R x y → R y z → R x z) where
    insert_by-Ordered : (x : A) (ys : List A) → Ordered R ys → Ordered R (insert_by x ys)
    unfolding insert_by
    insert_by-Ordered x [] h = (tt, tt)
    insert_by-Ordered x (y ∷ ys) (h, hs) = elim (Bool-cases (before y x)) [
      | inl e ↦ rw e (All-insert_by (R y) x ys (first x y e) h, insert_by-Ordered x ys hs)
      | inr e ↦
          let r = later x y e in rw e ((r, All-imp (R y) (R x) (λ z. trans x y z r) ys h), (h, hs))
    ]

    pub sort_by-Ordered : (xs : List A) → Ordered R (sort_by xs)
    unfolding sort_by
    sort_by-Ordered [] = tt
    sort_by-Ordered (x ∷ xs) = insert_by-Ordered x (sort_by xs) (sort_by-Ordered xs)
