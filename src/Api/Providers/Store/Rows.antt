-- ===== src/Api/Providers/Store/Rows.antt =====
-- Rows by their identifiers (apps/api/app/db/repositories/provider_repo.py).
use agnostix_ai_quant_fund.Prelude.{
  ℕ, ◌≡◌, sym, refl, inl, inr, Bool, true, false, not, ◌&&◌, none, some, List, [], ◌∷◌, ◌++◌, All,
  All-imp, filter, ◌==◌, ==_iff, Bool-cases,
}
use agnostix_ai_quant_fund.Api.Providers.{ProviderConfiguration}
use agnostix_ai_quant_fund.Api.Providers.Store.{is_visible, find_visible, put_row}

-- no two rows have the same identifier
abbrev pub HasKeys : List ProviderConfiguration → Type 0
HasKeys [] = Unit
HasKeys (c ∷ rest) = All (λ d. (d.id == c.id) ≡ false) rest × HasKeys rest

-- the rows that the user does not see
abbrev pub hidden : ℕ → List ProviderConfiguration → List ProviderConfiguration
hidden user = filter (λ c. not (is_visible user c))

-- every row with the identifier is visible
abbrev pub OnlyVisible : ℕ → ℕ → List ProviderConfiguration → Type 0
OnlyVisible user id = All (λ c. (c.id == id) ≡ true → is_visible user c ≡ true)

pub find_visible-found :
    (id user : ℕ) (cs : List ProviderConfiguration) {row : ProviderConfiguration}
    → find_visible id user cs ≡ some row
    → ((row.id == id) ≡ true) × (is_visible user row ≡ true)
unfolding find_visible
find_visible-found id user [] h = cc
find_visible-found id user (c ∷ rest) {row} h = elim (Bool-cases (c.id == id)) [
  | inr e ↦ find_visible-found id user rest (rw e at h)
  | inl e ↦ elim (Bool-cases (is_visible user c)) [
    | inr f ↦ find_visible-found id user rest (rw (e, f) at h)
    | inl f ↦
        let same : c ≡ row = mathlib.Core.Option.some-injective _ _ (rw (e, f) at h) in
        rw (sym same) (e, f)
  ]
]

abbrev Others : ℕ → List ProviderConfiguration → Type 0
Others id = All (λ d. (d.id == id) ≡ false)

find_visible-none :
    (id user : ℕ) (cs : List ProviderConfiguration) → Others id cs → find_visible id user cs ≡ none
unfolding find_visible
find_visible-none id user [] h = refl
find_visible-none id user (c ∷ rest) (h, hs) = rw h (find_visible-none id user rest hs)

-- where identifiers differ, a visible row is the only one with its identifier
pub find_visible-OnlyVisible :
    (id user : ℕ) (cs : List ProviderConfiguration) {row : ProviderConfiguration}
    → HasKeys cs
    → find_visible id user cs ≡ some row
    → OnlyVisible user id cs
unfolding find_visible
find_visible-OnlyVisible id user [] keys h = tt
find_visible-OnlyVisible id user (c ∷ rest) (key, keys) h = elim (Bool-cases (c.id == id)) [
  | inr e ↦ (λ k. cc, find_visible-OnlyVisible id user rest keys (rw e at h))
  | inl e ↦
      let same : c.id ≡ id = (==_iff c.id id).0 e in
      let others : Others id rest = rw same at key in
      elim (Bool-cases (is_visible user c)) [
        | inl f ↦ (λ _. f, All-imp _ _ (λ d k k'. cc) rest others)
        | inr f ↦ cc (rw (e, f) at h, find_visible-none id user rest others)
      ]
]

module _ (user : ℕ) where
  pub hidden-put_row :
      (row : ProviderConfiguration) (cs : List ProviderConfiguration)
      → OnlyVisible user row.id cs
      → is_visible user row ≡ true
      → hidden user (put_row row cs) ≡ hidden user cs
  unfolding put_row
  hidden-put_row row [] only seen = refl
  hidden-put_row row (c ∷ rest) (only, onlys) seen = elim (Bool-cases (c.id == row.id)) [
    | inl e ↦ rw (e, seen, only e) (hidden-put_row row rest onlys seen)
    | inr e ↦ rw (e, hidden-put_row row rest onlys seen) refl
  ]

  pub hidden-append_visible :
      (row : ProviderConfiguration) (cs : List ProviderConfiguration)
      → is_visible user row ≡ true
      → hidden user (cs ++ (row ∷ [])) ≡ hidden user cs
  hidden-append_visible row [] seen = rw seen refl
  hidden-append_visible row (c ∷ rest) seen = rw (hidden-append_visible row rest seen) refl

  pub hidden-remove :
      (id : ℕ) (cs : List ProviderConfiguration)
      → OnlyVisible user id cs
      → hidden user (filter (λ c. not (c.id == id)) cs) ≡ hidden user cs
  hidden-remove id [] only = refl
  hidden-remove id (c ∷ rest) (only, onlys) = elim (Bool-cases (c.id == id)) [
    | inl e ↦ rw (e, only e) (hidden-remove id rest onlys)
    | inr e ↦ rw (e, hidden-remove id rest onlys) refl
  ]

module _ (P : ProviderConfiguration → Type 0) where
  pub All-put_row :
      (row : ProviderConfiguration) (cs : List ProviderConfiguration)
      → All P cs
      → P row
      → All P (put_row row cs)
  unfolding put_row
  All-put_row row [] h p = tt
  All-put_row row (c ∷ rest) (h, hs) p = elim (Bool-cases (c.id == row.id)) [
    | inl e ↦ rw e (p, All-put_row row rest hs p)
    | inr e ↦ rw e (h, All-put_row row rest hs p)
  ]

  pub find_visible-All :
      (id user : ℕ) (cs : List ProviderConfiguration) {row : ProviderConfiguration}
      → All P cs
      → find_visible id user cs ≡ some row
      → P row
  unfolding find_visible
  find_visible-All id user [] h e = cc
  find_visible-All id user (c ∷ rest) (h, hs) e =
      elim (Bool-cases ((c.id == id) && is_visible user c)) [
        | inl t ↦ mathlib.Core.Path.subst P (mathlib.Core.Option.some-injective _ _ (rw t at e)) h
        | inr t ↦ find_visible-All id user rest hs (rw t at e)
      ]

-- what holds of every row holds of the rows that are left
pub All-filter :
    {A : Type 0} (P : A → Type 0) (p : A → Bool) (cs : List A) → All P cs → All P (filter p cs)
All-filter P p [] h = tt
All-filter P p (c ∷ rest) (h, hs) = elim (Bool-cases (p c)) [
  | inl e ↦ rw e (h, All-filter P p rest hs)
  | inr e ↦ rw e (All-filter P p rest hs)
]

-- the second of two changes of a row is the one that stays
pub put_row-put_row :
    (row old : ProviderConfiguration) (cs : List ProviderConfiguration)
    → old.id ≡ row.id
    → put_row row (put_row old cs) ≡ put_row row cs
unfolding put_row
put_row-put_row row old [] same = refl
put_row-put_row row old (c ∷ rest) same = elim (Bool-cases (c.id == row.id)) [
  | inl e ↦
      let e' : (c.id == old.id) ≡ true = rw same e in
      let e'' : (old.id == row.id) ≡ true = (==_iff old.id row.id).1 same in
      rw (e', e'', e, put_row-put_row row old rest same) refl
  | inr e ↦
      let e' : (c.id == old.id) ≡ false = rw same e in
      rw (e', e, put_row-put_row row old rest same) refl
]
