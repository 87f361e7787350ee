-- ===== src/Fundamentals/Context/Selected/News.antt =====
-- Which articles the context takes (services/fundamentals/context.py).
use agnostix_ai_quant_fund.Prelude.{
  ℕ, ◌≤◌, ◌≡◌, ◌⊎◌, inl, inr, refl, sym, subst, Bool, true, false, ◌||◌, Option, none, some, ap,
  ◌<◌, List, [], ◌∷◌, zero, suc, any, take, length, All, Has, All-imp, All-items, ltb, arith,
  Bool-cases,
}
use Prim.Native.String.{String}
use agnostix_ai_quant_fund.Prelude.Text.{eq_refl}
use agnostix_ai_quant_fund.Prelude.Sort.{
  sort_by, All-sort_by, Has-sort_by, Ordered, sort_by-Ordered,
}
use agnostix_ai_quant_fund.Fundamentals.Context.{ContextNewsItem}
use agnostix_ai_quant_fund.Fundamentals.Context.Selected.{
  max_news, same_provider, same_article, unique_from, order_news, select_news,
}

||-false : (a b : Bool) → (a || b) ≡ false → (a ≡ false) × (b ≡ false)
||-false true b h = cc
||-false false b h = (refl, h)

||-right : (a b : Bool) → b ≡ true → (a || b) ≡ true
||-right true b h = refl
||-right false b h = h

same_provider_refl : (p : Option String) → same_provider p p ≡ true
same_provider_refl none = refl
same_provider_refl (some p) = eq_refl p

-- the article is at most as new as the other
abbrev NotNewer : ContextNewsItem → ContextNewsItem → Type 0
NotNewer a b = b.published_at ≤ a.published_at

-- each article is at least as new as those after it
abbrev pub NewestFirst : List ContextNewsItem → Type 0
NewestFirst = Ordered NotNewer

-- no two articles have the same provider and identifier
abbrev pub IsUnique : List ContextNewsItem → Type 0
IsUnique [] = Unit
IsUnique (x ∷ xs) = All (λ y. same_article y x ≡ false) xs × IsUnique xs

All-unique_from {κ} :
    (P : ContextNewsItem → Type κ) (seen xs : List ContextNewsItem)
    → All P xs
    → All P (unique_from seen xs)
unfolding unique_from
All-unique_from P seen [] h = tt
All-unique_from P seen (x ∷ xs) (p, ps) = elim (Bool-cases (any (same_article x) seen)) [
  | inl e ↦ rw e (All-unique_from P seen xs ps)
  | inr e ↦ rw e (p, All-unique_from P (x ∷ seen) xs ps)
]

-- no article that is kept was seen before
unique_from-Unseen :
    (seen xs : List ContextNewsItem)
    → All (λ y. any (same_article y) seen ≡ false) (unique_from seen xs)
unfolding unique_from
unique_from-Unseen seen [] = tt
unique_from-Unseen seen (x ∷ xs) = elim (Bool-cases (any (same_article x) seen)) [
  | inl e ↦ rw e (unique_from-Unseen seen xs)
  | inr e ↦
      let unseen = unique_from-Unseen (x ∷ seen) xs in
      rw e (e, All-imp _ _ (λ y h. (||-false _ _ h).1) (unique_from (x ∷ seen) xs) unseen)
]

unique_from-IsUnique : (seen xs : List ContextNewsItem) → IsUnique (unique_from seen xs)
unfolding unique_from
unique_from-IsUnique seen [] = tt
unique_from-IsUnique seen (x ∷ xs) = elim (Bool-cases (any (same_article x) seen)) [
  | inl e ↦ rw e (unique_from-IsUnique seen xs)
  | inr e ↦
      let unseen = unique_from-Unseen (x ∷ seen) xs in
      rw e (
        All-imp _ _ (λ y h. (||-false _ _ h).0) (unique_from (x ∷ seen) xs) unseen,
        unique_from-IsUnique (x ∷ seen) xs,
      )
]

unique_from-NewestFirst :
    (seen xs : List ContextNewsItem) → NewestFirst xs → NewestFirst (unique_from seen xs)
unfolding unique_from
unique_from-NewestFirst seen [] h = tt
unique_from-NewestFirst seen (x ∷ xs) (h, hs) = elim (Bool-cases (any (same_article x) seen)) [
  | inl e ↦ rw e (unique_from-NewestFirst seen xs hs)
  | inr e ↦
      rw e (All-unique_from (NotNewer x) (x ∷ seen) xs h, unique_from-NewestFirst (x ∷ seen) xs hs)
]

same_article_refl : (a : ContextNewsItem) → same_article a a ≡ true
unfolding same_article
same_article_refl a = rw (same_provider_refl a.provider, eq_refl a.provider_article_id) refl

-- every article was seen before or is kept, by itself or by another one of its identity
unique_from-Covers :
    (seen xs : List ContextNewsItem) (a : ContextNewsItem)
    → Has a xs
    → (any (same_article a) seen ≡ true) ⊎ (any (same_article a) (unique_from seen xs) ≡ true)
unfolding unique_from
unique_from-Covers seen [] a m = absurd m
unique_from-Covers seen (x ∷ xs) a (inl same) = elim (Bool-cases (any (same_article x) seen)) [
  | inl e ↦ inl (subst (λ y. any (same_article y) seen ≡ true) same e)
  | inr e ↦
      let own = subst (λ y. same_article a y ≡ true) (sym same) (same_article_refl a) in
      rw (e, own) (inr refl)
]
unique_from-Covers seen (x ∷ xs) a (inr m) = elim (Bool-cases (any (same_article x) seen)) [
  | inl e ↦ rw e (unique_from-Covers seen xs a m)
  | inr e ↦ elim (unique_from-Covers (x ∷ seen) xs a m) [
    | inr kept ↦ rw e (inr (||-right (same_article a x) _ kept))
    | inl met ↦ elim (Bool-cases (same_article a x)) [
      | inl f ↦ rw (e, f) (inr refl)
      | inr f ↦ inl (rw f at met)
    ]
  ]
]

-- what holds along a list holds along its first items
take-All {κ} :
    (P : ContextNewsItem → Type κ) (n : ℕ) (xs : List ContextNewsItem)
    → All P xs
    → All P (take n xs)
take-All P zero xs h = tt
take-All P (suc n) [] h = tt
take-All P (suc n) (x ∷ xs) (p, ps) = (p, take-All P n xs ps)

take-IsUnique : (n : ℕ) (xs : List ContextNewsItem) → IsUnique xs → IsUnique (take n xs)
take-IsUnique zero xs h = tt
take-IsUnique (suc n) [] h = tt
take-IsUnique (suc n) (x ∷ xs) (h, hs) = (take-All _ n xs h, take-IsUnique n xs hs)

take-NewestFirst : (n : ℕ) (xs : List ContextNewsItem) → NewestFirst xs → NewestFirst (take n xs)
take-NewestFirst zero xs h = tt
take-NewestFirst (suc n) [] h = tt
take-NewestFirst (suc n) (x ∷ xs) (h, hs) = (take-All _ n xs h, take-NewestFirst n xs hs)

length-take : (n : ℕ) (xs : List ContextNewsItem) → length (take n xs) ≤ n
length-take zero xs = omega arith
length-take (suc n) [] = omega arith
length-take (suc n) (x ∷ xs) = omega (arith, length-take n xs)

take_all : (n : ℕ) (xs : List ContextNewsItem) → length (take n xs) < n → take n xs ≡ xs
take_all zero xs h = absurd (omega (arith, h))
take_all (suc n) [] h = refl
take_all (suc n) (x ∷ xs) h = ap (λ ys. x ∷ ys) (take_all n xs (omega (arith, h)))

-- the articles in the order of the two sorts
abbrev newer : ContextNewsItem → ContextNewsItem → Bool
newer a b = ltb b.published_at a.published_at

order_news-NewestFirst : (items : List ContextNewsItem) → NewestFirst (order_news items)
unfolding order_news
order_news-NewestFirst items =
    sort_by-Ordered newer NotNewer (λ x y e. ground (arith, e)) (λ x y e. ground (arith, e))
      (λ x y z p q. omega (arith, p, q)) (sort_by _ items)

order_news-Has :
    (a : ContextNewsItem) (items : List ContextNewsItem) → Has a items → Has a (order_news items)
unfolding order_news
order_news-Has a items m = Has-sort_by _ a _ (Has-sort_by _ a items m)

order_news-All : (items : List ContextNewsItem) → All (λ n. Has n items) (order_news items)
unfolding order_news
order_news-All items =
    All-sort_by _ (λ n. Has n items) _ (All-sort_by _ (λ n. Has n items) items (All-items items))

-- within the budget, without repetition, the newest first, from the items, and complete below the
-- budget
abbrev pub IsSelection : List ContextNewsItem → List ContextNewsItem → Type 0
IsSelection items chosen =
    (length chosen ≤ max_news)
    × IsUnique chosen
    × NewestFirst chosen
    × All (λ n. Has n items) chosen
    × ((a : ContextNewsItem)
        → Has a items
        → length chosen < max_news
        → any (same_article a) chosen ≡ true)

covered :
    (items : List ContextNewsItem) (a : ContextNewsItem)
    → Has a items
    → any (same_article a) (unique_from [] (order_news items)) ≡ true
covered items a m = elim (unique_from-Covers [] (order_news items) a (order_news-Has a items m)) [
  | inl never ↦ cc
  | inr kept ↦ kept
]

-- `_select_news` takes at most MAX_NEWS = 5 articles, all of them of the given ones, no two with the
-- same provider and identifier, each at least as new as those after it; where it takes fewer than
-- five, every given article is there, by itself or by one of the same provider and identifier.
pub select_news-IsSelection : (items : List ContextNewsItem) → IsSelection items (select_news items)
unfolding select_news
select_news-IsSelection items =
    let found = unique_from [] (order_news items) in
    (
      length-take max_news found,
      take-IsUnique max_news found (unique_from-IsUnique [] (order_news items)),
      take-NewestFirst max_news found
          (unique_from-NewestFirst [] (order_news items) (order_news-NewestFirst items)),
      take-All _ max_news found
          (All-unique_from (λ n. Has n items) [] (order_news items) (order_news-All items)),
      λ a m few. rw (take_all max_news found few) (covered items a m),
    )
