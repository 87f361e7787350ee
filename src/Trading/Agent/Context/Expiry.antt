-- ===== src/Trading/Agent/Context/Expiry.antt =====
-- The expiration that `select_expiration` (services/trading/agent.py) picks.
use mathlib.Core.Option.{some-injective, none-ne-some}
use mathlib.Core.Bool.{true≢false}
use agnostix_ai_quant_fund.Prelude.{
  ℕ, ◌≤◌, ◌≡◌, ◌⊎◌, refl, inl, inr, sym, ◌∙◌, subst, Bool, true, false, some, List, [], ◌∷◌, any,
  All, ◌==◌, ==_iff, leb, arith, Bool-cases,
}
use agnostix_ai_quant_fund.Options.{OptionContract}
use agnostix_ai_quant_fund.Trading.Agent.Context.{
  in_range, earliest, candidates, first_expiration, select_expiration,
}

-- the number is in the list
abbrev pub In : ℕ → List ℕ → Type 0
In e [] = ⊥
In e (x ∷ xs) = (x ≡ e) ⊎ In e xs

any-In : (e : ℕ) (xs : List ℕ) → any (λ x. x == e) xs ≡ true → In e xs
any-In e [] h = cc
any-In e (x ∷ xs) h = elim (Bool-cases (x == e)) [
  | inl t ↦ inl ((==_iff x e).0 t)
  | inr t ↦ inr (any-In e xs (rw t at h))
]

All-In : (P : ℕ → Type 0) (e : ℕ) (xs : List ℕ) → All P xs → In e xs → P e
All-In P e [] h m = absurd m
All-In P e (x ∷ xs) (p, ps) (inl same) = subst P same p
All-In P e (x ∷ xs) (p, ps) (inr m) = All-In P e xs ps m

min_either : (a b : ℕ) → (Prim.Native.Nat.min a b ≡ a) ⊎ (Prim.Native.Nat.min a b ≡ b)
min_either a b = elim (Bool-cases (leb a b)) [
  | inl t ↦ inl (ground (arith, t))
  | inr t ↦ inr (ground (arith, t))
]

earliest_least : (e : ℕ) (xs : List ℕ) → (earliest e xs ≤ e) × All (λ x. earliest e xs ≤ x) xs
unfolding earliest
earliest_least e [] = (omega arith, tt)
earliest_least e (x ∷ xs) =
    let (le, all) = earliest_least (Prim.Native.Nat.min e x) xs in
    (omega (arith, le), (omega (arith, le), all))

earliest-In : (e : ℕ) (xs : List ℕ) → In (earliest e xs) (e ∷ xs)
unfolding earliest
earliest-In e [] = inl refl
earliest-In e (x ∷ xs) = elim (earliest-In (Prim.Native.Nat.min e x) xs) [
  | inr m ↦ inr (inr m)
  | inl m ↦ elim (min_either e x) [
    | inl first ↦ inl (sym first ∙ m)
    | inr second ↦ inr (inl (sym second ∙ m))
  ]
]

cover_moves : (e d : ℕ) (seen es : List ℕ) → In d (e ∷ seen) ⊎ In d es → In d seen ⊎ In d (e ∷ es)
cover_moves e d seen es (inl (inl same)) = inr (inl same)
cover_moves e d seen es (inl (inr m)) = inl m
cover_moves e d seen es (inr m) = inr (inr m)

module _ {W : Type 0} where
  -- a contract that expires then
  abbrev pub Expires : ℕ → List (OptionContract W) → Type 0
  Expires e [] = ⊥
  Expires e (c ∷ cs) = (c.expiration ≡ e) ⊎ Expires e cs

module _ {W : Type 0} (now low high : ℕ) where
  abbrev fits : OptionContract W → Bool
  fits c = in_range now low high c.expiration

  -- an expiration in the window, of one of the contracts
  abbrev Sound : List (OptionContract W) → ℕ → Type 0
  Sound cs e = (in_range now low high e ≡ true) × Expires e cs

  weaken :
      (c : OptionContract W) (cs : List (OptionContract W)) (es : List ℕ)
      → All (Sound cs) es
      → All (Sound (c ∷ cs)) es
  weaken c cs [] h = tt
  weaken c cs (e ∷ es) ((r, m), h) = ((r, inr m), weaken c cs es h)

  Covers : List ℕ → List ℕ → OptionContract W → Type 0
  Covers seen es c = fits c ≡ true → In c.expiration seen ⊎ In c.expiration es

  Covers-more :
      (e : ℕ) (seen es : List ℕ) (cs : List (OptionContract W))
      → All (Covers (e ∷ seen) es) cs
      → All (Covers seen (e ∷ es)) cs
  unfolding Covers
  Covers-more e seen es [] h = tt
  Covers-more e seen es (c ∷ cs) (h, hs) =
      (λ f. cover_moves e c.expiration seen es (h f), Covers-more e seen es cs hs)

  candidates-Sound :
      (seen : List ℕ) (cs : List (OptionContract W))
      → All (Sound cs) (candidates now low high seen cs)
  unfolding candidates
  candidates-Sound seen [] = tt
  candidates-Sound seen (c ∷ cs) = elim (Bool-cases (fits c)) [
    | inl f ↦ elim (Bool-cases (any (λ e. e == c.expiration) seen)) [
      | inl s ↦ rw (f, s) (weaken c cs _ (candidates-Sound seen cs))
      | inr s ↦ rw (f, s) ((f, inl refl), weaken c cs _ (candidates-Sound (c.expiration ∷ seen) cs))
    ]
    | inr f ↦ rw f (weaken c cs _ (candidates-Sound seen cs))
  ]

  candidates_take :
      (seen : List ℕ) (c : OptionContract W) (cs : List (OptionContract W))
      → fits c ≡ true
      → any (λ e. e == c.expiration) seen ≡ false
      → candidates now low high seen (c ∷ cs)
        ≡ c.expiration ∷ candidates now low high (c.expiration ∷ seen) cs
  unfolding candidates
  candidates_take seen c cs f s = rw (f, s) refl

  candidates_outside :
      (seen : List ℕ) (c : OptionContract W) (cs : List (OptionContract W))
      → fits c ≡ false
      → candidates now low high seen (c ∷ cs) ≡ candidates now low high seen cs
  unfolding candidates
  candidates_outside seen c cs f = rw f refl

  candidates_seen :
      (seen : List ℕ) (c : OptionContract W) (cs : List (OptionContract W))
      → any (λ e. e == c.expiration) seen ≡ true
      → candidates now low high seen (c ∷ cs) ≡ candidates now low high seen cs
  unfolding candidates
  candidates_seen seen c cs s = elim (Bool-cases (fits c)) [
    | inl f ↦ rw (f, s) refl
    | inr f ↦ candidates_outside seen c cs f
  ]

  candidates-Covers :
      (seen : List ℕ) (cs : List (OptionContract W))
      → All (Covers seen (candidates now low high seen cs)) cs
  unfolding Covers
  candidates-Covers seen [] = tt
  candidates-Covers seen (c ∷ cs) =
      let every = λ (es : List ℕ). All (Covers seen es) (c ∷ cs) in
      elim (Bool-cases (any (λ e. e == c.expiration) seen)) [
        | inl s ↦
            subst every (sym (candidates_seen seen c cs s))
              (λ f. inl (any-In c.expiration seen s), candidates-Covers seen cs)
        | inr s ↦ elim (Bool-cases (fits c)) [
          | inl f ↦ subst every (sym (candidates_take seen c cs f s)) (
            λ g. inr (inl refl),
            Covers-more c.expiration seen _ cs (candidates-Covers (c.expiration ∷ seen) cs),
          )
          | inr f ↦
              subst every (sym (candidates_outside seen c cs f))
                (λ g. absurd (true≢false (sym g ∙ f)), candidates-Covers seen cs)
        ]
      ]

  later :
      (e : ℕ) (es : List ℕ) (cs : List (OptionContract W))
      → All (λ x. e ≤ x) es
      → All (Covers [] es) cs
      → All (λ c. in_range now low high c.expiration ≡ true → e ≤ c.expiration) cs
  unfolding Covers
  later e es [] le h = tt
  later e es (c ∷ cs) le (h, hs) = (
    λ f. elim (h f) [ inl m ↦ absurd m | inr m ↦ All-In (λ x. e ≤ x) c.expiration es le m ],
    later e es cs le hs,
  )

  pick_earliest :
      (e : ℕ) (es : List ℕ) (cs : List (OptionContract W))
      → first_expiration es ≡ some e
      → All (Sound cs) es
      → All (Covers [] es) cs
      → (in_range now low high e ≡ true)
        × Expires e cs
        × All (λ c. in_range now low high c.expiration ≡ true → e ≤ c.expiration) cs
  unfolding first_expiration
  pick_earliest e [] cs h sound covers = absurd (none-ne-some _ h)
  pick_earliest e (x ∷ xs) cs h sound covers =
      let same = some-injective _ _ h in
      let (r, m) = All-In (Sound cs) (earliest x xs) (x ∷ xs) sound (earliest-In x xs) in
      let le = earliest_least x xs in
      subst
        (λ d.
          (in_range now low high d ≡ true)
          × Expires d cs
          × All (λ c. in_range now low high c.expiration ≡ true → d ≤ c.expiration) cs)
        same (r, m, later (earliest x xs) (x ∷ xs) cs le covers)

  -- An expiration that is picked lies in the configured window of days, is the expiration of one of
  -- the contracts, and is not later than the expiration of any contract that lies in the window.
  select_expiration_earliest :
      (e : ℕ) (cs : List (OptionContract W))
      → select_expiration now cs low high ≡ some e
      → (in_range now low high e ≡ true)
        × Expires e cs
        × All (λ c. in_range now low high c.expiration ≡ true → e ≤ c.expiration) cs
  unfolding select_expiration
  select_expiration_earliest e cs h =
      pick_earliest e _ cs h (candidates-Sound [] cs) (candidates-Covers [] cs)
