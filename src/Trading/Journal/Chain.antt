-- ===== src/Trading/Journal/Chain.antt =====
-- The hash chain of services/trading/journal.py: it grows by `append` only, and what two verified
-- ledgers with the same head and length say is the same.
use agnostix_ai_quant_fund.Prelude.{
  ℕ, suc, ◌+◌, ◌≡◌, refl, sym, ap, ◌∙◌, ◌↔◌, true, List, [], ◌∷◌, ◌++◌, map, arith, length,
  length-append,
}
use agnostix_ai_quant_fund.Trading.Journal.{
  JournalEntry, Hashing, TradingJournal, last_hash, journal_of, body_of, Body, entry_of, append,
  verify_from, verify,
}
use Prim.Native.String.{String}

-- the comparison of digests decides their equality
abbrev pub ReadsEquality : (P H : Type 0) ⦃hashing : Hashing P H⦄ → Type 0
ReadsEquality P H ⦃hashing⦄ = (a b : H) → (hashing.eqb a b ≡ true) ↔ (a ≡ b)

-- no two inputs share a digest
abbrev pub CollisionFree : (P H : Type 0) ⦃hashing : Hashing P H⦄ → Type 0
CollisionFree P H ⦃hashing⦄ =
    (p q : H) (b c : Body P) → hashing.digest p b ≡ hashing.digest q c → (p ≡ q) × (b ≡ c)

module _ {P H : Type 0} ⦃hashing : Hashing P H⦄ where
  -- the entries are numbered from `n` on
  abbrev pub IsNumbered : ℕ → List (JournalEntry P H) → Type 0
  IsNumbered n [] = Unit
  IsNumbered n (e ∷ es) = (e.seq ≡ n) × IsNumbered (n + 1) es

  -- a ledger that only `append` has written
  pub record IsSound (j : TradingJournal P H) : Type 0 where
    pub verified : verify j ≡ true
    pub head : j.prev_hash ≡ last_hash hashing.genesis j.entries
    pub numbered : IsNumbered 0 j.entries

  IsNumbered-append :
      (n : ℕ) (es : List (JournalEntry P H)) (e : JournalEntry P H)
      → IsNumbered n es
      → e.seq ≡ n + length es
      → IsNumbered n (es ++ (e ∷ []))
  IsNumbered-append n [] e h s = (omega (arith, s), tt)
  IsNumbered-append n (x ∷ es) e (p, h) s = (p, IsNumbered-append (n + 1) es e h (omega (arith, s)))

  last_hash-append :
      (prev : H) (es : List (JournalEntry P H)) (e : JournalEntry P H)
      → last_hash prev (es ++ (e ∷ [])) ≡ e.hash
  unfolding last_hash
  last_hash-append prev [] e = refl
  last_hash-append prev (x ∷ es) e = last_hash-append x.hash es e

  verify_from-append :
      (prev : H) (es : List (JournalEntry P H)) (e : JournalEntry P H)
      → verify_from prev es ≡ true
      → verify_from (last_hash prev es) (e ∷ []) ≡ true
      → verify_from prev (es ++ (e ∷ [])) ≡ true
  unfolding verify_from last_hash
  verify_from-append prev [] e h k = k
  verify_from-append prev (x ∷ es) e h k = ground (arith, verify_from-append x.hash es e)

  -- the journal that nothing was written to
  pub IsSound-empty : IsSound (journal_of [])
  unfolding journal_of verify verify_from last_hash
  IsSound-empty = record { verified = refl; head = refl; numbered = tt }

  pub length-entries :
      (j : TradingJournal P H) (now : ℕ) (kind symbol : String) (p : P)
      → length (append j now kind symbol p).entries ≡ suc (length j.entries)
  unfolding append
  length-entries j now kind symbol p = omega (arith, length-append j.entries (_ ∷ []))

  module _ (reads : ReadsEquality P H) where
    -- Where `eqb` decides equality: `append` keeps a ledger sound, that is, verified, with the hash
    -- of the last entry as its head, and with its entries numbered from 0 on.
    pub append-IsSound :
        (j : TradingJournal P H) (now : ℕ) (kind symbol : String) (payload : P)
        → IsSound j
        → IsSound (append j now kind symbol payload)
    unfolding append verify verify_from
    append-IsSound j now kind symbol payload s =
        let e = entry_of j now kind symbol payload in
        let links : verify_from (last_hash hashing.genesis j.entries) (e ∷ []) ≡ true = ground (
          arith,
          (reads e.prev_hash (last_hash hashing.genesis j.entries)).1 s.head,
          (reads e.hash e.hash).1 refl,
          ap (λ p. hashing.digest p (body_of e)) s.head,
          reads,
        ) in
        record {
          verified = verify_from-append hashing.genesis j.entries e s.verified links;
          head = sym (last_hash-append hashing.genesis j.entries e);
          numbered = IsNumbered-append 0 j.entries e s.numbered (omega arith);
        }

    -- the first step of a chain that verifies
    verify_from-first :
        (prev : H) (e : JournalEntry P H) (es : List (JournalEntry P H))
        → verify_from prev (e ∷ es) ≡ true
        → (hashing.digest prev (body_of e) ≡ e.hash) × (verify_from e.hash es ≡ true)
    unfolding verify_from
    verify_from-first prev e es h =
        ground (arith, (reads (hashing.digest prev (body_of e)) e.hash).0)

    chain_unique :
        CollisionFree P H
        → (p q : H) (xs ys : List (JournalEntry P H)) → length xs ≡ length ys
        → verify_from p xs ≡ true
        → verify_from q ys ≡ true
        → last_hash p xs ≡ last_hash q ys
        → (p ≡ q) × (map body_of xs ≡ map body_of ys)
    unfolding last_hash
    chain_unique free p q [] [] n h k e = (e, refl)
    chain_unique free p q [] (y ∷ ys) n h k e = absurd (omega arith)
    chain_unique free p q (x ∷ xs) [] n h k e = absurd (omega arith)
    chain_unique free p q (x ∷ xs) (y ∷ ys) n h k e =
        let (hx, h') = verify_from-first p x xs h in
        let (hy, k') = verify_from-first q y ys k in
        let (same, rest) = chain_unique free x.hash y.hash xs ys (omega arith) h' k' e in
        let (prev, body) = free p q (body_of x) (body_of y) (hx ∙ same ∙ sym hy) in
        (prev, cc (body, rest))

    -- Where `eqb` decides equality and no two inputs share a digest: two ledgers that verify, of the
    -- same length and with the same last hash, record the same numbers, times, kinds, symbols and
    -- payloads in the same order.
    pub verify_unique :
        CollisionFree P H
        → (xs ys : List (JournalEntry P H)) → length xs ≡ length ys
        → verify (journal_of xs) ≡ true
        → verify (journal_of ys) ≡ true
        → (journal_of xs).prev_hash ≡ (journal_of ys).prev_hash
        → map body_of xs ≡ map body_of ys
    unfolding verify journal_of
    verify_unique free xs ys n h k e =
        (chain_unique free hashing.genesis hashing.genesis xs ys n h k e).1
