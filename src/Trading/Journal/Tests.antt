-- ===== src/Trading/Journal/Tests.antt =====
-- Runs of the journal (services/trading/journal.py) over symbolic digests, which are the inputs.
use agnostix_ai_quant_fund.Prelude.{
  ℕ, ◌≡◌, refl, ◌↔◌, Bool, true, false, ◌&&◌, [], map, arith, ◌==◌,
}
use agnostix_ai_quant_fund.Prelude.Text.{str_eq, eq_iff}
use agnostix_ai_quant_fund.Trading.Journal.{
  Body, Hashing, TradingJournal, journal_of, body_of, append, verify, verify_from, last_hash,
}
use agnostix_ai_quant_fund.Trading.Journal.Chain.{
  ReadsEquality, CollisionFree, IsSound, verify_unique,
}

-- a body is a number here
data Digest : Type 0 where
  start : Digest
  link : Digest → Body ℕ → Digest

body_eqb : Body ℕ → Body ℕ → Bool
body_eqb b c =
    b.seq == c.seq
    && str_eq b.kind c.kind
    && str_eq b.symbol c.symbol
    && b.payload == c.payload
    && b.ts == c.ts

eqb : Digest → Digest → Bool
eqb start start = true
eqb (link p b) (link q c) = let same = eqb p q in same && body_eqb b c
eqb start (link q c) = false
eqb (link p b) start = false

body_eqb_iff : (b c : Body ℕ) → (body_eqb b c ≡ true) ↔ (b ≡ c)
unfolding body_eqb
body_eqb_iff b c = ground (arith, eq_iff b.kind c.kind, eq_iff b.symbol c.symbol)

instance abbrev symbolic : Hashing ℕ Digest
symbolic = record { genesis = start; digest = link; eqb = eqb }

reads : ReadsEquality ℕ Digest
unfolding eqb
reads start start = (λ _. refl, λ _. refl)
reads (link p b) (link q c) = ground (arith, reads p q, body_eqb_iff b c)
reads start (link q c) = (λ h. cc, λ h. cc)
reads (link p b) start = (λ h. cc, λ h. cc)

free : CollisionFree ℕ Digest
free p q b c h = (cc, cc)

abbrev empty : TradingJournal ℕ Digest
empty = journal_of []

abbrev two : TradingJournal ℕ Digest
two = append (append empty 7 "abstain" "SPY" 1) 8 "execution" "SPY" 2

empty-IsSound : IsSound empty
unfolding journal_of verify verify_from last_hash
empty-IsSound = record { verified = refl; head = refl; numbered = tt }

two_verified : verify (journal_of two.entries) ≡ true
unfolding journal_of verify verify_from append eqb body_eqb last_hash
two_verified = refl

verify_unique_example : map body_of two.entries ≡ map body_of two.entries
verify_unique_example =
    verify_unique reads free two.entries two.entries refl two_verified two_verified refl
