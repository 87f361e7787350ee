-- ===== src/Trading/Journal.antt =====
-- services/trading/journal.py: the hash-chained audit journal. The digest, SHA-256 of the previous
-- hash and the canonical JSON of a body, is a parameter.
pub mod Chain
mod Tests
use Prim.Native.String.{String}
use agnostix_ai_quant_fund.Prelude.{ℕ, Bool, true, ◌&&◌, List, [], ◌∷◌, ◌++◌, length, if◌then◌else◌}

-- the dictionary that is hashed
pub record Body (P : Type 0) : Type 0 where
  pub seq : ℕ
  pub kind : String
  pub symbol : String
  pub payload : P
  pub ts : ℕ

pub record JournalEntry (P H : Type 0) : Type 0 where
  pub seq : ℕ
  pub timestamp : ℕ
  pub kind : String
  pub symbol : String
  pub payload : P
  pub prev_hash : H
  pub hash : H

-- the hashes: `GENESIS_HASH`, `_hash` and the `==` of two digests
pub record Hashing (P H : Type 0) : Type 0 where
  pub genesis : H
  pub digest : H → Body P → H
  pub eqb : H → H → Bool

pub record TradingJournal (P H : Type 0) : Type 0 where
  pub entries : List (JournalEntry P H)
  pub prev_hash : H

module _ {P H : Type 0} ⦃hashing : Hashing P H⦄ where
  -- the hash of the last entry
  pub last_hash : H → List (JournalEntry P H) → H
  last_hash prev [] = prev
  last_hash prev (e ∷ es) = last_hash e.hash es

  -- `TradingJournal(entries)`
  pub journal_of : List (JournalEntry P H) → TradingJournal P H
  journal_of entries = record { entries = entries; prev_hash = last_hash hashing.genesis entries }

  -- the body that `verify` hashes again
  abbrev pub body_of : JournalEntry P H → Body P
  body_of e = record {
    seq = e.seq;
    kind = e.kind;
    symbol = e.symbol;
    payload = e.payload;
    ts = e.timestamp;
  }

  -- the entry that `append` makes at the time `now`
  abbrev pub entry_of : TradingJournal P H → ℕ → String → String → P → JournalEntry P H
  entry_of j now kind symbol payload =
      let seq = length j.entries in
      let body : Body P = record {
        seq = seq;
        kind = kind;
        symbol = symbol;
        payload = payload;
        ts = now;
      } in
      record {
        seq = seq;
        timestamp = now;
        kind = kind;
        symbol = symbol;
        payload = payload;
        prev_hash = j.prev_hash;
        hash = hashing.digest j.prev_hash body;
      }

  pub append : TradingJournal P H → ℕ → String → String → P → TradingJournal P H
  append j now kind symbol payload =
      let e = entry_of j now kind symbol payload in
      record { entries = j.entries ++ (e ∷ []); prev_hash = e.hash }

  -- the loop of `verify` from the hash `prev` on
  pub verify_from : H → List (JournalEntry P H) → Bool
  verify_from prev [] = true
  verify_from prev (e ∷ es) =
      hashing.eqb e.prev_hash prev
      && hashing.eqb (hashing.digest prev (body_of e)) e.hash
      && verify_from e.hash es

  pub verify : TradingJournal P H → Bool
  verify j = verify_from hashing.genesis j.entries
