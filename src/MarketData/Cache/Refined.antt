-- ===== src/MarketData/Cache/Refined.antt =====
-- What a client of the cache observes (services/market_data/cache.py), beside a map of payloads with
-- their deadlines.
use Prim.Native.String.{String}
use agnostix_ai_quant_fund.Prelude.{
  ℕ, ◌+◌, ◌*◌, ◌≤◌, ◌<◌, ◌≡◌, refl, sym, inl, inr, Bool, true, false, Option, none, some, List, [],
  ◌∷◌, ltb, if◌then◌else◌, arith, Bool-cases,
}
use agnostix_ai_quant_fund.Prelude.Text.{str_eq, eq_iff}
use agnostix_ai_quant_fund.Prelude.Outcome.{Outcome, returns, ◌>>=◌}
use agnostix_ai_quant_fund.Prelude.Dicts.{lookup}
use agnostix_ai_quant_fund.MarketData.Cache.{
  Json, Redis, redis_cache, dict, get_json, set_json, entry_of, read_raw, payload_of,
}

-- a call of the cache
pub data Call (P : Type 0) : Type 0 where
  get : String → Call P
  set : String → P → ℕ → Call P

-- the first instant at which an entry is gone
abbrev pub deadline : ℕ → ℕ → ℕ
deadline now ttl = now + ttl * 1_000_000

-- the calls do not go back in time, and a time to live is positive
abbrev pub InOrder : {P : Type 0} → ℕ → List (ℕ × Call P) → Type 0
InOrder now [] = Unit
InOrder now ((t, get key) ∷ calls) = (now ≤ t) × InOrder t calls
InOrder now ((t, set key value ttl) ∷ calls) = (now ≤ t) × (0 < ttl) × InOrder t calls

module _ {P : Type 0} where
  -- the map: the payload of a key with its deadline
  abbrev peek : Option (P × ℕ) → ℕ → Option P
  peek none now = none
  peek (some (value, until)) now = if ltb now until then some value else none

  -- the answers of the calls of get on the map
  unfoldable pub replay : (String → Option (P × ℕ)) → List (ℕ × Call P) → List (Option P)
  replay m [] = []
  replay m ((t, get key) ∷ calls) = peek (m key) t ∷ replay m calls
  replay m ((t, set key value ttl) ∷ calls) =
      replay (λ k. if str_eq key k then some (value, deadline t ttl) else m k) calls

-- `loads` reads what `dumps` wrote
abbrev pub RoundTrips : {R P : Type 0} → Json R P → Type 0
RoundTrips json = (entry : List (String × _)) → json.loads (json.dumps entry) ≡ returns (dict entry)

-- the server is reachable and keeps a value until its time to live is over
pub record IsServer (R S : Type 0) (redis : Redis R S) : Type 0 where
  pub put_total :
      (now : ℕ) (s : S) (key : String) (raw : R) (ttl : ℕ)
      → 0 < ttl
      → (s' : S) × (redis.put now s key raw ttl ≡ returns s')
  pub fetch_same :
      (now : ℕ) (s : S) (key : String) (raw : R) (ttl : ℕ) (s' : S)
      → redis.put now s key raw ttl ≡ returns s'
      → (later : ℕ) → now ≤ later
      → redis.fetch later s' key ≡ returns (if ltb later (deadline now ttl) then some raw else none)
  pub fetch_other :
      (now : ℕ) (s : S) (key : String) (raw : R) (ttl : ℕ) (s' : S)
      → redis.put now s key raw ttl ≡ returns s'
      → (later : ℕ) (other : String) → now ≤ later
      → str_eq key other ≡ false
      → redis.fetch later s' other ≡ redis.fetch later s other

module _ {R P S : Type 0} (json : Json R P) (isoformat : ℕ → String) (redis : Redis R S) where
  -- an entry that was written is read again
  read_entry :
      RoundTrips json
      → (now : ℕ) (value : P)
      → read_raw json (some (json.dumps (entry_of json isoformat now value))) ≡ returns (some value)
  unfolding payload_of lookup
  read_entry trips now value = rw (trips (entry_of json isoformat now value)) refl

  -- so is one that may be gone
  read_kept :
      RoundTrips json
      → (now : ℕ) (value : P) (b : Bool)
      → let raw = json.dumps (entry_of json isoformat now value) in
        read_raw json (if b then some raw else none) ≡ returns (if b then some value else none)
  read_kept trips now value true = read_entry trips now value
  read_kept trips now value false = refl

  -- the answers of the calls of get_json, in order
  unfoldable pub run : S → List (ℕ × Call P) → Outcome (List (Option P))
  run s [] = returns []
  run s ((t, get key) ∷ calls) = get_json json (redis_cache redis) t s key >>= λ found.
      run s calls >>= λ answers. returns (found ∷ answers)
  run s ((t, set key value ttl) ∷ calls) =
      set_json json isoformat (redis_cache redis) t s key value ttl >>= λ s'. run s' calls

  -- from `now` on, the cache answers as the map does
  abbrev Refines : ℕ → S → (String → Option (P × ℕ)) → Type 0
  Refines now s m =
      (t : ℕ) (key : String)
      → now ≤ t
      → get_json json (redis_cache redis) t s key ≡ returns (peek (m key) t)

  set-Refines :
      (now : ℕ) (s : S) (m : String → Option (P × ℕ))
      → IsServer R S redis
      → RoundTrips json
      → Refines now s m
      → (t : ℕ) (key : String) (value : P) (ttl : ℕ) → now ≤ t
      → 0 < ttl
      → (s' : S) × (set_json json isoformat (redis_cache redis) t s key value ttl ≡ returns s')
        × Refines t s' (λ k. if str_eq key k then some (value, deadline t ttl) else m k)
  unfolding get_json set_json
  set-Refines now s m server trips h t key value ttl le pos =
      let raw = json.dumps (entry_of json isoformat t value) in
      let (s', done) = server.put_total t s key raw ttl pos in
      (
        s',
        done,
        λ u k le'. elim (Bool-cases (str_eq key k)) [
          | inl e ↦
              rw (e, sym ((eq_iff key k).0 e), server.fetch_same t s key raw ttl s' done u le')
                (read_kept trips t value (ltb u (deadline t ttl)))
          | inr e ↦
              rw (server.fetch_other t s key raw ttl s' done u k le' e, e)
                (h u k (omega (arith, le, le')))
        ],
      )

  -- Over every sequence of calls whose instants do not go back and whose times to live are positive,
  -- RedisCache answers every get as the map does that remembers the last payload of each key until
  -- its deadline, and none of the calls raises: where the map answers what the cache answers at the
  -- start, json.loads reads what json.dumps wrote, and the server is reachable and keeps each value
  -- until its time to live is over.
  pub run-replay :
      IsServer R S redis
      → RoundTrips json
      → (now : ℕ) (s : S) (m : String → Option (P × ℕ)) (calls : List (ℕ × Call P))
      → Refines now s m
      → InOrder now calls
      → run s calls ≡ returns (replay m calls)
  unfolding run replay
  run-replay server trips now s m [] h ordered = refl
  run-replay server trips now s m ((t, get key) ∷ calls) h (le, ordered) =
      rw
        (
          h t key le,
          run-replay server trips t s m calls (λ u k le'. h u k (omega (arith, le, le'))) ordered,
        )
        refl
  run-replay server trips now s m ((t, set key value ttl) ∷ calls) h (le, pos, ordered) =
      let (s', done, next) = set-Refines now s m server trips h t key value ttl le pos in
      rw done (run-replay server trips t s' _ calls next ordered)
