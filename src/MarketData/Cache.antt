-- ===== src/MarketData/Cache.antt =====
-- services/market_data/cache.py: the cache of JSON values. The server of Redis and `json` are
-- parameters, with the answers of their calls. Instants are microseconds, a time to live is seconds.
pub mod Refined
use Prim.Native.String.{String, ◌++◌ as ◌++ₛ◌}
use agnostix_ai_quant_fund.Prelude.{
  ℕ, ◌+◌, ◌*◌, Bool, Option, none, some, List, [], ◌∷◌, is_some, if◌then◌else◌,
}
use agnostix_ai_quant_fund.Prelude.Text.{str_eq, upper}
use agnostix_ai_quant_fund.Prelude.Outcome.{Outcome, returns, raises, ◌>>=◌}
use agnostix_ai_quant_fund.Prelude.Dicts.{lookup}

-- `DEFAULT_TTL_SECONDS`
abbrev pub default_ttl : ℕ
default_ttl = 60

-- `_key`
pub cache_key : String → String → Option String → String
cache_key datatype symbol timeframe =
    let base = "m1:" ++ₛ datatype ++ₛ ":" ++ₛ upper symbol in with_timeframe base timeframe
  where
    with_timeframe : String → Option String → String
    with_timeframe base none = base
    with_timeframe base (some t) = if str_eq t "" then base else base ++ₛ ":" ++ₛ t

-- what `json.loads` makes of a text: a dictionary or another value
pub data Loaded (P : Type 0) : Type 0 where
  dict : List (String × P) → Loaded P
  not_dict : Loaded P

-- `json`, for texts `R` and values `P`
pub record Json (R P : Type 0) : Type 0 where
  pub loads : R → Outcome (Loaded P)
  pub dumps : List (String × P) → R
  pub of_text : String → P

-- the client of a server with the state `S`: `get` and `set` at an instant
pub record Redis (R S : Type 0) : Type 0 where
  pub fetch : ℕ → S → String → Outcome (Option R)
  pub put : ℕ → S → String → R → ℕ → Outcome S

-- `_NoopCache` and `RedisCache`
pub data Cache (R S : Type 0) : Type 0 where
  noop_cache : Cache R S
  redis_cache : Redis R S → Cache R S

module _ {P : Type 0} where
  abbrev payload_in : Option P → Outcome (Option P)
  payload_in none = raises "KeyError"
  payload_in (some value) = returns (some value)

  -- the payload of an entry, where the dictionary is one
  unfoldable pub payload_of : Loaded P → Outcome (Option P)
  payload_of not_dict = returns none
  payload_of (dict entry) =
      if is_some (lookup str_eq entry "received_at")
      then payload_in (lookup str_eq entry "payload")
      else returns none

module _ {R P : Type 0} (json : Json R P) where
  abbrev pub read_raw : Option R → Outcome (Option P)
  read_raw none = returns none
  read_raw (some raw) = json.loads raw >>= payload_of

  abbrev pub entry_of : (ℕ → String) → ℕ → P → List (String × P)
  entry_of isoformat now value =
      ("received_at", json.of_text (isoformat now)) ∷ ("payload", value) ∷ []

module _ {R P S : Type 0} (json : Json R P) where
  unfoldable pub get_json : Cache R S → ℕ → S → String → Outcome (Option P)
  get_json noop_cache now s key = returns none
  get_json (redis_cache redis) now s key = redis.fetch now s key >>= read_raw json

  unfoldable pub set_json : (ℕ → String) → Cache R S → ℕ → S → String → P → ℕ → Outcome S
  set_json isoformat noop_cache now s key value ttl = returns s
  set_json isoformat (redis_cache redis) now s key value ttl =
      redis.put now s key (json.dumps (entry_of json isoformat now value)) ttl

module _ {R S : Type 0} (from_url : String → Outcome (Redis R S)) where
  connected : Outcome (Redis R S) → Cache R S
  connected (returns redis) = redis_cache redis
  connected (raises e) = noop_cache

  -- `get_cache`, with the value of REDIS_URL
  pub get_cache : Option String → Cache R S
  get_cache none = noop_cache
  get_cache (some url) = if str_eq url "" then noop_cache else connected (from_url url)
