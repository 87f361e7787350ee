-- ===== src/Api/Providers/Secrets.antt =====
-- apps/api/app/core/secrets.py, and the credentials of a provider
-- (apps/api/app/services/provider_management.py). The cipher, its nonce included, and `json` are
-- parameters.
pub mod Sealed
use Prim.Native.String.{String, count, ◌++◌ as text_append}
use agnostix_ai_quant_fund.Prelude.{
  ℕ, Bool, true, false, not, Option, none, some, List, [], ◌∷◌, filter, ltb, if◌then◌else◌,
}
use agnostix_ai_quant_fund.Prelude.Text.{str_eq}
use agnostix_ai_quant_fund.Prelude.Outcome.{Outcome, returns, raises, ◌>>=◌}
use agnostix_ai_quant_fund.Prelude.Sort.{sort_by}
use agnostix_ai_quant_fund.Fundamentals.Context.Selected.{text_lt}
use agnostix_ai_quant_fund.Api.Providers.{ProviderConfiguration}

-- `Fernet`: whether a key is one, and `encrypt` and `decrypt` with it
pub record Fernet : Type 0 where
  pub is_key : String → Bool
  pub encrypt : String → String → String
  pub decrypt : String → String → Option String

-- `json` for dictionaries of texts
pub record Texts : Type 0 where
  pub dumps : List (String × String) → String
  pub loads : String → Outcome (List (String × String))

module _ (fernet : Fernet) where
  unfoldable pub encrypt_secret : String → String → Outcome String
  encrypt_secret value key =
      if str_eq value ""
      then raises "ValueError"
      else if fernet.is_key key
      then returns (fernet.encrypt key value)
      else raises "SecretConfigurationError"

  abbrev pub decrypted : Option String → Outcome String
  decrypted none = raises "SecretDecryptionError"
  decrypted (some value) = returns value

  unfoldable pub decrypt_secret : String → String → Outcome String
  decrypt_secret ciphertext key =
      if fernet.is_key key
      then decrypted (fernet.decrypt key ciphertext)
      else raises "SecretDecryptionError"

  -- `require_provider_encryption_key`
  unfoldable pub require_key : Option String → Outcome String
  require_key none = raises "SecretConfigurationError"
  require_key (some key) =
      if str_eq key ""
      then raises "SecretConfigurationError"
      else if fernet.is_key key
      then returns key
      else raises "SecretConfigurationError"

-- `value[-4:]`
unfoldable pub last_four : String → String
last_four String.[] = ""
last_four (String.◌∷◌ c s) =
    let rest = last_four s in if ltb (count s) 4 then String.◌∷◌ c s else rest

unfoldable pub mask_secret : Option String → Option String
mask_secret none = none
mask_secret (some value) =
    if str_eq value "" then none else some (text_append "••••••••" (last_four value))

module _ (fernet : Fernet) (json : Texts) where
  -- `_credentials_ciphertext`; the keys are sorted
  unfoldable pub credentials_ciphertext : List (String × String) → String → Outcome String
  credentials_ciphertext values key =
      encrypt_secret fernet (json.dumps (sort_by (λ a b. text_lt a.0 b.0) values)) key

  abbrev pub credentials_in : Option String → String → Outcome (List (String × String))
  credentials_in none key = returns []
  credentials_in (some ciphertext) key =
      if str_eq ciphertext ""
      then returns []
      else decrypt_secret fernet ciphertext key >>= λ raw. json.loads raw >>= λ values.
          returns (filter (λ (name, value). not (str_eq value "")) values)

  -- `_credentials`
  unfoldable pub credentials_of : ProviderConfiguration → String → Outcome (List (String × String))
  credentials_of configuration key = credentials_in configuration.secret_ciphertext key
