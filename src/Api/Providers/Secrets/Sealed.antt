-- ===== src/Api/Providers/Secrets/Sealed.antt =====
-- Credentials that were sealed (apps/api/app/services/provider_management.py, core/secrets.py).
use Prim.Native.String.{String}
use agnostix_ai_quant_fund.Prelude.{◌≡◌, refl, true, false, not, some, List, filter}
use agnostix_ai_quant_fund.Prelude.Text.{str_eq}
use agnostix_ai_quant_fund.Prelude.Sort.{sort_by}
use agnostix_ai_quant_fund.Prelude.Outcome.{returns}
use agnostix_ai_quant_fund.Fundamentals.Context.Selected.{text_lt}
use agnostix_ai_quant_fund.Api.Providers.{ProviderConfiguration}
use agnostix_ai_quant_fund.Api.Providers.Secrets.{
  Fernet, Texts, encrypt_secret, decrypt_secret, credentials_ciphertext, credentials_of,
}

-- what was encrypted is decrypted with the same key, and no ciphertext is empty
abbrev pub IsCipher : Fernet → Type 0
IsCipher fernet =
    (key value : String)
    → fernet.is_key key ≡ true
    → (fernet.decrypt key (fernet.encrypt key value) ≡ some value)
      × (str_eq (fernet.encrypt key value) "" ≡ false)

-- `loads` reads what `dumps` wrote, which is not empty
abbrev pub IsFaithful : Texts → Type 0
IsFaithful json =
    (values : List (String × String))
    → (json.loads (json.dumps values) ≡ returns values) × (str_eq (json.dumps values) "" ≡ false)

-- the values that are not empty, by their names
abbrev pub usable : List (String × String) → List (String × String)
usable values =
    filter (λ (name, value). not (str_eq value "")) (sort_by (λ a b. text_lt a.0 b.0) values)

module _ (fernet : Fernet) (json : Texts) where
  -- With a valid key, a cipher that decrypts what it encrypted and faithful JSON: credentials can be
  -- sealed, and a configuration that is given the ciphertext has these credentials, by their names
  -- and without the empty ones.
  pub credentials_of-credentials_ciphertext :
      IsCipher fernet
      → IsFaithful json
      → (values : List (String × String)) (key : String) → fernet.is_key key ≡ true
      → (ciphertext : String) × (credentials_ciphertext fernet json values key ≡ returns ciphertext)
        × ((row : ProviderConfiguration)
            → credentials_of fernet json (record row { secret_ciphertext = some ciphertext }) key
              ≡ returns (usable values))
  unfolding credentials_ciphertext credentials_of encrypt_secret decrypt_secret
  credentials_of-credentials_ciphertext cipher faithful values key valid =
      let text = json.dumps (sort_by (λ a b. text_lt a.0 b.0) values) in
      let (reads, written) = faithful (sort_by (λ a b. text_lt a.0 b.0) values) in
      let (opens, sealed) = cipher key text valid in
      (
        fernet.encrypt key text,
        rw (written, valid) refl,
        λ row. rw (sealed, valid, opens, reads) refl,
      )
