-- ===== src/Api/Auth.antt =====
-- apps/api/app/core/auth.py: bearer tokens and the roles of users. The identifiers of users `U` with
-- their texts, and the hexadecimal digest of HMAC-SHA256, are parameters.
pub mod Tokens
use Prim.Native.Char.{Char, code}
use Prim.Native.String.{String, ◌++◌ as text_append}
use agnostix_ai_quant_fund.Prelude.{
  Bool, true, false, not, ◌&&◌, ◌||◌, Option, none, some, ltb, ◌==◌, if◌then◌else◌,
}
use agnostix_ai_quant_fund.Prelude.Text.{str_eq, lower}
use agnostix_ai_quant_fund.Prelude.Outcome.{Outcome, returns, raises, ◌>>=◌}

-- `uuid.UUID` of a text, `str` of an identifier, and `hmac.new(...).hexdigest()`
pub record Identity (U : Type 0) : Type 0 where
  pub parse_uuid : String → Option U
  pub uuid_text : U → String
  pub hexdigest : String → String → String

-- `UserRole`
pub data UserRole : Type 0 where
  pm admin viewer : UserRole

-- the columns of `User` that are read; a role that is not in `UserRole` is `none`
pub record User (U : Type 0) : Type 0 where
  pub id : U
  pub role : Option UserRole
  pub is_active : Bool

pub record CurrentUser (U : Type 0) : Type 0 where
  pub id : U
  pub role : Option UserRole

-- the header `Authorization`
pub record Credentials : Type 0 where
  pub scheme : String
  pub credentials : String

-- one more character in front of the head
abbrev pub headed : Char → Option (String × String) → Option (String × String)
headed c none = none
headed c (some (head, tail)) = some (String.◌∷◌ c head, tail)

-- `text.partition(".")`, where the dot is there
unfoldable pub partition_dot : String → Option (String × String)
partition_dot String.[] = none
partition_dot (String.◌∷◌ c s) =
    let rest = partition_dot s in
    if str_eq (String.◌∷◌ c String.[]) "." then some ("", s) else headed c rest

-- the text has ASCII characters only
unfoldable pub is_ascii : String → Bool
is_ascii String.[] = true
is_ascii (String.◌∷◌ c s) = ltb (code c) 128 && is_ascii s

-- `hmac.compare_digest` of texts
unfoldable pub compare_digest : String → String → Outcome Bool
compare_digest a b = if is_ascii a && is_ascii b then returns (str_eq a b) else raises "TypeError"

module _ {U : Type 0} (identity : Identity U) where
  unfoldable pub issue_access_token : U → String → String
  issue_access_token user secret =
      let subject = identity.uuid_text user in
      text_append subject (text_append "." (identity.hexdigest secret subject))

  -- the user of a subject whose signature is right
  abbrev signed_user : String → String → String → U → Outcome (Option U)
  signed_user secret subject signature user =
      compare_digest signature (identity.hexdigest secret subject) >>= λ same.
      returns (if same then some user else none)

  abbrev known_user : String → String → String → Option U → Outcome (Option U)
  known_user secret subject signature none = returns none
  known_user secret subject signature (some user) = signed_user secret subject signature user

  -- the subject and the signature of a token, where it has a dot
  abbrev checked : String → Option (String × String) → Outcome (Option U)
  checked secret none = returns none
  checked secret (some (subject, signature)) =
      if str_eq signature ""
      then returns none
      else known_user secret subject signature (identity.parse_uuid subject)

  -- `_verify_token`
  unfoldable pub verify_token : String → String → Outcome (Option U)
  verify_token token secret = checked secret (partition_dot token)

  -- the active user with an identifier
  abbrev signed_in : (U → Option (User U)) → Option U → Outcome (CurrentUser U)
  signed_in users none = raises "HTTPException 401"
  signed_in users (some id) = found (users id)
    where
      found : Option (User U) → Outcome (CurrentUser U)
      found none = raises "HTTPException 401"
      found (some user) =
          if user.is_active
          then returns record { id = user.id; role = user.role }
          else raises "HTTPException 401"

  -- `get_current_user`, where `users` gives the user with an identifier
  unfoldable pub get_current_user :
      (U → Option (User U)) → String → Option Credentials → Outcome (CurrentUser U)
  get_current_user users secret none = raises "HTTPException 401"
  get_current_user users secret (some c) =
      if str_eq (lower c.scheme) "bearer"
      then (verify_token c.credentials secret >>= λ user. signed_in users user)
      else raises "HTTPException 401"

-- `require_provider_read`, `require_provider_write` and `require_provider_delete`
unfoldable pub may_read : Option UserRole → Bool
may_read none = false
may_read (some role) = true

unfoldable pub may_write : Option UserRole → Bool
may_write (some pm) = true
may_write (some admin) = true
may_write (some viewer) = false
may_write none = false

unfoldable pub may_delete : Option UserRole → Bool
may_delete (some admin) = true
may_delete (some pm) = false
may_delete (some viewer) = false
may_delete none = false
