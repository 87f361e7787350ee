-- ===== src/Api/Tests.antt =====
-- Runs of the application (apps/api).
use agnostix_ai_quant_fund.Prelude.{◌≡◌, refl, Bool, true, false, Option, none, some, if◌then◌else◌}
use agnostix_ai_quant_fund.Prelude.Text.{str_eq, lower}
use agnostix_ai_quant_fund.Prelude.Outcome.{returns}
use agnostix_ai_quant_fund.Api.Auth.{
  Identity, User, CurrentUser, Credentials, pm, partition_dot, is_ascii, compare_digest,
  issue_access_token, verify_token, get_current_user,
}
use agnostix_ai_quant_fund.Api.Auth.Tokens.{
  IsSigner, IsSigned, verify_token-issue_access_token, get_current_user-IsSigned,
}

-- two users, "a" and "b"
abbrev identity : Identity Bool
identity = record {
  parse_uuid = λ s. if str_eq s "a" then some true else if str_eq s "b" then some false else none;
  uuid_text = λ u. if u then "a" else "b";
  hexdigest = λ secret subject. "f0";
}

identity-IsSigner : IsSigner identity
unfolding partition_dot is_ascii
identity-IsSigner = (parses, no_dot, λ secret subject. (refl, refl))
  where
    parses : (user : Bool) → identity.parse_uuid (identity.uuid_text user) ≡ some user
    parses true = refl
    parses false = refl

    no_dot : (user : Bool) → partition_dot (identity.uuid_text user) ≡ none
    no_dot true = refl
    no_dot false = refl

verify_token-issue_access_token_example :
    verify_token identity (issue_access_token identity false "s") "s" ≡ returns (some false)
verify_token-issue_access_token_example =
    verify_token-issue_access_token identity identity-IsSigner false "s"

abbrev users : Bool → Option (User Bool)
users id = some record { id = id; role = some pm; is_active = true }

abbrev header : Credentials
header = record { scheme = "Bearer"; credentials = "a.f0" }

abbrev current : CurrentUser Bool
current = record { id = true; role = some pm }

get_current_user-IsSigned_example :
    (c : Credentials) × (some header ≡ some c)
    × (str_eq (lower c.scheme) "bearer" ≡ true)
    × (id : Bool) × IsSigned identity c.credentials "s" id
    × (user : User Bool) × (users id ≡ some user)
    × (user.is_active ≡ true)
    × ◌≡◌ {A = CurrentUser Bool} current (record { id = user.id; role = user.role })
unfolding get_current_user verify_token compare_digest partition_dot is_ascii lower
get_current_user-IsSigned_example =
    get_current_user-IsSigned identity users "s" (some header) current refl
