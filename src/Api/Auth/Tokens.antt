-- ===== src/Api/Auth/Tokens.antt =====
-- Tokens of apps/api/app/core/auth.py.
use Prim.Native.Char.{Char}
use Prim.Native.String.{String, ◌++◌ as text_append}
use Prim.Native.String.append
use mathlib.Core.Option.{some-injective}
use agnostix_ai_quant_fund.Prelude.{
  ◌≡◌, ◌∙◌, sym, ap, refl, inl, inr, true, false, Option, none, some, ◌&&◌, Bool-cases,
  Option-cases,
}
use agnostix_ai_quant_fund.Prelude.Text.{str_eq, eq_iff, eq_refl, lower}
use agnostix_ai_quant_fund.Prelude.Outcome.{returns, returns-injective, >>=-eq-returns}
use agnostix_ai_quant_fund.Api.Auth.{
  Identity, headed, partition_dot, is_ascii, compare_digest, issue_access_token, verify_token,
  signed_user, known_user, checked, signed_in, User, CurrentUser, Credentials, get_current_user,
}

-- the text has no dot
abbrev pub NoDot : String → Type 0
NoDot s = partition_dot s ≡ none

headed-none : (c : Char) (o : Option (String × String)) → headed c o ≡ none → o ≡ none
headed-none c none h = refl
headed-none c (some (head, tail)) h = cc

partition_joined :
    (s t : String) → NoDot s → partition_dot (text_append s (text_append "." t)) ≡ some (s, t)
unfolding partition_dot
partition_joined String.[] t h =
    rw (append.nil (text_append "." t), append.cons "." "" t, append.nil t) refl
partition_joined (String.◌∷◌ c s) t h = elim (Bool-cases (str_eq (String.◌∷◌ c String.[]) ".")) [
  | inl e ↦ cc (rw e at h)
  | inr e ↦
      let ih = partition_joined s t (headed-none c (partition_dot s) (rw e at h)) in
      rw (append.cons c s (text_append "." t), e, ih) refl
]

longer_joined :
    (c : Char) (token s t : String) (o : Option (String × String))
    → partition_dot token ≡ o
    → headed c o ≡ some (s, t)
    → ((u v : String)
        → partition_dot token ≡ some (u, v)
        → token ≡ text_append u (text_append "." v))
    → String.◌∷◌ c token ≡ text_append s (text_append "." t)
longer_joined c token s t none e h below = cc
longer_joined c token s t (some (u, v)) e h below =
    let whole = some-injective _ _ h in
    let head : String.◌∷◌ c u ≡ s = ap (λ p. p.0) whole in
    let tail : v ≡ t = ap (λ p. p.1) whole in
    rw (sym head, sym tail, append.cons c u (text_append "." v)) (ap (String.◌∷◌ c) (below u v e))

-- what is read as a head and a tail is the two with a dot between them
joined_partition :
    (token s t : String)
    → partition_dot token ≡ some (s, t)
    → token ≡ text_append s (text_append "." t)
unfolding partition_dot
joined_partition String.[] s t h = cc
joined_partition (String.◌∷◌ c token) s t h =
    elim (Bool-cases (str_eq (String.◌∷◌ c String.[]) ".")) [
      | inl e ↦
          let found : ("", token) ≡ (s, t) = some-injective _ _ (rw e at h) in
          let head : "" ≡ s = ap (λ p. p.0) found in
          let tail : token ≡ t = ap (λ p. p.1) found in
          let dot : String.◌∷◌ c String.[] ≡ "." = (eq_iff (String.◌∷◌ c String.[]) ".").0 e in
          rw
            (
              sym head,
              sym tail,
              append.nil (text_append "." token),
              sym dot,
              append.cons c "" token,
              append.nil token,
            )
            refl
      | inr e ↦
          longer_joined c token s t (partition_dot token) refl (rw e at h)
            (λ u v k. joined_partition token u v k)
    ]

module _ {U : Type 0} (identity : Identity U) where
  -- the texts of identifiers are read again and have no dot; digests are ASCII and not empty
  abbrev pub IsSigner : Type 0
  IsSigner =
      ((user : U) → identity.parse_uuid (identity.uuid_text user) ≡ some user)
      × ((user : U) → NoDot (identity.uuid_text user))
      × ((secret subject : String)
          → (is_ascii (identity.hexdigest secret subject) ≡ true)
            × (str_eq (identity.hexdigest secret subject) "" ≡ false))

  -- Where the texts of identifiers have no dot and are read again, and digests are ASCII and not
  -- empty: `_verify_token` gives the user of a token that was issued with the same secret.
  pub verify_token-issue_access_token :
      IsSigner
      → (user : U) (secret : String)
      → verify_token identity (issue_access_token identity user secret) secret ≡ returns (some user)
  unfolding verify_token issue_access_token compare_digest
  verify_token-issue_access_token (parses, no_dot, digests) user secret =
      let subject = identity.uuid_text user in
      let digest = identity.hexdigest secret subject in
      rw
        (
          partition_joined subject digest (no_dot user),
          (digests secret subject).1,
          parses user,
          (digests secret subject).0,
          eq_refl digest,
        )
        refl

  -- the token is a subject, a dot, and the digest of the subject under the secret
  abbrev pub IsSigned : String → String → U → Type 0
  IsSigned token secret user =
      (subject : String) × (token
        ≡ text_append subject (text_append "." (identity.hexdigest secret subject)))
      × (identity.parse_uuid subject ≡ some user)

  -- the text of a signature that compares as the digest is the digest
  signed_user_same :
      (secret subject signature : String) (known user : U)
      → signed_user identity secret subject signature known ≡ returns (some user)
      → (signature ≡ identity.hexdigest secret subject) × (known ≡ user)
  unfolding compare_digest
  signed_user_same secret subject signature known user h =
      let digest = identity.hexdigest secret subject in
      elim (Bool-cases (is_ascii signature && is_ascii digest)) [
        | inr foreign ↦ cc (rw foreign at h)
        | inl plain ↦ elim (Bool-cases (str_eq signature digest)) [
          | inr e ↦ cc (rw (plain, e) at h)
          | inl e ↦
              let same : some known ≡ some user = returns-injective (rw (plain, e) at h) in
              ((eq_iff signature digest).0 e, some-injective _ _ same)
        ]
      ]

  known_user_signed :
      (secret subject signature : String) (o : Option U) (user : U)
      → identity.parse_uuid subject ≡ o
      → known_user identity secret subject signature o ≡ returns (some user)
      → (signature ≡ identity.hexdigest secret subject) × (identity.parse_uuid subject ≡ some user)
  known_user_signed secret subject signature none user e h = cc
  known_user_signed secret subject signature (some known) user e h =
      let (same, is_user) = signed_user_same secret subject signature known user h in
      (same, e ∙ ap some is_user)

  checked-IsSigned :
      (token secret : String) (o : Option (String × String)) (user : U)
      → partition_dot token ≡ o
      → checked identity secret o ≡ returns (some user)
      → IsSigned token secret user
  checked-IsSigned token secret none user e h = cc
  checked-IsSigned token secret (some (subject, signature)) user e h =
      elim (Bool-cases (str_eq signature "")) [
        | inl empty ↦ cc (rw empty at h)
        | inr present ↦
            let (same, parsed) =
              known_user_signed secret subject signature (identity.parse_uuid subject) user refl
                (rw present at h) in
            let joined = joined_partition token subject signature e in
            (subject, rw same at joined, parsed)
      ]

  verify_token-IsSigned :
      (token secret : String) (user : U)
      → verify_token identity token secret ≡ returns (some user)
      → IsSigned token secret user
  unfolding verify_token
  verify_token-IsSigned token secret user h =
      checked-IsSigned token secret (partition_dot token) user refl h

  signed_in_user :
      (users : U → Option (User U)) (o : Option U) (current : CurrentUser U)
      → signed_in identity users o ≡ returns current
      → (id : U) × (o ≡ some id)
        × (user : User U) × (users id ≡ some user)
        × (user.is_active ≡ true)
        × (current ≡ record { id = user.id; role = user.role })
  signed_in_user users none current h = cc
  signed_in_user users (some id) current h = elim (Option-cases (users id)) [
    | inl missing ↦ cc (rw missing at h)
    | inr (user, e) ↦ elim (Bool-cases user.is_active) [
      | inr gone ↦ cc (rw (e, gone) at h)
      | inl active ↦ (id, refl, user, e, active, sym (returns-injective (rw (e, active) at h)))
    ]
  ]

  -- A request is accepted as that of a user only with a bearer token that is a subject, a dot and the
  -- digest of the subject under the secret, where the subject is the text of an identifier of which
  -- the database has an active user: that user, with the role of the database.
  pub get_current_user-IsSigned :
      (users : U → Option (User U)) (secret : String) (header : Option Credentials)
      (current : CurrentUser U)
      → get_current_user identity users secret header ≡ returns current
      → (c : Credentials) × (header ≡ some c)
        × (str_eq (lower c.scheme) "bearer" ≡ true)
        × (id : U) × IsSigned c.credentials secret id
        × (user : User U) × (users id ≡ some user)
        × (user.is_active ≡ true)
        × (current ≡ record { id = user.id; role = user.role })
  unfolding get_current_user
  get_current_user-IsSigned users secret none current h = cc
  get_current_user-IsSigned users secret (some c) current h =
      elim (Bool-cases (str_eq (lower c.scheme) "bearer")) [
        | inr other ↦ cc (rw other at h)
        | inl bearer ↦
            let (o, verified, h') =
              >>=-eq-returns (verify_token identity c.credentials secret) (signed_in identity users)
                (rw bearer at h) in
            let (id, is_id, user, found, active, made) = signed_in_user users o current h' in
            (
              c,
              refl,
              bearer,
              id,
              verify_token-IsSigned c.credentials secret id (verified ∙ ap returns is_id),
              user,
              found,
              active,
              made,
            )
      ]
