-- ===== src/DevIdp/Accepted.antt =====
-- Which of the provider's tokens the verifier accepts.
use governed_mcp_server.Common.{
  ◌≡◌, ◌↔◌, refl, sym, ap, ◌∙◌, subst, ℕ, ◌+◌, ◌≤◌, String, true, Option, none, some, [], eq_refl,
  map, if◌then◌else◌,
}
use governed_mcp_server.Common.Text.{is_empty}
use governed_mcp_server.Common.Result.{Result, ok}
use governed_mcp_server.Common.Value.{
  ℤ, pos, Value, null, str, int, Entries, get, get_or, get_or-put, has_key, put, is_text, or_else,
  items, list_items,
}
use governed_mcp_server.Common.Show.{to_text}
use governed_mcp_server.Verifier.Tokens.{
  AccessToken, roles_from_token, describe_principal, string_list, optional_text,
}
use governed_mcp_server.Verifier.Checking.{
  Decoding, DecodeError, EntraTokenVerifier, allowed_algorithms, static_key_for, verify_token,
  verify_with, project, to_access_token, decoding, subject_of,
}
use governed_mcp_server.Verifier.Accepting.{project-some, texts_of}
use governed_mcp_server.DevIdp.Provider.{
  DevIdentityProvider, KeyLibrary, public_jwk, jwks, dev_client_id,
}
use governed_mcp_server.DevIdp.Issuing.{
  Encode, IssueRequest, issue, issued_claims, roles_or_none, ◌+ℤ◌,
}
use governed_mcp_server.Verifier.Genuine.{IsAhead}
use governed_mcp_server.DevIdp.Trust.{IsValid, IsJwtLibrary, IsTrusted}

pub str-injective : {s t : String} → ◌≡◌ {A = Value} (str s) (str t) → s ≡ t
str-injective e = cc

pub int-injective : {a b : ℤ} → ◌≡◌ {A = Value} (int a) (int b) → a ≡ b
int-injective e = cc

pub pos-injective : {a b : ℕ} → ◌≡◌ {A = Value} (int (pos a)) (int (pos b)) → a ≡ b
pos-injective e = cc

principal_of :
    (subject : String)
    → to_text (
        or_else
          (or_else (str subject) (optional_text (subject_of (str subject))))
          (str dev_client_id))
      ≡ (if is_empty subject then dev_client_id else subject)
unfolding to_text
principal_of String.[] = refl
principal_of (String.◌∷◌ c s) = refl

module _ {PrivateKey PublicKey : Type 0} (library : KeyLibrary PrivateKey PublicKey)
    (header_kid : String → Result String (Option String))
    (make_key : Entries → Result String PublicKey) (idp : DevIdentityProvider PrivateKey) where
  -- the verifier that trusts the provider
  abbrev pub trusting : EntraTokenVerifier PublicKey
  trusting = record {
    issuer = idp.issuer;
    audience = idp.audience;
    key_source = static_key_for header_kid make_key (jwks library idp);
    algorithms = allowed_algorithms;
    leeway_seconds = 60;
  }

  published_kid : get "kid" (public_jwk library idp) ≡ str idp.key_id
  published_kid =
      let jwk = library.to_jwk (library.public_key idp.private_key) in
      get_or-put "alg" "kid" (str "RS256") null
        (put "use" (str "sig") (put "kid" (str idp.key_id) jwk))
      ∙ get_or-put "use" "kid" (str "sig") null (put "kid" (str idp.key_id) jwk)
      ∙ get_or-put "kid" "kid" (str idp.key_id) null jwk

  named : is_text idp.key_id (get "kid" (public_jwk library idp)) ≡ true
  named = ap (is_text idp.key_id) published_kid ∙ eq_refl idp.key_id

  source_key :
      (token : String)
      → header_kid token ≡ ok (some idp.key_id)
      → make_key (public_jwk library idp) ≡ ok (library.public_key idp.private_key)
      → trusting.key_source token ≡ ok (library.public_key idp.private_key)
  unfolding static_key_for jwks get_or
  source_key token header key = rw (static_key_for, header) (rw (named, key) refl)

module _ {PrivateKey PublicKey : Type 0} (library : KeyLibrary PrivateKey PublicKey)
    (encode : Encode PrivateKey) (header_kid : String → Result String (Option String))
    (make_key : Entries → Result String PublicKey) (clock : ℕ)
    (decode : Decoding PublicKey → Result DecodeError Entries) (uuid5_hex : String → String)
    (other_int : Value → Result String ℤ) (idp : DevIdentityProvider PrivateKey)
    (asked : IssueRequest PrivateKey) (issued_at : ℕ)
    (jwt : IsJwtLibrary library encode header_kid make_key clock decode idp
      (issued_claims uuid5_hex idp asked issued_at))
    (plain : asked.omit ≡ []) (own_key : asked.key ≡ none) (signs : asked.algorithm ≡ "RS256") where
  abbrev claims : Entries
  claims = issued_claims uuid5_hex idp asked issued_at

  abbrev verifier : EntraTokenVerifier PublicKey
  verifier = trusting library header_kid make_key idp

  abbrev token : String
  token = issue encode uuid5_hex idp asked issued_at

  token-encode : token ≡ encode claims (some (idp.private_key, "RS256")) idp.key_id
  unfolding issue
  token-encode = rw (plain, own_key, signs) refl

  abbrev decoding_of : Decoding PublicKey
  decoding_of = decoding verifier token (library.public_key idp.private_key)

  IsTrusted-IsValid : IsTrusted idp asked issued_at clock → IsValid clock decoding_of claims
  unfolding has_key get_or
  IsTrusted-IsValid t = record {
    required = refl;
    issuer = ap str t.issuer;
    audience = ap str t.audience;
    subject = (asked.subject, refl);
    issued = (issued_at, refl, t.issued);
    begun = (issued_at, refl, t.issued);
    ahead = (issued_at +ℤ asked.expires_in, refl, t.ahead);
  }

  IsValid-IsTrusted : IsValid clock decoding_of claims → IsTrusted idp asked issued_at clock
  unfolding has_key get_or
  IsValid-IsTrusted v = record {
    issuer = str-injective v.issuer;
    audience = str-injective v.audience;
    issued = subst (λ t. t ≤ clock + 60) (sym (pos-injective v.issued.1)) v.issued.2;
    ahead = subst (λ t. IsAhead t clock 60) (sym (int-injective v.ahead.1)) v.ahead.2;
  }

  verified :
      verify_token other_int decode verifier token
      ≡ project other_int decode idp.audience token (decode decoding_of)
  unfolding verify_token
  verified = ap (verify_with other_int decode verifier token) (
      ap verifier.key_source token-encode
      ∙ source_key library header_kid make_key idp _ jwt.reads_header jwt.reads_key)

  -- What the policy and the audit trail read of an accepted token.
  abbrev ReadsBack : AccessToken → Type 0
  ReadsBack access =
      (roles_from_token (some access) ≡ roles_or_none asked.roles)
      × (describe_principal (some access)
          ≡ (if is_empty asked.subject then dev_client_id else asked.subject))

  accepted :
      IsTrusted idp asked issued_at clock
      → (access : AccessToken) × (verify_token other_int decode verifier token ≡ ok (some access))
        × ReadsBack access
  unfolding to_access_token get_or has_key roles_from_token describe_principal string_list
  accepted t =
      let roles = roles_or_none asked.roles in
      (
        _,
        verified
            ∙ ap (project other_int decode idp.audience token)
                (jwt.decodes decoding_of token-encode refl refl refl (IsTrusted-IsValid t)),
        (
          ap (λ r. map to_text (items (list_items (map str r)))) (texts_of roles) ∙ texts_of roles,
          principal_of asked.subject,
        ),
      )

  pub accepted_iff :
      ((access : AccessToken) × (verify_token other_int decode verifier token ≡ ok (some access)))
      ↔ IsTrusted idp asked issued_at clock
  accepted_iff = (
    λ (access, e).
        let found =
          project-some other_int decode idp.audience token (decode decoding_of) access
            (sym verified ∙ e) in
        IsValid-IsTrusted (jwt.decodes_only decoding_of found.0 token-encode refl refl found.1),
    λ t. let (access, e, _) = accepted t in (access, e),
  )

  pub read_back :
      (access : AccessToken)
      → verify_token other_int decode verifier token ≡ ok (some access)
      → (roles_from_token (some access) ≡ roles_or_none asked.roles)
        × (describe_principal (some access)
            ≡ (if is_empty asked.subject then dev_client_id else asked.subject))
  read_back access e =
      let (found, e', back) = accepted (accepted_iff.0 (access, e)) in
      let same : found ≡ access = cc in subst ReadsBack same back

  -- A token that the provider issues with its own key, for RS256 and with no claim left out, is
  -- accepted exactly if it names the provider's issuer and audience and the clock has reached its
  -- issue and not passed its expiry, each by a minute's leeway. An accepted one carries the roles that it was issued with to
  -- the policy, and its subject to the audit trail, or the provider's client where the subject is
  -- empty. What the JWT library does with these claims is assumed, as `IsJwtLibrary` says it.
  pub issue-IsTrusted :
      (((access : AccessToken) × (verify_token other_int decode verifier token ≡ ok (some access)))
        ↔ IsTrusted idp asked issued_at clock)
      × ((access : AccessToken)
          → verify_token other_int decode verifier token ≡ ok (some access)
          → (roles_from_token (some access) ≡ roles_or_none asked.roles)
            × (describe_principal (some access)
                ≡ (if is_empty asked.subject then dev_client_id else asked.subject)))
  issue-IsTrusted = (accepted_iff, read_back)
