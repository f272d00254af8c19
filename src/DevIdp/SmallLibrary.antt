-- ===== src/DevIdp/SmallLibrary.antt =====
-- A small cryptography library and JWT library that satisfy what is relied on of them: a key is a
-- text, and a token is the key id of its header.
use governed_mcp_server.Common.{
  ◌≡◌, refl, sym, ap, subst, ℕ, ◌+◌, ◌≤◌, ◌<◌, String, Bool, true, Option, some, List, [], ◌∷◌,
  arith, ◌==◌, eq_iff, leb, ltb, ◌&&◌, if◌then◌else◌, all,
}
use governed_mcp_server.Common.Result.{Result, ok, err}
use governed_mcp_server.Common.Value.{
  ℤ, pos, Value, str, Entries, get, get_or, has_key, put, dict_entries,
}
use governed_mcp_server.Verifier.Checking.{Decoding, DecodeError, expired_signature}
use governed_mcp_server.DevIdp.Provider.{
  DevIdentityProvider, KeyLibrary, rsa, dev_issuer, dev_audience,
}
use governed_mcp_server.DevIdp.Issuing.{Encode, IssueRequest, default_request, issued_claims}
use governed_mcp_server.Verifier.Genuine.{IsAhead}
use governed_mcp_server.DevIdp.Trust.{IsValid, IsJwtLibrary}
use governed_mcp_server.DevIdp.Accepted.{str-injective, int-injective, pos-injective}

abbrev pub library : KeyLibrary String String
library = record {
  public_key = λ key. key;
  load_pem = λ pem. some (rsa pem);
  to_pem = λ key. key;
  digest = λ key. key;
  to_jwk = λ key. dict_entries (("kty", str "RSA") ∷ ("n", str key) ∷ []);
}

abbrev pub idp : DevIdentityProvider String
idp = record {
  issuer = dev_issuer;
  audience = dev_audience;
  key_id = "0123456789abcdef0123456789abcdef";
  private_key = "0123456789abcdef0123456789abcdef0123";
}

abbrev pub encode : Encode String
encode claims signed kid = kid

abbrev pub uuid5_hex : String → String
uuid5_hex subject = "5a8c"

abbrev pub header_kid : String → Result String (Option String)
header_kid token = ok (some token)

abbrev pub key_text : Value → Result String String
key_text (str s) = ok s
key_text _ = err "InvalidKeyError"

abbrev pub make_key : Entries → Result String String
make_key jwk = key_text (get "n" jwk)

abbrev pub no_int : Value → Result String ℤ
no_int _ = err "TypeError"

module _ (subject : String) (roles : List String) (issued_at clock : ℕ) where
  abbrev pub asked : IssueRequest String
  asked = record default_request { subject = subject; roles = some roles }

  abbrev pub claims : Entries
  claims = issued_claims uuid5_hex idp asked issued_at

  -- the checks of `jwt.decode` on these claims, an hour's token
  abbrev pub passes : Decoding String → Bool
  passes d =
      all (λ name. has_key name claims) d.options.require
      && (dev_issuer == d.issuer
          && (dev_audience == d.audience
              && (leb issued_at (clock + d.leeway) && ltb clock (issued_at + 3600 + d.leeway))))

  abbrev pub decode : Decoding String → Result DecodeError Entries
  decode d = if passes d then ok claims else err expired_signature

  passes-IsValid : (d : Decoding String) → IsValid clock d claims → passes d ≡ true
  unfolding has_key get_or
  passes-IsValid d v =
      let issuer : dev_issuer ≡ d.issuer = str-injective v.issuer in
      let audience : dev_audience ≡ d.audience = str-injective v.audience in
      let begun : issued_at ≤ clock + d.leeway =
        subst (λ t. t ≤ clock + d.leeway) (sym (pos-injective v.issued.1)) v.issued.2 in
      let ahead : clock < issued_at + 3600 + d.leeway =
        subst (λ t. IsAhead t clock d.leeway) (sym (int-injective v.ahead.1)) v.ahead.2 in
      let required = v.required in
      ground (arith, eq_iff dev_issuer d.issuer, eq_iff dev_audience d.audience)

  pub IsValid-passes : (d : Decoding String) → passes d ≡ true → IsValid clock d claims
  unfolding has_key get_or
  IsValid-passes d e = record {
    required = ground arith;
    issuer = ap str ((eq_iff dev_issuer d.issuer).0 (ground arith));
    audience = ap str ((eq_iff dev_audience d.audience).0 (ground arith));
    subject = (subject, refl);
    issued = (issued_at, refl, ground arith);
    begun = (issued_at, refl, ground arith);
    ahead = (pos (issued_at + 3600), refl, ground arith);
  }

  pub jwt : IsJwtLibrary library encode header_kid make_key clock decode idp claims
  unfolding put get_or
  jwt = record {
    reads_header = refl;
    reads_key = refl;
    decodes = λ d token key listed on v. rw (passes-IsValid d v) refl;
    decodes_only = λ d found token key on e. IsValid-passes d (ground arith);
  }
