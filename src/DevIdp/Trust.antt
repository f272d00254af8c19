-- ===== src/DevIdp/Trust.antt =====
-- What makes a token trustworthy, and what is relied on of the JWT library.
use governed_mcp_server.Common.{◌≡◌, ℕ, ◌+◌, ◌≤◌, String, true, Option, some, all, Bool, ◌&&◌}
use governed_mcp_server.Common.Order.{contains}
use governed_mcp_server.Common.Result.{Result, ok}
use governed_mcp_server.Common.Value.{ℤ, pos, str, int, Entries, get, has_key}
use governed_mcp_server.Verifier.Checking.{Decoding, DecodeOptions, DecodeError}
use governed_mcp_server.Verifier.Genuine.{IsAhead}
use governed_mcp_server.DevIdp.Provider.{DevIdentityProvider, KeyLibrary, public_jwk}
use governed_mcp_server.DevIdp.Issuing.{Encode, IssueRequest, given_or, ◌+ℤ◌}

abbrev pub all_on : DecodeOptions → Bool
all_on o =
    o.verify_signature
    && (o.verify_exp && (o.verify_nbf && (o.verify_iat && (o.verify_iss && o.verify_aud))))

-- The claims that `jwt.decode` accepts when the clock reads `clock`.
pub record IsValid {Key : Type 0} (clock : ℕ) (d : Decoding Key) (claims : Entries) : Type 0 where
  pub required : all (λ name. has_key name claims) d.options.require ≡ true
  pub issuer : get "iss" claims ≡ str d.issuer
  pub audience : get "aud" claims ≡ str d.audience
  pub subject : (s : String) × (get "sub" claims ≡ str s)
  pub issued : (t : ℕ) × (get "iat" claims ≡ int (pos t)) × (t ≤ clock + d.leeway)
  pub begun : (t : ℕ) × (get "nbf" claims ≡ int (pos t)) × (t ≤ clock + d.leeway)
  pub ahead : (t : ℤ) × (get "exp" claims ≡ int t) × IsAhead t clock d.leeway

-- What is relied on of the JWT library for a token with these claims, signed by the provider: the
-- header and the published key are read back, and with that key, an allowed algorithm and all checks
-- on the token decodes exactly if the claims are valid, and then to these claims.
pub record IsJwtLibrary {PrivateKey PublicKey : Type 0} (library : KeyLibrary PrivateKey PublicKey)
    (encode : Encode PrivateKey) (header_kid : String → Result String (Option String))
    (make_key : Entries → Result String PublicKey) (clock : ℕ)
    (decode : Decoding PublicKey → Result DecodeError Entries)
    (idp : DevIdentityProvider PrivateKey) (claims : Entries) : Type 0 where
  pub reads_header :
      header_kid (encode claims (some (idp.private_key, "RS256")) idp.key_id) ≡ ok (some idp.key_id)
  pub reads_key : make_key (public_jwk library idp) ≡ ok (library.public_key idp.private_key)
  pub decodes :
      (d : Decoding PublicKey)
      → d.token ≡ encode claims (some (idp.private_key, "RS256")) idp.key_id
      → d.key ≡ library.public_key idp.private_key
      → contains d.algorithms "RS256" ≡ true
      → all_on d.options ≡ true
      → IsValid clock d claims
      → decode d ≡ ok claims
  pub decodes_only :
      (d : Decoding PublicKey) (found : Entries)
      → d.token ≡ encode claims (some (idp.private_key, "RS256")) idp.key_id
      → d.key ≡ library.public_key idp.private_key
      → all_on d.options ≡ true
      → decode d ≡ ok found
      → IsValid clock d claims

-- A token for the provider's own issuer and audience that is neither too early nor too late, each
-- by a leeway of a minute.
pub record IsTrusted {PrivateKey : Type 0} (idp : DevIdentityProvider PrivateKey)
    (asked : IssueRequest PrivateKey) (issued_at clock : ℕ) : Type 0 where
  pub issuer : given_or asked.issuer idp.issuer ≡ idp.issuer
  pub audience : given_or asked.audience idp.audience ≡ idp.audience
  pub issued : issued_at ≤ clock + 60
  pub ahead : IsAhead (issued_at +ℤ asked.expires_in) clock 60
