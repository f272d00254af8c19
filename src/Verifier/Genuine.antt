-- ===== src/Verifier/Genuine.antt =====
-- governance/verifier.py: what an accepted token shows, by what `jwt.decode` checks of it.
use governed_mcp_server.Common.{◌≡◌, refl, ℕ, ◌+◌, ◌≤◌, ◌<◌, String, true, some}
use governed_mcp_server.Common.Order.{contains}
use governed_mcp_server.Common.Result.{Result, ok}
use governed_mcp_server.Common.Value.{ℤ, pos, negsuc, Value, str, int, Entries, get, has_key}
use governed_mcp_server.Verifier.Tokens.{AccessToken, string_list, roles_from_token}
use governed_mcp_server.Verifier.Checking.{
  Decoding, DecodeError, EntraTokenVerifier, verify_token, decoding,
}
use governed_mcp_server.Verifier.Accepting.{verify_token-IsAccepted}

-- A time of expiry that the clock has not passed by more than the leeway.
abbrev pub IsAhead : ℤ → (clock leeway : ℕ) → Type 0
IsAhead (pos e) clock leeway = clock < e + leeway
IsAhead (negsuc k) clock leeway = clock + (k + 1) < leeway

-- What `jwt.decode` has checked of a token that it decodes to these claims, when the clock reads
-- `clock`: each check only where its option is on. `Signed` says that a token is signed with a key,
-- for an algorithm, and carries claims.
pub record IsChecked {Key : Type 0}
    (Signed : (token : String) → Key → (algorithm : String) → Entries → Type 0) (clock : ℕ)
    (d : Decoding Key) (claims : Entries) : Type 0 where
  pub required :
      (name : String) → contains d.options.require name ≡ true → has_key name claims ≡ true
  pub signature :
      d.options.verify_signature ≡ true
      → (algorithm : String) × (contains d.algorithms algorithm ≡ true)
        × Signed d.token d.key algorithm claims
  pub issuer : d.options.verify_iss ≡ true → get "iss" claims ≡ str d.issuer
  pub audience :
      d.options.verify_aud ≡ true → contains (string_list (get "aud" claims)) d.audience ≡ true
  pub issued :
      d.options.verify_iat ≡ true → (t : ℕ) → get "iat" claims ≡ int (pos t) → t ≤ clock + d.leeway
  pub begun :
      d.options.verify_nbf ≡ true → (t : ℕ) → get "nbf" claims ≡ int (pos t) → t ≤ clock + d.leeway
  pub ahead :
      d.options.verify_exp ≡ true → (t : ℤ) → get "exp" claims ≡ int t → IsAhead t clock d.leeway

-- An access token for claims that are signed, with a key of the verifier's source and for one of its
-- algorithms, by the verifier's issuer for its audience, are complete, and hold at this time.
pub record IsGenuine {Key : Type 0}
    (Signed : (token : String) → Key → (algorithm : String) → Entries → Type 0) (clock : ℕ)
    (verifier : EntraTokenVerifier Key) (token : String) (access : AccessToken) : Type 0 where
  pub key : Key
  pub of_source : verifier.key_source token ≡ ok key
  pub claims : Entries
  pub algorithm : String
  pub listed : contains verifier.algorithms algorithm ≡ true
  pub signed : Signed token key algorithm claims
  pub by_issuer : get "iss" claims ≡ str verifier.issuer
  pub for_audience : contains (string_list (get "aud" claims)) verifier.audience ≡ true
  pub complete :
      (has_key "exp" claims ≡ true) × (has_key "iat" claims ≡ true) × (has_key "sub" claims ≡ true)
  pub not_early : (t : ℕ) → get "nbf" claims ≡ int (pos t) → t ≤ clock + verifier.leeway_seconds
  pub issued : (t : ℕ) → get "iat" claims ≡ int (pos t) → t ≤ clock + verifier.leeway_seconds
  pub not_expired : (t : ℤ) → get "exp" claims ≡ int t → IsAhead t clock verifier.leeway_seconds
  pub resource : access.resource ≡ verifier.audience
  pub has_roles : roles_from_token (some access) ≡ string_list (get "roles" claims)

module _ {Key : Type 0} (Signed : (token : String) → Key → (algorithm : String) → Entries → Type 0)
    (clock : ℕ) (other_int : Value → Result String ℤ)
    (decode : Decoding Key → Result DecodeError Entries)
    (checks : (d : Decoding Key) (claims : Entries)
      → decode d ≡ ok claims
      → IsChecked Signed clock d claims) where
  -- A token that is accepted is signed with a key of the verifier's source, for one of the
  -- verifier's algorithms; its claims name the verifier's issuer and audience and have an expiry,
  -- an issue and a subject; of these times, those that are whole numbers hold: the clock has not
  -- passed the expiry, nor is it before the issue or the start of validity, by more than the
  -- leeway; and the access token names the verifier's audience
  -- and carries to the policy the roles of these claims. Of the JWT library it is assumed that
  -- what it decodes has passed the checks that the options switch on.
  pub verify_token-IsGenuine :
      (verifier : EntraTokenVerifier Key) (token : String) (access : AccessToken)
      → verify_token other_int decode verifier token ≡ ok (some access)
      → IsGenuine Signed clock verifier token access
  verify_token-IsGenuine verifier token access e =
      let accepted = verify_token-IsAccepted other_int decode verifier token access e in
      let checked =
        checks (decoding verifier token accepted.key) accepted.claims accepted.decoded in
      let (algorithm, listed, signed) = checked.signature refl in
      record {
        key = accepted.key;
        of_source = accepted.has_key;
        claims = accepted.claims;
        algorithm = algorithm;
        listed = listed;
        signed = signed;
        by_issuer = checked.issuer refl;
        for_audience = checked.audience refl;
        complete =
            (checked.required "exp" refl, checked.required "iat" refl, checked.required "sub" refl);
        not_early = checked.begun refl;
        issued = checked.issued refl;
        not_expired = checked.ahead refl;
        resource = accepted.for_audience;
        has_roles = accepted.has_roles;
      }
