-- ===== src/Verifier/Checking.antt =====
-- governance/verifier.py: `StaticJwks`, `EntraTokenVerifier` and the URLs of a tenant. The JWT library
-- is a parameter: reading a header, making a key from its JSON and decoding a token. So is `int(x)`
-- of a value that is neither a number nor a boolean. The log is left out.
use governed_mcp_server.Common.{
  ℕ, String, Bool, true, false, not, Option, none, some, List, [], ◌∷◌, map, is_nil, keep,
  if◌then◌else◌,
}
use governed_mcp_server.Common.Text.{◌+++◌, words}
use governed_mcp_server.Common.Order.{contains, sorted_set}
use governed_mcp_server.Common.Result.{Result, ok, err, ◌>>=◌, ◌>>◌, raise_if}
use governed_mcp_server.Common.Value.{
  ℤ, pos, Value, bool, int, str, list, mapping, is_text, Items, nil, cons, Entries, get, get_or,
  has_key, or_else, truth, items, key_values, dict_entries, list_items,
}
use governed_mcp_server.Common.Show.{to_text}
use governed_mcp_server.Verifier.Tokens.{AccessToken, string_list}

abbrev pub allowed_algorithms : List String
allowed_algorithms = "RS256" ∷ "RS384" ∷ "RS512" ∷ "ES256" ∷ "ES384" ∷ "PS256" ∷ []

-- What `jwt.decode` raises: an `InvalidTokenError` or one of the two of its kinds that the code
-- tells apart, or any other exception.
pub data DecodeError : Type 0 where
  invalid_audience expired_signature : DecodeError
  invalid_token other_error : String → DecodeError

-- The options of `jwt.decode`: the claims that must be there, and which checks are on.
pub record DecodeOptions : Type 0 where
  pub require : List String
  pub verify_signature : Bool
  pub verify_exp : Bool
  pub verify_nbf : Bool
  pub verify_iat : Bool
  pub verify_iss : Bool
  pub verify_aud : Bool

-- The arguments of `jwt.decode`.
pub record Decoding (Key : Type 0) : Type 0 where
  pub token : String
  pub key : Key
  pub algorithms : List String
  pub issuer : String
  pub audience : String
  pub leeway : ℕ
  pub options : DecodeOptions

-- `key_for`, which may raise
abbrev pub KeySource : Type 0 → Type 0
KeySource Key = String → Result String Key

pub record EntraTokenVerifier (Key : Type 0) : Type 0 where
  pub issuer : String
  pub audience : String
  pub key_source : KeySource Key
  pub algorithms : List String
  pub leeway_seconds : ℕ

abbrev pub bad_algorithms : List String → List String
bad_algorithms algorithms = sorted_set (keep (λ a. not (contains allowed_algorithms a)) algorithms)

-- `EntraTokenVerifier.__init__`; the error names the algorithms that are not allowed
unfoldable pub new_verifier :
    {Key : Type 0}
    → (issuer audience : String) → KeySource Key
    → (algorithms : List String) → ℕ
    → Result (List String) (EntraTokenVerifier Key)
new_verifier issuer audience key_source algorithms leeway_seconds = do
  raise_if (not (is_nil (bad_algorithms algorithms))) (bad_algorithms algorithms)
  ok (record {
    issuer = issuer;
    audience = audience;
    key_source = key_source;
    algorithms = algorithms;
    leeway_seconds = leeway_seconds;
  })

abbrev required_claims : List String
required_claims = "exp" ∷ "iat" ∷ "iss" ∷ "aud" ∷ "sub" ∷ []

-- `scp.split() if isinstance(scp, str) else list(scp or [])`
abbrev pub scopes_of : Value → Result String (List Value)
scopes_of (str s) = ok (map str (words s))
scopes_of (list vs) = ok (items vs)
scopes_of (mapping m) = ok (key_values m)
scopes_of v = if truth v then err "TypeError" else ok []

are_texts : List Value → Bool
are_texts [] = true
are_texts (str s ∷ more) = are_texts more
are_texts (_ ∷ more) = false

-- whether `AccessToken` takes the scopes for a list of texts
unfoldable pub has_text_scopes : Value → Bool
unfolding are_texts
has_text_scopes (list vs) = are_texts (items vs)
has_text_scopes (mapping m) = are_texts (key_values m)
has_text_scopes _ = true

abbrev pub subject_of : Value → Option String
subject_of sub = if truth sub then some (to_text sub) else none

abbrev client_id_of : Entries → String
client_id_of claims = to_text (
    or_else (or_else (or_else (get "azp" claims) (get "appid" claims)) (get "sub" claims))
      (str "unknown"))

-- the claims that the token keeps
abbrev pub kept_claims : Entries → List String → Entries
kept_claims claims roles = dict_entries (
    ("iss", get "iss" claims)
    ∷ ("roles", list (list_items (map str roles)))
    ∷ ("tid", get "tid" claims)
    ∷ ("oid", get "oid" claims)
    ∷ ("preferred_username", get "preferred_username" claims)
    ∷ [])

abbrev pub decoding : {Key : Type 0} → EntraTokenVerifier Key → String → Key → Decoding Key
decoding verifier token key = record {
  token = token;
  key = key;
  algorithms = verifier.algorithms;
  issuer = verifier.issuer;
  audience = verifier.audience;
  leeway = verifier.leeway_seconds;
  options = record {
    require = required_claims;
    verify_signature = true;
    verify_exp = true;
    verify_nbf = true;
    verify_iat = true;
    verify_iss = true;
    verify_aud = true;
  };
}

module _ {Key : Type 0} (other_int : Value → Result String ℤ)
    (decode : Decoding Key → Result DecodeError Entries) where
  -- `int(x)`
  abbrev int_of : Value → Result String ℤ
  int_of (int z) = ok z
  int_of (bool b) = ok (if b then pos 1 else pos 0)
  int_of v = other_int v

  abbrev pub expiry : Entries → Result String (Option ℤ)
  expiry claims =
      if has_key "exp" claims then int_of (get "exp" claims) >>= (λ z. ok (some z)) else ok none

  -- The validation by `AccessToken` comes after its arguments have been computed.
  unfoldable pub to_access_token : (audience token : String) → Entries → Result String AccessToken
  unfolding words string_list has_text_scopes
  to_access_token audience token claims = do
    scopes ← scopes_of (get "scp" claims)
    expires_at ← expiry claims
    let roles = string_list (get "roles" claims)
    raise_if (not (has_text_scopes (get "scp" claims))) "ValidationError"
    ok (record {
      token = token;
      client_id = client_id_of claims;
      scopes = if is_nil scopes then map str roles else scopes;
      expires_at = expires_at;
      resource = audience;
      subject = subject_of (get "sub" claims);
      claims = kept_claims claims roles;
    })

  abbrev pub project :
      (audience token : String) → Result DecodeError Entries → Result String (Option AccessToken)
  project audience token (err invalid_audience) = ok none
  project audience token (err expired_signature) = ok none
  project audience token (err (invalid_token _)) = ok none
  project audience token (err (other_error e)) = err e
  project audience token (ok claims) =
      to_access_token audience token claims >>= λ access_token. ok (some access_token)

  abbrev pub verify_with :
      EntraTokenVerifier Key → String → Result String Key → Result String (Option AccessToken)
  verify_with verifier token (err e) = ok none
  verify_with verifier token (ok key) =
      project verifier.audience token (decode (decoding verifier token key))

  unfoldable pub verify_token : EntraTokenVerifier Key → String → Result String (Option AccessToken)
  verify_token verifier token = verify_with verifier token (verifier.key_source token)

abbrev pub entra_issuer : String → String
entra_issuer tenant_id = "https://login.microsoftonline.com/" +++ (tenant_id +++ "/v2.0")

abbrev pub entra_jwks_uri : String → String
entra_jwks_uri tenant_id =
    "https://login.microsoftonline.com/" +++ (tenant_id +++ "/discovery/v2.0/keys")

-- `StaticJwks.key_for`. The header's `kid` is a text or absent, as the JWT library checks.
module _ {Key : Type 0} (header_kid : String → Result String (Option String))
    (make_key : Entries → Result String Key) where
  abbrev matches : Option String → Entries → Bool
  matches none key = true
  matches (some kid) key = is_text kid (get "kid" key)

  unfoldable pub key_among : Option String → Items → Result String Key
  key_among kid nil = err "no key"
  key_among kid (cons (mapping key) more) =
      let rest = key_among kid more in if matches kid key then make_key key else rest
  key_among kid (cons _ more) = err "AttributeError"

  abbrev keys_in : Value → Result String Items
  keys_in (list vs) = ok vs
  keys_in _ = err "not a list of keys"

  unfoldable pub static_key_for : (jwks : Entries) → KeySource Key
  unfolding key_among
  static_key_for jwks token = do
    kid ← header_kid token
    keys ← keys_in (get_or "keys" (list nil) jwks)
    key_among kid keys
