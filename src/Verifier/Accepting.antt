-- ===== src/Verifier/Accepting.antt =====
-- Which tokens are accepted, and what of them reaches the policy.
use governed_mcp_server.Common.{
  ◌≡◌, refl, sym, ap, ◌∙◌, ℕ, String, Bool, true, false, not, some, List, [], ◌∷◌, arith, map, keep,
  is_nil, Bool-cases, inl, inr, eq_iff, ◌==◌, subst, ◌&&◌, ◌↔◌,
}
use governed_mcp_server.Common.Order.{contains, contains-sorted_set}
use governed_mcp_server.Common.Result.{Result, ok, err, raise_if, bind-eq-ok, ok-injective}
use governed_mcp_server.Common.Value.{ℤ, Value, str, Entries, get, get_or, items, list_items}
use governed_mcp_server.Common.Show.{to_text}
use governed_mcp_server.Verifier.Tokens.{AccessToken, string_list, roles_from_token}
use governed_mcp_server.Verifier.Checking.{
  Decoding, DecodeError, invalid_audience, expired_signature, invalid_token, other_error,
  EntraTokenVerifier, KeySource, new_verifier, allowed_algorithms, to_access_token, verify_token,
  verify_with, project, decoding, scopes_of, has_text_scopes, expiry, bad_algorithms,
}

-- What stands behind an accepted token.
pub record IsAccepted {Key : Type 0} (decode : Decoding Key → Result DecodeError Entries)
    (verifier : EntraTokenVerifier Key) (token : String) (access : AccessToken) : Type 0 where
  pub key : Key
  pub claims : Entries
  pub has_key : verifier.key_source token ≡ ok key
  pub decoded :
      decode (record {
        token = token;
        key = key;
        algorithms = verifier.algorithms;
        issuer = verifier.issuer;
        audience = verifier.audience;
        leeway = verifier.leeway_seconds;
        options = record {
          require = "exp" ∷ "iat" ∷ "iss" ∷ "aud" ∷ "sub" ∷ [];
          verify_signature = true;
          verify_exp = true;
          verify_nbf = true;
          verify_iat = true;
          verify_iss = true;
          verify_aud = true;
        };
      })
      ≡ ok claims
  pub for_audience : access.resource ≡ verifier.audience
  pub has_roles : roles_from_token (some access) ≡ string_list (get "roles" claims)

pub texts_of : (xs : List String) → map to_text (items (list_items (map str xs))) ≡ xs
unfolding to_text
texts_of [] = refl
texts_of (x ∷ xs) = ap (λ r. x ∷ r) (texts_of xs)

module _ {Key : Type 0} (other_int : Value → Result String ℤ)
    (decode : Decoding Key → Result DecodeError Entries) where
  to_access_token-roles :
      (audience token : String) (claims : Entries) (access : AccessToken)
      → to_access_token other_int decode audience token claims ≡ ok access
      → (access.resource ≡ audience)
        × (roles_from_token (some access) ≡ string_list (get "roles" claims))
  unfolding to_access_token roles_from_token get_or
  to_access_token-roles audience token claims access e =
      let (scopes, _, e') = bind-eq-ok (scopes_of (get "scp" claims)) _ e in
      let (expires_at, _, e'') = bind-eq-ok (expiry other_int decode claims) _ e' in
      let (_, _, e3) =
        bind-eq-ok (raise_if (not (has_text_scopes (get "scp" claims))) "ValidationError") _ e'' in
      let same = ok-injective e3 in
      (
        sym (ap (λ a. a.resource) same),
        ap (λ a. roles_from_token (some a)) (sym same)
            ∙ texts_of (string_list (get "roles" claims)),
      )

  pub project-some :
      (audience token : String) (result : Result DecodeError Entries) (access : AccessToken)
      → project other_int decode audience token result ≡ ok (some access)
      → (claims : Entries) × (result ≡ ok claims)
        × (access.resource ≡ audience)
        × (roles_from_token (some access) ≡ string_list (get "roles" claims))
  project-some audience token (ok claims) access e =
      let (found, made, same) =
        bind-eq-ok (to_access_token other_int decode audience token claims) _ e in
      let (resource, roles) = to_access_token-roles audience token claims found made in
      let equal : found ≡ access = cc in
      (
        claims,
        refl,
        ap (λ a. a.resource) (sym equal) ∙ resource,
        ap (λ a. roles_from_token (some a)) (sym equal) ∙ roles,
      )
  project-some audience token (err invalid_audience) access e = cc
  project-some audience token (err expired_signature) access e = cc
  project-some audience token (err (invalid_token _)) access e = cc
  project-some audience token (err (other_error _)) access e = cc

  verify_with-IsAccepted :
      (verifier : EntraTokenVerifier Key) (token : String) (found : Result String Key)
      → verifier.key_source token ≡ found
      → (access : AccessToken)
      → verify_with other_int decode verifier token found ≡ ok (some access)
      → IsAccepted decode verifier token access
  verify_with-IsAccepted verifier token (err x) h access e = cc
  verify_with-IsAccepted verifier token (ok key) h access e =
      let (claims, decoded, resource, roles) =
        project-some verifier.audience token (decode (decoding verifier token key)) access e in
      record {
        key = key;
        claims = claims;
        has_key = h;
        decoded = decoded;
        for_audience = resource;
        has_roles = roles;
      }

  -- A token that is accepted was decoded with a key of the source and with all options on, for the
  -- issuer, audience and algorithms of the verifier; the access token names that audience, and
  -- the roles that the policy then reads are those of the decoded claims.
  pub verify_token-IsAccepted :
      (verifier : EntraTokenVerifier Key) (token : String) (access : AccessToken)
      → verify_token other_int decode verifier token ≡ ok (some access)
      → IsAccepted decode verifier token access
  unfolding verify_token
  verify_token-IsAccepted verifier token access e =
      verify_with-IsAccepted verifier token (verifier.key_source token) refl access e

contains-keep :
    (p : String → Bool) (xs : List String) (x : String)
    → contains (keep p xs) x ≡ (contains xs x && p x)
contains-keep p [] x = refl
contains-keep p (y ∷ ys) x = elim (Bool-cases (y == x)) [
  | inl same ↦
      subst (λ z. contains (keep p (y ∷ ys)) z ≡ (contains (y ∷ ys) z && p z)) ((eq_iff y x).0 same)
        (ground (arith, eq_iff y y, contains-keep p ys y))
  | inr other ↦ ground (arith, eq_iff x y, eq_iff y x, contains-keep p ys x)
]

is_nil_none : (xs : List String) → is_nil xs ≡ true → (x : String) → contains xs x ≡ false
is_nil_none [] e x = refl
is_nil_none (y ∷ ys) e x = cc

is_nil_all : (xs : List String) → ((x : String) → contains xs x ≡ false) → is_nil xs ≡ true
is_nil_all [] h = refl
is_nil_all (x ∷ xs) h = ground (arith, eq_iff x x, h x)

bad_algorithms-contains :
    (algorithms : List String) (name : String)
    → contains (bad_algorithms algorithms) name
      ≡ (contains algorithms name && not (contains allowed_algorithms name))
bad_algorithms-contains algorithms name =
    contains-sorted_set (keep (λ a. not (contains allowed_algorithms a)) algorithms) name
    ∙ contains-keep (λ a. not (contains allowed_algorithms a)) algorithms name

module _ {Key : Type 0} (issuer audience : String) (key_source : KeySource Key)
    (algorithms : List String) (leeway : ℕ) where
  new_verifier-nil :
      ((verifier : EntraTokenVerifier Key) × (new_verifier issuer audience key_source algorithms
            leeway
          ≡ ok verifier))
      ↔ (is_nil (bad_algorithms algorithms) ≡ true)
  unfolding new_verifier
  new_verifier-nil = elim (Bool-cases (is_nil (bad_algorithms algorithms))) [
    | inl none_bad ↦ (
      λ _. none_bad,
      λ _. (
        record {
          issuer = issuer;
          audience = audience;
          key_source = key_source;
          algorithms = algorithms;
          leeway_seconds = leeway;
        },
        rw none_bad,
      ),
    )
    | inr some_bad ↦ (λ (v, e). ground arith, λ e. cc)
  ]

  -- A verifier can be made exactly with algorithms that are all among the six asymmetric ones.
  pub new_verifier_iff :
      ((verifier : EntraTokenVerifier Key) × (new_verifier issuer audience key_source algorithms
            leeway
          ≡ ok verifier))
      ↔ ((name : String)
          → contains algorithms name ≡ true
          → contains allowed_algorithms name ≡ true)
  new_verifier_iff = (
    λ made name listed.
        let gone = is_nil_none (bad_algorithms algorithms) (new_verifier-nil.0 made) name in
        ground (arith, bad_algorithms-contains algorithms name),
    λ all_allowed. new_verifier-nil.1 (
        is_nil_all (bad_algorithms algorithms) (λ name.
          let allowed = all_allowed name in
          ground (arith, bad_algorithms-contains algorithms name))),
  )
