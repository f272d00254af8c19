-- ===== src/Verifier/Tests.antt =====
-- A verifier over a library that accepts two tokens.
use governed_mcp_server.Common.{
  ◌≡◌, ◌↔◌, refl, ℕ, String, true, none, some, [], ◌∷◌, ◌==◌, if◌then◌else◌,
}
use governed_mcp_server.Common.Order.{contains, sorted_set}
use governed_mcp_server.Common.Text.{words}
use governed_mcp_server.Common.Show.{to_text}
use governed_mcp_server.Common.Result.{Result, ok, err}
use governed_mcp_server.Common.Value.{
  ℤ, pos, Value, str, int, list, list_items, dict, dict_entries, Entries, get_or, has_key,
}
use governed_mcp_server.Verifier.Tokens.{AccessToken, string_list, roles_from_token}
use governed_mcp_server.Verifier.Checking.{
  Decoding, DecodeError, invalid_audience, invalid_token, EntraTokenVerifier, KeySource,
  new_verifier, allowed_algorithms, to_access_token, verify_token, kept_claims, static_key_for,
}
use governed_mcp_server.Verifier.Accepting.{IsAccepted, verify_token-IsAccepted, new_verifier_iff}

verifying : Unit {0}
unfolding new_verifier verify_token to_access_token static_key_for string_list roles_from_token
    words to_text get_or has_key sorted_set
verifying = tt

abbrev claims : Entries
claims = dict_entries (
    ("sub", str "alice")
    ∷ ("exp", int (pos 1785585600))
    ∷ ("scp", str "mcp.invoke profile")
    ∷ ("roles", list (list_items (str "tlo.operator" ∷ [])))
    ∷ [])

abbrev no_int : Value → Result String ℤ
no_int _ = err "TypeError"

-- The library accepts one token for one audience.
abbrev decode : Decoding ℕ → Result DecodeError Entries
decode d =
    if d.token == "good"
    then (if d.audience == "api://governed-mcp-server" then ok claims else err invalid_audience)
    else err (invalid_token "bad signature")

abbrev jwks : Entries
jwks = dict_entries (
    (
      "keys",
      list (
          list_items
            (dict (("kid", str "k1") ∷ []) ∷ dict (("kid", str "k2") ∷ ("n", str "x") ∷ []) ∷ [])),
    )
    ∷ [])

abbrev key_number : Entries → Result String ℕ
key_number key = if has_key "n" key then ok 2 else ok 1

abbrev source : KeySource ℕ
source =
    static_key_for (λ token. ok (some (if token == "unknown" then "k9" else "k2"))) key_number jwks

abbrev verifier_for : String → EntraTokenVerifier ℕ
verifier_for audience = record {
  issuer = "https://idp";
  audience = audience;
  key_source = source;
  algorithms = allowed_algorithms;
  leeway_seconds = 60;
}

abbrev access : AccessToken
access = record {
  token = "good";
  client_id = "alice";
  scopes = str "mcp.invoke" ∷ str "profile" ∷ [];
  expires_at = some (pos 1785585600);
  resource = "api://governed-mcp-server";
  subject = some "alice";
  claims = kept_claims claims ("tlo.operator" ∷ []);
}

good_token :
    verify_token no_int decode (verifier_for "api://governed-mcp-server") "good" ≡ ok (some access)
unfolding verifying
good_token = refl

rejected_tokens :
    (verify_token no_int decode (verifier_for "api://other") "good" ≡ ok none)
    × (verify_token no_int decode (verifier_for "api://governed-mcp-server") "forged" ≡ ok none)
    × (verify_token no_int decode (verifier_for "api://governed-mcp-server") "unknown" ≡ ok none)
unfolding verifying
rejected_tokens = (refl, refl, refl)

-- A scope that is no text is refused by the validation of the access token.
number_scope_raises :
    to_access_token no_int decode "api://governed-mcp-server" "good"
      (dict_entries (("scp", list (list_items (int (pos 7) ∷ []))) ∷ []))
    ≡ err "ValidationError"
unfolding verifying
number_scope_raises = refl

good_token-IsAccepted : IsAccepted decode (verifier_for "api://governed-mcp-server") "good" access
good_token-IsAccepted =
    verify_token-IsAccepted no_int decode (verifier_for "api://governed-mcp-server") "good" access
      good_token

hmac_is_refused :
    new_verifier "https://idp" "api://x" source ("RS256" ∷ "none" ∷ "HS256" ∷ []) 60
    ≡ err ("HS256" ∷ "none" ∷ [])
unfolding verifying
hmac_is_refused = refl

new_verifier_iff_example :
    ((verifier : EntraTokenVerifier ℕ) × (new_verifier "https://idp" "api://x" source
          ("RS256" ∷ [])
          60
        ≡ ok verifier))
    ↔ ((name : String)
        → contains ("RS256" ∷ []) name ≡ true
        → contains allowed_algorithms name ≡ true)
new_verifier_iff_example = new_verifier_iff "https://idp" "api://x" source ("RS256" ∷ []) 60
