-- ===== src/DevIdp/Tests.antt =====
-- A provider over the small library.
use governed_mcp_server.Common.{
  ◌≡◌, Option, ◌↔◌, refl, ℕ, String, none, some, List, [], ◌∷◌, arith, if◌then◌else◌,
}
use governed_mcp_server.Common.Dict.{lookup, insert}
use governed_mcp_server.Common.Text.{words, is_empty}
use governed_mcp_server.Common.Show.{to_text}
use governed_mcp_server.Common.Result.{Result, ok, err}
use governed_mcp_server.Common.Value.{pos, str, get_or, has_key, put}
use governed_mcp_server.Verifier.Tokens.{
  AccessToken, roles_from_token, describe_principal, string_list,
}
use governed_mcp_server.Verifier.Checking.{
  static_key_for, verify_token, to_access_token, kept_claims,
}
use governed_mcp_server.DevIdp.Provider.{
  KeyLibrary, not_rsa, other_key, new_provider, load_or_generate, jwks, dev_issuer, dev_audience,
  dev_client_id,
}
use governed_mcp_server.DevIdp.Issuing.{issue}
use governed_mcp_server.DevIdp.Trust.{IsTrusted}
use governed_mcp_server.DevIdp.Accepted.{trusting, issue-IsTrusted}
use governed_mcp_server.DevIdp.SmallLibrary.{
  library, idp, encode, uuid5_hex, header_kid, make_key, no_int, asked, claims, decode, jwt,
}
use governed_mcp_server.DevIdp.StrictLibrary.{Signed, strict, strict-IsChecked}
use governed_mcp_server.Verifier.Genuine.{IsGenuine, verify_token-IsGenuine}
use governed_mcp_server.DevIdp.Shared.{new_provider_again}

-- where the file holds a key of another kind
abbrev other_library : KeyLibrary String String
other_library = record library { load_pem = λ pem. some other_key }

starting : Unit {0}
unfolding new_provider load_or_generate lookup insert
starting = tt

provider_runs :
    (new_provider library dev_issuer dev_audience
        (some ".k.pem")
        ""
        "0123456789abcdef0123456789abcdef0123"
        []
      ≡ (ok idp, (".k.pem", "0123456789abcdef0123456789abcdef0123") ∷ []))
    × ((new_provider other_library dev_issuer dev_audience
          (some ".k.pem")
          ""
          "x"
          ((".k.pem", "ec") ∷ [])).0
        ≡ err (not_rsa ".k.pem"))
unfolding starting
provider_runs = (refl, refl)

abbrev roles : List String
roles = "tlo.operator" ∷ []

-- Half an hour after its issue the token is accepted.
abbrev half_hour_later : ℕ
half_hour_later = 6800

abbrev verified : Result String (Option AccessToken)
verified =
    verify_token no_int (decode "alice" roles 5000 half_hour_later)
      (trusting library header_kid make_key idp)
      (issue encode uuid5_hex idp (asked "alice" roles 5000 half_hour_later) 5000)

issue-IsTrusted_example :
    (((access : AccessToken) × (verified ≡ ok (some access)))
      ↔ IsTrusted idp (asked "alice" roles 5000 half_hour_later) 5000 half_hour_later)
    × ((access : AccessToken)
        → verified ≡ ok (some access)
        → (roles_from_token (some access) ≡ "tlo.operator" ∷ [])
          × (describe_principal (some access)
              ≡ (if is_empty "alice" then dev_client_id else "alice")))
issue-IsTrusted_example =
    issue-IsTrusted library encode header_kid make_key half_hour_later
      (decode "alice" roles 5000 half_hour_later) uuid5_hex no_int idp
      (asked "alice" roles 5000 half_hour_later) 5000 (jwt "alice" roles 5000 half_hour_later) refl
      refl refl

trusted : IsTrusted idp (asked "alice" roles 5000 half_hour_later) 5000 half_hour_later
trusted = record { issuer = refl; audience = refl; issued = omega arith; ahead = omega arith }

abbrev alice : AccessToken
alice = record {
  token = "0123456789abcdef0123456789abcdef";
  client_id = dev_client_id;
  scopes = str "mcp.invoke" ∷ [];
  expires_at = some (pos 8600);
  resource = dev_audience;
  subject = some "alice";
  claims = kept_claims (claims "alice" roles 5000 half_hour_later) ("tlo.operator" ∷ []);
}

verifying : Unit {0}
unfolding issue verify_token to_access_token static_key_for jwks string_list words to_text get_or
    has_key put
verifying = tt

accepted : verified ≡ ok (some alice)
unfolding verifying
accepted = refl

verify_token-IsGenuine_example :
    IsGenuine Signed half_hour_later
      (trusting library header_kid make_key idp)
      (issue encode uuid5_hex idp (asked "alice" roles 5000 half_hour_later) 5000)
      alice
unfolding verifying
verify_token-IsGenuine_example =
    verify_token-IsGenuine Signed half_hour_later no_int (strict "alice" roles 5000 half_hour_later)
      (strict-IsChecked "alice" roles 5000 half_hour_later)
      (trusting library header_kid make_key idp)
      (issue encode uuid5_hex idp (asked "alice" roles 5000 half_hour_later) 5000) alice refl

expired_is_rejected :
    verify_token no_int
      (decode "alice" roles 5000 8660)
      (trusting library header_kid make_key idp)
      (issue encode uuid5_hex idp (asked "alice" roles 5000 half_hour_later) 5000)
    ≡ ok none
unfolding verifying
expired_is_rejected = refl

second_process_agrees :
    new_provider library dev_issuer dev_audience
      (some ".k.pem")
      ""
      "another"
      ((".k.pem", "0123456789abcdef0123456789abcdef0123") ∷ [])
    ≡ (ok idp, (".k.pem", "0123456789abcdef0123456789abcdef0123") ∷ [])
unfolding starting
second_process_agrees =
    new_provider_again library (λ key. refl) ".k.pem" dev_issuer dev_audience "" []
      "0123456789abcdef0123456789abcdef0123" "another"
