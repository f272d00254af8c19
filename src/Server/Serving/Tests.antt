-- ===== src/Server/Serving/Tests.antt =====
-- An operator opens an incident on the mock, on a server that `--auth dev` serves, with a token that
-- `--print-token` printed.
use governed_mcp_server.Common.{◌≡◌, ◌≢◌, refl, ap, sym, ◌∙◌, ℕ, some, [], ◌∷◌, length, arith}
use governed_mcp_server.Common.Result.{ok}
use governed_mcp_server.Common.Value.{
  pos, str, dict, list, list_items, dict_entries, has_key, get_or, put,
}
use governed_mcp_server.Common.Show.{to_text}
use governed_mcp_server.Verifier.Tokens.{AccessToken}
use governed_mcp_server.Verifier.Checking.{verify_token, to_access_token, static_key_for}
use governed_mcp_server.DevIdp.SmallLibrary.{
  library, idp, encode, uuid5_hex, header_kid, make_key, no_int,
}
use governed_mcp_server.DevIdp.Provider.{jwks}
use governed_mcp_server.DevIdp.Accepted.{trusting}
use governed_mcp_server.Middleware.Flow.{Context, Answer, Outcome, returned, wire, World}
use governed_mcp_server.ServiceNow.Mock
use governed_mcp_server.ServiceNow.Mock.{MockServiceNow, new}
use governed_mcp_server.Server.Model.{Shipment}
use governed_mcp_server.Server.Governed.Tests.{read_text, safe_load}
use governed_mcp_server.Server.Main.Tests.{
  endpoint, options, first, key_file, server, serves, decoding,
}
use governed_mcp_server.Server.Authority.Tests.{running, env, retry, fresh}
use governed_mcp_server.Server.Serving.{run_target, run_request, served}
use governed_mcp_server.Server.Serving.SmallSdk.{sdk, shipments, clock, backend}
use governed_mcp_server.Server.Serving.Effects.{IsReading}
use governed_mcp_server.Server.Serving.Vouched.{
  IsAuthenticated, IsShipped, IsVouched, change-IsVouched,
}

-- what the verifier returns for the printed token
abbrev pub access : AccessToken
access = record {
  token = "0123456789abcdef0123456789abcdef";
  client_id = "11111111-1111-1111-1111-111111111111";
  scopes = str "mcp.invoke" ∷ [];
  expires_at = some (pos 9600);
  resource = "api://governed-mcp-server";
  subject = some "user@example.com";
  claims = dict_entries (
      ("iss", str "https://login.microsoftonline.local/00000000-0000-0000-0000-000000000000/v2.0")
      ∷ ("roles", list (list_items (str "tlo.operator" ∷ [])))
      ∷ ("tid", str "00000000-0000-0000-0000-000000000000")
      ∷ ("oid", str "5a8c")
      ∷ ("preferred_username", str "user@example.com")
      ∷ []);
}

verifies :
    verify_token no_int decoding (trusting library header_kid make_key idp) idp.key_id
    ≡ ok (some access)
unfolding verify_token to_access_token static_key_for jwks has_key get_or to_text put
verifies = refl

reading : (ctx : Context) → IsReading (backend ctx)
reading ctx = record { find_reads = λ name s. refl; search_reads = λ item active limit s. refl }

abbrev pub again : Context
again = record retry { token = some access }

file : IsShipped read_text safe_load
file = record { contents = "the policy"; reads = refl; parses = refl }

authenticated : IsAuthenticated no_int decoding server again
authenticated found e = (trusting library header_kid make_key idp, idp.key_id, refl, verifies ∙ cc)

abbrev answered : Outcome Answer × World MockServiceNow
answered = served server env (run_request sdk shipments backend clock) again fresh

answers : answered.0 ≡ returned (wire (str "INC0020001"))
unfolding running served run_request run_target
answers = refl

opens_one : length answered.1.inner.incidents ≡ 2
unfolding running served run_request run_target
opens_one = refl

store_changes : answered.1.inner ≢ fresh.inner
unfolding new
store_changes e =
    let counts : ◌≡◌ {A = ℕ} 2 1 = sym opens_one ∙ ap (λ store. length store.incidents) e in
    absurd (omega arith)

change-IsVouched_example : IsVouched decoding server again
change-IsVouched_example =
    change-IsVouched library encode uuid5_hex header_kid make_key endpoint read_text safe_load
      no_int decoding options first [] key_file server "127.0.0.1" 8000 env sdk shipments backend
      clock reading again fresh (λ e. cc) refl file serves authenticated store_changes

-- The call before it is answered.
abbrev ask : Context
ask = record again {
  params = dict (
      ("name", str "raise_shipment_incident")
      ∷ ("arguments", dict (("shipment_id", str "SHP-1002") ∷ ("urgency", str "2") ∷ []))
      ∷ []);
}

abbrev late : Shipment
late = record {
  id = "SHP-1002";
  origin = "Antwerp";
  destination = "Venlo";
  status = "delayed";
  eta = 1785697200000000;
  ci = "CI-WMS-01";
}
