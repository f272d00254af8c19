-- ===== src/Server/Main/Tests.antt =====
-- Runs of the command line, over the small libraries of the provider's tests.
use governed_mcp_server.Common.{◌≡◌, refl, String, true, false, none, some, List, [], ◌∷◌, arith}
use governed_mcp_server.Common.Dict.{Dict, lookup, insert}
use governed_mcp_server.Common.Order.{sorted_set}
use governed_mcp_server.Common.Text.{strip, split}
use governed_mcp_server.Common.Show.{to_text}
use governed_mcp_server.Common.Result.{Result, ok}
use governed_mcp_server.Common.Value.{Entries, get_or}
use governed_mcp_server.Policy.Loading.{
  load, from_mapping, parse_rules, parse_rule, checked_classification, checked_roles, parse_entries,
  parse_roles,
}
use governed_mcp_server.Policy.Document.{policy}
use governed_mcp_server.RequestState.{load_keys, build_security, ephemeral}
use governed_mcp_server.ServiceNow.Mock.{new}
use governed_mcp_server.ServiceNow.Backend.{build, mock, mock_name}
use governed_mcp_server.Verifier.Tokens.{AccessToken, roles_from_token}
use governed_mcp_server.Verifier.Checking.{
  KeySource, Decoding, DecodeError, EntraTokenVerifier, new_verifier, verify_token,
}
use governed_mcp_server.Audit.Stream.{configure, message_only}
use governed_mcp_server.DevIdp.Provider.{new_provider, load_or_generate, dev_issuer}
use governed_mcp_server.DevIdp.Issuing.{issue}
use governed_mcp_server.DevIdp.Accepted.{trusting}
use governed_mcp_server.DevIdp.SmallLibrary.{
  library, idp, encode, uuid5_hex, header_kid, make_key, no_int, decode, jwt,
}
use governed_mcp_server.Server.Start.{
  off, dev, entra, McpServer, tenant_missing, registered_tools, authentication, create_server,
}
use governed_mcp_server.Server.Governed.{IsGoverned}
use governed_mcp_server.Server.Governed.Tests.{read_text, safe_load}
use governed_mcp_server.Server.Main.{
  Options, Process, Ending, printed, token_needs_dev, start_stopped, serving, main, dev_provider,
  audit_logger_of,
}
use governed_mcp_server.Server.Main.Governed.{main-IsGoverned}
use governed_mcp_server.Server.Main.Tokens.{printed_token_works}

unfoldable pub running : Unit {0}
unfolding load from_mapping parse_rules parse_rule checked_classification checked_roles
    parse_entries parse_roles to_text sorted_set insert get_or lookup strip split new_verifier
    load_keys build_security build authentication create_server new_provider load_or_generate main
running = tt

abbrev pub endpoint : String → KeySource String
endpoint uri token = ok "k"

abbrev pub options : Options
options = record {
  host = "127.0.0.1";
  port = 8000;
  auth = dev;
  shadow = false;
  servicenow = mock_name;
  print_token = none;
  print_state_key = false;
}

abbrev pub run : Options → Process String → Dict String → Ending String × Dict String
run = main library encode uuid5_hex header_kid make_key endpoint read_text safe_load

abbrev pub first : Process String
first = record {
  environ = [];
  generated = "0123456789abcdef0123456789abcdef0123";
  random = [];
  now = 5000;
}

abbrev pub second : Process String
second = record first { generated = "another"; now = 6000 }

abbrev pub key_file : Dict String
key_file = (".devidp-key.pem", "0123456789abcdef0123456789abcdef0123") ∷ []

abbrev pub server : McpServer String
server = record {
  verifier = some (trusting library header_kid make_key idp);
  auth = some (record {
    issuer_url = dev_issuer;
    resource_server_url = "http://127.0.0.1:8000/mcp";
    required_scopes = "mcp.invoke" ∷ [];
  });
  security = ephemeral none;
  service_now = mock (new [] []);
  tools = registered_tools;
  resources = "shipment://{shipment_id}" ∷ [];
  middleware = some (record { policy = policy; enforce = true });
}

pub serves : run options first [] ≡ (serving server "127.0.0.1" 8000, key_file)
unfolding running
serves = refl

-- A key is printed before anything else is looked at, and a token in the mode `dev` only.
endings :
    ((run (record options { print_state_key = true }) first []).1 ≡ [])
    × ((run (record options { auth = off; print_token = some [] }) first []).0 ≡ token_needs_dev)
    × ((run (record options { auth = entra }) first []).0 ≡ start_stopped tenant_missing)
unfolding running
endings = (refl, refl, refl)

main-IsGoverned_example : IsGoverned (load read_text safe_load) "policy.yaml" true server
main-IsGoverned_example =
    main-IsGoverned library encode uuid5_hex header_kid make_key endpoint read_text safe_load
      options first [] key_file server "127.0.0.1" 8000 (λ e. cc) serves

pub provides :
    (dev_provider library encode uuid5_hex header_kid make_key endpoint read_text safe_load first
      []).0
    ≡ ok idp
unfolding running
provides = refl

abbrev pub roles : List String
roles = "tlo.operator" ∷ []

abbrev pub asking : Options
asking = record options { print_token = some roles }

abbrev pub decoding : Decoding String → Result DecodeError Entries
decoding = decode "user@example.com" roles 6000 6030

pub prints : run asking second key_file ≡ (printed idp.key_id, key_file)
unfolding running issue
prints = refl

printed_token_works_example :
    (token : String) × (verifier : EntraTokenVerifier String) × (access : AccessToken) × (run asking
        second key_file
      ≡ (printed token, key_file))
    × (server.verifier ≡ some verifier)
    × (verify_token no_int decoding verifier token ≡ ok (some access))
    × (roles_from_token (some access) ≡ roles)
printed_token_works_example =
    printed_token_works library encode uuid5_hex header_kid make_key endpoint read_text safe_load
      (λ key. refl) options first [] key_file server "127.0.0.1" 8000 idp refl serves provides
      asking second roles refl refl refl 6030 decoding no_int
      (jwt "user@example.com" roles 6000 6030) (omega arith) (omega arith)

-- A process that goes on has its audit trail on the standard output alone.
audit_stream :
    (audit_logger_of options (record { handlers = []; propagate = true; level = 30 })).handlers
    ≡ record { stream = "stdout"; format = message_only } ∷ []
unfolding configure
audit_stream = refl
