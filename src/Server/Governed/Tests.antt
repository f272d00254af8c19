-- ===== src/Server/Governed/Tests.antt =====
-- Starts of the server with the shipped policy, in each mode.
use governed_mcp_server.Common.{
  ◌≡◌, refl, ℕ, String, true, Option, none, some, [], ◌∷◌, all, ◌==◌, if◌then◌else◌,
}
use governed_mcp_server.Common.Order.{sorted_set, contains}
use governed_mcp_server.Common.Dict.{lookup, insert, keys}
use governed_mcp_server.Common.Text.{strip, split}
use governed_mcp_server.Common.Show.{to_text}
use governed_mcp_server.Common.Result.{Result, ok, err}
use governed_mcp_server.Common.Value.{Value, Entries, end, get_or}
use governed_mcp_server.Policy.Model.{file_not_found}
use governed_mcp_server.Policy.Loading.{
  load, from_mapping, parse_rules, parse_rule, checked_classification, checked_roles, parse_entries,
  parse_roles,
}
use governed_mcp_server.Policy.Document.{document, policy}
use governed_mcp_server.Verifier.Checking.{
  KeySource, new_verifier, static_key_for, allowed_algorithms,
}
use governed_mcp_server.RequestState.{load_keys, build_security, ephemeral}
use governed_mcp_server.ServiceNow.Mock.{new}
use governed_mcp_server.ServiceNow.Backend.{build, mock, mock_name}
use governed_mcp_server.Server.Start.{
  AuthMode, dev, entra, DevIdentityProvider, McpServer, StartError, tenant_missing, policy_refused,
  registered_tools, authentication, create_server,
}
use governed_mcp_server.Server.Governed.{IsGoverned, create_server-IsGoverned}

starting : Unit {0}
unfolding load from_mapping parse_rules parse_rule checked_classification checked_roles
    parse_entries parse_roles to_text sorted_set insert get_or lookup strip split new_verifier
    load_keys build_security build authentication create_server
starting = tt

abbrev header_kid : String → Result String (Option String)
header_kid token = ok none

abbrev make_key : Entries → Result String ℕ
make_key key = ok 1

abbrev endpoint : String → KeySource ℕ
endpoint uri token = ok 2

-- a file system with the policy as its one file
abbrev pub read_text : String → Option String
read_text path = if path == "policy.yaml" then some "the policy" else none

abbrev pub safe_load : String → Option Value
safe_load contents = some document

abbrev idp : DevIdentityProvider
idp = record { issuer = "https://idp"; audience = "api://governed-mcp-server"; jwks = end }

abbrev start : AuthMode → (path : String) → Result StartError (McpServer ℕ)
start mode path =
    create_server header_kid make_key endpoint read_text safe_load [] mode (some path) idp
      "http://127.0.0.1:8000/mcp" "api://governed-mcp-server" true mock_name

abbrev started : McpServer ℕ
started = record {
  verifier = some (record {
    issuer = "https://idp";
    audience = "api://governed-mcp-server";
    key_source = static_key_for header_kid make_key end;
    algorithms = allowed_algorithms;
    leeway_seconds = 60;
  });
  auth = some (record {
    issuer_url = "https://idp";
    resource_server_url = "http://127.0.0.1:8000/mcp";
    required_scopes = "mcp.invoke" ∷ [];
  });
  security = ephemeral none;
  service_now = mock (new [] []);
  tools = registered_tools;
  resources = "shipment://{shipment_id}" ∷ [];
  middleware = some (record { policy = policy; enforce = true });
}

dev_starts : start dev "policy.yaml" ≡ ok started
unfolding starting
dev_starts = refl

start_errors :
    (start dev "other.yaml" ≡ err (policy_refused file_not_found))
    × (start entra "policy.yaml" ≡ err tenant_missing)
unfolding starting
start_errors = (refl, refl)

-- Every tool that the server registers has a rule in the shipped policy, and no other has.
tools_have_rules :
    (all (contains (keys policy.tools)) registered_tools ≡ true)
    × (all (contains registered_tools) (keys policy.tools) ≡ true)
tools_have_rules = (refl, refl)

create_server-IsGoverned_example : IsGoverned (load read_text safe_load) "policy.yaml" true started
create_server-IsGoverned_example =
    create_server-IsGoverned header_kid make_key endpoint read_text safe_load [] dev "policy.yaml"
      idp "http://127.0.0.1:8000/mcp" "api://governed-mcp-server" true mock_name started (λ e. cc)
      dev_starts
