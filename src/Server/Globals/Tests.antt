-- ===== src/Server/Globals/Tests.antt =====
-- Starts in one process, over the small libraries of the provider's tests.
use governed_mcp_server.Common.{◌≡◌, refl, String, true, none, some, []}
use governed_mcp_server.Common.Result.{Result, ok, err}
use governed_mcp_server.Common.Value.{end}
use governed_mcp_server.Policy.Model.{file_not_found}
use governed_mcp_server.ServiceNow.Mock.{new}
use governed_mcp_server.ServiceNow.Backend.{mock, live, mock_name}
use governed_mcp_server.DevIdp.SmallLibrary.{header_kid, make_key}
use governed_mcp_server.Server.Start.{
  dev, DevIdentityProvider, McpServer, StartError, policy_refused, create_server,
}
use governed_mcp_server.Server.Governed.Tests.{read_text, safe_load}
use governed_mcp_server.Server.Main.Tests.{running, endpoint}
use governed_mcp_server.Server.Globals.{
  Globals, after_import, create_in, create_default, read_attribute,
}
use governed_mcp_server.Server.Globals.Starting.{Starting, create_in-Starting}

abbrev idp : DevIdentityProvider
idp = record { issuer = "https://idp"; audience = "api://governed-mcp-server"; jwks = end }

-- a process whose tools use an instance
abbrev pub on_instance : Globals String
on_instance = record after_import {
  service_now = live (record { instance_name = "acme"; user = "u"; password = "p" });
}

abbrev start : String → Result StartError (McpServer String) × Globals String
start path =
    create_in header_kid make_key endpoint read_text safe_load [] dev (some path) idp
      "http://127.0.0.1:8000/mcp" "api://governed-mcp-server" true mock_name on_instance

create_in-Starting_example :
    ((start "other.yaml").0
      ≡ create_server header_kid make_key endpoint read_text safe_load [] dev
          (some "other.yaml")
          idp
          "http://127.0.0.1:8000/mcp"
          "api://governed-mcp-server"
          true
          mock_name)
    × Starting header_kid make_key endpoint read_text safe_load [] dev
        (some "other.yaml")
        idp
        "http://127.0.0.1:8000/mcp"
        "api://governed-mcp-server"
        true
        mock_name
        on_instance
        (start "other.yaml")
create_in-Starting_example =
    create_in-Starting header_kid make_key endpoint read_text safe_load [] dev (some "other.yaml")
      idp "http://127.0.0.1:8000/mcp" "api://governed-mcp-server" true mock_name on_instance

-- A policy that is missing is noticed when the tools use the mock already.
rebound :
    start "other.yaml"
    ≡ (err (policy_refused file_not_found), record on_instance { service_now = mock (new [] []) })
unfolding running create_in
rebound = refl

-- The attribute `mcp` is a server without authentication, and binds the backend anew when it is
-- made, which is at its first reading only.
abbrev pub create : Globals String → Result StartError (McpServer String) × Globals String
create = create_default header_kid make_key endpoint read_text safe_load [] idp

attributes :
    (server : McpServer String) × ((create on_instance).0 ≡ ok server)
    × (read_attribute create "mcp" on_instance
        ≡ (some (ok server), record { service_now = mock (new [] []); mcp = some server }))
    × (read_attribute create "app" on_instance ≡ (none, on_instance))
    × (server.middleware ≡ none)
unfolding running create_in read_attribute
attributes = (_, refl, refl, refl, refl)
