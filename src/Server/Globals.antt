-- ===== src/Server/Globals.antt =====
-- server.py: the globals of the module that change: the backend in use, which every start binds
-- anew, and `mcp`, which `__getattr__` makes on its first access.
pub mod Starting
pub mod Tests
use governed_mcp_server.Common.{String, Bool, true, Option, none, some, [], ◌==◌, if◌then◌else◌}
use governed_mcp_server.Common.Dict.{Dict}
use governed_mcp_server.Common.Result.{Result, ok, err}
use governed_mcp_server.Common.Value.{Value, Entries}
use governed_mcp_server.Verifier.Checking.{KeySource}
use governed_mcp_server.ServiceNow.Mock.{new}
use governed_mcp_server.ServiceNow.Backend.{Backend, mock, BackendName, mock_name}
use governed_mcp_server.Server.Start.{
  AuthMode, off, DevIdentityProvider, McpServer, StartError, Prepared, prepared, completed,
  default_audience, default_resource_url,
}

pub record Globals (Key : Type 0) : Type 0 where
  pub service_now : Backend
  pub mcp : Option (McpServer Key)

-- after `import server`
abbrev pub after_import : {Key : Type 0} → Globals Key
after_import = record { service_now = mock (new [] []); mcp = none }

-- What reading an attribute gives: none is an `AttributeError`.
abbrev pub Attribute : Type 0 → Type 0
Attribute Key = Option (Result StartError (McpServer Key))

module _ {Key : Type 0} where
  -- `SERVICENOW = …`, and the rest of the start
  abbrev pub bound :
      (Prepared Key → Result StartError (McpServer Key))
      → Globals Key
      → Result StartError (Prepared Key)
      → Result StartError (McpServer Key) × Globals Key
  bound complete globals (err e) = (err e, globals)
  bound complete globals (ok parts) =
      (complete parts, record globals { service_now = parts.backend })

  abbrev built : Result StartError (McpServer Key) × Globals Key → Attribute Key × Globals Key
  built (ok server, globals) = (some (ok server), record globals { mcp = some server })
  built (err e, globals) = (some (err e), globals)

module _ {Key : Type 0} (header_kid : String → Result String (Option String))
    (make_key : Entries → Result String Key) (endpoint : String → KeySource Key)
    (read_text : String → Option String) (safe_load : String → Option Value)
    (environ : Dict String) where
  -- `create_server`, with what it does to the globals
  unfoldable pub create_in :
      AuthMode
      → (policy_path : Option String) → (dev_idp : DevIdentityProvider)
      → (resource_url audience : String) → (enforce : Bool) → BackendName
      → Globals Key
      → Result StartError (McpServer Key) × Globals Key
  create_in auth_mode policy_path dev_idp resource_url audience enforce servicenow_backend globals =
      bound
        (completed header_kid make_key endpoint read_text safe_load environ auth_mode policy_path
          enforce)
        globals
        (prepared header_kid make_key endpoint read_text safe_load environ auth_mode dev_idp
          resource_url audience servicenow_backend)

  -- `create_server(auth_mode="off")`, which looks at no provider
  abbrev pub create_default :
      DevIdentityProvider → Globals Key → Result StartError (McpServer Key) × Globals Key
  create_default dev_idp =
      create_in off (some "policy.yaml") dev_idp default_resource_url default_audience true
        mock_name

module _ {Key : Type 0}
    (create : Globals Key → Result StartError (McpServer Key) × Globals Key) where
  -- `__getattr__`, where `create` is `create_default`
  abbrev module_getattr : (name : String) → Globals Key → Attribute Key × Globals Key
  module_getattr name globals = if name == "mcp" then built (create globals) else (none, globals)

  -- `server.name`, which calls `__getattr__` where the module has no such global
  unfoldable pub read_attribute : (name : String) → Globals Key → Attribute Key × Globals Key
  read_attribute name globals = elim globals.mcp [
    | none ↦ module_getattr name globals
    | some server ↦ if name == "mcp" then (some (ok server), globals) else (none, globals)
  ]
