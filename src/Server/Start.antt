-- ===== src/Server/Start.antt =====
-- server.py: `create_server`. A key set fetched over the network, the JWT library, the policy file,
-- its parser and the environment are parameters.
use governed_mcp_server.Common.{String, Bool, Option, none, some, List, [], ◌∷◌, if◌then◌else◌}
use governed_mcp_server.Common.Text.{is_empty}
use governed_mcp_server.Common.Dict.{Dict, lookup}
use governed_mcp_server.Common.Result.{Result, ok, err, ◌>>=◌}
use governed_mcp_server.Common.Value.{Value, Entries}
use governed_mcp_server.Policy.Model.{PolicyError}
use governed_mcp_server.Policy.Loading.{load}
use governed_mcp_server.Verifier.Checking.{
  KeySource, EntraTokenVerifier, new_verifier, allowed_algorithms, static_key_for, entra_issuer,
  entra_jwks_uri,
}
use governed_mcp_server.RequestState.{RequestStateKeyError, RequestStateSecurity, build_security}
use governed_mcp_server.ServiceNow.Model.{Fault}
use governed_mcp_server.ServiceNow.Backend.{Backend, BackendName, build}
use governed_mcp_server.Middleware.Flow.{PolicyEnforcementMiddleware}

pub data AuthMode : Type 0 where
  off dev entra : AuthMode

abbrev pub default_audience : String
default_audience = "api://governed-mcp-server"

abbrev pub default_resource_url : String
default_resource_url = "http://127.0.0.1:8000/mcp"

abbrev required_scopes : List String
required_scopes = "mcp.invoke" ∷ []

-- The SDK's `AuthSettings`.
pub record AuthSettings : Type 0 where
  pub issuer_url : String
  pub resource_server_url : String
  pub required_scopes : List String

-- What the server reads of a `DevIdentityProvider`.
pub record DevIdentityProvider : Type 0 where
  pub issuer : String
  pub audience : String
  pub jwks : Entries

-- What the server is made of; `service_now` is what its start binds the global SERVICENOW to.
pub record McpServer (Key : Type 0) : Type 0 where
  pub verifier : Option (EntraTokenVerifier Key)
  pub auth : Option AuthSettings
  pub security : RequestStateSecurity
  pub service_now : Backend
  pub tools : List String
  pub resources : List String
  pub middleware : Option PolicyEnforcementMiddleware

-- What is made before the backend is bound: the verifier and the settings, the security of the
-- request states, and the backend.
pub record Prepared (Key : Type 0) : Type 0 where
  pub auth : Option (EntraTokenVerifier Key) × Option AuthSettings
  pub security : RequestStateSecurity
  pub backend : Backend

-- What ends the start.
pub data StartError : Type 0 where
  tenant_missing : StartError
  algorithms_refused : List String → StartError
  state_keys_unusable : RequestStateKeyError → StartError
  backend_failed : Fault → StartError
  policy_refused : PolicyError → StartError

abbrev pub or_raise : {E A : Type 0} → (E → StartError) → Result E A → Result StartError A
or_raise f (err e) = err (f e)
or_raise f (ok a) = ok a

abbrev pub registered_tools : List String
registered_tools =
    "get_shipment_status" ∷ "list_delayed_shipments" ∷ "search_incidents" ∷ "get_configuration_item"
    ∷ "assess_shipment_delay" ∷ "raise_shipment_incident" ∷ []

-- `os.environ.get(name, default)`
abbrev pub environ_or : Dict String → String → String → String
environ_or environ name default = elim (lookup name environ) [ none ↦ default | some value ↦ value ]

abbrev settings : (issuer resource_url : String) → AuthSettings
settings issuer resource_url = record {
  issuer_url = issuer;
  resource_server_url = resource_url;
  required_scopes = required_scopes;
}

abbrev pub verified_by :
    {Key : Type 0}
    → (issuer audience : String) → KeySource Key
    → (resource_url : String)
    → Result StartError (Option (EntraTokenVerifier Key) × Option AuthSettings)
verified_by issuer audience source resource_url = do
  verifier ← or_raise algorithms_refused (new_verifier issuer audience source allowed_algorithms 60)
  ok (some verifier, some (settings issuer resource_url))

module _ {Key : Type 0} (header_kid : String → Result String (Option String))
    (make_key : Entries → Result String Key) (endpoint : String → KeySource Key)
    (environ : Dict String) where
  -- the verifier and the settings of a mode
  unfoldable pub authentication :
      AuthMode
      → (dev_idp : DevIdentityProvider) → (resource_url audience : String)
      → Result StartError (Option (EntraTokenVerifier Key) × Option AuthSettings)
  authentication off dev_idp resource_url audience = ok (none, none)
  authentication dev dev_idp resource_url audience =
      verified_by dev_idp.issuer dev_idp.audience (static_key_for header_kid make_key dev_idp.jwks)
        resource_url
  authentication entra dev_idp resource_url audience =
      let tenant_id = environ_or environ "MCP_ENTRA_TENANT_ID" "" in
      let made =
        verified_by (entra_issuer tenant_id) (environ_or environ "MCP_RESOURCE_AUDIENCE" audience)
          (endpoint (entra_jwks_uri tenant_id))
          (environ_or environ "MCP_RESOURCE_URL" resource_url) in
      if is_empty tenant_id then err tenant_missing else made

module _ (read_text : String → Option String) (safe_load : String → Option Value) where
  abbrev pub guarded_by :
      String → (enforce : Bool) → Result StartError (Option PolicyEnforcementMiddleware)
  guarded_by path enforce = do
    policy ← or_raise policy_refused (load read_text safe_load path)
    ok (some (record { policy = policy; enforce = enforce }))

  -- the middleware that is appended, if any
  abbrev pub governance :
      AuthMode
      → (policy_path : Option String) → (enforce : Bool)
      → Result StartError (Option PolicyEnforcementMiddleware)
  governance off policy_path enforce = ok none
  governance _ none enforce = ok none
  governance _ (some path) enforce = guarded_by path enforce

module _ {Key : Type 0} (header_kid : String → Result String (Option String))
    (make_key : Entries → Result String Key) (endpoint : String → KeySource Key)
    (read_text : String → Option String) (safe_load : String → Option Value)
    (environ : Dict String) where
  -- What there is when the global SERVICENOW is bound anew.
  abbrev pub prepared :
      AuthMode
      → (dev_idp : DevIdentityProvider) → (resource_url audience : String) → BackendName
      → Result StartError (Prepared Key)
  prepared auth_mode dev_idp resource_url audience servicenow_backend = do
    auth ←
        authentication header_kid make_key endpoint environ auth_mode dev_idp resource_url audience
    security ← or_raise state_keys_unusable (build_security none environ)
    backend ← or_raise backend_failed (build servicenow_backend environ)
    ok (record { auth = auth; security = security; backend = backend })

  abbrev pub completed :
      AuthMode
      → (policy_path : Option String) → (enforce : Bool) → Prepared Key
      → Result StartError (McpServer Key)
  completed auth_mode policy_path enforce parts = do
    middleware ← governance read_text safe_load auth_mode policy_path enforce
    ok (record {
      verifier = parts.auth.0;
      auth = parts.auth.1;
      security = parts.security;
      service_now = parts.backend;
      tools = registered_tools;
      resources = "shipment://{shipment_id}" ∷ [];
      middleware = middleware;
    })

  -- `dev_idp` is the provider that is given or made.
  unfoldable pub create_server :
      AuthMode
      → (policy_path : Option String) → (dev_idp : DevIdentityProvider)
      → (resource_url audience : String) → (enforce : Bool) → BackendName
      → Result StartError (McpServer Key)
  create_server auth_mode policy_path dev_idp resource_url audience enforce servicenow_backend =
      prepared auth_mode dev_idp resource_url audience servicenow_backend
      >>= completed auth_mode policy_path enforce
