-- ===== src/Server/Governed.antt =====
-- How a server that starts is governed.
pub mod Tests
use governed_mcp_server.Common.{
  ◌≡◌, ◌≢◌, refl, sym, ap, ◌∙◌, String, Bool, Option, none, some, arith, Bool-cases, inl, inr,
}
use governed_mcp_server.Common.Text.{is_empty}
use governed_mcp_server.Common.Dict.{Dict}
use governed_mcp_server.Common.Result.{Result, ok, err, bind-eq-ok, ok-injective}
use governed_mcp_server.Common.Value.{Value, Entries}
use governed_mcp_server.Policy.Model.{Policy, PolicyError}
use governed_mcp_server.Policy.Loading.{load}
use governed_mcp_server.Policy.WellFormed.{IsWellFormed, load-IsWellFormed}
use governed_mcp_server.Verifier.Checking.{
  KeySource, EntraTokenVerifier, new_verifier, allowed_algorithms,
}
use governed_mcp_server.Middleware.Flow.{PolicyEnforcementMiddleware}
use governed_mcp_server.Common.Order.{sorted_set}
use governed_mcp_server.RequestState.{build_security}
use governed_mcp_server.ServiceNow.Backend.{BackendName, build}
use governed_mcp_server.Server.Start.{
  AuthMode, off, dev, entra, AuthSettings, DevIdentityProvider, McpServer, StartError, or_raise,
  authentication, verified_by, governance, guarded_by, prepared, create_server, state_keys_unusable,
  backend_failed, policy_refused, environ_or,
}

pub or_raise-ok :
    {E A : Type 0} (f : E → StartError) (r : Result E A) (a : A) → or_raise f r ≡ ok a → r ≡ ok a
or_raise-ok f (err e) a h = cc
or_raise-ok f (ok b) a h = cc

-- The verifier that `create_server` makes accepts asymmetric algorithms only.
abbrev Verifies : {Key : Type 0} → Option (EntraTokenVerifier Key) → Type 0
Verifies {Key = Key} verifier =
    (made : EntraTokenVerifier Key) × (verifier ≡ some made)
    × (made.algorithms ≡ allowed_algorithms)

verified_by-Verifies :
    {Key : Type 0} (issuer audience : String) (source : KeySource Key) (resource_url : String)
    → (auth : Option (EntraTokenVerifier Key) × Option AuthSettings)
    → verified_by issuer audience source resource_url ≡ ok auth
    → Verifies auth.0
unfolding new_verifier sorted_set
verified_by-Verifies issuer audience source resource_url auth e =
    (_, ap (λ a. a.0) (sym (ok-injective e)), refl)

module _ {Key : Type 0} (header_kid : String → Result String (Option String))
    (make_key : Entries → Result String Key) (endpoint : String → KeySource Key)
    (environ : Dict String) where
  authentication-Verifies :
      (mode : AuthMode) (idp : DevIdentityProvider) (resource_url audience : String)
      → (auth : Option (EntraTokenVerifier Key) × Option AuthSettings) → mode ≢ off
      → authentication header_kid make_key endpoint environ mode idp resource_url audience ≡ ok auth
      → Verifies auth.0
  unfolding authentication
  authentication-Verifies off idp resource_url audience auth on e = absurd (on refl)
  authentication-Verifies dev idp resource_url audience auth on e =
      verified_by-Verifies _ _ _ _ auth e
  authentication-Verifies entra idp resource_url audience auth on e =
      elim (Bool-cases (is_empty (environ_or environ "MCP_ENTRA_TENANT_ID" ""))) [
        | inl unset ↦ let e' = rw unset at e in cc
        | inr set ↦ verified_by-Verifies _ _ _ _ auth (rw set at e)
      ]

module _ (read_text : String → Option String) (safe_load : String → Option Value) where
  guarded_by-ok :
      (path : String) (enforce : Bool) (middleware : Option PolicyEnforcementMiddleware)
      → guarded_by read_text safe_load path enforce ≡ ok middleware
      → (policy : Policy) × (load read_text safe_load path ≡ ok policy)
        × (middleware ≡ some (record { policy = policy; enforce = enforce }))
  guarded_by-ok path enforce middleware e =
      let (policy, loaded, rest) =
        bind-eq-ok (or_raise policy_refused (load read_text safe_load path)) _ e in
      (
        policy,
        or_raise-ok policy_refused (load read_text safe_load path) policy loaded,
        sym (ok-injective rest),
      )

  governance-ok :
      (mode : AuthMode) (path : String) (enforce : Bool)
      → (middleware : Option PolicyEnforcementMiddleware) → mode ≢ off
      → governance read_text safe_load mode (some path) enforce ≡ ok middleware
      → (policy : Policy) × (load read_text safe_load path ≡ ok policy)
        × (middleware ≡ some (record { policy = policy; enforce = enforce }))
  governance-ok off path enforce middleware on e = absurd (on refl)
  governance-ok dev path enforce middleware on e = guarded_by-ok path enforce middleware e
  governance-ok entra path enforce middleware on e = guarded_by-ok path enforce middleware e

-- A server that verifies tokens, with asymmetric algorithms only, and asks a well-formed policy,
-- the one that loads from the path.
pub record IsGoverned {Key : Type 0} (policy_at : String → Result PolicyError Policy)
    (path : String) (enforce : Bool) (server : McpServer Key) : Type 0 where
  pub token_verifier : EntraTokenVerifier Key
  pub verifies : server.verifier ≡ some token_verifier
  pub asymmetric : token_verifier.algorithms ≡ allowed_algorithms
  pub policy : Policy
  pub loads : policy_at path ≡ ok policy
  pub well_formed : IsWellFormed policy
  pub enforces : server.middleware ≡ some (record { policy = policy; enforce = enforce })

module _ {Key : Type 0} (header_kid : String → Result String (Option String))
    (make_key : Entries → Result String Key) (endpoint : String → KeySource Key)
    (read_text : String → Option String) (safe_load : String → Option Value) (environ : Dict String)
    (mode : AuthMode) (policy_path : Option String) (idp : DevIdentityProvider)
    (resource_url audience : String) (enforce : Bool) (backend_name : BackendName)
    (server : McpServer Key) where
  -- What a server that starts is put together from.
  pub record IsAssembled : Type 0 where
    pub auth : Option (EntraTokenVerifier Key) × Option AuthSettings
    pub authenticated :
        authentication header_kid make_key endpoint environ mode idp resource_url audience ≡ ok auth
    pub middleware : Option PolicyEnforcementMiddleware
    pub governed : governance read_text safe_load mode policy_path enforce ≡ ok middleware
    pub has_verifier : server.verifier ≡ auth.0
    pub has_middleware : server.middleware ≡ middleware

  pub create_server-IsAssembled :
      create_server header_kid make_key endpoint read_text safe_load environ mode policy_path idp
          resource_url audience enforce backend_name
        ≡ ok server
      → IsAssembled
  unfolding create_server
  create_server-IsAssembled e =
      let (parts, made, e3) =
        bind-eq-ok
          (prepared header_kid make_key endpoint read_text safe_load environ mode idp resource_url
            audience backend_name)
          _ e in
      let (auth, authenticated, e1) =
        bind-eq-ok
          (authentication header_kid make_key endpoint environ mode idp resource_url audience) _
          made in
      let (security, _, e2) =
        bind-eq-ok (or_raise state_keys_unusable (build_security none environ)) _ e1 in
      let (backend, _, same_parts) =
        bind-eq-ok (or_raise backend_failed (build backend_name environ)) _ e2 in
      let (middleware, governed, e4) =
        bind-eq-ok (governance read_text safe_load mode policy_path enforce) _ e3 in
      let same = sym (ok-injective e4) in
      record {
        auth = auth;
        authenticated = authenticated;
        middleware = middleware;
        governed = governed;
        has_verifier =
            ap (λ s. s.verifier) same ∙ ap (λ p. p.auth.0) (sym (ok-injective same_parts));
        has_middleware = ap (λ s. s.middleware) same;
      }

-- A server that starts in a mode other than `off` with a path to a policy verifies tokens with the
-- asymmetric algorithms only, and passes requests through a middleware with the well-formed policy
-- that loads from this path: none starts where that policy does not load.
pub create_server-IsGoverned :
    {Key : Type 0}
    → (header_kid : String → Result String (Option String))
    → (make_key : Entries → Result String Key) → (endpoint : String → KeySource Key)
    → (read_text : String → Option String) (safe_load : String → Option Value)
    → (environ : Dict String) → (mode : AuthMode) (path : String) (idp : DevIdentityProvider)
    → (resource_url audience : String) (enforce : Bool) (backend_name : BackendName)
    → (server : McpServer Key) → mode ≢ off
    → create_server header_kid make_key endpoint read_text safe_load environ mode
        (some path)
        idp
        resource_url
        audience
        enforce
        backend_name
      ≡ ok server
    → IsGoverned (load read_text safe_load) path enforce server
create_server-IsGoverned header_kid make_key endpoint read_text safe_load environ mode path idp
      resource_url audience enforce backend_name server on e =
    let parts =
      create_server-IsAssembled header_kid make_key endpoint read_text safe_load environ mode
        (some path) idp resource_url audience enforce backend_name server e in
    let (verifier, verifies, asymmetric) =
      authentication-Verifies header_kid make_key endpoint environ mode idp resource_url audience
        parts.auth on parts.authenticated in
    let (policy, loads, guards) =
      governance-ok read_text safe_load mode path enforce parts.middleware on parts.governed in
    record {
      token_verifier = verifier;
      verifies = parts.has_verifier ∙ verifies;
      asymmetric = asymmetric;
      policy = policy;
      loads = loads;
      well_formed = load-IsWellFormed read_text safe_load path policy loads;
      enforces = parts.has_middleware ∙ guards;
    }
