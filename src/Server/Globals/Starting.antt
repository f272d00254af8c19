-- ===== src/Server/Globals/Starting.antt =====
-- How a start ends, and what it leaves of the globals.
use governed_mcp_server.Common.{
  ◌≡◌, ◌≢◌, inl, inr, refl, sym, ap, ◌∙◌, String, Bool, true, false, Option, none, some, Bool-cases,
}
use governed_mcp_server.Common.Text.{is_empty}
use governed_mcp_server.Common.Dict.{Dict}
use governed_mcp_server.Common.Result.{
  Result, ok, err, bind-eq-ok, bind-eq-err, ok-injective, Result-cases, ◌>>=◌,
}
use governed_mcp_server.Common.Value.{Value, Entries}
use governed_mcp_server.Policy.Model.{PolicyError}
use governed_mcp_server.Policy.Loading.{load}
use governed_mcp_server.RequestState.{build_security}
use governed_mcp_server.Verifier.Checking.{KeySource, new_verifier, allowed_algorithms}
use governed_mcp_server.ServiceNow.Backend.{Backend, BackendName, build}
use governed_mcp_server.Server.Start.{
  AuthMode, off, dev, entra, DevIdentityProvider, McpServer, StartError, algorithms_refused,
  state_keys_unusable, backend_failed, policy_refused, Prepared, prepared, completed, create_server,
  or_raise, governance, guarded_by, authentication, verified_by, environ_or,
}
use governed_mcp_server.Server.Governed.{or_raise-ok}
use governed_mcp_server.Server.Globals.{Globals, bound, create_in}

-- an error of a policy that does not load
abbrev is_policy : StartError → Bool
is_policy (policy_refused _) = true
is_policy _ = false

or_raise-other :
    {E A : Type 0} (f : E → StartError) (r : Result E A) (e : StartError)
    → ((x : E) → is_policy (f x) ≡ false)
    → or_raise f r ≡ err e
    → is_policy e ≡ false
or_raise-other f (err x) e other h = cc (other x, h)
or_raise-other f (ok a) e other h = cc

verified_by-other :
    {Key : Type 0} (issuer audience : String) (source : KeySource Key) (resource_url : String)
    → (e : StartError) → verified_by issuer audience source resource_url ≡ err e
    → is_policy e ≡ false
verified_by-other issuer audience source resource_url e h =
    let made = new_verifier issuer audience source allowed_algorithms 60 in
    elim (bind-eq-err (or_raise algorithms_refused made) _ e h) [
      | inl refused ↦ or_raise-other algorithms_refused made e (λ names. refl) refused
      | inr (verifier, h') ↦ cc
    ]

module _ {Key : Type 0} (header_kid : String → Result String (Option String))
    (make_key : Entries → Result String Key) (endpoint : String → KeySource Key)
    (environ : Dict String) where
  authentication-other :
      (mode : AuthMode) (idp : DevIdentityProvider) (resource_url audience : String)
      → (e : StartError)
      → authentication header_kid make_key endpoint environ mode idp resource_url audience ≡ err e
      → is_policy e ≡ false
  unfolding authentication
  authentication-other off idp resource_url audience e h = cc
  authentication-other dev idp resource_url audience e h = verified_by-other _ _ _ _ e h
  authentication-other entra idp resource_url audience e h =
      elim (Bool-cases (is_empty (environ_or environ "MCP_ENTRA_TENANT_ID" ""))) [
        | inl unset ↦ let h' = rw unset at h in cc
        | inr set ↦ verified_by-other _ _ _ _ e (rw set at h)
      ]

-- A policy of the path that is asked for, which does not load.
pub record IsRefused (read_text : String → Option String) (safe_load : String → Option Value)
    (mode : AuthMode) (policy_path : Option String) (e : StartError) : Type 0 where
  pub path : String
  pub refusal : PolicyError
  pub on : mode ≢ off
  pub asked : policy_path ≡ some path
  pub fails : load read_text safe_load path ≡ err refusal
  pub raised : e ≡ policy_refused refusal

module _ (read_text : String → Option String) (safe_load : String → Option Value) where
  guarded_by-IsRefused :
      (mode : AuthMode) (path : String) (enforce : Bool) (e : StartError)
      → mode ≢ off
      → guarded_by read_text safe_load path enforce ≡ err e
      → IsRefused read_text safe_load mode (some path) e
  guarded_by-IsRefused mode path enforce e on h =
      elim (Result-cases (load read_text safe_load path)) [
        | inl (policy, loaded) ↦ let h' = rw loaded at h in cc
        | inr (refusal, fails) ↦ record {
          path = path;
          refusal = refusal;
          on = on;
          asked = refl;
          fails = fails;
          raised = let h' = rw fails at h in cc;
        }
      ]

  governance-IsRefused :
      (mode : AuthMode) (policy_path : Option String) (enforce : Bool) (e : StartError)
      → governance read_text safe_load mode policy_path enforce ≡ err e
      → IsRefused read_text safe_load mode policy_path e
  governance-IsRefused off policy_path enforce e h = cc
  governance-IsRefused dev none enforce e h = cc
  governance-IsRefused entra none enforce e h = cc
  governance-IsRefused dev (some path) enforce e h =
      guarded_by-IsRefused dev path enforce e (λ same. cc) h
  governance-IsRefused entra (some path) enforce e h =
      guarded_by-IsRefused entra path enforce e (λ same. cc) h

module _ {Key : Type 0} (header_kid : String → Result String (Option String))
    (make_key : Entries → Result String Key) (endpoint : String → KeySource Key)
    (read_text : String → Option String) (safe_load : String → Option Value) (environ : Dict String)
    (mode : AuthMode) (policy_path : Option String) (dev_idp : DevIdentityProvider)
    (resource_url audience : String) (enforce : Bool) (backend_name : BackendName)
    (globals : Globals Key) where
  abbrev preparation : Result StartError (Prepared Key)
  preparation =
      prepared header_kid make_key endpoint read_text safe_load environ mode dev_idp resource_url
        audience backend_name

  abbrev completion : Prepared Key → Result StartError (McpServer Key)
  completion =
      completed header_kid make_key endpoint read_text safe_load environ mode policy_path enforce

  preparation-other : (e : StartError) → preparation ≡ err e → is_policy e ≡ false
  preparation-other e h =
      elim (bind-eq-err
        (authentication header_kid make_key endpoint environ mode dev_idp resource_url audience) _ e
        h) [
          | inl refused ↦
              authentication-other header_kid make_key endpoint environ mode dev_idp resource_url
                audience e refused
          | inr (auth, h1) ↦
              elim (bind-eq-err (or_raise state_keys_unusable (build_security none environ)) _ e
                h1) [
                  | inl unusable ↦
                      or_raise-other state_keys_unusable (build_security none environ) e (λ x. refl)
                        unusable
                  | inr (security, h2) ↦
                      elim (bind-eq-err (or_raise backend_failed (build backend_name environ)) _ e
                        h2) [
                          | inl failed ↦
                              or_raise-other backend_failed (build backend_name environ) e
                                (λ x. refl) failed
                          | inr (backend, h3) ↦ cc
                        ]
                ]
        ]

  preparation-build :
      (parts : Prepared Key)
      → preparation ≡ ok parts
      → build backend_name environ ≡ ok parts.backend
  preparation-build parts h =
      let (auth, _, h1) =
        bind-eq-ok
          (authentication header_kid make_key endpoint environ mode dev_idp resource_url audience) _
          h in
      let (security, _, h2) =
        bind-eq-ok (or_raise state_keys_unusable (build_security none environ)) _ h1 in
      let (backend, made, h3) =
        bind-eq-ok (or_raise backend_failed (build backend_name environ)) _ h2 in
      or_raise-ok backend_failed (build backend_name environ) backend made
      ∙ ap (λ p. ok p.backend) (ok-injective h3)

  pub data Starting (result : Result StartError (McpServer Key) × Globals Key) : Type 0 where
    stopped : (e : StartError) → is_policy e ≡ false → result ≡ (err e, globals) → Starting result
    refused :
        (e : StartError) (backend : Backend)
        → build backend_name environ ≡ ok backend
        → IsRefused read_text safe_load mode policy_path e
        → result ≡ (err e, record globals { service_now = backend })
        → Starting result
    running :
        (server : McpServer Key) (backend : Backend)
        → build backend_name environ ≡ ok backend
        → server.service_now ≡ backend
        → result ≡ (ok server, record globals { service_now = backend })
        → Starting result

  completion-Starting :
      (parts : Prepared Key) (made : Result StartError (McpServer Key))
      → build backend_name environ ≡ ok parts.backend
      → completion parts ≡ made
      → Starting (made, record globals { service_now = parts.backend })
  completion-Starting parts (err e) built h =
      elim (bind-eq-err (governance read_text safe_load mode policy_path enforce) _ e h) [
        | inl fails ↦
            refused e parts.backend built
              (governance-IsRefused read_text safe_load mode policy_path enforce e fails) refl
        | inr (middleware, h') ↦ cc
      ]
  completion-Starting parts (ok server) built h =
      let (middleware, _, h') =
        bind-eq-ok (governance read_text safe_load mode policy_path enforce) _ h in
      running server parts.backend built (ap (λ s. s.service_now) (sym (ok-injective h'))) refl

  bound-Starting :
      (parts : Result StartError (Prepared Key))
      → preparation ≡ parts
      → Starting (bound completion globals parts)
  bound-Starting (err e) h = stopped e (preparation-other e h) refl
  bound-Starting (ok parts) h =
      completion-Starting parts (completion parts) (preparation-build parts h) refl

  bound-bind :
      (parts : Result StartError (Prepared Key))
      → (bound completion globals parts).0 ≡ (parts >>= completion)
  bound-bind (err e) = refl
  bound-bind (ok parts) = refl

  -- A start ends as `create_server` does, in one of three ways: it stops before the backend is
  -- made, and leaves the globals as they were; it stops at a policy that does not load, with the
  -- global backend bound to the new one already; or it gives a server, whose backend is now the
  -- global one.
  pub create_in-Starting :
      let result =
        create_in header_kid make_key endpoint read_text safe_load environ mode policy_path dev_idp
          resource_url audience enforce backend_name globals in
      (result.0
        ≡ create_server header_kid make_key endpoint read_text safe_load environ mode policy_path
            dev_idp resource_url audience enforce backend_name)
      × Starting result
  unfolding create_in create_server
  create_in-Starting = (bound-bind preparation, bound-Starting preparation refl)
