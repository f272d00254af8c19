-- ===== src/Server/Serving/Vouched.antt =====
-- Who stands behind a change that the served server makes.
use governed_mcp_server.Common.{
  ◌≡◌, ◌≢◌, refl, sym, ap, subst, ◌∙◌, ℕ, String, Bool, false, not, Option, none, some,
}
use governed_mcp_server.Common.Dict.{Dict}
use governed_mcp_server.Common.Result.{Result, ok, ok-injective}
use governed_mcp_server.Common.Value.{ℤ, Value, Entries, get}
use governed_mcp_server.Policy.Loading.{load}
use governed_mcp_server.Policy.Document.{document, policy}
use governed_mcp_server.Policy.Shipped.{document_loads}
use governed_mcp_server.Approval.Consent.{Consents}
use governed_mcp_server.Verifier.Tokens.{AccessToken, roles_from_token, string_list}
use governed_mcp_server.Verifier.Checking.{
  KeySource, Decoding, DecodeError, EntraTokenVerifier, allowed_algorithms, verify_token,
}
use governed_mcp_server.Verifier.Accepting.{IsAccepted, verify_token-IsAccepted}
use governed_mcp_server.Middleware.Flow.{Context, World, Environment, Next}
use governed_mcp_server.Middleware.Approving.{answers_in, state_in}
use governed_mcp_server.Middleware.Guards.{handle, tool_of, params_of}
use governed_mcp_server.Middleware.Untouched.{handle-inner}
use governed_mcp_server.DevIdp.Provider.{KeyLibrary}
use governed_mcp_server.DevIdp.Issuing.{Encode}
use governed_mcp_server.ServiceNow.Backend.{ServiceNow}
use governed_mcp_server.Server.Model.{Shipment}
use governed_mcp_server.Server.Start.{McpServer, off}
use governed_mcp_server.Server.Governed.{IsGoverned}
use governed_mcp_server.Server.Main.{Options, Process, serving, main}
use governed_mcp_server.Server.Main.Governed.{main-IsGoverned}
use governed_mcp_server.Server.Authority.{shipped, IsOperator, raise_needs_operator}
use governed_mcp_server.Server.Serving.{Sdk, run_request, served}
use governed_mcp_server.Server.Serving.Effects.{IsReading, run_request-named}

-- What is relied on of the SDK's authentication: the access token that it has for a request is one
-- that the server's verifier returned for a bearer token.
abbrev pub IsAuthenticated :
    {Key : Type 0}
    → (other_int : Value → Result String ℤ) → (decode : Decoding Key → Result DecodeError Entries)
    → McpServer Key
    → Context
    → Type 0
IsAuthenticated {Key = Key} other_int decode server ctx =
    (access : AccessToken)
    → ctx.token ≡ some access
    → (verifier : EntraTokenVerifier Key) × (token : String) × (server.verifier ≡ some verifier)
      × (verify_token other_int decode verifier token ≡ ok (some access))

-- A request to raise an incident, with a token that the server's verifier accepted, for one of the
-- asymmetric algorithms, whose verified claims name a role that may do so, and with a human's
-- consent.
pub record IsVouched {Key : Type 0} (decode : Decoding Key → Result DecodeError Entries)
    (server : McpServer Key) (ctx : Context) : Type 0 where
  pub called : tool_of ctx ≡ "raise_shipment_incident"
  pub verifier : EntraTokenVerifier Key
  pub verifies : server.verifier ≡ some verifier
  pub asymmetric : verifier.algorithms ≡ allowed_algorithms
  pub token : String
  pub access : AccessToken
  pub carried : ctx.token ≡ some access
  pub accepted : IsAccepted decode verifier token access
  pub authorized : IsOperator (string_list (get "roles" accepted.claims))
  pub consents : Consents (state_in (params_of ctx)) (answers_in (params_of ctx))

-- the shipped `policy.yaml` as the file that is read
pub record IsShipped (read_text : String → Option String) (safe_load : String → Option Value)
    : Type 0 where
  pub contents : String
  pub reads : read_text "policy.yaml" ≡ some contents
  pub parses : safe_load contents ≡ some document

pub load-document :
    (read_text : String → Option String) (safe_load : String → Option Value)
    → IsShipped read_text safe_load
    → load read_text safe_load "policy.yaml" ≡ ok policy
unfolding load
load-document read_text safe_load h = rw (load, h.reads) (rw h.parses document_loads)

pub served-shipped :
    {Key S : Type 0} (server : McpServer Key)
    → server.middleware ≡ some shipped
    → (env : Environment) (call_next : Next S) (ctx : Context) (w : World S)
    → served server env call_next ctx w ≡ handle env shipped call_next ctx w
unfolding served
served-shipped server middleware env call_next ctx w = rw middleware refl

module _ {Key S : Type 0} (server : McpServer Key) (middleware : server.middleware ≡ some shipped)
    (env : Environment) (sdk : Sdk) (shipments : Dict Shipment)
    (service_now : Context → ServiceNow S) (clock : Context → ℕ)
    (reading : (ctx : Context) → IsReading (service_now ctx)) (ctx : Context) (w : World S) where
  served_change :
      (served server env (run_request sdk shipments service_now clock) ctx w).1.inner ≢ w.inner
      → (tool_of ctx ≡ "raise_shipment_incident")
        × IsOperator (roles_from_token ctx.token)
        × Consents (state_in (params_of ctx)) (answers_in (params_of ctx))
  served_change changed =
      let next = run_request sdk shipments service_now clock in
      let handled : (handle env shipped next ctx w).1.inner ≢ w.inner =
        λ e. changed (ap (λ r. r.1.inner) (served-shipped server middleware env next ctx w) ∙ e) in
      let (m, named) =
        run_request-named sdk shipments service_now clock reading ctx w.inner
          (λ e. handled (handle-inner env shipped next ctx w e)) in
      let (role, consents) = raise_needs_operator env next ctx w m named handled in
      (named, role, consents)

has_token :
    (token : Option AccessToken)
    → IsOperator (roles_from_token token)
    → (access : AccessToken) × (token ≡ some access)
unfolding roles_from_token
has_token none operator = cc
has_token (some access) operator = (access, refl)

-- The middleware of a server that is governed by the shipped file, and not in shadow mode.
pub governed_shipped :
    {Key : Type 0} (read_text : String → Option String) (safe_load : String → Option Value)
    → (shadow : Bool) (server : McpServer Key) → shadow ≡ false
    → IsShipped read_text safe_load
    → IsGoverned (load read_text safe_load) "policy.yaml" (not shadow) server
    → server.middleware ≡ some shipped
governed_shipped read_text safe_load shadow server enforced file governed =
    let same : governed.policy ≡ policy =
      ok-injective (sym governed.loads ∙ load-document read_text safe_load file) in
    governed.enforces ∙ λ i. some (record { policy = same i; enforce = not (enforced i) })

module _ {PrivateKey PublicKey S : Type 0} (library : KeyLibrary PrivateKey PublicKey)
    (encode : Encode PrivateKey) (uuid5_hex : String → String)
    (header_kid : String → Result String (Option String))
    (make_key : Entries → Result String PublicKey) (endpoint : String → KeySource PublicKey)
    (read_text : String → Option String) (safe_load : String → Option Value)
    (other_int : Value → Result String ℤ) (decode : Decoding PublicKey → Result DecodeError Entries)
    (options : Options) (process : Process PrivateKey) (files files' : Dict String)
    (server : McpServer PublicKey) (host : String) (port : ℕ) (env : Environment) (sdk : Sdk)
    (shipments : Dict Shipment) (service_now : Context → ServiceNow S) (clock : Context → ℕ)
    (reading : (ctx : Context) → IsReading (service_now ctx)) (ctx : Context) (w : World S) where
  -- A process that serves with authentication, without `--shadow` and with the shipped
  -- `policy.yaml`: a request, of any method, content and caller, that changes the state of the
  -- backend is a call of `raise_shipment_incident` with a human's consent, whose token the server's
  -- verifier accepted with asymmetric algorithms only, and the verified claims of the token name the
  -- role of an operator or an administrator. The backend's find and search are assumed to change
  -- nothing; of the SDK, that it runs a tool by its name only and gets the access token of a
  -- request from the server's verifier.
  pub change-IsVouched :
      options.auth ≢ off
      → options.shadow ≡ false
      → IsShipped read_text safe_load
      → main library encode uuid5_hex header_kid make_key endpoint read_text safe_load options
          process files
        ≡ (serving server host port, files')
      → IsAuthenticated other_int decode server ctx
      → (served server env (run_request sdk shipments service_now clock) ctx w).1.inner ≢ w.inner
      → IsVouched decode server ctx
  change-IsVouched on enforced file serves authenticated changed =
      let governed =
        main-IsGoverned library encode uuid5_hex header_kid make_key endpoint read_text safe_load
          options process files files' server host port on serves in
      let middleware =
        governed_shipped read_text safe_load options.shadow server enforced file governed in
      let (called, operator, consents) =
        served_change server middleware env sdk shipments service_now clock reading ctx w changed in
      let (access, carried) = has_token ctx.token operator in
      let (verifier, token, verifies, accepts) = authenticated access carried in
      let accepted = verify_token-IsAccepted other_int decode verifier token access accepts in
      record {
        called = called;
        verifier = verifier;
        verifies = verifies;
        asymmetric = cc (governed.verifies, governed.asymmetric, verifies);
        token = token;
        access = access;
        carried = carried;
        accepted = accepted;
        authorized = subst IsOperator (ap roles_from_token carried ∙ accepted.has_roles) operator;
        consents = consents;
      }
