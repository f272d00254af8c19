-- ===== src/Server/Serving/Printed.antt =====
-- From a printed token to an incident: two processes of the development mode, and two requests.
use governed_mcp_server.Common.{◌≡◌, ℕ, ◌+◌, ◌≤◌, ◌<◌, String, false, Option, some, List}
use governed_mcp_server.Common.Dict.{Dict}
use governed_mcp_server.Common.Result.{Result, ok}
use governed_mcp_server.Common.Value.{ℤ, Value, Entries, truth}
use governed_mcp_server.Verifier.Tokens.{AccessToken}
use governed_mcp_server.Verifier.Checking.{
  KeySource, Decoding, DecodeError, EntraTokenVerifier, verify_token,
}
use governed_mcp_server.Middleware.Flow.{Context, Answer, Outcome, World, Environment}
use governed_mcp_server.Middleware.Approving.{answers_in}
use governed_mcp_server.Middleware.Guards.{params_of, tool_of}
use governed_mcp_server.ServiceNow.Mock.{MockServiceNow}
use governed_mcp_server.ServiceNow.Backend.{mock_backend}
use governed_mcp_server.DevIdp.Provider
use governed_mcp_server.DevIdp.Provider.{KeyLibrary, rsa}
use governed_mcp_server.DevIdp.Issuing.{Encode, issued_claims}
use governed_mcp_server.DevIdp.Trust.{IsJwtLibrary}
use governed_mcp_server.Server.Model.{Shipment}
use governed_mcp_server.Server.Start.{McpServer, dev}
use governed_mcp_server.Server.Main.{Options, Process, Ending, serving, main, dev_provider}
use governed_mcp_server.Server.Main.Tokens.{token_for}
use governed_mcp_server.Server.Authority.{IsOperator}
use governed_mcp_server.Server.Serving.{Sdk, run_request}
use governed_mcp_server.Server.Serving.Vouched.{IsShipped}

-- A call of `raise_shipment_incident` without answers yet.
pub record IsUnanswered (ctx : Context) : Type 0 where
  pub is_call : ctx.method ≡ some "tools/call"
  pub named : tool_of ctx ≡ "raise_shipment_incident"
  pub unanswered : truth (answers_in (params_of ctx)) ≡ false

-- What is relied on of the SDK: a request with a bearer token that the verifier of the server
-- accepts runs with the access token that the verifier returned.
pub record IsPassedOn {Key : Type 0} (other_int : Value → Result String ℤ)
    (decode : Decoding Key → Result DecodeError Entries) (server : McpServer Key) (ctx : Context)
    (token : String) : Type 0 where
  pub verifier : EntraTokenVerifier Key
  pub verifies : server.verifier ≡ some verifier
  pub passed_on :
      (access : AccessToken)
      → verify_token other_int decode verifier token ≡ ok (some access)
      → ctx.token ≡ some access

module _ {PrivateKey PublicKey : Type 0} (library : KeyLibrary PrivateKey PublicKey)
    (encode : Encode PrivateKey) (uuid5_hex : String → String)
    (header_kid : String → Result String (Option String))
    (make_key : Entries → Result String PublicKey) (endpoint : String → KeySource PublicKey)
    (read_text : String → Option String) (safe_load : String → Option Value)
    (options asking : Options) (process again : Process PrivateKey) (files files' : Dict String)
    (server : McpServer PublicKey) (host : String) (port : ℕ)
    (idp : Provider.DevIdentityProvider PrivateKey) (roles : List String) (time : ℕ) where
  abbrev run : Options → Process PrivateKey → Dict String → Ending PublicKey × Dict String
  run = main library encode uuid5_hex header_kid make_key endpoint read_text safe_load

  -- What is set up: a process that serves with `--auth dev`, with the shipped policy and not in
  -- shadow mode, and a later one that is asked for a token with these roles, an operator's among
  -- them, at a time that the clock of the verifier has reached and not passed by an hour.
  pub record IsSetUp : Type 0 where
    pub dev_mode : options.auth ≡ dev
    pub enforced : options.shadow ≡ false
    pub file : IsShipped read_text safe_load
    pub serves : run options process files ≡ (serving server host port, files')
    pub provides :
        (dev_provider library encode uuid5_hex header_kid make_key endpoint read_text safe_load
          process files).0
        ≡ ok idp
    pub dev_again : asking.auth ≡ dev
    pub asks : asking.print_token ≡ some roles
    pub no_key : asking.print_state_key ≡ false
    pub operator : IsOperator roles
    pub issued : again.now ≤ time + 60
    pub ahead : time < again.now + 3600 + 60

  module _ (up : IsSetUp)
      (reads_pem : (key : PrivateKey) → library.load_pem (library.to_pem key) ≡ some (rsa key))
      (other_int : Value → Result String ℤ)
      (decode : Decoding PublicKey → Result DecodeError Entries)
      (jwt : IsJwtLibrary library encode header_kid make_key time decode idp
        (issued_claims uuid5_hex idp (token_for roles) again.now))
      (env : Environment) (sdk : Sdk) (shipments : Dict Shipment) (now : Context → String)
      (clock : Context → ℕ) (ctx : Context) (w : World MockServiceNow)
      (shipment_id urgency : String) (shipment : Shipment) where
    abbrev next : Context → MockServiceNow → Outcome Answer × MockServiceNow
    next = run_request sdk shipments (λ request. mock_backend (now request)) clock
