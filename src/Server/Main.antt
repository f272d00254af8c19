-- ===== src/Server/Main.antt =====
-- server.py: the command line, on the options that argparse has read. A process starts from the files and the environment, with a new random key and 32
-- random bytes, and ends by what it prints, by an error, or serving.
pub mod Governed
pub mod Tokens
pub mod Tests
use governed_mcp_server.Common.{
  ℕ, String, Bool, true, false, not, Option, none, some, List, if◌then◌else◌,
}
use governed_mcp_server.Common.Text.{◌+++◌}
use governed_mcp_server.Common.Decimal.{decimal}
use governed_mcp_server.Common.Dict.{Dict}
use governed_mcp_server.Common.Result.{Result, ok, err}
use governed_mcp_server.Common.Value.{Value, Entries, end}
use governed_mcp_server.Audit.Stream.{Logger, configure}
use governed_mcp_server.RequestState.Generating.{generate_key}
use governed_mcp_server.ServiceNow.Backend.{BackendName}
use governed_mcp_server.Verifier.Checking.{KeySource}
use governed_mcp_server.DevIdp.Provider
use governed_mcp_server.DevIdp.Provider.{
  KeyLibrary, KeyFileError, new_provider, jwks, dev_issuer, dev_key_path,
}
use governed_mcp_server.DevIdp.Issuing.{Encode, default_request, issue}
use governed_mcp_server.Server.Start
use governed_mcp_server.Server.Start.{
  AuthMode, dev, McpServer, StartError, tenant_missing, algorithms_refused, state_keys_unusable,
  backend_failed, policy_refused, create_server, default_audience,
}

-- The options; a port is no negative number.
pub record Options : Type 0 where
  pub host : String
  pub port : ℕ
  pub auth : AuthMode
  pub shadow : Bool
  pub servicenow : BackendName
  pub print_token : Option (List String)
  pub print_state_key : Bool

-- How the process ends: with a printed line, with a line about a failed start, with another exit or
-- exception, or in the loop that serves.
pub data Ending (Key : Type 0) : Type 0 where
  printed : (line : String) → Ending Key
  token_needs_dev : Ending Key
  key_file_failed : KeyFileError → Ending Key
  startup_failed : StartError → Ending Key
  start_stopped : StartError → Ending Key
  serving : McpServer Key → (host : String) → (port : ℕ) → Ending Key

-- the errors of the `except` clause
abbrev pub is_misconfiguration : StartError → Bool
is_misconfiguration tenant_missing = false
is_misconfiguration (algorithms_refused _) = false
is_misconfiguration (state_keys_unusable _) = true
is_misconfiguration (backend_failed _) = true
is_misconfiguration (policy_refused _) = true

-- What a process finds and draws when it starts.
pub record Process (PrivateKey : Type 0) : Type 0 where
  pub environ : Dict String
  pub generated : PrivateKey
  pub random : List ℕ
  pub now : ℕ

module _ {PrivateKey PublicKey : Type 0} (library : KeyLibrary PrivateKey PublicKey) where
  -- what the server reads of a provider
  abbrev pub published : Provider.DevIdentityProvider PrivateKey → Start.DevIdentityProvider
  published idp = record { issuer = idp.issuer; audience = idp.audience; jwks = jwks library idp }

abbrev pub serving_or_failed :
    {Key : Type 0} → Options → Result StartError (McpServer Key) → Ending Key
serving_or_failed options (ok server) = serving server options.host options.port
serving_or_failed options (err e) =
    if is_misconfiguration e then startup_failed e else start_stopped e

abbrev pub policy_path : String
policy_path = "policy.yaml"

abbrev pub resource_url : Options → String
resource_url options = "http://" +++ (options.host +++ (":" +++ (decimal options.port +++ "/mcp")))

module _ {PrivateKey PublicKey : Type 0} (library : KeyLibrary PrivateKey PublicKey)
    (encode : Encode PrivateKey) (uuid5_hex : String → String)
    (header_kid : String → Result String (Option String))
    (make_key : Entries → Result String PublicKey) (endpoint : String → KeySource PublicKey)
    (read_text : String → Option String) (safe_load : String → Option Value) where
  -- The provider of `--auth dev`, whose key is kept in a file.
  abbrev pub dev_provider :
      Process PrivateKey
      → (files : Dict String)
      → Result KeyFileError (Provider.DevIdentityProvider PrivateKey) × Dict String
  dev_provider process files =
      new_provider library dev_issuer default_audience (some dev_key_path) "" process.generated
        files

  -- The end of the start, for a provider that `create_server` reads in the mode `dev` only.
  abbrev pub serve : Options → Process PrivateKey → Start.DevIdentityProvider → Ending PublicKey
  serve options process dev_idp = serving_or_failed options (
      create_server header_kid make_key endpoint read_text safe_load process.environ options.auth
        (some policy_path) dev_idp (resource_url options) default_audience (not options.shadow)
        options.servicenow)

  abbrev pub with_provider :
      Options
      → Process PrivateKey
      → Option (List String)
      → Result KeyFileError (Provider.DevIdentityProvider PrivateKey)
      → Ending PublicKey
  with_provider options process asked (err e) = key_file_failed e
  with_provider options process (some roles) (ok idp) =
      printed
        (issue encode uuid5_hex idp (record default_request { roles = some roles }) process.now)
  with_provider options process none (ok idp) = serve options process (published library idp)

  abbrev pub without_provider :
      Options → Process PrivateKey → Option (List String) → Ending PublicKey
  without_provider options process (some roles) = token_needs_dev
  without_provider options process none =
      serve options process
        (record { issuer = dev_issuer; audience = default_audience; jwks = end })

  abbrev pub started :
      AuthMode
      → Options
      → Process PrivateKey
      → (files : Dict String) → Ending PublicKey × Dict String
  started dev options process files =
      let (idp, files') = dev_provider process files in
      (with_provider options process options.print_token idp, files')
  started _ options process files = (without_provider options process options.print_token, files)

  unfoldable pub main :
      Options → Process PrivateKey → (files : Dict String) → Ending PublicKey × Dict String
  main options process files =
      if options.print_state_key
      then (printed (generate_key process.random), files)
      else started options.auth options process files

-- The audit logger after `main` has begun: it is configured unless a key is printed.
abbrev pub audit_logger_of : Options → Logger → Logger
audit_logger_of options logger = if options.print_state_key then logger else configure none logger
