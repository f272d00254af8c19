-- ===== src/Server/Main/Governed.antt =====
-- What a process serves, by its options.
use governed_mcp_server.Common.{
  ◌≡◌, ◌≢◌, refl, ap, ℕ, String, Bool, true, false, not, Option, none, some, List, if◌then◌else◌,
}
use governed_mcp_server.Common.Dict.{Dict}
use governed_mcp_server.Common.Result.{Result, ok, err}
use governed_mcp_server.Common.Value.{Value, Entries}
use governed_mcp_server.Policy.Loading.{load}
use governed_mcp_server.RequestState.Generating.{generate_key}
use governed_mcp_server.Verifier.Checking.{KeySource}
use governed_mcp_server.DevIdp.Provider
use governed_mcp_server.DevIdp.Provider.{KeyLibrary, KeyFileError, dev_issuer, dev_audience}
use governed_mcp_server.DevIdp.Issuing.{Encode}
use governed_mcp_server.Server.Start
use governed_mcp_server.Server.Start.{
  AuthMode, off, dev, entra, McpServer, StartError, tenant_missing, algorithms_refused,
  state_keys_unusable, backend_failed, policy_refused, create_server,
}
use governed_mcp_server.Server.Governed.{IsGoverned, create_server-IsGoverned}
use governed_mcp_server.Server.Main.{
  Options, Process, Ending, printed, serving, main, started, with_provider, without_provider,
  serving_or_failed, published, policy_path, resource_url,
}

module _ {Key : Type 0} (options : Options) (server : McpServer Key) (host : String)
    (port : ℕ) where
  pub serving-ok :
      (result : Result StartError (McpServer Key))
      → serving_or_failed options result ≡ serving server host port
      → result ≡ ok server
  serving-ok (ok found) e = cc
  serving-ok (err tenant_missing) e = cc
  serving-ok (err (algorithms_refused names)) e = cc
  serving-ok (err (state_keys_unusable refused)) e = cc
  serving-ok (err (backend_failed refused)) e = cc
  serving-ok (err (policy_refused refused)) e = cc

module _ {PrivateKey PublicKey : Type 0} (library : KeyLibrary PrivateKey PublicKey)
    (encode : Encode PrivateKey) (uuid5_hex : String → String)
    (header_kid : String → Result String (Option String))
    (make_key : Entries → Result String PublicKey) (endpoint : String → KeySource PublicKey)
    (read_text : String → Option String) (safe_load : String → Option Value) (options : Options)
    (process : Process PrivateKey) (files files' : Dict String) (server : McpServer PublicKey)
    (host : String) (port : ℕ) where
  unless_printed :
      (prints : Bool) (line : String) (rest : Ending PublicKey × Dict String)
      → (if prints then (printed line, files) else rest) ≡ (serving server host port, files')
      → rest ≡ (serving server host port, files')
  unless_printed true line rest h = cc
  unless_printed false line rest h = h

  -- A server that is created for a provider.
  abbrev pub IsCreated : Start.DevIdentityProvider → Type 0
  IsCreated idp =
      create_server header_kid make_key endpoint read_text safe_load process.environ options.auth
        (some policy_path) idp (resource_url options) dev_audience (not options.shadow)
        options.servicenow
      ≡ ok server

  pub with_provider-serving :
      (asked : Option (List String))
      (idp : Result KeyFileError (Provider.DevIdentityProvider PrivateKey))
      → with_provider library encode uuid5_hex header_kid make_key endpoint read_text safe_load
          options process asked idp
        ≡ serving server host port
      → (found : Provider.DevIdentityProvider PrivateKey) × (idp ≡ ok found)
        × IsCreated (published library found)
  with_provider-serving asked (err e) h = cc
  with_provider-serving (some roles) (ok idp) h = cc
  with_provider-serving none (ok idp) h = (idp, refl, serving-ok options server host port _ h)

  without_provider-serving :
      (asked : Option (List String))
      → without_provider library encode uuid5_hex header_kid make_key endpoint read_text safe_load
          options process asked
        ≡ serving server host port
      → (idp : Start.DevIdentityProvider) × IsCreated idp
  without_provider-serving (some roles) h = cc
  without_provider-serving none h = (_, serving-ok options server host port _ h)

  started-serving :
      (mode : AuthMode)
      → started library encode uuid5_hex header_kid make_key endpoint read_text safe_load mode
          options process files
        ≡ (serving server host port, files')
      → (idp : Start.DevIdentityProvider) × IsCreated idp
  started-serving off h = without_provider-serving options.print_token (ap (λ r. r.0) h)
  started-serving dev h =
      let (_, _, created) = with_provider-serving options.print_token _ (ap (λ r. r.0) h) in
      (_, created)
  started-serving entra h = without_provider-serving options.print_token (ap (λ r. r.0) h)

  pub main-started :
      main library encode uuid5_hex header_kid make_key endpoint read_text safe_load options process
          files
        ≡ (serving server host port, files')
      → started library encode uuid5_hex header_kid make_key endpoint read_text safe_load
          options.auth options process files
        ≡ (serving server host port, files')
  unfolding main
  main-started h =
      unless_printed options.print_state_key (generate_key process.random)
        (started library encode uuid5_hex header_kid make_key endpoint read_text safe_load
          options.auth options process files)
        h

  -- A process that ends by serving, with an authentication mode other than `off`, serves a
  -- server that verifies tokens with the asymmetric algorithms only and passes requests through a
  -- middleware with the well-formed policy that loads from `policy.yaml`, which enforces it unless
  -- the process was started with `--shadow`.
  pub main-IsGoverned :
      options.auth ≢ off
      → main library encode uuid5_hex header_kid make_key endpoint read_text safe_load options
          process files
        ≡ (serving server host port, files')
      → IsGoverned (load read_text safe_load) "policy.yaml" (not options.shadow) server
  main-IsGoverned on h =
      let (idp, created) = started-serving options.auth (main-started h) in
      create_server-IsGoverned header_kid make_key endpoint read_text safe_load process.environ
        options.auth policy_path idp (resource_url options) dev_audience (not options.shadow)
        options.servicenow server on created
