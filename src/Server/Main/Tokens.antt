-- ===== src/Server/Main/Tokens.antt =====
-- Two runs of the command line: one that serves, and one that prints a token for it.
use governed_mcp_server.Common.{
  ◌≡◌, refl, sym, ap, ◌∙◌, subst, ℕ, ◌+◌, ◌≤◌, ◌<◌, String, false, Option, some, List,
}
use governed_mcp_server.Common.Dict.{Dict}
use governed_mcp_server.Common.Order.{sorted_set}
use governed_mcp_server.Common.Result.{Result, ok, ok-injective}
use governed_mcp_server.Common.Value.{ℤ, Value, Entries}
use governed_mcp_server.Verifier.Tokens.{AccessToken, roles_from_token}
use governed_mcp_server.Verifier.Checking.{
  KeySource, Decoding, DecodeError, EntraTokenVerifier, new_verifier, verify_token,
}
use governed_mcp_server.DevIdp.Provider
use governed_mcp_server.DevIdp.Provider.{
  KeyLibrary, rsa, KeyFileError, new_provider, dev_issuer, dev_audience, dev_key_path,
}
use governed_mcp_server.DevIdp.Issuing.{Encode, IssueRequest, default_request, issue, issued_claims}
use governed_mcp_server.DevIdp.Trust.{IsJwtLibrary, IsTrusted}
use governed_mcp_server.DevIdp.Accepted.{trusting, accepted_iff, read_back}
use governed_mcp_server.DevIdp.Shared.{new_provider_again}
use governed_mcp_server.Server.Start.{AuthMode, dev, McpServer, authentication}
use governed_mcp_server.Server.Governed.{create_server-IsAssembled}
use governed_mcp_server.Server.Main.{
  Options, Process, printed, serving, main, started, published, policy_path, resource_url,
  dev_provider,
}
use governed_mcp_server.Server.Main.Governed.{main-started, with_provider-serving}

-- what `--print-token` asks for
abbrev pub token_for : {PrivateKey : Type 0} → List String → IssueRequest PrivateKey
token_for roles = record default_request { roles = some roles }

module _ {PrivateKey PublicKey : Type 0} (library : KeyLibrary PrivateKey PublicKey)
    (encode : Encode PrivateKey) (uuid5_hex : String → String)
    (header_kid : String → Result String (Option String))
    (make_key : Entries → Result String PublicKey) (endpoint : String → KeySource PublicKey)
    (read_text : String → Option String) (safe_load : String → Option Value)
    (reads_pem : (key : PrivateKey) → library.load_pem (library.to_pem key) ≡ some (rsa key))
    (options : Options) (process : Process PrivateKey) (files files' : Dict String)
    (server : McpServer PublicKey) (host : String) (port : ℕ)
    (idp : Provider.DevIdentityProvider PrivateKey) (dev_mode : options.auth ≡ dev)
    (serves : main library encode uuid5_hex header_kid make_key endpoint read_text safe_load options
        process files
      ≡ (serving server host port, files'))
    (provides : (dev_provider library encode uuid5_hex header_kid make_key endpoint read_text
        safe_load process files).0
      ≡ ok idp) where
  serves_dev :
      started library encode uuid5_hex header_kid make_key endpoint read_text safe_load dev options
        process files
      ≡ (serving server host port, files')
  serves_dev =
      subst
        (λ mode.
          started library encode uuid5_hex header_kid make_key endpoint read_text safe_load mode
            options process files
          ≡ (serving server host port, files'))
        dev_mode
        (main-started library encode uuid5_hex header_kid make_key endpoint read_text safe_load
          options process files files' server host port serves)

  files_after :
      dev_provider library encode uuid5_hex header_kid make_key endpoint read_text safe_load process
        files
      ≡ (ok idp, files')
  files_after =
      let after : (dev_provider library encode uuid5_hex header_kid make_key endpoint read_text
            safe_load process files).1
          ≡ files' =
        ap (λ r. r.1) serves_dev in
      λ i. (provides i, after i)

  trusts : server.verifier ≡ some (trusting library header_kid make_key idp)
  unfolding authentication new_verifier sorted_set
  trusts =
      let (found, same, created) =
        with_provider-serving library encode uuid5_hex header_kid make_key endpoint read_text
          safe_load options process files files' server host port options.print_token _
          (ap (λ r. r.0) serves_dev) in
      let parts =
        create_server-IsAssembled header_kid make_key endpoint read_text safe_load process.environ
          options.auth (some policy_path) (published library found) (resource_url options)
          dev_audience _ options.servicenow server created in
      let Authenticates : AuthMode → Provider.DevIdentityProvider PrivateKey → Type 0 =
        λ mode provider.
          authentication header_kid make_key endpoint process.environ mode
            (published library provider) (resource_url options) dev_audience
          ≡ ok parts.auth in
      let authenticated : Authenticates dev idp =
        subst (λ mode. Authenticates mode idp) dev_mode
          (subst (Authenticates options.auth) (ok-injective (sym same ∙ provides))
            parts.authenticated) in
      parts.has_verifier ∙ sym (ap (λ auth. auth.0) (ok-injective authenticated))

  module _ (asking : Options) (again : Process PrivateKey) (roles : List String)
      (dev_again : asking.auth ≡ dev) (asks : asking.print_token ≡ some roles)
      (no_key : asking.print_state_key ≡ false) where
    abbrev token : String
    token = issue encode uuid5_hex idp (token_for roles) again.now

    prints :
        main library encode uuid5_hex header_kid make_key endpoint read_text safe_load asking again
          files'
        ≡ (printed token, files')
    unfolding main
    prints =
        let provider : dev_provider library encode uuid5_hex header_kid make_key endpoint read_text
              safe_load again files'
            ≡ (ok idp, files') =
          subst
            (λ left.
              new_provider library dev_issuer dev_audience (some dev_key_path) "" again.generated
                left.1
              ≡ left)
            files_after
            (new_provider_again library reads_pem dev_key_path dev_issuer dev_audience "" files
              process.generated again.generated) in
        rw (no_key, dev_again, asks, provider) refl

    -- A process that serves with `--auth dev` leaves a key file from which a later process, with
    -- `--auth dev --print-token` and any roles, prints a token: while the clock has reached the
    -- token's issue and not passed an hour after it, each by a minute's leeway, the verifier of the
    -- first process accepts the token and reads these roles back from it. What the libraries do is
    -- assumed: that a key is read back as it was written, and of the JWT library what
    -- `IsJwtLibrary` says of the claims of this token.
    pub printed_token_works :
        (clock : ℕ) (decode : Decoding PublicKey → Result DecodeError Entries)
        → (other_int : Value → Result String ℤ)
        → IsJwtLibrary library encode header_kid make_key clock decode idp
            (issued_claims uuid5_hex idp (token_for roles) again.now)
        → again.now ≤ clock + 60
        → clock < again.now + 3600 + 60
        → (token : String) × (verifier : EntraTokenVerifier PublicKey) × (access : AccessToken)
          × (main library encode uuid5_hex header_kid make_key endpoint read_text safe_load asking
                again files'
              ≡ (printed token, files'))
          × (server.verifier ≡ some verifier)
          × (verify_token other_int decode verifier token ≡ ok (some access))
          × (roles_from_token (some access) ≡ roles)
    printed_token_works clock decode other_int jwt issued ahead =
        let trusted : IsTrusted idp (token_for roles) again.now clock = record {
          issuer = refl;
          audience = refl;
          issued = issued;
          ahead = ahead;
        } in
        let (access, accepted) =
          (accepted_iff library encode header_kid make_key clock decode uuid5_hex other_int idp
              (token_for roles) again.now jwt refl refl refl).1
            trusted in
        let (same_roles, _) =
          read_back library encode header_kid make_key clock decode uuid5_hex other_int idp
            (token_for roles) again.now jwt refl refl refl access accepted in
        (
          token,
          trusting library header_kid make_key idp,
          access,
          prints,
          trusts,
          accepted,
          same_roles,
        )
