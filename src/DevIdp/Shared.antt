-- ===== src/DevIdp/Shared.antt =====
-- Processes that agree on the provider's key through a file.
use governed_mcp_server.Common.{
  ◌≡◌, refl, ap, ◌∙◌, String, Option, none, some, eq_refl, if◌then◌else◌,
}
use governed_mcp_server.Common.Dict.{Dict, lookup, insert, lookup-insert}
use governed_mcp_server.DevIdp.Provider.{
  KeyLibrary, rsa, new_provider, load_or_generate, key_at, with_key, loaded_key,
}

module _ {PrivateKey PublicKey : Type 0} (library : KeyLibrary PrivateKey PublicKey)
    (reads_pem : (key : PrivateKey) → library.load_pem (library.to_pem key) ≡ some (rsa key))
    (path : String) where
  -- The key that one process loads or writes is the key that the next one loads.
  key_at_again :
      (files : Dict String) (first second : PrivateKey) (found : Option String)
      → lookup path files ≡ found
      → let (key, files') = key_at library path first files found in
        key_at library path second files' (lookup path files') ≡ (key, files')
  key_at_again files first second none e =
      let pem = library.to_pem first in
      let there : lookup path (insert path pem files) ≡ some pem =
        lookup-insert path path pem files
        ∙ ap (λ b. if b then some pem else lookup path files) (eq_refl path) in
      ap (key_at library path second (insert path pem files)) there
      ∙ ap (λ read. (loaded_key path read, insert path pem files)) (reads_pem first)
  key_at_again files first second (some pem) e = ap (key_at library path second files) e

  -- Two processes that are given one path for their key have the same provider, whatever key each
  -- would have generated: the second finds what the first one left, and writes nothing.
  pub new_provider_again :
      (issuer audience key_id : String) (files : Dict String) (first second : PrivateKey)
      → let (idp, files') = new_provider library issuer audience (some path) key_id first files in
        new_provider library issuer audience (some path) key_id second files' ≡ (idp, files')
  unfolding new_provider load_or_generate
  new_provider_again issuer audience key_id files first second =
      ap (λ r. (with_key library issuer audience key_id r.0, r.1))
        (key_at_again files first second (lookup path files) refl)
