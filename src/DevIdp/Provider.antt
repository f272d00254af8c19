-- ===== src/DevIdp/Provider.antt =====
-- governance/devidp.py: `DevIdentityProvider`, its key and what it publishes. The functions of the
-- cryptography library are a parameter, the files are a state, and a new random key is an argument.

use governed_mcp_server.Common.{ℕ, zero, suc, String, Option, none, some, [], ◌∷◌, if◌then◌else◌}
use governed_mcp_server.Common.Text.{◌+++◌, is_empty}
use governed_mcp_server.Common.Dict.{Dict, lookup, insert}
use governed_mcp_server.Common.Result.{Result, ok, err}
use governed_mcp_server.Common.Value.{str, list, mapping, nil, cons, Entries, put, dict_entries}

pub record DevIdentityProvider (PrivateKey : Type 0) : Type 0 where
  pub issuer : String
  pub audience : String
  pub key_id : String
  pub private_key : PrivateKey

-- What a file of keys holds.
pub data PemKey (PrivateKey : Type 0) : Type 0 where
  rsa : PrivateKey → PemKey PrivateKey
  other_key : PemKey PrivateKey

-- What is raised where a file holds no key, or none of RSA.
pub data KeyFileError : Type 0 where
  unreadable : KeyFileError
  not_rsa : (path : String) → KeyFileError

-- The calls of the cryptography library; `digest` is the hexadecimal SHA-256 of the public key.
pub record KeyLibrary (PrivateKey PublicKey : Type 0) : Type 0 where
  pub public_key : PrivateKey → PublicKey
  pub load_pem : String → Option (PemKey PrivateKey)
  pub to_pem : PrivateKey → String
  pub digest : PublicKey → String
  pub to_jwk : PublicKey → Entries

abbrev pub dev_tenant_id : String
dev_tenant_id = "00000000-0000-0000-0000-000000000000"

abbrev pub dev_issuer : String
dev_issuer = "https://login.microsoftonline.local/" +++ (dev_tenant_id +++ "/v2.0")

abbrev pub dev_audience : String
dev_audience = "api://governed-mcp-server"

abbrev pub dev_client_id : String
dev_client_id = "11111111-1111-1111-1111-111111111111"

abbrev pub dev_key_path : String
dev_key_path = ".devidp-key.pem"

-- `s[:n]`
pub first_chars : ℕ → String → String
first_chars zero s = String.[]
first_chars (suc n) String.[] = String.[]
first_chars (suc n) (String.◌∷◌ c s) = String.◌∷◌ c (first_chars n s)

abbrev pub loaded_key :
    {PrivateKey : Type 0} → String → Option (PemKey PrivateKey) → Result KeyFileError PrivateKey
loaded_key path none = err unreadable
loaded_key path (some other_key) = err (not_rsa path)
loaded_key path (some (rsa key)) = ok key

module _ {PrivateKey PublicKey : Type 0} (library : KeyLibrary PrivateKey PublicKey) where
  abbrev pub key_at :
      String
      → (generated : PrivateKey) → Dict String
      → Option String
      → Result KeyFileError PrivateKey × Dict String
  key_at path generated files none = (ok generated, insert path (library.to_pem generated) files)
  key_at path generated files (some pem) = (loaded_key path (library.load_pem pem), files)

  -- `_load_or_generate`; the mode of the file is left out
  unfoldable pub load_or_generate :
      Option String
      → (generated : PrivateKey) → (files : Dict String)
      → Result KeyFileError PrivateKey × Dict String
  load_or_generate none generated files = (ok generated, files)
  load_or_generate (some path) generated files = key_at path generated files (lookup path files)

  abbrev pub with_key :
      (issuer audience key_id : String)
      → Result KeyFileError PrivateKey
      → Result KeyFileError (DevIdentityProvider PrivateKey)
  with_key issuer audience key_id (err e) = err e
  with_key issuer audience key_id (ok key) =
      let derived = first_chars 32 (library.digest (library.public_key key)) in
      ok (record {
        issuer = issuer;
        audience = audience;
        key_id = if is_empty key_id then derived else key_id;
        private_key = key;
      })

  -- The constructor with `__post_init__`.
  unfoldable pub new_provider :
      (issuer audience : String)
      → (key_path : Option String) → (key_id : String) → (generated : PrivateKey)
      → (files : Dict String) → Result KeyFileError (DevIdentityProvider PrivateKey) × Dict String
  unfolding first_chars load_or_generate
  new_provider issuer audience key_path key_id generated files =
      let (key, files') = load_or_generate key_path generated files in
      (with_key issuer audience key_id key, files')

  abbrev pub public_jwk : DevIdentityProvider PrivateKey → Entries
  public_jwk idp = put "alg" (str "RS256") (
      put "use" (str "sig")
        (put "kid" (str idp.key_id) (library.to_jwk (library.public_key idp.private_key))))

  unfoldable pub jwks : DevIdentityProvider PrivateKey → Entries
  jwks idp = dict_entries (("keys", list (cons (mapping (public_jwk idp)) nil)) ∷ [])
