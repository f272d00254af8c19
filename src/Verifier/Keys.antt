-- ===== src/Verifier/Keys.antt =====
-- governance/verifier.py: `JwksEndpoint` and `load_jwks`. `PyJWKClient`, which fetches and caches
-- keys, and the JSON parser are parameters.
use governed_mcp_server.Common.{◌≡◌, refl, ap, String, Option, none, some, List, [], ◌∷◌}
use governed_mcp_server.Common.Result.{Result}
use governed_mcp_server.Common.Value.{Entries}

pub record JwksEndpoint (Client : Type 0) : Type 0 where
  pub uri : String
  pub client : Option Client

module _ {Client Key : Type 0} (new_client : (uri : String) → Client)
    (signing_key : Client → (token : String) → Result String Key × Client) where
  abbrev current_client : JwksEndpoint Client → Client
  current_client endpoint = elim endpoint.client [
    | none ↦ new_client endpoint.uri
    | some client ↦ client
  ]

  -- `key_for`; the call runs in a thread of its own
  unfoldable pub key_for :
      (token : String) → JwksEndpoint Client → Result String Key × JwksEndpoint Client
  key_for token endpoint =
      let (key, client) = signing_key (current_client endpoint) token in
      (key, record endpoint { client = some client })

  abbrev keys_for : List String → JwksEndpoint Client → List (Result String Key)
  keys_for [] endpoint = []
  keys_for (token ∷ tokens) endpoint =
      let (key, endpoint') = key_for token endpoint in key ∷ keys_for tokens endpoint'

  abbrev asked_of : List String → Client → List (Result String Key)
  asked_of [] client = []
  asked_of (token ∷ tokens) client =
      let (key, client') = signing_key client token in key ∷ asked_of tokens client'

  -- However many tokens come, one client answers for all of them, with its cache.
  keys_for-one_client :
      (tokens : List String) (endpoint : JwksEndpoint Client)
      → keys_for tokens endpoint ≡ asked_of tokens (current_client endpoint)
  unfolding key_for
  keys_for-one_client [] endpoint = refl
  keys_for-one_client (token ∷ tokens) endpoint =
      ap (λ keys. (signing_key (current_client endpoint) token).0 ∷ keys)
        (keys_for-one_client tokens
          (record endpoint { client = some (signing_key (current_client endpoint) token).1 }))

-- `load_jwks`, where `loads` is `json.loads`
abbrev pub load_jwks : (loads : String → Result String Entries) → String → Result String Entries
load_jwks loads raw = loads raw
