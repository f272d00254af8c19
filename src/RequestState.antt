-- ===== src/RequestState.antt =====
-- governance/request_state.py: the keys that seal the state of an approval. The SDK's
-- `RequestStateSecurity` is kept as the arguments it is made with.
pub mod Base64
pub mod Encoding
pub mod Generating
pub mod Keys
pub mod Rings
pub mod Rotation
pub mod Tests
use governed_mcp_server.Common.{
  ℕ, ◌+◌, String, Option, none, some, List, [], ◌∷◌, length, ltb, is_nil, if◌then◌else◌,
}
use governed_mcp_server.Common.Text.{is_empty, strip, split}
use governed_mcp_server.Common.Dict.{Dict, lookup}
use governed_mcp_server.Common.Result.{Result, ok, err, ◌>>=◌}
use governed_mcp_server.RequestState.Base64.{b64decode}

abbrev env_keys : String
env_keys = "MCP_REQUEST_STATE_KEYS"

abbrev pub minimum_key_bytes : ℕ
minimum_key_bytes = 32

-- `RequestStateKeyError`, by the parts of its message
pub data RequestStateKeyError : Type 0 where
  invalid_base64 : (index : ℕ) → RequestStateKeyError
  too_short : (index bytes : ℕ) → RequestStateKeyError

-- One entry of the ring, after `strip`.
abbrev pub checked_key : ℕ → Option (List ℕ) → Result RequestStateKeyError (List ℕ)
checked_key index none = err (invalid_base64 index)
checked_key index (some key) =
    if ltb (length key) minimum_key_bytes then err (too_short index (length key)) else ok key

-- The loop of `load_keys`, from an index on.
unfoldable pub parse_keys : ℕ → List String → Result RequestStateKeyError (List (List ℕ))
unfolding strip b64decode
parse_keys index [] = ok []
parse_keys index (chunk ∷ chunks) =
    let rest = parse_keys (index + 1) chunks in
    if is_empty (strip chunk)
    then rest
    else (checked_key index (b64decode (strip chunk)) >>= λ key. rest >>= λ keys. ok (key ∷ keys))

abbrev pub raw_text : Option String → Dict String → String
raw_text (some raw) environ = raw
raw_text none environ = elim (lookup env_keys environ) [ none ↦ "" | some raw ↦ raw ]

-- `load_keys`, whose argument may be left out
unfoldable pub load_keys :
    Option String → (environ : Dict String) → Result RequestStateKeyError (List (List ℕ))
unfolding parse_keys split
load_keys raw environ =
    let text = raw_text raw environ in
    if is_empty (strip text) then ok [] else parse_keys 0 (split 44 text)

pub data RequestStateSecurity : Type 0 where
  ephemeral : (audience : Option String) → RequestStateSecurity
  shared : (keys : List (List ℕ)) → (audience : Option String) → RequestStateSecurity

-- `build`, with the process's environment; the lifetime of a state is passed on unread.
unfoldable pub build_security :
    (audience : Option String)
    → (environ : Dict String) → Result RequestStateKeyError RequestStateSecurity
unfolding load_keys
build_security audience environ = load_keys none environ >>= λ keys.
    ok (if is_nil keys then ephemeral audience else shared keys audience)
