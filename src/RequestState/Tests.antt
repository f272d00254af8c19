-- ===== src/RequestState/Tests.antt =====
-- Key rings as an operator writes them.
use governed_mcp_server.Common.{
  arith, ◌≡◌, ◌↔◌, ◌⊎◌, refl, ℕ, String, true, false, none, some, List, [], ◌∷◌,
}
use governed_mcp_server.Common.Text.{is_empty, strip, split}
use governed_mcp_server.Common.Dict.{lookup}
use governed_mcp_server.Common.Result.{ok, err}
use governed_mcp_server.RequestState.Base64.{b64decode}
use governed_mcp_server.RequestState.{
  load_keys, build_security, invalid_base64, too_short, ephemeral, shared,
}
use governed_mcp_server.RequestState.Keys.{AreKeys, load_keys_iff}
use governed_mcp_server.RequestState.Encoding.{b64encode, letter}
use governed_mcp_server.RequestState.Generating.{generate_key}
use governed_mcp_server.RequestState.Rings.{ring_text, load_keys-ring_text}

loading : Unit {0}
unfolding load_keys build_security lookup strip split b64decode
loading = tt

-- 32 bytes of zero
abbrev zero_key : String
zero_key = "AAAAAAAAAAAAAAAAAAAAAAAAAAAAAAAAAAAAAAAAAAA="

abbrev pub zeros : List ℕ
zeros =
    0 ∷ 0 ∷ 0 ∷ 0 ∷ 0 ∷ 0 ∷ 0 ∷ 0 ∷ 0 ∷ 0 ∷ 0 ∷ 0 ∷ 0 ∷ 0 ∷ 0 ∷ 0 ∷ 0 ∷ 0 ∷ 0 ∷ 0 ∷ 0 ∷ 0 ∷ 0 ∷ 0
    ∷ 0 ∷ 0 ∷ 0 ∷ 0 ∷ 0 ∷ 0 ∷ 0 ∷ 0 ∷ []

load_keys_runs :
    (load_keys (some zero_key) [] ≡ ok (zeros ∷ []))
    × (load_keys (some " AAAA , ") [] ≡ err (too_short 0 3))
    × (load_keys (some ", changeme!") [] ≡ err (invalid_base64 1))
    × (load_keys (some " , ") [] ≡ ok [])
    × (load_keys none [] ≡ ok [])
unfolding loading
load_keys_runs = (refl, refl, refl, refl, refl)

build_runs :
    (build_security none [] ≡ ok (ephemeral none))
    × (build_security none (("MCP_REQUEST_STATE_KEYS", zero_key) ∷ [])
        ≡ ok (shared (zeros ∷ []) none))
unfolding loading
build_runs = (refl, refl)

load_keys_iff_example : (load_keys (some zero_key) [] ≡ ok (zeros ∷ [])) ↔ (
    ((is_empty (strip zero_key) ≡ true) × (zeros ∷ [] ≡ []))
    ⊎ ((is_empty (strip zero_key) ≡ false) × AreKeys (split 44 zero_key) (zeros ∷ [])))
load_keys_iff_example = load_keys_iff (some zero_key) [] (zeros ∷ [])

abbrev pub random : List ℕ
random =
    0 ∷ 255 ∷ 16 ∷ 131 ∷ 16 ∷ 81 ∷ 135 ∷ 32 ∷ 146 ∷ 139 ∷ 48 ∷ 211 ∷ 143 ∷ 65 ∷ 20 ∷ 147 ∷ 81 ∷ 85
    ∷ 151 ∷ 97 ∷ 150 ∷ 155 ∷ 113 ∷ 215 ∷ 159 ∷ 130 ∷ 24 ∷ 163 ∷ 146 ∷ 89 ∷ 167 ∷ 162 ∷ []

generate_key_runs : generate_key random ≡ "AP8QgxBRhyCSizDTj0EUk1FVl2GWm3HXn4IYo5JZp6I="
unfolding b64encode letter
generate_key_runs = refl

load_keys-ring_text_example :
    load_keys (some (ring_text (random ∷ zeros ∷ []))) [] ≡ ok (random ∷ zeros ∷ [])
load_keys-ring_text_example =
    load_keys-ring_text random (zeros ∷ []) [] (omega arith, omega arith)
      ((omega arith, omega arith), tt)
