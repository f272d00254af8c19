-- ===== src/RequestState/Keys.antt =====
-- Which texts are key rings.
use governed_mcp_server.Common.{
  ◌≡◌, ◌↔◌, ◌⊎◌, inl, inr, refl, ℕ, ◌+◌, ◌≤◌, String, true, false, Option, none, some, List, [],
  ◌∷◌, subst, length, arith, Bool-cases,
}
use governed_mcp_server.Common.Text.{is_empty, strip, split}
use governed_mcp_server.Common.Dict.{Dict}
use governed_mcp_server.Common.Result.{ok, bind-eq-ok, ok-injective}
use governed_mcp_server.RequestState.Base64.{b64decode}
use governed_mcp_server.RequestState.{
  checked_key, parse_keys, load_keys, raw_text, minimum_key_bytes,
}

-- The keys that entries stand for, in their order: an empty entry stands for none, and any other
-- is base64 of 32 bytes or more.
pub data AreKeys : List String → List (List ℕ) → Type 0 where
  no_entry : AreKeys [] []
  empty_entry :
      {chunk : String} {chunks : List String} {keys : List (List ℕ)}
      → is_empty (strip chunk) ≡ true
      → AreKeys chunks keys
      → AreKeys (chunk ∷ chunks) keys
  key_entry :
      {chunk : String} {chunks : List String} {key : List ℕ} {keys : List (List ℕ)}
      → is_empty (strip chunk) ≡ false
      → b64decode (strip chunk) ≡ some key
      → minimum_key_bytes ≤ length key
      → AreKeys chunks keys
      → AreKeys (chunk ∷ chunks) (key ∷ keys)

checked_key-ok :
    (index : ℕ) (decoded : Option (List ℕ)) (key : List ℕ)
    → checked_key index decoded ≡ ok key
    → (decoded ≡ some key) × (minimum_key_bytes ≤ length key)
checked_key-ok index none key e = cc
checked_key-ok index (some found) key e = (ground arith, ground arith)

checked_key_enough :
    (index : ℕ) (key : List ℕ)
    → minimum_key_bytes ≤ length key
    → checked_key index (some key) ≡ ok key
checked_key_enough index key enough = ground arith

parse_keys_sound :
    (index : ℕ) (chunks : List String) (keys : List (List ℕ))
    → parse_keys index chunks ≡ ok keys
    → AreKeys chunks keys
unfolding parse_keys
parse_keys_sound index [] keys e = subst (AreKeys []) (ok-injective e) no_entry
parse_keys_sound index (chunk ∷ chunks) keys e = elim (Bool-cases (is_empty (strip chunk))) [
  | inl empty ↦
      let e' : parse_keys (index + 1) chunks ≡ ok keys = ground arith in
      empty_entry empty (parse_keys_sound (index + 1) chunks keys e')
  | inr full ↦
      let (key, first, rest) =
        bind-eq-ok (checked_key index (b64decode (strip chunk))) _ (rw full at e) in
      let (more, others, same) = bind-eq-ok (parse_keys (index + 1) chunks) _ rest in
      let (decoded, enough) = checked_key-ok index (b64decode (strip chunk)) key first in
      subst (AreKeys (chunk ∷ chunks)) (ok-injective same)
        (key_entry full decoded enough (parse_keys_sound (index + 1) chunks more others))
]

parse_keys_complete :
    (index : ℕ) (chunks : List String) (keys : List (List ℕ))
    → AreKeys chunks keys
    → parse_keys index chunks ≡ ok keys
unfolding parse_keys
parse_keys_complete index _ _ no_entry = refl
parse_keys_complete index _ _ (empty_entry {chunks = chunks} {keys = keys} empty more) =
    rw empty (parse_keys_complete (index + 1) chunks keys more)
parse_keys_complete index _ _
      (key_entry {chunk = chunk} {chunks = chunks} {key = key} {keys = keys} full decoded enough
        more) =
    rw full (
      rw decoded (
        rw (checked_key_enough index key enough, parse_keys_complete (index + 1) chunks keys more)
          refl))

-- A text loads as a ring exactly when it is blank and the ring is empty, or when its entries, split
-- at commas, are these keys in this order: no entry that is not base64 or is too short is skipped.
pub load_keys_iff :
    (raw : Option String) (environ : Dict String) (keys : List (List ℕ))
    → let text = raw_text raw environ in
      (load_keys raw environ ≡ ok keys) ↔ (
        ((is_empty (strip text) ≡ true) × (keys ≡ []))
        ⊎ ((is_empty (strip text) ≡ false) × AreKeys (split 44 text) keys))
unfolding load_keys
load_keys_iff raw environ keys =
    let text = raw_text raw environ in
    elim (Bool-cases (is_empty (strip text))) [
      | inl blank ↦ (
        λ e. inl (blank, ground arith),
        λ case. elim case [ inl (_, nil) ↦ ground arith | inr (full, _) ↦ ground arith ],
      )
      | inr full ↦ (
        λ e. inr (full, parse_keys_sound 0 (split 44 text) keys (ground arith)),
        λ case. elim case [
          | inl (blank, _) ↦ ground arith
          | inr (_, are) ↦ ground (arith, parse_keys_complete 0 (split 44 text) keys are)
        ],
      )
    ]
