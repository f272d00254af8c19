-- ===== src/RequestState/Rings.antt =====
-- Rings of several generated keys, as `MCP_REQUEST_STATE_KEYS` holds them.

use Prim.Native.Char.{Char}
use text.Mathlib.TextLemmas.{cons-append, nil-append}
use governed_mcp_server.Common.{
  ◌≡◌, refl, ap, ◌∙◌, sym, subst, ℕ, ◌≤◌, String, false, some, List, [], ◌∷◌, length, map, inr,
}
use governed_mcp_server.Common.Text.{
  ◌+++◌, is_empty, strip, rstrip, rstrip_step, split, starts_blank, join,
}
use governed_mcp_server.Common.Dict.{Dict}
use governed_mcp_server.Common.Result.{ok}
use governed_mcp_server.RequestState.{load_keys, minimum_key_bytes}
use governed_mcp_server.RequestState.Keys.{AreKeys, key_entry, no_entry, load_keys_iff}
use governed_mcp_server.RequestState.Base64.{b64decode}
use governed_mcp_server.RequestState.Encoding.{AreBytes, decode-encode}
use governed_mcp_server.RequestState.Generating.{
  generate_key, Plain, Plain-encode, split-Plain, full-encode, strip-encode,
}

-- 32 random bytes or more
abbrev pub IsKey : List ℕ → Type 0
IsKey bytes = AreBytes bytes × (minimum_key_bytes ≤ length bytes)

abbrev pub AreGenerated : List (List ℕ) → Type 0
AreGenerated [] = Unit
AreGenerated (key ∷ keys) = IsKey key × AreGenerated keys

-- the printed keys, with commas between them
abbrev pub ring_text : List (List ℕ) → String
ring_text keys = join "," (map generate_key keys)

split-comma : (s t : String) → Plain s → split 44 (s +++ ("," +++ t)) ≡ s ∷ split 44 t
unfolding split
split-comma String.[] t h = rw (nil-append, cons-append, nil-append) refl
split-comma (String.◌∷◌ c s) t ((_, comma), h) = rw cons-append (rw (comma, split-comma s t h) refl)

encode_entry :
    {keys : List (List ℕ)} (chunks : List String) (key : List ℕ)
    → IsKey key
    → AreKeys chunks keys
    → AreKeys (generate_key key ∷ chunks) (key ∷ keys)
encode_entry chunks key (bytes, enough) rest =
    let whole = strip-encode key bytes in
    key_entry (ap is_empty whole ∙ full-encode key enough)
      (ap b64decode whole ∙ decode-encode key bytes) enough rest

entries-ring_text :
    (key : List ℕ) (keys : List (List ℕ))
    → IsKey key
    → AreGenerated keys
    → AreKeys (split 44 (ring_text (key ∷ keys))) (key ∷ keys)
unfolding join
entries-ring_text key [] k ks =
    subst (λ chunks. AreKeys chunks (key ∷ [])) (sym (split-Plain _ (Plain-encode key (k.0))))
      (encode_entry [] key k no_entry)
entries-ring_text key (next ∷ keys) k (n, ks) =
    subst (λ chunks. AreKeys chunks (key ∷ next ∷ keys))
      (sym (split-comma _ (ring_text (next ∷ keys)) (Plain-encode key (k.0))))
      (encode_entry _ key k (entries-ring_text next keys n ks))

rstrip_step-full :
    (c : Char) (s : String)
    → starts_blank (String.◌∷◌ c String.[]) ≡ false
    → is_empty (rstrip_step c s) ≡ false
rstrip_step-full c String.[] h = rw h refl
rstrip_step-full c (String.◌∷◌ d s) h = refl

strip-full : (s : String) → starts_blank s ≡ false → is_empty (strip s) ≡ false
unfolding strip
strip-full String.[] h = cc
strip-full (String.◌∷◌ c s) h = rw h (rstrip_step-full c (rstrip s) h)

starts-Plain : (s t : String) → Plain s → is_empty s ≡ false → starts_blank (s +++ t) ≡ false
starts-Plain String.[] t h e = cc
starts-Plain (String.◌∷◌ c s) t ((blank, _), _) e = rw cons-append blank

starts_with_letter : (s : String) → Plain s → is_empty s ≡ false → starts_blank s ≡ false
starts_with_letter String.[] h e = cc
starts_with_letter (String.◌∷◌ c s) ((blank, _), _) e = blank

starts-ring_text :
    (key : List ℕ) (keys : List (List ℕ))
    → IsKey key
    → starts_blank (ring_text (key ∷ keys)) ≡ false
unfolding join
starts-ring_text key [] k =
    starts_with_letter (generate_key key) (Plain-encode key (k.0)) (full-encode key (k.1))
starts-ring_text key (next ∷ keys) k =
    starts-Plain (generate_key key) _ (Plain-encode key (k.0)) (full-encode key (k.1))

-- A ring of generated keys, joined by commas, loads as these keys in this order.
pub load_keys-ring_text :
    (key : List ℕ) (keys : List (List ℕ)) (environ : Dict String)
    → IsKey key
    → AreGenerated keys
    → load_keys (some (ring_text (key ∷ keys))) environ ≡ ok (key ∷ keys)
load_keys-ring_text key keys environ k ks =
    (load_keys_iff (some (ring_text (key ∷ keys))) environ (key ∷ keys)).1
      (inr (strip-full _ (starts-ring_text key keys k), entries-ring_text key keys k ks))

-- A generated key loads as the ring of its bytes alone.
load_keys-generate_key :
    (random : List ℕ) (environ : Dict String)
    → IsKey random
    → load_keys (some (generate_key random)) environ ≡ ok (random ∷ [])
unfolding join
load_keys-generate_key random environ k = load_keys-ring_text random [] environ k tt
