-- ===== src/RequestState/Generating.antt =====
-- governance/request_state.py: `generate_key`, whose text has no blank and no comma.
use governed_mcp_server.Common.{
  ◌≡◌, refl, ap, ◌∙◌, ℕ, ◌+◌, ◌*◌, ◌/◌, ◌%◌, ◌≤◌, String, false, List, [], ◌∷◌, arith, eqb, length,
}
use Prim.Native.Char.{code}
use governed_mcp_server.Common.Text.{is_empty, strip, lstrip, rstrip, split, is_space}
use governed_mcp_server.RequestState.Encoding.{b64encode, AreBytes, plain_letter}

-- `generate_key`, of the bytes of `os.urandom(32)`
abbrev pub generate_key : List ℕ → String
generate_key random = b64encode random

-- A text of letters and padding: no blank and no comma.
abbrev pub Plain : String → Type 0
Plain String.[] = Unit
Plain (String.◌∷◌ c s) = ((is_space (code c) ≡ false) × (eqb (code c) 44 ≡ false)) × Plain s

pub Plain-encode : (bytes : List ℕ) → AreBytes bytes → Plain (b64encode bytes)
unfolding b64encode is_space
Plain-encode [] h = tt
Plain-encode (x ∷ []) (hx, _) = (
  plain_letter (x / 4) (omega arith),
  (plain_letter (x % 4 * 16) (omega arith), ((refl, refl), ((refl, refl), tt))),
)
Plain-encode (x ∷ y ∷ []) (hx, (hy, _)) = (
  plain_letter (x / 4) (omega arith),
  (
    plain_letter (x % 4 * 16 + y / 16) (omega arith),
    (plain_letter (y % 16 * 4) (omega arith), ((refl, refl), tt)),
  ),
)
Plain-encode (x ∷ y ∷ z ∷ more) (hx, (hy, (hz, h))) = (
  plain_letter (x / 4) (omega arith),
  (
    plain_letter (x % 4 * 16 + y / 16) (omega arith),
    (
      plain_letter (y % 16 * 4 + z / 64) (omega arith),
      (plain_letter (z % 64) (omega arith), Plain-encode more h),
    ),
  ),
)

rstrip-Plain : (s : String) → Plain s → rstrip s ≡ s
unfolding rstrip
rstrip-Plain String.[] h = refl
rstrip-Plain (String.◌∷◌ c String.[]) ((blank, _), _) = rw blank refl
rstrip-Plain (String.◌∷◌ c (String.◌∷◌ d s)) (_, h) = rw (rstrip-Plain (String.◌∷◌ d s) h) refl

lstrip-Plain : (s : String) → Plain s → lstrip s ≡ s
unfolding lstrip
lstrip-Plain String.[] h = refl
lstrip-Plain (String.◌∷◌ c s) ((blank, _), _) = rw blank refl

pub split-Plain : (s : String) → Plain s → split 44 s ≡ s ∷ []
unfolding split
split-Plain String.[] h = refl
split-Plain (String.◌∷◌ c s) ((_, comma), h) = rw (comma, split-Plain s h) refl

pub full-encode : (bytes : List ℕ) → 32 ≤ length bytes → is_empty (b64encode bytes) ≡ false
unfolding b64encode
full-encode [] h = absurd (omega arith)
full-encode (x ∷ []) h = refl
full-encode (x ∷ y ∷ []) h = refl
full-encode (x ∷ y ∷ z ∷ more) h = refl

pub strip-encode : (bytes : List ℕ) → AreBytes bytes → strip (b64encode bytes) ≡ b64encode bytes
unfolding strip
strip-encode bytes h =
    ap rstrip (lstrip-Plain (b64encode bytes) (Plain-encode bytes h))
    ∙ rstrip-Plain (b64encode bytes) (Plain-encode bytes h)
