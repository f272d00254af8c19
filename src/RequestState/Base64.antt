-- ===== src/RequestState/Base64.antt =====
-- `base64.b64encode` and `base64.b64decode(s, validate=True)`: bytes are numbers below 256.
use governed_mcp_server.Common.{
  ◌≡◌, refl, ℕ, ◌+◌, ◌-◌, ◌*◌, ◌/◌, ◌%◌, String, Option, none, some, List, [], ◌∷◌, leb, eqb, ◌&&◌,
  if◌then◌else◌,
}
use Prim.Native.Char.{code}

-- the six bits of a character
abbrev pub sextet : ℕ → Option ℕ
sextet c =
    if leb 65 c && leb c 90
    then some (c - 65)
    else if leb 97 c && leb c 122
    then some (c - 71)
    else if leb 48 c && leb c 57
    then some (c + 4)
    else if eqb c 43
    then some 62
    else if eqb c 47
    then some 63
    else none

abbrev pub codes : String → List ℕ
codes String.[] = []
codes (String.◌∷◌ c s) = code c ∷ codes s

abbrev pub three : (a b c d : ℕ) → List ℕ → List ℕ
three a b c d more = (a * 4 + b / 16) ∷ (b % 16 * 16 + c / 4) ∷ (c % 4 * 64 + d) ∷ more

infixl 5 ◌>>=◌
abbrev ◌>>=◌ : {A B : Type 0} → Option A → (A → Option B) → Option B
none >>= f = none
some a >>= f = f a

-- The last four characters, which may end in one or two `=`.
abbrev pub last_group : (p q r s : ℕ) → Option (List ℕ)
last_group p q r s = sextet p >>= λ a. sextet q >>= λ b.
    if eqb r 61 && eqb s 61
    then some ((a * 4 + b / 16) ∷ [])
    else (sextet r >>= λ c.
        if eqb s 61
        then some ((a * 4 + b / 16) ∷ (b % 16 * 16 + c / 4) ∷ [])
        else (sextet s >>= λ d. some (three a b c d [])))

-- Groups of four characters; padding elsewhere than at the end is an error.
unfoldable pub decode_codes : List ℕ → Option (List ℕ)
decode_codes [] = some []
decode_codes (p ∷ q ∷ r ∷ s ∷ []) = last_group p q r s
decode_codes (p ∷ q ∷ r ∷ s ∷ x ∷ xs) =
    let rest = decode_codes (x ∷ xs) in
    sextet p >>= λ a.
    sextet q >>= λ b. sextet r >>= λ c. sextet s >>= λ d. rest >>= λ more. some (three a b c d more)
decode_codes _ = none

unfoldable pub b64decode : String → Option (List ℕ)
unfolding decode_codes
b64decode s = decode_codes (codes s)

decode_runs :
    (b64decode "TWFu" ≡ some (77 ∷ 97 ∷ 110 ∷ []))
    × (b64decode "TWFuTQ==" ≡ some (77 ∷ 97 ∷ 110 ∷ 77 ∷ []))
    × (b64decode "TWE=" ≡ some (77 ∷ 97 ∷ []))
    × (b64decode "TWE" ≡ none)
    × (b64decode "TQ==TWFu" ≡ none)
    × (b64decode "T-Fu" ≡ none)
unfolding b64decode
decode_runs = (refl, refl, refl, refl, refl, refl)
