-- ===== src/RequestState/Encoding.antt =====
-- `base64.b64encode`, and that what it writes is read back.
use governed_mcp_server.Common.{
  ◌≡◌, refl, ap, ap₂, ◌∙◌, sym, ℕ, zero, suc, ◌+◌, ◌*◌, ◌/◌, ◌%◌, ◌<◌, String, Bool, true, false,
  not, Option, none, some, List, [], ◌∷◌, arith, eqb, ◌&&◌, Bool-cases, inl, inr, subst,
}
use Prim.Native.Char.{Char, code}
use governed_mcp_server.Common.Text.{is_space}
use governed_mcp_server.RequestState.Base64.{sextet, codes, decode_codes, b64decode, three}

abbrev nth : String → ℕ → Char
nth String.[] n = "A"
nth (String.◌∷◌ c s) zero = c
nth (String.◌∷◌ c s) (suc n) = nth s n

unfoldable pub letter : ℕ → Char
letter = nth "ABCDEFGHIJKLMNOPQRSTUVWXYZabcdefghijklmnopqrstuvwxyz0123456789+/"

-- `base64.b64encode`, as a text
unfoldable pub b64encode : List ℕ → String
unfolding letter
b64encode [] = ""
b64encode (x ∷ []) = String.◌∷◌ (letter (x / 4)) (String.◌∷◌ (letter (x % 4 * 16)) "==")
b64encode (x ∷ y ∷ []) =
    String.◌∷◌ (letter (x / 4))
      (String.◌∷◌ (letter (x % 4 * 16 + y / 16)) (String.◌∷◌ (letter (y % 16 * 4)) "="))
b64encode (x ∷ y ∷ z ∷ more) = String.◌∷◌ (letter (x / 4)) (
    String.◌∷◌ (letter (x % 4 * 16 + y / 16))
      (String.◌∷◌ (letter (y % 16 * 4 + z / 64)) (String.◌∷◌ (letter (z % 64)) (b64encode more))))

is_six : Option ℕ → ℕ → Bool
is_six none n = false
is_six (some m) n = eqb m n

is_code : ℕ → ℕ → Bool
unfolding is_six
is_code n c = is_six (sextet c) n && (not (eqb c 61) && (not (eqb c 44) && not (is_space c)))

-- What holds of the code of a letter: its six bits, and that it is no `=`, comma or blank.
record IsCode (n c : ℕ) : Type 0 where
  bits : sextet c ≡ some n
  no_padding : eqb c 61 ≡ false
  no_comma : eqb c 44 ≡ false
  no_blank : is_space c ≡ false

is_six-eq : (o : Option ℕ) (n : ℕ) → is_six o n ≡ true → o ≡ some n
unfolding is_six
is_six-eq none n e = cc
is_six-eq (some m) n e = let same : m ≡ n = ground arith in ap some same

and_left : (a b : Bool) → (a && b) ≡ true → a ≡ true
and_left true b e = refl
and_left false b e = e

and_right : (a b : Bool) → (a && b) ≡ true → b ≡ true
and_right true b e = e
and_right false b e = cc

not-true : (a : Bool) → not a ≡ true → a ≡ false
not-true true e = cc
not-true false e = refl

is_code-IsCode : (n c : ℕ) → is_code n c ≡ true → IsCode n c
unfolding is_code
is_code-IsCode n c e =
    let rest = and_right (is_six (sextet c) n) _ e in
    let more = and_right (not (eqb c 61)) _ rest in
    record {
      bits = is_six-eq (sextet c) n (and_left (is_six (sextet c) n) _ e);
      no_padding = not-true (eqb c 61) (and_left (not (eqb c 61)) _ rest);
      no_comma = not-true (eqb c 44) (and_left (not (eqb c 44)) _ more);
      no_blank = not-true (is_space c) (and_right (not (eqb c 44)) _ more);
    }

all_below : (ℕ → Bool) → ℕ → Bool
all_below p zero = true
all_below p (suc n) = p n && all_below p n

all_below_holds : (p : ℕ → Bool) (n k : ℕ) → all_below p n ≡ true → k < n → p k ≡ true
unfolding all_below
all_below_holds p zero k e lt = absurd (omega arith)
all_below_holds p (suc n) k e lt = elim (Bool-cases (eqb k n)) [
  | inl same ↦
      let k_is_n : k ≡ n = ground arith in subst (λ m. p m ≡ true) (sym k_is_n) (ground arith)
  | inr other ↦ all_below_holds p n k (ground arith) (ground arith)
]

letters : all_below (λ n. is_code n (code (letter n))) 64 ≡ true
unfolding all_below is_code is_six letter is_space
letters = refl

letter-IsCode : (n : ℕ) → n < 64 → IsCode n (code (letter n))
letter-IsCode n lt =
    is_code-IsCode n (code (letter n))
      (all_below_holds (λ m. is_code m (code (letter m))) 64 n letters lt)

pub plain_letter :
    (n : ℕ) → n < 64 → (is_space (code (letter n)) ≡ false) × (eqb (code (letter n)) 44 ≡ false)
plain_letter n lt = let is_one = letter-IsCode n lt in (is_one.no_blank, is_one.no_comma)

module _ (a b c d p q r s : ℕ) (p_code : IsCode a p) (q_code : IsCode b q) (r_code : IsCode c r)
    (s_code : IsCode d s) where
  decode_group :
      (xs more : List ℕ)
      → decode_codes xs ≡ some more
      → decode_codes (p ∷ q ∷ r ∷ s ∷ xs) ≡ some (three a b c d more)
  unfolding decode_codes
  decode_group [] more e =
      let nothing : [] ≡ more = cc in
      rw (p_code.bits, q_code.bits, r_code.no_padding, r_code.bits, s_code.no_padding, s_code.bits)
        (ap (λ m. some (three a b c d m)) nothing)
  decode_group (x ∷ xs) more e = rw (p_code.bits, q_code.bits, r_code.bits, s_code.bits, e) refl

abbrev pub AreBytes : List ℕ → Type 0
AreBytes [] = Unit
AreBytes (x ∷ xs) = (x < 256) × AreBytes xs

pub decode-encode : (bytes : List ℕ) → AreBytes bytes → b64decode (b64encode bytes) ≡ some bytes
unfolding b64decode decode_codes b64encode
decode-encode [] h = refl
decode-encode (x ∷ []) (hx, _) =
    let a = letter-IsCode (x / 4) (omega arith) in
    let b = letter-IsCode (x % 4 * 16) (omega arith) in
    rw (a.bits, b.bits) (ap (λ v. some (v ∷ [])) (omega arith))
decode-encode (x ∷ y ∷ []) (hx, (hy, _)) =
    let a = letter-IsCode (x / 4) (omega arith) in
    let b = letter-IsCode (x % 4 * 16 + y / 16) (omega arith) in
    let c = letter-IsCode (y % 16 * 4) (omega arith) in
    let ex : x / 4 * 4 + (x % 4 * 16 + y / 16) / 16 ≡ x = omega arith in
    let ey : (x % 4 * 16 + y / 16) % 16 * 16 + y % 16 * 4 / 4 ≡ y = omega arith in
    rw (a.bits, b.bits, c.no_padding, c.bits) (ap₂ (λ u v. some (u ∷ v ∷ [])) ex ey)
decode-encode (x ∷ y ∷ z ∷ more) (hx, (hy, (hz, h))) =
    let ex : x / 4 * 4 + (x % 4 * 16 + y / 16) / 16 ≡ x = omega arith in
    let ey : (x % 4 * 16 + y / 16) % 16 * 16 + (y % 16 * 4 + z / 64) / 4 ≡ y = omega arith in
    let ez : (y % 16 * 4 + z / 64) % 4 * 64 + z % 64 ≡ z = omega arith in
    decode_group (x / 4) (x % 4 * 16 + y / 16) (y % 16 * 4 + z / 64) (z % 64) _ _ _ _
      (letter-IsCode (x / 4) (omega arith)) (letter-IsCode (x % 4 * 16 + y / 16) (omega arith))
      (letter-IsCode (y % 16 * 4 + z / 64) (omega arith)) (letter-IsCode (z % 64) (omega arith))
      (codes (b64encode more)) more (decode-encode more h)
    ∙ ap₂ (λ u v. some (u ∷ v ∷ ((y % 16 * 4 + z / 64) % 4 * 64 + z % 64) ∷ more)) ex ey
    ∙ ap (λ w. some (x ∷ y ∷ w ∷ more)) ez
