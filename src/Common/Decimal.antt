-- ===== src/Common/Decimal.antt =====
-- Numbers printed in base ten, as `str(n)` and `f"{n:08d}"` print them.
use Prim.Native.Nat.{ℕ, zero, suc, ◌+◌, ◌-◌, ◌*◌, ◌/◌, ◌%◌, ◌<◌}
use Prim.Native.Char.{code}
use Prim.Native.String.{String}
use mathlib.Core.Path.{◌≡◌, refl, sym, ap, ◌∙◌}
use mathlib.Core.List.{List, [], ◌∷◌, ◌++◌}
use native.Mathlib.Omega.{arith}
use text.Mathlib.TextLemmas.{cons-append, nil-append}
use governed_mcp_server.Common.Tests.{ltb, if◌then◌else◌}
use governed_mcp_server.Common.Lists.{length}
use governed_mcp_server.Common.Text.{◌+++◌}

abbrev pub pick : List String → ℕ → String
pick [] n = ""
pick (x ∷ xs) zero = x
pick (x ∷ xs) (suc n) = pick xs n

abbrev pub hex_digits : List String
hex_digits =
    "0" ∷ "1" ∷ "2" ∷ "3" ∷ "4" ∷ "5" ∷ "6" ∷ "7" ∷ "8" ∷ "9" ∷ "a" ∷ "b" ∷ "c" ∷ "d" ∷ "e" ∷ "f"
    ∷ []

-- one digit, to base 16
unfoldable pub digit : ℕ → String
digit = pick hex_digits

-- the digits of a number, the highest first; fuel above the number is enough
digits_from : ℕ → ℕ → List ℕ
digits_from zero n = []
digits_from (suc f) n =
    let more = digits_from f (n / 10) ++ (n % 10) ∷ [] in if ltb n 10 then n ∷ [] else more

unfoldable pub digits : ℕ → List ℕ
unfolding digits_from
digits n = digits_from (suc n) n

unfoldable pub digits_text : List ℕ → String
unfolding digit
digits_text [] = ""
digits_text (d ∷ ds) = digit d +++ digits_text ds

-- `str(n)`
unfoldable pub decimal : ℕ → String
unfolding digits digits_text
decimal n = digits_text (digits n)

zeros : ℕ → List ℕ → List ℕ
zeros zero ds = ds
zeros (suc n) ds = 0 ∷ zeros n ds

-- `f"{n:0{width}d}"`
unfoldable pub padded : ℕ → ℕ → String
unfolding zeros digits digits_text
padded width n = let ds = digits n in digits_text (zeros (width - length ds) ds)

decimal_runs : decimal 40213 ≡ "40213"
unfolding decimal
decimal_runs = refl

padded_runs : (padded 2 7 ≡ "07") × (padded 2 123 ≡ "123")
unfolding padded
padded_runs = (refl, refl)

-- Reading digits back.
read : ℕ → String → ℕ
read acc String.[] = acc
read acc (String.◌∷◌ c s) = read (acc * 10 + (code c - 48)) s

read-digit : (acc d : ℕ) (s : String) → d < 10 → read acc (digit d +++ s) ≡ read (acc * 10 + d) s
unfolding read digit
read-digit acc zero s h = rw (cons-append, nil-append)
read-digit acc (suc zero) s h = rw (cons-append, nil-append)
read-digit acc (suc (suc zero)) s h = rw (cons-append, nil-append)
read-digit acc (suc (suc (suc zero))) s h = rw (cons-append, nil-append)
read-digit acc (suc (suc (suc (suc zero)))) s h = rw (cons-append, nil-append)
read-digit acc (suc (suc (suc (suc (suc zero))))) s h = rw (cons-append, nil-append)
read-digit acc (suc (suc (suc (suc (suc (suc zero)))))) s h = rw (cons-append, nil-append)
read-digit acc (suc (suc (suc (suc (suc (suc (suc zero))))))) s h = rw (cons-append, nil-append)
read-digit acc (suc (suc (suc (suc (suc (suc (suc (suc zero)))))))) s h =
    rw (cons-append, nil-append)
read-digit acc (suc (suc (suc (suc (suc (suc (suc (suc (suc zero))))))))) s h =
    rw (cons-append, nil-append)
read-digit acc (suc (suc (suc (suc (suc (suc (suc (suc (suc (suc d)))))))))) s h =
    absurd (omega arith)

abbrev AllDigits : List ℕ → Type 0
AllDigits [] = Unit
AllDigits (d ∷ ds) = (d < 10) × AllDigits ds

-- the number that digits stand for
value_from : ℕ → List ℕ → ℕ
value_from acc [] = acc
value_from acc (d ∷ ds) = value_from (acc * 10 + d) ds

read-digits_text :
    (acc : ℕ) (ds : List ℕ) → AllDigits ds → read acc (digits_text ds) ≡ value_from acc ds
unfolding digits_text value_from read
read-digits_text acc [] h = refl
read-digits_text acc (d ∷ ds) (p, h) =
    read-digit acc d (digits_text ds) p ∙ read-digits_text (acc * 10 + d) ds h

value_from-append :
    (acc : ℕ) (xs : List ℕ) (d : ℕ) → value_from acc (xs ++ d ∷ []) ≡ value_from acc xs * 10 + d
unfolding value_from
value_from-append acc [] d = refl
value_from-append acc (x ∷ xs) d = value_from-append (acc * 10 + x) xs d

AllDigits-append : (xs : List ℕ) (d : ℕ) → AllDigits xs → d < 10 → AllDigits (xs ++ d ∷ [])
AllDigits-append [] d h p = (p, tt)
AllDigits-append (x ∷ xs) d (q, h) p = (q, AllDigits-append xs d h p)

digits_from-AllDigits : (f n : ℕ) → AllDigits (digits_from f n)
unfolding digits_from
digits_from-AllDigits zero n = tt
digits_from-AllDigits (suc f) n =
    ground
      (arith, AllDigits-append (digits_from f (n / 10)) (n % 10) (digits_from-AllDigits f (n / 10)))

value_from-digits_from : (f n : ℕ) → n < f → value_from 0 (digits_from f n) ≡ n
unfolding digits_from value_from
value_from-digits_from zero n h = absurd (omega arith)
value_from-digits_from (suc f) n h = ground (
  arith,
  value_from-append 0 (digits_from f (n / 10)) (n % 10),
  value_from-digits_from f (n / 10),
)

value_from-zeros : (k : ℕ) (ds : List ℕ) → value_from 0 (zeros k ds) ≡ value_from 0 ds
unfolding value_from zeros
value_from-zeros zero ds = refl
value_from-zeros (suc k) ds = value_from-zeros k ds

zeros-AllDigits : (k : ℕ) (ds : List ℕ) → AllDigits ds → AllDigits (zeros k ds)
unfolding zeros
zeros-AllDigits zero ds h = h
zeros-AllDigits (suc k) ds h = (omega arith, zeros-AllDigits k ds h)

-- A padded number reads back as the number.
read-padded : (width n : ℕ) → read 0 (padded width n) ≡ n
unfolding padded
read-padded width n =
    let k = width - length (digits_from (suc n) n) in
    read-digits_text 0 (zeros k (digits_from (suc n) n))
      (zeros-AllDigits k (digits_from (suc n) n) (digits_from-AllDigits (suc n) n))
    ∙ value_from-zeros k (digits_from (suc n) n)
    ∙ value_from-digits_from (suc n) n (omega arith)

pub padded_inj : (width m n : ℕ) → padded width m ≡ padded width n → m ≡ n
padded_inj width m n e = sym (read-padded width m) ∙ ap (read 0) e ∙ read-padded width n
