-- ===== src/Common/Json/Printable.antt =====
-- What `json.dumps` returns is one line of printable ASCII.
use Prim.Native.Nat.{ℕ, zero, suc, ◌+◌, ◌-◌, ◌/◌, ◌%◌}
use Prim.Native.Char.{Char, code}
use Prim.Native.String.{String}
use text.Mathlib.TextLemmas.{cons-append, nil-append}
use mathlib.Core.Path.{◌≡◌, refl, subst}
use mathlib.Core.Bool.{Bool, true, false, ◌&&◌}
use mathlib.Core.Option.{Option, none, some}
use mathlib.Core.List.{List, [], ◌∷◌}
use native.Mathlib.Omega.{arith}
use governed_mcp_server.Common.Tests.{eqb, ltb, leb, if◌then◌else◌}
use governed_mcp_server.Common.Lists.{all}
use governed_mcp_server.Common.Text.{◌+++◌, join}
use governed_mcp_server.Common.Decimal.{digit, hex_digits, pick, digits, digits_text, decimal}
use governed_mcp_server.Common.Show.{to_text}
use governed_mcp_server.Common.Value.{
  ℤ, pos, negsuc, Value, null, bool, int, str, list, mapping, object, Items, nil, cons, Entries,
  end, entry,
}
use governed_mcp_server.Common.Json.{
  unicode_escape, any_escape, char_text, chars_text, json_string, key_json, enclosed, put_before,
  pair_json, json_text, items_json, entries_json,
}

-- Characters from the blank to the tilde only: no line break and no control character.
abbrev pub is_printable : String → Bool
is_printable String.[] = true
is_printable (String.◌∷◌ c s) = (leb 32 (code c) && leb (code c) 126) && is_printable s

pub record IsPrintable (s : String) : Type 0 where
  pub holds : is_printable s ≡ true

abbrev plainly : {s : String} → is_printable s ≡ true → IsPrintable s
plainly e = record { holds = e }

append_both :
    (s t : String) → is_printable s ≡ true → is_printable t ≡ true → is_printable (s +++ t) ≡ true
append_both String.[] t h k = rw nil-append k
append_both (String.◌∷◌ c s) t h k =
    rw cons-append (ground (arith, append_both s t (ground arith) k))

printable-append : (s t : String) → IsPrintable s → IsPrintable t → IsPrintable (s +++ t)
printable-append s t h k = plainly (append_both s t h.holds k.holds)

pick-printable : (xs : List String) (n : ℕ) → all is_printable xs ≡ true → IsPrintable (pick xs n)
pick-printable [] n h = plainly refl
pick-printable (x ∷ xs) zero h = plainly (ground arith)
pick-printable (x ∷ xs) (suc n) h = pick-printable xs n (ground arith)

digit-printable : (n : ℕ) → IsPrintable (digit n)
unfolding digit
digit-printable n = pick-printable hex_digits n refl

digits_text-printable : (ds : List ℕ) → IsPrintable (digits_text ds)
unfolding digits_text
digits_text-printable [] = plainly refl
digits_text-printable (d ∷ ds) =
    printable-append (digit d) (digits_text ds) (digit-printable d) (digits_text-printable ds)

unicode_escape-printable : (n : ℕ) → IsPrintable (unicode_escape n)
unicode_escape-printable n =
    let d = digit-printable in
    printable-append "\\u" _ (plainly refl) (
      printable-append (digit (n / 4096 % 16)) _ (d (n / 4096 % 16)) (
        printable-append (digit (n / 256 % 16)) _ (d (n / 256 % 16))
          (printable-append (digit (n / 16 % 16)) _ (d (n / 16 % 16)) (d (n % 16)))))

if-printable :
    (b : Bool) (s t : String) → IsPrintable s → IsPrintable t → IsPrintable (if b then s else t)
if-printable true s t h k = h
if-printable false s t h k = k

any_escape-printable : (n : ℕ) → IsPrintable (any_escape n)
any_escape-printable n =
    let above = n - 65536 in
    let pair =
      printable-append (unicode_escape (55296 + above / 1024))
        (unicode_escape (56320 + above % 1024)) (unicode_escape-printable (55296 + above / 1024))
        (unicode_escape-printable (56320 + above % 1024)) in
    if-printable (ltb n 65536) (unicode_escape n) _ (unicode_escape-printable n) pair

-- a character that is kept, or an escape
kept-printable :
    (c : Char) (keeps : Bool)
    → (leb 32 (code c) && leb (code c) 126) ≡ keeps
    → IsPrintable (if keeps then String.◌∷◌ c String.[] else any_escape (code c))
kept-printable c true e = plainly (rw e refl)
kept-printable c false e = any_escape-printable (code c)

char_text-printable : (c : Char) → IsPrintable (char_text (code c) (String.◌∷◌ c String.[]))
char_text-printable c =
    let n = code c in
    let keeps = leb 32 n && leb n 126 in
    if-printable (eqb n 34) "\\\"" _ (plainly refl) (
      if-printable (eqb n 92) "\\\\" _ (plainly refl) (
        if-printable (eqb n 10) "\\n" _ (plainly refl) (
          if-printable (eqb n 13) "\\r" _ (plainly refl) (
            if-printable (eqb n 9) "\\t" _ (plainly refl) (
              if-printable (eqb n 8) "\\b" _ (plainly refl)
                (if-printable (eqb n 12) "\\f" _ (plainly refl) (kept-printable c keeps refl)))))))

chars_text-printable : (s : String) → IsPrintable (chars_text s)
unfolding chars_text
chars_text-printable String.[] = plainly refl
chars_text-printable (String.◌∷◌ c s) =
    printable-append (char_text (code c) (String.◌∷◌ c String.[])) (chars_text s)
      (char_text-printable c) (chars_text-printable s)

quotes-printable : (s : String) → IsPrintable s → IsPrintable ("\"" +++ (s +++ "\""))
quotes-printable s h =
    printable-append "\"" (s +++ "\"") (plainly refl) (printable-append s "\"" h (plainly refl))

json_string-printable : (s : String) → IsPrintable (json_string s)
unfolding json_string
json_string-printable s = quotes-printable (chars_text s) (chars_text-printable s)

join-printable :
    (parts : List String) → all is_printable parts ≡ true → IsPrintable (join "," parts)
unfolding join
join-printable [] h = plainly refl
join-printable (part ∷ []) h = plainly (ground arith)
join-printable (part ∷ next ∷ parts) h =
    printable-append part _ (plainly (ground arith))
      (printable-append "," _ (plainly refl) (join-printable (next ∷ parts) (ground arith)))

-- a result that is printable, where there is one
abbrev TextPrintable : Option String → Type 0
TextPrintable none = Unit
TextPrintable (some s) = IsPrintable s

abbrev parts_printable : Option (List String) → Bool
parts_printable none = true
parts_printable (some parts) = all is_printable parts

enclosed-printable :
    (left right : String) (parts : Option (List String))
    → IsPrintable left
    → IsPrintable right
    → parts_printable parts ≡ true
    → TextPrintable (enclosed left right parts)
enclosed-printable left right none l r h = tt
enclosed-printable left right (some parts) l r h =
    printable-append left _ l (printable-append (join "," parts) right (join-printable parts h) r)

put_before-printable :
    (part : Option String) (parts : Option (List String))
    → TextPrintable part
    → parts_printable parts ≡ true
    → parts_printable (put_before part parts) ≡ true
put_before-printable none parts h k = refl
put_before-printable (some part) none h k = refl
put_before-printable (some part) (some parts) h k = let first = h.holds in ground arith

pair-printable :
    (k v : Option String) → TextPrintable k → TextPrintable v → TextPrintable (pair_json k v)
pair-printable none v h j = tt
pair-printable (some k) none h j = tt
pair-printable (some k) (some v) h j =
    printable-append k _ h (printable-append ":" v (plainly refl) j)

to_text-printable : (z : ℤ) → IsPrintable (to_text (int z))
unfolding to_text decimal
to_text-printable (pos n) = digits_text-printable (digits n)
to_text-printable (negsuc n) =
    printable-append "-" (decimal (suc n)) (plainly refl) (digits_text-printable (digits (suc n)))

key-printable : (k : Value) → TextPrintable (key_json k)
key-printable null = plainly refl
key-printable (bool true) = plainly refl
key-printable (bool false) = plainly refl
key-printable (int z) = quotes-printable (to_text (int z)) (to_text-printable z)
key-printable (str s) = json_string-printable s
key-printable (list vs) = tt
key-printable (mapping m) = tt
key-printable (object o m) = tt

mutual
  unfolding json_text

  value-printable : (v : Value) → TextPrintable (json_text v)
  value-printable null = plainly refl
  value-printable (bool true) = plainly refl
  value-printable (bool false) = plainly refl
  value-printable (int z) = to_text-printable z
  value-printable (str s) = json_string-printable s
  value-printable (list vs) =
      enclosed-printable "[" "]" (items_json vs) (plainly refl) (plainly refl) (items-printable vs)
  value-printable (mapping m) =
      enclosed-printable "{" "}" (entries_json m) (plainly refl) (plainly refl)
        (entries-printable m)
  value-printable (object o m) = json_string-printable o.shown

  items-printable : (vs : Items) → parts_printable (items_json vs) ≡ true
  items-printable nil = refl
  items-printable (cons v vs) =
      put_before-printable (json_text v) (items_json vs) (value-printable v) (items-printable vs)

  entries-printable : (m : Entries) → parts_printable (entries_json m) ≡ true
  entries-printable end = refl
  entries-printable (entry k v m) =
      put_before-printable (pair_json (key_json k) (json_text v)) (entries_json m)
        (pair-printable (key_json k) (json_text v) (key-printable k) (value-printable v))
        (entries-printable m)

-- Whatever texts a value holds, its JSON text is one line of printable ASCII.
pub json_text-printable : (v : Value) (text : String) → json_text v ≡ some text → IsPrintable text
json_text-printable v text e = subst TextPrintable e (value-printable v)
