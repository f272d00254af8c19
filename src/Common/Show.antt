-- ===== src/Common/Show.antt =====
-- `str(x)` and `repr(x)`.
use Prim.Native.Nat.{ℕ, suc, ◌/◌, ◌%◌}
use Prim.Native.Char.{code}
use Prim.Native.String.{String}
use mathlib.Core.Path.{◌≡◌, refl}
use mathlib.Core.Bool.{Bool, true, false, not, ◌&&◌, ◌||◌}
use mathlib.Core.List.{List, [], ◌∷◌}
use governed_mcp_server.Common.Tests.{eqb, ltb, leb, if◌then◌else◌}
use governed_mcp_server.Common.Text.{◌+++◌, join}
use governed_mcp_server.Common.Decimal.{decimal, digit}
use governed_mcp_server.Common.Value.{
  ℤ, pos, negsuc, Value, null, bool, int, str, list, mapping, object, Items, nil, cons, Entries,
  end, entry,
}

has_code : ℕ → String → Bool
has_code n String.[] = false
has_code n (String.◌∷◌ c s) = eqb (code c) n || has_code n s

-- One character inside quotes. A character above the Latin-1 controls counts as printable.
escape : ℕ → String → String
escape quote String.[] = ""
escape quote (String.◌∷◌ c s) =
    let rest = escape quote s in
    let n = code c in
    if eqb n quote || eqb n 92
    then "\\" +++ String.◌∷◌ c rest
    else if eqb n 10
    then "\\n" +++ rest
    else if eqb n 13
    then "\\r" +++ rest
    else if eqb n 9
    then "\\t" +++ rest
    else if ltb n 32 || leb 127 n && leb n 160 || eqb n 173
    then "\\x" +++ (digit (n / 16) +++ (digit (n % 16) +++ rest))
    else String.◌∷◌ c rest

-- `repr` of a text: in double quotes if it holds a single quote and no double quote.
unfoldable pub quoted : String → String
unfolding has_code escape digit
quoted s =
    if has_code 39 s && not (has_code 34 s)
    then "\"" +++ (escape 34 s +++ "\"")
    else "'" +++ (escape 39 s +++ "'")

abbrev bool_text : Bool → String
bool_text true = "True"
bool_text false = "False"

abbrev int_text : ℤ → String
int_text (pos n) = decimal n
int_text (negsuc n) = "-" +++ decimal (suc n)

mutual
  represent : Value → String
  represent null = "None"
  represent (bool b) = bool_text b
  represent (int z) = int_text z
  represent (str s) = quoted s
  represent (list vs) = "[" +++ (join ", " (represent_items vs) +++ "]")
  represent (mapping m) = "{" +++ (join ", " (represent_entries m) +++ "}")
  represent (object o _) = o.represented

  represent_items : Items → List String
  represent_items nil = []
  represent_items (cons v vs) = represent v ∷ represent_items vs

  represent_entries : Entries → List String
  represent_entries end = []
  represent_entries (entry k v m) = (represent k +++ (": " +++ represent v)) ∷ represent_entries m

-- `str(x)`
unfoldable pub to_text : Value → String
unfolding represent quoted decimal join
to_text (str s) = s
to_text (object o _) = o.shown
to_text v = represent v

to_text_runs :
    to_text (list (cons (str "it's") (cons (int (negsuc 4)) (cons null nil))))
    ≡ "[\"it's\", -5, None]"
unfolding to_text
to_text_runs = refl
