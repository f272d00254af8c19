-- ===== src/Common/Json.antt =====
-- `json.dumps(x, separators=(",", ":"), default=str)` of the standard library, which writes a
-- character beyond printable ASCII as an escape. A key of another kind than the text, number,
-- truth value or null is an error.
pub mod Printable
use Prim.Native.Nat.{ℕ, ◌+◌, ◌-◌, ◌/◌, ◌%◌}
use Prim.Native.Char.{code}
use Prim.Native.String.{String}
use mathlib.Core.Path.{◌≡◌, refl}
use mathlib.Core.Bool.{Bool, true, false, ◌&&◌}
use mathlib.Core.Option.{Option, none, some}
use mathlib.Core.List.{List, [], ◌∷◌}
use governed_mcp_server.Common.Tests.{eqb, ltb, leb, if◌then◌else◌}
use governed_mcp_server.Common.Text.{◌+++◌, join}
use governed_mcp_server.Common.Decimal.{digit}
use governed_mcp_server.Common.Show.{to_text}
use governed_mcp_server.Common.Value.{
  Value, null, bool, int, str, list, mapping, object, Items, nil, cons, Entries, end, entry,
  dict_entries, list_items, pos,
}

-- `\uXXXX`
abbrev pub unicode_escape : ℕ → String
unicode_escape n =
    "\\u"
    +++ (digit (n / 4096 % 16)
        +++ (digit (n / 256 % 16) +++ (digit (n / 16 % 16) +++ digit (n % 16))))

-- A character above the basic plane is a pair of surrogates.
abbrev pub any_escape : ℕ → String
any_escape n =
    let above = n - 65536 in
    if ltb n 65536
    then unicode_escape n
    else unicode_escape (55296 + above / 1024) +++ unicode_escape (56320 + above % 1024)

abbrev pub char_text : ℕ → (itself : String) → String
char_text n itself =
    if eqb n 34
    then "\\\""
    else if eqb n 92
    then "\\\\"
    else if eqb n 10
    then "\\n"
    else if eqb n 13
    then "\\r"
    else if eqb n 9
    then "\\t"
    else if eqb n 8
    then "\\b"
    else if eqb n 12
    then "\\f"
    else if leb 32 n && leb n 126
    then itself
    else any_escape n

pub chars_text : String → String
unfolding digit
chars_text String.[] = ""
chars_text (String.◌∷◌ c s) = char_text (code c) (String.◌∷◌ c String.[]) +++ chars_text s

unfoldable pub json_string : String → String
unfolding chars_text
json_string s = "\"" +++ (chars_text s +++ "\"")

abbrev bool_json : Bool → String
bool_json true = "true"
bool_json false = "false"

abbrev in_quotes : String → String
in_quotes s = "\"" +++ (s +++ "\"")

abbrev pub key_json : Value → Option String
key_json null = some (in_quotes "null")
key_json (bool b) = some (in_quotes (bool_json b))
key_json (int z) = some (in_quotes (to_text (int z)))
key_json (str s) = some (json_string s)
key_json _ = none

abbrev pub enclosed : (left right : String) → Option (List String) → Option String
enclosed left right none = none
enclosed left right (some parts) = some (left +++ (join "," parts +++ right))

abbrev pub put_before : Option String → Option (List String) → Option (List String)
put_before (some part) (some parts) = some (part ∷ parts)
put_before _ _ = none

abbrev pub pair_json : (key value : Option String) → Option String
pair_json (some k) (some v) = some (k +++ (":" +++ v))
pair_json _ _ = none

unfoldable mutual
  unfolding to_text json_string join

  pub json_text : Value → Option String
  json_text null = some "null"
  json_text (bool b) = some (bool_json b)
  json_text (int z) = some (to_text (int z))
  json_text (str s) = some (json_string s)
  json_text (list vs) = enclosed "[" "]" (items_json vs)
  json_text (mapping m) = enclosed "{" "}" (entries_json m)
  json_text (object o _) = some (json_string o.shown)

  pub items_json : Items → Option (List String)
  items_json nil = some []
  items_json (cons v vs) = put_before (json_text v) (items_json vs)

  pub entries_json : Entries → Option (List String)
  entries_json end = some []
  entries_json (entry k v m) = put_before (pair_json (key_json k) (json_text v)) (entries_json m)

json_text_runs :
    json_text (
      mapping (
        dict_entries (
          ("a\n\"b", list (list_items (int (pos 3) ∷ null ∷ bool true ∷ [])))
          ∷ ("é€", str "🚢")
          ∷ [])))
    ≡ some "{\"a\\n\\\"b\":[3,null,true],\"\\u00e9\\u20ac\":\"\\ud83d\\udea2\"}"
unfolding json_text
json_text_runs = refl
