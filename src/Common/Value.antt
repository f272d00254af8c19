-- ===== src/Common/Value.antt =====
-- Values of the dynamic language: what YAML and JSON documents hold, and any other object.
use Prim.Native.Nat.{ℕ}
use Prim.Native.String.{String}
use mathlib.Core.Bool.{Bool, true, false, not}
use mathlib.Core.List.{List, [], ◌∷◌}
use native.Mathlib.Omega.{arith}
use mathlib.Core.Path.{◌≡◌, refl}
use text.Mathlib.Text.{◌==◌}
use text.Mathlib.TextEquality.{eq_iff}
use governed_mcp_server.Common.Tests.{eqb, if◌then◌else◌}
use governed_mcp_server.Common.Text.{is_empty}

-- `negsuc n` is -(n + 1).
pub data ℤ : Type 0 where
  pos : ℕ → ℤ
  negsuc : ℕ → ℤ

-- What the built-in functions answer for an object of any other class, a float or a date among
-- them: `str(x)`, `repr(x)`, `bool(x)` and `x == 1`.
pub record Opaque : Type 0 where
  pub shown : String
  pub represented : String
  pub truth : Bool
  pub is_one : Bool

-- The keys of a dict are values too. An object has attributes, whose names are texts.
mutual
  pub data Value : Type 0 where
    null : Value
    bool : Bool → Value
    int : ℤ → Value
    str : String → Value
    list : Items → Value
    mapping : Entries → Value
    object : Opaque → Entries → Value

  pub data Items : Type 0 where
    nil : Items
    cons : Value → Items → Items

  pub data Entries : Type 0 where
    end : Entries
    entry : Value → Value → Entries → Entries

-- `x == "name"`
abbrev pub is_text : String → Value → Bool
is_text name (str s) = s == name
is_text name _ = false

-- `x == 1`; `True` is 1 too
abbrev pub is_one : Value → Bool
is_one (bool b) = b
is_one (int (pos n)) = eqb n 1
is_one (object o _) = o.is_one
is_one _ = false

-- `bool(x)`
abbrev pub truth : Value → Bool
truth null = false
truth (bool b) = b
truth (int (pos n)) = not (eqb n 0)
truth (int (negsuc _)) = true
truth (str s) = not (is_empty s)
truth (list nil) = false
truth (list (cons _ _)) = true
truth (mapping end) = false
truth (mapping (entry _ _ _)) = true
truth (object o _) = o.truth

-- `x or y`
abbrev pub or_else : Value → Value → Value
or_else x y = if truth x then x else y

abbrev pub is_mapping : Value → Bool
is_mapping (mapping _) = true
is_mapping _ = false

-- `m.get(name, default)`
unfoldable pub get_or : String → Value → Entries → Value
get_or name default end = default
get_or name default (entry k v m) = if is_text name k then v else get_or name default m

-- `m.get(name)`
abbrev pub get : String → Entries → Value
get name m = get_or name null m

-- `m[name] = value`, which keeps the place of a key that is there
unfoldable pub put : String → Value → Entries → Entries
put name value end = entry (str name) value end
put name value (entry k v m) =
    let more = entry k v (put name value m) in if is_text name k then entry k value m else more

-- `m.pop(name, None)`, for its effect
unfoldable pub remove : String → Entries → Entries
remove name end = end
remove name (entry k v m) = if is_text name k then m else entry k v (remove name m)

pub get_or-put :
    (name other : String) (value default : Value) (m : Entries)
    → get_or other default (put name value m)
      ≡ (if name == other then value else get_or other default m)
unfolding get_or put
get_or-put name other value default end = refl
get_or-put name other value default (entry (str s) v m) =
    ground (
      arith,
      eq_iff s name,
      eq_iff s other,
      eq_iff name other,
      get_or-put name other value default m,
    )
get_or-put name other value default (entry k v m) =
    ground (arith, get_or-put name other value default m)

-- `name in m`
unfoldable pub has_key : String → Entries → Bool
has_key name end = false
has_key name (entry k v m) = if is_text name k then true else has_key name m

abbrev pub items : Items → List Value
items nil = []
items (cons v vs) = v ∷ items vs

-- The entries of a mapping, and none of any other value.
abbrev pub entries : Value → Entries
entries (mapping m) = m
entries _ = end

-- `list(m)`
abbrev pub key_values : Entries → List Value
key_values end = []
key_values (entry k _ m) = k ∷ key_values m

-- A field of a wire mapping or of a model object, `None` where there is none.
unfoldable pub field_or_attribute : String → Value → Value
unfolding get_or
field_or_attribute name (mapping m) = get name m
field_or_attribute name (object _ attributes) = get name attributes
field_or_attribute name _ = null

-- A dict with texts for keys.
abbrev pub dict_entries : List (String × Value) → Entries
dict_entries [] = end
dict_entries ((key, v) ∷ more) = entry (str key) v (dict_entries more)

abbrev pub dict : List (String × Value) → Value
dict fields = mapping (dict_entries fields)

abbrev pub list_items : List Value → Items
list_items [] = nil
list_items (v ∷ vs) = cons v (list_items vs)
