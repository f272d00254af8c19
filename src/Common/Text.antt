-- ===== src/Common/Text.antt =====
-- Python's `str` methods that the code calls, over the characters of a text.
use native.Mathlib.Omega.{arith}
use package.text.Mathlib.TextLemmas.{cons-append}
use Prim.Native.Char.{Char, code}
use Prim.Native.String
use Prim.Native.String.{String}
use mathlib.Core.Path.{◌≡◌, refl}
use mathlib.Core.Bool.{Bool, true, false, ◌&&◌, ◌||◌}
use mathlib.Core.List.{List, [], ◌∷◌}
use Prim.Native.Nat.{ℕ}
use governed_mcp_server.Common.Tests.{eqb, leb, if◌then◌else◌}

infixl 65 ◌+++◌
-- concatenation of texts
abbrev pub ◌+++◌ : String → String → String
s +++ t = String.◌++◌ s t

abbrev pub is_empty : String → Bool
is_empty String.[] = true
is_empty (String.◌∷◌ _ _) = false

-- `s.startswith(prefix)`
unfoldable pub starts_with : String → String → Bool
starts_with s String.[] = true
starts_with String.[] (String.◌∷◌ _ _) = false
starts_with (String.◌∷◌ c s) (String.◌∷◌ d t) = eqb (code c) (code d) && starts_with s t

-- `str.isspace` of one character, by its code point.
unfoldable pub is_space : ℕ → Bool
is_space n =
    leb 9 n && leb n 13
    || leb 28 n && leb n 32
    || eqb n 0x85
    || eqb n 0xa0
    || eqb n 0x1680
    || leb 0x2000 n && leb n 0x200a
    || eqb n 0x2028
    || eqb n 0x2029
    || eqb n 0x202f
    || eqb n 0x205f
    || eqb n 0x3000

unfoldable pub lstrip : String → String
lstrip String.[] = String.[]
lstrip (String.◌∷◌ c s) = if is_space (code c) then lstrip s else String.◌∷◌ c s

-- One character, kept unless it is a blank at the end of the text.
abbrev pub rstrip_step : Char → String → String
rstrip_step c String.[] = if is_space (code c) then String.[] else String.◌∷◌ c String.[]
rstrip_step c (String.◌∷◌ d s) = String.◌∷◌ c (String.◌∷◌ d s)

unfoldable pub rstrip : String → String
rstrip String.[] = String.[]
rstrip (String.◌∷◌ c s) = rstrip_step c (rstrip s)

-- `s.strip()`
unfoldable pub strip : String → String
unfolding lstrip rstrip is_space
strip s = rstrip (lstrip s)

abbrev add_to_head : Char → List String → List String
add_to_head c [] = (String.◌∷◌ c String.[]) ∷ []
add_to_head c (part ∷ parts) = (String.◌∷◌ c part) ∷ parts

-- `s.split(sep)` for one character `sep`; never empty
unfoldable pub split : ℕ → String → List String
split sep String.[] = String.[] ∷ []
split sep (String.◌∷◌ c s) =
    let parts = split sep s in if eqb (code c) sep then String.[] ∷ parts else add_to_head c parts

abbrev pub starts_blank : String → Bool
starts_blank String.[] = true
starts_blank (String.◌∷◌ c _) = is_space (code c)

-- `s.split()`, at blanks
unfoldable pub words : String → List String
unfolding is_space
words String.[] = []
words (String.◌∷◌ c s) =
    let more = words s in
    if is_space (code c)
    then more
    else if starts_blank s
    then (String.◌∷◌ c String.[]) ∷ more
    else add_to_head c more

words_runs : words " a  bc " ≡ "a" ∷ "bc" ∷ []
unfolding words
words_runs = refl

-- `sep.join(parts)`
unfoldable pub join : String → List String → String
join sep [] = ""
join sep (part ∷ []) = part
join sep (part ∷ more ∷ parts) = part +++ (sep +++ join sep (more ∷ parts))

strip_runs : strip "  a b\n" ≡ "a b"
unfolding strip
strip_runs = refl

split_runs : split b',' "a,,b" ≡ "a" ∷ "" ∷ "b" ∷ []
unfolding split
split_runs = refl

join_runs : join ", " ("a" ∷ "b" ∷ []) ≡ "a, b"
unfolding join
join_runs = refl

pub starts_with-append : (p s : String) → starts_with (p +++ s) p ≡ true
unfolding starts_with
starts_with-append String.[] s = refl
starts_with-append (String.◌∷◌ c p) s = rw cons-append (ground (arith, starts_with-append p s))
