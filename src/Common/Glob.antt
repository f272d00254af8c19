-- ===== src/Common/Glob.antt =====
-- `fnmatch.fnmatchcase` of the standard library: `*`, `?` and `[seq]`, over code points.
pub mod Prefix
pub mod Matching
pub mod Decides
use Prim.Native.Nat.{ℕ}
use Prim.Native.Char.{code}
use Prim.Native.String.{String}
use mathlib.Core.Path.{◌≡◌, refl}
use mathlib.Core.Bool.{Bool, true, false, not, ◌&&◌, ◌||◌}
use mathlib.Core.Option.{Option, none, some}
use mathlib.Core.List.{List, [], ◌∷◌}
use governed_mcp_server.Common.Tests.{eqb, leb, if◌then◌else◌}
use governed_mcp_server.Common.Lists.{length}

abbrev pub codes : String → List ℕ
codes String.[] = []
codes (String.◌∷◌ c s) = code c ∷ codes s

-- `len(s)`
abbrev pub text_length : String → ℕ
text_length s = length (codes s)

pub data Item : Type 0 where
  star any_one : Item
  literal : ℕ → Item
  class : (negated : Bool) (spans : List (ℕ × ℕ)) → Item

-- The text up to the next `]`, and what follows it.
to_bracket : List ℕ → Option (List ℕ × List ℕ)
to_bracket [] = none
to_bracket (c ∷ s) =
    let rest = to_bracket s in
    if eqb c b']'
    then some ([], s)
    else elim rest [ none ↦ none | some (body, after) ↦ some (c ∷ body, after) ]

-- A `]` that stands first belongs to the set.
abbrev body_of : List ℕ → Option (List ℕ × List ℕ)
body_of [] = none
body_of (c ∷ s) =
    if eqb c b']'
    then elim (to_bracket s) [ none ↦ none | some (body, after) ↦ some (c ∷ body, after) ]
    else to_bracket (c ∷ s)

-- A hyphen between two characters makes a range; an empty range matches nothing.
spans_of : List ℕ → List (ℕ × ℕ)
spans_of [] = []
spans_of (a ∷ d ∷ b ∷ s) =
    let range = (a, b) ∷ spans_of s in
    let single = (a, a) ∷ spans_of (d ∷ b ∷ s) in if eqb d b'-' then range else single
spans_of (a ∷ s) = (a, a) ∷ spans_of s

abbrev bracket_item : Bool → Option (List ℕ × List ℕ) → Option (Item × List ℕ)
bracket_item negated none = none
bracket_item negated (some (body, after)) = some (class negated (spans_of body), after)

-- A set after `[`; none if no `]` closes it.
pub bracket : List ℕ → Option (Item × List ℕ)
bracket [] = none
bracket (c ∷ s) =
    if eqb c b'!' then bracket_item true (body_of s) else bracket_item false (body_of (c ∷ s))

-- `fnmatch.translate`; the fuel is the pattern's length, and each round takes a character
pub translate_from : ℕ → List ℕ → List Item
translate_from ℕ.zero s = []
translate_from (ℕ.suc f) [] = []
translate_from (ℕ.suc f) (c ∷ s) =
    let plain = translate_from f s in
    elim (eqb c b'[') [
      | true ↦ elim (bracket s) [
        | none ↦ literal c ∷ plain
        | some (item, after) ↦ item ∷ translate_from f after
      ]
      | false ↦
          if eqb c b'*'
          then star ∷ plain
          else if eqb c b'?'
          then any_one ∷ plain
          else literal c ∷ plain
    ]

pub translate : String → List Item
unfolding translate_from bracket to_bracket spans_of
translate pattern = translate_from (text_length pattern) (codes pattern)

pub in_spans : List (ℕ × ℕ) → ℕ → Bool
in_spans [] c = false
in_spans ((a, b) ∷ spans) c = leb a c && leb c b || in_spans spans c

-- one character against an item that is no star
abbrev fits : Item → ℕ → Bool
fits star c = false
fits any_one c = true
fits (literal d) c = eqb d c
fits (class negated spans) c = if negated then not (in_spans spans c) else in_spans spans c

some_suffix : (List ℕ → Bool) → List ℕ → Bool
some_suffix p [] = p []
some_suffix p (c ∷ s) = p (c ∷ s) || some_suffix p s

pub matches : List Item → List ℕ → Bool
matches [] [] = true
matches [] (_ ∷ _) = false
matches (star ∷ pattern) s = some_suffix (matches pattern) s
matches (item ∷ pattern) [] = false
matches (item ∷ pattern) (c ∷ s) = fits item c && matches pattern s

unfoldable pub fnmatchcase : String → String → Bool
unfolding translate matches in_spans some_suffix
fnmatchcase name pattern = matches (translate pattern) (codes name)

fnmatchcase_runs :
    (fnmatchcase "shipment://eu/7" "shipment://eu/*" ≡ true)
    × (fnmatchcase "shipment:/" "shipment://*" ≡ false)
    × (fnmatchcase "b-" "[!a]?" ≡ true)
    × (fnmatchcase "m[" "[a-l]?" ≡ false)
    × (fnmatchcase "[x" "[x" ≡ true)
unfolding fnmatchcase
fnmatchcase_runs = (refl, refl, refl, refl, refl)
