-- ===== src/Common/Glob/Prefix.antt =====
-- Patterns that are a plain text and a star.
use Prim.Native.Nat.{ℕ}
use Prim.Native.Char.{code}
use Prim.Native.String.{String}
use text.Mathlib.TextLemmas.{cons-append}
use mathlib.Core.Path.{◌≡◌, refl, ap, ◌∙◌}
use mathlib.Core.Bool.{Bool, true, not, ◌&&◌}
use mathlib.Core.List.{List, [], ◌∷◌}
use native.Mathlib.Omega.{arith}
use governed_mcp_server.Common.Tests.{eqb}
use governed_mcp_server.Common.Text.{◌+++◌, starts_with}
use governed_mcp_server.Common.Glob.{
  Item, star, literal, codes, translate, translate_from, matches, some_suffix, fnmatchcase,
}

-- no character that a pattern reads in a special way
abbrev pub is_literal : String → Bool
is_literal String.[] = true
is_literal (String.◌∷◌ c s) =
    not (eqb (code c) b'[')
    && (not (eqb (code c) b'*') && (not (eqb (code c) b'?') && is_literal s))

abbrev literals : String → List Item
literals String.[] = star ∷ []
literals (String.◌∷◌ c s) = literal (code c) ∷ literals s

translate-literals : (p : String) → is_literal p ≡ true → translate (p +++ "*") ≡ literals p
unfolding translate translate_from
translate-literals String.[] h = refl
translate-literals (String.◌∷◌ c p) h = rw cons-append (ground (arith, translate-literals p))

any_suffix : (s : List ℕ) → some_suffix (matches []) s ≡ true
unfolding some_suffix matches
any_suffix [] = refl
any_suffix (c ∷ s) = any_suffix s

matches-literals : (p s : String) → matches (literals p) (codes s) ≡ starts_with s p
unfolding matches starts_with
matches-literals String.[] s = any_suffix (codes s)
matches-literals (String.◌∷◌ c p) String.[] = refl
matches-literals (String.◌∷◌ c p) (String.◌∷◌ d s) = ground (arith, matches-literals p s)

pub prefix_star : (p s : String) → is_literal p ≡ true → fnmatchcase s (p +++ "*") ≡ starts_with s p
unfolding fnmatchcase
prefix_star p s h =
    ap (λ items. matches items (codes s)) (translate-literals p h) ∙ matches-literals p s
