-- ===== src/Common/Glob/Decides.antt =====
-- `fnmatchcase` answers true exactly on the texts that match, and its fuel is enough.
use Prim.Native.Nat.{ℕ, zero, suc, ◌≤◌}
use Prim.Native.String.{String}
use mathlib.Core.Path.{◌≡◌, refl, sym, ap, ◌∙◌}
use mathlib.Core.Bool.{Bool, true}
use mathlib.Core.Logic.{◌↔◌, inl, inr}
use mathlib.Core.List.{List, [], ◌∷◌}
use native.Mathlib.Omega.{arith}
use governed_mcp_server.Common.Tests.{Bool-cases}
use governed_mcp_server.Common.Lists.{length}
use governed_mcp_server.Common.Glob.{
  Item, star, any_one, literal, class, codes, text_length, translate_from, translate, fits,
  some_suffix, matches, fnmatchcase,
}
use governed_mcp_server.Common.Glob.Matching.{
  Read, Matches, ended, skip, take, fit, translate-Read, IsRead-first, Read-shorter,
}

-- the matcher on a pattern that is read with some fuel
abbrev accepts : ℕ → List ℕ → List ℕ → Bool
accepts f p s = matches (translate_from f p) s

star_sound :
    (f : ℕ) {c : ℕ} {p after : List ℕ} (s : List ℕ)
    → Read c p star after
    → ((s : List ℕ) → accepts f after s ≡ true → Matches after s)
    → some_suffix (accepts f after) s ≡ true
    → Matches (c ∷ p) s
unfolding some_suffix
star_sound f [] r ih e = skip r (ih [] e)
star_sound f {after} (d ∷ s) r ih e = elim (Bool-cases (accepts f after (d ∷ s))) [
  | inl here ↦ skip r (ih (d ∷ s) here)
  | inr later ↦ take r (star_sound f s r ih (rw later at e))
]

first_sound :
    (f : ℕ) {c : ℕ} {p after : List ℕ} (item : Item) (s : List ℕ)
    → Read c p item after
    → ((s : List ℕ) → accepts f after s ≡ true → Matches after s)
    → matches (item ∷ translate_from f after) s ≡ true
    → Matches (c ∷ p) s
unfolding matches
first_sound f star s r ih e = star_sound f s r ih e
first_sound f any_one [] r ih e = cc
first_sound f any_one (d ∷ s) r ih e = fit r refl (ih s e)
first_sound f (literal x) [] r ih e = cc
first_sound f (literal x) (d ∷ s) r ih e = fit r (ground (arith, e)) (ih s (ground (arith, e)))
first_sound f (class negated spans) [] r ih e = cc
first_sound f (class negated spans) (d ∷ s) r ih e =
    fit r (ground (arith, e)) (ih s (ground (arith, e)))

accepts_sound : (f : ℕ) (p s : List ℕ) → length p ≤ f → accepts f p s ≡ true → Matches p s
unfolding translate_from matches
accepts_sound zero [] [] short e = ended
accepts_sound zero [] (d ∷ s) short e = cc
accepts_sound zero (c ∷ p) s short e = absurd (omega arith)
accepts_sound (suc f) [] [] short e = ended
accepts_sound (suc f) [] (d ∷ s) short e = cc
accepts_sound (suc f) (c ∷ p) s short e =
    let first = IsRead-first c p in
    let shorter = first.shorter in
    let enough : length first.after ≤ f = omega (arith, shorter, short) in
    first_sound f first.item s first.reads (λ s' e'. accepts_sound f first.after s' enough e')
      (ap (λ items. matches items s) (sym (translate-Read f first.reads)) ∙ e)

some_suffix-here : (test : List ℕ → Bool) (s : List ℕ) → test s ≡ true → some_suffix test s ≡ true
unfolding some_suffix
some_suffix-here test [] e = e
some_suffix-here test (c ∷ s) e = rw e refl

some_suffix-later :
    (test : List ℕ → Bool) (c : ℕ) (s : List ℕ)
    → some_suffix test s ≡ true
    → some_suffix test (c ∷ s) ≡ true
unfolding some_suffix
some_suffix-later test c s e = ground (arith, e)

fit_complete :
    (item : Item) (items : List Item) (d : ℕ) (s : List ℕ)
    → fits item d ≡ true
    → matches items s ≡ true
    → matches (item ∷ items) (d ∷ s) ≡ true
unfolding matches
fit_complete star items d s e rest = cc
fit_complete any_one items d s e rest = rest
fit_complete (literal x) items d s e rest = rw (e, rest) refl
fit_complete (class negated spans) items d s e rest = ground (arith, e, rest)

accepts_complete : {p s : List ℕ} (f : ℕ) → length p ≤ f → Matches p s → accepts f p s ≡ true
unfolding translate_from matches
accepts_complete zero short ended = refl
accepts_complete (suc f) short ended = refl
accepts_complete zero short (skip r m) = absurd (omega arith)
accepts_complete zero short (take r m) = absurd (omega arith)
accepts_complete zero short (fit r e m) = absurd (omega arith)
accepts_complete {s} (suc f) short (skip {after} r m) =
    let shorter = Read-shorter r in
    rw (translate-Read f r)
      (some_suffix-here (accepts f after) s (accepts_complete f (omega (arith, shorter, short)) m))
accepts_complete (suc f) short (take {d} {after} {s} r m) =
    let later : matches (star ∷ translate_from f after) s ≡ true =
      ap (λ items. matches items s) (sym (translate-Read f r)) ∙ accepts_complete (suc f) short m in
    rw (translate-Read f r) (some_suffix-later (accepts f after) d s later)
accepts_complete (suc f) short (fit {d} {after} {s} {item} r e m) =
    let shorter = Read-shorter r in
    rw (translate-Read f r) (
      fit_complete item (translate_from f after) d s e
        (accepts_complete f (omega (arith, shorter, short)) m))

-- `fnmatchcase` answers true exactly if the text matches the pattern.
pub fnmatchcase_iff :
    (name pattern : String)
    → (fnmatchcase name pattern ≡ true) ↔ Matches (codes pattern) (codes name)
unfolding fnmatchcase translate
fnmatchcase_iff name pattern = (
  λ e. accepts_sound (text_length pattern) (codes pattern) (codes name) (omega arith) e,
  λ m. accepts_complete (text_length pattern) (omega arith) m,
)
