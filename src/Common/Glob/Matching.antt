-- ===== src/Common/Glob/Matching.antt =====
-- What it means for a text to match a pattern: how the pattern is read, with no fuel, and which
-- characters a star takes, with no search. `fnmatchcase` decides it.
use Prim.Native.Nat.{ℕ, suc, ◌≤◌}
use mathlib.Core.Path.{◌≡◌, refl}
use mathlib.Core.Bool.{Bool, true, false}
use mathlib.Core.Logic.{◌≢◌, inl, inr}
use mathlib.Core.Option.{Option, none, some}
use mathlib.Core.List.{List, [], ◌∷◌}
use native.Mathlib.Omega.{arith}
use governed_mcp_server.Common.Tests.{eqb, Bool-cases, Option-cases}
use governed_mcp_server.Common.Lists.{length}
use governed_mcp_server.Common.Glob.{
  Item, star, any_one, literal, class, to_bracket, body_of, spans_of, bracket_item, bracket,
  translate_from, fits,
}

-- How a pattern that starts with `c` is read: its first item, and the pattern after it. A bracket
-- that no bracket closes is a character like any other.
pub data Read (c : ℕ) (p : List ℕ) : Item → List ℕ → Type 0 where
  any_text : c ≡ b'*' → Read c p star p
  any_character : c ≡ b'?' → Read c p any_one p
  a_set :
      {negated : Bool} {spans : List (ℕ × ℕ)} {after : List ℕ}
      → c ≡ b'['
      → bracket p ≡ some (class negated spans, after)
      → Read c p (class negated spans) after
  itself : c ≢ b'*' → c ≢ b'?' → (c ≡ b'[' → bracket p ≡ none) → Read c p (literal c) p

-- A text matches a pattern, each as code points.
pub data Matches : List ℕ → List ℕ → Type 0 where
  ended : Matches [] []
  skip : {c : ℕ} {p after s : List ℕ} → Read c p star after → Matches after s → Matches (c ∷ p) s
  take :
      {c d : ℕ} {p after s : List ℕ}
      → Read c p star after
      → Matches (c ∷ p) s
      → Matches (c ∷ p) (d ∷ s)
  fit :
      {c d : ℕ} {p after s : List ℕ} {item : Item}
      → Read c p item after
      → fits item d ≡ true
      → Matches after s
      → Matches (c ∷ p) (d ∷ s)

pub translate-Read :
    {c : ℕ} {p after : List ℕ} {item : Item} (f : ℕ)
    → Read c p item after
    → translate_from (suc f) (c ∷ p) ≡ item ∷ translate_from f after
unfolding translate_from
translate-Read f (any_text e) = ground arith
translate-Read f (any_character e) = ground arith
translate-Read f (a_set e found) = ground arith
translate-Read f (itself no_star no_any no_set) = ground arith

to_bracket-shorter :
    (s body after : List ℕ) → to_bracket s ≡ some (body, after) → length after ≤ length s
unfolding to_bracket
to_bracket-shorter [] body after e = cc
to_bracket-shorter (c ∷ s) body after e = elim (Option-cases (to_bracket s)) [
  | inl missing ↦ ground (arith, e, missing)
  | inr ((b, a), found) ↦
      let shorter = to_bracket-shorter s b a found in ground (arith, e, found, shorter)
]

body_of-shorter : (s body after : List ℕ) → body_of s ≡ some (body, after) → length after ≤ length s
body_of-shorter [] body after e = cc
body_of-shorter (c ∷ s) body after e = elim (Bool-cases (eqb c b']')) [
  | inl first ↦ elim (Option-cases (to_bracket s)) [
    | inl missing ↦ ground (arith, e, first, missing)
    | inr ((b, a), found) ↦
        let shorter = to_bracket-shorter s b a found in ground (arith, e, first, found, shorter)
  ]
  | inr other ↦ to_bracket-shorter (c ∷ s) body after (rw other at e)
]

-- What a bracket that is closed is read as.
record IsClosed (s : List ℕ) (item : Item) (after : List ℕ) : Type 0 where
  negated : Bool
  spans : List (ℕ × ℕ)
  is_class : item ≡ class negated spans
  shorter : length after ≤ length s

bracket_item-IsClosed :
    (negated : Bool) (s : List ℕ) (found : Option (List ℕ × List ℕ))
    → body_of s ≡ found
    → (item : Item) (after : List ℕ) → bracket_item negated found ≡ some (item, after)
    → IsClosed s item after
bracket_item-IsClosed negated s none b item after e = cc
bracket_item-IsClosed negated s (some (body, rest)) b item after e = record {
  negated = negated;
  spans = spans_of body;
  is_class = cc;
  shorter = let shorter = body_of-shorter s body rest b in ground (arith, e, shorter);
}

bracket-IsClosed :
    (s : List ℕ) (item : Item) (after : List ℕ)
    → bracket s ≡ some (item, after)
    → IsClosed s item after
unfolding bracket
bracket-IsClosed [] item after e = cc
bracket-IsClosed (c ∷ s) item after e = elim (Bool-cases (eqb c b'!')) [
  | inl negates ↦
      let set = bracket_item-IsClosed true s (body_of s) refl item after (rw negates at e) in
      let shorter = set.shorter in
      record {
        negated = set.negated;
        spans = set.spans;
        is_class = set.is_class;
        shorter = omega (arith, shorter);
      }
  | inr plain ↦
      bracket_item-IsClosed false (c ∷ s) (body_of (c ∷ s)) refl item after (rw plain at e)
]

-- Every pattern is read in one of these ways, and what follows is no longer.
pub record IsRead (c : ℕ) (p : List ℕ) : Type 0 where
  pub item : Item
  pub after : List ℕ
  pub reads : Read c p item after
  pub shorter : length after ≤ length p

IsRead-set : (c : ℕ) (p : List ℕ) → c ≡ b'[' → IsRead c p
IsRead-set c p e = elim (Option-cases (bracket p)) [
  | inl unclosed ↦ record {
    item = literal c;
    after = p;
    reads = itself (λ star_sign. omega arith) (λ any_sign. omega arith) (λ _. unclosed);
    shorter = omega arith;
  }
  | inr ((item, after), found) ↦
      let set = bracket-IsClosed p item after found in
      record {
        item = class set.negated set.spans;
        after = after;
        reads = a_set e (cc (found, set.is_class));
        shorter = set.shorter;
      }
]

pub IsRead-first : (c : ℕ) (p : List ℕ) → IsRead c p
IsRead-first c p = elim (Bool-cases (eqb c b'[')) [
  | inl opens ↦ IsRead-set c p (ground arith)
  | inr no_set ↦ elim (Bool-cases (eqb c b'*')) [
    | inl sign ↦ record {
      item = star;
      after = p;
      reads = any_text (ground arith);
      shorter = omega arith;
    }
    | inr no_star ↦ elim (Bool-cases (eqb c b'?')) [
      | inl sign ↦ record {
        item = any_one;
        after = p;
        reads = any_character (ground arith);
        shorter = omega arith;
      }
      | inr no_any ↦ record {
        item = literal c;
        after = p;
        reads = itself (ground arith) (ground arith) (ground arith);
        shorter = omega arith;
      }
    ]
  ]
]

pub Read-shorter :
    {c : ℕ} {p after : List ℕ} {item : Item} → Read c p item after → length after ≤ length p
Read-shorter (any_text e) = omega arith
Read-shorter (any_character e) = omega arith
Read-shorter {p} {after} (a_set e found) = (bracket-IsClosed p _ after found).shorter
Read-shorter (itself no_star no_any no_set) = omega arith
