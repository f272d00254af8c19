-- ===== src/Common/Order.antt =====
-- `sorted(set(names))`: distinct texts in the order of their code points.
pub mod Unique
use governed_mcp_server.Common.Tests.{ltb, if◌then◌else◌}
use governed_mcp_server.Common.Lists.{is_nil}
use Prim.Native.Char.{code}
use Prim.Native.String.{String}
use mathlib.Core.Path.{◌≡◌, refl, ap₂}
use mathlib.Core.Bool.{Bool, true, false, ◌||◌}
use mathlib.Core.List.{List, [], ◌∷◌}
use native.Mathlib.Omega.{arith}
use text.Mathlib.Text.{◌==◌}
use text.Mathlib.TextEquality.{eq_iff, Char-path}

-- `a < b` on texts
unfoldable pub str_ltb : String → String → Bool
str_ltb String.[] String.[] = false
str_ltb String.[] (String.◌∷◌ _ _) = true
str_ltb (String.◌∷◌ _ _) String.[] = false
str_ltb (String.◌∷◌ c s) (String.◌∷◌ d t) =
    let rest = str_ltb s t in
    if ltb (code c) (code d) then true else if ltb (code d) (code c) then false else rest

pub str_ltb_trans : (a b c : String) → str_ltb a b ≡ true → str_ltb b c ≡ true → str_ltb a c ≡ true
unfolding str_ltb
str_ltb_trans String.[] String.[] _ p q = cc
str_ltb_trans String.[] (String.◌∷◌ _ _) String.[] p q = cc
str_ltb_trans String.[] (String.◌∷◌ _ _) (String.◌∷◌ _ _) p q = refl
str_ltb_trans (String.◌∷◌ _ _) String.[] _ p q = cc
str_ltb_trans (String.◌∷◌ _ _) (String.◌∷◌ _ _) String.[] p q = cc
str_ltb_trans (String.◌∷◌ x s) (String.◌∷◌ y t) (String.◌∷◌ z u) p q =
    ground (arith, str_ltb_trans s t u)

-- Two texts neither of which comes first are one text.
pub str_ltb_antisym : (a b : String) → str_ltb a b ≡ false → str_ltb b a ≡ false → a ≡ b
unfolding str_ltb
str_ltb_antisym String.[] String.[] p q = refl
str_ltb_antisym String.[] (String.◌∷◌ _ _) p q = cc
str_ltb_antisym (String.◌∷◌ _ _) String.[] p q = cc
str_ltb_antisym (String.◌∷◌ x s) (String.◌∷◌ y t) p q =
    ap₂ String.◌∷◌ (Char-path x y (ground arith))
      (str_ltb_antisym s t (ground arith) (ground arith))

pub str_ltb_irrefl : (a : String) → str_ltb a a ≡ false
unfolding str_ltb
str_ltb_irrefl String.[] = refl
str_ltb_irrefl (String.◌∷◌ c s) = ground (arith, str_ltb_irrefl s)

-- `x in names`
abbrev pub contains : List String → String → Bool
contains [] x = false
contains (y ∷ ys) x = x == y || contains ys x

pub insert_name : String → List String → List String
insert_name x [] = x ∷ []
insert_name x (y ∷ ys) =
    let later = y ∷ insert_name x ys in
    if str_ltb x y then x ∷ y ∷ ys else if str_ltb y x then later else y ∷ ys

-- `sorted(set(names))`
unfoldable pub sorted_set : List String → List String
unfolding insert_name str_ltb
sorted_set [] = []
sorted_set (x ∷ xs) = insert_name x (sorted_set xs)

-- every text of the list comes after `x`
abbrev pub Above : String → List String → Type 0
Above x [] = Unit
Above x (y ∷ ys) = (str_ltb x y ≡ true) × Above x ys

abbrev pub IsAscending : List String → Type 0
IsAscending [] = Unit
IsAscending (x ∷ xs) = Above x xs × IsAscending xs

Above-insert_name :
    (x y : String) (ys : List String) → str_ltb x y ≡ true → Above x ys → Above x (insert_name y ys)
unfolding insert_name
Above-insert_name x y [] p a = (p, tt)
Above-insert_name x y (z ∷ ys) p (q, a) = ground (arith, Above-insert_name x y ys p a)

Above-trans : (x y : String) (ys : List String) → str_ltb x y ≡ true → Above y ys → Above x ys
Above-trans x y [] p a = tt
Above-trans x y (z ∷ ys) p (q, a) = (str_ltb_trans x y z p q, Above-trans x y ys p a)

insert_name-IsAscending :
    (x : String) (ys : List String) → IsAscending ys → IsAscending (insert_name x ys)
unfolding insert_name
insert_name-IsAscending x [] h = (tt, tt)
insert_name-IsAscending x (y ∷ ys) (a, h) =
    ground (arith, Above-trans x y ys, Above-insert_name y x ys, insert_name-IsAscending x ys h)

pub sorted_set-IsAscending : (xs : List String) → IsAscending (sorted_set xs)
unfolding sorted_set
sorted_set-IsAscending [] = tt
sorted_set-IsAscending (x ∷ xs) =
    insert_name-IsAscending x (sorted_set xs) (sorted_set-IsAscending xs)

contains-insert_name :
    (x y : String) (ys : List String) → contains (insert_name x ys) y ≡ (y == x || contains ys y)
unfolding insert_name
contains-insert_name x y [] = refl
contains-insert_name x y (z ∷ ys) =
    ground (arith, contains-insert_name x y ys, eq_iff y x, eq_iff y z, str_ltb_antisym x z)

-- Sorting neither adds nor drops a name.
pub contains-sorted_set :
    (xs : List String) (y : String) → contains (sorted_set xs) y ≡ contains xs y
unfolding sorted_set
contains-sorted_set [] y = refl
contains-sorted_set (x ∷ xs) y =
    ground (arith, contains-insert_name x y (sorted_set xs), contains-sorted_set xs y)

sorted_set_runs : sorted_set ("b" ∷ "a" ∷ "b" ∷ []) ≡ "a" ∷ "b" ∷ []
unfolding sorted_set
sorted_set_runs = refl

is_nil-insert_name : (x : String) (xs : List String) → is_nil (insert_name x xs) ≡ false
unfolding insert_name
is_nil-insert_name x [] = refl
is_nil-insert_name x (y ∷ ys) = ground arith

pub is_nil-sorted_set : (xs : List String) → is_nil (sorted_set xs) ≡ is_nil xs
unfolding sorted_set
is_nil-sorted_set [] = refl
is_nil-sorted_set (x ∷ xs) = is_nil-insert_name x (sorted_set xs)
