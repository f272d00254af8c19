-- ===== src/Common/Order/Unique.antt =====
-- A set of texts has one ascending list.
use governed_mcp_server.Common.{
  ◌≡◌, refl, sym, ap₂, subst, String, true, false, List, [], ◌∷◌, eq_iff, arith, inl, inr,
  Bool-cases,
}
use governed_mcp_server.Common.Order.{
  str_ltb, str_ltb_irrefl, str_ltb_trans, contains, sorted_set, Above, IsAscending,
  sorted_set-IsAscending, contains-sorted_set,
}

str_ltb_of_contains :
    (x y : String) (xs : List String) → Above x xs → contains xs y ≡ true → str_ltb x y ≡ true
str_ltb_of_contains x y [] a e = cc
str_ltb_of_contains x y (z ∷ xs) (p, a) e = ground (arith, eq_iff y z, str_ltb_of_contains x y xs a)

not_contains_of_Above : (x : String) (xs : List String) → Above x xs → contains xs x ≡ false
not_contains_of_Above x xs a = elim (Bool-cases (contains xs x)) [
  | inl found ↦ cc (str_ltb_of_contains x x xs a found, str_ltb_irrefl x)
  | inr absent ↦ absent
]

abbrev HaveSame : List String → List String → Type 0
HaveSame xs ys = (r : String) → contains xs r ≡ contains ys r

heads-eq :
    (x y : String) (xs ys : List String)
    → Above x xs
    → Above y ys
    → HaveSame (x ∷ xs) (y ∷ ys)
    → x ≡ y
heads-eq x y xs ys a b h = ground (
  arith,
  h x,
  h y,
  eq_iff x x,
  eq_iff y y,
  eq_iff x y,
  eq_iff y x,
  str_ltb_of_contains x y xs a,
  str_ltb_of_contains y x ys b,
  str_ltb_trans x y x,
  str_ltb_irrefl x,
)

tails-same :
    (x : String) (xs ys : List String)
    → Above x xs
    → Above x ys
    → HaveSame (x ∷ xs) (x ∷ ys)
    → HaveSame xs ys
tails-same x xs ys a b h r =
    ground (arith, h r, eq_iff r x, not_contains_of_Above x xs a, not_contains_of_Above x ys b)

ascending_unique :
    (xs ys : List String) → IsAscending xs → IsAscending ys → HaveSame xs ys → xs ≡ ys
ascending_unique [] [] p q h = refl
ascending_unique [] (y ∷ ys) p q h = ground (arith, h y, eq_iff y y)
ascending_unique (x ∷ xs) [] p q h = ground (arith, h x, eq_iff x x)
ascending_unique (x ∷ xs) (y ∷ ys) (a, p) (b, q) h =
    let same : x ≡ y = heads-eq x y xs ys a b h in
    ap₂ ◌∷◌ same (
      ascending_unique xs ys p q (
        tails-same x xs ys a (subst (λ z. Above z ys) (sym same) b)
          (subst (λ z. HaveSame (x ∷ xs) (z ∷ ys)) (sym same) h)))

-- `sorted(set(xs))` depends on the set alone.
pub sorted_set_ext : (xs ys : List String) → HaveSame xs ys → sorted_set xs ≡ sorted_set ys
sorted_set_ext xs ys h =
    ascending_unique (sorted_set xs) (sorted_set ys) (sorted_set-IsAscending xs)
      (sorted_set-IsAscending ys)
      (λ r. rw (contains-sorted_set xs r, contains-sorted_set ys r) (h r))
