-- ===== src/Common/Double/Rounding.antt =====
-- How far rounding moves a number, and that the fuel of `scale_from` is enough.
use Prim.Native.Nat.{ℕ, zero, suc, ◌+◌, ◌*◌, ◌/◌, ◌%◌, ◌^◌, ◌≤◌, ◌<◌}
use mathlib.Core.Path.{◌≡◌, refl, sym, ap, subst}
use mathlib.Core.Bool.{true, false, ◌&&◌, ◌||◌}
use mathlib.Core.Logic.{inl, inr}
use native.Mathlib.Omega.{arith}
use native.Mathlib.Nat.{
  mod-add-div', le-div_iff_mul-le, div-le_of_le-mul, two-pow-succ, mul-le-mul_right,
}
use governed_mcp_server.Common.Tests.{ltb, eqb, Bool-cases}
use governed_mcp_server.Common.Double.{nearest_integer, nearest_at, scale_from, nearest}

quotient-le : (n d : ℕ) → n / d ≤ nearest_integer n d
unfolding nearest_integer
quotient-le n d =
    elim (Bool-cases (ltb d (2 * (n % d)) || eqb d (2 * (n % d)) && eqb (n / d % 2) 1)) [
      | inl up ↦ rw up (omega arith)
      | inr down ↦ rw down (omega arith)
    ]

-- A whole number below n / d is not above its rounding.
pub le-nearest_integer : (m n d : ℕ) → zero < d → m * d ≤ n → m ≤ nearest_integer n d
le-nearest_integer m n d positive h =
    let below = le-div_iff_mul-le {x = m} {y = n} positive in
    let least = below.1 h in let rounds = quotient-le n d in omega (arith, least, rounds)

-- Where n / d is a whole number, it stays.
exact : (n d : ℕ) → zero < d → n % d ≡ 0 → nearest_integer n d ≡ n / d
unfolding nearest_integer
exact n d positive h = rw h (ground (arith, positive))

nearest_integer-suc : (n d : ℕ) → nearest_integer n d ≤ n / d + 1
unfolding nearest_integer
nearest_integer-suc n d =
    elim (Bool-cases (ltb d (2 * (n % d)) || eqb d (2 * (n % d)) && eqb (n / d % 2) 1)) [
      | inl up ↦ rw up (omega arith)
      | inr down ↦ rw down (omega arith)
    ]

no_rest : (m n d q r : ℕ) → r + q * d ≡ n → n ≤ m * d → q ≡ m → r ≡ 0
no_rest m n d q r parts h same = let parts' = rw same at parts in omega (arith, parts', h)

-- A whole number above n / d is not below its rounding.
pub nearest_integer-le : (m n d : ℕ) → zero < d → n ≤ m * d → nearest_integer n d ≤ m
nearest_integer-le m n d positive h =
    let least : n / d ≤ m = div-le_of_le-mul d (omega (arith, h)) in
    let up = nearest_integer-suc n d in
    elim (Bool-cases (eqb (n / d) m)) [
      | inl same ↦
          let q : n / d ≡ m = ground arith in
          let stays = exact n d positive (no_rest m n d (n / d) (n % d) (mod-add-div' n d) h q) in
          omega (arith, stays, q)
      | inr other ↦
          let smaller : n / d < m = ground (arith, least, other) in omega (arith, up, smaller)
    ]

scale_from-none : (n d : ℕ) → scale_from 0 n d ≡ 0
unfolding scale_from
scale_from-none n d = refl

scale_from-small :
    (f n d : ℕ) → ltb n (d * 2 ^ 52) ≡ true → scale_from (suc f) n d ≡ suc (scale_from f (2 * n) d)
unfolding scale_from
scale_from-small f n d small = rw (scale_from, small) refl

scale_from-large : (f n d : ℕ) → ltb n (d * 2 ^ 52) ≡ false → scale_from (suc f) n d ≡ 0
unfolding scale_from
scale_from-large f n d large = rw (scale_from, large) refl

doubled : (n j : ℕ) → n * 2 ^ suc j ≡ 2 * n * 2 ^ j
doubled n j = omega (arith, ap (λ (t : ℕ). n * t) (two-pow-succ j))

-- The scale k is no larger than j, and n / d has 53 bits before the point at it.
abbrev pub IsScale : (n d j k : ℕ) → Type 0
IsScale n d j k = (d * 2 ^ 52 ≤ n * 2 ^ k) × (k ≤ j)

-- The scale that is found is one at which n / d has 53 bits before the point, if there is one that
-- the fuel reaches, and no larger than it.
pub scale_from-IsScale :
    (f n d j : ℕ) → j ≤ f → d * 2 ^ 52 ≤ n * 2 ^ j → IsScale n d j (scale_from f n d)
scale_from-IsScale zero n d zero short h =
    subst (IsScale n d 0) (sym (scale_from-none n d)) (h, omega arith)
scale_from-IsScale zero n d (suc j) short h = absurd (omega arith)
scale_from-IsScale (suc f) n d zero short h =
    let large : ltb n (d * 2 ^ 52) ≡ false = ground (arith, h) in
    subst (IsScale n d 0) (sym (scale_from-large f n d large)) (h, omega arith)
scale_from-IsScale (suc f) n d (suc j) short h = elim (Bool-cases (ltb n (d * 2 ^ 52))) [
  | inl small ↦
      let (enough, least) =
        scale_from-IsScale f (2 * n) d j (omega arith)
          (subst (λ t. d * 2 ^ 52 ≤ t) (doubled n j) h) in
      let k = scale_from f (2 * n) d in
      subst (IsScale n d (suc j)) (sym (scale_from-small f n d small))
        (subst (λ t. d * 2 ^ 52 ≤ t) (sym (doubled n k)) enough, omega (arith, least))
  | inr large ↦
      subst (IsScale n d (suc j)) (sym (scale_from-large f n d large))
        (ground (arith, large), omega arith)
]

-- A positive number that has 53 bits before the point at some scale of a float is rounded at the
-- least such scale.
pub nearest-at : (n d : ℕ) → zero < n → nearest n d ≡ nearest_at (scale_from 1100 n d) n d
unfolding nearest
nearest-at n d positive =
    let other : eqb n 0 ≡ false = ground (arith, positive) in rw (nearest, other) refl

scaled-le : (m n d p : ℕ) → n ≤ m * d → n * p ≤ m * p * d
scaled-le m n d p h = let scaled = mul-le-mul_right p h in omega (arith, scaled)

-- The rounding of a number that is no larger than a whole number is no larger either.
pub nearest-le :
    (m n d : ℕ) → zero < d → n ≤ m * d → (nearest n d).significand ≤ m * 2 ^ (nearest n d).scale
unfolding nearest
nearest-le m zero d positive h = omega arith
nearest-le m (suc n) d positive h =
    let k = scale_from 1100 (suc n) d in
    subst (λ x. x.significand ≤ m * 2 ^ x.scale) (sym (nearest-at (suc n) d (omega arith)))
      (nearest_integer-le (m * 2 ^ k) (suc n * 2 ^ k) d positive (scaled-le m (suc n) d (2 ^ k) h))
