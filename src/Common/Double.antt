-- ===== src/Common/Double.antt =====
-- The floats of Python, IEEE 754's binary64, for values that are not negative and below 2^53.
pub mod Rounding
use Prim.Native.Nat.{ℕ, zero, suc, ◌+◌, ◌-◌, ◌*◌, ◌/◌, ◌%◌, ◌^◌}
use mathlib.Core.Path.{◌≡◌, refl}
use mathlib.Core.Bool.{Bool, true, false, ◌&&◌, ◌||◌}
use governed_mcp_server.Common.Tests.{ltb, eqb, if◌then◌else◌}

-- The value significand / 2 ^ scale; a significand has 53 bits, but for zero.
pub record Double : Type 0 where
  pub significand : ℕ
  pub scale : ℕ

abbrev pub zero_double : Double
zero_double = record { significand = 0; scale = 0 }

-- n / d as the nearest integer, and the even one of two
unfoldable pub nearest_integer : (n d : ℕ) → ℕ
nearest_integer n d =
    let q = n / d in
    let r = n % d in if ltb d (2 * r) || eqb d (2 * r) && eqb (q % 2) 1 then q + 1 else q

-- The least scale at which n / d has 53 bits before the point. The fuel is more than any scale of a
-- float.
unfoldable pub scale_from : ℕ → (n d : ℕ) → ℕ
scale_from zero n d = 0
scale_from (suc f) n d = elim (ltb n (d * 2 ^ 52)) [
  | true ↦ suc (scale_from f (2 * n) d)
  | false ↦ 0
]

abbrev pub nearest_at : (scale n d : ℕ) → Double
nearest_at scale n d = record { significand = nearest_integer (n * 2 ^ scale) d; scale = scale }

-- the float nearest to n / d, for d above zero
unfoldable pub nearest : (n d : ℕ) → Double
nearest n d = elim (eqb n 0) [ true ↦ zero_double | false ↦ nearest_at (scale_from 1100 n d) n d ]

-- `x / d`
abbrev pub over : Double → (d : ℕ) → Double
over x d = nearest x.significand (d * 2 ^ x.scale)

-- `x > n`
abbrev pub exceeds : Double → (n : ℕ) → Bool
exceeds x n = ltb (n * 2 ^ x.scale) x.significand

-- `x - n`, for n that is not above x
abbrev pub minus : Double → (n : ℕ) → Double
minus x n = nearest (x.significand - n * 2 ^ x.scale) (2 ^ x.scale)

-- `round(x, 1)`: the float nearest to the nearest tenth
abbrev pub round_tenth : Double → Double
round_tenth x = nearest (nearest_integer (10 * x.significand) (2 ^ x.scale)) 10

-- 0.1, and round(0.25, 1) == 0.2, round(0.35, 1) == 0.3
doubles_run :
    (nearest 1 10 ≡ record { significand = 7205759403792794; scale = 56 })
    × (round_tenth (nearest 1 4) ≡ nearest 2 10)
    × (round_tenth (nearest 35 100) ≡ nearest 3 10)
    × (round_tenth (nearest 45 100) ≡ nearest 5 10)
unfolding nearest nearest_integer scale_from
doubles_run = (refl, refl, refl, refl)
