-- ===== src/Server/Lateness.antt =====
-- The float that `assess_shipment_delay` computes for a lateness is above zero exactly for what is
-- later than a day, down to the microsecond.
use governed_mcp_server.Common.{
  ◌≡◌, refl, sym, ap, subst, ◌∙◌, ℕ, ◌+◌, ◌-◌, ◌*◌, ◌≤◌, ◌<◌, Bool, true, false, not, List, [], ◌∷◌,
  map, keep, arith, ◌==◌, ltb, leb, ◌&&◌, Bool-cases, inl, inr,
}
use Prim.Native.Nat.{◌^◌}
use native.Mathlib.Nat.{one-le-pow, pow-le-pow_right, mul-le-mul_right}
use governed_mcp_server.Common.Double.{
  Double, nearest_integer, nearest_at, scale_from, nearest, over, exceeds, minus,
}
use governed_mcp_server.Common.Double.Rounding.{
  IsScale, scale_from-IsScale, nearest-at, nearest-le, le-nearest_integer,
}
use governed_mcp_server.Common.Dict.{Dict}
use governed_mcp_server.Common.Value.{pos}
use governed_mcp_server.Server.Model.{Shipment}
use governed_mcp_server.Server.Tools.{
  list_delayed_shipments, delayed_shipment, values, hours_late, is_late,
}

-- a duration in microseconds, as hours
abbrev hours_of : (t : ℕ) → Double
hours_of t = over (nearest t 1000000) 3600

power_positive : (k : ℕ) → 1 ≤ 2 ^ k
power_positive k = one-le-pow k 2 (omega arith)

power_monotone : {i j : ℕ} → i ≤ j → 2 ^ i ≤ 2 ^ j
power_monotone h = pow-le-pow_right {n = 2} (omega arith) h

within_a_day : (t : ℕ) → t ≤ 86400000000 → exceeds (hours_of t) 24 ≡ false
within_a_day t h =
    let x = nearest t 1000000 in
    let seconds = nearest-le 86400 t 1000000 (omega arith) (omega (arith, h)) in
    let p = power_positive x.scale in
    let hours =
      nearest-le 24 x.significand (3600 * 2 ^ x.scale) (omega (arith, p))
        (omega (arith, seconds)) in
    ground (arith, hours)

module _ (t : ℕ) (late : 86400000000 < t) where
  abbrev k1 : ℕ
  k1 = scale_from 1100 t 1000000

  abbrev x : ℕ
  x = nearest_integer (t * 2 ^ k1) 1000000

  IsScale-seconds : IsScale t 1000000 36 k1
  IsScale-seconds = scale_from-IsScale 1100 t 1000000 36 (omega arith) (omega (arith, late))

  seconds_above : (86400 * 2 ^ k1 + 1) * 1000000 ≤ t * 2 ^ k1
  seconds_above =
      let (enough, least) = IsScale-seconds in
      elim (Bool-cases (leb 20 k1)) [
        | inl fine ↦
            let fine' : 20 ≤ k1 = ground (arith, fine) in
            let power = power_monotone fine' in
            let scaled = mul-le-mul_right (2 ^ k1) late in omega (arith, power, scaled)
        | inr coarse ↦
            let coarse' : k1 ≤ 19 = ground (arith, coarse) in
            let power = power_monotone coarse' in omega (arith, power, enough)
      ]

  seconds_rounded : 86400 * 2 ^ k1 + 1 ≤ x
  seconds_rounded =
      le-nearest_integer (86400 * 2 ^ k1 + 1) (t * 2 ^ k1) 1000000 (omega arith) seconds_above

  abbrev k2 : ℕ
  k2 = scale_from 1100 x (3600 * 2 ^ k1)

  abbrev y : ℕ
  y = nearest_integer (x * 2 ^ k2) (3600 * 2 ^ k1)

  IsScale-hours : IsScale x (3600 * 2 ^ k1) 48 k2
  IsScale-hours =
      scale_from-IsScale 1100 x (3600 * 2 ^ k1) 48 (omega arith) (omega (arith, seconds_rounded))

  hours_above : (24 * 2 ^ k2 + 1) * (3600 * 2 ^ k1) ≤ x * 2 ^ k2
  hours_above =
      let (_, least1) = IsScale-seconds in
      let (enough, least) = IsScale-hours in
      let p = power_monotone least1 in
      elim (Bool-cases (leb 48 k2)) [
        | inl fine ↦
            let fine' : 48 ≤ k2 = ground (arith, fine) in
            let power = power_monotone fine' in
            let scaled = mul-le-mul_right (2 ^ k2) seconds_rounded in
            omega (arith, power, scaled, p)
        | inr coarse ↦
            let coarse' : k2 ≤ 47 = ground (arith, coarse) in
            let power = power_monotone coarse' in
            let room : 24 * 2 ^ k2 + 1 ≤ 2 ^ 52 = omega (arith, power) in
            let scaled = mul-le-mul_right (3600 * 2 ^ k1) room in omega (arith, scaled, enough)
      ]

  hours_rounded : 24 * 2 ^ k2 + 1 ≤ y
  hours_rounded =
      let p = power_positive k1 in
      le-nearest_integer (24 * 2 ^ k2 + 1) (x * 2 ^ k2) (3600 * 2 ^ k1) (omega (arith, p))
        hours_above

  hours_found : hours_of t ≡ nearest_at k2 x (3600 * 2 ^ k1)
  hours_found =
      ap (λ s. over s 3600) (nearest-at t 1000000 (omega (arith, late)))
      ∙ nearest-at x (3600 * 2 ^ k1) (omega (arith, seconds_rounded))

  after_a_day : exceeds (hours_of t) 24 ≡ true
  after_a_day = subst (λ h. exceeds h 24 ≡ true) (sym hours_found) (ground (arith, hours_rounded))

  rest_rounded : (n : ℕ) → 1 ≤ n → 1 ≤ (nearest n (2 ^ k2)).significand
  rest_rounded n some_left =
      let (_, least) = IsScale-hours in
      let p = power_positive k2 in
      let power = power_monotone least in
      let scale = scale_from 1100 n (2 ^ k2) in
      let (enough, _) =
        scale_from-IsScale 1100 n (2 ^ k2) 100 (omega arith) (omega (arith, power, some_left)) in
      subst (λ r. 1 ≤ r.significand) (sym (nearest-at n (2 ^ k2) (omega (arith, some_left))))
        (le-nearest_integer 1 (n * 2 ^ scale) (2 ^ k2) (omega (arith, p)) (omega (arith, enough)))

  left_over : 1 ≤ (minus (hours_of t) 24).significand
  left_over =
      subst (λ h. 1 ≤ (minus h 24).significand) (sym hours_found)
        (rest_rounded (y - 24 * 2 ^ k2) (omega (arith, hours_rounded)))

-- above 0.0
abbrev pub is_positive : Double → Bool
is_positive x = ltb 0 x.significand

is_late-hours_late :
    (now : ℕ) (s : Shipment)
    → is_late now (pos 24) s ≡ (not (s.status == "delivered") && is_positive (hours_late now s))
is_late-hours_late now s =
    let t = s.eta - now in
    elim (Bool-cases (ltb (now + 86400000000) s.eta)) [
      | inl after ↦
          let late : 86400000000 < t = ground (arith, after) in
          let positive : is_positive (minus (hours_of t) 24) ≡ true =
            ground (arith, left_over t late) in
          rw (after, after_a_day t late, positive) refl
      | inr before ↦
          let early : t ≤ 86400000000 = ground (arith, before) in
          rw (before, within_a_day t early) refl
    ]

keep_ext {ℓ} :
    {A : Type ℓ} (p q : A → Bool) (h : (x : A) → p x ≡ q x) (xs : List A) → keep p xs ≡ keep q xs
keep_ext p q h [] = refl
keep_ext p q h (x ∷ xs) = ground (arith, h x, keep_ext p q h xs)

-- With its default threshold, `list_delayed_shipments` lists exactly the shipments that are not
-- delivered and for which `assess_shipment_delay` computes hours of lateness above 0.0, before it
-- rounds them to a tenth, in their order.
pub list_delayed_shipments-hours_late :
    (now : ℕ) (shipments : Dict Shipment)
    → list_delayed_shipments now shipments (pos 24)
      ≡ map delayed_shipment (
          keep
            (λ s. not (s.status == "delivered") && is_positive (hours_late now s))
            (values shipments))
unfolding list_delayed_shipments
list_delayed_shipments-hours_late now shipments = ap (map delayed_shipment) (
    keep_ext (is_late now (pos 24))
      (λ s. not (s.status == "delivered") && is_positive (hours_late now s))
      (is_late-hours_late now) (values shipments))
