-- ===== src/ServiceNow/Mock/Bounds.antt =====
-- How much a search of the mock answers.
use governed_mcp_server.Common.{
  ◌≡◌, refl, ap, ℕ, zero, suc, ◌+◌, ◌-◌, ◌≤◌, String, Bool, Option, List, [], ◌∷◌, ◌++◌, keep, take,
  length, length-append, length-keep-le, arith, if◌then◌else◌, leb,
}
use governed_mcp_server.Common.Value.{ℤ, pos, negsuc}
use governed_mcp_server.ServiceNow.Model.{Incident, slice_to}
use governed_mcp_server.ServiceNow.Mock.Picked.{IsWanted, Picked, keep-Picked}
use governed_mcp_server.ServiceNow.Mock.{MockServiceNow, selects, search_incidents}

-- How many of `n` items `[:limit]` keeps: from a negative limit on, all but the last ones.
abbrev pub slice_length : ℤ → (n : ℕ) → ℕ
slice_length (pos k) n = if leb k n then k else n
slice_length (negsuc k) n = n - (k + 1)

module _ {ℓ} {A : Type ℓ} where
  drop : ℕ → List A → List A
  drop zero xs = xs
  drop (suc n) [] = []
  drop (suc n) (x ∷ xs) = drop n xs

  take-drop : (n : ℕ) (xs : List A) → take n xs ++ drop n xs ≡ xs
  unfolding drop
  take-drop zero xs = refl
  take-drop (suc n) [] = refl
  take-drop (suc n) (x ∷ xs) = ap (λ r. x ∷ r) (take-drop n xs)

  length-take :
      (n : ℕ) (xs : List A) → length (take n xs) ≡ (if leb n (length xs) then n else length xs)
  length-take zero xs = ground arith
  length-take (suc n) [] = ground arith
  length-take (suc n) (x ∷ xs) = ground (arith, length-take n xs)

  slice-prefix : (limit : ℤ) (xs : List A) → (rest : List A) × (slice_to limit xs ++ rest ≡ xs)
  slice-prefix (pos n) xs = (drop n xs, take-drop n xs)
  slice-prefix (negsuc n) xs = (drop (length xs - (n + 1)) xs, take-drop (length xs - (n + 1)) xs)

  length-slice :
      (limit : ℤ) (xs : List A) → length (slice_to limit xs) ≡ slice_length limit (length xs)
  length-slice (pos n) xs = length-take n xs
  length-slice (negsuc n) xs = ground (arith, length-take (length xs - (n + 1)) xs)

-- A search of the mock, with any limit, answers the first of the incidents that are asked for: of
-- the configuration item, if one is given, neither resolved nor closed, if only open ones are
-- asked for, and in the order of the store. They are as many as the limit says if there are so many,
-- and else all; a negative limit leaves out so many at the end. They are never more than the store
-- holds.
pub search_incidents_bounds :
    (configuration_item : Option String) (active_only : Bool) (limit : ℤ) (store : MockServiceNow)
    → let found = search_incidents configuration_item active_only limit store in
      (wanted : List Incident) × (rest : List Incident) × Picked
        (IsWanted configuration_item active_only)
        store.incidents
        wanted
      × (found ++ rest ≡ wanted)
      × (length found ≡ slice_length limit (length wanted))
      × (length found ≤ length store.incidents)
unfolding search_incidents
search_incidents_bounds configuration_item active_only limit store =
    let p = selects configuration_item active_only in
    let wanted = keep p store.incidents in
    let (rest, whole) = slice-prefix limit wanted in
    let counts = ap length whole in
    let sum = length-append (slice_to limit wanted) rest in
    let fewer = length-keep-le p store.incidents in
    (
      wanted,
      rest,
      keep-Picked configuration_item active_only store.incidents,
      whole,
      length-slice limit wanted,
      omega (arith, counts, sum, fewer),
    )
