-- ===== src/RequestState/Rotation/Tests.antt =====
-- Two replicas in the middle of a rotation, over an SDK that seals by naming the key.
use governed_mcp_server.Common.{
  ◌≡◌, ◌⊎◌, refl, inl, inr, ℕ, String, Bool, true, false, some, none, List, [], ◌∷◌, ◌++◌, ◌&&◌,
  if◌then◌else◌, arith, eqb, ◌||◌,
}
use governed_mcp_server.RequestState.{RequestStateSecurity, shared, ephemeral}
use governed_mcp_server.RequestState.Rotation.{
  old_only, old_first, next, Each, Rollout, IsDeployment, deploy, ask, Reachable, start, step,
}
use governed_mcp_server.RequestState.Rotation.Answered.{
  Sealing, IsSealing, IsAnswerable, rotation_keeps_approvals,
}
use governed_mcp_server.RequestState.Tests.{zeros, random}

abbrev same_bytes : List ℕ → List ℕ → Bool
same_bytes [] [] = true
same_bytes (x ∷ xs) (y ∷ ys) = eqb x y && same_bytes xs ys
same_bytes _ _ = false

abbrev holds : List ℕ → List (List ℕ) → Bool
holds key [] = false
holds key (k ∷ keys) = same_bytes key k || holds key keys

abbrev keys_of : RequestStateSecurity → List (List ℕ)
keys_of (ephemeral audience) = []
keys_of (shared keys audience) = keys

abbrev head_of : List (List ℕ) → List ℕ
head_of [] = []
head_of (key ∷ keys) = key

abbrev sealing : Sealing (List ℕ × String)
sealing = record {
  seal = λ security state. (head_of (keys_of security), state);
  unseal = λ security (key, state). if holds key (keys_of security) then some state else none;
}

same_bytes_refl : (key : List ℕ) → same_bytes key key ≡ true
same_bytes_refl [] = refl
same_bytes_refl (x ∷ xs) = ground (arith, same_bytes_refl xs)

holds-middle :
    (key : List ℕ) (before after : List (List ℕ)) → holds key (before ++ key ∷ after) ≡ true
holds-middle key [] after = rw (same_bytes_refl key) refl
holds-middle key (k ∷ before) after = ground (arith, holds-middle key before after)

laws : IsSealing sealing none
laws key keys before after state = rw (holds-middle key before after) refl

-- One replica has `<old>,<new>`, the other still `<old>`; both have an approval in flight.
abbrev half_way : Rollout Bool
half_way = record {
  phase_of = λ r. if r then old_first else old_only;
  in_flight =
      record { sealed_in = old_first; state = "b" }
      ∷ record { sealed_in = old_only; state = "a" }
      ∷ [];
}

abbrev initial : Rollout Bool
initial = record { phase_of = λ r. old_only; in_flight = [] }

abbrev asked : Rollout Bool
asked = record initial { in_flight = record { sealed_in = old_only; state = "a" } ∷ [] }

first_moves :
    (r : Bool)
    → (half_way.phase_of r ≡ asked.phase_of r)
      ⊎ ((asked.phase_of r ≡ old_only) × (half_way.phase_of r ≡ next old_only))
first_moves true = inr (refl, refl)
first_moves false = inl refl

deployment : IsDeployment old_only asked half_way.phase_of
deployment = record {
  replica = true;
  behind = refl;
  rolled_out = λ r. inl refl;
  moves = first_moves;
  drained = λ e. cc;
}

half_way-Reachable : Reachable half_way
half_way-Reachable =
    step
      (step (step start (ask initial false "a"))
        (deploy old_only asked half_way.phase_of deployment))
      (ask (record half_way { in_flight = record { sealed_in = old_only; state = "a" } ∷ [] }) true
        "b")

rotation_keeps_approvals_example :
    Each (IsAnswerable sealing none zeros random old_only) half_way.in_flight
rotation_keeps_approvals_example =
    rotation_keeps_approvals sealing none laws zeros random (omega arith, omega arith)
      (omega arith, omega arith) half_way false half_way-Reachable
