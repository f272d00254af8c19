-- ===== src/RequestState/Rotation.antt =====
-- docs/runbooks/rotate-request-state-key.md: the rollout of a new key over the replicas, each of
-- which loads its ring with `build`, while approvals are in flight.
pub mod Carried
pub mod Answered
pub mod Tests
use governed_mcp_server.Common.{◌≡◌, ◌⊎◌, String, Bool, true, false, List, [], ◌∷◌, ◌++◌, ℕ}

-- What a replica's `MCP_REQUEST_STATE_KEYS` is during the rollout.
pub data Phase : Type 0 where
  old_only old_first new_first new_only : Phase

abbrev pub next : Phase → Phase
next old_only = old_first
next old_first = new_first
next new_first = new_only
next new_only = new_only

-- the keys of the ring, in its order
abbrev pub ring : (old new : List ℕ) → Phase → List (List ℕ)
ring old new old_only = old ∷ []
ring old new old_first = old ∷ new ∷ []
ring old new new_first = new ∷ old ∷ []
ring old new new_only = new ∷ []

-- An approval in flight: its state, and the phase of the replica that sealed it.
pub record Flight : Type 0 where
  pub sealed_in : Phase
  pub state : String

abbrev pub sealed_by_old : Phase → Bool
sealed_by_old old_only = true
sealed_by_old old_first = true
sealed_by_old _ = false

abbrev pub Each : {A : Type 0} → (A → Type 0) → List A → Type 0
Each P [] = Unit
Each P (x ∷ xs) = P x × Each P xs

-- A replica that has this phase or the one after it.
abbrev pub IsWithin : Phase → Phase → Type 0
IsWithin p phase = (phase ≡ p) ⊎ (phase ≡ next p)

pub record Rollout (Replica : Type 0) : Type 0 where
  pub phase_of : Replica → Phase
  pub in_flight : List Flight

-- A deployment of the phase after `p`: some replica is at `p`, none is behind or further than one
-- ahead, and the last phase waits until nothing that the old key sealed is in flight.
pub record IsDeployment {Replica : Type 0} (p : Phase) (before : Rollout Replica)
    (after : Replica → Phase) : Type 0 where
  pub replica : Replica
  pub behind : before.phase_of replica ≡ p
  pub rolled_out : (r : Replica) → IsWithin p (before.phase_of r)
  pub moves :
      (r : Replica) → (after r ≡ before.phase_of r) ⊎ ((before.phase_of r ≡ p) × (after r ≡ next p))
  pub drained : p ≡ new_first → Each (λ f. sealed_by_old f.sealed_in ≡ false) before.in_flight

-- What can happen: some replicas are deployed anew, a replica seals the state of an approval, or an
-- approval is answered or expires.
pub data Step {Replica : Type 0} : Rollout Replica → Rollout Replica → Type 0 where
  deploy :
      (p : Phase) (before : Rollout Replica) (after : Replica → Phase)
      → IsDeployment p before after
      → Step before (record { phase_of = after; in_flight = before.in_flight })
  ask :
      (before : Rollout Replica) (r : Replica) (state : String)
      → Step before (record before {
        in_flight = record { sealed_in = before.phase_of r; state = state } ∷ before.in_flight;
      })
  finish :
      (phase_of : Replica → Phase) (some_flights : List Flight) (f : Flight) (others : List Flight)
      → Step
          (record { phase_of = phase_of; in_flight = some_flights ++ f ∷ others })
          (record { phase_of = phase_of; in_flight = some_flights ++ others })

-- The states of a rotation that starts with the old key alone and nothing in flight.
pub data Reachable {Replica : Type 0} : Rollout Replica → Type 0 where
  start : Reachable (record { phase_of = λ r. old_only; in_flight = [] })
  step : {before after : Rollout Replica} → Reachable before → Step before after → Reachable after
