-- ===== src/RequestState/Rotation/Answered.antt =====
-- No approval is lost to a rotation.
use governed_mcp_server.Common.{
  ◌≡◌, inl, inr, ap, String, true, Option, some, none, List, [], ◌∷◌, ◌++◌, ℕ, is_nil,
  if◌then◌else◌,
}
use governed_mcp_server.Common.Dict.{Dict, lookup}
use governed_mcp_server.Common.Result.{ok, ◌>>=◌}
use governed_mcp_server.RequestState.{
  RequestStateSecurity, shared, ephemeral, build_security, load_keys,
}
use governed_mcp_server.RequestState.Rings.{IsKey, AreGenerated, ring_text, load_keys-ring_text}
use governed_mcp_server.RequestState.Rotation.{
  Phase, old_only, old_first, new_first, new_only, ring, Flight, Each, IsWithin, Rollout, Reachable,
}
use governed_mcp_server.RequestState.Rotation.Carried.{
  has_old, has_new, opens, IsCarried, Reachable-IsSound, Each-map,
}

-- The replica's environment.
abbrev pub environ : (old new : List ℕ) → Phase → Dict String
environ old new phase = ("MCP_REQUEST_STATE_KEYS", ring_text (ring old new phase)) ∷ []

shared_ring :
    (key : List ℕ) (keys : List (List ℕ)) (audience : Option String)
    → IsKey key
    → AreGenerated keys
    → build_security audience (("MCP_REQUEST_STATE_KEYS", ring_text (key ∷ keys)) ∷ [])
      ≡ ok (shared (key ∷ keys) audience)
unfolding build_security load_keys lookup
shared_ring key keys audience k ks =
    let environ = ("MCP_REQUEST_STATE_KEYS", ring_text (key ∷ keys)) ∷ [] in
    let loaded : load_keys none environ ≡ ok (key ∷ keys) =
      load_keys-ring_text key keys environ k ks in
    ap
      (λ loads.
        loads >>= λ ring. ok (if is_nil ring then ephemeral audience else shared ring audience))
      loaded

-- What the SDK does with the state of an approval.
pub record Sealing (Sealed : Type 0) : Type 0 where
  pub seal : RequestStateSecurity → String → Sealed
  pub unseal : RequestStateSecurity → Sealed → Option String

-- The first key of a ring seals, and every ring that holds this key unseals.
abbrev pub IsSealing : {Sealed : Type 0} → Sealing Sealed → Option String → Type 0
IsSealing sealing audience =
    (key : List ℕ) (keys before after : List (List ℕ)) (state : String)
    → sealing.unseal (shared (before ++ key ∷ after) audience)
        (sealing.seal (shared (key ∷ keys) audience) state)
      ≡ some state

module _ {Sealed : Type 0} (sealing : Sealing Sealed) (audience : Option String)
    (old new : List ℕ) where
  -- What the replica of a phase makes of an approval in flight.
  abbrev pub IsAnswerable : Phase → Flight → Type 0
  IsAnswerable phase f =
      (sealer : RequestStateSecurity) × (security : RequestStateSecurity) × (build_security audience
          (environ old new f.sealed_in)
        ≡ ok sealer)
      × (build_security audience (environ old new phase) ≡ ok security)
      × (sealing.unseal security (sealing.seal sealer f.state) ≡ some f.state)

module _ {Sealed : Type 0} (sealing : Sealing Sealed) (audience : Option String)
    (laws : IsSealing sealing audience) (old new : List ℕ) (old_key : IsKey old)
    (new_key : IsKey new) where
  builds :
      (phase : Phase)
      → build_security audience (environ old new phase) ≡ ok (shared (ring old new phase) audience)
  builds old_only = shared_ring old [] audience old_key tt
  builds old_first = shared_ring old (new ∷ []) audience old_key (new_key, tt)
  builds new_first = shared_ring new (old ∷ []) audience new_key (old_key, tt)
  builds new_only = shared_ring new [] audience new_key tt

  unseals_old :
      (keys : List (List ℕ)) (phase : Phase) (state : String)
      → has_old phase ≡ true
      → sealing.unseal
          (shared (ring old new phase) audience)
          (sealing.seal (shared (old ∷ keys) audience) state)
        ≡ some state
  unseals_old keys old_only state h = laws old keys [] [] state
  unseals_old keys old_first state h = laws old keys [] (new ∷ []) state
  unseals_old keys new_first state h = laws old keys (new ∷ []) [] state
  unseals_old keys new_only state h = cc

  unseals_new :
      (keys : List (List ℕ)) (phase : Phase) (state : String)
      → has_new phase ≡ true
      → sealing.unseal
          (shared (ring old new phase) audience)
          (sealing.seal (shared (new ∷ keys) audience) state)
        ≡ some state
  unseals_new keys old_only state h = cc
  unseals_new keys old_first state h = laws new keys (old ∷ []) [] state
  unseals_new keys new_first state h = laws new keys [] (old ∷ []) state
  unseals_new keys new_only state h = laws new keys [] [] state

  unseals :
      (sealer phase : Phase) (state : String)
      → opens sealer phase ≡ true
      → sealing.unseal
          (shared (ring old new phase) audience)
          (sealing.seal (shared (ring old new sealer) audience) state)
        ≡ some state
  unseals old_only phase state h = unseals_old [] phase state h
  unseals old_first phase state h = unseals_old (new ∷ []) phase state h
  unseals new_first phase state h = unseals_new (old ∷ []) phase state h
  unseals new_only phase state h = unseals_new [] phase state h

  carried-IsAnswerable :
      (p phase : Phase)
      → IsWithin p phase
      → (f : Flight) → IsCarried p f
      → IsAnswerable sealing audience old new phase f
  carried-IsAnswerable p phase (inl e) f c =
      (_, _, builds f.sealed_in, builds phase, unseals f.sealed_in phase f.state (rw e (c.0)))
  carried-IsAnswerable p phase (inr e) f c =
      (_, _, builds f.sealed_in, builds phase, unseals f.sealed_in phase f.state (rw e (c.1)))

  -- However replicas are deployed, approvals asked for and settled in a rotation by the runbook's
  -- phases, from the old key to the new one: at every moment every replica can unseal the state of
  -- every approval in flight, whichever replica sealed it, both with what `build` makes of the
  -- ring in their environment. The keys are generated ones of 32 bytes or more, and the SDK
  -- seals with a ring's first key and unseals with any.
  pub rotation_keeps_approvals :
      {Replica : Type 0} (s : Rollout Replica) (r : Replica)
      → Reachable s
      → Each (IsAnswerable sealing audience old new (s.phase_of r)) s.in_flight
  rotation_keeps_approvals s r reached =
      let sound = Reachable-IsSound s reached in
      Each-map (carried-IsAnswerable sound.p (s.phase_of r) (sound.within r)) s.in_flight
        sound.carried
