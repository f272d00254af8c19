-- ===== src/RequestState/Rotation/Carried.antt =====
-- The rings in a rotation hold the keys of what is in flight.
use governed_mcp_server.Common.{
  ◌≡◌, ◌⊎◌, inl, inr, refl, sym, ◌∙◌, subst, String, Bool, true, false, List, [], ◌∷◌, ◌++◌,
  if◌then◌else◌,
}
use governed_mcp_server.RequestState.Rotation.{
  Phase, old_only, old_first, new_first, new_only, next, Flight, sealed_by_old, Each, IsWithin,
  Rollout, IsDeployment, Step, deploy, ask, finish, Reachable, start, step,
}

abbrev pub has_old : Phase → Bool
has_old new_only = false
has_old _ = true

abbrev pub has_new : Phase → Bool
has_new old_only = false
has_new _ = true

-- a ring that holds the key by which another one seals
abbrev pub opens : (sealer phase : Phase) → Bool
opens sealer phase = if sealed_by_old sealer then has_old phase else has_new phase

pub Each-map :
    {A : Type 0} {P Q : A → Type 0} → ((x : A) → P x → Q x) → (xs : List A) → Each P xs → Each Q xs
Each-map f [] h = tt
Each-map f (x ∷ xs) (h, hs) = (f x h, Each-map f xs hs)

Each-zip :
    {A : Type 0} {P Q R : A → Type 0}
    → ((x : A) → P x → Q x → R x)
    → (xs : List A) → Each P xs
    → Each Q xs
    → Each R xs
Each-zip f [] h k = tt
Each-zip f (x ∷ xs) (h, hs) (k, ks) = (f x h k, Each-zip f xs hs ks)

Each-without :
    {A : Type 0} (P : A → Type 0) (xs : List A) (y : A) (ys : List A)
    → Each P (xs ++ y ∷ ys)
    → Each P (xs ++ ys)
Each-without P [] y ys (h, hs) = hs
Each-without P (x ∷ xs) y ys (h, hs) = (h, Each-without P xs y ys hs)

abbrev pub IsCarried : Phase → Flight → Type 0
IsCarried p f = (opens f.sealed_in p ≡ true) × (opens f.sealed_in (next p) ≡ true)

-- At every moment the replicas are at one phase or the next, and the rings of both hold the keys
-- of what is in flight.
pub record IsSound {Replica : Type 0} (s : Rollout Replica) : Type 0 where
  pub p : Phase
  pub within : (r : Replica) → IsWithin p (s.phase_of r)
  pub carried : Each (IsCarried p) s.in_flight

fresh-IsCarried :
    (p phase : Phase) (state : String)
    → IsWithin p phase
    → IsCarried p (record { sealed_in = phase; state = state })
fresh-IsCarried old_only phase state (inl e) = rw e (refl, refl)
fresh-IsCarried old_only phase state (inr e) = rw e (refl, refl)
fresh-IsCarried old_first phase state (inl e) = rw e (refl, refl)
fresh-IsCarried old_first phase state (inr e) = rw e (refl, refl)
fresh-IsCarried new_first phase state (inl e) = rw e (refl, refl)
fresh-IsCarried new_first phase state (inr e) = rw e (refl, refl)
fresh-IsCarried new_only phase state (inl e) = rw e (refl, refl)
fresh-IsCarried new_only phase state (inr e) = rw e (refl, refl)

opens_both : (sealer : Phase) → opens sealer new_first ≡ true
opens_both old_only = refl
opens_both old_first = refl
opens_both new_first = refl
opens_both new_only = refl

-- What a phase carries, the next one carries too, where the last waits for the old key's states.
moved-IsCarried :
    (p : Phase) (flights : List Flight)
    → (next p ≡ new_first → Each (λ f. sealed_by_old f.sealed_in ≡ false) flights)
    → Each (IsCarried p) flights
    → Each (IsCarried (next p)) flights
moved-IsCarried old_only flights drained = Each-map (λ f c. (c.1, opens_both f.sealed_in)) flights
moved-IsCarried old_first flights drained =
    Each-zip (λ f new c. (c.1, rw new refl)) flights (drained refl)
moved-IsCarried new_first flights drained = Each-map (λ f c. (c.1, c.1)) flights
moved-IsCarried new_only flights drained = Each-map (λ f c. c) flights

moved-IsWithin :
    (p : Phase) (before after : Phase)
    → IsWithin p before
    → (after ≡ before) ⊎ ((before ≡ p) × (after ≡ next p))
    → IsWithin p after
moved-IsWithin p before after h (inl same) = subst (IsWithin p) (sym same) h
moved-IsWithin p before after h (inr (_, e)) = inr e

module _ {Replica : Type 0} where
  deploy-IsSound :
      (p : Phase) (before : Rollout Replica) (after : Replica → Phase)
      → IsDeployment p before after
      → IsSound before
      → IsSound (record { phase_of = after; in_flight = before.in_flight })
  deploy-IsSound p before after d sound = record {
    p = p;
    within = λ r. moved-IsWithin p (before.phase_of r) (after r) (d.rolled_out r) (d.moves r);
    carried = elim (sound.within d.replica) [
      | inl e ↦
          let same : p ≡ sound.p = sym d.behind ∙ e in
          subst (λ q. Each (IsCarried q) before.in_flight) (sym same) sound.carried
      | inr e ↦
          let same : p ≡ next sound.p = sym d.behind ∙ e in
          subst (λ q. Each (IsCarried q) before.in_flight) (sym same)
            (moved-IsCarried sound.p before.in_flight (λ last. d.drained (same ∙ last))
              sound.carried)
    ];
  }

  Step-IsSound :
      (before after : Rollout Replica) → Step before after → IsSound before → IsSound after
  Step-IsSound before _ (deploy p _ after d) sound = deploy-IsSound p before after d sound
  Step-IsSound before _ (ask _ r state) sound = record {
    p = sound.p;
    within = sound.within;
    carried = (fresh-IsCarried sound.p (before.phase_of r) state (sound.within r), sound.carried);
  }
  Step-IsSound _ _ (finish phase_of flights f others) sound = record {
    p = sound.p;
    within = sound.within;
    carried = Each-without (IsCarried sound.p) flights f others sound.carried;
  }

  pub Reachable-IsSound : (s : Rollout Replica) → Reachable s → IsSound s
  Reachable-IsSound _ start = record { p = old_only; within = λ r. inl refl; carried = tt }
  Reachable-IsSound _ (step {before = before} {after = after} reached happens) =
      Step-IsSound before after happens (Reachable-IsSound before reached)
