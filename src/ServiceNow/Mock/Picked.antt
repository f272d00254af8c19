-- ===== src/ServiceNow/Mock/Picked.antt =====
-- governance/servicenow.py: which incidents a search of `MockServiceNow` is about.
use governed_mcp_server.Common.{
  ◌≡◌, ◌≢◌, refl, String, Bool, true, false, Option, none, some, List, [], ◌∷◌, keep, arith, ◌==◌,
  eq_iff, Bool-cases, inl, inr,
}
use governed_mcp_server.ServiceNow.Model.{Incident}
use governed_mcp_server.ServiceNow.Mock.{selects}

-- An incident that is asked for: of the configuration item, if one is given, and neither resolved
-- nor closed, if only the open ones are asked for.
pub record IsWanted (configuration_item : Option String) (active_only : Bool) (incident : Incident)
    : Type 0 where
  pub of_item :
      (name : String) → configuration_item ≡ some name → incident.configuration_item ≡ name
  pub is_open : active_only ≡ true → (incident.state ≢ "6") × (incident.state ≢ "7")

-- From a list, exactly the incidents of this kind, in their order.
pub data Picked (IsOne : Incident → Type 0) : List Incident → List Incident → Type 0 where
  no_more : Picked IsOne [] []
  pick :
      {xs ys : List Incident} (x : Incident)
      → IsOne x
      → Picked IsOne xs ys
      → Picked IsOne (x ∷ xs) (x ∷ ys)
  pass :
      {xs ys : List Incident} (x : Incident)
      → ¬ IsOne x
      → Picked IsOne xs ys
      → Picked IsOne (x ∷ xs) ys

apart : {a b : String} → (a == b) ≡ false → a ≢ b
apart {a} {b} other e = let same = (eq_iff a b).1 e in cc

not_equal : {a b : String} → a ≢ b → (a == b) ≡ false
not_equal {a} {b} other = elim (Bool-cases (a == b)) [
  | inl same ↦ absurd (other ((eq_iff a b).0 same))
  | inr distinct ↦ distinct
]

selects-item :
    (configuration_item : Option String) (active_only : Bool) (incident : Incident)
    → selects configuration_item active_only incident ≡ true
    → (name : String) → configuration_item ≡ some name
    → incident.configuration_item ≡ name
selects-item none active_only incident e name h = cc
selects-item (some item) active_only incident e name h =
    let same = (eq_iff incident.configuration_item item).0 (ground (arith, e)) in cc

selects-open :
    (configuration_item : Option String) (incident : Incident)
    → selects configuration_item true incident ≡ true
    → (incident.state ≢ "6") × (incident.state ≢ "7")
selects-open none incident e = (apart (ground (arith, e)), apart (ground (arith, e)))
selects-open (some item) incident e = (apart (ground (arith, e)), apart (ground (arith, e)))

pub selects_sound :
    (configuration_item : Option String) (active_only : Bool) (incident : Incident)
    → selects configuration_item active_only incident ≡ true
    → IsWanted configuration_item active_only incident
selects_sound configuration_item true incident e = record {
  of_item = selects-item configuration_item true incident e;
  is_open = λ _. selects-open configuration_item incident e;
}
selects_sound configuration_item false incident e = record {
  of_item = selects-item configuration_item false incident e;
  is_open = λ off. cc;
}

selects_complete :
    (configuration_item : Option String) (active_only : Bool) (incident : Incident)
    → IsWanted configuration_item active_only incident
    → selects configuration_item active_only incident ≡ true
selects_complete none true incident h =
    let (a, b) = h.is_open refl in rw (not_equal a, not_equal b) refl
selects_complete (some item) true incident h =
    let (a, b) = h.is_open refl in
    rw ((eq_iff incident.configuration_item item).1 (h.of_item item refl))
      (rw (not_equal a, not_equal b) refl)
selects_complete none false incident h = refl
selects_complete (some item) false incident h =
    rw ((eq_iff incident.configuration_item item).1 (h.of_item item refl)) refl

pub keep-Picked :
    (configuration_item : Option String) (active_only : Bool) (incidents : List Incident)
    → Picked
        (IsWanted configuration_item active_only)
        incidents
        (keep (selects configuration_item active_only) incidents)
keep-Picked configuration_item active_only [] = no_more
keep-Picked configuration_item active_only (x ∷ xs) =
    let more = keep-Picked configuration_item active_only xs in
    elim (Bool-cases (selects configuration_item active_only x)) [
      | inl chosen ↦ rw chosen (pick x (selects_sound configuration_item active_only x chosen) more)
      | inr left ↦ rw left (
          pass x (λ h. let chosen = selects_complete configuration_item active_only x h in cc) more)
    ]
