-- ===== src/ServiceNow/Mock/Numbers.antt =====
-- The numbers and ids that the mock gives to the incidents of a run.
use text.Mathlib.TextLemmas.{append_cancel_left}
use governed_mcp_server.Common.{
  ◌≡◌, ◌≢◌, refl, sym, subst, ◌∙◌, ℕ, ◌+◌, ◌<◌, String, false, List, [], ◌∷◌, ◌++◌, arith,
  Option-cases, inl, inr,
}
use governed_mcp_server.Common.Text.{◌+++◌, starts_with, starts_with-append}
use governed_mcp_server.Common.Decimal.{padded, padded_inj}
use governed_mcp_server.Common.Dict.{lookup}
use governed_mcp_server.ServiceNow.Model.{Incident}
use governed_mcp_server.ServiceNow.Mock.{
  MockServiceNow, new, create_incident, new_incident, mock_id, mock_number, find_configuration_item,
}
use governed_mcp_server.ServiceNow.Mock.Search.{grown, create_incident_lem}

-- A run of the mock that starts with its sample data: the stores that calls of `create_incident`
-- reach, also those that raise.
pub data Reachable : MockServiceNow → Type 0 where
  start : Reachable (new [] [])
  after_create :
      (now short_description configuration_item urgency description : String)
      → {store : MockServiceNow} → Reachable store
      → Reachable
          (create_incident now short_description configuration_item urgency description store).1

module _ (ident : Incident → String) where
  abbrev Unused : String → List Incident → Type 0
  Unused s [] = Unit
  Unused s (x ∷ xs) = (ident x ≢ s) × Unused s xs

  abbrev pub AllDistinct : List Incident → Type 0
  AllDistinct [] = Unit
  AllDistinct (x ∷ xs) = Unused (ident x) xs × AllDistinct xs

  Unused-append :
      (s : String) (xs : List Incident) (y : Incident)
      → Unused s xs
      → (ident y ≢ s)
      → Unused s (xs ++ y ∷ [])
  Unused-append s [] y h n = (n, tt)
  Unused-append s (x ∷ xs) y (d, h) n = (d, Unused-append s xs y h n)

  AllDistinct-append :
      (xs : List Incident) (y : Incident)
      → AllDistinct xs
      → Unused (ident y) xs
      → AllDistinct (xs ++ y ∷ [])
  AllDistinct-append [] y h u = (tt, tt)
  AllDistinct-append (x ∷ xs) y (u, h) (n, us) =
      (Unused-append (ident x) xs y u (λ e. n (sym e)), AllDistinct-append xs y h us)

module _ (ident : Incident → String) (key : ℕ → String) where
  -- The identifiers differ from each other, and from those that are still to be given.
  record IsNumbered (store : MockServiceNow) : Type 0 where
    distinct : AllDistinct ident store.incidents
    unused : (k : ℕ) → store.counter < k → Unused ident (key k) store.incidents

  module _ (key_inj : (m n : ℕ) → key m ≡ key n → m ≡ n)
      (numbered : (now short_description configuration_item urgency : String) (n : ℕ)
        → ident (new_incident now short_description configuration_item urgency n) ≡ key n)
      (first : IsNumbered (new [] [])) where
    grown-IsNumbered :
        (now short item urgency description : String) (store : MockServiceNow)
        → IsNumbered store
        → IsNumbered (grown now short item urgency description store)
    grown-IsNumbered now short item urgency description store h =
        let incident = new_incident now short item urgency (store.counter + 1) in
        let same = numbered now short item urgency (store.counter + 1) in
        record {
          distinct = AllDistinct-append ident store.incidents incident h.distinct (
              subst (λ s. Unused ident s store.incidents) (sym same)
                (h.unused (store.counter + 1) (omega arith)));
          unused = λ k lt.
              Unused-append ident (key k) store.incidents incident (h.unused k (omega arith)) (λ e.
                let eq = key_inj (store.counter + 1) k (sym same ∙ e) in absurd (omega arith));
        }

    Reachable-IsNumbered : {store : MockServiceNow} → Reachable store → IsNumbered store
    unfolding find_configuration_item
    Reachable-IsNumbered start = first
    Reachable-IsNumbered (after_create now short item urgency description {store = store} r) =
        let lem = create_incident_lem now short item urgency description store in
        let h = Reachable-IsNumbered r in
        elim (Option-cases (lookup item store.configuration_items)) [
          | inl missing ↦ subst (λ p. IsNumbered p.1) (sym (lem.1 missing)) h
          | inr (found, e) ↦
              subst (λ p. IsNumbered p.1) (sym (lem.0 (λ n. cc)))
                (grown-IsNumbered now short item urgency description store h)
        ]

differ : (prefix s t : String) → starts_with s prefix ≡ false → s ≢ prefix +++ t
differ prefix s t h e = ground (arith, starts_with-append prefix t)

first_ids : IsNumbered (λ incident. incident.sys_id) mock_id (new [] [])
unfolding new starts_with
first_ids = record {
  distinct = (tt, tt);
  unused = λ k lt. (differ "mock" "11111111" (padded 8 k) refl, tt);
}

first_numbers : IsNumbered (λ incident. incident.number) mock_number (new [] [])
unfolding new starts_with
first_numbers = record {
  distinct = (tt, tt);
  unused = λ k lt. (differ "INC00200" "INC0010001" (padded 2 k) refl, tt);
}

-- In a run of the mock that starts with its sample data, no two incidents have the same id, and no
-- two the same number, however many are created.
pub Reachable-AllDistinct :
    (store : MockServiceNow)
    → Reachable store
    → AllDistinct (λ incident. incident.sys_id) store.incidents
      × AllDistinct (λ incident. incident.number) store.incidents
Reachable-AllDistinct store r = (
  (Reachable-IsNumbered (λ incident. incident.sys_id) mock_id
      (λ m n e. padded_inj 8 m n (append_cancel_left "mock" (padded 8 m) (padded 8 n) e))
      (λ now short item urgency n. refl) first_ids r).distinct,
  (Reachable-IsNumbered (λ incident. incident.number) mock_number
      (λ m n e. padded_inj 2 m n (append_cancel_left "INC00200" (padded 2 m) (padded 2 n) e))
      (λ now short item urgency n. refl) first_numbers r).distinct,
)
