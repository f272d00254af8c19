-- ===== src/Server/Reassessing.antt =====
-- The delay flow on the mock: an incident is raised, and the delay is assessed again.
use governed_mcp_server.Common.{
  ◌≡◌, ◌≢◌, refl, sym, subst, ℕ, ◌+◌, String, true, none, some, List, [], ◌∷◌, ◌++◌, take, map,
  arith, Option-cases, inl, inr, eq_iff, ◌==◌,
}
use governed_mcp_server.Common.Double.{round_tenth}
use governed_mcp_server.Common.Dict.{Dict, lookup}
use governed_mcp_server.Common.Result.{Result, ok}
use governed_mcp_server.ServiceNow.Model.{Incident}
use governed_mcp_server.ServiceNow.Mock
use governed_mcp_server.ServiceNow.Mock.{MockServiceNow, new_incident}
use governed_mcp_server.ServiceNow.Mock.Search.{
  grown, search-grown, open_for, first_or, take-first_or,
}
use governed_mcp_server.ServiceNow.Mock.Picked.{IsWanted, Picked, keep-Picked, selects_sound}
use governed_mcp_server.ServiceNow.Backend.{mock_backend}
use governed_mcp_server.Server.Model.{
  Shipment, IncidentSummary, DelayAssessment, ToolError, summarise,
}
use governed_mcp_server.Server.Tools.{
  assess_shipment_delay, recommendation, is_urgency, short_description_of, description_of, enrich,
  hours_late,
}
use governed_mcp_server.Server.Delays.{raised_result, raise_opens}

module _ (now : String) (shipments : Dict Shipment) (store : MockServiceNow)
    (shipment_id urgency : String) where
  -- What `assess_shipment_delay` then makes of the shipment: `before` are the open incidents that
  -- its configuration item had, and `opened_incident` is the one that was opened.
  pub record Reassessed (shipment : Shipment)
      (result : Result ToolError IncidentSummary × MockServiceNow)
      (assessment : Result ToolError DelayAssessment × MockServiceNow) : Type 0 where
    pub opened_incident : Incident
    pub before : List Incident
    pub found : DelayAssessment
    pub returns : result.0 ≡ ok (summarise opened_incident)
    pub stored : result.1.incidents ≡ store.incidents ++ opened_incident ∷ []
    pub opened_open : IsWanted (some shipment.ci) true opened_incident
    pub open_before : Picked (IsWanted (some shipment.ci) true) store.incidents before
    pub assesses : assessment ≡ (ok found, result.1)
    pub lists : found.open_incidents ≡ map summarise (take 10 (before ++ opened_incident ∷ []))
    pub recommends :
        shipment.status ≡ "delayed"
        → found.recommendation ≡ enrich shipment (first_or opened_incident before).number

  abbrev raised_store : Shipment → MockServiceNow
  raised_store shipment =
      grown now (short_description_of shipment) shipment.ci urgency (description_of shipment) store

  abbrev raised_incident : Shipment → Incident
  raised_incident shipment =
      new_incident now (short_description_of shipment) shipment.ci urgency (store.counter + 1)

  raised_incident-IsWanted :
      (shipment : Shipment) → IsWanted (some shipment.ci) true (raised_incident shipment)
  raised_incident-IsWanted shipment =
      selects_sound (some shipment.ci) true (raised_incident shipment)
        (ground (arith, eq_iff shipment.ci shipment.ci))

  grown-Reassessed :
      (clock : ℕ) (later : String) (shipment : Shipment)
      → lookup shipment_id shipments ≡ some shipment
      → Mock.find_configuration_item shipment.ci store ≢ none
      → Reassessed shipment
          (ok (summarise (raised_incident shipment)), raised_store shipment)
          (assess_shipment_delay
            (mock_backend later)
            clock
            shipments
            shipment_id
            (raised_store shipment))
  unfolding assess_shipment_delay Mock.find_configuration_item
  grown-Reassessed clock later shipment known present =
      elim (Option-cases (lookup shipment.ci store.configuration_items)) [
        | inl missing ↦ absurd (present missing)
        | inr (item, there) ↦
            let incident = raised_incident shipment in
            let before = open_for shipment.ci store in
            let e =
              search-grown now (short_description_of shipment) shipment.ci urgency
                (description_of shipment) store 10 in
            let (rest, heads) = take-first_or 9 before incident in
            record {
              opened_incident = incident;
              before = before;
              found = record {
                shipment_id = shipment.id;
                delayed = shipment.status == "delayed";
                hours_late = round_tenth (hours_late clock shipment);
                configuration_item = shipment.ci;
                configuration_item_found = true;
                open_incidents = map summarise (take 10 (before ++ incident ∷ []));
                recommendation =
                    recommendation shipment (some item) (take 10 (before ++ incident ∷ []));
              };
              returns = refl;
              stored = refl;
              opened_open = raised_incident-IsWanted shipment;
              open_before = keep-Picked (some shipment.ci) true store.incidents;
              assesses = rw (known, there, e) refl;
              lists = refl;
              recommends = λ delayed. rw heads (ground (arith, eq_iff shipment.status "delayed"));
            }
      ]

  -- `raise_shipment_incident`, for a known shipment whose configuration item the store has and with
  -- one of the three urgencies, appends to the store an open incident of that configuration item and
  -- returns its summary. `assess_shipment_delay` of the same shipment then changes nothing, and
  -- lists the first ten of the incidents for that configuration item that are neither resolved nor
  -- closed: those of the store before, in their order, and then the new one. If the shipment is
  -- delayed it recommends to enrich the first of them instead of raising another.
  pub raise_then_assess :
      (clock : ℕ) (later : String) (shipment : Shipment)
      → lookup shipment_id shipments ≡ some shipment
      → is_urgency urgency ≡ true
      → Mock.find_configuration_item shipment.ci store ≢ none
      → let raised = raised_result now shipments store shipment_id urgency in
        Reassessed shipment raised
          (assess_shipment_delay (mock_backend later) clock shipments shipment_id raised.1)
  raise_then_assess clock later shipment known urgent present =
      subst
        (λ r.
          Reassessed shipment r
            (assess_shipment_delay (mock_backend later) clock shipments shipment_id r.1))
        (sym (raise_opens now shipments store shipment_id urgency shipment known urgent present))
        (grown-Reassessed clock later shipment known present)
