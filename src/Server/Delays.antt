-- ===== src/Server/Delays.antt =====
-- What `raise_shipment_incident` does to the mock's store.
use governed_mcp_server.Common.{
  ◌≡◌, ◌≢◌, sym, subst, ◌+◌, String, true, false, none, some, arith, Bool-cases, Option-cases, inl,
  inr,
}
use governed_mcp_server.Common.Dict.{Dict, lookup}
use governed_mcp_server.Common.Result.{Result, ok, err}
use governed_mcp_server.Common.Text.{◌+++◌}
use governed_mcp_server.ServiceNow.Model.{no_configuration_item, service_now}
use governed_mcp_server.ServiceNow.Mock
use governed_mcp_server.ServiceNow.Mock.{MockServiceNow, new_incident}
use governed_mcp_server.ServiceNow.Mock.Search.{create_incident_lem, grown}
use governed_mcp_server.ServiceNow.Backend.{mock_backend}
use governed_mcp_server.Server.Model.{
  Shipment, IncidentSummary, ToolError, value_error, backend_error, summarise,
}
use governed_mcp_server.Server.Tools.{
  raise_shipment_incident, is_urgency, short_description_of, description_of, bad_urgency,
}

-- How a call of `raise_shipment_incident` ends.
pub data Raising (now : String) (shipments : Dict Shipment) (store : MockServiceNow)
    (shipment_id urgency : String)
    : Result ToolError IncidentSummary × MockServiceNow → Type 0 where
  unknown :
      lookup shipment_id shipments ≡ none
      → Raising now shipments store shipment_id urgency
          (err (value_error ("unknown shipment: " +++ shipment_id)), store)
  no_urgency :
      is_urgency urgency ≡ false
      → Raising now shipments store shipment_id urgency (err bad_urgency, store)
  not_in_cmdb :
      (shipment : Shipment)
      → lookup shipment_id shipments ≡ some shipment
      → Mock.find_configuration_item shipment.ci store ≡ none
      → Raising now shipments store shipment_id urgency
          (err (backend_error (service_now (no_configuration_item shipment.ci))), store)
  opened :
      (shipment : Shipment)
      → lookup shipment_id shipments ≡ some shipment
      → is_urgency urgency ≡ true
      → Mock.find_configuration_item shipment.ci store ≢ none
      → Raising now shipments store shipment_id urgency (
        ok (
            summarise (
              new_incident now
                (short_description_of shipment)
                shipment.ci
                urgency
                (store.counter + 1))),
        grown now
            (short_description_of shipment)
            shipment.ci
            urgency
            (description_of shipment)
            store,
      )

module _ (now : String) (shipments : Dict Shipment) (store : MockServiceNow)
    (shipment_id urgency : String) where
  abbrev pub raised_result : Result ToolError IncidentSummary × MockServiceNow
  raised_result = raise_shipment_incident (mock_backend now) shipments shipment_id urgency store

  ends :
      {result : Result ToolError IncidentSummary × MockServiceNow}
      → Raising now shipments store shipment_id urgency result
      → raised_result ≡ result
      → Raising now shipments store shipment_id urgency raised_result
  ends way e = subst (Raising now shipments store shipment_id urgency) (sym e) way

  pub raise_opens :
      (shipment : Shipment)
      → lookup shipment_id shipments ≡ some shipment
      → is_urgency urgency ≡ true
      → Mock.find_configuration_item shipment.ci store ≢ none
      → raised_result ≡ (
        ok (
            summarise (
              new_incident now
                (short_description_of shipment)
                shipment.ci
                urgency
                (store.counter + 1))),
        grown now
            (short_description_of shipment)
            shipment.ci
            urgency
            (description_of shipment)
            store,
      )
  unfolding raise_shipment_incident Mock.find_configuration_item
  raise_opens shipment known urgent present = ground (
    arith,
    (create_incident_lem now (short_description_of shipment) shipment.ci urgency
          (description_of shipment) store).0
        present,
  )

  raise_known :
      (shipment : Shipment)
      → lookup shipment_id shipments ≡ some shipment
      → is_urgency urgency ≡ true
      → Raising now shipments store shipment_id urgency raised_result
  unfolding raise_shipment_incident Mock.find_configuration_item
  raise_known shipment known urgent =
      let lem =
        create_incident_lem now (short_description_of shipment) shipment.ci urgency
          (description_of shipment) store in
      elim (Option-cases (lookup shipment.ci store.configuration_items)) [
        | inl missing ↦ ends (not_in_cmdb shipment known missing) (ground (arith, lem.1 missing))
        | inr (item, found) ↦
            let present : lookup shipment.ci store.configuration_items ≢ none = λ e. cc in
            ends (opened shipment known urgent present) (raise_opens shipment known urgent present)
      ]

  -- A call of `raise_shipment_incident` on the mock fails, leaving the store alone, where the
  -- shipment is unknown, the urgency is none of the three or the configuration item is missing,
  -- and otherwise opens one incident for the shipment's configuration item.
  pub raise_shipment_incident-Raising :
      Raising now shipments store shipment_id urgency raised_result
  unfolding raise_shipment_incident
  raise_shipment_incident-Raising = elim (Option-cases (lookup shipment_id shipments)) [
    | inl missing ↦ ends (unknown missing) (rw missing)
    | inr (shipment, known) ↦ elim (Bool-cases (is_urgency urgency)) [
      | inl urgent ↦ raise_known shipment known urgent
      | inr other ↦ ends (no_urgency other) (rw (known, other))
    ]
  ]
