-- ===== src/Server/Serving/Operator.antt =====
-- An operator's way to an incident: the question, the answer, and the incident in the store.
use governed_mcp_server.Common.{
  ◌≡◌, ◌≢◌, refl, sym, ap, subst, ◌∙◌, ℕ, ◌+◌, String, true, false, none, some,
}
use governed_mcp_server.Common.Dict.{Dict, lookup}
use governed_mcp_server.Common.Result.{ok}
use governed_mcp_server.Common.Value.{truth}
use governed_mcp_server.Policy.Deciding.{decide_tool}
use governed_mcp_server.Policy.Document.{policy}
use governed_mcp_server.Policy.Shipped.{raise_shipment_incident_iff}
use governed_mcp_server.Verifier.Tokens.{roles_from_token}
use governed_mcp_server.Middleware.Flow.{
  Context, Answer, Outcome, returned, World, Environment, InputRequired, input_required,
}
use governed_mcp_server.Middleware.Approving.{answers_in}
use governed_mcp_server.Middleware.Guards.{params_of, tool_of}
use governed_mcp_server.Middleware.RoundTrip.{Retries, approval_round_trip}
use governed_mcp_server.ServiceNow.Mock
use governed_mcp_server.ServiceNow.Mock.{MockServiceNow, new_incident}
use governed_mcp_server.ServiceNow.Mock.Search.{grown}
use governed_mcp_server.ServiceNow.Model.{Incident}
use governed_mcp_server.ServiceNow.Backend.{mock_backend}
use governed_mcp_server.Server.Model.{Shipment, summarise}
use governed_mcp_server.Server.Tools.{is_urgency, short_description_of, description_of}
use governed_mcp_server.Server.Start.{McpServer}
use governed_mcp_server.Server.Delays.{raise_opens}
use governed_mcp_server.Server.Authority.{shipped, IsOperator}
use governed_mcp_server.Server.Serving.{
  Sdk, run_request, run_target, served, tool, raise_call, an_incident,
}
use governed_mcp_server.Server.Serving.Vouched.{served-shipped}

-- The incident that a call opens for a shipment, and the store with it.
module _ (now urgency : String) (shipment : Shipment) (store : MockServiceNow) where
  abbrev pub incident_for : Incident
  incident_for =
      new_incident now (short_description_of shipment) shipment.ci urgency (store.counter + 1)

  abbrev pub store_with : MockServiceNow
  store_with =
      grown now (short_description_of shipment) shipment.ci urgency (description_of shipment) store

-- A call of `raise_shipment_incident` by an operator, without answers yet.
pub record IsFirstCall (ctx : Context) : Type 0 where
  pub is_call : ctx.method ≡ some "tools/call"
  pub named : tool_of ctx ≡ "raise_shipment_incident"
  pub operator : IsOperator (roles_from_token ctx.token)
  pub unanswered : truth (answers_in (params_of ctx)) ≡ false

-- A shipment and an urgency for which the store can open an incident.
pub record CanRaise (shipments : Dict Shipment) (store : MockServiceNow)
    (shipment_id urgency : String) (shipment : Shipment) : Type 0 where
  pub known : lookup shipment_id shipments ≡ some shipment
  pub urgent : is_urgency urgency ≡ true
  pub present : Mock.find_configuration_item shipment.ci store ≢ none

module _ {Key : Type 0} (server : McpServer Key) (middleware : server.middleware ≡ some shipped)
    (env : Environment) (sdk : Sdk) (shipments : Dict Shipment) (now : Context → String)
    (clock : Context → ℕ) (ctx : Context) (w : World MockServiceNow) (shipment_id urgency : String)
    (shipment : Shipment) where
  abbrev next : Context → MockServiceNow → Outcome Answer × MockServiceNow
  next = run_request sdk shipments (λ request. mock_backend (now request)) clock

  run_raise :
      (retry : Context)
      → sdk.target_of retry ≡ some (tool (raise_call shipment_id urgency))
      → CanRaise shipments w.inner shipment_id urgency shipment
      → next retry w.inner ≡ (
        sdk.answer retry
            (ok (an_incident (summarise (incident_for (now retry) urgency shipment w.inner)))),
        store_with (now retry) urgency shipment w.inner,
      )
  unfolding run_request run_target
  run_raise retry target can =
      rw (run_request, target)
        (rw
          (raise_opens (now retry) shipments w.inner shipment_id urgency shipment can.known
            can.urgent can.present)
          refl)

  -- Behind the enforced shipped policy, the first call of an operator to raise an incident is
  -- answered with a question and changes nothing in the store; the call again, with the state of
  -- the question and a yes, opens the incident and is answered with it.
  pub first_call_opens :
      IsFirstCall ctx
      → CanRaise shipments w.inner shipment_id urgency shipment
      → (q : InputRequired) × (w' : World MockServiceNow) × (served server env next ctx w
          ≡ (returned (input_required q), w'))
        × (w'.inner ≡ w.inner)
        × ((retry : Context)
            → Retries ctx q retry
            → sdk.target_of retry ≡ some (tool (raise_call shipment_id urgency))
            → ((served server env next retry w').0
                ≡ sdk.answer retry (
                    ok (
                      an_incident (summarise (incident_for (now retry) urgency shipment w.inner)))))
              × ((served server env next retry w').1.inner
                  ≡ store_with (now retry) urgency shipment w.inner))
  first_call_opens first can =
      let roles = roles_from_token ctx.token in
      let granted = raise_shipment_incident_iff roles in
      let (q, w', asks, same, resumes) =
        approval_round_trip env shipped next ctx w first.is_call refl
          (subst (λ name. (decide_tool policy name roles).allowed ≡ true) (sym first.named)
            (granted.0.1 first.operator))
          (subst (λ name. (decide_tool policy name roles).requires_approval ≡ true)
            (sym first.named) granted.1)
          first.unanswered in
      (
        q,
        w',
        served-shipped server middleware env next ctx w ∙ asks,
        same,
        λ retry again target.
            let (answered, stored) = resumes retry again in
            let ran = run_raise retry target can in
            let through = served-shipped server middleware env next retry w' in
            (
              ap (λ r. r.0) through ∙ answered ∙ ap (λ r. r.0) ran,
              ap (λ r. r.1.inner) through ∙ stored ∙ ap (λ r. r.1) ran,
            ),
      )
