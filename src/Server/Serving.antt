-- ===== src/Server/Serving.antt =====
-- server.py: what `create_server` puts together. A request passes the middleware, if there is one,
-- and then runs the function that is registered for it, over the backend in use. The SDK reads from
-- a request which function that is, and with which arguments.
pub mod Effects
pub mod Counting
pub mod Vouched
pub mod Operator
pub mod Printed
pub mod SmallSdk
pub mod Tests
use governed_mcp_server.Common.{◌≡◌, ℕ, String, Option, none, some, List}
use governed_mcp_server.Common.Dict.{Dict}
use governed_mcp_server.Common.Result.{Result, ok, err}
use governed_mcp_server.Common.Value.{ℤ, Value}
use governed_mcp_server.ServiceNow.Backend.{ServiceNow}
use governed_mcp_server.Middleware.Flow.{Context, Answer, Outcome, Environment, Next, Flow, forward}
use governed_mcp_server.Middleware.Guards.{handle, tool_of}
use governed_mcp_server.Server.Model.{
  Shipment, ShipmentStatus, DelayedShipment, IncidentSummary, DelayAssessment, ToolError,
}
use governed_mcp_server.Server.Start.{McpServer}
use governed_mcp_server.Server.Tools.{
  Action, pure, get_shipment_status, list_delayed_shipments, search_incidents,
  get_configuration_item, assess_shipment_delay, raise_shipment_incident, shipment_detail,
}

-- A call of a registered tool, with the arguments that the SDK has checked against its signature.
pub data Call : Type 0 where
  status_call : (shipment_id : String) → Call
  delayed_call : (threshold_hours : ℤ) → Call
  search_call : (configuration_item : String) → (limit : ℤ) → Call
  item_call : (name : String) → Call
  assess_call : (shipment_id : String) → Call
  raise_call : (shipment_id urgency : String) → Call

-- the name that the tool is registered under
abbrev pub name_of : Call → String
name_of (status_call _) = "get_shipment_status"
name_of (delayed_call _) = "list_delayed_shipments"
name_of (search_call _ _) = "search_incidents"
name_of (item_call _) = "get_configuration_item"
name_of (assess_call _) = "assess_shipment_delay"
name_of (raise_call _ _) = "raise_shipment_incident"

-- What runs for a request: a tool, or the resource `shipment://{shipment_id}`.
pub data Target : Type 0 where
  tool : Call → Target
  resource : (shipment_id : String) → Target

-- What the registered functions return.
pub data Returned : Type 0 where
  a_status : ShipmentStatus → Returned
  some_delayed : List DelayedShipment → Returned
  some_incidents : List IncidentSummary → Returned
  an_item : Value → Returned
  an_assessment : DelayAssessment → Returned
  an_incident : IncidentSummary → Returned
  a_text : String → Returned

abbrev pub returning :
    {S A : Type 0} → (A → Returned) → Result ToolError A × S → Result ToolError Returned × S
returning f (ok a, s) = (ok (f a), s)
returning f (err e, s) = (err e, s)

-- The registered functions, over the shipments, the backend in use and the clock's reading.
module _ {S : Type 0} (shipments : Dict Shipment) (service_now : ServiceNow S) (clock : ℕ) where
  unfoldable pub run_target : Target → Action S Returned
  run_target (tool (status_call shipment_id)) s =
      returning a_status (get_shipment_status shipments shipment_id, s)
  run_target (tool (delayed_call threshold_hours)) s =
      pure (some_delayed (list_delayed_shipments clock shipments threshold_hours)) s
  run_target (tool (search_call configuration_item limit)) s =
      returning some_incidents (search_incidents service_now configuration_item limit s)
  run_target (tool (item_call name)) s =
      returning an_item (get_configuration_item service_now name s)
  run_target (tool (assess_call shipment_id)) s =
      returning an_assessment (assess_shipment_delay service_now clock shipments shipment_id s)
  run_target (tool (raise_call shipment_id urgency)) s =
      returning an_incident (raise_shipment_incident service_now shipments shipment_id urgency s)
  run_target (resource shipment_id) s = pure (a_text (shipment_detail shipments shipment_id)) s

-- What is relied on of the SDK: it runs a tool for a `tools/call` with the tool's name only. The
-- rest is open: which arguments it takes, how it answers with what a function returns or raises,
-- and its answer where it runs nothing.
pub record Sdk : Type 0 where
  pub target_of : Context → Option Target
  pub answer : Context → Result ToolError Returned → Outcome Answer
  pub unserved : Context → Outcome Answer
  pub calls_by_name :
      (ctx : Context) (call : Call)
      → target_of ctx ≡ some (tool call)
      → (ctx.method ≡ some "tools/call") × (tool_of ctx ≡ name_of call)

module _ {S : Type 0} (sdk : Sdk) (shipments : Dict Shipment) (service_now : Context → ServiceNow S)
    (clock : Context → ℕ) where
  abbrev pub run_found : Context → Option Target → S → Outcome Answer × S
  run_found ctx none s = (sdk.unserved ctx, s)
  run_found ctx (some target) s =
      let (result, s') = run_target shipments (service_now ctx) (clock ctx) target s in
      (sdk.answer ctx result, s')

  -- The handler behind the middleware; the backend and the clock are those that the request finds.
  unfoldable pub run_request : Next S
  run_request ctx s = run_found ctx (sdk.target_of ctx) s

-- A request to the server.
module _ {Key S : Type 0} (server : McpServer Key) (env : Environment) (call_next : Next S) where
  unfoldable pub served : Context → Flow S Answer
  served ctx = elim server.middleware [
    | none ↦ forward call_next ctx
    | some mw ↦ handle env mw call_next ctx
  ]
