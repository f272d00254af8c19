-- ===== src/Server/Serving/Effects.antt =====
-- Which requests change the state of the backend: calls of the tool that writes, and no other.
use governed_mcp_server.Common.{
  ◌≡◌, ◌≢◌, ◌⊎◌, refl, ◌∙◌, ℕ, String, Bool, Option, none, some, inl, inr,
}
use governed_mcp_server.Common.Dict.{Dict}
use governed_mcp_server.Common.Result.{Result, ok, err}
use governed_mcp_server.Common.Value.{ℤ, pos}
use governed_mcp_server.ServiceNow.Backend.{ServiceNow}
use governed_mcp_server.Middleware.Flow.{Context}
use governed_mcp_server.Middleware.Guards.{tool_of}
use governed_mcp_server.Server.Model.{Shipment, ToolError}
use governed_mcp_server.Server.Reading.{Reads, reading_tools_lem}
use governed_mcp_server.Server.Tools.{
  assess_shipment_delay, search_incidents, get_configuration_item,
}
use governed_mcp_server.Server.Serving.{
  status_call, delayed_call, search_call, item_call, assess_call, raise_call, Target, tool,
  resource, Returned, returning, run_target, Sdk, run_found, run_request,
}

-- A backend whose find and search leave its state alone.
pub record IsReading {S : Type 0} (service_now : ServiceNow S) : Type 0 where
  pub find_reads : (name : String) → Reads (service_now.find_configuration_item name)
  pub search_reads :
      (item : Option String) (active_only : Bool) (limit : ℤ)
      → Reads (service_now.search_incidents item active_only limit)

-- A call of the tool that writes.
pub record Writes (target : Option Target) : Type 0 where
  pub shipment_id : String
  pub urgency : String
  pub calls : target ≡ some (tool (raise_call shipment_id urgency))

module _ {S : Type 0} where
  pub returning-inner :
      {A : Type 0} (f : A → Returned) (r : Result ToolError A × S) → (returning f r).1 ≡ r.1
  returning-inner f (ok a, s) = refl
  returning-inner f (err e, s) = refl

  module _ (shipments : Dict Shipment) (service_now : ServiceNow S)
      (reading : IsReading service_now) (clock : ℕ) (s : S) where
    reads_named :
        (name : String) (limit : ℤ)
        → ((assess_shipment_delay service_now clock shipments name s).1 ≡ s)
          × ((search_incidents service_now name limit s).1 ≡ s)
          × ((get_configuration_item service_now name s).1 ≡ s)
    reads_named name limit =
        reading_tools_lem service_now reading.find_reads reading.search_reads clock shipments name
          limit s

    run_target-cases :
        (target : Target)
        → Writes (some target) ⊎ ((run_target shipments service_now clock target s).1 ≡ s)
    unfolding run_target
    run_target-cases (tool (status_call shipment_id)) = inr (returning-inner _ _)
    run_target-cases (tool (delayed_call hours)) = inr refl
    run_target-cases (tool (search_call item limit)) =
        inr (returning-inner _ _ ∙ (reads_named item limit).1)
    run_target-cases (tool (item_call name)) =
        inr (returning-inner _ _ ∙ (reads_named name (pos 0)).2)
    run_target-cases (tool (assess_call name)) =
        inr (returning-inner _ _ ∙ (reads_named name (pos 0)).0)
    run_target-cases (tool (raise_call shipment_id urgency)) =
        inl (record { shipment_id = shipment_id; urgency = urgency; calls = refl })
    run_target-cases (resource shipment_id) = inr refl

pub Writes-named :
    (sdk : Sdk) (ctx : Context)
    → Writes (sdk.target_of ctx)
    → (ctx.method ≡ some "tools/call") × (tool_of ctx ≡ "raise_shipment_incident")
Writes-named sdk ctx writes =
    sdk.calls_by_name ctx (raise_call writes.shipment_id writes.urgency) writes.calls

module _ {S : Type 0} (sdk : Sdk) (shipments : Dict Shipment) (service_now : Context → ServiceNow S)
    (clock : Context → ℕ) (reading : (ctx : Context) → IsReading (service_now ctx)) (ctx : Context)
    (s : S) where
  run_found-cases :
      (found : Option Target)
      → Writes found ⊎ ((run_found sdk shipments service_now clock ctx found s).1 ≡ s)
  run_found-cases none = inr refl
  run_found-cases (some target) =
      run_target-cases shipments (service_now ctx) (reading ctx) (clock ctx) s target

  -- A request is a call of the tool that writes, or leaves the state of the backend alone.
  pub run_request-cases :
      Writes (sdk.target_of ctx) ⊎ ((run_request sdk shipments service_now clock ctx s).1 ≡ s)
  unfolding run_request
  run_request-cases = run_found-cases (sdk.target_of ctx)

  pub run_request-named :
      (run_request sdk shipments service_now clock ctx s).1 ≢ s
      → (ctx.method ≡ some "tools/call") × (tool_of ctx ≡ "raise_shipment_incident")
  run_request-named changed = elim run_request-cases [
    | inl writes ↦ Writes-named sdk ctx writes
    | inr same ↦ absurd (changed same)
  ]
