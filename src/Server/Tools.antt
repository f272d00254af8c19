-- ===== src/Server/Tools.antt =====
-- server.py: the tools, as functions of the shipments, of the backend in use and of the clock's
-- reading; a tool that calls the backend passes on the backend's state.
use governed_mcp_server.Common.{
  ℕ, ◌+◌, ◌-◌, ◌*◌, String, Bool, true, false, not, Option, none, some, List, [], ◌∷◌, map, ltb,
  keep, ◌==◌, ◌&&◌, ◌||◌, if◌then◌else◌,
}
use governed_mcp_server.Common.Text.{◌+++◌, is_empty}
use governed_mcp_server.Common.Clock.{hour, minute_text}
use governed_mcp_server.Common.Double.{
  Double, zero_double, nearest, over, exceeds, minus, round_tenth,
}
use governed_mcp_server.Common.Dict.{Dict, lookup}
use governed_mcp_server.Common.Result.{Result, ok, err}
use governed_mcp_server.Common.Value.{ℤ, pos, negsuc, Value, str, bool, dict}
use governed_mcp_server.ServiceNow.Model.{Incident, ConfigurationItem, Fault}
use governed_mcp_server.ServiceNow.Backend.{ServiceNow}
use governed_mcp_server.Server.Model.{
  Shipment, ShipmentStatus, DelayedShipment, IncidentSummary, DelayAssessment, ToolError,
  value_error, backend_error, summarise,
}

abbrev unknown_shipment : String → ToolError
unknown_shipment shipment_id = value_error ("unknown shipment: " +++ shipment_id)

abbrev status_of : String → Option Shipment → Result ToolError ShipmentStatus
status_of shipment_id none = err (unknown_shipment shipment_id)
status_of shipment_id (some shipment) = ok (record {
  id = shipment.id;
  status = shipment.status;
  origin = shipment.origin;
  destination = shipment.destination;
  eta = shipment.eta;
  configuration_item = shipment.ci;
})

unfoldable pub get_shipment_status : Dict Shipment → String → Result ToolError ShipmentStatus
get_shipment_status shipments shipment_id = status_of shipment_id (lookup shipment_id shipments)

-- `eta > now + timedelta(hours=threshold)`
abbrev pub is_after : (now : ℕ) → (threshold_hours : ℤ) → (eta : ℕ) → Bool
is_after now (pos n) eta = ltb (now + n * hour) eta
is_after now (negsuc n) eta = ltb now (eta + (n + 1) * hour)

abbrev pub is_late : (now : ℕ) → (threshold_hours : ℤ) → Shipment → Bool
is_late now threshold_hours s = not (s.status == "delivered") && is_after now threshold_hours s.eta

abbrev pub delayed_shipment : Shipment → DelayedShipment
delayed_shipment s = record {
  id = s.id;
  destination = s.destination;
  eta = s.eta;
  configuration_item = s.ci;
}

abbrev pub values : Dict Shipment → List Shipment
values shipments = map (λ item. item.1) shipments

unfoldable pub list_delayed_shipments :
    (now : ℕ) → Dict Shipment → (threshold_hours : ℤ) → List DelayedShipment
list_delayed_shipments now shipments threshold_hours =
    map delayed_shipment (keep (is_late now threshold_hours) (values shipments))

-- The hours by which a shipment arrives later than a day after `now`. A difference that is negative
-- is what `max` replaces by 0.0.
abbrev pub hours_late : (now : ℕ) → Shipment → Double
hours_late now shipment =
    let hours = over (nearest (shipment.eta - now) 1000000) 3600 in
    if exceeds hours 24 then minus hours 24 else zero_double

abbrev is_some : {A : Type 0} → Option A → Bool
is_some none = false
is_some (some _) = true

abbrev raise_new : Shipment → String
raise_new shipment = "Raise a new incident against " +++ (shipment.ci +++ ".")

abbrev pub enrich : Shipment → (number : String) → String
enrich shipment number =
    "Enrich "
    +++ (number
        +++ (" rather than opening a duplicate — "
            +++ (shipment.ci +++ " already has an open incident.")))

abbrev recommend_open : Shipment → List Incident → String
recommend_open shipment [] = raise_new shipment
recommend_open shipment (first ∷ _) = enrich shipment first.number

abbrev pub recommendation : Shipment → Option ConfigurationItem → List Incident → String
recommendation shipment item open_incidents =
    if not (shipment.status == "delayed")
    then "No action: shipment is not flagged as delayed."
    else elim item [
      | none ↦
          "Escalate manually: "
          +++ (shipment.ci
              +++ " is not in the CMDB, so an incident raised against it would not route.")
      | some _ ↦ recommend_open shipment open_incidents
    ]

abbrev pub bad_urgency : ToolError
bad_urgency = value_error "urgency must be '1' (high), '2' (medium) or '3' (low)"

abbrev pub is_urgency : String → Bool
is_urgency urgency = urgency == "1" || (urgency == "2" || urgency == "3")

abbrev pub description_of : Shipment → String
description_of shipment =
    "Shipment "
    +++ (shipment.id
        +++ (" from "
            +++ (shipment.origin
                +++ (" to "
                    +++ (shipment.destination
                        +++ (" is flagged "
                            +++ (shipment.status
                                +++ (" with an estimated arrival of "
                                    +++ (minute_text shipment.eta
                                        +++ " UTC. Raised from the MCP layer.")))))))))

abbrev pub short_description_of : Shipment → String
short_description_of shipment =
    "Shipment " +++ (shipment.id +++ (" delayed to " +++ shipment.destination))

abbrev detail_of : String → Option Shipment → String
detail_of shipment_id none = "No shipment " +++ (shipment_id +++ ".")
detail_of shipment_id (some shipment) =
    shipment.id
    +++ (": "
        +++ (shipment.origin
            +++ (" -> "
                +++ (shipment.destination
                    +++ (", status "
                        +++ (shipment.status
                            +++ (", ETA "
                                +++ (minute_text shipment.eta
                                    +++ (" UTC, CI " +++ (shipment.ci +++ "."))))))))))

unfoldable pub shipment_detail : Dict Shipment → String → String
shipment_detail shipments shipment_id = detail_of shipment_id (lookup shipment_id shipments)

-- A call of the backend: what it raises ends the tool.
abbrev pub Action : (S A : Type 0) → Type 0
Action S A = S → Result ToolError A × S

infixl 5 ◌>>=◌
abbrev pub ◌>>=◌ : {S A B : Type 0} → (S → Result Fault A × S) → (A → Action S B) → Action S B
◌>>=◌ m next s =
    let (result, s') = m s in elim result [ ok a ↦ next a s' | err e ↦ (err (backend_error e), s') ]

abbrev pub pure : {S A : Type 0} → A → Action S A
pure a s = (ok a, s)

abbrev pub raise : {S A : Type 0} → ToolError → Action S A
raise e s = (err e, s)

module _ {S : Type 0} (service_now : ServiceNow S) where
  unfoldable pub search_incidents :
      (configuration_item : String) → (limit : ℤ) → Action S (List IncidentSummary)
  search_incidents configuration_item limit =
      service_now.search_incidents
        (if is_empty configuration_item then none else some configuration_item) true limit
      >>= λ found. pure (map summarise found)

  abbrev item_fields : String → Option ConfigurationItem → Value
  item_fields name none = dict (("found", bool false) ∷ ("name", str name) ∷ [])
  item_fields name (some item) = dict (
      ("found", bool true)
      ∷ ("name", str item.name)
      ∷ ("class", str item.ci_class)
      ∷ ("operational_status", str item.operational_status)
      ∷ [])

  unfoldable pub get_configuration_item : (name : String) → Action S Value
  get_configuration_item name =
      service_now.find_configuration_item name >>= λ item. pure (item_fields name item)

  abbrev pub assess :
      (now : ℕ) → (shipment_id : String) → Option Shipment → Action S DelayAssessment
  assess now shipment_id none = raise (unknown_shipment shipment_id)
  assess now shipment_id (some shipment) =
      service_now.find_configuration_item shipment.ci >>= λ item.
      service_now.search_incidents (some shipment.ci) true (pos 10) >>= λ open_incidents.
      pure (record {
        shipment_id = shipment.id;
        delayed = shipment.status == "delayed";
        hours_late = round_tenth (hours_late now shipment);
        configuration_item = shipment.ci;
        configuration_item_found = is_some item;
        open_incidents = map summarise open_incidents;
        recommendation = recommendation shipment item open_incidents;
      })

  unfoldable pub assess_shipment_delay :
      (now : ℕ) → Dict Shipment → (shipment_id : String) → Action S DelayAssessment
  assess_shipment_delay now shipments shipment_id =
      assess now shipment_id (lookup shipment_id shipments)

  abbrev pub raise_for : (shipment_id urgency : String) → Option Shipment → Action S IncidentSummary
  raise_for shipment_id urgency none = raise (unknown_shipment shipment_id)
  raise_for shipment_id urgency (some shipment) =
      if not (is_urgency urgency)
      then raise bad_urgency
      else service_now.create_incident (short_description_of shipment) shipment.ci urgency
          (description_of shipment)
        >>= λ incident. pure (summarise incident)

  unfoldable pub raise_shipment_incident :
      Dict Shipment → (shipment_id urgency : String) → Action S IncidentSummary
  raise_shipment_incident shipments shipment_id urgency =
      raise_for shipment_id urgency (lookup shipment_id shipments)
