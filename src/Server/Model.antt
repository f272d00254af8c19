-- ===== src/Server/Model.antt =====
-- server.py: shipments, and what the tools return. A `datetime` is in microseconds.
use governed_mcp_server.Common.{ℕ, ◌+◌, ◌-◌, ◌*◌, String, Bool, List, [], ◌∷◌}
use governed_mcp_server.Common.Clock.{hour}
use governed_mcp_server.Common.Double.{Double}
use governed_mcp_server.Common.Dict.{Dict}
use governed_mcp_server.ServiceNow.Model.{Incident, Fault}

pub record Shipment : Type 0 where
  pub id : String
  pub origin : String
  pub destination : String
  pub status : String
  pub eta : ℕ
  pub ci : String

pub record ShipmentStatus : Type 0 where
  pub id : String
  pub status : String
  pub origin : String
  pub destination : String
  pub eta : ℕ
  pub configuration_item : String

pub record DelayedShipment : Type 0 where
  pub id : String
  pub destination : String
  pub eta : ℕ
  pub configuration_item : String

pub record IncidentSummary : Type 0 where
  pub number : String
  pub short_description : String
  pub state : String
  pub urgency : String
  pub configuration_item : String
  pub opened_at : String

pub record DelayAssessment : Type 0 where
  pub shipment_id : String
  pub delayed : Bool
  pub hours_late : Double
  pub configuration_item : String
  pub configuration_item_found : Bool
  pub open_incidents : List IncidentSummary
  pub recommendation : String

-- What a tool raises: a `ValueError`, or what its backend raised.
pub data ToolError : Type 0 where
  value_error : (message : String) → ToolError
  backend_error : Fault → ToolError

-- `_fixtures`, keyed by `s.id`, at a time of import that is 12 hours or more after the epoch
abbrev pub fixtures : (now : ℕ) → Dict Shipment
fixtures now =
    (
      "SHP-1001",
      record {
        id = "SHP-1001";
        origin = "Rotterdam";
        destination = "Duisburg";
        status = "in_transit";
        eta = now + 6 * hour;
        ci = "CI-WMS-01";
      },
    )
    ∷ (
      "SHP-1002",
      record {
        id = "SHP-1002";
        origin = "Antwerp";
        destination = "Venlo";
        status = "delayed";
        eta = now + 31 * hour;
        ci = "CI-WMS-01";
      },
    )
    ∷ (
      "SHP-1003",
      record {
        id = "SHP-1003";
        origin = "Rotterdam";
        destination = "Lille";
        status = "delivered";
        eta = now - 12 * hour;
        ci = "CI-TMS-02";
      },
    )
    ∷ (
      "SHP-1004",
      record {
        id = "SHP-1004";
        origin = "Zeebrugge";
        destination = "Koln";
        status = "delayed";
        eta = now + 52 * hour;
        ci = "CI-TMS-02";
      },
    )
    ∷ []

abbrev pub summarise : Incident → IncidentSummary
summarise incident = record {
  number = incident.number;
  short_description = incident.short_description;
  state = incident.state;
  urgency = incident.urgency;
  configuration_item = incident.configuration_item;
  opened_at = incident.opened_at;
}
