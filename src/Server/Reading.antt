-- ===== src/Server/Reading.antt =====
-- What the tools that read leave unchanged.
use governed_mcp_server.Common.{
  ◌≡◌, refl, ℕ, String, Bool, true, Option, none, some, arith, if◌then◌else◌,
}
use governed_mcp_server.Common.Dict.{Dict, lookup}
use governed_mcp_server.Common.Text.{is_empty}
use governed_mcp_server.Common.Value.{ℤ, pos}
use governed_mcp_server.ServiceNow.Backend.{ServiceNow}
use governed_mcp_server.Server.Model.{Shipment}
use governed_mcp_server.Server.Tools.{
  assess, assess_shipment_delay, search_incidents, get_configuration_item,
}

module _ {S : Type 0} where
  abbrev pub Reads : {A : Type 0} → (S → A × S) → Type 0
  Reads m = (s : S) → (m s).1 ≡ s

module _ {S : Type 0} (service_now : ServiceNow S)
    (find_reads : (name : String) → Reads (service_now.find_configuration_item name))
    (search_reads : (item : Option String) (active_only : Bool) (limit : ℤ)
      → Reads (service_now.search_incidents item active_only limit)) where
  assess-Reads :
      (clock : ℕ) (name : String) (shipment : Option Shipment)
      → Reads (assess service_now clock name shipment)
  assess-Reads clock name none s = refl
  assess-Reads clock name (some shipment) s = ground (
    arith,
    find_reads shipment.ci s,
    search_reads (some shipment.ci) true (pos 10)
        (service_now.find_configuration_item shipment.ci s).1,
  )

  -- Over a backend whose find and search leave its state alone, so do the three tools that read,
  -- also where they raise.
  pub reading_tools_lem :
      (clock : ℕ) (shipments : Dict Shipment) (name : String) (limit : ℤ) (s : S)
      → ((assess_shipment_delay service_now clock shipments name s).1 ≡ s)
        × ((search_incidents service_now name limit s).1 ≡ s)
        × ((get_configuration_item service_now name s).1 ≡ s)
  unfolding assess_shipment_delay search_incidents get_configuration_item
  reading_tools_lem clock shipments name limit s = (
    assess-Reads clock name (lookup name shipments) s,
    ground (arith, search_reads (if is_empty name then none else some name) true limit s),
    ground (arith, find_reads name s),
  )
