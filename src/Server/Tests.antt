-- ===== src/Server/Tests.antt =====
-- The tools on the sample shipments and the mock's sample data.
use governed_mcp_server.Common.{◌≡◌, refl, ℕ, ◌+◌, ◌*◌, String, [], ◌∷◌, map, keep, not, ◌==◌, ◌&&◌}
use governed_mcp_server.Common.Dict.{Dict, lookup}
use governed_mcp_server.Common.Decimal.{padded}
use governed_mcp_server.Common.Clock.{minute_text, hour}
use governed_mcp_server.Common.Result.{err}
use governed_mcp_server.Common.Value.{pos, negsuc}
use governed_mcp_server.ServiceNow.Mock
use governed_mcp_server.ServiceNow.Mock.{MockServiceNow, new}
use governed_mcp_server.ServiceNow.Backend.{mock_backend}
use governed_mcp_server.Server.Model.{Shipment, fixtures, value_error}
use governed_mcp_server.Server.Tools.{
  raise_shipment_incident, assess_shipment_delay, search_incidents, get_configuration_item,
  list_delayed_shipments, shipment_detail, get_shipment_status, bad_urgency, delayed_shipment,
  values, hours_late,
}
use governed_mcp_server.Server.Delays.{Raising, raise_shipment_incident-Raising}
use governed_mcp_server.Server.Reassessing.{Reassessed, raise_then_assess}
use governed_mcp_server.Server.Reading.{reading_tools_lem}
use governed_mcp_server.Server.Lateness.{is_positive, list_delayed_shipments-hours_late}
use governed_mcp_server.Common.Double.{nearest, nearest_integer, scale_from, round_tenth}

serving : Unit {0}
unfolding new lookup padded Mock.search_incidents Mock.create_incident Mock.find_configuration_item
    raise_shipment_incident assess_shipment_delay search_incidents get_configuration_item
    list_delayed_shipments shipment_detail get_shipment_status minute_text
serving = tt

-- 2026-08-01 12:00 in UTC
abbrev noon : ℕ
noon = 1785585600000000

abbrev noon_text : String
noon_text = "2026-08-01 12:00:00"

abbrev shipments : Dict Shipment
shipments = fixtures noon

abbrev sample : MockServiceNow
sample = new [] []

abbrev late : Shipment
late = record {
  id = "SHP-1002";
  origin = "Antwerp";
  destination = "Venlo";
  status = "delayed";
  eta = noon + 31 * hour;
  ci = "CI-WMS-01";
}

detail_runs :
    (shipment_detail shipments "SHP-1002"
      ≡ "SHP-1002: Antwerp -> Venlo, status delayed, ETA 2026-08-02 19:00 UTC, CI CI-WMS-01.")
    × (shipment_detail shipments "SHP-1" ≡ "No shipment SHP-1.")
    × (get_shipment_status shipments "SHP-1" ≡ err (value_error "unknown shipment: SHP-1"))
unfolding serving
detail_runs = (refl, refl, refl)

delayed_runs :
    (map (λ d. d.id) (list_delayed_shipments noon shipments (pos 24))
      ≡ "SHP-1002" ∷ "SHP-1004" ∷ [])
    × (map (λ d. d.id) (list_delayed_shipments noon shipments (pos 31)) ≡ "SHP-1004" ∷ [])
    × (map (λ d. d.id) (list_delayed_shipments noon shipments (negsuc 0))
        ≡ "SHP-1001" ∷ "SHP-1002" ∷ "SHP-1004" ∷ [])
unfolding serving
delayed_runs = (refl, refl, refl)

-- The hours of the shipments; a microsecond over a day rounds to 0.0, and 33 minutes and 7
-- microseconds over a day round to 0.6.
hours_run :
    (map (hours_late noon) (values shipments)
      ≡ nearest 0 1 ∷ nearest 7 1 ∷ nearest 0 1 ∷ nearest 28 1 ∷ [])
    × (round_tenth (hours_late noon (record late { eta = noon + 86400000001 })) ≡ nearest 0 1)
    × (round_tenth (hours_late noon (record late { eta = noon + 88380000007 })) ≡ nearest 6 10)
unfolding nearest nearest_integer scale_from
hours_run = (refl, refl, refl)

raise_fails :
    (raise_shipment_incident (mock_backend noon_text) shipments "SHP-1" "3" sample
      ≡ (err (value_error "unknown shipment: SHP-1"), sample))
    × (raise_shipment_incident (mock_backend noon_text) shipments "SHP-1002" "4" sample
        ≡ (err bad_urgency, sample))
unfolding serving
raise_fails = (refl, refl)

raise_shipment_incident-Raising_example :
    Raising noon_text shipments sample "SHP-1002" "2"
      (raise_shipment_incident (mock_backend noon_text) shipments "SHP-1002" "2" sample)
raise_shipment_incident-Raising_example =
    raise_shipment_incident-Raising noon_text shipments sample "SHP-1002" "2"

raise_then_assess_example :
    let result = raise_shipment_incident (mock_backend noon_text) shipments "SHP-1002" "2" sample in
    Reassessed noon_text shipments sample "SHP-1002" "2" late result
      (assess_shipment_delay (mock_backend noon_text) noon shipments "SHP-1002" result.1)
unfolding lookup new Mock.find_configuration_item
raise_then_assess_example =
    raise_then_assess noon_text shipments sample "SHP-1002" "2" noon noon_text late refl refl
      (λ e. cc)

reading_tools_lem_example :
    ((assess_shipment_delay (mock_backend noon_text) noon shipments "SHP-1002" sample).1 ≡ sample)
    × ((search_incidents (mock_backend noon_text) "SHP-1002" (pos 10) sample).1 ≡ sample)
    × ((get_configuration_item (mock_backend noon_text) "SHP-1002" sample).1 ≡ sample)
reading_tools_lem_example =
    reading_tools_lem (mock_backend noon_text) (λ name s. refl) (λ item active_only limit s. refl)
      noon shipments "SHP-1002" (pos 10) sample

list_delayed_shipments-hours_late_example :
    list_delayed_shipments noon shipments (pos 24)
    ≡ map delayed_shipment (
        keep
          (λ s. not (s.status == "delivered") && is_positive (hours_late noon s))
          (values shipments))
list_delayed_shipments-hours_late_example = list_delayed_shipments-hours_late noon shipments
