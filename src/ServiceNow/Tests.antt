-- ===== src/ServiceNow/Tests.antt =====
-- The mock with its sample data, and an instance with one incident.
use governed_mcp_server.Common.{
  ◌≤◌, ◌<◌, length, map, ◌≡◌, ◌↔◌, refl, ℕ, String, true, false, none, some, List, [], ◌∷◌, ◌++◌,
  arith, if◌then◌else◌, ◌==◌, suc,
}
use governed_mcp_server.Common.Dict.{lookup}
use governed_mcp_server.Common.Text.{starts_with, strip, join}
use governed_mcp_server.Common.Decimal.{padded}
use governed_mcp_server.Common.Show.{to_text}
use governed_mcp_server.Common.Result.{Result, ok, err}
use governed_mcp_server.Common.Value.{Value, str, list, dict, list_items, get_or, pos, negsuc}
use governed_mcp_server.ServiceNow.Model.{
  Incident, Fault, service_now, credentials_missing, credentials_rejected, request_failed,
  bad_status, from_record,
}
use governed_mcp_server.ServiceNow.Mock
use governed_mcp_server.ServiceNow.Mock.{
  MockServiceNow, selects, new, new_incident, default_incident, create_incident,
  find_configuration_item,
}
use governed_mcp_server.ServiceNow.Mock.Search.{search-create_incident}
use governed_mcp_server.ServiceNow.Mock.Numbers.{
  start, after_create, AllDistinct, Reachable-AllDistinct,
}
use governed_mcp_server.ServiceNow.Live
use governed_mcp_server.ServiceNow.Live.{
  LiveServiceNow, Client, Reply, http_error, response, request, get_method, base_url,
  from_environment,
}
use governed_mcp_server.ServiceNow.Mock.Bounds.{slice_length, search_incidents_bounds}
use governed_mcp_server.ServiceNow.Live.Active.{closed_differ}
use governed_mcp_server.ServiceNow.Mock.Picked.{IsWanted, Picked}
use governed_mcp_server.ServiceNow.Live.ReadBack.{
  Form, named, displayed, valued, incident_in, records_of, search_request, search_reads_back,
}
use governed_mcp_server.ServiceNow.Live.Requests.{Carries, request_iff}

mocking : Unit {0}
unfolding new lookup padded Mock.search_incidents create_incident find_configuration_item
mocking = tt

talking : Unit {0}
unfolding request Live.search_incidents Live.create_incident Live.find_configuration_item
    from_environment starts_with join to_text get_or from_record
talking = tt

abbrev sample : MockServiceNow
sample = new [] []

abbrev noon : String
noon = "2026-08-01 12:00:00"

create_runs : create_incident noon "late" "CI-WMS-01" "2" "" sample ≡ (
  ok (record {
    number = "INC0020001";
    sys_id = "mock00000001";
    short_description = "late";
    state = "1";
    urgency = "2";
    configuration_item = "CI-WMS-01";
    opened_at = noon;
  }),
  record sample {
    incidents = default_incident ∷ new_incident noon "late" "CI-WMS-01" "2" 1 ∷ [];
    counter = 1;
  },
)
unfolding mocking
create_runs = refl

search-create_incident_example :
    let (result, after) = create_incident noon "late" "CI-WMS-01" "2" "" sample in
    let before = Mock.search_incidents (some "CI-WMS-01") true (pos 10) sample in
    let incident = new_incident noon "late" "CI-WMS-01" "2" 1 in
    (result ≡ ok incident)
    × (Mock.search_incidents (some "CI-WMS-01") true (pos 10) after
        ≡ (if "CI-WMS-01" == "CI-WMS-01" then before ++ incident ∷ [] else before))
unfolding mocking
search-create_incident_example =
    search-create_incident noon "late" "CI-WMS-01" "2" "" sample "CI-WMS-01" 10 (λ e. cc)
      (omega arith)

abbrev second : MockServiceNow
second = (create_incident noon "late" "CI-WMS-01" "2" "" sample).1

Reachable-AllDistinct_example :
    AllDistinct (λ incident. incident.sys_id) second.incidents
    × AllDistinct (λ incident. incident.number) second.incidents
Reachable-AllDistinct_example =
    Reachable-AllDistinct second (after_create noon "late" "CI-WMS-01" "2" "" start)

abbrev live : LiveServiceNow
live = record { instance_name = "acme"; user = "svc"; password = "secret" }

-- An instance that answers every request alike and counts them.
abbrev answering : Reply → Client ℕ
answering reply _ n = (reply, suc n)

abbrev records : Value
records = list (
    list_items (
      dict (
        ("number", str "INC1")
        ∷ ("cmdb_ci", dict (("display_value", str "CI-WMS-01") ∷ ("link", str "x") ∷ []))
        ∷ [])
      ∷ []))

abbrev found : Reply
found = response 200 (some (dict (("result", records) ∷ [])))

abbrev search_with : Reply → Result Fault (List Incident)
search_with reply =
    (Live.search_incidents (answering reply) live (some "CI-WMS-01") true (pos 10) 0).0

live_runs :
    (search_with found
      ≡ ok (
          record {
            number = "INC1";
            sys_id = "";
            short_description = "";
            state = "";
            urgency = "";
            configuration_item = "CI-WMS-01";
            opened_at = "";
          }
          ∷ []))
    × (search_with (response 401 none) ≡ err (service_now credentials_rejected))
    × (search_with (response 503 none) ≡ err (service_now (bad_status 503 "incident")))
    × (search_with (http_error "ConnectError") ≡ err (service_now (request_failed "ConnectError")))
    × (search_with (response 200 (some (dict []))) ≡ ok [])
unfolding talking
live_runs = (refl, refl, refl, refl, refl)

from_environment_runs :
    (from_environment (
        ("SERVICENOW_INSTANCE", " https://acme.example/ ")
        ∷ ("SERVICENOW_USER", "svc")
        ∷ ("SERVICENOW_PASSWORD", "secret")
        ∷ [])
      ≡ ok (record { instance_name = "https://acme.example"; user = "svc"; password = "secret" }))
    × (from_environment (("SERVICENOW_USER", "svc") ∷ ("SERVICENOW_PASSWORD", "") ∷ [])
        ≡ err (
            service_now (credentials_missing ("SERVICENOW_INSTANCE" ∷ "SERVICENOW_PASSWORD" ∷ []))))
unfolding talking lookup strip
from_environment_runs = (refl, refl)

request_iff_example :
    ((request (answering found) live get_method "incident" [] none 0).0 ≡ ok records)
    ↔ Carries found records
request_iff_example = request_iff (answering found) live get_method "incident" [] none 0 records

abbrev with_closed : MockServiceNow
with_closed = record sample {
  incidents = record default_incident { state = "7" } ∷ sample.incidents;
}

closed_differ_example :
    (Live.search_incidents (answering found) live none false (pos 10) 0
      ≡ Live.search_incidents (answering found) live none true (pos 10) 0)
    × (lookup "sysparm_query" (search_request (answering found) live none false (pos 10)).params
        ≡ some "active=true")
    × (Mock.search_incidents none false (pos 10) with_closed ≡ with_closed.incidents)
    × (length (Mock.search_incidents none true (pos 10) with_closed)
        < length (Mock.search_incidents none false (pos 10) with_closed))
unfolding new
closed_differ_example = closed_differ (answering found) live 10 0 with_closed (omega arith) refl

-- All incidents but the last.
search_incidents_bounds_example :
    let found = Mock.search_incidents none true (negsuc 0) second in
    (wanted : List Incident) × (rest : List Incident) × Picked
      (IsWanted none true)
      second.incidents
      wanted
    × (found ++ rest ≡ wanted)
    × (length found ≡ slice_length (negsuc 0) (length wanted))
    × (length found ≤ length second.incidents)
search_incidents_bounds_example = search_incidents_bounds none true (negsuc 0) second

all_but_the_last : length (Mock.search_incidents none true (negsuc 0) second) ≡ 1
unfolding mocking
all_but_the_last = refl

abbrev rows : List (Form × Incident)
rows =
    (displayed "https://acme/ci/1", default_incident)
    ∷ (valued, new_incident noon "late" "CI-WMS-01" "2" 1)
    ∷ (named, new_incident noon "lost" "CI-TMS-02" "1" 2)
    ∷ []

-- A table that answers every search with these rows.
abbrev table : Client ℕ
table = answering (response 200 (some (dict (("result", list (records_of rows)) ∷ []))))

carried :
    Carries (table (search_request table live none true (pos 10)) 0).0 (list (records_of rows))
unfolding get_or
carried = (200, _, refl, omega arith, refl)

search_reads_back_example :
    Live.search_incidents table live none true (pos 10) 0 ≡ (ok (map incident_in rows), 1)
search_reads_back_example = search_reads_back table live none true (pos 10) 0 rows carried
