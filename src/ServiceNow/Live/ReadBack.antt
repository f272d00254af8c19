-- ===== src/ServiceNow/Live/ReadBack.antt =====
-- Searches of an instance that holds given incidents.

use governed_mcp_server.Common.{◌≡◌, refl, ap, String, Bool, Option, none, List, [], ◌∷◌, map}
use governed_mcp_server.Common.Text.{◌+++◌}
use governed_mcp_server.Common.Result.{ok}
use governed_mcp_server.Common.Show.{to_text}
use governed_mcp_server.Common.Value.{
  ℤ, Value, null, or_else, str, int, list, dict, mapping, Items, nil, cons, Entries, dict_entries,
  get_or,
}
use governed_mcp_server.ServiceNow.Model.{Incident, from_record}
use governed_mcp_server.ServiceNow.Live.{
  LiveServiceNow, Client, Request, get_method, request, search_incidents, base_url, query,
  incidents_in_items,
}
use governed_mcp_server.ServiceNow.Live.Requests.{Carries, request_iff}

-- The forms in which the Table API gives a configuration item: its name, or a reference with the
-- name to display or as the value.
pub data Form : Type 0 where
  named : Form
  displayed : (link : String) → Form
  valued : Form

abbrev pub reference : Form → String → Value
reference named name = str name
reference (displayed link) name = dict (("display_value", str name) ∷ ("link", str link) ∷ [])
reference valued name = dict (("value", str name) ∷ [])

-- An incident as a record of the table.
abbrev pub record_of : Form × Incident → Entries
record_of (form, incident) = dict_entries (
    ("number", str incident.number)
    ∷ ("sys_id", str incident.sys_id)
    ∷ ("short_description", str incident.short_description)
    ∷ ("state", str incident.state)
    ∷ ("urgency", str incident.urgency)
    ∷ ("cmdb_ci", reference form incident.configuration_item)
    ∷ ("opened_at", str incident.opened_at)
    ∷ [])

abbrev pub records_of : List (Form × Incident) → Items
records_of [] = nil
records_of (row ∷ rows) = cons (mapping (record_of row)) (records_of rows)

text_kept : (name : String) → to_text (or_else (str name) (str "")) ≡ name
unfolding to_text
text_kept String.[] = refl
text_kept (String.◌∷◌ c name) = refl

displayed_kept : (name : String) → to_text (or_else (or_else (str name) null) (str "")) ≡ name
unfolding to_text
displayed_kept String.[] = refl
displayed_kept (String.◌∷◌ c name) = refl

from_record-record_of :
    (form : Form) (incident : Incident) → from_record (record_of (form, incident)) ≡ incident
unfolding from_record get_or to_text
from_record-record_of named incident =
    ap (λ ci. record incident { configuration_item = ci }) (text_kept incident.configuration_item)
from_record-record_of (displayed link) incident =
    ap (λ ci. record incident { configuration_item = ci })
      (displayed_kept incident.configuration_item)
from_record-record_of valued incident =
    ap (λ ci. record incident { configuration_item = ci }) (text_kept incident.configuration_item)

abbrev pub incident_in : Form × Incident → Incident
incident_in row = row.1

module _ {S : Type 0} (client : Client S) (live : LiveServiceNow) where
  incidents_in_items-records_of :
      (rows : List (Form × Incident))
      → incidents_in_items client live (records_of rows) ≡ ok (map incident_in rows)
  unfolding incidents_in_items
  incidents_in_items-records_of [] = refl
  incidents_in_items-records_of ((form, incident) ∷ rows) =
      rw (incidents_in_items-records_of rows, from_record-record_of form incident) refl

  -- the request of a search
  abbrev pub search_request : Option String → (active_only : Bool) → (limit : ℤ) → Request
  search_request configuration_item active_only limit = record {
    method = get_method;
    url = base_url live +++ ("/" +++ "incident");
    auth = (live.user, live.password);
    params =
        ("sysparm_query", query client live configuration_item active_only)
        ∷ ("sysparm_limit", to_text (int limit))
        ∷ ("sysparm_display_value", "true")
        ∷ [];
    json = none;
  }

  asks :
      (configuration_item : Option String) (active_only : Bool) (limit : ℤ) (s : S)
      → let asked = search_request configuration_item active_only limit in
        (request client live get_method "incident" asked.params none s).1 ≡ (client asked s).1
  unfolding request
  asks configuration_item active_only limit s = refl

  -- Where the instance answers the request of a search with records of the table, in any of the
  -- forms of a reference, the search reads back exactly the incidents that these records are of,
  -- in their order, whatever the texts are.
  pub search_reads_back :
      (configuration_item : Option String) (active_only : Bool) (limit : ℤ) (s : S)
      → (rows : List (Form × Incident))
      → Carries
          (client (search_request configuration_item active_only limit) s).0
          (list (records_of rows))
      → search_incidents client live configuration_item active_only limit s ≡ (
        ok (map incident_in rows),
        (client (search_request configuration_item active_only limit) s).1,
      )
  unfolding search_incidents
  search_reads_back configuration_item active_only limit s rows carried =
      let asked = search_request configuration_item active_only limit in
      let answer : (request client live get_method "incident" asked.params none s).0
          ≡ ok (list (records_of rows)) =
        (request_iff client live get_method "incident" asked.params none s
            (list (records_of rows))).1
          carried in
      rw (answer, incidents_in_items-records_of rows, asks configuration_item active_only limit s)
        refl
