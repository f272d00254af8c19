-- ===== src/ServiceNow/Mock.antt =====
-- governance/servicenow.py: `MockServiceNow`. A method returns its result and the new store; the
-- clock's reading is an argument.
pub mod Picked
pub mod Search
pub mod Numbers
pub mod Bounds
use governed_mcp_server.Common.{
  ℕ, ◌+◌, String, Bool, true, not, Option, none, some, List, [], ◌∷◌, ◌++◌, ◌==◌, ◌&&◌, ◌||◌, keep,
  if◌then◌else◌, is_nil,
}
use governed_mcp_server.Common.Text.{◌+++◌}
use governed_mcp_server.Common.Decimal.{padded}
use governed_mcp_server.Common.Dict.{Dict, lookup}
use governed_mcp_server.Common.Result.{Result, ok, err}
use governed_mcp_server.Common.Value.{ℤ}
use governed_mcp_server.ServiceNow.Model.{
  Incident, ConfigurationItem, ServiceNowError, no_configuration_item, slice_to,
}

pub record MockServiceNow : Type 0 where
  pub incidents : List Incident
  pub configuration_items : Dict ConfigurationItem
  pub counter : ℕ

abbrev pub default_items : Dict ConfigurationItem
default_items =
    (
      "CI-WMS-01",
      record {
        name = "CI-WMS-01";
        sys_id = "a1b2c3d4";
        ci_class = "cmdb_ci_appl";
        operational_status = "1";
      },
    )
    ∷ (
      "CI-TMS-02",
      record {
        name = "CI-TMS-02";
        sys_id = "e5f6a7b8";
        ci_class = "cmdb_ci_appl";
        operational_status = "1";
      },
    )
    ∷ []

abbrev pub default_incident : Incident
default_incident = record {
  number = "INC0010001";
  sys_id = "11111111";
  short_description = "WMS batch job latency above threshold";
  state = "2";
  urgency = "2";
  configuration_item = "CI-WMS-01";
  opened_at = "2026-07-30 08:14:02";
}

-- The constructor with `__post_init__`: an empty argument is replaced by the sample data.
unfoldable pub new : List Incident → Dict ConfigurationItem → MockServiceNow
new incidents configuration_items = record {
  incidents = if is_nil incidents then default_incident ∷ [] else incidents;
  configuration_items = if is_nil configuration_items then default_items else configuration_items;
  counter = 0;
}

unfoldable pub find_configuration_item : String → MockServiceNow → Option ConfigurationItem
find_configuration_item name store = lookup name store.configuration_items

abbrev asked_for : Option String → Incident → Bool
asked_for none incident = true
asked_for (some name) incident = incident.configuration_item == name

-- the test of the comprehension in `search_incidents`
abbrev pub selects : Option String → Bool → Incident → Bool
selects configuration_item active_only incident =
    asked_for configuration_item incident
    && (not active_only || not (incident.state == "6" || incident.state == "7"))

unfoldable pub search_incidents :
    Option String → (active_only : Bool) → (limit : ℤ) → MockServiceNow → List Incident
search_incidents configuration_item active_only limit store =
    slice_to limit (keep (selects configuration_item active_only) store.incidents)

abbrev pub mock_number : ℕ → String
mock_number counter = "INC00200" +++ padded 2 counter

abbrev pub mock_id : ℕ → String
mock_id counter = "mock" +++ padded 8 counter

-- The incident that `create_incident` appends.
abbrev pub new_incident :
    (now short_description configuration_item urgency : String) → (counter : ℕ) → Incident
new_incident now short_description configuration_item urgency counter = record {
  number = mock_number counter;
  sys_id = mock_id counter;
  short_description = short_description;
  state = "1";
  urgency = urgency;
  configuration_item = configuration_item;
  opened_at = now;
}

abbrev pub create_for :
    Option ConfigurationItem
    → (now short_description configuration_item urgency : String) → MockServiceNow
    → Result ServiceNowError Incident × MockServiceNow
create_for none now short_description configuration_item urgency store =
    (err (no_configuration_item configuration_item), store)
create_for (some _) now short_description configuration_item urgency store =
    let incident =
      new_incident now short_description configuration_item urgency (store.counter + 1) in
    (
      ok incident,
      record store { incidents = store.incidents ++ incident ∷ []; counter = store.counter + 1 },
    )

-- The text of the incident's description is not kept.
unfoldable pub create_incident :
    (now short_description configuration_item urgency description : String)
    → MockServiceNow
    → Result ServiceNowError Incident × MockServiceNow
create_incident now short_description configuration_item urgency description store =
    create_for (lookup configuration_item store.configuration_items) now short_description
      configuration_item urgency store
