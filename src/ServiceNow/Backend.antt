-- ===== src/ServiceNow/Backend.antt =====
-- governance/servicenow.py: what the tools depend on, and the two backends that satisfy it.
use governed_mcp_server.Common.{String, Bool, Option, List, []}
use governed_mcp_server.Common.Dict.{Dict}
use governed_mcp_server.Common.Result.{Result, ok, err, ◌>>=◌}
use governed_mcp_server.Common.Value.{ℤ}
use governed_mcp_server.ServiceNow.Model.{
  Incident, ConfigurationItem, Fault, ServiceNowError, service_now,
}
use governed_mcp_server.ServiceNow.Mock
use governed_mcp_server.ServiceNow.Mock.{MockServiceNow, new}
use governed_mcp_server.ServiceNow.Live
use governed_mcp_server.ServiceNow.Live.{LiveServiceNow, Client, from_environment}

-- The methods, over the state `S` that their calls pass on.
pub record ServiceNow (S : Type 0) : Type 0 where
  pub find_configuration_item : String → S → Result Fault (Option ConfigurationItem) × S
  pub search_incidents :
      Option String → (active_only : Bool) → (limit : ℤ) → S → Result Fault (List Incident) × S
  pub create_incident :
      (short_description configuration_item urgency description : String)
      → S
      → Result Fault Incident × S

abbrev fault_of : {A : Type 0} → Result ServiceNowError A → Result Fault A
fault_of (ok a) = ok a
fault_of (err e) = err (service_now e)

-- The mock, with the clock's reading.
abbrev pub mock_backend : (now : String) → ServiceNow MockServiceNow
mock_backend now = record {
  find_configuration_item = λ name store. (ok (Mock.find_configuration_item name store), store);
  search_incidents = λ configuration_item active_only limit store.
      (ok (Mock.search_incidents configuration_item active_only limit store), store);
  create_incident = λ short_description configuration_item urgency description store.
      let (result, store') =
        Mock.create_incident now short_description configuration_item urgency description store in
      (fault_of result, store');
}

abbrev pub live_backend : {S : Type 0} → Client S → LiveServiceNow → ServiceNow S
live_backend client live = record {
  find_configuration_item = Live.find_configuration_item client live;
  search_incidents = Live.search_incidents client live;
  create_incident = Live.create_incident client live;
}

pub data Backend : Type 0 where
  mock : MockServiceNow → Backend
  live : LiveServiceNow → Backend

pub data BackendName : Type 0 where
  mock_name : BackendName
  live_name : BackendName

-- `build`, with the process's environment
unfoldable pub build : BackendName → (environ : Dict String) → Result Fault Backend
build mock_name environ = ok (mock (new [] []))
build live_name environ = from_environment environ >>= λ client. ok (live client)
