-- ===== src/ServiceNow/Model.antt =====
-- governance/servicenow.py: incidents, configuration items and errors.
use governed_mcp_server.Common.{ℕ, String, List, length, take, ◌-◌, ◌+◌}
use governed_mcp_server.Common.Value.{
  ℤ, pos, negsuc, Value, str, mapping, Entries, get, get_or, or_else,
}
use governed_mcp_server.Common.Show.{to_text}

pub record Incident : Type 0 where
  pub number : String
  pub sys_id : String
  pub short_description : String
  pub state : String
  pub urgency : String
  pub configuration_item : String
  pub opened_at : String

pub record ConfigurationItem : Type 0 where
  pub name : String
  pub sys_id : String
  pub ci_class : String
  pub operational_status : String

-- By the parts of its message; a failed request names the exception's class.
pub data ServiceNowError : Type 0 where
  credentials_missing : (missing : List String) → ServiceNowError
  request_failed : (exception : String) → ServiceNowError
  credentials_rejected : ServiceNowError
  bad_status : (status : ℕ) (table : String) → ServiceNowError
  no_configuration_item : (name : String) → ServiceNowError

-- What a call raises: the error above, or an exception that a record of another shape causes.
pub data Fault : Type 0 where
  service_now : ServiceNowError → Fault
  wrong_shape : Fault

-- `xs[:limit]`
abbrev pub slice_to {ℓ} : {A : Type ℓ} → ℤ → List A → List A
slice_to (pos n) xs = take n xs
slice_to (negsuc n) xs = take (length xs - (n + 1)) xs

-- `str(record.get(name, ""))`
abbrev pub column : String → Entries → String
column name record_ = to_text (get_or name (str "") record_)

-- the configuration item of a record, which may be a reference
abbrev item_of : Value → Value
item_of (mapping ci) = or_else (get "display_value" ci) (get "value" ci)
item_of ci = ci

unfoldable pub from_record : Entries → Incident
from_record fields = record {
  number = column "number" fields;
  sys_id = column "sys_id" fields;
  short_description = column "short_description" fields;
  state = column "state" fields;
  urgency = column "urgency" fields;
  configuration_item = to_text (or_else (item_of (get "cmdb_ci" fields)) (str ""));
  opened_at = column "opened_at" fields;
}
