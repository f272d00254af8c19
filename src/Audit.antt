-- ===== src/Audit.antt =====
-- governance/audit.py: the authorization decision trail. The clock is an argument; the JSON text of
-- a line is the record that it prints.
pub mod Names
pub mod Stream
pub mod Text
pub mod Tests
use mathlib.Core.Option
use governed_mcp_server.Common.{String, Bool, Option, none, some, List, ◌==◌, map, if◌then◌else◌}
use governed_mcp_server.Common.Order.{sorted_set}
use governed_mcp_server.Common.Value.{Entries, Value, key_values}
use governed_mcp_server.Common.Show.{to_text}
use governed_mcp_server.Policy.Model.{Decision}

pub record Event : Type 0 where
  pub timestamp : String
  pub principal : String
  pub method : String
  pub target : String
  pub outcome : String
  pub reason : String
  pub classification : Option String
  pub required_roles : List String
  pub granted_roles : List String
  pub protocol_version : Value
  pub argument_names : Option (List String)
  pub arguments : Option Entries

pub data Level : Type 0 where
  warning info : Level

pub record Line : Type 0 where
  pub level : Level
  pub event : Event

-- `_RECORD_ARGUMENT_VALUES`
abbrev pub record_argument_values : Bool
record_argument_values = Bool.false

-- `sorted(arguments)`: the names of the arguments, which are texts in a JSON object.
abbrev pub argument_names : Entries → List String
argument_names arguments = sorted_set (map to_text (key_values arguments))

abbrev pub allow_or_deny : Bool → String
allow_or_deny allowed = if allowed then "allow" else "deny"

-- `outcome or …`: an empty text counts as none
abbrev outcome_of : Option String → Bool → String
outcome_of none allowed = allow_or_deny allowed
outcome_of (some outcome) allowed = if outcome == "" then allow_or_deny allowed else outcome

abbrev pub kept_arguments : Option Entries → Option Entries
kept_arguments none = none
kept_arguments (some m) = if record_argument_values then some m else none

unfoldable pub entry_for :
    String → String → String → Decision → Option Entries → Value → Option String → Line
entry_for now principal method decision arguments protocol_version outcome =
    let result = outcome_of outcome decision.allowed in
    record {
      level = if result == "deny" then warning else info;
      event = record {
        timestamp = now;
        principal = principal;
        method = method;
        target = decision.target;
        outcome = result;
        reason = decision.reason;
        classification = decision.classification;
        required_roles = decision.required_roles;
        granted_roles = decision.granted_roles;
        protocol_version = protocol_version;
        argument_names = Option.map argument_names arguments;
        arguments = kept_arguments arguments;
      };
    }
