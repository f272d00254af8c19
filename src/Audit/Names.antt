-- ===== src/Audit/Names.antt =====
-- What a line of the audit trail keeps of the arguments.
use governed_mcp_server.Common.{◌≡◌, String, Option, some, List, map}
use governed_mcp_server.Common.Value.{Entries, Value, key_values}
use governed_mcp_server.Common.Order.{contains}
use governed_mcp_server.Common.Order.Unique.{sorted_set_ext}
use governed_mcp_server.Common.Show.{to_text}
use governed_mcp_server.Policy.Model.{Decision}
use governed_mcp_server.Audit.{entry_for}

abbrev pub names_in : Entries → List String
names_in arguments = map to_text (key_values arguments)

module _ (now principal method : String) (decision : Decision) (version : Value) where
  -- The values and the order of the arguments do not reach the trail: two calls whose arguments
  -- have the same names leave the same line.
  pub entry_for-names_only :
      (m n : Entries) (outcome : Option String)
      → ((name : String) → contains (names_in m) name ≡ contains (names_in n) name)
      → entry_for now principal method decision (some m) version outcome
        ≡ entry_for now principal method decision (some n) version outcome
  unfolding entry_for
  entry_for-names_only m n outcome same = rw (sorted_set_ext (names_in m) (names_in n) same)
