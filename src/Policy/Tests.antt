-- ===== src/Policy/Tests.antt =====
-- The shipped policy.yaml, and the theorems about policies at it.
use governed_mcp_server.Common.{
  ◌==◌, ◌≡◌, ◌≢◌, ◌↔◌, ◌||◌, refl, String, true, false, none, some, List, [], ◌∷◌, arith,
}
use governed_mcp_server.Common.Text.{starts_with}
use governed_mcp_server.Common.Glob.{fnmatchcase}
use governed_mcp_server.Common.Order.{contains, sorted_set}
use governed_mcp_server.Common.Dict.{lookup, insert}
use governed_mcp_server.Common.Value.{
  is_one, get, get_or, entries, str, dict, int, pos, list, list_items, bool,
}
use governed_mcp_server.Common.Show.{to_text}
use governed_mcp_server.Common.Result.{err}
use governed_mcp_server.Policy.Model.{Rule, undeclared_roles, allow_by_default}
use governed_mcp_server.Policy.Loading.{
  from_mapping, parse_rules, parse_rule, checked_classification, checked_roles, parse_entries,
  parse_roles,
}
use governed_mcp_server.Policy.Deciding.{decide_tool, decide_resource, resource_rule, visible_tools}
use governed_mcp_server.Policy.Document.{document, policy}
use governed_mcp_server.Policy.WellFormed.{IsWellFormed, from_mapping-IsWellFormed}
use governed_mcp_server.Policy.Shipped.{document_loads, policy-IsWellFormed}
use governed_mcp_server.Policy.Shipped.Reads.{IsReader, reading_tools, shipped_decisions_iff}
use governed_mcp_server.Policy.Decisions.{Shares, decisions_iff, decisions_ext, decisions_monotone}
use governed_mcp_server.Policy.Resources.{Fits, IsLongestMatch, resource_rule_longest}

loading : Unit {0}
unfolding from_mapping parse_rules parse_rule checked_classification checked_roles parse_entries
    parse_roles to_text sorted_set insert get_or
loading = tt

deciding : Unit {0}
unfolding decide_tool decide_resource resource_rule visible_tools fnmatchcase lookup sorted_set
deciding = tt

typo_is_rejected :
    from_mapping
      (dict (
        ("version", int (pos 1))
        ∷ ("roles", dict (("reader", dict []) ∷ []))
        ∷ (
          "tools",
          dict (("t", dict (("allow_roles", list (list_items (str "raeder" ∷ []))) ∷ [])) ∷ []),
        )
        ∷ []))
      "p"
    ≡ err (undeclared_roles "tools" "t" ("raeder" ∷ []))
unfolding loading
typo_is_rejected = refl

-- a boolean is a number: `version: true` is version 1
true_is_version_one :
    from_mapping (dict (("version", bool true) ∷ ("default", str "allow") ∷ [])) "p"
    ≡ err allow_by_default
unfolding loading
true_is_version_one = refl

from_mapping-IsWellFormed_example :
    IsWellFormed policy
    × (is_one (get "version" (entries document)) ≡ true)
    × (get_or "default" (str "deny") (entries document) ≡ str "deny")
from_mapping-IsWellFormed_example =
    from_mapping-IsWellFormed document "policy.yaml" policy document_loads

decisions_iff_example :
    ((tool : String)
      → ((decide_tool policy tool ("tlo.reader" ∷ [])).allowed ≡ true) ↔ (
          (rule : Rule) × (lookup tool policy.tools ≡ some rule) × Shares rule ("tlo.reader" ∷ [])))
    × ((uri : String)
        → ((decide_resource policy uri ("tlo.reader" ∷ [])).allowed ≡ true) ↔ (
            (rule : Rule) × (resource_rule policy uri ≡ some rule)
            × Shares rule ("tlo.reader" ∷ [])))
decisions_iff_example = decisions_iff policy ("tlo.reader" ∷ [])

reader_decisions :
    ((decide_tool policy "search_incidents" ("tlo.reader" ∷ [])).allowed ≡ true)
    × ((decide_tool policy "raise_shipment_incident" ("tlo.reader" ∷ [])).allowed ≡ false)
    × ((decide_tool policy "drop_tables" ("platform.admin" ∷ [])).allowed ≡ false)
    × ((decide_resource policy "shipment://SHP-1001" ("tlo.reader" ∷ [])).allowed ≡ true)
    × ((decide_resource policy "secrets://all" ("tlo.reader" ∷ [])).allowed ≡ false)
unfolding deciding
reader_decisions = (refl, refl, refl, refl, refl)

resource_rule_longest_example :
    ((rule : Rule)
      → resource_rule policy "shipment://SHP-1001" ≡ some rule
      → IsLongestMatch policy "shipment://SHP-1001" rule)
    × (resource_rule policy "shipment://SHP-1001" ≡ none
        → (pattern : String) → lookup pattern policy.resources ≢ none
        → ¬ Fits "shipment://SHP-1001" pattern)
resource_rule_longest_example =
    resource_rule_longest policy "shipment://SHP-1001" policy-IsWellFormed

abbrev reader_operator : List String
reader_operator = "tlo.reader" ∷ "tlo.operator" ∷ []

abbrev operator_reader : List String
operator_reader = "tlo.operator" ∷ "tlo.reader" ∷ "tlo.operator" ∷ []

same_roles : (role : String) → contains reader_operator role ≡ contains operator_reader role
same_roles role = ground arith

decisions_ext_example :
    ((tool : String)
      → decide_tool policy tool reader_operator ≡ decide_tool policy tool operator_reader)
    × ((uri : String)
        → decide_resource policy uri reader_operator ≡ decide_resource policy uri operator_reader)
decisions_ext_example = decisions_ext policy reader_operator operator_reader same_roles

more_roles :
    (role : String)
    → contains ("tlo.reader" ∷ []) role ≡ true
    → contains reader_operator role ≡ true
more_roles role e = ground arith

decisions_monotone_example :
    ((tool : String)
      → (decide_tool policy tool ("tlo.reader" ∷ [])).allowed ≡ true
      → (decide_tool policy tool reader_operator).allowed ≡ true)
    × ((uri : String)
        → (decide_resource policy uri ("tlo.reader" ∷ [])).allowed ≡ true
        → (decide_resource policy uri reader_operator).allowed ≡ true)
decisions_monotone_example =
    decisions_monotone policy ("tlo.reader" ∷ []) reader_operator more_roles

shipped_decisions_iff_example :
    ((tool : String)
      → contains reading_tools tool ≡ true
      → ((decide_tool policy tool ("tlo.reader" ∷ [])).allowed ≡ true)
        ↔ IsReader ("tlo.reader" ∷ []))
    × (((decide_tool policy "raise_shipment_incident" ("tlo.reader" ∷ [])).allowed ≡ true) ↔ (
        (contains ("tlo.reader" ∷ []) "tlo.operator"
          || contains ("tlo.reader" ∷ []) "platform.admin")
        ≡ true))
    × ((decide_tool policy "raise_shipment_incident" ("tlo.reader" ∷ [])).requires_approval ≡ true)
    × ((tool : String)
        → contains reading_tools tool ≡ false
        → (tool == "raise_shipment_incident") ≡ false
        → (decide_tool policy tool ("tlo.reader" ∷ [])).allowed ≡ false)
    × ((uri : String)
        → ((decide_resource policy uri ("tlo.reader" ∷ [])).allowed ≡ true)
          ↔ ((starts_with uri "shipment://" ≡ true) × IsReader ("tlo.reader" ∷ [])))
shipped_decisions_iff_example = shipped_decisions_iff ("tlo.reader" ∷ [])
