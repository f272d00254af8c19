-- ===== src/Policy/Document.antt =====
-- policy.yaml: the document that the server ships, as the YAML parser reads it.
use governed_mcp_server.Common.{String, true, false, List, [], ◌∷◌, map}
use governed_mcp_server.Policy.Model.{Rule, Policy}
use governed_mcp_server.Common.Value.{Value, pos, int, str, bool, list, list_items, dict}

abbrev describe : String → Value
describe s = dict (("description", str s) ∷ [])

abbrev everyone : List String
everyone = "tlo.reader" ∷ "tlo.operator" ∷ "platform.admin" ∷ []

abbrev names : List String → Value
names xs = list (list_items (map str xs))

abbrev read_tool : String → Value
read_tool description = dict (
    ("classification", str "internal")
    ∷ ("description", str description)
    ∷ ("allow_roles", names everyone)
    ∷ [])

abbrev pub approval_prompt : String
approval_prompt =
    "This will open a ServiceNow incident against a production configuration item and notify the on-call rota. Approve?"

abbrev raise_shipment_incident : Value
raise_shipment_incident = dict (
    ("classification", str "confidential")
    ∷ (
      "description",
      str
          "Lighthouse use case, write half. Opens an incident in ServiceNow, which pages a rota and is visible to the customer-facing service desk — hence a higher classification than the read tools and a narrower grant.",
    )
    ∷ ("allow_roles", names ("tlo.operator" ∷ "platform.admin" ∷ []))
    ∷ ("requires_approval", bool true)
    ∷ ("approval_prompt", str approval_prompt)
    ∷ [])

abbrev roles : Value
roles = dict (
    (
      "tlo.reader",
      describe
          "Read-only visibility into transport and logistics operations. The default role for dashboards, reporting and support staff.",
    )
    ∷ (
      "tlo.operator",
      describe
          "Everything a reader may do, plus actions that change state in a downstream system. Granted to the operations team.",
    )
    ∷ (
      "platform.admin",
      describe
          "Break-glass access for the platform team. Intended to be assigned temporarily and reviewed on every access recertification.",
    )
    ∷ [])

abbrev tools : Value
tools = dict (
    ("get_shipment_status", read_tool "Point lookup of a single shipment.")
    ∷ ("list_delayed_shipments", read_tool "Bulk view of shipments at risk.")
    ∷ ("search_incidents", read_tool "Read open incidents from ServiceNow.")
    ∷ ("get_configuration_item", read_tool "Look up a configuration item in the CMDB.")
    ∷ (
      "assess_shipment_delay",
      read_tool
          "Lighthouse use case, read-only half. Correlates a delayed shipment to its handling system and any incidents already open against it.",
    )
    ∷ ("raise_shipment_incident", raise_shipment_incident)
    ∷ [])

abbrev resources : Value
resources = dict (
    (
      "shipment://*",
      dict (("classification", str "internal") ∷ ("allow_roles", names everyone) ∷ []),
    )
    ∷ [])

abbrev pub document : Value
document = dict (
    ("version", int (pos 1))
    ∷ ("default", str "deny")
    ∷ ("roles", roles)
    ∷ ("tools", tools)
    ∷ ("resources", resources)
    ∷ [])

abbrev everyone_may : String → String → Rule
everyone_may pattern description = record {
  pattern = pattern;
  allow_roles = everyone;
  classification = "internal";
  description = description;
  requires_approval = false;
  approval_prompt = "";
}

-- The policy that this document loads as.
abbrev pub policy : Policy
policy = record {
  tools =
      (
        "get_shipment_status",
        everyone_may "get_shipment_status" "Point lookup of a single shipment.",
      )
      ∷ (
        "list_delayed_shipments",
        everyone_may "list_delayed_shipments" "Bulk view of shipments at risk.",
      )
      ∷ ("search_incidents", everyone_may "search_incidents" "Read open incidents from ServiceNow.")
      ∷ (
        "get_configuration_item",
        everyone_may "get_configuration_item" "Look up a configuration item in the CMDB.",
      )
      ∷ (
        "assess_shipment_delay",
        everyone_may "assess_shipment_delay"
            "Lighthouse use case, read-only half. Correlates a delayed shipment to its handling system and any incidents already open against it.",
      )
      ∷ (
        "raise_shipment_incident",
        record {
          pattern = "raise_shipment_incident";
          allow_roles = "tlo.operator" ∷ "platform.admin" ∷ [];
          classification = "confidential";
          description =
              "Lighthouse use case, write half. Opens an incident in ServiceNow, which pages a rota and is visible to the customer-facing service desk — hence a higher classification than the read tools and a narrower grant.";
          requires_approval = true;
          approval_prompt = approval_prompt;
        },
      )
      ∷ [];
  resources = ("shipment://*", everyone_may "shipment://*" "") ∷ [];
  declared_roles = everyone;
  source = "policy.yaml";
}
