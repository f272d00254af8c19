-- ===== src/Policy/Shipped.antt =====
-- The shipped policy.yaml loads, and what it allows.
pub mod Reads
use governed_mcp_server.Common.{
  ◌≡◌, ◌↔◌, refl, String, List, true, ◌||◌, arith, any, [], ◌∷◌, sym, ap₂, ◌∙◌, eq_iff,
}
use governed_mcp_server.Common.Order.{sorted_set, contains, contains-sorted_set}
use governed_mcp_server.Common.Dict.{insert, lookup}
use governed_mcp_server.Common.Value.{get_or}
use governed_mcp_server.Common.Show.{to_text}
use governed_mcp_server.Common.Result.{ok}
use governed_mcp_server.Policy.Loading.{
  from_mapping, parse_rules, parse_rule, checked_classification, checked_roles, parse_entries,
  parse_roles,
}
use governed_mcp_server.Policy.Document.{document, policy}
use governed_mcp_server.Policy.Deciding.{decide_tool}
use governed_mcp_server.Policy.WellFormed.{IsWellFormed, from_mapping-IsWellFormed}

pub document_loads : from_mapping document "policy.yaml" ≡ ok policy
unfolding from_mapping parse_rules parse_rule checked_classification checked_roles parse_entries
    parse_roles to_text sorted_set insert get_or
document_loads = refl

pub policy-IsWellFormed : IsWellFormed policy
policy-IsWellFormed = (from_mapping-IsWellFormed document "policy.yaml" policy document_loads).0

pub any-contains_pair :
    (a b : String) (xs : List String)
    → any (contains (a ∷ b ∷ [])) xs ≡ (contains xs a || contains xs b)
any-contains_pair a b [] = refl
any-contains_pair a b (x ∷ xs) =
    ground (arith, eq_iff a x, eq_iff x a, eq_iff b x, eq_iff x b, any-contains_pair a b xs)

pub raise_shipment_incident_iff :
    (roles : List String)
    → let decision = decide_tool policy "raise_shipment_incident" roles in
      ((decision.allowed ≡ true)
        ↔ ((contains roles "tlo.operator" || contains roles "platform.admin") ≡ true))
      × (decision.requires_approval ≡ true)
unfolding decide_tool lookup
raise_shipment_incident_iff roles =
    let holds : any (contains ("tlo.operator" ∷ "platform.admin" ∷ [])) (sorted_set roles)
        ≡ (contains roles "tlo.operator" || contains roles "platform.admin") =
      any-contains_pair "tlo.operator" "platform.admin" (sorted_set roles)
      ∙ ap₂ (λ a b. a || b) (contains-sorted_set roles "tlo.operator")
          (contains-sorted_set roles "platform.admin") in
    ((λ e. sym holds ∙ e, λ e. holds ∙ e), refl)
