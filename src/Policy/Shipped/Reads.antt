-- ===== src/Policy/Shipped/Reads.antt =====
-- What the shipped policy.yaml allows to be read.
use governed_mcp_server.Common.{
  ◌≡◌, ◌↔◌, ◌⊎◌, ◌==◌, false, subst, Option-cases, refl, String, List, true, ◌||◌, arith, any, [],
  ◌∷◌, sym, ap₂, ◌∙◌, eq_iff, Bool-cases, inl, inr,
}
use governed_mcp_server.Common.Text.{starts_with}
use governed_mcp_server.Common.Glob.{fnmatchcase}
use governed_mcp_server.Common.Glob.Prefix.{prefix_star}
use governed_mcp_server.Common.Order.{sorted_set, contains, contains-sorted_set}
use governed_mcp_server.Common.Dict.{lookup}
use governed_mcp_server.Policy.Resources.{contains-keys}
use governed_mcp_server.Policy.Document.{policy}
use governed_mcp_server.Policy.Shipped.{any-contains_pair, raise_shipment_incident_iff}
use governed_mcp_server.Policy.Deciding.{decide_tool, decide_resource}

any-contains_cons :
    (a : String) (names xs : List String)
    → any (contains (a ∷ names)) xs ≡ (contains xs a || any (contains names) xs)
any-contains_cons a names [] = refl
any-contains_cons a names (x ∷ xs) =
    ground (arith, eq_iff a x, eq_iff x a, any-contains_cons a names xs)

shipment_pattern : (uri : String) → fnmatchcase uri "shipment://*" ≡ starts_with uri "shipment://"
shipment_pattern uri = prefix_star "shipment://" uri refl

-- the roles that may look things up
abbrev pub IsReader : List String → Type 0
IsReader roles =
    (contains roles "tlo.reader"
      || (contains roles "tlo.operator" || contains roles "platform.admin"))
    ≡ true

-- the tools that only look things up
abbrev pub reading_tools : List String
reading_tools =
    "get_shipment_status" ∷ "list_delayed_shipments" ∷ "search_incidents" ∷ "get_configuration_item"
    ∷ "assess_shipment_delay" ∷ []

some_role :
    (roles : List String)
    → any (contains ("tlo.reader" ∷ "tlo.operator" ∷ "platform.admin" ∷ [])) (sorted_set roles) ≡ (
        contains roles "tlo.reader"
        || (contains roles "tlo.operator" || contains roles "platform.admin"))
some_role roles =
    any-contains_cons "tlo.reader" ("tlo.operator" ∷ "platform.admin" ∷ []) (sorted_set roles)
    ∙ ap₂ (λ a b. a || b) (contains-sorted_set roles "tlo.reader")
        (any-contains_pair "tlo.operator" "platform.admin" (sorted_set roles)
          ∙ ap₂ (λ a b. a || b) (contains-sorted_set roles "tlo.operator")
              (contains-sorted_set roles "platform.admin"))

shipment_reads_iff :
    (uri : String) (roles : List String)
    → ((decide_resource policy uri roles).allowed ≡ true)
      ↔ ((starts_with uri "shipment://" ≡ true) × IsReader roles)
unfolding decide_resource lookup
shipment_reads_iff uri roles = elim (Bool-cases (starts_with uri "shipment://")) [
  | inl begins ↦
      let selected = shipment_pattern uri ∙ begins in
      rw (selected, begins) (λ e. (refl, sym (some_role roles) ∙ e), λ (_, e). some_role roles ∙ e)
  | inr other ↦
      let unselected = shipment_pattern uri ∙ other in
      rw (unselected, other) (λ e. cc, λ (e, _). cc)
]

member-cases :
    (x y : String) (ys : List String)
    → contains (y ∷ ys) x ≡ true
    → (y ≡ x) ⊎ (contains ys x ≡ true)
member-cases x y ys e = elim (Bool-cases (x == y)) [
  | inl same ↦ inl (sym ((eq_iff x y).0 same))
  | inr other ↦ inr (ground (arith, e, other))
]

-- a rule for everyone who may read
abbrev OpenTool : List String → String → Type 0
OpenTool roles tool = ((decide_tool policy tool roles).allowed ≡ true) ↔ IsReader roles

abbrev AllOpen : List String → List String → Type 0
AllOpen roles [] = Unit
AllOpen roles (tool ∷ tools) = OpenTool roles tool × AllOpen roles tools

open_among :
    (roles tools : List String) (tool : String)
    → AllOpen roles tools
    → contains tools tool ≡ true
    → OpenTool roles tool
open_among roles [] tool h e = cc
open_among roles (t ∷ tools) tool (h, hs) e = elim (member-cases tool t tools e) [
  | inl same ↦ subst (OpenTool roles) same h
  | inr later ↦ open_among roles tools tool hs later
]

reading_tool_iff :
    (tool : String) (roles : List String) → contains reading_tools tool ≡ true → OpenTool roles tool
unfolding decide_tool lookup
reading_tool_iff tool roles e =
    let readers : ((any (contains ("tlo.reader" ∷ "tlo.operator" ∷ "platform.admin" ∷ []))
            (sorted_set roles))
          ≡ true)
        ↔ IsReader roles =
      (λ h. sym (some_role roles) ∙ h, λ h. some_role roles ∙ h) in
    open_among roles reading_tools tool (readers, (readers, (readers, (readers, (readers, tt))))) e

unlisted-denied :
    (tool : String) (roles : List String)
    → contains reading_tools tool ≡ false
    → (tool == "raise_shipment_incident") ≡ false
    → (decide_tool policy tool roles).allowed ≡ false
unfolding decide_tool
unlisted-denied tool roles e other = elim (Option-cases (lookup tool policy.tools)) [
  | inl missing ↦ rw missing refl
  | inr (rule, found) ↦
      let listed = (contains-keys policy.tools tool).1 λ none_found. cc in
      absurd (ground (arith, e, other, listed))
]

-- The shipped policy: a tool that only looks things up may be called, and a URI that starts with
-- `shipment://` read, exactly by a reader, an operator or an administrator; an incident is raised
-- exactly by an operator or an administrator, and with a human's approval; every other tool and
-- every other URI is denied to everyone.
pub shipped_decisions_iff :
    (roles : List String)
    → ((tool : String)
        → contains reading_tools tool ≡ true
        → ((decide_tool policy tool roles).allowed ≡ true) ↔ IsReader roles)
      × (((decide_tool policy "raise_shipment_incident" roles).allowed ≡ true)
          ↔ ((contains roles "tlo.operator" || contains roles "platform.admin") ≡ true))
      × ((decide_tool policy "raise_shipment_incident" roles).requires_approval ≡ true)
      × ((tool : String)
          → contains reading_tools tool ≡ false
          → (tool == "raise_shipment_incident") ≡ false
          → (decide_tool policy tool roles).allowed ≡ false)
      × ((uri : String)
          → ((decide_resource policy uri roles).allowed ≡ true)
            ↔ ((starts_with uri "shipment://" ≡ true) × IsReader roles))
shipped_decisions_iff roles =
    let (raises, approves) = raise_shipment_incident_iff roles in
    (
      λ tool e. reading_tool_iff tool roles e,
      raises,
      approves,
      λ tool e other. unlisted-denied tool roles e other,
      λ uri. shipment_reads_iff uri roles,
    )
