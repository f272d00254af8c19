-- ===== src/Policy/Decisions.antt =====
-- What a decision of the policy means.
use governed_mcp_server.Common.{
  ◌≡◌, refl, sym, subst, ◌∙◌, String, Bool, true, false, Option, none, some, List, [], ◌∷◌, ◌↔◌,
  inl, inr, eq_iff, arith, any, Bool-cases,
}
use governed_mcp_server.Common.Order.{contains, sorted_set, contains-sorted_set}
use governed_mcp_server.Common.Order.Unique.{sorted_set_ext}
use governed_mcp_server.Common.Dict.{Dict, lookup}
use mathlib.Core.Option.{some-injective}
use governed_mcp_server.Policy.Model.{Policy, Rule}
use governed_mcp_server.Policy.Deciding.{
  grants, decide_by, match_rule, decide_tool, decide_resource, resource_rule, visible_from,
  visible_tools,
}
use governed_mcp_server.Policy.WellFormed.{AreSound, IsWellFormed}

-- a role that the caller holds and the rule names
abbrev pub Shares : Rule → List String → Type 0
Shares rule roles =
    (role : String) × (contains roles role ≡ true) × (contains rule.allow_roles role ≡ true)

any_sound :
    (p : String → Bool) (xs : List String)
    → any p xs ≡ true
    → (x : String) × (contains xs x ≡ true) × (p x ≡ true)
any_sound p [] e = cc
any_sound p (x ∷ xs) e = elim (Bool-cases (p x)) [
  | inl here ↦ (x, ground (arith, eq_iff x x), here)
  | inr later ↦ let (y, found, holds) = any_sound p xs (ground arith) in (y, ground arith, holds)
]

any_complete :
    (p : String → Bool) (xs : List String) (x : String)
    → contains xs x ≡ true
    → p x ≡ true
    → any p xs ≡ true
any_complete p [] x c e = cc
any_complete p (y ∷ ys) x c e = ground (arith, eq_iff x y, any_complete p ys x)

pub grants_iff :
    (rule : Rule) (roles : List String)
    → (grants rule (sorted_set roles) ≡ true) ↔ Shares rule roles
grants_iff rule roles = (
  λ e.
      let (role, held, named) = any_sound (contains rule.allow_roles) (sorted_set roles) e in
      (role, rw contains-sorted_set at held, named),
  λ (role, held, named).
      any_complete (contains rule.allow_roles) (sorted_set roles) role (rw contains-sorted_set held)
        named,
)

decide_by_iff :
    (found : Option Rule) (reason target : String) (roles : List String)
    → ((decide_by found reason target (sorted_set roles)).allowed ≡ true)
      ↔ ((rule : Rule) × (found ≡ some rule) × Shares rule roles)
unfolding match_rule
decide_by_iff none reason target roles = (λ e. cc, λ (rule, e, _). cc)
decide_by_iff (some rule) reason target roles = (
  λ e. (rule, refl, (grants_iff rule roles).0 e),
  λ (other, e, shared).
      (grants_iff rule roles).1
        (subst (λ r. Shares r roles) (sym (some-injective rule other e)) shared),
)

pub decide_tool_iff :
    (policy : Policy) (tool : String) (roles : List String)
    → ((decide_tool policy tool roles).allowed ≡ true)
      ↔ ((rule : Rule) × (lookup tool policy.tools ≡ some rule) × Shares rule roles)
unfolding decide_tool
decide_tool_iff policy tool roles =
    decide_by_iff (lookup tool policy.tools) "no policy entry for this tool (default deny)" tool
      roles

pub decide_resource_iff :
    (policy : Policy) (uri : String) (roles : List String)
    → ((decide_resource policy uri roles).allowed ≡ true)
      ↔ ((rule : Rule) × (resource_rule policy uri ≡ some rule) × Shares rule roles)
unfolding decide_resource
decide_resource_iff policy uri roles =
    decide_by_iff (resource_rule policy uri) "no policy entry for this resource (default deny)" uri
      roles

-- A tool call is allowed exactly when the policy has a rule for the tool and the caller holds a role
-- that this rule names; a resource read exactly when a rule is selected for its URI and the caller
-- holds a role that this rule names.
pub decisions_iff :
    (policy : Policy) (roles : List String)
    → ((tool : String)
        → ((decide_tool policy tool roles).allowed ≡ true)
          ↔ ((rule : Rule) × (lookup tool policy.tools ≡ some rule) × Shares rule roles))
      × ((uri : String)
          → ((decide_resource policy uri roles).allowed ≡ true)
            ↔ ((rule : Rule) × (resource_rule policy uri ≡ some rule) × Shares rule roles))
decisions_iff policy roles =
    (λ tool. decide_tool_iff policy tool roles, λ uri. decide_resource_iff policy uri roles)

-- The roles matter as a set only: callers with the same roles, in any order and however often,
-- get the same decisions, down to what is logged of them.
pub decisions_ext :
    (policy : Policy) (xs ys : List String)
    → ((role : String) → contains xs role ≡ contains ys role)
    → ((tool : String) → decide_tool policy tool xs ≡ decide_tool policy tool ys)
      × ((uri : String) → decide_resource policy uri xs ≡ decide_resource policy uri ys)
unfolding decide_tool decide_resource
decisions_ext policy xs ys h =
    let same = sorted_set_ext xs ys h in (λ tool. rw same, λ uri. rw same)

-- More roles never take an access away.
pub decisions_monotone :
    (policy : Policy) (xs ys : List String)
    → ((role : String) → contains xs role ≡ true → contains ys role ≡ true)
    → ((tool : String)
        → (decide_tool policy tool xs).allowed ≡ true
        → (decide_tool policy tool ys).allowed ≡ true)
      × ((uri : String)
          → (decide_resource policy uri xs).allowed ≡ true
          → (decide_resource policy uri ys).allowed ≡ true)
decisions_monotone policy xs ys more = (
  λ tool e.
      let (rule, found, shared) = (decide_tool_iff policy tool xs).0 e in
      (decide_tool_iff policy tool ys).1
        (rule, found, (shared.0, more shared.0 shared.1, shared.2)),
  λ uri e.
      let (rule, found, shared) = (decide_resource_iff policy uri xs).0 e in
      (decide_resource_iff policy uri ys).1
        (rule, found, (shared.0, more shared.0 shared.1, shared.2)),
)

not_visible :
    (rules : Dict Rule) (roles : List String) (name : String)
    → lookup name rules ≡ none
    → contains (visible_from rules roles) name ≡ false
unfolding lookup visible_from
not_visible [] roles name e = refl
not_visible ((key, rule) ∷ rules) roles name e =
    ground (arith, eq_iff key name, eq_iff name key, not_visible rules roles name)

abbrev granted_by : Option Rule → List String → Bool
granted_by none roles = false
granted_by (some rule) roles = grants rule roles

contains-visible_from :
    (declared : List String) (rules : Dict Rule) (roles : List String) (name : String)
    → AreSound declared rules
    → contains (visible_from rules roles) name ≡ granted_by (lookup name rules) roles
unfolding lookup visible_from
contains-visible_from declared [] roles name h = refl
contains-visible_from declared ((key, rule) ∷ rules) roles name (_, fresh, h) = ground (
  arith,
  eq_iff key name,
  eq_iff name key,
  not_visible rules roles key fresh,
  contains-visible_from declared rules roles name h,
)

eq_of_iff : (a b : Bool) → (a ≡ true → b ≡ true) → (b ≡ true → a ≡ true) → a ≡ b
eq_of_iff true b p q = sym (p refl)
eq_of_iff false true p q = q refl
eq_of_iff false false p q = refl

grants-sorted_set :
    (rule : Rule) (roles : List String) → grants rule roles ≡ grants rule (sorted_set roles)
grants-sorted_set rule roles =
    eq_of_iff (grants rule roles) (grants rule (sorted_set roles))
      (λ e. (grants_iff rule roles).1 (any_sound (contains rule.allow_roles) roles e))
      (λ e.
        let shared = (grants_iff rule roles).0 e in
        any_complete (contains rule.allow_roles) roles shared.0 shared.1 shared.2)

granted_by-decide_by :
    (found : Option Rule) (reason target : String) (roles : List String)
    → granted_by found roles ≡ (decide_by found reason target (sorted_set roles)).allowed
unfolding match_rule
granted_by-decide_by none reason target roles = refl
granted_by-decide_by (some rule) reason target roles = grants-sorted_set rule roles

pub visible_tools-decide_tool :
    (policy : Policy) (tool : String) (roles : List String)
    → IsWellFormed policy
    → contains (visible_tools policy roles) tool ≡ (decide_tool policy tool roles).allowed
unfolding visible_tools decide_tool
visible_tools-decide_tool policy tool roles h =
    contains-visible_from policy.declared_roles policy.tools roles tool h.tools
    ∙ granted_by-decide_by (lookup tool policy.tools) _ tool roles
