-- ===== src/Policy/WellFormed.antt =====
-- What `from_mapping` guarantees of a policy that it returns.
use governed_mcp_server.Common.{
  ◌≡◌, refl, ap, subst, String, true, not, Option, none, some, Option-cases, inl, inr, List, [],
  ◌∷◌, eq_iff, arith, all, keep, is_nil,
}
use governed_mcp_server.Common.Order.{contains, sorted_set, is_nil-sorted_set}
use governed_mcp_server.Common.Dict.{Dict, lookup, insert, lookup-insert}
use governed_mcp_server.Common.Value.{
  Value, null, str, mapping, Entries, end, entry, entries, get, get_or, is_one, is_text, or_else,
  list, nil,
}
use governed_mcp_server.Common.Show.{to_text}
use governed_mcp_server.Common.Result.{ok, bind-eq-ok, ok-injective, ◌>>◌, raise_if}
use governed_mcp_server.Policy.Model.{
  Policy, Rule, PolicyError, classifications, rule_not_a_mapping, allow_roles_not_a_list,
}
use governed_mcp_server.Policy.Loading.{
  the_mapping, role_names, checked_classification, checked_roles, parse_roles, parse_rule,
  parse_entries, parse_rules, from_mapping, load, loaded,
}

-- A rule stored under `key`: it carries its pattern, a known classification and declared roles.
pub record IsSound (declared : List String) (key : String) (rule : Rule) : Type 0 where
  pub named : rule.pattern ≡ key
  pub classified : contains classifications rule.classification ≡ true
  pub roles_declared : all (contains declared) rule.allow_roles ≡ true

-- Every rule is sound, and no key stands twice.
abbrev pub AreSound : List String → Dict Rule → Type 0
AreSound declared [] = Unit
AreSound declared ((key, rule) ∷ rules) =
    IsSound declared key rule × (lookup key rules ≡ none) × AreSound declared rules

pub record IsWellFormed (policy : Policy) : Type 0 where
  pub tools : AreSound policy.declared_roles policy.tools
  pub resources : AreSound policy.declared_roles policy.resources

keep-is_nil :
    (declared xs : List String)
    → is_nil (keep (λ r. not (contains declared r)) xs) ≡ all (contains declared) xs
keep-is_nil declared [] = refl
keep-is_nil declared (x ∷ xs) = ground (arith, keep-is_nil declared xs)

checked_classification-known :
    (section pattern : String) (body : Entries) (classification : String)
    → checked_classification section pattern body ≡ ok classification
    → contains classifications classification ≡ true
unfolding checked_classification
checked_classification-known section pattern body classification e = ground arith

roles_known :
    (declared names result : List String) (error : PolicyError)
    → (raise_if (not (is_nil (sorted_set (keep (λ r. not (contains declared r)) names)))) error
        >> ok names)
      ≡ ok result
    → all (contains declared) result ≡ true
roles_known declared names result error e = ground (
  arith,
  is_nil-sorted_set (keep (λ r. not (contains declared r)) names),
  keep-is_nil declared names,
)

checked_roles-known :
    (declared : List String) (section pattern : String) (body : Entries) (roles : List String)
    → checked_roles declared section pattern body ≡ ok roles
    → all (contains declared) roles ≡ true
unfolding checked_roles
checked_roles-known declared section pattern body roles e =
    let (names, _, rest) =
      bind-eq-ok
        (role_names (allow_roles_not_a_list section pattern)
          (or_else (get "allow_roles" body) (list nil)))
        _ e in
    roles_known declared names roles _ rest

parse_rule-IsSound :
    (declared : List String) (section pattern : String) (value : Value) (rule : Rule)
    → parse_rule declared section pattern value ≡ ok rule
    → IsSound declared pattern rule
unfolding parse_rule
parse_rule-IsSound declared section pattern value rule e =
    let (body, _, rest) = bind-eq-ok (the_mapping (rule_not_a_mapping section pattern) value) _ e in
    let (classification, known, rest') =
      bind-eq-ok (checked_classification section pattern body) _ rest in
    let (names, all_known, built) =
      bind-eq-ok (checked_roles declared section pattern body) _ rest' in
    subst (IsSound declared pattern) (ok-injective built) (record {
      named = refl;
      classified = checked_classification-known section pattern body classification known;
      roles_declared = checked_roles-known declared section pattern body names all_known;
    })

insert-AreSound :
    (declared : List String) (key : String) (rule : Rule) (rules : Dict Rule)
    → IsSound declared key rule
    → AreSound declared rules
    → AreSound declared (insert key rule rules)
unfolding lookup insert
insert-AreSound declared key rule [] s h = (s, refl, tt)
insert-AreSound declared key rule ((k, r) ∷ rules) s (s', fresh, h) = ground (
  arith,
  eq_iff k key,
  eq_iff key k,
  insert-AreSound declared key rule rules s h,
  lookup-insert key k rule rules,
)

parse_entries-AreSound :
    (declared : List String) (section : String) (m : Entries) (rules result : Dict Rule)
    → AreSound declared rules
    → parse_entries declared section m rules ≡ ok result
    → AreSound declared result
unfolding parse_entries
parse_entries-AreSound declared section end rules result h e = ground arith
parse_entries-AreSound declared section (entry key value more) rules result h e =
    let name = to_text key in
    let (rule, parsed, rest) = bind-eq-ok (parse_rule declared section name value) _ e in
    parse_entries-AreSound declared section more (insert name rule rules) result
      (insert-AreSound declared name rule rules
        (parse_rule-IsSound declared section name value rule parsed) h)
      rest

parse_rules-AreSound :
    (declared : List String) (section : String) (raw : Value) (result : Dict Rule)
    → parse_rules declared section raw ≡ ok result
    → AreSound declared result
unfolding parse_rules
parse_rules-AreSound declared section null result e = ground arith
parse_rules-AreSound declared section (mapping m) result e =
    parse_entries-AreSound declared section m [] result tt e
parse_rules-AreSound declared section _ result e = cc

-- What a document said that `from_mapping` accepted.
pub record IsAccepted (raw : Value) (source : String) (policy : Policy) : Type 0 where
  pub body : Entries
  pub is_body : raw ≡ mapping body
  pub version : is_one (get "version" body) ≡ true
  pub default : get_or "default" (str "deny") body ≡ str "deny"
  pub roles : parse_roles (get "roles" body) ≡ ok policy.declared_roles
  pub tools : parse_rules policy.declared_roles "tools" (get "tools" body) ≡ ok policy.tools
  pub resources :
      parse_rules policy.declared_roles "resources" (get "resources" body) ≡ ok policy.resources

is_text-eq : (name : String) (v : Value) → is_text name v ≡ true → v ≡ str name
is_text-eq name (str s) e = ap str ((eq_iff s name).0 e)
is_text-eq name _ e = cc

pub from_mapping-IsAccepted :
    (raw : Value) (source : String) (policy : Policy)
    → from_mapping raw source ≡ ok policy
    → IsAccepted raw source policy
unfolding from_mapping
from_mapping-IsAccepted (mapping body) source policy e = record {
  body = body;
  is_body = refl;
  version = ground arith;
  default = is_text-eq "deny" (get_or "default" (str "deny") body) (ground arith);
  roles = ground arith;
  tools = ground arith;
  resources = ground arith;
}
from_mapping-IsAccepted _ source policy e = cc

-- A policy that loads is well formed: each rule is stored under its own pattern, under one key
-- only, and has one of the four classifications and declared roles only; the document has
-- version 1 and no default but `deny`.
pub from_mapping-IsWellFormed :
    (raw : Value) (source : String) (policy : Policy)
    → from_mapping raw source ≡ ok policy
    → IsWellFormed policy
      × (is_one (get "version" (entries raw)) ≡ true)
      × (get_or "default" (str "deny") (entries raw) ≡ str "deny")
from_mapping-IsWellFormed raw source policy e =
    let a = from_mapping-IsAccepted raw source policy e in
    (
      record {
        tools = parse_rules-AreSound policy.declared_roles "tools" _ policy.tools a.tools;
        resources =
            parse_rules-AreSound policy.declared_roles "resources" _ policy.resources a.resources;
      },
      rw a.is_body a.version,
      rw a.is_body a.default,
    )

loaded-IsWellFormed :
    (read_text : String → Option String) (safe_load : String → Option Value)
    → (path : String) (raw : Option Value) (policy : Policy)
    → loaded read_text safe_load path raw ≡ ok policy
    → IsWellFormed policy
loaded-IsWellFormed read_text safe_load path none policy e = cc
loaded-IsWellFormed read_text safe_load path (some raw) policy e =
    (from_mapping-IsWellFormed raw path policy e).0

pub load-IsWellFormed :
    (read_text : String → Option String) (safe_load : String → Option Value)
    → (path : String) (policy : Policy) → load read_text safe_load path ≡ ok policy
    → IsWellFormed policy
unfolding load
load-IsWellFormed read_text safe_load path policy e = elim (Option-cases (read_text path)) [
  | inl missing ↦ let e' = rw (missing, load) at e in cc
  | inr (contents, found) ↦
      loaded-IsWellFormed read_text safe_load path (safe_load contents) policy
        (rw (found, load) at e)
]
