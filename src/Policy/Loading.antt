-- ===== src/Policy/Loading.antt =====
-- governance/policy.py: `load`, `from_mapping`, `_parse_roles` and `_parse_rules`. The file system
-- and the YAML parser are parameters of `load`.
use governed_mcp_server.Common.{String, false, not, Option, none, some, List, [], map, keep, is_nil}
use governed_mcp_server.Common.Order.{contains, sorted_set}
use governed_mcp_server.Common.Dict.{Dict, insert}
use governed_mcp_server.Common.Value.{
  Value, null, str, bool, mapping, list, nil, Entries, end, entry, is_text, is_one, truth, or_else,
  get, get_or, items, key_values,
}
use governed_mcp_server.Common.Show.{to_text}
use governed_mcp_server.Common.Result.{Result, ok, err, ◌>>=◌, ◌>>◌, raise_if}
use governed_mcp_server.Policy.Model.{
  Policy, Rule, classifications, PolicyError, file_not_found, invalid_yaml, not_a_mapping,
  allow_by_default, roles_not_a_mapping, unsupported_version, section_not_a_mapping,
  rule_not_a_mapping, allow_roles_not_a_list, unknown_classification, undeclared_roles,
}

-- `isinstance(value, list)` and its elements as texts
abbrev pub role_names : PolicyError → Value → Result PolicyError (List String)
role_names e (list vs) = ok (map to_text (items vs))
role_names e _ = err e

abbrev pub the_mapping : PolicyError → Value → Result PolicyError Entries
the_mapping e (mapping m) = ok m
the_mapping e _ = err e

unfoldable pub parse_roles : Value → Result PolicyError (List String)
parse_roles null = ok []
parse_roles (mapping m) = ok (map to_text (key_values m))
parse_roles _ = err roles_not_a_mapping

unfoldable pub checked_classification :
    (section pattern : String) → Entries → Result PolicyError String
checked_classification section pattern body = do
  let classification = to_text (get_or "classification" (str "internal") body)
  raise_if (not (contains classifications classification))
      (unknown_classification section pattern classification)
  ok classification

-- `body.get("allow_roles") or []`, as a list of declared roles
unfoldable pub checked_roles :
    List String → (section pattern : String) → Entries → Result PolicyError (List String)
checked_roles declared section pattern body = do
  allow_roles ←
      role_names (allow_roles_not_a_list section pattern)
        (or_else (get "allow_roles" body) (list nil))
  let unknown = sorted_set (keep (λ r. not (contains declared r)) allow_roles)
  raise_if (not (is_nil unknown)) (undeclared_roles section pattern unknown)
  ok allow_roles

-- The body of the loop in `_parse_rules`: one pattern with its rule.
unfoldable pub parse_rule :
    List String → (section pattern : String) → Value → Result PolicyError Rule
parse_rule declared section pattern value = do
  body ← the_mapping (rule_not_a_mapping section pattern) value
  classification ← checked_classification section pattern body
  allow_roles ← checked_roles declared section pattern body
  ok (record {
    pattern = pattern;
    allow_roles = allow_roles;
    classification = classification;
    description = to_text (get_or "description" (str "") body);
    requires_approval = truth (get_or "requires_approval" (bool false) body);
    approval_prompt = to_text (get_or "approval_prompt" (str "") body);
  })

-- The loop in `_parse_rules`, over the rules read so far.
unfoldable pub parse_entries :
    List String → String → Entries → Dict Rule → Result PolicyError (Dict Rule)
parse_entries declared section end rules = ok rules
parse_entries declared section (entry key value more) rules = do
  let pattern = to_text key
  rule ← parse_rule declared section pattern value
  parse_entries declared section more (insert pattern rule rules)

unfoldable pub parse_rules : List String → String → Value → Result PolicyError (Dict Rule)
parse_rules declared section null = ok []
parse_rules declared section (mapping m) = parse_entries declared section m []
parse_rules declared section _ = err (section_not_a_mapping section)

unfoldable pub from_mapping : Value → String → Result PolicyError Policy
from_mapping raw source = do
  document ← the_mapping not_a_mapping raw
  raise_if (not (is_one (get "version" document))) (unsupported_version (get "version" document))
  raise_if (not (is_text "deny" (get_or "default" (str "deny") document))) allow_by_default
  declared ← parse_roles (get "roles" document)
  tools ← parse_rules declared "tools" (get "tools" document)
  resources ← parse_rules declared "resources" (get "resources" document)
  ok (record { tools = tools; resources = resources; declared_roles = declared; source = source })

-- `read_text` answers none where the file is missing, and the parser none for a text that is no
-- YAML.
module _ (read_text : String → Option String) (safe_load : String → Option Value) where
  abbrev pub loaded : String → Option Value → Result PolicyError Policy
  loaded path none = err invalid_yaml
  loaded path (some raw) = from_mapping raw path

  unfoldable pub load : String → Result PolicyError Policy
  load path = elim (read_text path) [
    | none ↦ err file_not_found
    | some contents ↦ loaded path (safe_load contents)
  ]
