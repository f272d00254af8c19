-- ===== src/Policy/Deciding.antt =====
-- governance/policy.py: `decide_tool`, `decide_resource`, `_resource_rule`, `_match` and
-- `visible_tools`.
use governed_mcp_server.Common.{
  String, Bool, false, Option, none, some, List, [], ◌∷◌, leb, if◌then◌else◌, any,
}
use governed_mcp_server.Common.Glob.{text_length, fnmatchcase}
use governed_mcp_server.Common.Order.{contains, sorted_set}
use governed_mcp_server.Common.Dict.{Dict, lookup, keys}
use governed_mcp_server.Policy.Model.{Policy, Rule, Decision}

-- `bool(set(granted) & allow_roles)`
abbrev pub grants : Rule → List String → Bool
grants rule granted = any (contains rule.allow_roles) granted

unfoldable pub match_rule : Rule → String → List String → Decision
match_rule rule target granted =
    let allowed = grants rule granted in
    record {
      allowed = allowed;
      reason =
          if allowed
          then "granted by role"
          else "caller holds none of the roles this tool requires";
      target = target;
      classification = some rule.classification;
      required_roles = sorted_set rule.allow_roles;
      granted_roles = granted;
      requires_approval = rule.requires_approval;
      approval_prompt = rule.approval_prompt;
    }

-- The decision where no rule is found.
abbrev pub default_deny : String → String → List String → Decision
default_deny reason target granted = record {
  allowed = false;
  reason = reason;
  target = target;
  classification = none;
  required_roles = [];
  granted_roles = granted;
  requires_approval = false;
  approval_prompt = "";
}

abbrev pub decide_by : Option Rule → String → String → List String → Decision
decide_by none reason target granted = default_deny reason target granted
decide_by (some rule) reason target granted = match_rule rule target granted

unfoldable pub decide_tool : Policy → String → List String → Decision
unfolding match_rule lookup
decide_tool policy tool roles =
    decide_by (lookup tool policy.tools) "no policy entry for this tool (default deny)" tool
      (sorted_set roles)

-- Into a list sorted by length, the longest first; it stands before those as long as it is.
unfoldable pub insert_by_length : String → List String → List String
insert_by_length p [] = p ∷ []
insert_by_length p (q ∷ qs) =
    if leb (text_length q) (text_length p) then p ∷ q ∷ qs else q ∷ insert_by_length p qs

-- `sorted(patterns, key=len, reverse=True)`, which keeps the order of patterns of one length.
unfoldable pub longest_first : List String → List String
unfolding insert_by_length
longest_first [] = []
longest_first (p ∷ ps) = insert_by_length p (longest_first ps)

unfoldable pub first_match : Dict Rule → String → List String → Option Rule
first_match rules uri [] = none
first_match rules uri (pattern ∷ patterns) =
    if fnmatchcase uri pattern then lookup pattern rules else first_match rules uri patterns

unfoldable pub resource_rule : Policy → String → Option Rule
unfolding first_match longest_first lookup
resource_rule policy uri = first_match policy.resources uri (longest_first (keys policy.resources))

unfoldable pub decide_resource : Policy → String → List String → Decision
unfolding match_rule resource_rule
decide_resource policy uri roles =
    decide_by (resource_rule policy uri) "no policy entry for this resource (default deny)" uri
      (sorted_set roles)

unfoldable pub visible_from : Dict Rule → List String → List String
visible_from [] roles = []
visible_from ((name, rule) ∷ rules) roles =
    let rest = visible_from rules roles in if grants rule roles then name ∷ rest else rest

-- The set of names, which is only asked for membership.
unfoldable pub visible_tools : Policy → List String → List String
unfolding visible_from
visible_tools policy roles = visible_from policy.tools roles
