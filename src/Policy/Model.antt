-- ===== src/Policy/Model.antt =====
-- governance/policy.py: the classes `Decision`, `Rule`, `Policy` and `PolicyError`.
--
-- A frozenset is a list that is only asked for membership. A `PolicyError` is a constructor with
-- the parts that its message names.
use governed_mcp_server.Common.{String, Bool, Option, List, [], ◌∷◌}
use governed_mcp_server.Common.Dict.{Dict}
use governed_mcp_server.Common.Value.{Value}

abbrev pub classifications : List String
classifications = "public" ∷ "internal" ∷ "confidential" ∷ "restricted" ∷ []

pub data PolicyError : Type 0 where
  file_not_found invalid_yaml not_a_mapping allow_by_default roles_not_a_mapping : PolicyError
  unsupported_version : Value → PolicyError
  section_not_a_mapping : (section : String) → PolicyError
  rule_not_a_mapping allow_roles_not_a_list : (section pattern : String) → PolicyError
  unknown_classification : (section pattern classification : String) → PolicyError
  undeclared_roles : (section pattern : String) (unknown : List String) → PolicyError

pub record Decision : Type 0 where
  pub allowed : Bool
  pub reason : String
  pub target : String
  pub classification : Option String
  pub required_roles : List String
  pub granted_roles : List String
  pub requires_approval : Bool
  pub approval_prompt : String

pub record Rule : Type 0 where
  pub pattern : String
  pub allow_roles : List String
  pub classification : String
  pub description : String
  pub requires_approval : Bool
  pub approval_prompt : String

pub record Policy : Type 0 where
  pub tools : Dict Rule
  pub resources : Dict Rule
  pub declared_roles : List String
  pub source : String
