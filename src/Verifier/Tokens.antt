-- ===== src/Verifier/Tokens.antt =====
-- governance/verifier.py: `_string_list`, `roles_from_token` and `describe_principal`. `AccessToken`
-- is a class of the SDK, of which this code sets and reads the fields below.
use governed_mcp_server.Common.{String, Option, none, some, List, [], ◌∷◌, map}
use governed_mcp_server.Common.Value.{
  ℤ, Value, null, str, list, Entries, end, get, get_or, items, or_else,
}
use governed_mcp_server.Common.Show.{to_text}

pub record AccessToken : Type 0 where
  pub token : String
  pub client_id : String
  pub scopes : List Value
  pub expires_at : Option ℤ
  pub resource : String
  pub subject : Option String
  pub claims : Entries

-- `_string_list`; JSON has no tuples
unfoldable pub string_list : Value → List String
string_list (str s) = s ∷ []
string_list (list vs) = map to_text (items vs)
string_list _ = []

-- `access_token.claims or {}`
abbrev pub claims_of : Option AccessToken → Entries
claims_of none = end
claims_of (some t) = t.claims

unfoldable pub roles_from_token : Option AccessToken → List String
unfolding string_list get_or
roles_from_token none = []
roles_from_token (some t) = string_list (get "roles" t.claims)

abbrev pub optional_text : Option String → Value
optional_text none = null
optional_text (some s) = str s

unfoldable pub describe_principal : Option AccessToken → String
unfolding get_or to_text
describe_principal none = "anonymous"
describe_principal (some t) = to_text (
    or_else (or_else (get "preferred_username" t.claims) (optional_text t.subject))
      (str t.client_id))
