-- ===== src/DevIdp/Issuing.antt =====
-- governance/devidp.py: `issue` and `expired`. `jwt.encode` and `uuid.uuid5` are parameters.
use governed_mcp_server.Common.{
  ℕ, ◌+◌, ◌-◌, String, Option, none, some, List, [], ◌∷◌, ltb, map, ◌==◌, if◌then◌else◌,
}
use governed_mcp_server.Common.Value.{
  ℤ, pos, negsuc, str, int, list, Entries, remove, dict_entries, list_items,
}
use governed_mcp_server.DevIdp.Provider.{DevIdentityProvider, dev_tenant_id, dev_client_id}

-- The arguments of `issue`.
pub record IssueRequest (PrivateKey : Type 0) : Type 0 where
  pub subject : String
  pub roles : Option (List String)
  pub scopes : String
  pub audience : Option String
  pub issuer : Option String
  pub expires_in : ℤ
  pub algorithm : String
  pub key : Option PrivateKey
  pub omit : List String

-- The defaults.
abbrev pub default_request : {PrivateKey : Type 0} → IssueRequest PrivateKey
default_request = record {
  subject = "user@example.com";
  roles = none;
  scopes = "mcp.invoke";
  audience = none;
  issuer = none;
  expires_in = pos 3600;
  algorithm = "RS256";
  key = none;
  omit = [];
}

infixl 65 ◌+ℤ◌
-- `now + expires_in`
abbrev pub ◌+ℤ◌ : ℕ → ℤ → ℤ
n +ℤ pos k = pos (n + k)
n +ℤ negsuc k = if ltb k n then pos (n - (k + 1)) else negsuc (k - n)

-- `given or default`
abbrev pub given_or : Option String → String → String
given_or none default = default
given_or (some s) default = if s == "" then default else s

abbrev pub roles_or_none : Option (List String) → List String
roles_or_none none = []
roles_or_none (some roles) = roles

abbrev without : List String → Entries → Entries
without [] claims = claims
without (claim ∷ omit) claims = without omit (remove claim claims)

-- What `jwt.encode` is given: the claims, a key and an algorithm unless the token is unsigned, and
-- the key id of the header.
abbrev pub Encode : Type 0 → Type 0
Encode PrivateKey = Entries → Option (PrivateKey × String) → (kid : String) → String

module _ {PrivateKey : Type 0} (uuid5_hex : String → String) where
  abbrev pub issued_claims :
      DevIdentityProvider PrivateKey → IssueRequest PrivateKey → (now : ℕ) → Entries
  issued_claims idp asked now = dict_entries (
      ("iss", str (given_or asked.issuer idp.issuer))
      ∷ ("aud", str (given_or asked.audience idp.audience))
      ∷ ("sub", str asked.subject)
      ∷ ("oid", str (uuid5_hex asked.subject))
      ∷ ("tid", str dev_tenant_id)
      ∷ ("azp", str dev_client_id)
      ∷ ("preferred_username", str asked.subject)
      ∷ ("iat", int (pos now))
      ∷ ("nbf", int (pos now))
      ∷ ("exp", int (now +ℤ asked.expires_in))
      ∷ ("roles", list (list_items (map str (roles_or_none asked.roles))))
      ∷ ("scp", str asked.scopes)
      ∷ [])

module _ {PrivateKey : Type 0} (encode : Encode PrivateKey) (uuid5_hex : String → String) where
  abbrev signing_key : DevIdentityProvider PrivateKey → Option PrivateKey → PrivateKey
  signing_key idp none = idp.private_key
  signing_key idp (some key) = key

  unfoldable pub issue :
      DevIdentityProvider PrivateKey → IssueRequest PrivateKey → (now : ℕ) → String
  issue idp asked now =
      let claims = without asked.omit (issued_claims uuid5_hex idp asked now) in
      if asked.algorithm == "none"
      then encode claims none idp.key_id
      else encode claims (some (signing_key idp asked.key, asked.algorithm)) idp.key_id

  -- `expired`: its caller may give the lifetime too.
  unfoldable pub expired :
      DevIdentityProvider PrivateKey
      → IssueRequest PrivateKey
      → (expires_in : Option ℤ) → (now : ℕ) → String
  unfolding issue
  expired idp asked none now = issue idp (record asked { expires_in = negsuc 3599 }) now
  expired idp asked (some expires_in) now = issue idp (record asked { expires_in = expires_in }) now
