-- ===== src/ServiceNow/Live.antt =====
-- governance/servicenow.py: `LiveServiceNow`. The HTTP client and the instance behind it are a
-- parameter: a function of the request and of the instance's state `S`.
pub mod Requests
pub mod ReadBack
pub mod Active
use governed_mcp_server.Common.{
  ℕ, String, Bool, Option, none, some, List, [], ◌∷◌, eqb, leb, keep, is_nil, ◌++◌, if◌then◌else◌,
  ◌==◌,
}
use governed_mcp_server.Common.Text.{◌+++◌, is_empty, strip, starts_with, join}
use governed_mcp_server.Common.Dict.{Dict, lookup}
use governed_mcp_server.Common.Result.{Result, ok, err, ◌>>=◌}
use governed_mcp_server.Common.Value.{
  ℤ, Value, int, str, list, mapping, Items, nil, cons, Entries, end, truth, get_or, dict_entries,
}
use governed_mcp_server.Common.Show.{to_text}
use governed_mcp_server.ServiceNow.Model.{
  Incident, ConfigurationItem, Fault, service_now, wrong_shape, credentials_missing, request_failed,
  credentials_rejected, bad_status, column, from_record,
}

-- The timeout is not kept: it says when the client fails.
pub record LiveServiceNow : Type 0 where
  pub instance_name : String
  pub user : String
  pub password : String

pub data Method : Type 0 where
  get_method : Method
  post_method : Method

-- What the client is asked to send, without the headers, which never vary.
pub record Request : Type 0 where
  pub method : Method
  pub url : String
  pub auth : String × String
  pub params : Dict String
  pub json : Option Entries

-- What the client does: it raises an `HTTPError` of some class, or it has a response, whose body
-- is read as JSON.
pub data Reply : Type 0 where
  http_error : (exception : String) → Reply
  response : (status : ℕ) (body : Option Value) → Reply

abbrev pub Client : Type 0 → Type 0
Client S = Request → S → Reply × S

abbrev env_instance : String
env_instance = "SERVICENOW_INSTANCE"

abbrev env_user : String
env_user = "SERVICENOW_USER"

abbrev env_password : String
env_password = "SERVICENOW_PASSWORD"

-- `os.environ.get(k)`, where an absent variable reads as an empty one does
abbrev pub variable : Dict String → String → String
variable environ name = elim (lookup name environ) [ none ↦ "" | some value ↦ value ]

-- the variables that are not set
abbrev pub missing : Dict String → List String
missing environ =
    keep (λ name. is_empty (variable environ name)) (env_instance ∷ env_user ∷ env_password ∷ [])

-- `s.removesuffix("/")`
pub without_slash : String → String
without_slash String.[] = String.[]
without_slash (String.◌∷◌ c s) =
    let rest = without_slash s in if String.◌∷◌ c s == "/" then "" else String.◌∷◌ c rest

unfoldable pub from_environment : Dict String → Result Fault LiveServiceNow
unfolding without_slash
from_environment environ =
    if is_nil (missing environ)
    then ok (record {
      instance_name = without_slash (strip (variable environ env_instance));
      user = variable environ env_user;
      password = variable environ env_password;
    })
    else err (service_now (credentials_missing (missing environ)))

abbrev pub base_url : LiveServiceNow → String
base_url live =
    if starts_with live.instance_name "http"
    then live.instance_name +++ "/api/now/table"
    else "https://" +++ (live.instance_name +++ ".service-now.com/api/now/table")

-- `response.json().get("result", [])`
abbrev result_of : Option Value → Result Fault Value
result_of (some (mapping body)) = ok (get_or "result" (list nil) body)
result_of _ = err wrong_shape

abbrev read_reply : (table : String) → Reply → Result Fault Value
read_reply table (http_error exception) = err (service_now (request_failed exception))
read_reply table (response status body) =
    let result = result_of body in
    if eqb status 401
    then err (service_now credentials_rejected)
    else if leb 400 status
    then err (service_now (bad_status status table))
    else result

module _ {S : Type 0} (client : Client S) (live : LiveServiceNow) where
  -- `_request`
  unfoldable pub request :
      Method → (table : String) → Dict String → Option Entries → S → Result Fault Value × S
  request method table params json s =
      let (reply, s') =
        client
          (record {
            method = method;
            url = base_url live +++ ("/" +++ table);
            auth = (live.user, live.password);
            params = params;
            json = json;
          })
          s in
      (read_reply table reply, s')

  abbrev item_in : Value → Result Fault (Option ConfigurationItem)
  item_in (list (cons (mapping fields) _)) = ok (
      some (record {
        name = column "name" fields;
        sys_id = column "sys_id" fields;
        ci_class = column "sys_class_name" fields;
        operational_status = column "operational_status" fields;
      }))
  item_in records = if truth records then err wrong_shape else ok none

  unfoldable pub find_configuration_item : String → S → Result Fault (Option ConfigurationItem) × S
  find_configuration_item name s =
      let (records, s') =
        request get_method "cmdb_ci"
          (("sysparm_query", "name=" +++ name) ∷ ("sysparm_limit", "1") ∷ []) none s in
      (records >>= item_in, s')

  -- `[Incident.from_record(r) for r in records]`
  pub incidents_in_items : Items → Result Fault (List Incident)
  incidents_in_items nil = ok []
  incidents_in_items (cons (mapping fields) more) =
      incidents_in_items more >>= λ incidents. ok (from_record fields ∷ incidents)
  incidents_in_items (cons _ more) = err wrong_shape

  abbrev pub incidents_in : Value → Result Fault (List Incident)
  incidents_in (list records) = incidents_in_items records
  incidents_in (mapping end) = ok []
  incidents_in (str s) = if is_empty s then ok [] else err wrong_shape
  incidents_in _ = err wrong_shape

  abbrev pub clauses : Option String → (active_only : Bool) → List String
  clauses configuration_item active_only =
      elim configuration_item [
        | none ↦ []
        | some name ↦ if is_empty name then [] else ("cmdb_ci.name=" +++ name) ∷ []
      ]
      ++ (if active_only then "active=true" ∷ [] else [])

  -- `"^".join(clauses) or "active=true"`
  abbrev pub query : Option String → (active_only : Bool) → String
  query configuration_item active_only =
      let joined = join "^" (clauses configuration_item active_only) in
      if is_empty joined then "active=true" else joined

  unfoldable pub search_incidents :
      Option String → (active_only : Bool) → (limit : ℤ) → S → Result Fault (List Incident) × S
  unfolding incidents_in_items
  search_incidents configuration_item active_only limit s =
      let (records, s') =
        request get_method "incident"
          (("sysparm_query", query configuration_item active_only)
            ∷ ("sysparm_limit", to_text (int limit))
            ∷ ("sysparm_display_value", "true")
            ∷ [])
          none s in
      (records >>= incidents_in, s')

  abbrev incident_of : Value → Incident
  incident_of (mapping fields) = from_record fields
  incident_of _ = from_record end

  unfoldable pub create_incident :
      (short_description configuration_item urgency description : String)
      → S
      → Result Fault Incident × S
  create_incident short_description configuration_item urgency description s =
      let (record_, s') =
        request post_method "incident" []
          (some (
            dict_entries (
              ("short_description", str short_description)
              ∷ ("description", str description)
              ∷ ("cmdb_ci", str configuration_item)
              ∷ ("urgency", str urgency)
              ∷ ("category", str "inquiry")
              ∷ [])))
          s in
      (record_ >>= λ found. ok (incident_of found), s')
