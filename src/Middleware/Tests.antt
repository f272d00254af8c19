-- ===== src/Middleware/Tests.antt =====
-- Requests against the shipped policy, with a handler that counts its calls.
use governed_mcp_server.Common.{
  ◌≡◌, refl, ℕ, ◌+◌, String, true, false, none, some, List, [], ◌∷◌, arith, keep,
}
use governed_mcp_server.Common.Value.{
  Value, str, bool, list, dict, dict_entries, list_items, get_or, has_key,
}
use governed_mcp_server.Common.Dict.{lookup}
use governed_mcp_server.Common.Show.{to_text, quoted}
use governed_mcp_server.Common.Order.{sorted_set}
use governed_mcp_server.Common.Glob.{fnmatchcase}
use governed_mcp_server.Policy.Deciding.{decide_tool, decide_resource, resource_rule, visible_tools}
use governed_mcp_server.Policy.Document.{policy}
use governed_mcp_server.Policy.Shipped.{policy-IsWellFormed}
use governed_mcp_server.Audit.{entry_for}
use governed_mcp_server.Approval.{check, is_affirmative, new_pending_state}
use governed_mcp_server.Verifier.Tokens.{AccessToken, roles_from_token, describe_principal}
use governed_mcp_server.Middleware.Flow.{
  Context, PolicyEnforcementMiddleware, Answer, wire, input_required, InputRequired, returned,
  World, Environment, Next,
}
use governed_mcp_server.Middleware.Approving.{check_approval, ask_for_approval, detail}
use governed_mcp_server.Middleware.Guards.{
  handle, guard_tool_call, guard_resource_read, filter_tool_list,
}
use governed_mcp_server.Middleware.Listing.{filter_answer, tool_name, replace}
use governed_mcp_server.Middleware.Enforcement.{tool_line}
use governed_mcp_server.Middleware.ToolCalls.{
  ToolCall, handle-ToolCall, IsAuthorized, effect_needs_authority,
}
use governed_mcp_server.Middleware.Trail.{
  tool_call_is_logged, handle-IsTransparent, IsTracedBy, IsTransparent,
}
use governed_mcp_server.Middleware.ResourceReads.{ResourceRead, IsReadLogged, handle-ResourceRead}
use governed_mcp_server.Middleware.RoundTrip.{Retries, approval_round_trip}
use governed_mcp_server.Middleware.Visible.{tool_names, tool_list_is_callable}

deciding : Unit {0}
unfolding decide_tool decide_resource resource_rule visible_tools fnmatchcase lookup sorted_set
    roles_from_token describe_principal to_text get_or
deciding = tt

handling : Unit {0}
unfolding deciding handle guard_tool_call guard_resource_read filter_tool_list check_approval
    ask_for_approval check filter_answer tool_name replace entry_for new_pending_state detail quoted
handling = tt

abbrev env : Environment
env = record { now = λ _. "2026-08-01T00:00:00+00:00"; nonce = λ _. "n0nce" }

abbrev enforcing : PolicyEnforcementMiddleware
enforcing = record { policy = policy; enforce = true }

abbrev shadowing : PolicyEnforcementMiddleware
shadowing = record { policy = policy; enforce = false }

abbrev count_calls : Next ℕ
count_calls ctx n = (returned (wire (str "done")), n + 1)

abbrev fresh : World ℕ
fresh = record { log = []; inner = 0 }

abbrev token_with : List Value → AccessToken
token_with roles = record {
  token = "jwt";
  client_id = "client";
  scopes = [];
  expires_at = none;
  resource = "api://governed-mcp-server";
  subject = some "user@example.com";
  claims = dict_entries (("roles", list (list_items roles)) ∷ []);
}

abbrev request : String → List (String × Value) → String → Context
request method params role = record {
  method = some method;
  params = dict params;
  protocol_version = str "2026-07-28";
  token = some (token_with (str role ∷ []));
}

abbrev raise_call : Context
raise_call =
    request "tools/call"
      (("name", str "raise_shipment_incident")
        ∷ ("arguments", dict (("shipment_id", str "SHP-1002") ∷ []))
        ∷ [])
      "tlo.operator"

abbrev consent : Value
consent = dict (
    (
      "approval",
      dict (("action", str "accept") ∷ ("content", dict (("approve", bool true) ∷ [])) ∷ []),
    )
    ∷ [])

abbrev retry_call : Context
retry_call =
    request "tools/call"
      (("name", str "raise_shipment_incident")
        ∷ ("arguments", dict (("shipment_id", str "SHP-1002") ∷ []))
        ∷ ("requestState", str "awaiting-approval:raise_shipment_incident:n0nce")
        ∷ ("inputResponses", consent)
        ∷ [])
      "tlo.operator"

gated_call_waits : (handle env enforcing count_calls raise_call fresh).1.inner ≡ 0
unfolding handling
gated_call_waits = refl

consented_call_runs : (handle env enforcing count_calls retry_call fresh).1.inner ≡ 1
unfolding handling
consented_call_runs = refl

handle-ToolCall_example :
    ToolCall env enforcing count_calls raise_call fresh
      (handle env enforcing count_calls raise_call fresh)
handle-ToolCall_example = handle-ToolCall env enforcing count_calls raise_call fresh refl

effect_needs_authority_example : IsAuthorized env enforcing count_calls retry_call fresh
unfolding handling
effect_needs_authority_example =
    effect_needs_authority env enforcing count_calls retry_call fresh refl refl (omega arith)

abbrev read_call : Context
read_call = request "resources/read" (("uri", str "shipment://SHP-1004") ∷ []) "tlo.reader"

handle-ResourceRead_example :
    let result = handle env enforcing count_calls read_call fresh in
    ResourceRead env enforcing count_calls read_call fresh result
    × IsReadLogged env enforcing count_calls read_call fresh result
handle-ResourceRead_example = handle-ResourceRead env enforcing count_calls read_call fresh refl

tool_call_is_logged_example :
    IsTracedBy env enforcing count_calls raise_call fresh
      (tool_line env enforcing count_calls raise_call fresh)
      (handle env enforcing count_calls raise_call fresh)
tool_call_is_logged_example = tool_call_is_logged env enforcing count_calls raise_call fresh refl

handle-IsTransparent_example :
    IsTransparent env shadowing count_calls raise_call fresh
      (handle env shadowing count_calls raise_call fresh)
handle-IsTransparent_example = handle-IsTransparent env shadowing count_calls raise_call fresh refl

approval_round_trip_example :
    (q : InputRequired) × (w' : World ℕ) × (handle env enforcing count_calls raise_call fresh
      ≡ (returned (input_required q), w'))
    × (w'.inner ≡ fresh.inner)
    × ((retry : Context)
        → Retries raise_call q retry
        → ((handle env enforcing count_calls retry w').0 ≡ (count_calls retry 0).0)
          × ((handle env enforcing count_calls retry w').1.inner ≡ (count_calls retry 0).1))
unfolding deciding
approval_round_trip_example =
    approval_round_trip env enforcing count_calls raise_call fresh refl refl refl refl refl

-- The retry of the round trip exists.
retry_call-Retries :
    Retries raise_call
      (record {
        key = "approval";
        message = "";
        description = "";
        request_state = "awaiting-approval:raise_shipment_incident:n0nce";
      })
      retry_call
unfolding deciding has_key is_affirmative
retry_call-Retries = record {
  is_call = refl;
  same_tool = refl;
  same_token = refl;
  state = refl;
  answers = dict_entries (
      (
        "approval",
        dict (("action", str "accept") ∷ ("content", dict (("approve", bool true) ∷ [])) ∷ []),
      )
      ∷ []);
  answered = refl;
  has_answer = refl;
  affirmed = refl;
}

abbrev tool_entry : String → Value
tool_entry name = dict (("name", str name) ∷ [])

abbrev server_tools : Answer
server_tools = wire (
    dict (
      (
        "tools",
        list (
            list_items (tool_entry "search_incidents" ∷ tool_entry "raise_shipment_incident" ∷ [])),
      )
      ∷ []))

abbrev list_tools : Next ℕ
list_tools ctx n = (returned server_tools, n)

abbrev list_call : Context
list_call = request "tools/list" [] "tlo.reader"

tool_list_is_callable_example :
    (shown : Answer) × (handle env enforcing list_tools list_call fresh ≡ (returned shown, fresh))
    × (tool_names shown
        ≡ keep
            (λ tool. (decide_tool policy tool (roles_from_token list_call.token)).allowed)
            (tool_names server_tools))
tool_list_is_callable_example =
    tool_list_is_callable env enforcing list_tools list_call fresh server_tools 0
      policy-IsWellFormed refl refl refl

reader_sees_no_writer :
    (handle env enforcing list_tools list_call fresh).0
    ≡ returned
        (wire (dict (("tools", list (list_items (tool_entry "search_incidents" ∷ []))) ∷ [])))
unfolding handling
reader_sees_no_writer = refl
