-- ===== src/Middleware/Guards.antt =====
-- governance/middleware.py: `__call__`, `_guard_tool_call`, `_guard_resource_read`,
-- `_filter_tool_list`, `_roles`, `_principal`, `_raise_if_denied` and `_params`.
use governed_mcp_server.Common.{
  String, List, not, Option, none, some, ◌==◌, ◌&&◌, ◌||◌, if◌then◌else◌,
}
use governed_mcp_server.Common.Text.{◌+++◌}
use governed_mcp_server.Common.Value.{Value, str, mapping, Entries, entries, get, get_or}
use governed_mcp_server.Common.Show.{to_text, quoted}
use governed_mcp_server.Policy.Model.{Decision}
use governed_mcp_server.Policy.Deciding.{decide_tool, decide_resource, visible_tools}
use governed_mcp_server.Verifier.Tokens.{roles_from_token, describe_principal}
use governed_mcp_server.Middleware.Flow.{
  Context, PolicyEnforcementMiddleware, Answer, input_required, InputRequired, Failure, mcp_error,
  authorization_denied, denial, Environment, Next, Flow, pure, raise, ◌>>=◌, ◌>>◌, forward,
  record_decision,
}
use governed_mcp_server.Middleware.Approving.{check_approval}
use governed_mcp_server.Middleware.Listing.{filter_answer}

-- `arguments if isinstance(arguments, Mapping) else None`
abbrev pub mapping_only : Value → Option Entries
mapping_only (mapping m) = some m
mapping_only _ = none

-- `_params(ctx)`
abbrev pub params_of : Context → Entries
params_of ctx = entries ctx.params

abbrev pub tool_of : Context → String
tool_of ctx = to_text (get_or "name" (str "") (params_of ctx))

abbrev pub arguments_of : Context → Value
arguments_of ctx = get "arguments" (params_of ctx)

abbrev pub uri_of : Context → String
uri_of ctx = to_text (get_or "uri" (str "") (params_of ctx))

-- `_roles`
abbrev pub roles_in : Context → List String
roles_in ctx = roles_from_token ctx.token

-- `_principal`
abbrev pub principal_in : Context → String
principal_in ctx = describe_principal ctx.token

abbrev pub denied_error : Decision → Failure
denied_error decision = mcp_error (record {
  code = authorization_denied;
  message =
      "Access denied for " +++ (quoted decision.target +++ (": " +++ (decision.reason +++ ".")));
  detail = denial decision.target decision.required_roles decision.classification;
})

-- `if gate is not None: return gate`, and the call
abbrev pub pass_gate : {S : Type 0} → Next S → Context → Option InputRequired → Flow S Answer
pass_gate call_next ctx none = forward call_next ctx
pass_gate call_next ctx (some gate) = pure (input_required gate)

module _ {S : Type 0} (env : Environment) (mw : PolicyEnforcementMiddleware)
    (call_next : Next S) where
  abbrev pub raise_if_denied : Decision → Flow S (Unit {0})
  raise_if_denied decision =
      if decision.allowed || not mw.enforce then pure tt else raise (denied_error decision)

  unfoldable pub guard_tool_call : Context → Flow S Answer
  guard_tool_call ctx = do
    let tool = tool_of ctx
    let arguments = arguments_of ctx
    let principal = principal_in ctx
    let decision = decide_tool mw.policy tool (roles_in ctx)
    record_decision env principal "tools/call" decision (mapping_only arguments)
        ctx.protocol_version none
    raise_if_denied decision
    if decision.requires_approval && mw.enforce
        then (check_approval env mw (params_of ctx) tool principal (entries arguments)
            >>= pass_gate call_next ctx)
        else forward call_next ctx

  unfoldable pub guard_resource_read : Context → Flow S Answer
  guard_resource_read ctx = do
    let decision = decide_resource mw.policy (uri_of ctx) (roles_in ctx)
    record_decision env (principal_in ctx) "resources/read" decision none ctx.protocol_version none
    raise_if_denied decision
    forward call_next ctx

  unfoldable pub filter_tool_list : Context → Flow S Answer
  filter_tool_list ctx = do
    result ← forward call_next ctx
    let visible = visible_tools mw.policy (roles_in ctx)
    pure (if not mw.enforce then result else filter_answer visible result)

  abbrev pub dispatch : Option String → Context → Flow S Answer
  dispatch none ctx = forward call_next ctx
  dispatch (some method) ctx =
      if method == "tools/call"
      then guard_tool_call ctx
      else if method == "resources/read"
      then guard_resource_read ctx
      else if method == "tools/list"
      then filter_tool_list ctx
      else forward call_next ctx

  -- `__call__`
  unfoldable pub handle : Context → Flow S Answer
  handle ctx = dispatch ctx.method ctx
