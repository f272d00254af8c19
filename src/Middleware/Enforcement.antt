-- ===== src/Middleware/Enforcement.antt =====
-- What enforcement guarantees for a tool call and a resource read.
use governed_mcp_server.Common.{◌≡◌, true, false, Option, none, some, [], ◌∷◌, ◌++◌, arith, length}
use governed_mcp_server.Common.Value.{entries}
use governed_mcp_server.Policy.Model.{Decision}
use governed_mcp_server.Policy.Deciding.{decide_tool, decide_resource}
use governed_mcp_server.Audit.{Line, entry_for}
use governed_mcp_server.Verifier.Tokens.{roles_from_token, describe_principal}
use governed_mcp_server.Middleware.Flow.{
  Context, PolicyEnforcementMiddleware, Answer, Outcome, returned, raised, World, Environment, Next,
  InputRequired, forward,
}
use governed_mcp_server.Middleware.Approving.{check_approval}
use governed_mcp_server.Middleware.Guards.{
  handle, guard_tool_call, pass_gate, denied_error, tool_of, arguments_of, uri_of, params_of,
  mapping_only,
}

-- what an enforced call does once the gate has answered
abbrev pub after_gate :
    {S : Type 0}
    → Next S
    → Context
    → Outcome (Option InputRequired) × World S
    → Outcome Answer × World S
after_gate call_next ctx (r, w) = elim r [
  | returned a ↦ pass_gate call_next ctx a w
  | raised e ↦ (raised e, w)
]

module _ {S : Type 0} (env : Environment) (mw : PolicyEnforcementMiddleware) (call_next : Next S)
    (ctx : Context) (w : World S) where
  -- the decision on the tool that the request names, for the roles of its token
  abbrev pub tool_decision : Decision
  tool_decision = decide_tool mw.policy (tool_of ctx) (roles_from_token ctx.token)

  abbrev pub resource_decision : Decision
  resource_decision = decide_resource mw.policy (uri_of ctx) (roles_from_token ctx.token)

  -- the line in the audit log about that decision
  abbrev pub tool_line : Line
  tool_line =
      entry_for (env.now (length w.log)) (describe_principal ctx.token) "tools/call" tool_decision
        (mapping_only (arguments_of ctx)) ctx.protocol_version none

  abbrev pub resource_line : Line
  resource_line =
      entry_for (env.now (length w.log)) (describe_principal ctx.token) "resources/read"
        resource_decision none ctx.protocol_version none

  -- the state after that line is written
  abbrev pub logged : World S
  logged = record { log = w.log ++ tool_line ∷ []; inner = w.inner }

  pub handle-tool_call :
      ctx.method ≡ some "tools/call"
      → handle env mw call_next ctx w ≡ guard_tool_call env mw call_next ctx w
  unfolding handle
  handle-tool_call m = rw m

  pub guard_tool_call-denied :
      mw.enforce ≡ true
      → tool_decision.allowed ≡ false
      → guard_tool_call env mw call_next ctx w ≡ (raised (denied_error tool_decision), logged)
  unfolding guard_tool_call
  guard_tool_call-denied e d = rw (d, e)

  pub guard_tool_call-shadow :
      mw.enforce ≡ false → guard_tool_call env mw call_next ctx w ≡ forward call_next ctx logged
  unfolding guard_tool_call
  guard_tool_call-shadow e = ground arith

  pub guard_tool_call-ungated :
      tool_decision.allowed ≡ true
      → tool_decision.requires_approval ≡ false
      → guard_tool_call env mw call_next ctx w ≡ forward call_next ctx logged
  unfolding guard_tool_call
  guard_tool_call-ungated d r = rw (d, r)

  -- the gate's part of an enforced call
  abbrev pub gate : Outcome (Option InputRequired) × World S
  gate =
      check_approval env mw (params_of ctx) (tool_of ctx) (describe_principal ctx.token)
        (entries (arguments_of ctx)) logged

  pub guard_tool_call-gated :
      mw.enforce ≡ true
      → tool_decision.allowed ≡ true
      → tool_decision.requires_approval ≡ true
      → guard_tool_call env mw call_next ctx w ≡ after_gate call_next ctx gate
  unfolding guard_tool_call
  guard_tool_call-gated e d r = simp (d, e, r)
