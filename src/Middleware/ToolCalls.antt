-- ===== src/Middleware/ToolCalls.antt =====
-- Every way in which a tool call can end, and what follows from it.
use governed_mcp_server.Common.{
  ◌≡◌, ◌≢◌, sym, ap, subst, String, true, false, Option, some, length, Bool-cases, inl, inr,
}
use governed_mcp_server.Common.Value.{entries, truth}
use governed_mcp_server.Policy.Model.{Decision}
use governed_mcp_server.Verifier.Tokens.{describe_principal}
use governed_mcp_server.Approval.{check, refused, ApprovalError, message}
use governed_mcp_server.Approval.Consent.{Consents}
use governed_mcp_server.Middleware.Flow.{
  Context, PolicyEnforcementMiddleware, Answer, Outcome, returned, raised, World, Environment, Next,
  input_required, InputRequired, forward,
}
use governed_mcp_server.Middleware.Approving.{answers_in, state_in, question, refusal}
use governed_mcp_server.Middleware.Guards.{
  handle, guard_tool_call, denied_error, tool_of, arguments_of, params_of,
}
use governed_mcp_server.Middleware.Gate.{Gated, asks, passes, refuses, noted, check_approval-Gated}
use governed_mcp_server.Middleware.Enforcement.{
  tool_decision, logged, gate, after_gate, handle-tool_call, guard_tool_call-denied,
  guard_tool_call-shadow, guard_tool_call-ungated, guard_tool_call-gated,
}

module _ {S : Type 0} (env : Environment) (mw : PolicyEnforcementMiddleware) (call_next : Next S)
    (ctx : Context) (w : World S) where
  abbrev decided : Decision
  decided = tool_decision env mw call_next ctx w

  -- the state after the decision and a line about its approval are written
  abbrev pub settled : (outcome reason : String) → World S
  settled outcome reason =
      noted env mw (params_of ctx) (tool_of ctx) (describe_principal ctx.token)
        (entries (arguments_of ctx)) (logged env mw call_next ctx w) outcome reason

  pub data ToolCall (result : Outcome Answer × World S) : Type 0 where
    shadowed :
        mw.enforce ≡ false
        → result ≡ forward call_next ctx (logged env mw call_next ctx w)
        → ToolCall result
    denied :
        mw.enforce ≡ true
        → decided.allowed ≡ false
        → result ≡ (raised (denied_error decided), logged env mw call_next ctx w)
        → ToolCall result
    ungated :
        decided.allowed ≡ true
        → decided.requires_approval ≡ false
        → result ≡ forward call_next ctx (logged env mw call_next ctx w)
        → ToolCall result
    asked :
        mw.enforce ≡ true
        → decided.allowed ≡ true
        → decided.requires_approval ≡ true
        → truth (answers_in (params_of ctx)) ≡ false
        → (let w' = settled "pending" "awaiting human approval" in
            result ≡ (
              returned (
                  input_required (
                    question mw.policy
                      (env.nonce (length w'.log))
                      (tool_of ctx)
                      (entries (arguments_of ctx)))),
              w',
            ))
        → ToolCall result
    consented :
        mw.enforce ≡ true
        → decided.allowed ≡ true
        → decided.requires_approval ≡ true
        → Consents (state_in (params_of ctx)) (answers_in (params_of ctx))
        → result ≡ forward call_next ctx (settled "allow" "approved by human")
        → ToolCall result
    unapproved :
        (e : ApprovalError)
        → mw.enforce ≡ true
        → decided.allowed ≡ true
        → decided.requires_approval ≡ true
        → truth (answers_in (params_of ctx)) ≡ true
        → check (state_in (params_of ctx)) (answers_in (params_of ctx)) ≡ refused e
        → result ≡ (raised (refusal (tool_of ctx) e), settled "deny" (message e))
        → ToolCall result

  after_gate-ToolCall :
      (result : Outcome (Option InputRequired) × World S)
      → mw.enforce ≡ true
      → decided.allowed ≡ true
      → decided.requires_approval ≡ true
      → Gated env mw
          (params_of ctx)
          (tool_of ctx)
          (describe_principal ctx.token)
          (entries (arguments_of ctx))
          (logged env mw call_next ctx w)
          result
      → ToolCall (after_gate call_next ctx result)
  after_gate-ToolCall result e a r (asks t p) = asked e a r t (ap (after_gate call_next ctx) p)
  after_gate-ToolCall result e a r (passes c p) =
      consented e a r c (ap (after_gate call_next ctx) p)
  after_gate-ToolCall result e a r (refuses why t c p) =
      unapproved why e a r t c (ap (after_gate call_next ctx) p)

  pub guard_tool_call-ToolCall : ToolCall (guard_tool_call env mw call_next ctx w)
  guard_tool_call-ToolCall = elim (Bool-cases mw.enforce) [
    | inr off ↦ shadowed off (guard_tool_call-shadow env mw call_next ctx w off)
    | inl on ↦ elim (Bool-cases decided.allowed) [
      | inr no_role ↦ denied on no_role (guard_tool_call-denied env mw call_next ctx w on no_role)
      | inl role ↦ elim (Bool-cases decided.requires_approval) [
        | inr free ↦ ungated role free (guard_tool_call-ungated env mw call_next ctx w role free)
        | inl gated ↦
            subst ToolCall (sym (guard_tool_call-gated env mw call_next ctx w on role gated)) (
              after_gate-ToolCall (gate env mw call_next ctx w) on role gated (
                check_approval-Gated env mw (params_of ctx) (tool_of ctx)
                  (describe_principal ctx.token) (entries (arguments_of ctx))
                  (logged env mw call_next ctx w)))
      ]
    ]
  ]

  -- Every tool call ends in one of six ways, each under its condition and with the state it leaves:
  -- passed on in shadow mode, denied, passed on without a gate, paused with a question, passed on
  -- with consent, or refused for want of it.
  pub handle-ToolCall : ctx.method ≡ some "tools/call" → ToolCall (handle env mw call_next ctx w)
  handle-ToolCall m =
      subst ToolCall (sym (handle-tool_call env mw call_next ctx w m)) guard_tool_call-ToolCall

  pub record IsAuthorized : Type 0 where
    pub allowed : decided.allowed ≡ true
    pub approved :
        decided.requires_approval ≡ true
        → Consents (state_in (params_of ctx)) (answers_in (params_of ctx))

  untouched_or_authorized :
      (result : Outcome Answer × World S)
      → mw.enforce ≡ true
      → ToolCall result
      → result.1.inner ≢ w.inner
      → IsAuthorized
  untouched_or_authorized result e (shadowed off p) changed = cc
  untouched_or_authorized result e (denied _ _ p) changed = absurd (changed (ap (λ r. r.1.inner) p))
  untouched_or_authorized result e (ungated a free p) changed = record {
    allowed = a;
    approved = λ gated. cc;
  }
  untouched_or_authorized result e (asked _ _ _ _ p) changed =
      absurd (changed (ap (λ r. r.1.inner) p))
  untouched_or_authorized result e (consented _ a _ c p) changed = record {
    allowed = a;
    approved = λ _. c;
  }
  untouched_or_authorized result e (unapproved _ _ _ _ _ _ p) changed =
      absurd (changed (ap (λ r. r.1.inner) p))

  -- Under enforcement, a tool call that changes the state behind the middleware was allowed by the
  -- policy, and where the tool requires approval, it came with a state that starts with
  -- `awaiting-approval:`, as those that this layer issues do, and an affirmative answer.
  pub effect_needs_authority :
      ctx.method ≡ some "tools/call"
      → mw.enforce ≡ true
      → (handle env mw call_next ctx w).1.inner ≢ w.inner
      → IsAuthorized
  effect_needs_authority m e changed =
      untouched_or_authorized (handle env mw call_next ctx w) e (handle-ToolCall m) changed
