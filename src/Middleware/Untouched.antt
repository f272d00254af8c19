-- ===== src/Middleware/Untouched.antt =====
-- What the middleware leaves alone: a request changes the state behind it through the handler only.
use governed_mcp_server.Common.{
  ◌≡◌, ap, ◌∙◌, String, Option, none, some, ◌==◌, arith, Bool-cases, inl, inr,
}
use governed_mcp_server.Middleware.Flow.{
  Context, PolicyEnforcementMiddleware, Answer, Outcome, World, Environment, Next,
}
use governed_mcp_server.Middleware.Guards.{handle, dispatch, guard_resource_read, filter_tool_list}
use governed_mcp_server.Middleware.ToolCalls.{
  ToolCall, guard_tool_call-ToolCall, shadowed, denied, ungated, asked, consented, unapproved,
}

module _ {S : Type 0} (env : Environment) (mw : PolicyEnforcementMiddleware) (call_next : Next S)
    (ctx : Context) (w : World S) (reads : (call_next ctx w.inner).1 ≡ w.inner) where
  ToolCall-inner :
      (result : Outcome Answer × World S)
      → ToolCall env mw call_next ctx w result
      → result.1.inner ≡ w.inner
  ToolCall-inner result (shadowed _ p) = ap (λ r. r.1.inner) p ∙ reads
  ToolCall-inner result (denied _ _ p) = ap (λ r. r.1.inner) p
  ToolCall-inner result (ungated _ _ p) = ap (λ r. r.1.inner) p ∙ reads
  ToolCall-inner result (asked _ _ _ _ p) = ap (λ r. r.1.inner) p
  ToolCall-inner result (consented _ _ _ _ p) = ap (λ r. r.1.inner) p ∙ reads
  ToolCall-inner result (unapproved _ _ _ _ _ _ p) = ap (λ r. r.1.inner) p

  guard_resource_read-inner : (guard_resource_read env mw call_next ctx w).1.inner ≡ w.inner
  unfolding guard_resource_read
  guard_resource_read-inner = ground (arith, reads)

  filter_tool_list-inner : (filter_tool_list env mw call_next ctx w).1.inner ≡ w.inner
  unfolding filter_tool_list
  filter_tool_list-inner = ground (arith, reads)

  dispatch-inner :
      (method : Option String) → (dispatch env mw call_next method ctx w).1.inner ≡ w.inner
  dispatch-inner none = reads
  dispatch-inner (some method) = elim (Bool-cases (method == "tools/call")) [
    | inl call ↦ rw call (ToolCall-inner _ (guard_tool_call-ToolCall env mw call_next ctx w))
    | inr no_call ↦ elim (Bool-cases (method == "resources/read")) [
      | inl is_read ↦ rw (no_call, is_read) guard_resource_read-inner
      | inr no_read ↦ elim (Bool-cases (method == "tools/list")) [
        | inl is_list ↦ rw (no_call, no_read, is_list) filter_tool_list-inner
        | inr no_list ↦ rw (no_call, no_read, no_list) reads
      ]
    ]
  ]

  pub handle-inner : (handle env mw call_next ctx w).1.inner ≡ w.inner
  unfolding handle
  handle-inner = dispatch-inner ctx.method
