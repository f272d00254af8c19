-- ===== src/Server/Authority.antt =====
-- The governed server as a whole: who can open an incident.
pub mod Tests
use governed_mcp_server.Common.{
  ◌≡◌, ◌≢◌, refl, sym, subst, String, true, false, some, List, ◌||◌, ◌==◌, eq_iff, Bool-cases, inl,
  inr,
}
use governed_mcp_server.Common.Order.{contains}
use governed_mcp_server.Policy.Deciding.{decide_tool}
use governed_mcp_server.Policy.Document.{policy}
use governed_mcp_server.Policy.Shipped.{raise_shipment_incident_iff}
use governed_mcp_server.Approval.Consent.{Consents}
use governed_mcp_server.Verifier.Tokens.{roles_from_token}
use governed_mcp_server.Middleware.Flow.{
  Context, World, Environment, Next, PolicyEnforcementMiddleware,
}
use governed_mcp_server.Middleware.Approving.{answers_in, state_in}
use governed_mcp_server.Middleware.Guards.{handle, tool_of, params_of}
use governed_mcp_server.Middleware.Untouched.{handle-inner}
use governed_mcp_server.Middleware.ToolCalls.{effect_needs_authority}

-- the middleware as the server starts it with the shipped policy
abbrev pub shipped : PolicyEnforcementMiddleware
shipped = record { policy = policy; enforce = true }

-- the roles that may open an incident
abbrev pub IsOperator : List String → Type 0
IsOperator roles = (contains roles "tlo.operator" || contains roles "platform.admin") ≡ true

module _ {S : Type 0} (env : Environment) (call_next : Next S) (ctx : Context) (w : World S) where
  pub raise_needs_operator :
      ctx.method ≡ some "tools/call"
      → tool_of ctx ≡ "raise_shipment_incident"
      → (handle env shipped call_next ctx w).1.inner ≢ w.inner
      → IsOperator (roles_from_token ctx.token)
        × Consents (state_in (params_of ctx)) (answers_in (params_of ctx))
  raise_needs_operator m named changed =
      let authorized = effect_needs_authority env shipped call_next ctx w m refl changed in
      let roles = roles_from_token ctx.token in
      (
        (raise_shipment_incident_iff roles).0.0 (
            subst (λ tool. (decide_tool policy tool roles).allowed ≡ true) named
              authorized.allowed),
        authorized.approved (
            subst (λ tool. (decide_tool policy tool roles).requires_approval ≡ true) (sym named)
              (raise_shipment_incident_iff roles).1),
      )

  -- Behind the enforced shipped policy, where only `raise_shipment_incident` changes the state of
  -- the tools, a tool call that changes it is a call of this tool, by a caller with the role of an
  -- operator or an administrator, and came with a human's consent.
  pub incident_needs_operator :
      ((tool_of ctx == "raise_shipment_incident") ≡ false → (call_next ctx w.inner).1 ≡ w.inner)
      → ctx.method ≡ some "tools/call"
      → (handle env shipped call_next ctx w).1.inner ≢ w.inner
      → (tool_of ctx ≡ "raise_shipment_incident")
        × IsOperator (roles_from_token ctx.token)
        × Consents (state_in (params_of ctx)) (answers_in (params_of ctx))
  incident_needs_operator reads_only m changed =
      elim (Bool-cases (tool_of ctx == "raise_shipment_incident")) [
        | inr other ↦ absurd (changed (handle-inner env shipped call_next ctx w (reads_only other)))
        | inl same ↦
            let named = (eq_iff (tool_of ctx) "raise_shipment_incident").0 same in
            let (role, consents) = raise_needs_operator m named changed in (named, role, consents)
      ]
