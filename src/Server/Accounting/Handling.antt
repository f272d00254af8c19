-- ===== src/Server/Accounting/Handling.antt =====
-- One request: the calls that it hands to the handlers are covered by the approvals it leaves.
use governed_mcp_server.Common.{
  ◌≡◌, refl, sym, ap, subst, ◌∙◌, ℕ, suc, ◌+◌, ◌≤◌, String, true, false, some, none, Option, List,
  [], ◌∷◌, ◌++◌, ◌==◌, arith, eq_iff, Bool-cases, inl, inr,
}
use governed_mcp_server.Policy.Shipped.{raise_shipment_incident_iff}
use governed_mcp_server.Policy.Deciding.{decide_tool}
use governed_mcp_server.Policy.Document.{policy}
use governed_mcp_server.Audit.{Line}
use governed_mcp_server.Verifier.Tokens.{roles_from_token}
use governed_mcp_server.Middleware.Flow.{
  Context, Answer, Outcome, World, Environment, Next, forward,
}
use governed_mcp_server.Middleware.Guards.{
  handle, dispatch, guard_resource_read, filter_tool_list, guard_tool_call, tool_of,
}
use governed_mcp_server.Middleware.ToolCalls.{
  ToolCall, guard_tool_call-ToolCall, shadowed, denied, ungated, asked, consented, unapproved,
  settled,
}
use governed_mcp_server.Middleware.Enforcement.{tool_line, resource_line, resource_decision}
use governed_mcp_server.Middleware.Trail.{
  ToolCall-IsTracedBy, guard_resource_read-denied, guard_resource_read-allowed,
}
use governed_mcp_server.Server.Authority.{shipped}
use governed_mcp_server.Server.Accounting.Count.{
  approvals, approvals-append, one_more, approval_line, raises, IsServing,
}

module _ {S : Type 0} (opened : S → ℕ) where
  -- The new incidents are no more than the new approvals.
  abbrev pub IsAccounted : World S → World S → Type 0
  IsAccounted w w' = opened w'.inner + approvals w.log ≤ opened w.inner + approvals w'.log

  quiet :
      (w w' : World S) (more : List Line)
      → opened w'.inner ≡ opened w.inner
      → w'.log ≡ w.log ++ more
      → IsAccounted w w'
  quiet w w' more same grown =
      let counts : approvals w'.log ≡ approvals w.log + approvals more =
        ap approvals grown ∙ approvals-append w.log more in
      omega (arith, counts, same)

  module _ (env : Environment) (call_next : Next S) (serving : IsServing opened call_next)
      (ctx : Context) (w : World S) where
    quiet_call :
        (result : Outcome Answer × World S)
        → ToolCall env shipped call_next ctx w result
        → opened result.1.inner ≡ opened w.inner
        → IsAccounted w result.1
    quiet_call result call same =
        let traced = ToolCall-IsTracedBy env shipped call_next ctx w result call in
        quiet w result.1 (tool_line env shipped call_next ctx w ∷ traced.more) same traced.grown

    consented_line :
        tool_of ctx ≡ "raise_shipment_incident"
        → let w' = settled env shipped call_next ctx w "allow" "approved by human" in
          suc (approvals w.log) ≤ approvals w'.log
    consented_line named =
        one_more w.log (tool_line env shipped call_next ctx w) _ (approval_line _ _ _ named)

    raise-IsAccounted :
        tool_of ctx ≡ "raise_shipment_incident"
        → (result : Outcome Answer × World S) → ToolCall env shipped call_next ctx w result
        → IsAccounted w result.1
    raise-IsAccounted named result (shadowed off p) = cc
    raise-IsAccounted named result (denied on no_role p) =
        quiet_call result (denied on no_role p) (ap (λ r. opened r.1.inner) p)
    raise-IsAccounted named result (ungated role free p) =
        let gated : (decide_tool policy (tool_of ctx)
              (roles_from_token ctx.token)).requires_approval
            ≡ true =
          subst
            (λ tool.
              (decide_tool policy tool (roles_from_token ctx.token)).requires_approval ≡ true)
            (sym named) (raise_shipment_incident_iff (roles_from_token ctx.token)).1 in
        cc
    raise-IsAccounted named result (asked on role gated t p) =
        quiet_call result (asked on role gated t p) (ap (λ r. opened r.1.inner) p)
    raise-IsAccounted named result (consented on role gated c p) =
        let line = consented_line named in
        let one = serving.opens_one ctx w.inner in
        let stored = ap (λ r. opened r.1.inner) p in
        let logged = ap (λ r. approvals r.1.log) p in omega (arith, line, one, stored, logged)
    raise-IsAccounted named result (unapproved why on role gated t c p) =
        quiet_call result (unapproved why on role gated t c p) (ap (λ r. opened r.1.inner) p)

    other-opened :
        (tool_of ctx == "raise_shipment_incident") ≡ false
        → (result : Outcome Answer × World S) → ToolCall env shipped call_next ctx w result
        → opened result.1.inner ≡ opened w.inner
    other-opened other result (shadowed off p) = cc
    other-opened other result (denied _ _ p) = ap (λ r. opened r.1.inner) p
    other-opened other result (ungated _ _ p) =
        ap (λ r. opened r.1.inner) p ∙ serving.keeps ctx w.inner (ground (arith, other))
    other-opened other result (asked _ _ _ _ p) = ap (λ r. opened r.1.inner) p
    other-opened other result (consented _ _ _ _ p) =
        ap (λ r. opened r.1.inner) p ∙ serving.keeps ctx w.inner (ground (arith, other))
    other-opened other result (unapproved _ _ _ _ _ _ p) = ap (λ r. opened r.1.inner) p

    tool_call-IsAccounted :
        ctx.method ≡ some "tools/call"
        → IsAccounted w (guard_tool_call env shipped call_next ctx w).1
    tool_call-IsAccounted m =
        let call = guard_tool_call-ToolCall env shipped call_next ctx w in
        elim (Bool-cases (tool_of ctx == "raise_shipment_incident")) [
          | inl same ↦
              raise-IsAccounted ((eq_iff (tool_of ctx) "raise_shipment_incident").0 same) _ call
          | inr other ↦ quiet_call _ call (other-opened other _ call)
        ]

    module _ (reads : raises ctx ≡ false) where
      forward-IsAccounted : IsAccounted w (forward call_next ctx w).1
      forward-IsAccounted = let same = serving.keeps ctx w.inner reads in omega (arith, same)

      resource_read-IsAccounted : IsAccounted w (guard_resource_read env shipped call_next ctx w).1
      resource_read-IsAccounted =
          let line = resource_line env shipped call_next ctx w in
          elim (Bool-cases (resource_decision env shipped call_next ctx w).allowed) [
            | inl role ↦
                rw (guard_resource_read-allowed env shipped call_next ctx w role)
                  (quiet w _ (line ∷ []) (serving.keeps ctx w.inner reads) refl)
            | inr no_role ↦
                rw (guard_resource_read-denied env shipped call_next ctx w refl no_role)
                  (quiet w _ (line ∷ []) refl refl)
          ]

      tool_list-IsAccounted : IsAccounted w (filter_tool_list env shipped call_next ctx w).1
      unfolding filter_tool_list
      tool_list-IsAccounted = let same = serving.keeps ctx w.inner reads in ground (arith, same)

    dispatch-IsAccounted :
        (method : Option String)
        → ctx.method ≡ method
        → IsAccounted w (dispatch env shipped call_next method ctx w).1
    dispatch-IsAccounted none m = forward-IsAccounted (rw m refl)
    dispatch-IsAccounted (some method) m = elim (Bool-cases (method == "tools/call")) [
      | inl call ↦
          rw call (tool_call-IsAccounted (m ∙ ap some ((eq_iff method "tools/call").0 call)))
      | inr no_call ↦
          let reads : raises ctx ≡ false = rw (m, no_call) refl in
          elim (Bool-cases (method == "resources/read")) [
            | inl is_read ↦ rw (no_call, is_read) (resource_read-IsAccounted reads)
            | inr no_read ↦ elim (Bool-cases (method == "tools/list")) [
              | inl is_list ↦ rw (no_call, no_read, is_list) (tool_list-IsAccounted reads)
              | inr no_list ↦ rw (no_call, no_read, no_list) (forward-IsAccounted reads)
            ]
          ]
    ]

    pub handle-IsAccounted : IsAccounted w (handle env shipped call_next ctx w).1
    unfolding handle
    handle-IsAccounted = dispatch-IsAccounted ctx.method refl
