-- ===== src/Middleware/Trail.antt =====
-- Resource reads branch by branch, the audit trail, and shadow mode.
use governed_mcp_server.Common.{
  ◌≡◌, ◌⊎◌, ◌∙◌, refl, ap, String, true, false, Option, none, some, List, [], ◌∷◌, ◌++◌, arith,
  Bool-cases, inl, inr, ◌==◌,
}
use mathlib.Core.List.{append_assoc}
use governed_mcp_server.Audit.{Line, entry_for}
use governed_mcp_server.Policy.Model.{Decision}
use governed_mcp_server.Common.Value.{null}
use governed_mcp_server.Verifier.Tokens.{describe_principal}
use governed_mcp_server.Middleware.Flow.{
  Context, PolicyEnforcementMiddleware, Answer, Outcome, raised, World, Environment, Next, forward,
}
use governed_mcp_server.Middleware.Guards.{
  handle, dispatch, guard_tool_call, guard_resource_read, filter_tool_list, denied_error, tool_of,
}
use governed_mcp_server.Middleware.Enforcement.{tool_line, resource_decision, resource_line}
use governed_mcp_server.Middleware.ToolCalls.{
  ToolCall, shadowed, denied, ungated, asked, consented, unapproved, handle-ToolCall,
  guard_tool_call-ToolCall,
}

module _ {S : Type 0} (env : Environment) (mw : PolicyEnforcementMiddleware) (call_next : Next S)
    (ctx : Context) (w : World S) where
  -- the state after the line about a resource read
  abbrev pub read_logged : World S
  read_logged = record { log = w.log ++ resource_line env mw call_next ctx w ∷ []; inner = w.inner }

  pub guard_resource_read-denied :
      mw.enforce ≡ true
      → (resource_decision env mw call_next ctx w).allowed ≡ false
      → guard_resource_read env mw call_next ctx w
        ≡ (raised (denied_error (resource_decision env mw call_next ctx w)), read_logged)
  unfolding guard_resource_read
  guard_resource_read-denied e d = simp (d, e)

  pub guard_resource_read-allowed :
      (resource_decision env mw call_next ctx w).allowed ≡ true
      → guard_resource_read env mw call_next ctx w ≡ forward call_next ctx read_logged
  unfolding guard_resource_read
  guard_resource_read-allowed d = simp d

  pub guard_resource_read-shadow :
      mw.enforce ≡ false
      → guard_resource_read env mw call_next ctx w ≡ forward call_next ctx read_logged
  unfolding guard_resource_read
  guard_resource_read-shadow e = ground arith

  pub handle-resource_read :
      ctx.method ≡ some "resources/read"
      → handle env mw call_next ctx w ≡ guard_resource_read env mw call_next ctx w
  unfolding handle
  handle-resource_read m = rw m

  -- A line about the approval of this call by this caller, with one of the three outcomes.
  pub record IsApprovalLine (line : Line) : Type 0 where
    pub method : line.event.method ≡ "approval"
    pub target : line.event.target ≡ tool_of ctx
    pub principal : line.event.principal ≡ describe_principal ctx.token
    pub outcome :
        (line.event.outcome ≡ "pending")
        ⊎ ((line.event.outcome ≡ "allow") ⊎ (line.event.outcome ≡ "deny"))

  -- at most one line, and it is about the approval
  abbrev pub ApprovalAtMost : List Line → Type 0
  ApprovalAtMost [] = Unit
  ApprovalAtMost (line ∷ []) = IsApprovalLine line
  ApprovalAtMost (line ∷ next ∷ more) = ⊥

  -- The log has grown by the line, and by one about the approval at most.
  pub record IsTracedBy (line : Line) (result : Outcome Answer × World S) : Type 0 where
    pub more : List Line
    pub grown : result.1.log ≡ w.log ++ line ∷ more
    pub about_approval : ApprovalAtMost more

  audited-IsApprovalLine :
      (outcome now : String) (decision : Decision)
      → decision.target ≡ tool_of ctx
      → (outcome == "") ≡ false
      → (outcome ≡ "pending") ⊎ ((outcome ≡ "allow") ⊎ (outcome ≡ "deny"))
      → IsApprovalLine (
          entry_for now (describe_principal ctx.token) "approval" decision none null (some outcome))
  unfolding entry_for
  audited-IsApprovalLine outcome now decision same full among = record {
    method = refl;
    target = same;
    principal = refl;
    outcome = rw full among;
  }

  one_line :
      (result : Outcome Answer × World S)
      → result.1.log ≡ w.log ++ tool_line env mw call_next ctx w ∷ []
      → IsTracedBy (tool_line env mw call_next ctx w) result
  one_line result p = record { more = []; grown = p; about_approval = tt }

  two_lines :
      (l : Line) (result : Outcome Answer × World S)
      → result.1.log ≡ (w.log ++ tool_line env mw call_next ctx w ∷ []) ++ l ∷ []
      → IsApprovalLine l
      → IsTracedBy (tool_line env mw call_next ctx w) result
  two_lines l result p about = record {
    more = l ∷ [];
    grown = p ∙ append_assoc w.log (tool_line env mw call_next ctx w ∷ []) (l ∷ []);
    about_approval = about;
  }

  pub ToolCall-IsTracedBy :
      (result : Outcome Answer × World S)
      → ToolCall env mw call_next ctx w result
      → IsTracedBy (tool_line env mw call_next ctx w) result
  ToolCall-IsTracedBy result (shadowed _ p) = one_line result (ap (λ r. r.1.log) p)
  ToolCall-IsTracedBy result (denied _ _ p) = one_line result (ap (λ r. r.1.log) p)
  ToolCall-IsTracedBy result (ungated _ _ p) = one_line result (ap (λ r. r.1.log) p)
  ToolCall-IsTracedBy result (asked _ _ _ _ p) =
      two_lines _ result (ap (λ r. r.1.log) p)
        (audited-IsApprovalLine "pending" _ _ refl refl (inl refl))
  ToolCall-IsTracedBy result (consented _ _ _ _ p) =
      two_lines _ result (ap (λ r. r.1.log) p)
        (audited-IsApprovalLine "allow" _ _ refl refl (inr (inl refl)))
  ToolCall-IsTracedBy result (unapproved why _ _ _ _ _ p) =
      two_lines _ result (ap (λ r. r.1.log) p)
        (audited-IsApprovalLine "deny" _ _ refl refl (inr (inr refl)))

  -- A tool call, however it ends and also in shadow mode, first leaves the line about the policy's
  -- decision in the audit log, and then at most one more: a line with the method `approval` about
  -- the same tool and caller, with the outcome pending, allow or deny. What was logged before stays.
  pub tool_call_is_logged :
      ctx.method ≡ some "tools/call"
      → IsTracedBy (tool_line env mw call_next ctx w) (handle env mw call_next ctx w)
  tool_call_is_logged m =
      ToolCall-IsTracedBy (handle env mw call_next ctx w) (handle-ToolCall env mw call_next ctx w m)

  -- what the middleware would be if it were not there, but for the log
  abbrev pub IsTransparent : Outcome Answer × World S → Type 0
  IsTransparent result =
      (result.0 ≡ (call_next ctx w.inner).0) × (result.1.inner ≡ (call_next ctx w.inner).1)

  ToolCall-IsTransparent :
      (result : Outcome Answer × World S)
      → mw.enforce ≡ false
      → ToolCall env mw call_next ctx w result
      → IsTransparent result
  ToolCall-IsTransparent result off (shadowed _ p) = (ap (λ r. r.0) p, ap (λ r. r.1.inner) p)
  ToolCall-IsTransparent result off (ungated _ _ p) = (ap (λ r. r.0) p, ap (λ r. r.1.inner) p)
  ToolCall-IsTransparent result off (denied on _ _) = cc
  ToolCall-IsTransparent result off (asked on _ _ _ _) = cc
  ToolCall-IsTransparent result off (consented on _ _ _ _) = cc
  ToolCall-IsTransparent result off (unapproved _ on _ _ _ _ _) = cc

  filter_tool_list-IsTransparent :
      mw.enforce ≡ false → IsTransparent (filter_tool_list env mw call_next ctx w)
  unfolding filter_tool_list
  filter_tool_list-IsTransparent off = ground arith

  dispatch-IsTransparent :
      (method : Option String)
      → mw.enforce ≡ false
      → IsTransparent (dispatch env mw call_next method ctx w)
  dispatch-IsTransparent none off = (refl, refl)
  dispatch-IsTransparent (some method) off = elim (Bool-cases (method == "tools/call")) [
    | inl is_call ↦ rw is_call (
        ToolCall-IsTransparent (guard_tool_call env mw call_next ctx w) off
          (guard_tool_call-ToolCall env mw call_next ctx w))
    | inr no_call ↦ elim (Bool-cases (method == "resources/read")) [
      | inl is_read ↦ rw (no_call, is_read) (rw (guard_resource_read-shadow off) (refl, refl))
      | inr no_read ↦ elim (Bool-cases (method == "tools/list")) [
        | inl is_list ↦ rw (no_call, no_read, is_list) (filter_tool_list-IsTransparent off)
        | inr no_list ↦ rw (no_call, no_read, no_list) (refl, refl)
      ]
    ]
  ]

  -- In shadow mode every request, whatever its method, ends as it would without the middleware:
  -- with the same result or exception, and the same state behind it.
  pub handle-IsTransparent : mw.enforce ≡ false → IsTransparent (handle env mw call_next ctx w)
  unfolding handle
  handle-IsTransparent off = dispatch-IsTransparent ctx.method off
