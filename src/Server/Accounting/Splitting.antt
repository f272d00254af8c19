-- ===== src/Server/Accounting/Splitting.antt =====
-- A request is an arrival and, where it is passed on, a run of its handler.
use governed_mcp_server.Common.{
  ◌≡◌, refl, String, Option, some, none, List, [], ◌∷◌, ◌==◌, Bool-cases, inl, inr, arith,
}
use governed_mcp_server.Common.Value.{entries, truth}
use governed_mcp_server.Approval.{check, approved, refused, Verdict}
use governed_mcp_server.Verifier.Tokens.{describe_principal}
use governed_mcp_server.Middleware.Flow.{
  Context, World, Environment, Next, PolicyEnforcementMiddleware,
}
use governed_mcp_server.Middleware.Approving.{answers_in, state_in, settle}
use governed_mcp_server.Middleware.Guards.{
  handle, dispatch, guard_resource_read, filter_tool_list, guard_tool_call, tool_of, params_of,
  arguments_of,
}
use governed_mcp_server.Middleware.Gate.{check_approval-asks, check_approval-settles}
use governed_mcp_server.Middleware.Enforcement.{
  tool_decision, resource_decision, logged, gate, after_gate, guard_tool_call-denied,
  guard_tool_call-shadow, guard_tool_call-ungated, guard_tool_call-gated,
}
use governed_mcp_server.Middleware.Trail.{
  guard_resource_read-denied, guard_resource_read-allowed, guard_resource_read-shadow,
}
use governed_mcp_server.Server.Accounting.Count.{noting}

module _ {S : Type 0} (env : Environment) (mw : PolicyEnforcementMiddleware) (call_next : Next S)
    (ctx : Context) (w : World S) where
  -- the effects of the handlers of these requests, the last one first
  abbrev pub effects : List Context → S → S
  effects [] s = s
  effects (c ∷ passed) s = (call_next c (effects passed s)).1

  abbrev pub arrived : World (List Context)
  arrived = record { log = w.log; inner = [] }

  -- A state after the arrival, with the handlers' effects.
  abbrev pub IsSplit : World S → World (List Context) → Type 0
  IsSplit after admitted =
      after ≡ record { log = admitted.log; inner = effects admitted.inner w.inner }

  settle-IsSplit :
      (v : Verdict)
      → let tool = tool_of ctx in
        let who = describe_principal ctx.token in
        IsSplit
          (after_gate call_next ctx (settle env mw tool who v (logged env mw call_next ctx w))).1
          (after_gate noting ctx (settle env mw tool who v (logged env mw noting ctx arrived))).1
  settle-IsSplit approved = refl
  settle-IsSplit (refused e) = refl

  gate-IsSplit :
      IsSplit
        (after_gate call_next ctx (gate env mw call_next ctx w)).1
        (after_gate noting ctx (gate env mw noting ctx arrived)).1
  gate-IsSplit =
      let tool = tool_of ctx in
      let who = describe_principal ctx.token in
      let arguments = entries (arguments_of ctx) in
      elim (Bool-cases (truth (answers_in (params_of ctx)))) [
        | inr none_yet ↦
            rw
              (
                check_approval-asks env mw (params_of ctx) tool who arguments
                    (logged env mw call_next ctx w) none_yet,
                check_approval-asks env mw (params_of ctx) tool who arguments
                    (logged env mw noting ctx arrived) none_yet,
              )
              refl
        | inl answered ↦
            rw
              (
                check_approval-settles env mw (params_of ctx) tool who arguments
                    (logged env mw call_next ctx w) answered,
                check_approval-settles env mw (params_of ctx) tool who arguments
                    (logged env mw noting ctx arrived) answered,
              )
              (settle-IsSplit (check (state_in (params_of ctx)) (answers_in (params_of ctx))))
      ]

  tool_call-IsSplit :
      IsSplit
        (guard_tool_call env mw call_next ctx w).1
        (guard_tool_call env mw noting ctx arrived).1
  tool_call-IsSplit = elim (Bool-cases mw.enforce) [
    | inr off ↦
        rw
          (
            guard_tool_call-shadow env mw call_next ctx w off,
            guard_tool_call-shadow env mw noting ctx arrived off,
          )
          refl
    | inl on ↦ elim (Bool-cases (tool_decision env mw call_next ctx w).allowed) [
      | inr no_role ↦
          rw
            (
              guard_tool_call-denied env mw call_next ctx w on no_role,
              guard_tool_call-denied env mw noting ctx arrived on no_role,
            )
            refl
      | inl role ↦ elim (Bool-cases (tool_decision env mw call_next ctx w).requires_approval) [
        | inr free ↦
            rw
              (
                guard_tool_call-ungated env mw call_next ctx w role free,
                guard_tool_call-ungated env mw noting ctx arrived role free,
              )
              refl
        | inl gated ↦
            rw
              (
                guard_tool_call-gated env mw call_next ctx w on role gated,
                guard_tool_call-gated env mw noting ctx arrived on role gated,
              )
              gate-IsSplit
      ]
    ]
  ]

  resource_read-IsSplit :
      IsSplit
        (guard_resource_read env mw call_next ctx w).1
        (guard_resource_read env mw noting ctx arrived).1
  resource_read-IsSplit = elim (Bool-cases mw.enforce) [
    | inr off ↦
        rw
          (
            guard_resource_read-shadow env mw call_next ctx w off,
            guard_resource_read-shadow env mw noting ctx arrived off,
          )
          refl
    | inl on ↦ elim (Bool-cases (resource_decision env mw call_next ctx w).allowed) [
      | inr no_role ↦
          rw
            (
              guard_resource_read-denied env mw call_next ctx w on no_role,
              guard_resource_read-denied env mw noting ctx arrived on no_role,
            )
            refl
      | inl role ↦
          rw
            (
              guard_resource_read-allowed env mw call_next ctx w role,
              guard_resource_read-allowed env mw noting ctx arrived role,
            )
            refl
    ]
  ]

  tool_list-IsSplit :
      IsSplit
        (filter_tool_list env mw call_next ctx w).1
        (filter_tool_list env mw noting ctx arrived).1
  unfolding filter_tool_list
  tool_list-IsSplit = ground arith

  dispatch-IsSplit :
      (method : Option String)
      → IsSplit
          (dispatch env mw call_next method ctx w).1
          (dispatch env mw noting method ctx arrived).1
  dispatch-IsSplit none = refl
  dispatch-IsSplit (some method) = elim (Bool-cases (method == "tools/call")) [
    | inl call ↦ rw call tool_call-IsSplit
    | inr no_call ↦ elim (Bool-cases (method == "resources/read")) [
      | inl is_read ↦ rw (no_call, is_read) resource_read-IsSplit
      | inr no_read ↦ elim (Bool-cases (method == "tools/list")) [
        | inl is_list ↦ rw (no_call, no_read, is_list) tool_list-IsSplit
        | inr no_list ↦ rw (no_call, no_read, no_list) refl
      ]
    ]
  ]

  -- A request by itself leaves what its arrival leaves, with the effect of the handler where it was
  -- passed on.
  pub handle-IsSplit :
      IsSplit (handle env mw call_next ctx w).1 (handle env mw noting ctx arrived).1
  unfolding handle
  handle-IsSplit = dispatch-IsSplit ctx.method
