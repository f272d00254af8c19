-- ===== src/Middleware/Gate.antt =====
-- The approval gate, branch by branch.
use governed_mcp_server.Common.{
  ◌≡◌, refl, sym, subst, Bool-cases, inl, inr, String, true, false, Option, none, some, length,
}
use governed_mcp_server.Common.Value.{Entries, truth}
use governed_mcp_server.Approval.{check, approved, refused, Verdict, ApprovalError, message}
use governed_mcp_server.Approval.Consent.{Consents, check_iff}
use governed_mcp_server.Middleware.Flow.{
  PolicyEnforcementMiddleware, InputRequired, World, Environment, Outcome, returned, raised,
}
use governed_mcp_server.Middleware.Approving.{
  check_approval, ask_for_approval, refusal, settle, answers_in, state_in, question, audit_approval,
}

module _ {S : Type 0} (env : Environment) (mw : PolicyEnforcementMiddleware) (params : Entries)
    (tool principal : String) (arguments : Entries) (w : World S) where
  -- the state after a line about the approval
  abbrev pub noted : (outcome reason : String) → World S
  noted outcome reason = (audit_approval env mw tool principal outcome reason w).1

  pub check_approval-asks :
      truth (answers_in params) ≡ false
      → let w' = noted "pending" "awaiting human approval" in
        check_approval env mw params tool principal arguments w
        ≡ (returned (some (question mw.policy (env.nonce (length w'.log)) tool arguments)), w')
  unfolding check_approval ask_for_approval
  check_approval-asks t = simp t

  pub check_approval-settles :
      truth (answers_in params) ≡ true
      → check_approval env mw params tool principal arguments w
        ≡ settle env mw tool principal (check (state_in params) (answers_in params)) w
  unfolding check_approval
  check_approval-settles t = simp t

  -- How the gate ended: it asked, it let the call pass with consent, or it refused the call.
  pub data Gated (result : Outcome (Option InputRequired) × World S) : Type 0 where
    asks :
        truth (answers_in params) ≡ false
        → (let w' = noted "pending" "awaiting human approval" in
            result
            ≡ (returned (some (question mw.policy (env.nonce (length w'.log)) tool arguments)), w'))
        → Gated result
    passes :
        Consents (state_in params) (answers_in params)
        → result ≡ (returned none, noted "allow" "approved by human")
        → Gated result
    refuses :
        (e : ApprovalError)
        → truth (answers_in params) ≡ true
        → check (state_in params) (answers_in params) ≡ refused e
        → result ≡ (raised (refusal tool e), noted "deny" (message e))
        → Gated result

  settle-Gated :
      (v : Verdict)
      → truth (answers_in params) ≡ true
      → check (state_in params) (answers_in params) ≡ v
      → Gated (settle env mw tool principal v w)
  settle-Gated approved t e = passes ((check_iff (state_in params) (answers_in params)).0 e) refl
  settle-Gated (refused e) t c = refuses e t c refl

  -- The gate ends in one of these three ways, each under its condition.
  pub check_approval-Gated : Gated (check_approval env mw params tool principal arguments w)
  check_approval-Gated = elim (Bool-cases (truth (answers_in params))) [
    | inl t ↦
        subst Gated (sym (check_approval-settles t))
          (settle-Gated (check (state_in params) (answers_in params)) t refl)
    | inr t ↦ asks t (check_approval-asks t)
  ]
