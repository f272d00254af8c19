-- ===== src/Middleware/RoundTrip.antt =====
-- The two rounds of an approval: a question, and the call again with the answer.
use governed_mcp_server.Common.{◌≡◌, refl, sym, ap, ap₂, subst, String, true, false, some, length}
use governed_mcp_server.Common.Value.{
  Value, str, mapping, Entries, end, entry, entries, get, has_key, truth, field_or_attribute,
}
use governed_mcp_server.Policy.Model.{Decision}
use governed_mcp_server.Policy.Deciding.{decide_tool}
use governed_mcp_server.Approval.{new_pending_state, approval_key, is_affirmative}
use governed_mcp_server.Approval.Consent.{
  Consents, Approves, answer_of, is_affirmative_iff, check_iff, new_pending_state-IsPending,
}
use governed_mcp_server.Verifier.Tokens.{roles_from_token}
use governed_mcp_server.Middleware.Flow.{
  Context, PolicyEnforcementMiddleware, Answer, Outcome, returned, World, Environment, Next,
  InputRequired, input_required, forward,
}
use governed_mcp_server.Middleware.Approving.{answers_in, state_in, question}
use governed_mcp_server.Middleware.Guards.{handle, params_of, tool_of, arguments_of}
use governed_mcp_server.Middleware.Enforcement.{tool_decision}
use governed_mcp_server.Middleware.ToolCalls.{
  settled, handle-ToolCall, ToolCall, shadowed, denied, ungated, asked, consented, unapproved,
}

-- A retry of `ctx`: the same tool and token, with the state of the question and an answer to it
-- that says yes.
pub record Retries (ctx : Context) (q : InputRequired) (retry : Context) : Type 0 where
  pub is_call : retry.method ≡ some "tools/call"
  pub same_tool : tool_of retry ≡ tool_of ctx
  pub same_token : retry.token ≡ ctx.token
  pub state : state_in (params_of retry) ≡ str q.request_state
  pub answers : Entries
  pub answered : answers_in (params_of retry) ≡ mapping answers
  pub has_answer : has_key q.key answers ≡ true
  pub affirmed : is_affirmative (get q.key answers) ≡ true

truth_of_has_key : (key : String) (m : Entries) → has_key key m ≡ true → truth (mapping m) ≡ true
unfolding has_key
truth_of_has_key key end e = cc
truth_of_has_key key (entry k v m) e = refl

truth_of_Consents : (state answers : Value) → Consents state answers → truth answers ≡ true
truth_of_Consents state answers c =
    rw c.are_answers (truth_of_has_key approval_key c.replies c.answered)

module _ {S : Type 0} (env : Environment) (mw : PolicyEnforcementMiddleware) (call_next : Next S)
    (ctx : Context) (w : World S) where
  abbrev decided : Decision
  decided = tool_decision env mw call_next ctx w

  asked_first :
      (result : Outcome Answer × World S)
      → mw.enforce ≡ true
      → decided.allowed ≡ true
      → decided.requires_approval ≡ true
      → truth (answers_in (params_of ctx)) ≡ false
      → ToolCall env mw call_next ctx w result
      → (let w' = settled env mw call_next ctx w "pending" "awaiting human approval" in
          result ≡ (
            returned (
                input_required (
                  question mw.policy
                    (env.nonce (length w'.log))
                    (tool_of ctx)
                    (entries (arguments_of ctx)))),
            w',
          ))
  asked_first result e a r t (asked _ _ _ _ p) = p
  asked_first result e a r t (shadowed off _) = cc
  asked_first result e a r t (denied _ no_role _) = cc
  asked_first result e a r t (ungated _ free _) = cc
  asked_first result e a r t (consented _ _ _ c _) = cc (truth_of_Consents _ _ c)
  asked_first result e a r t (unapproved _ _ _ _ t' _ _) = cc

  runs_with_consent :
      (result : Outcome Answer × World S)
      → mw.enforce ≡ true
      → decided.allowed ≡ true
      → decided.requires_approval ≡ true
      → Consents (state_in (params_of ctx)) (answers_in (params_of ctx))
      → ToolCall env mw call_next ctx w result
      → result ≡ forward call_next ctx (settled env mw call_next ctx w "allow" "approved by human")
  runs_with_consent result e a r c (consented _ _ _ _ p) = p
  runs_with_consent result e a r c (shadowed off _) = cc
  runs_with_consent result e a r c (denied _ no_role _) = cc
  runs_with_consent result e a r c (ungated _ free _) = cc
  runs_with_consent result e a r c (asked _ _ _ t _) = cc (truth_of_Consents _ _ c)
  runs_with_consent result e a r c (unapproved _ _ _ _ _ no_consent _) =
      cc ((check_iff (state_in (params_of ctx)) (answers_in (params_of ctx))).1 c)

  -- An allowed call of a gated tool runs once consent comes with it.
  consented_call_runs :
      ctx.method ≡ some "tools/call"
      → mw.enforce ≡ true
      → decided.allowed ≡ true
      → decided.requires_approval ≡ true
      → Consents (state_in (params_of ctx)) (answers_in (params_of ctx))
      → handle env mw call_next ctx w
        ≡ forward call_next ctx (settled env mw call_next ctx w "allow" "approved by human")
  consented_call_runs m e a r c =
      runs_with_consent (handle env mw call_next ctx w) e a r c
        (handle-ToolCall env mw call_next ctx w m)

said_yes :
    (retry ctx : Context) (q : InputRequired)
    → q.key ≡ approval_key
    → (h : Retries ctx q retry)
    → (field_or_attribute "action" (answer_of h.answers) ≡ str "accept")
      × Approves (field_or_attribute "content" (answer_of h.answers))
said_yes retry ctx q k h =
    (is_affirmative_iff (answer_of h.answers)).0
      (subst (λ key. is_affirmative (get key h.answers) ≡ true) k h.affirmed)

Retries-Consents :
    (ctx retry : Context) (q : InputRequired) (nonce tool : String)
    → q.key ≡ approval_key
    → q.request_state ≡ new_pending_state nonce tool
    → Retries ctx q retry
    → Consents (state_in (params_of retry)) (answers_in (params_of retry))
Retries-Consents ctx retry q nonce tool k s h = record {
  issued = q.request_state;
  is_state = h.state;
  pending = rw s (new_pending_state-IsPending nonce tool);
  replies = h.answers;
  are_answers = h.answered;
  answered = subst (λ key. has_key key h.answers ≡ true) k h.has_answer;
  accepts = (said_yes retry ctx q k h).0;
  approves = (said_yes retry ctx q k h).1;
}

module _ {S : Type 0} (env : Environment) (mw : PolicyEnforcementMiddleware) (call_next : Next S)
    (ctx : Context) (w : World S) where
  same_decision :
      (retry : Context) (w' : World S) (q : InputRequired)
      → Retries ctx q retry
      → tool_decision env mw call_next ctx w ≡ tool_decision env mw call_next retry w'
  same_decision retry w' q h =
      ap₂ (λ tool token. decide_tool mw.policy tool (roles_from_token token)) (sym h.same_tool)
        (sym h.same_token)

  -- Under enforcement, so not in shadow mode, the first call of a gated tool that the caller may
  -- use, without answers yet, is paused with a question, and leaves the state behind the middleware
  -- alone. A call of the same tool then, by the same token, with the state of that question and an
  -- answer that says yes, runs: its result and its effect are those of the handler.
  pub approval_round_trip :
      ctx.method ≡ some "tools/call"
      → mw.enforce ≡ true
      → (tool_decision env mw call_next ctx w).allowed ≡ true
      → (tool_decision env mw call_next ctx w).requires_approval ≡ true
      → truth (answers_in (params_of ctx)) ≡ false
      → (q : InputRequired) × (w' : World S) × (handle env mw call_next ctx w
          ≡ (returned (input_required q), w'))
        × (w'.inner ≡ w.inner)
        × ((retry : Context)
            → Retries ctx q retry
            → ((handle env mw call_next retry w').0 ≡ (call_next retry w.inner).0)
              × ((handle env mw call_next retry w').1.inner ≡ (call_next retry w.inner).1))
  approval_round_trip m e a r t =
      let w' = settled env mw call_next ctx w "pending" "awaiting human approval" in
      let nonce = env.nonce (length w'.log) in
      let q = question mw.policy nonce (tool_of ctx) (entries (arguments_of ctx)) in
      (
        q,
        w',
        asked_first env mw call_next ctx w (handle env mw call_next ctx w) e a r t
            (handle-ToolCall env mw call_next ctx w m),
        refl,
        λ retry h.
            let same = same_decision retry w' q h in
            let runs =
              consented_call_runs env mw call_next retry w' h.is_call e
                (subst (λ d. d.allowed ≡ true) same a)
                (subst (λ d. d.requires_approval ≡ true) same r)
                (Retries-Consents ctx retry q nonce (tool_of ctx) refl refl h) in
            (ap (λ x. x.0) runs, ap (λ x. x.1.inner) runs),
      )
