-- ===== src/Middleware/Approving.antt =====
-- governance/middleware.py: `_check_approval`, `_ask_for_approval` and `_audit_approval`.
use mathlib.Core.Option
use governed_mcp_server.Common.{
  String, false, not, Option, none, some, List, [], ◌∷◌, ◌==◌, if◌then◌else◌, length,
}
use governed_mcp_server.Common.Text.{◌+++◌, join}
use governed_mcp_server.Common.Order.{str_ltb}
use governed_mcp_server.Common.Dict.{lookup}
use governed_mcp_server.Common.Value.{Value, null, Entries, end, entry, get, or_else, truth}
use governed_mcp_server.Common.Show.{to_text, quoted}
use governed_mcp_server.Policy.Model.{Policy, Rule}
use governed_mcp_server.Approval.{
  Verdict, approved, refused, ApprovalError, message, check, approval_key, new_pending_state,
}
use governed_mcp_server.Middleware.Flow.{
  PolicyEnforcementMiddleware, InputRequired, Failure, mcp_error, authorization_denied, target_only,
  Environment, Flow, pure, raise, ◌>>=◌, ◌>>◌, record_decision, returned,
}

-- Into the items sorted by their keys.
insert_item : String → String → List (String × String) → List (String × String)
insert_item k v [] = (k, v) ∷ []
insert_item k v ((j, w) ∷ more) =
    if str_ltb k j then (k, v) ∷ (j, w) ∷ more else (j, w) ∷ insert_item k v more

-- `sorted(arguments.items())`, each key and value as a text
sorted_items : Entries → List (String × String)
sorted_items end = []
sorted_items (entry k v m) = insert_item (to_text k) (to_text v) (sorted_items m)

assignments : List (String × String) → List String
assignments [] = []
assignments ((k, v) ∷ more) = (k +++ ("=" +++ v)) ∷ assignments more

-- `text or default`
abbrev text_or : String → String → String
text_or s default = if s == "" then default else s

-- The arguments as the human is shown them.
unfoldable pub detail : Entries → String
unfolding insert_item sorted_items assignments to_text str_ltb join
detail arguments = text_or (join ", " (assignments (sorted_items arguments))) "no arguments"

abbrev rule_prompt : Option Rule → String
rule_prompt none = ""
rule_prompt (some rule) = rule.approval_prompt

-- The question put to the human.
abbrev pub question : Policy → (nonce tool : String) → Entries → InputRequired
question policy nonce tool arguments = record {
  key = approval_key;
  message =
      text_or (rule_prompt (lookup tool policy.tools)) ("Approve running " +++ (tool +++ "?"))
      +++ ("\n\n" +++ (tool +++ ("(" +++ (detail arguments +++ ")"))));
  description = "Allow " +++ (tool +++ " to run with these arguments.");
  request_state = new_pending_state nonce tool;
}

-- `params.get("inputResponses") or params.get("input_responses")`
abbrev pub answers_in : Entries → Value
answers_in params = or_else (get "inputResponses" params) (get "input_responses" params)

abbrev pub state_in : Entries → Value
state_in params = or_else (get "requestState" params) (get "request_state" params)

-- the error that a refused approval raises
abbrev pub refusal : String → ApprovalError → Failure
refusal tool e = mcp_error (record {
  code = authorization_denied;
  message = quoted tool +++ (" was not approved: " +++ (message e +++ "."));
  detail = target_only tool;
})

module _ {S : Type 0} (env : Environment) (mw : PolicyEnforcementMiddleware) where
  abbrev pub audit_approval : (tool principal outcome reason : String) → Flow S (Unit {0})
  audit_approval tool principal outcome reason =
      record_decision env principal "approval"
        (record {
          allowed = outcome == "allow";
          reason = reason;
          target = tool;
          classification = Option.map (λ r. r.classification) (lookup tool mw.policy.tools);
          required_roles = [];
          granted_roles = [];
          requires_approval = false;
          approval_prompt = "";
        })
        none null (some outcome)

  unfoldable pub ask_for_approval : (tool principal : String) → Entries → Flow S InputRequired
  ask_for_approval tool principal arguments = do
    audit_approval tool principal "pending" "awaiting human approval"
    λ w. (returned (question mw.policy (env.nonce (length w.log)) tool arguments), w)

  -- `except approval.ApprovalError`, and the end of `_check_approval`
  abbrev pub settle : (tool principal : String) → Verdict → Flow S (Option InputRequired)
  settle tool principal approved = do
    audit_approval tool principal "allow" "approved by human"
    pure none
  settle tool principal (refused e) = do
    audit_approval tool principal "deny" (message e)
    raise (refusal tool e)

  unfoldable pub check_approval :
      Entries → (tool principal : String) → Entries → Flow S (Option InputRequired)
  check_approval params tool principal arguments =
      if not (truth (answers_in params))
      then (do q ← ask_for_approval tool principal arguments; pure (some q))
      else settle tool principal (check (state_in params) (answers_in params))
