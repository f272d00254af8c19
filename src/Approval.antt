-- ===== src/Approval.antt =====
-- governance/approval.py: human approval for tools that the policy marks `requires_approval`.
pub mod Consent
pub mod Tests
use governed_mcp_server.Common.{String, Bool, false, not, if◌then◌else◌}
use governed_mcp_server.Common.Text.{starts_with, ◌+++◌}
use governed_mcp_server.Common.Value.{
  Value, bool, str, mapping, end, get, get_or, has_key, field_or_attribute, is_text, or_else,
}

-- `ApprovalError`, by its message
pub data ApprovalError : Type 0 where
  not_requested unanswered declined : ApprovalError

-- `str(exc)`
abbrev pub message : ApprovalError → String
message not_requested = "no approval was requested for this call"
message unanswered = "the approval question was not answered"
message declined = "a human declined the action"

pub data Verdict : Type 0 where
  approved : Verdict
  refused : ApprovalError → Verdict

abbrev pub approval_key : String
approval_key = "approval"

abbrev pub prefix : String
prefix = "awaiting-approval:"

-- The nonce stands for `secrets.token_urlsafe(9)`.
unfoldable pub new_pending_state : String → String → String
new_pending_state nonce tool = prefix +++ (tool +++ (":" +++ nonce))

-- `value is True`
abbrev pub is_true : Value → Bool
is_true (bool b) = b
is_true _ = false

-- The end of `is_affirmative`, on the content of the answer.
abbrev pub agrees : Value → Bool
agrees (mapping m) = is_true (get "approve" m)
agrees _ = false

unfoldable pub is_affirmative : Value → Bool
unfolding field_or_attribute get_or
is_affirmative answer =
    if not (is_text "accept" (field_or_attribute "action" answer))
    then false
    else agrees (or_else (field_or_attribute "content" answer) (mapping end))

-- `isinstance(state, str) and state.startswith(…)`
abbrev pub is_pending : Value → Bool
is_pending (str s) = starts_with s prefix
is_pending _ = false

abbrev check_answers : Value → Verdict
check_answers (mapping answers) =
    if not (has_key approval_key answers)
    then refused unanswered
    else if not (is_affirmative (get approval_key answers))
    then refused declined
    else approved
check_answers _ = refused unanswered

-- `check`: it raises, or a human approved this call.
unfoldable pub check : Value → Value → Verdict
unfolding is_affirmative has_key get_or starts_with
check state answers =
    if not (is_pending state) then refused not_requested else check_answers answers
