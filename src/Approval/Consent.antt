-- ===== src/Approval/Consent.antt =====
-- What counts as a human's consent.
use governed_mcp_server.Common.{◌≡◌, refl, ap, ◌↔◌, String, true, false, eq_iff, arith}
use governed_mcp_server.Common.Text.{starts_with, starts_with-append, ◌+++◌}
use governed_mcp_server.Common.Value.{
  Value, null, str, bool, mapping, Entries, end, entry, is_text, or_else, get, has_key, get_or,
  field_or_attribute,
}
use governed_mcp_server.Approval.{
  is_true, agrees, is_affirmative, check, approved, approval_key, prefix, new_pending_state,
  is_pending,
}

-- a mapping whose `approve` is the value `True`
abbrev pub Approves : Value → Type 0
Approves v = (content : Entries) × (v ≡ mapping content) × (get "approve" content ≡ bool true)

is_true-eq : (v : Value) → is_true v ≡ true → v ≡ bool true
is_true-eq (bool b) e = ap bool e
is_true-eq _ e = cc

agrees_sound : (v : Value) → agrees (or_else v (mapping end)) ≡ true → Approves v
unfolding get_or
agrees_sound null e = cc
agrees_sound (mapping end) e = cc
agrees_sound (mapping (entry k x m)) e = (entry k x m, refl, is_true-eq _ e)
agrees_sound (bool true) e = cc
agrees_sound (bool false) e = cc
agrees_sound v e = ground arith

agrees_complete : (v : Value) → Approves v → agrees (or_else v (mapping end)) ≡ true
unfolding get_or
agrees_complete (mapping end) (content, same, yes_please) = ground arith
agrees_complete (mapping (entry k x m)) (content, same, yes_please) = ground arith
agrees_complete _ (content, same, yes_please) = cc

is_text-eq : (name : String) (v : Value) → is_text name v ≡ true → v ≡ str name
is_text-eq name (str s) e = ap str ((eq_iff s name).0 e)
is_text-eq name _ e = cc

-- An answer says yes exactly when its action is the text `accept` and its content is a mapping
-- whose `approve` is the value `True`.
pub is_affirmative_iff :
    (answer : Value)
    → (is_affirmative answer ≡ true) ↔ (
        (field_or_attribute "action" answer ≡ str "accept")
        × Approves (field_or_attribute "content" answer))
unfolding is_affirmative
is_affirmative_iff answer =
    let action = field_or_attribute "action" answer in
    let content = field_or_attribute "content" answer in
    (
      λ e. (is_text-eq "accept" action (ground arith), agrees_sound content (ground arith)),
      λ (accepted, approves). rw accepted (agrees_complete content approves),
    )

-- what the human answered to the approval question
abbrev pub answer_of : Entries → Value
answer_of answers = get approval_key answers

-- A state with the prefix of the states that this layer issues, and answers among which the one to
-- the approval question accepts and approves.
pub record Consents (state answers : Value) : Type 0 where
  pub issued : String
  pub is_state : state ≡ str issued
  pub pending : starts_with issued prefix ≡ true
  pub replies : Entries
  pub are_answers : answers ≡ mapping replies
  pub answered : has_key approval_key replies ≡ true
  pub accepts : field_or_attribute "action" (answer_of replies) ≡ str "accept"
  pub approves : Approves (field_or_attribute "content" (answer_of replies))

check_sound : (state answers : Value) → check state answers ≡ approved → Consents state answers
unfolding check
check_sound (str s) (mapping m) e = record {
  issued = s;
  is_state = refl;
  pending = ground arith;
  replies = m;
  are_answers = refl;
  answered = ground arith;
  accepts = ((is_affirmative_iff (answer_of m)).0 (ground arith)).0;
  approves = ((is_affirmative_iff (answer_of m)).0 (ground arith)).1;
}
check_sound (str s) answers e = ground arith
check_sound _ _ e = cc

check_complete : (state answers : Value) → Consents state answers → check state answers ≡ approved
unfolding check
check_complete state answers c =
    let affirmed = (is_affirmative_iff (answer_of c.replies)).1 (c.accepts, c.approves) in
    rw (c.is_state, c.are_answers) (rw (c.pending, c.answered, affirmed))

-- The check passes exactly when the state is a text that starts with `awaiting-approval:`, as those
-- that this layer issues do, and the answers are a mapping in which the answer to the approval
-- question has the text `accept` for its action and for its content a mapping whose `approve` is
-- the value `True`.
pub check_iff : (state answers : Value) → (check state answers ≡ approved) ↔ Consents state answers
check_iff state answers = (check_sound state answers, check_complete state answers)

-- Every state that the layer issues is one that the check takes for its own.
pub new_pending_state-IsPending :
    (nonce tool : String) → is_pending (str (new_pending_state nonce tool)) ≡ true
unfolding new_pending_state
new_pending_state-IsPending nonce tool = starts_with-append prefix (tool +++ (":" +++ nonce))
