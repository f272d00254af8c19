-- ===== src/Approval/Tests.antt =====
-- Answers to an approval question.
use governed_mcp_server.Common.{◌≡◌, ◌↔◌, refl, true, false, [], ◌∷◌}
use governed_mcp_server.Common.Value.{Value, null, str, bool, int, pos, dict}
use governed_mcp_server.Approval.{
  check, approved, refused, not_requested, unanswered, declined, new_pending_state,
}
use governed_mcp_server.Approval.Consent.{Consents, check_iff}

abbrev answer : Value → Value
answer approve =
    dict (("action", str "accept") ∷ ("content", dict (("approve", approve) ∷ [])) ∷ [])

abbrev answers : Value → Value
answers approve = dict (("approval", answer approve) ∷ [])

abbrev state : Value
state = str (new_pending_state "n0nce" "raise_shipment_incident")

-- An approval is `True` itself: a text, a number or a refusal does not approve.
check_runs :
    (check state (answers (bool true)) ≡ approved)
    × (check state (answers (bool false)) ≡ refused declined)
    × (check state (answers (str "true")) ≡ refused declined)
    × (check state (answers (int (pos 1))) ≡ refused declined)
    × (check state (dict []) ≡ refused unanswered)
    × (check state null ≡ refused unanswered)
    × (check null (answers (bool true)) ≡ refused not_requested)
    × (check (str "made-up") (answers (bool true)) ≡ refused not_requested)
unfolding check new_pending_state
check_runs = (refl, refl, refl, refl, refl, refl, refl, refl)

check_iff_example :
    (check state (answers (bool true)) ≡ approved) ↔ Consents state (answers (bool true))
check_iff_example = check_iff state (answers (bool true))
