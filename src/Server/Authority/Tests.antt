-- ===== src/Server/Authority/Tests.antt =====
-- An operator raises an incident on the mock, through the middleware.
use governed_mcp_server.Common.{
  ◌≡◌, refl, ◌≢◌, ℕ, String, true, false, none, some, [], ◌∷◌, length, arith, ◌==◌, if◌then◌else◌,
  ap, sym, ◌∙◌,
}
use governed_mcp_server.Common.Value.{
  null, str, bool, list, dict, dict_entries, list_items, get_or, entries,
}
use governed_mcp_server.Common.Dict.{lookup}
use governed_mcp_server.Common.Decimal.{padded}
use governed_mcp_server.Common.Show.{to_text, quoted}
use governed_mcp_server.Common.Order.{sorted_set}
use governed_mcp_server.Policy.Deciding.{decide_tool}
use governed_mcp_server.Approval.{check, new_pending_state}
use governed_mcp_server.Approval.Consent.{Consents}
use governed_mcp_server.Audit.{entry_for}
use governed_mcp_server.Verifier.Tokens.{AccessToken, roles_from_token, describe_principal}
use governed_mcp_server.Middleware.Flow.{Context, wire, returned, World, Environment, Next}
use governed_mcp_server.Middleware.Approving.{
  answers_in, state_in, check_approval, ask_for_approval, detail,
}
use governed_mcp_server.Middleware.Guards.{
  handle, guard_tool_call, tool_of, params_of, arguments_of,
}
use governed_mcp_server.ServiceNow.Mock
use governed_mcp_server.ServiceNow.Mock.{MockServiceNow, new}
use governed_mcp_server.ServiceNow.Backend.{mock_backend}
use governed_mcp_server.Server.Model.{fixtures}
use governed_mcp_server.Server.Tools.{raise_shipment_incident}
use governed_mcp_server.Server.Authority.{shipped, IsOperator, incident_needs_operator}

unfoldable pub running : Unit {0}
unfolding handle guard_tool_call check_approval ask_for_approval check entry_for decide_tool
    new_pending_state detail quoted lookup sorted_set roles_from_token describe_principal to_text
    get_or raise_shipment_incident new padded Mock.create_incident
running = tt

abbrev pub env : Environment
env = record { now = λ _. "2026-08-01T12:00:00+00:00"; nonce = λ _. "n0nce" }

abbrev pub argument : Context → String → String
argument ctx name = to_text (get_or name (str "3") (entries (arguments_of ctx)))

-- A handler with one tool that writes.
abbrev tools : Next MockServiceNow
tools ctx store =
    let done =
      raise_shipment_incident (mock_backend "2026-08-01 12:00:00") (fixtures 1785585600000000)
        (argument ctx "shipment_id") (argument ctx "urgency") store in
    (returned (wire null), if tool_of ctx == "raise_shipment_incident" then done.1 else store)

reads_only :
    (ctx : Context) (store : MockServiceNow)
    → (tool_of ctx == "raise_shipment_incident") ≡ false
    → (tools ctx store).1 ≡ store
reads_only ctx store other = rw other refl

abbrev pub operator : AccessToken
operator = record {
  token = "jwt";
  client_id = "client";
  scopes = [];
  expires_at = none;
  resource = "api://governed-mcp-server";
  subject = some "alice";
  claims = dict_entries (("roles", list (list_items (str "tlo.operator" ∷ []))) ∷ []);
}

abbrev pub retry : Context
retry = record {
  method = some "tools/call";
  params = dict (
      ("name", str "raise_shipment_incident")
      ∷ ("arguments", dict (("shipment_id", str "SHP-1002") ∷ ("urgency", str "2") ∷ []))
      ∷ ("requestState", str "awaiting-approval:raise_shipment_incident:n0nce")
      ∷ (
        "inputResponses",
        dict (
            (
              "approval",
              dict
                  (("action", str "accept") ∷ ("content", dict (("approve", bool true) ∷ [])) ∷ []),
            )
            ∷ []),
      )
      ∷ []);
  protocol_version = str "2026-07-28";
  token = some operator;
}

abbrev pub fresh : World MockServiceNow
fresh = record { log = []; inner = new [] [] }

opens_one : length (handle env shipped tools retry fresh).1.inner.incidents ≡ 2
unfolding running
opens_one = refl

store_changes : (handle env shipped tools retry fresh).1.inner ≢ fresh.inner
unfolding new
store_changes e =
    let counts : ◌≡◌ {A = ℕ} 2 1 = sym opens_one ∙ ap (λ store. length store.incidents) e in
    absurd (omega arith)

opened_by_operator :
    (tool_of retry ≡ "raise_shipment_incident")
    × IsOperator (roles_from_token (some operator))
    × Consents (state_in (params_of retry)) (answers_in (params_of retry))
opened_by_operator =
    incident_needs_operator env tools retry fresh (reads_only retry fresh.inner) refl store_changes
