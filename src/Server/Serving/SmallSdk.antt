-- ===== src/Server/Serving/SmallSdk.antt =====
-- A small SDK, which runs calls of the tool that writes, on the mock at one time.
use governed_mcp_server.Common.{
  ◌≡◌, refl, ap, sym, ◌∙◌, ℕ, String, Bool, true, false, Option, none, some, arith, eq_iff, ◌==◌,
  ◌&&◌,
}
use governed_mcp_server.Common.Dict.{Dict}
use governed_mcp_server.Common.Result.{Result, ok}
use governed_mcp_server.Common.Value.{str}
use governed_mcp_server.Middleware.Flow.{
  Context, Answer, Outcome, returned, raised, wire, handler_failure,
}
use governed_mcp_server.Middleware.Guards.{tool_of}
use governed_mcp_server.ServiceNow.Mock.{MockServiceNow}
use governed_mcp_server.ServiceNow.Backend.{ServiceNow, mock_backend}
use governed_mcp_server.Server.Model.{Shipment, fixtures, ToolError}
use governed_mcp_server.Server.Authority.Tests.{argument}
use governed_mcp_server.Server.Accounting.Count.{is_tool_call, raises}
use governed_mcp_server.Server.Serving.{
  name_of, Call, Target, tool, raise_call, Returned, an_incident, Sdk,
}

abbrev pub call_in : Context → Call
call_in ctx = raise_call (argument ctx "shipment_id") (argument ctx "urgency")

abbrev pub target_in : Bool → Context → Option Target
target_in true ctx = some (tool (call_in ctx))
target_in false ctx = none

abbrev pub answer_with : Result ToolError Returned → Outcome Answer
answer_with (ok (an_incident incident)) = returned (wire (str incident.number))
answer_with _ = raised (handler_failure "ToolError")

method_named : (method : Option String) → is_tool_call method ≡ true → method ≡ some "tools/call"
method_named none e = cc
method_named (some method) e = ap some ((eq_iff method "tools/call").0 e)

abbrev pub calls : String → Context → Bool
calls name ctx = is_tool_call ctx.method && tool_of ctx == name

pub called_named :
    (name : String) (ctx : Context)
    → calls name ctx ≡ true
    → (ctx.method ≡ some "tools/call") × (tool_of ctx ≡ name)
called_named name ctx e =
    (method_named ctx.method (ground (arith, e)), (eq_iff (tool_of ctx) name).0 (ground (arith, e)))

pub target_in-tool :
    (found : Bool) (ctx : Context) (call : Call)
    → target_in found ctx ≡ some (tool call)
    → (found ≡ true) × (call ≡ call_in ctx)
target_in-tool true ctx call e = (refl, cc)
target_in-tool false ctx call e = cc

abbrev pub sdk : Sdk
sdk = record {
  target_of = λ ctx. target_in (raises ctx) ctx;
  answer = λ ctx. answer_with;
  unserved = λ ctx. raised (handler_failure "unknown tool");
  calls_by_name = λ ctx call e.
      let (found, same) = target_in-tool (raises ctx) ctx call e in
      let (method, named) = called_named "raise_shipment_incident" ctx found in
      (method, named ∙ sym (ap name_of same));
}

abbrev pub shipments : Dict Shipment
shipments = fixtures 1785585600000000

abbrev pub now : Context → String
now ctx = "2026-08-01 12:00:00"

abbrev pub clock : Context → ℕ
clock ctx = 1785585600000000

abbrev pub backend : Context → ServiceNow MockServiceNow
backend ctx = mock_backend (now ctx)
