-- ===== src/Client/InMemory.antt =====
-- The demonstration in memory, on a server without authentication over the mock, with a small SDK
-- that runs the two tools and the resource that the demonstration asks for.
pub mod Tests
use governed_mcp_server.Common.{
  ◌≡◌, ◌⊎◌, refl, ap, ◌∙◌, String, Bool, true, false, Option, none, some, List, [], ◌∷◌, length,
  inl, inr, ◌==◌,
}
use governed_mcp_server.Common.Result.{Result, ok, err}
use governed_mcp_server.Common.Value.{get_or, Value, Entries, str, int, pos, null, dict, mapping}
use governed_mcp_server.Common.Show.{to_text}
use governed_mcp_server.Middleware.Guards.{tool_of}
use governed_mcp_server.Server.Accounting.Count.{is_tool_call}
use governed_mcp_server.Middleware.Flow.{
  Context, Answer, Outcome, returned, raised, wire, handler_failure, Flow, World,
}
use governed_mcp_server.ServiceNow.Mock.{MockServiceNow}
use governed_mcp_server.Server.Model.{ToolError}
use governed_mcp_server.Server.Start.{McpServer}
use governed_mcp_server.Server.Main.Tests.{server}
use governed_mcp_server.Server.Authority.Tests.{argument, env}
use governed_mcp_server.Server.Serving.{
  name_of, Call, Target, tool, resource, status_call, delayed_call, Returned, a_status,
  some_delayed, a_text, Sdk, run_request, served,
}
use governed_mcp_server.Server.Serving.Effects.{IsReading}
use governed_mcp_server.Server.Serving.SmallSdk.{calls, called_named, shipments, clock, backend}
use governed_mcp_server.Client
use governed_mcp_server.Client.{Client, Contents, text_contents, at_url, in_memory}
use governed_mcp_server.Client.Untouched.{nothing, request, CallsNothing, IsConnected}

abbrev target_for : (status delayed read : Bool) → Context → Option Target
target_for true _ _ ctx = some (tool (status_call (argument ctx "shipment_id")))
target_for false true _ ctx = some (tool (delayed_call (pos 24)))
target_for false false true ctx = some (resource "SHP-1004")
target_for false false false ctx = none

pub target_for-tool :
    (status delayed read : Bool) (ctx : Context) (call : Call)
    → target_for status delayed read ctx ≡ some (tool call)
    → ((status ≡ true) × ("get_shipment_status" ≡ name_of call))
      ⊎ ((delayed ≡ true) × ("list_delayed_shipments" ≡ name_of call))
target_for-tool true delayed read ctx call e =
    let same : status_call (argument ctx "shipment_id") ≡ call = cc e in inl (refl, ap name_of same)
target_for-tool false true read ctx call e =
    let same : delayed_call (pos 24) ≡ call = cc e in inr (refl, ap name_of same)
target_for-tool false false true ctx call e = cc
target_for-tool false false false ctx call e = cc

abbrev is_read : Option String → Bool
is_read none = false
is_read (some method) = method == "resources/read"

abbrev answer_with : Result ToolError Returned → Outcome Answer
answer_with (ok (a_status status)) = returned (wire (str status.status))
answer_with (ok (some_delayed shipments)) = returned (wire (int (pos (length shipments))))
answer_with (ok (a_text text)) = returned (wire (str text))
answer_with _ = raised (handler_failure "ToolError")

abbrev pub sdk : Sdk
sdk = record {
  target_of = λ ctx.
      target_for (calls "get_shipment_status" ctx) (calls "list_delayed_shipments" ctx)
        (is_read ctx.method) ctx;
  answer = λ ctx. answer_with;
  unserved = λ ctx. returned (wire null);
  calls_by_name = λ ctx call e. elim (target_for-tool _ _ (is_read ctx.method) ctx call e) [
    | inl (called, same) ↦
        let (method, named) = called_named "get_shipment_status" ctx called in
        (method, named ∙ same)
    | inr (called, same) ↦
        let (method, named) = called_named "list_delayed_shipments" ctx called in
        (method, named ∙ same)
  ];
}

pub reading : (ctx : Context) → IsReading (backend ctx)
reading ctx = record { find_reads = λ name s. refl; search_reads = λ item active limit s. refl }

abbrev pub answers : McpServer String → Context → Flow MockServiceNow Answer
answers server = served server env (run_request sdk shipments backend clock)

abbrev asks : (method : String) → Value → Context
asks method params = record {
  method = some method;
  params = params;
  protocol_version = null;
  token = none;
}

abbrev listing : Context
listing = asks "tools/list" null

abbrev calling : String → Entries → Context
calling name arguments =
    asks "tools/call" (dict (("name", str name) ∷ ("arguments", mapping arguments) ∷ []))

abbrev reading_uri : String → Context
reading_uri uri = asks "resources/read" (dict (("uri", str uri) ∷ []))

abbrev received : {A : Type 0} → (Value → A) → Outcome Answer → Result String A
received f (returned (wire value)) = ok (f value)
received f (returned _) = err "not a value"
received f (raised _) = err "refused"

abbrev contents_of : Value → List Contents
contents_of (str text) = text_contents text ∷ []
contents_of _ = []

-- one request for each call
abbrev over : (Context → Flow MockServiceNow Answer) → Client (World MockServiceNow)
over serve = record {
  list_tools = λ w. (received (λ _. []) (serve listing w).0, (serve listing w).1);
  call_tool = λ name arguments w.
      let (outcome, w') = serve (calling name arguments) w in (received (λ v. v) outcome, w');
  read_resource =
      λ uri w. let (outcome, w') = serve (reading_uri uri) w in (received contents_of outcome, w');
  protocol_version = λ w. str "2026-07-28";
}

calls_tool : (name : String) (arguments : Entries) → tool_of (calling name arguments) ≡ name
unfolding get_or to_text
calls_tool name arguments = refl

calls_none :
    (method : String) (params : Value)
    → is_tool_call (some method) ≡ false
    → CallsNothing (asks method params)
calls_none method params other e = let same = ap is_tool_call e in cc

pub over-IsConnected :
    (serve : Context → Flow MockServiceNow Answer) → IsConnected serve (over serve)
over-IsConnected serve = record {
  lists = λ w. request listing (calls_none "tools/list" null refl) nothing;
  calls =
      λ name arguments w. request (calling name arguments) (λ e. calls_tool name arguments) nothing;
  reads = λ uri w.
      request (reading_uri uri) (calls_none "resources/read" (dict (("uri", str uri) ∷ [])) refl)
        nothing;
}

abbrev pub server_at : Client.Target String → McpServer String
server_at (at_url url) = server
server_at (in_memory found) = found

abbrev pub connect : Client.Target String → (mode : String) → Client (World MockServiceNow)
connect target mode = over (answers (server_at target))
