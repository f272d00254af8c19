-- ===== src/Client/InMemory/Tests.antt =====
-- The demonstration in memory, on the server that the attribute `mcp` makes, over the mock.
use governed_mcp_server.Common.{◌≡◌, refl, String, true, false, none, some, List, [], ◌∷◌}
use governed_mcp_server.Common.Dict.{lookup}
use governed_mcp_server.Common.Value.{get_or, str, int, pos}
use governed_mcp_server.Common.Show.{to_text}
use governed_mcp_server.Middleware.Flow.{World}
use governed_mcp_server.ServiceNow.Mock.{MockServiceNow, new}
use governed_mcp_server.ServiceNow.Backend.{mock}
use governed_mcp_server.Server.Start.{McpServer, registered_tools}
use governed_mcp_server.RequestState.{ephemeral}
use governed_mcp_server.Server.Globals.{read_attribute, create_in}
use governed_mcp_server.Server.Globals.Tests.{create, on_instance}
use governed_mcp_server.Server.Main.Tests.{running}
use governed_mcp_server.Server.Authority.Tests.{env, fresh}
use governed_mcp_server.Server.Serving.{run_request, run_target, served}
use governed_mcp_server.Server.Serving.SmallSdk.{shipments, clock, backend}
use governed_mcp_server.Server.Tools.{get_shipment_status, list_delayed_shipments, shipment_detail}
use governed_mcp_server.Client
use governed_mcp_server.Client.{
  Client, Contents, text_contents, at_url, in_memory, Arguments, Run, first_text, exercise, ran,
  main,
}
use governed_mcp_server.Client.Untouched.{demonstration-inner}
use governed_mcp_server.Client.InMemory.{
  sdk, answers, reading, server_at, connect, over-IsConnected,
}

abbrev here : Arguments
here = record { http = false; legacy = true; url = "http://127.0.0.1:8000/mcp" }

-- what the attribute `mcp` gives
abbrev made : McpServer String
made = record {
  verifier = none;
  auth = none;
  security = ephemeral none;
  service_now = mock (new [] []);
  tools = registered_tools;
  resources = "shipment://{shipment_id}" ∷ [];
  middleware = none;
}

abbrev run : Run (World MockServiceNow)
run = exercise (connect (in_memory made) "legacy") fresh

runs : main connect create here on_instance fresh ≡ ran run
unfolding running create_in read_attribute Client.main
runs = refl

abbrev shown : List Client.Printed
shown =
    Client.tools_line []
    ∷ Client.content_line "get_shipment_status(SHP-1002) ->" (str "delayed")
    ∷ Client.content_line "list_delayed_shipments(24) ->" (int (pos 2))
    ∷ Client.detail_line (some (shipment_detail shipments "SHP-1004"))
    ∷ Client.negotiated_line (str "2026-07-28")
    ∷ []

prints_all : run.printed ≡ shown
unfolding exercise Client.◌>>=◌ served run_request run_target lookup get_or to_text first_text
    get_shipment_status list_delayed_shipments
prints_all = refl

demonstration-inner_example : run.state.inner ≡ fresh.inner
demonstration-inner_example =
    demonstration-inner env sdk shipments backend clock reading server_at connect
      (λ target mode. over-IsConnected (answers (server_at target))) create here on_instance fresh
      run runs
