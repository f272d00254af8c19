-- ===== src/Client/Tests.antt =====
-- The demonstration against a server with one tool, and against one that refuses calls.
use governed_mcp_server.Common.{◌≡◌, refl, ℕ, suc, String, false, none, some, [], ◌∷◌}
use governed_mcp_server.Common.Result.{ok, err}
use governed_mcp_server.Common.Value.{null, str}
use governed_mcp_server.Server.Start.{tenant_missing}
use governed_mcp_server.Server.Globals.{after_import, read_attribute}
use governed_mcp_server.Client.{
  Client, ListedTool, text_contents, blob_contents, tools_line, content_line, detail_line,
  negotiated_line, ◌>>=◌, exercise, Arguments, Target, import_failed, main,
}

abbrev status_tool : ListedTool
status_tool = record { name = "get_shipment_status"; description = null; input_schema = null }

-- The state counts the calls.
abbrev answering : Client ℕ
answering = record {
  list_tools = λ n. (ok (status_tool ∷ []), suc n);
  call_tool = λ name arguments n. (ok (str name), suc n);
  read_resource = λ uri n. (ok (blob_contents "b" ∷ text_contents uri ∷ []), suc n);
  protocol_version = λ n. str "2026-07-28";
}

abbrev refusing : Client ℕ
refusing = record answering { call_tool = λ name arguments n. (err "Access denied", suc n) }

exercise_runs :
    (exercise answering 0 ≡ record {
      printed =
          tools_line (status_tool ∷ [])
          ∷ content_line "get_shipment_status(SHP-1002) ->" (str "get_shipment_status")
          ∷ content_line "list_delayed_shipments(24) ->" (str "list_delayed_shipments")
          ∷ detail_line (some "shipment://SHP-1004")
          ∷ negotiated_line (str "2026-07-28")
          ∷ [];
      raised = none;
      state = 4;
    })
    × (exercise refusing 0 ≡ record {
      printed = tools_line (status_tool ∷ []) ∷ [];
      raised = some "Access denied";
      state = 2;
    })
unfolding exercise ◌>>=◌
exercise_runs = (refl, refl)

abbrev connect : Target ℕ → String → Client ℕ
connect target mode = answering

abbrev in_memory_arguments : Arguments
in_memory_arguments = record { http = false; legacy = false; url = "http://127.0.0.1:8000/mcp" }

-- Where the server that the import makes does not start, nothing runs.
import_fails :
    main connect (λ globals. (err tenant_missing, globals)) in_memory_arguments after_import 0
    ≡ import_failed (some tenant_missing)
unfolding main read_attribute
import_fails = refl
