-- ===== src/Audit/Tests.antt =====
-- Lines of the trail about one denied call.
use governed_mcp_server.Common.{◌≡◌, refl, String, true, false, none, some, arith, [], ◌∷◌}
use governed_mcp_server.Common.Order.{sorted_set, contains}
use governed_mcp_server.Common.Value.{Entries, null, str, int, pos, dict_entries}
use governed_mcp_server.Common.Show.{to_text}
use governed_mcp_server.Policy.Model.{Decision}
use governed_mcp_server.Audit.{Line, warning, entry_for}
use governed_mcp_server.Common.Json.Printable.{is_printable}
use governed_mcp_server.Audit.Text.{line_text, text_or_null, one_printable_line}
use governed_mcp_server.Audit.Names.{entry_for-names_only, names_in}

abbrev denied : Decision
denied = record {
  allowed = false;
  target = "raise_shipment_incident";
  reason = "no matching role";
  required_roles = "tlo.operator" ∷ [];
  granted_roles = [];
  classification = some "confidential";
  requires_approval = false;
  approval_prompt = "";
}

abbrev line_of : Entries → Line
line_of arguments =
    entry_for "2026-08-01T00:00:00+00:00" "alice" "tools/call" denied (some arguments) null none

abbrev one : Entries
one = dict_entries (("shipment_id", str "SHP-1002") ∷ ("urgency", str "1") ∷ [])

abbrev other : Entries
other = dict_entries (("urgency", int (pos 3)) ∷ ("shipment_id", str "SHP-1004") ∷ [])

line_runs :
    ((line_of one).level ≡ warning)
    × ((line_of one).event.argument_names ≡ some ("shipment_id" ∷ "urgency" ∷ []))
    × ((line_of one).event.arguments ≡ none)
unfolding entry_for sorted_set to_text
line_runs = (refl, refl, refl)

same_names : (name : String) → contains (names_in one) name ≡ contains (names_in other) name
unfolding to_text
same_names name = ground arith

entry_for-names_only_example : line_of one ≡ line_of other
entry_for-names_only_example =
    entry_for-names_only "2026-08-01T00:00:00+00:00" "alice" "tools/call" denied null one other none
      same_names

-- A caller whose name has a line break and a quote.
one_printable_line_example :
    (text : String) × (line_text (
        entry_for "2026-08-01T00:00:00+00:00" "eve\n\"" "tools/call" denied
          (some one)
          (text_or_null (some "2026-07-28"))
          none)
      ≡ some text)
    × (is_printable text ≡ true)
one_printable_line_example =
    one_printable_line "2026-08-01T00:00:00+00:00" "eve\n\"" "tools/call" denied (some one)
      (some "2026-07-28") none

line_text_runs :
    line_text (
      entry_for "2026-08-01T00:00:00+00:00" "eve\n\"" "tools/call" denied
        (some one)
        (text_or_null none)
        none)
    ≡ some
        "{\"timestamp\":\"2026-08-01T00:00:00+00:00\",\"principal\":\"eve\\n\\\"\",\"method\":\"tools/call\",\"target\":\"raise_shipment_incident\",\"outcome\":\"deny\",\"reason\":\"no matching role\",\"classification\":\"confidential\",\"required_roles\":[\"tlo.operator\"],\"granted_roles\":[],\"protocol_version\":null,\"argument_names\":[\"shipment_id\",\"urgency\"]}"
unfolding entry_for line_text sorted_set to_text
line_text_runs = refl
