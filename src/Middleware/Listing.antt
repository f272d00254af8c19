-- ===== src/Middleware/Listing.antt =====
-- governance/middleware.py: `_filter_tool_list` on the result of the handler, and `_tool_name`.
use governed_mcp_server.Common.{String, List, if◌then◌else◌, keep, length, eqb}
use governed_mcp_server.Common.Order.{contains}
use governed_mcp_server.Common.Value.{
  Value, str, list, mapping, object, Entries, end, entry, get, get_or, is_text, items, list_items,
}
use governed_mcp_server.Common.Show.{to_text}
use governed_mcp_server.Middleware.Flow.{Answer, listing, wire}

-- `_tool_name`
unfoldable pub tool_name : Value → String
unfolding get_or to_text
tool_name (mapping m) = to_text (get_or "name" (str "") m)
tool_name (object _ attributes) = to_text (get_or "name" (str "") attributes)
tool_name _ = ""

-- `{**m, name: value}` for a name that is a key of `m`
unfoldable pub replace : String → Value → Entries → Entries
replace name v end = end
replace name v (entry k w m) =
    let rest = entry k w (replace name v m) in if is_text name k then entry k v m else rest

abbrev pub kept_tools : List String → List Value → List Value
kept_tools visible tools = keep (λ t. contains visible (tool_name t)) tools

abbrev pub filter_tools : List String → Entries → Value → Answer
filter_tools visible m (list tools) =
    let kept = kept_tools visible (items tools) in
    if eqb (length kept) (length (items tools))
    then wire (mapping m)
    else wire (mapping (replace "tools" (list (list_items kept)) m))
filter_tools visible m _ = wire (mapping m)

abbrev filter_wire : List String → Value → Answer
filter_wire visible (mapping m) = filter_tools visible m (get "tools" m)
filter_wire visible v = wire v

-- The part of `_filter_tool_list` after the call, under enforcement.
unfoldable pub filter_answer : List String → Answer → Answer
filter_answer visible (listing tools rest) =
    let kept = keep (λ t. contains visible t.name) tools in
    if eqb (length kept) (length tools) then listing tools rest else listing kept rest
filter_answer visible (wire v) = filter_wire visible v
filter_answer visible answer = answer
