-- ===== src/Audit/Text.antt =====
-- governance/audit.py: the text of a line, as `json.dumps` writes it.
use mathlib.Core.Option
use governed_mcp_server.Common.{
  ◌≡◌, refl, sym, subst, ap, ap₂, String, true, Option, none, some, List, [], ◌∷◌, ◌++◌, map,
}
use governed_mcp_server.Common.Value.{
  Value, null, str, list, mapping, Entries, dict_entries, list_items,
}
use governed_mcp_server.Common.Json.{
  json_text, json_string, items_json, entries_json, put_before, pair_json, enclosed,
}
use governed_mcp_server.Common.Json.Printable.{is_printable, json_text-printable}
use governed_mcp_server.Policy.Model.{Decision}
use governed_mcp_server.Audit.{Event, Line, entry_for, kept_arguments}

abbrev pub text_or_null : Option String → Value
text_or_null none = null
text_or_null (some s) = str s

abbrev texts : List String → Value
texts xs = list (list_items (map str xs))

abbrev optional_field : String → Option Value → List (String × Value)
optional_field name none = []
optional_field name (some v) = (name, v) ∷ []

-- The dict that is recorded, in the order of its keys.
abbrev pub event_fields : Event → List (String × Value)
event_fields event =
    ("timestamp", str event.timestamp)
    ∷ ("principal", str event.principal)
    ∷ ("method", str event.method)
    ∷ ("target", str event.target)
    ∷ ("outcome", str event.outcome)
    ∷ ("reason", str event.reason)
    ∷ ("classification", text_or_null event.classification)
    ∷ ("required_roles", texts event.required_roles)
    ∷ ("granted_roles", texts event.granted_roles)
    ∷ ("protocol_version", event.protocol_version)
    ∷ (optional_field "argument_names" (Option.map texts event.argument_names)
        ++ optional_field "arguments" (Option.map mapping event.arguments))

abbrev pub event_value : Event → Value
event_value event = mapping (dict_entries (event_fields event))

-- What is written of a line; none where `json.dumps` raises.
unfoldable pub line_text : Line → Option String
unfolding json_text
line_text line = json_text (event_value line.event)

items_json-texts :
    (xs : List String) → items_json (list_items (map str xs)) ≡ some (map json_string xs)
unfolding json_text
items_json-texts [] = refl
items_json-texts (x ∷ xs) = ap (put_before (some (json_string x))) (items_json-texts xs)

-- a value that `json.dumps` writes
abbrev IsWritten : Value → Type 0
IsWritten v = (text : String) × (json_text v ≡ some text)

AllWritten : List (String × Value) → Type 0
AllWritten [] = Unit
AllWritten ((name, v) ∷ fields) = IsWritten v × AllWritten fields

texts-IsWritten : (xs : List String) → IsWritten (texts xs)
unfolding json_text
texts-IsWritten xs = (_, ap (enclosed "[" "]") (items_json-texts xs))

str-IsWritten : (s : String) → IsWritten (str s)
unfolding json_text
str-IsWritten s = (json_string s, refl)

text_or_null-IsWritten : (s : Option String) → IsWritten (text_or_null s)
unfolding json_text
text_or_null-IsWritten none = ("null", refl)
text_or_null-IsWritten (some s) = str-IsWritten s

fields_json :
    (fields : List (String × Value))
    → AllWritten fields
    → (parts : List String) × (entries_json (dict_entries fields) ≡ some parts)
unfolding json_text AllWritten
fields_json [] h = ([], refl)
fields_json ((name, v) ∷ fields) ((text, e), h) =
    let (parts, es) = fields_json fields h in
    (_, ap₂ (λ r ps. put_before (pair_json (some (json_string name)) r) ps) e es)

names-AllWritten :
    (names : Option (List String))
    → AllWritten (optional_field "argument_names" (Option.map texts names) ++ [])
unfolding AllWritten
names-AllWritten none = tt
names-AllWritten (some names) = (texts-IsWritten names, tt)

event_value-IsWritten :
    (event : Event) (protocol_version : Option String)
    → event.protocol_version ≡ text_or_null protocol_version
    → event.arguments ≡ none
    → IsWritten (event_value event)
unfolding json_text AllWritten
event_value-IsWritten event protocol_version version no_arguments =
    let s = str-IsWritten in
    let (parts, e) = fields_json (event_fields event) (
      s event.timestamp,
      (
        s event.principal,
        (
          s event.method,
          (
            s event.target,
            (
              s event.outcome,
              (
                s event.reason,
                (
                  text_or_null-IsWritten event.classification,
                  (
                    texts-IsWritten event.required_roles,
                    (
                      texts-IsWritten event.granted_roles,
                      (
                        subst IsWritten (sym version) (text_or_null-IsWritten protocol_version),
                        rw no_arguments (names-AllWritten event.argument_names),
                      ),
                    ),
                  ),
                ),
              ),
            ),
          ),
        ),
      ),
    ) in
    (_, ap (enclosed "{" "}") e)

no_arguments : (arguments : Option Entries) → kept_arguments arguments ≡ none
no_arguments none = refl
no_arguments (some m) = refl

-- Whatever texts a request, a token or the policy put into a record, also line breaks and quotes,
-- the record is written, and as one line of printable ASCII: none can break a line or forge one.
-- The protocol version is a text or absent.
pub one_printable_line :
    (now principal method : String) (decision : Decision) (arguments : Option Entries)
    → (protocol_version outcome : Option String)
    → let line =
        entry_for now principal method decision arguments (text_or_null protocol_version) outcome in
      (text : String) × (line_text line ≡ some text) × (is_printable text ≡ true)
unfolding entry_for line_text
one_printable_line now principal method decision arguments protocol_version outcome =
    let event =
      (entry_for now principal method decision arguments (text_or_null protocol_version)
        outcome).event in
    let (text, e) = event_value-IsWritten event protocol_version refl (no_arguments arguments) in
    (text, e, (json_text-printable (event_value event) text e).holds)
