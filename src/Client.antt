-- ===== src/Client.antt =====
-- client.py: what the demonstration asks a server and prints. The SDK's client is a parameter: its
-- calls act on a state `S` and may raise.
pub mod Untouched
pub mod InMemory
pub mod Tests
use governed_mcp_server.Common.{String, Bool, Option, none, some, List, [], ◌∷◌, if◌then◌else◌}
use governed_mcp_server.Common.Result.{Result, ok, err}
use governed_mcp_server.Common.Value.{Value, str, int, pos, Entries, dict_entries}
use governed_mcp_server.Server.Start.{McpServer, StartError}
use governed_mcp_server.Server.Globals.{Attribute, Globals, read_attribute}

-- What the client reads of a tool.
pub record ListedTool : Type 0 where
  pub name : String
  pub description : Value
  pub input_schema : Value

pub data Contents : Type 0 where
  text_contents : (text : String) → Contents
  blob_contents : (blob : String) → Contents

-- The SDK's client, open on a server.
pub record Client (S : Type 0) : Type 0 where
  pub list_tools : S → Result String (List ListedTool) × S
  pub call_tool : (name : String) → Entries → S → Result String Value × S
  pub read_resource : (uri : String) → S → Result String (List Contents) × S
  pub protocol_version : S → Value

-- A line that is printed, by its label and what is shown.
pub data Printed : Type 0 where
  tools_line : List ListedTool → Printed
  content_line : (label : String) → Value → Printed
  detail_line : Option String → Printed
  negotiated_line : Value → Printed

-- What has been printed is kept when a call raises.
pub record Run (S : Type 0) : Type 0 where
  pub printed : List Printed
  pub raised : Option String
  pub state : S

-- The text of the first contents that are a text.
unfoldable pub first_text : List Contents → Option String
first_text [] = none
first_text (text_contents text ∷ more) = some text
first_text (blob_contents blob ∷ more) = first_text more

module _ {S : Type 0} where
  abbrev done : S → Run S
  done s = record { printed = []; raised = none; state = s }

  abbrev print : Printed → Run S → Run S
  print line run = record run { printed = line ∷ run.printed }

  infixl 5 ◌>>=◌
  unfoldable pub ◌>>=◌ : {A : Type 0} → Result String A × S → (A → S → Run S) → Run S
  (ok a, s) >>= next = next a s
  (err e, s) >>= next = record { printed = []; raised = some e; state = s }

  unfoldable pub exercise : Client S → S → Run S
  unfolding first_text
  exercise client s = client.list_tools s >>= λ listed s1. print (tools_line listed) (
      client.call_tool "get_shipment_status" (dict_entries (("shipment_id", str "SHP-1002") ∷ []))
        s1
      >>= λ status s2. print (content_line "get_shipment_status(SHP-1002) ->" status) (
          client.call_tool "list_delayed_shipments"
            (dict_entries (("threshold_hours", int (pos 24)) ∷ [])) s2
          >>= λ delayed s3. print (content_line "list_delayed_shipments(24) ->" delayed) (
              client.read_resource "shipment://SHP-1004" s3 >>= λ contents s4.
              print (detail_line (first_text contents))
                (print (negotiated_line (client.protocol_version s4)) (done s4)))))

-- The options, as argparse has read them.
pub record Arguments : Type 0 where
  pub http : Bool
  pub legacy : Bool
  pub url : String

pub data Target (Key : Type 0) : Type 0 where
  at_url : String → Target Key
  in_memory : McpServer Key → Target Key

-- How the demonstration ends: the import may fail.
pub data Ending (S : Type 0) : Type 0 where
  ran : Run S → Ending S
  import_failed : Option StartError → Ending S

abbrev pub mode_of : Arguments → String
mode_of arguments = if arguments.legacy then "legacy" else "auto"

module _ {S Key : Type 0} (connect : Target Key → (mode : String) → Client S)
    (create : Globals Key → Result StartError (McpServer Key) × Globals Key) where
  -- `from server import mcp`
  abbrev pub imported : Attribute Key → (mode : String) → S → Ending S
  imported (some (ok server)) mode s = ran (exercise (connect (in_memory server) mode) s)
  imported (some (err e)) mode s = import_failed (some e)
  imported none mode s = import_failed none

  unfoldable pub main : Arguments → Globals Key → S → Ending S
  unfolding exercise
  main arguments globals s =
      if arguments.http
      then ran (exercise (connect (at_url arguments.url) (mode_of arguments)) s)
      else imported (read_attribute create "mcp" globals).0 (mode_of arguments) s
