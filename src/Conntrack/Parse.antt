-- ===== src/Conntrack/Parse.antt =====
-- `parseOneConntrackEntry` and `parseMultipleEntries` of conntracksync/conntrack/conntrack.go.
use network_plugin_manager.Prelude.{
  String, Bool, true, false, Option, none, some, List, [], ◌∷◌, ◌==◌, if◌then◌else◌,
}
use network_plugin_manager.Go.Text.{split, fields}
use network_plugin_manager.Go.Map.{Map, lookup, lookup_or, put}
use network_plugin_manager.Conntrack.{CtEntry}

-- What the loop over the fields keeps
pub record Fields : Type 0 where
  pub original : Map String
  pub reply : Map String
  pub unreplied : Bool
  pub assured : Bool

abbrev pub no_fields : Fields
no_fields = record { original = []; reply = []; unreplied = false; assured = false }

-- A key that is there already belongs to the reply.
unfoldable pub put_pair : String → String → Fields → Fields
unfolding lookup put
put_pair key value s = elim (lookup key s.original) [
  | none ↦ record s { original = put key value s.original }
  | some old ↦ record s { reply = put key value s.reply }
]

unfoldable pub read_pair : List String → Fields → Fields
unfolding put_pair
read_pair (key ∷ (value ∷ [])) s = put_pair key value s
read_pair _ s = s

unfoldable pub read_field : String → Fields → Fields
unfolding read_pair split
read_field field s =
    if field == "[UNREPLIED]"
    then record s { unreplied = true }
    else if field == "[ASSURED]"
    then record s { assured = true }
    else read_pair (split b'=' field) s

unfoldable pub read_fields : List String → Fields → Fields
unfolding read_field
read_fields [] s = s
read_fields (f ∷ fs) s = read_fields fs (read_field f s)

abbrev pub entry_of : String → Fields → CtEntry
entry_of protocol s = record {
  protocol = protocol;
  original_source_ip = lookup_or "" "src" s.original;
  original_destination_ip = lookup_or "" "dst" s.original;
  original_source_port = lookup_or "" "sport" s.original;
  original_destination_port = lookup_or "" "dport" s.original;
  reply_source_ip = lookup_or "" "src" s.reply;
  reply_destination_ip = lookup_or "" "dst" s.reply;
  reply_source_port = lookup_or "" "sport" s.reply;
  reply_destination_port = lookup_or "" "dport" s.reply;
  unreplied = s.unreplied;
  assured = s.assured;
}

-- `none` is the error of a line with fewer than four fields.
unfoldable pub entry_of_fields : List String → Option CtEntry
unfolding read_fields lookup_or
entry_of_fields (protocol ∷ (number ∷ (timeout ∷ (field ∷ rest)))) =
    some (entry_of protocol (read_fields (field ∷ rest) no_fields))
entry_of_fields _ = none

unfoldable pub parse_one_conntrack_entry : String → Option CtEntry
unfolding entry_of_fields fields
parse_one_conntrack_entry line = entry_of_fields (fields line)

unfoldable pub parse_lines : List String → List CtEntry
unfolding parse_one_conntrack_entry
parse_lines [] = []
parse_lines (line ∷ lines) =
    let rest = parse_lines lines in
    if line == ""
    then rest
    else elim (parse_one_conntrack_entry line) [ none ↦ rest | some e ↦ e ∷ rest ]

unfoldable pub parse_multiple_entries : String → List CtEntry
unfolding parse_lines
parse_multiple_entries input = parse_lines (split b'\n' input)
