-- ===== src/Protocol/Events.antt =====
-- The control channel: the text that the handler of /events in orchestrator/server.go writes for an
-- event, and SubscribeEvents of protocol/client.go, which reads it. The type and the data of an event
-- are texts here. A stream that ends in the middle of a line ends that line.
pub mod RoundTrip
use genomedb.Base.Scanner.{scan_lines, after_prefix, newline, drop_return}
use genomedb.Base.{
  ℕ, ◌+◌, ◌^◌, Bool, true, false, Option, none, some, List, [], ◌∷◌, ◌++◌, length, leb, ◌==◌,
  if◌then◌else◌, Bytes, ascii,
}

pub record EventText : Type 0 where
  pub kind : Bytes
  pub payload : Bytes

-- The longest line that the scanner's buffer holds, with its end.
abbrev pub max_line : ℕ
max_line = 2 ^ 20

unfoldable pub write_event : EventText → Bytes
write_event ev =
    ascii "event: "
    ++ (ev.kind ++ (newline ∷ ascii "data: " ++ (ev.payload ++ (newline ∷ newline ∷ []))))

unfoldable pub write_events : List EventText → Bytes
unfolding write_event
write_events [] = []
write_events (ev ∷ evs) = write_event ev ++ write_events evs

-- The loop over the lines, with the type that was read last.
unfoldable pub read_lines : Bytes → List Bytes → List EventText
unfolding after_prefix
read_lines kind [] = []
read_lines kind (line ∷ lines) = elim (after_prefix (ascii "event: ") line) [
  | some kind' ↦ read_lines kind' lines
  | none ↦ elim (after_prefix (ascii "data: ") line) [
    | some payload ↦ record { kind = kind; payload = payload } ∷ read_lines kind lines
    | none ↦ read_lines kind lines
  ]
]

unfoldable pub read_events : Bytes → List EventText
unfolding scan_lines read_lines
read_events text = read_lines [] (scan_lines max_line [] text)
