-- ===== src/Protocol/Events/RoundTrip.antt =====
-- What is written on the control channel is read back.
use genomedb.Base.{
  ℕ, ◌+◌, ◌<◌, ◌≡◌, ◌≢◌, refl, ap, ◌∙◌, List, [], ◌∷◌, ◌++◌, append_assoc, length, Bytes, ascii,
  All, All-append, arith,
}
use genomedb.Base.Scanner.{
  newline, carriage_return, OneLine, scan_lines, scan_line, drop_return, after_prefix,
}
use genomedb.Protocol.Events.{
  EventText, max_line, write_event, write_events, read_lines, read_events,
}

-- An event whose two texts stand on one line each, and fit.
abbrev pub Writable : EventText → Type 0
Writable ev =
    OneLine ev.kind
    × OneLine ev.payload
    × (length ev.kind + 8 < max_line)
    × (length ev.payload + 7 < max_line)

pub plain : (c : ℕ) → 13 < c → (c ≢ newline) × (c ≢ carriage_return)
plain c above = (omega arith, omega arith)

event_label : OneLine (ascii "event: ")
event_label = (
  plain 101 (omega arith),
  (
    plain 118 (omega arith),
    (
      plain 101 (omega arith),
      (
        plain 110 (omega arith),
        (plain 116 (omega arith), (plain 58 (omega arith), (plain 32 (omega arith), tt))),
      ),
    ),
  ),
)

data_label : OneLine (ascii "data: ")
data_label = (
  plain 100 (omega arith),
  (
    plain 97 (omega arith),
    (
      plain 116 (omega arith),
      (plain 97 (omega arith), (plain 58 (omega arith), (plain 32 (omega arith), tt))),
    ),
  ),
)

after_line :
    (text : Bytes) → scan_lines max_line [] (newline ∷ text) ≡ [] ∷ scan_lines max_line [] text
unfolding scan_lines drop_return
after_line text = refl

write_event-append :
    (ev : EventText) (text : Bytes)
    → write_event ev ++ text
      ≡ (ascii "event: " ++ ev.kind)
        ++ newline ∷ ((ascii "data: " ++ ev.payload) ++ newline ∷ newline ∷ text)
unfolding write_event
write_event-append ev text =
    ap (λ (t : Bytes). ascii "event: " ++ t)
      (append_assoc ev.kind (newline ∷ (ascii "data: " ++ (ev.payload ++ newline ∷ newline ∷ [])))
          text
        ∙ ap (λ (t : Bytes). ev.kind ++ newline ∷ (ascii "data: " ++ t))
            (append_assoc ev.payload (newline ∷ newline ∷ []) text))

scan_lines-write_event :
    (ev : EventText) (text : Bytes)
    → Writable ev
    → scan_lines max_line [] (write_event ev ++ text)
      ≡ (ascii "event: " ++ ev.kind)
        ∷ (ascii "data: " ++ ev.payload)
        ∷ []
        ∷ scan_lines max_line [] text
scan_lines-write_event ev text (one_kind, one_payload, fits_kind, fits_payload) =
    ap (λ t. scan_lines max_line [] t) (write_event-append ev text)
    ∙ scan_line max_line (ascii "event: " ++ ev.kind)
        ((ascii "data: " ++ ev.payload) ++ newline ∷ newline ∷ text)
        (All-append _ (ascii "event: ") ev.kind event_label one_kind) (omega arith)
    ∙ ap (λ t. (ascii "event: " ++ ev.kind) ∷ t)
        (scan_line max_line (ascii "data: " ++ ev.payload) (newline ∷ text)
            (All-append _ (ascii "data: ") ev.payload data_label one_payload) (omega arith)
          ∙ ap (λ t. (ascii "data: " ++ ev.payload) ∷ t) (after_line text))

read_lines-event :
    (kind payload before : Bytes) (lines : List Bytes)
    → read_lines before ((ascii "event: " ++ kind) ∷ (ascii "data: " ++ payload) ∷ [] ∷ lines)
      ≡ record { kind = kind; payload = payload } ∷ read_lines kind lines
unfolding read_lines after_prefix
read_lines-event kind payload before lines = refl

read_written :
    (before : Bytes) (evs : List EventText)
    → All Writable evs
    → read_lines before (scan_lines max_line [] (write_events evs)) ≡ evs
unfolding write_events read_lines scan_lines
read_written before [] fine = refl
read_written before (ev ∷ evs) fine =
    ap (λ (t : List Bytes). read_lines before t)
      (scan_lines-write_event ev (write_events evs) fine.0)
    ∙ read_lines-event ev.kind ev.payload before (scan_lines max_line [] (write_events evs))
    ∙ ap (λ (t : List EventText). ev ∷ t) (read_written ev.kind evs fine.1)

-- Events whose texts stand on one line each, and fit the scanner's buffer, are read as they were
-- written, in their order and with their types.
pub read_events-write_events :
    (evs : List EventText) → All Writable evs → read_events (write_events evs) ≡ evs
unfolding read_events
read_events-write_events evs fine = read_written [] evs fine
