-- ===== src/Orchestrator/Server/Streams.antt =====
-- From the channel of a subscriber to the events that its client reads: orchestrator/server.go and
-- protocol/client.go.
use genomedb.Base.{
  ℕ, zero, suc, ◌+◌, ◌≤◌, ◌<◌, ◌≡◌, refl, ap, ◌∙◌, none, some, List, [], ◌∷◌, ◌++◌, map, get_elem?,
  length, Bytes, ascii, All, All-map, All-weaken, Bool, arith,
}
use genomedb.Protocol.{Event, MutationSeed, MapDelta, mutation_seed, map_delta}
use genomedb.Protocol.Events.{EventText, write_event, write_events, read_events, max_line}
use genomedb.Base.Scanner.{OneLine}
use genomedb.Protocol.Events.RoundTrip.{plain, Writable, read_events-write_events}
use genomedb.Orchestrator.{Orchestrator}
use genomedb.Orchestrator.Buffered.{Channel, Channels}
use genomedb.Orchestrator.Server.{event_text, receive, drain}

abbrev holding : List Event → Bool → Channel
holding buffer closed = record { buffer = buffer; closed = closed }

receive_lem :
    (cs : Channels) (i : ℕ) (ev : Event) (buffer : List Event) (closed : Bool)
    → get_elem? cs i ≡ some (holding (ev ∷ buffer) closed)
    → (cs' : Channels) × (receive cs i ≡ some (ev, cs'))
      × (get_elem? cs' i ≡ some (holding buffer closed))
unfolding receive
receive_lem [] i ev buffer closed there = cc
receive_lem (d ∷ cs) zero ev buffer closed there =
    let same : d ≡ holding (ev ∷ buffer) closed = ground arith in
    let full : d.buffer ≡ ev ∷ buffer = ap (λ (c : Channel). c.buffer) same in
    (
      holding buffer d.closed ∷ cs,
      rw (receive, full),
      ap (λ (c : Channel). some (holding buffer c.closed)) same,
    )
receive_lem (d ∷ cs) (suc i) ev buffer closed there =
    let (cs', received, left) = receive_lem cs i ev buffer closed there in
    (d ∷ cs', rw (receive, received), left)

receive_empty :
    (cs : Channels) (i : ℕ) (closed : Bool)
    → get_elem? cs i ≡ some (holding [] closed)
    → receive cs i ≡ none
unfolding receive
receive_empty [] i closed there = refl
receive_empty (d ∷ cs) zero closed there =
    let same : d ≡ holding [] closed = ground arith in
    rw (receive, ap (λ (c : Channel). c.buffer) same)
receive_empty (d ∷ cs) (suc i) closed there = rw (receive, receive_empty cs i closed there)

-- The JSON of a payload, which encoding/json writes without a line end, and which fits.
abbrev pub FitsLine : Bytes → Type 0
FitsLine json = OneLine json × (length json + 7 < max_line)

module _ (seed_json : MutationSeed → Bytes) (delta_json : MapDelta → Bytes) where
  -- The JSON of an event's payload.
  abbrev pub json_of : Event → Bytes
  json_of (mutation_seed s) = seed_json s
  json_of (map_delta d) = delta_json d

  abbrev texts : List Event → List EventText
  texts buffer = map (event_text seed_json delta_json) buffer

  drain_lem :
      (fuel ch : ℕ) (o : Orchestrator) (buffer : List Event) (closed : Bool)
      → get_elem? o.channels ch ≡ some (holding buffer closed)
      → length buffer ≤ fuel
      → (drain seed_json delta_json fuel ch o).0 ≡ write_events (texts buffer)
  unfolding drain write_events
  drain_lem zero ch o [] closed there enough = refl
  drain_lem (suc fuel) ch o [] closed there enough =
      rw (drain, receive_empty o.channels ch closed there)
  drain_lem zero ch o (ev ∷ buffer) closed there enough = absurd (omega arith)
  drain_lem (suc fuel) ch o (ev ∷ buffer) closed there enough =
      let (cs, received, left) = receive_lem o.channels ch ev buffer closed there in
      rw (drain, received)
        (ap (λ t. write_event (event_text seed_json delta_json ev) ++ t)
          (drain_lem fuel ch (record o { channels = cs }) buffer closed left (omega arith)))

  -- If the JSON of each payload in the buffer of a subscriber's channel stands on one line that fits
  -- the scanner's buffer, the client reads from the subscriber's stream exactly the events in the
  -- buffer, in their order, each with its type and its JSON.
  pub read_events-drain :
      (fuel ch : ℕ) (o : Orchestrator) (c : Channel)
      → All (λ (ev : Event). FitsLine (json_of ev)) c.buffer
      → get_elem? o.channels ch ≡ some c
      → length c.buffer ≤ fuel
      → read_events (drain seed_json delta_json fuel ch o).0
        ≡ map (event_text seed_json delta_json) c.buffer
  unfolding event_text
  read_events-drain fuel ch o c fit there enough =
      ap read_events (drain_lem fuel ch o c.buffer c.closed there enough)
      ∙ read_events-write_events (map (event_text seed_json delta_json) c.buffer) (
          All-map Writable (event_text seed_json delta_json) c.buffer
            (All-weaken c.buffer fits fit))
    where
      seed_label : OneLine (ascii "mutation_seed")
      seed_label = (
        plain 109 (omega arith),
        (
          plain 117 (omega arith),
          (
            plain 116 (omega arith),
            (
              plain 97 (omega arith),
              (
                plain 116 (omega arith),
                (
                  plain 105 (omega arith),
                  (
                    plain 111 (omega arith),
                    (
                      plain 110 (omega arith),
                      (
                        plain 95 (omega arith),
                        (
                          plain 115 (omega arith),
                          (
                            plain 101 (omega arith),
                            (plain 101 (omega arith), (plain 100 (omega arith), tt)),
                          ),
                        ),
                      ),
                    ),
                  ),
                ),
              ),
            ),
          ),
        ),
      )

      delta_label : OneLine (ascii "map_delta")
      delta_label = (
        plain 109 (omega arith),
        (
          plain 97 (omega arith),
          (
            plain 112 (omega arith),
            (
              plain 95 (omega arith),
              (
                plain 100 (omega arith),
                (
                  plain 101 (omega arith),
                  (
                    plain 108 (omega arith),
                    (plain 116 (omega arith), (plain 97 (omega arith), tt)),
                  ),
                ),
              ),
            ),
          ),
        ),
      )

      fits : (ev : Event) → FitsLine (json_of ev) → Writable (event_text seed_json delta_json ev)
      fits (mutation_seed s) (one, short) = (seed_label, one, omega arith, short)
      fits (map_delta d) (one, short) = (delta_label, one, omega arith, short)
