-- ===== src/Orchestrator/Server.antt =====
-- orchestrator/server.go: the requests that the orchestrator serves, over decoded bodies; `none` is a
-- body that does not decode. `none` as a result is a panic in an operation. The operations that do
-- not depend on time get a time all the same.
pub mod Requests
pub mod Streams
use genomedb.Base.{
  ℕ, Bool, true, false, Option, none, some, zero, suc, List, [], ◌∷◌, ◌++◌, length, ◌==◌,
  if◌then◌else◌, Bytes, ascii,
}
use genomedb.Protocol.{
  RegisterRequest, RegisterResponse, RouteAnnounce, Heartbeat, MutationAck, ImmuneAlert, RouteEntry,
  NodeInfo, MutationSeed, MapDelta, Event, mutation_seed, map_delta,
}
use genomedb.Protocol.Events.{EventText, write_event}
use genomedb.Orchestrator.{
  Orchestrator, register, announce_route, heartbeat, acknowledge, alert, snapshot, node_list,
  subscribe,
}
use genomedb.Orchestrator.Buffered.{Channels}

pub data Request : Type 0 where
  post_register : Option RegisterRequest → Request
  post_announce : Option RouteAnnounce → Request
  post_heartbeat : Option Heartbeat → Request
  post_ack : Option MutationAck → Request
  post_alert : Option ImmuneAlert → Request
  get_map get_nodes : Request
  -- with the query's node_id
  get_events : Bytes → Request

-- The status codes by Go's names, and the bodies of the answers that are 200. `stream` is the open
-- stream of the events of a channel.
pub data Answer : Type 0 where
  no_content bad_request too_many_requests internal_server_error : Answer
  registered : RegisterResponse → Answer
  routes : List RouteEntry → Answer
  nodes : List NodeInfo → Answer
  stream : ℕ → Answer

module _ (sha256 : Bytes → Bytes) where
  -- `flushes` is whether the response writer is an http.Flusher.
  unfoldable pub serve : Bool → Request → ℕ → Orchestrator → Option (Answer × Orchestrator)
  unfolding register announce_route heartbeat acknowledge alert snapshot node_list subscribe
  serve flushes (post_register none) now o = some (bad_request, o)
  serve flushes (post_register (some req)) now o =
      some (registered (record { accepted = true }), register req.node_id req.endpoint now o)
  serve flushes (post_announce none) now o = some (bad_request, o)
  serve flushes (post_announce (some a)) now o = elim (announce_route a o) [
    | none ↦ none
    | some o' ↦ some (no_content, o')
  ]
  serve flushes (post_heartbeat none) now o = some (bad_request, o)
  serve flushes (post_heartbeat (some hb)) now o = some (no_content, heartbeat hb now o)
  serve flushes (post_ack none) now o = some (bad_request, o)
  serve flushes (post_ack (some ack)) now o = elim (acknowledge sha256 ack o) [
    | none ↦ none
    | some o' ↦ some (no_content, o')
  ]
  serve flushes (post_alert none) now o = some (bad_request, o)
  serve flushes (post_alert (some a)) now o =
      let (accepted, o') = alert a now o in
      some (if accepted then no_content else too_many_requests, o')
  serve flushes get_map now o = some (routes (snapshot o), o)
  serve flushes get_nodes now o = some (nodes (node_list o), o)
  serve flushes (get_events node_id) now o =
      if length node_id == 0
      then some (bad_request, o)
      else if flushes
      then (let (ch, o') = subscribe node_id o in some (stream ch, o'))
      else some (internal_server_error, o)

-- mustEvent of event.go, with the JSON of the two payloads.
unfoldable pub event_text : (MutationSeed → Bytes) → (MapDelta → Bytes) → Event → EventText
event_text seed_json delta_json (mutation_seed s) = record {
  kind = ascii "mutation_seed";
  payload = seed_json s;
}
event_text seed_json delta_json (map_delta d) = record {
  kind = ascii "map_delta";
  payload = delta_json d;
}

-- The first event in a channel's buffer is taken.
unfoldable pub receive : Channels → ℕ → Option (Event × Channels)
receive [] i = none
receive (c ∷ cs) zero = elim c.buffer [
  | [] ↦ none
  | ev ∷ buffer ↦ some (ev, record c { buffer = buffer } ∷ cs)
]
receive (c ∷ cs) (suc i) = elim (receive cs i) [ none ↦ none | some (ev, cs') ↦ some (ev, c ∷ cs') ]

-- What a stream writes, for as long as its channel's buffer holds events and for at most `fuel`
-- events, and the orchestrator after it.
unfoldable pub drain :
    (MutationSeed → Bytes) → (MapDelta → Bytes) → ℕ → ℕ → Orchestrator → Bytes × Orchestrator
unfolding receive event_text
drain seed_json delta_json zero ch o = ([], o)
drain seed_json delta_json (suc fuel) ch o = elim (receive o.channels ch) [
  | none ↦ ([], o)
  | some (ev, cs) ↦
      let (text, o') = drain seed_json delta_json fuel ch (record o { channels = cs }) in
      (write_event (event_text seed_json delta_json ev) ++ text, o')
]
