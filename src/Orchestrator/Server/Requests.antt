-- ===== src/Orchestrator/Server/Requests.antt =====
-- The answers of orchestrator/server.go.
use genomedb.Base.{ℕ, ◌≡◌, Bool, true, false, none, some, Bytes, arith}
use genomedb.Orchestrator.{Orchestrator, alert}
use genomedb.Orchestrator.Server.{
  Request, Answer, serve, no_content, bad_request, too_many_requests, internal_server_error,
  registered, routes, nodes, stream, post_register, post_announce, post_heartbeat, post_ack,
  post_alert, get_map, get_nodes, get_events,
}

-- The statuses from 400 on.
abbrev pub is_refusal : Answer → Bool
is_refusal bad_request = true
is_refusal too_many_requests = true
is_refusal internal_server_error = true
is_refusal no_content = false
is_refusal (registered r) = false
is_refusal (routes rs) = false
is_refusal (nodes ns) = false
is_refusal (stream ch) = false

module _ (sha256 : Bytes → Bytes) where
  -- A request that is refused, with a status of 400, 429 or 500, leaves the orchestrator as it was.
  pub serve-refused :
      (flushes : Bool) (req : Request) (now : ℕ) (o o' : Orchestrator) (answer : Answer)
      → serve sha256 flushes req now o ≡ some (answer, o')
      → is_refusal answer ≡ true
      → o' ≡ o
  unfolding serve alert
  serve-refused flushes (post_register none) now o o' answer run bad = ground arith
  serve-refused flushes (post_register (some req)) now o o' answer run bad = ground arith
  serve-refused flushes (post_announce none) now o o' answer run bad = ground arith
  serve-refused flushes (post_announce (some a)) now o o' answer run bad = ground arith
  serve-refused flushes (post_heartbeat none) now o o' answer run bad = ground arith
  serve-refused flushes (post_heartbeat (some hb)) now o o' answer run bad = ground arith
  serve-refused flushes (post_ack none) now o o' answer run bad = ground arith
  serve-refused flushes (post_ack (some ack)) now o o' answer run bad = ground arith
  serve-refused flushes (post_alert none) now o o' answer run bad = ground arith
  serve-refused flushes (post_alert (some a)) now o o' answer run bad = ground arith
  serve-refused flushes get_map now o o' answer run bad = ground arith
  serve-refused flushes get_nodes now o o' answer run bad = ground arith
  serve-refused flushes (get_events node_id) now o o' answer run bad = ground arith
