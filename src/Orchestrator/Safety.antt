-- ===== src/Orchestrator/Safety.antt =====
-- The orchestrator as a system: its state and the streams that are open, under requests, rounds of
-- scheduled mutations and ends of streams, each one step.
pub mod Operations
pub mod Ends
pub mod Reachable
use mathlib.Core.List.{Memᴰ}
use genomedb.Base.{
  ℕ, ◌<◌, ◌≡◌, ◌≢◌, refl, subst, ap, sym, ◌∙◌, Bool, true, false, Option, none, some, List, [], ◌∷◌,
  map, length, get_elem?, ◌==◌, zero, suc, All, All-mem, All-of_mem, All-weaken, All-map, Distinct,
  Bytes, bytes_eq, bytes_eq_iff, arith, Bool-cases, Option-cases, inl, inr,
}
use genomedb.Base.Assoc.{Assoc, lookup, insert, remove}
use genomedb.Protocol.{Event, RouteEntry, RouteAnnounce, MutationAck, MutationSeed, mutation_seed}
use genomedb.Orchestrator.{
  Orchestrator, new, collect, deliver, broadcast_delta, announce_route, ack_entry, ack_route,
  check_anchor, acknowledge, register, heartbeat, alert, subscribe, unsubscribe, push_seed,
  scheduled_push, scheduled_round,
}
use genomedb.Orchestrator.Buffered.{Channels, make, send, send_all, close}
use genomedb.Orchestrator.Buffered.Open.{
  open_at, SameOpen, send_open, send_all_open, close_open, make_open,
}
use genomedb.Orchestrator.Server.{
  Request, Answer, serve, stream, receive, post_register, post_announce, post_heartbeat, post_ack,
  post_alert, get_map, get_nodes, get_events,
}

-- A stream: the node that it serves, and its channel.
abbrev pub Stream : Type 0
Stream = Bytes × ℕ

-- The streams that are left when one ends.
abbrev pub without : (s : Stream) (streams : List Stream) → Memᴰ s streams → List Stream
without s [] mem = []
without s (t ∷ streams) (Memᴰ.head e) = streams
without s (t ∷ streams) (Memᴰ.tail mem) = t ∷ without s streams mem

-- The streams after a request: a request for events opens one.
abbrev pub opened : Request → Answer → List Stream → List Stream
opened (get_events node_id) (stream ch) streams = (node_id, ch) ∷ streams
opened _ _ streams = streams

-- The streams and the states that a run gets to: requests, the writing of an event that waits on a
-- channel, rounds of scheduled mutations whose index is drawn in range, and ends of open streams.
pub data Reaches (sha256 : Bytes → Bytes) : List Stream → Orchestrator → Type 0 where
  at_start : Reaches sha256 [] new
  served :
      {streams : List Stream} {o o' : Orchestrator} (flushes : Bool) (req : Request) (now : ℕ)
      → (answer : Answer) → Reaches sha256 streams o
      → serve sha256 flushes req now o ≡ some (answer, o')
      → Reaches sha256 (opened req answer streams) o'
  written :
      {streams : List Stream} {o : Orchestrator} (ch : ℕ) (ev : Event) (cs : Channels)
      → Reaches sha256 streams o
      → receive o.channels ch ≡ some (ev, cs)
      → Reaches sha256 streams (record o { channels = cs })
  pushed :
      {streams : List Stream} {o o' : Orchestrator} (pick : ℕ → Option ℕ) (seed : Option Bytes)
      → ((n i : ℕ) → pick n ≡ some i → i < n)
      → Reaches sha256 streams o
      → scheduled_round pick seed o ≡ some o'
      → Reaches sha256 streams o'
  ended :
      {streams : List Stream} {o o' : Orchestrator} (s : Stream) (mem : Memᴰ s streams)
      → Reaches sha256 streams o
      → unsubscribe s.0 s.1 o ≡ some o'
      → Reaches sha256 (without s streams mem) o'
