-- ===== src/Orchestrator/Routes.antt =====
-- The routing table of orchestrator/orchestrator.go under announcements and acknowledgements.
use genomedb.Base.{
  ◌+◌, ◌%◌, ◌^◌, ◌≡◌, ap, ◌∙◌, none, some, Bytes, bytes_eq, if◌then◌else◌, arith, List, [], ◌∷◌,
}
use genomedb.Base.Assoc.{Assoc, lookup, insert, remove, lookup-insert, lookup-remove}
use genomedb.Protocol.{RouteEntry, MutationAck}
use genomedb.Orchestrator.{
  Orchestrator, broadcast_delta, acknowledge, ack_route, check_anchor, ack_entry,
}

-- What a broadcast leaves alone.
pub record SameTables (a b : Orchestrator) : Type 0 where
  pub routes : a.routes ≡ b.routes
  pub nodes : a.nodes ≡ b.nodes
  pub anchors : a.chain_anchors ≡ b.chain_anchors
  pub alerts : a.alert_bucket ≡ b.alert_bucket
  pub subs : a.subs ≡ b.subs

pub broadcast_delta-SameTables :
    (changes : List RouteEntry) (o o' : Orchestrator)
    → broadcast_delta changes o ≡ some o'
    → SameTables o' o × (o'.epoch ≡ (o.epoch + 1) % 2 ^ 64)
unfolding broadcast_delta
broadcast_delta-SameTables changes o o' h = ground arith

check_anchor-routes :
    (sha256 : Bytes → Bytes) (ack : MutationAck) (o : Orchestrator)
    → ((check_anchor sha256 ack o).routes ≡ o.routes)
      × ((check_anchor sha256 ack o).epoch ≡ o.epoch)
unfolding check_anchor
check_anchor-routes sha256 ack o = ground arith

abbrev moved : MutationAck → Assoc RouteEntry → Assoc RouteEntry
moved ack routes = insert ack.new_pid (ack_entry ack routes) (remove ack.old_pid routes)

ack_route-routes :
    (ack : MutationAck) (o o' : Orchestrator)
    → ack_route ack o ≡ some o'
    → (o'.routes ≡ moved ack o.routes) × (o'.epoch ≡ (o.epoch + 1) % 2 ^ 64)
unfolding ack_route
ack_route-routes ack o o' h =
    let entry = ack_entry ack o.routes in
    let (same, epoch) =
      broadcast_delta-SameTables (entry ∷ []) (record o { routes = moved ack o.routes }) o' h in
    (same.routes, epoch)

acknowledge-routes :
    (sha256 : Bytes → Bytes) (ack : MutationAck) (o o' : Orchestrator)
    → acknowledge sha256 ack o ≡ some o'
    → (o'.routes ≡ moved ack o.routes) × (o'.epoch ≡ (o.epoch + 1) % 2 ^ 64)
unfolding acknowledge
acknowledge-routes sha256 ack o o' h =
    let (routes, epoch) = ack_route-routes ack (check_anchor sha256 ack o) o' h in
    let (same_routes, same_epoch) = check_anchor-routes sha256 ack o in
    (routes ∙ ap (moved ack) same_routes, epoch ∙ ap (λ n. (n + 1) % 2 ^ 64) same_epoch)

-- An acknowledgement that does not panic in its broadcast, whether or not its seed was verified,
-- moves the entry from the old pseudonym to the new one: the new one answers with the acknowledged node, epoch and chain and with the
-- endpoint that the old one had (the node's name if the old one was unknown), the old one is gone
-- unless both are the same, every other pseudonym is as before, and the table's epoch goes up by
-- one, modulo 2 ^ 64.
pub acknowledge-lookup :
    (sha256 : Bytes → Bytes) (ack : MutationAck) (o o' : Orchestrator)
    → acknowledge sha256 ack o ≡ some o'
    → ((pid : Bytes)
        → lookup pid o'.routes ≡ (
            if bytes_eq ack.new_pid pid
            then some (record {
              pid = ack.new_pid;
              node_id = ack.node_id;
              endpoint = elim (lookup ack.old_pid o.routes) [
                | none ↦ ack.node_id
                | some old ↦ old.endpoint
              ];
              epoch = ack.epoch;
              chain_id = ack.chain_id;
            })
            else if bytes_eq ack.old_pid pid
            then none
            else lookup pid o.routes))
      × (o'.epoch ≡ (o.epoch + 1) % 2 ^ 64)
acknowledge-lookup sha256 ack o o' h = (
  λ pid.
      ap (lookup pid) (acknowledge-routes sha256 ack o o' h).0
      ∙ simp (lookup-insert, lookup-remove),
  (acknowledge-routes sha256 ack o o' h).1,
)
