-- ===== src/Tests/Orchestration.antt =====
-- The theorems about orchestrator/ at concrete inputs.
use genomedb.Base.{
  ℕ, zero, suc, ◌+◌, ◌*◌, ◌%◌, ◌^◌, ◌<◌, ◌≤◌, ◌≡◌, ◌≢◌, refl, ap, true, false, none, some, [], ◌∷◌,
  arith, Bytes, bytes_eq, ascii, if◌then◌else◌, get_elem?, length,
}
use genomedb.Base.Assoc.{lookup, insert, remove}
use genomedb.Protocol.{MutationAck, MutationSeed, ImmuneAlert}
use genomedb.Orchestrator.{
  Orchestrator, new, second, alert, acknowledge, broadcast_delta, ack_entry, subscribe, unsubscribe,
  push_seed, collect, deliver,
}
use genomedb.Orchestrator.Buffered.{close, make, send_all}
use genomedb.Orchestrator.Alerts.{alert_spacing}
use genomedb.Orchestrator.Routes.{acknowledge-lookup}
use genomedb.Orchestrator.Anchors.{run_acks, run_acks-InOrder, run_acks_after_loss}
use genomedb.Orchestrator.Subscribers.{unsubscribe-subscribe}
use genomedb.Orchestrator.Race.{deliver-collect}
use genomedb.Crypto.HashChain.{verify_step}
use genomedb.Crypto.HashChain.Laws.{iterate}
use genomedb.Tests.Parameters.{toy_hash}

abbrev alarm : ImmuneAlert
alarm = record { node_id = ascii "n1"; pid = ascii "p"; severity = ascii "confirmed"; sent_at = 0 }

alert_spacing_example : 5 * second + 3 * second ≤ 9 * second
unfolding alert lookup insert bytes_eq
alert_spacing_example =
    alert_spacing new alarm alarm (5 * second) (9 * second) ((alarm, 6 * second) ∷ []) refl refl
      refl

abbrev cold_ack : ℕ → MutationAck
cold_ack n = record {
  node_id = ascii "n1";
  old_pid = ascii "p1";
  new_pid = ascii "p2";
  epoch = 2;
  commitment = [];
  reason = ascii "cold";
  chain_id = ascii "c";
  seed_used = iterate toy_hash n (5 ∷ []);
}

abbrev announced : Orchestrator
announced = record new {
  routes =
      (
        ascii "p1",
        record {
          pid = ascii "p1";
          node_id = ascii "n1";
          endpoint = ascii "host:1";
          epoch = 1;
          chain_id = ascii "c";
        },
      )
      ∷ [];
  chain_anchors = (ascii "c", 5 ∷ []) ∷ [];
}

abbrev moved : Orchestrator
moved = record announced {
  routes = (ascii "p2", ack_entry (cold_ack 1) announced.routes) ∷ [];
  chain_anchors = (ascii "c", 1 ∷ 5 ∷ []) ∷ [];
  epoch = 1;
}

acknowledged : acknowledge toy_hash (cold_ack 1) announced ≡ some moved
unfolding acknowledge broadcast_delta send_all lookup insert remove bytes_eq iterate verify_step
acknowledged = refl

acknowledge-lookup_example :
    ((pid : Bytes)
      → lookup pid moved.routes ≡ (
          if bytes_eq (ascii "p2") pid
          then some (record {
            pid = ascii "p2";
            node_id = (cold_ack 1).node_id;
            endpoint = elim (lookup (ascii "p1") announced.routes) [
              | none ↦ (cold_ack 1).node_id
              | some old ↦ old.endpoint
            ];
            epoch = (cold_ack 1).epoch;
            chain_id = (cold_ack 1).chain_id;
          })
          else if bytes_eq (ascii "p1") pid
          then none
          else lookup pid announced.routes))
    × (1 ≡ (0 + 1) % 2 ^ 64)
acknowledge-lookup_example = acknowledge-lookup toy_hash (cold_ack 1) announced moved acknowledged

known : lookup (ascii "c") announced.chain_anchors ≡ some (iterate toy_hash 0 (5 ∷ []))
unfolding lookup bytes_eq iterate
known = refl

run_acks-InOrder_example :
    lookup (ascii "c") (run_acks toy_hash (cold_ack 1 ∷ cold_ack 2 ∷ []) announced).chain_anchors
    ≡ some (iterate toy_hash 2 (5 ∷ []))
run_acks-InOrder_example =
    run_acks-InOrder toy_hash (ascii "c") (5 ∷ []) 0 (cold_ack 1 ∷ cold_ack 2 ∷ []) announced
      ((refl, refl, refl), ((refl, refl, refl), tt)) known

length-iterate : (n : ℕ) (b : Bytes) → length (iterate toy_hash n b) ≡ n + length b
unfolding iterate
length-iterate zero b = omega arith
length-iterate (suc n) b = omega (arith, length-iterate n (toy_hash b))

no_cycle : (m : ℕ) → 1 < m → iterate toy_hash m (5 ∷ []) ≢ iterate toy_hash 1 (5 ∷ [])
no_cycle m lt e =
    omega
      (arith, length-iterate m (5 ∷ []), length-iterate 1 (5 ∷ []), ap (λ (t : Bytes). length t) e)

run_acks_after_loss_example :
    lookup (ascii "c") (run_acks toy_hash (cold_ack 2 ∷ cold_ack 3 ∷ []) announced).chain_anchors
    ≡ some (iterate toy_hash 0 (5 ∷ []))
run_acks_after_loss_example =
    run_acks_after_loss toy_hash (ascii "c") (5 ∷ []) 0 (cold_ack 2 ∷ cold_ack 3 ∷ []) announced
      no_cycle ((2, omega arith, (refl, refl, refl)), ((3, omega arith, (refl, refl, refl)), tt))
      known

abbrev seed : MutationSeed
seed = record { pid = ascii "p1"; seed = 1 ∷ []; reason = ascii "scheduled"; epoch = 2 }

unsubscribe-subscribe_example :
    (o3 : Orchestrator) × (unsubscribe
        (ascii "n1")
        0
        (subscribe (ascii "n1") (subscribe (ascii "n1") new).1).1
      ≡ some o3)
    × (lookup (ascii "n1") o3.subs ≡ none)
    × (push_seed (ascii "n1") seed o3 ≡ some o3)
    × (get_elem? o3.channels 1 ≡ some (record { buffer = []; closed = false }))
unfolding subscribe make
unsubscribe-subscribe_example = unsubscribe-subscribe (ascii "n1") seed new

abbrev subscribed : Orchestrator
subscribed = record new {
  subs = (ascii "n1", 0) ∷ [];
  channels = record { buffer = []; closed = false } ∷ [];
}

abbrev ended : Orchestrator
ended = record new { epoch = 1; channels = record { buffer = []; closed = true } ∷ [] }

has_ended : unsubscribe (ascii "n1") 0 (collect [] subscribed).2 ≡ some ended
unfolding unsubscribe close collect remove bytes_eq
has_ended = refl

known_channel : lookup (ascii "n1") subscribed.subs ≡ some 0
unfolding lookup bytes_eq
known_channel = refl

deliver-collect_example : deliver (collect [] subscribed).0 (collect [] subscribed).1 ended ≡ none
deliver-collect_example = deliver-collect (ascii "n1") 0 [] subscribed ended known_channel has_ended
