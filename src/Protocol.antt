-- ===== src/Protocol.antt =====
-- protocol/messages.go: the messages between the orchestrator and the nodes. A string and a
-- []byte are byte lists, a uint64 is a number below 2 ^ 64. The payload of an event is kept as
-- the value that is marshalled to JSON.
pub mod Client
pub mod Events
pub mod Subscription
use genomedb.Base.{ℕ, Bool, List, Bytes}

pub record Heartbeat : Type 0 where
  pub node_id : Bytes
  pub pid : Bytes
  pub epoch : ℕ
  pub risk_score : ℕ
  pub por_proof : Bytes

pub record MutationSeed : Type 0 where
  pub pid : Bytes
  pub seed : Bytes
  pub reason : Bytes
  pub epoch : ℕ

pub record MutationAck : Type 0 where
  pub node_id : Bytes
  pub old_pid : Bytes
  pub new_pid : Bytes
  pub epoch : ℕ
  pub commitment : Bytes
  pub reason : Bytes
  pub chain_id : Bytes
  pub seed_used : Bytes

pub record RouteEntry : Type 0 where
  pub pid : Bytes
  pub node_id : Bytes
  pub endpoint : Bytes
  pub epoch : ℕ
  pub chain_id : Bytes

pub record MapDelta : Type 0 where
  pub epoch : ℕ
  pub changes : List RouteEntry

pub record ImmuneAlert : Type 0 where
  pub node_id : Bytes
  pub pid : Bytes
  pub severity : Bytes
  pub sent_at : ℕ

pub record RouteAnnounce : Type 0 where
  pub node_id : Bytes
  pub pid : Bytes
  pub endpoint : Bytes
  pub chain_id : Bytes
  pub chain_tip : Bytes

pub record RegisterRequest : Type 0 where
  pub node_id : Bytes
  pub endpoint : Bytes

pub record RegisterResponse : Type 0 where
  pub accepted : Bool

pub record NodeInfo : Type 0 where
  pub node_id : Bytes
  pub endpoint : Bytes

pub data Event : Type 0 where
  mutation_seed : MutationSeed → Event
  map_delta : MapDelta → Event
