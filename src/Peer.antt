-- ===== src/Peer.antt =====
-- peer/messages.go: the messages between the nodes that hold shares of one secret.
pub mod Client
use genomedb.Base.{ℕ, Bool, List, Bytes}
use genomedb.Store.Tables.{Member}

-- The members are those of the store: peer.Member has the same fields.
pub record DeliverShareRequest : Type 0 where
  pub group_id : Bytes
  pub group_token : Bytes
  pub pid : Bytes
  pub epoch : ℕ
  pub threshold : ℕ
  pub total : ℕ
  pub key : Bytes
  pub ciphertext : Bytes
  pub members : List Member

pub record MutationNoticeRequest : Type 0 where
  pub group_id : Bytes
  pub group_token : Bytes
  pub old_pid : Bytes
  pub new_pid : Bytes
  pub new_endpoint : Bytes
  pub epoch : ℕ

pub record PresenceResponse : Type 0 where
  pub present : Bool
  pub epoch : ℕ

pub record ShareResponse : Type 0 where
  pub share : Bytes
  pub epoch : ℕ
