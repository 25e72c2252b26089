-- ===== src/Cli.antt =====
-- cmd/client/main.go: the prompt of a node. A message is the value of what is printed, without its
-- words. A number below 0 is an error of Split and of Backup as 0 is, and is given to them as 0. An empty
-- line prints `nothing`.
pub mod Session
pub mod Boot
use genomedb.Base.{
  ℕ, Bool, true, false, Option, none, some, List, [], ◌∷◌, length, if◌then◌else◌, Bytes, bytes_eq,
  ascii, Result, ok, err,
}
use genomedb.Base.Scanner.{scan_lines}
use genomedb.Base.Text.{ℤ, pos_part, atoi, fields}
use genomedb.Crypto.Seal.{Disk, Reading, found, missing, unreadable}
use genomedb.Mesh.{KeyPair, generate_key_pair}
use genomedb.Store.{list_mesh_peers}
use genomedb.Store.Tables.{Fragment, MeshPeer, StoreError}
use genomedb.Transport.{Http, Json}
use genomedb.Client.Backup.{backup}
use genomedb.Client.Immune.{attack}
use genomedb.Client.Node.{Packages, NodeError, list_local_fragments}
use genomedb.Client.Reconstruct.{reconstruct}
use genomedb.Client.SelfHeal.{heal_now}
use genomedb.Client.Split.{split_secret}
use genomedb.Client.Startup.{add_mesh_peer, read_own_database_file}
use genomedb.Client.Watchdog.{Watchdog}
use genomedb.Client.World.{World, Action}

pub data Message : Type 0 where
  usage not_integers cannot_read cannot_write cannot_make_key unknown_command : Message
  nothing help_text triggered healed no_fragments no_mesh_peers : Message
  failed : NodeError → Message
  cannot_list : StoreError → Message
  stored : Bytes → ℕ → ℕ → Message
  reconstructed : Bytes → Bytes → ℕ → Message
  key_pair : KeyPair → Message
  mesh_added : Bytes → Bytes → Message
  backed_up database_backed_up : Bytes → ℕ → Message
  mesh_peers : List MeshPeer → Message
  status_of : ℕ → List Fragment → Message

pub data Command : Type 0 where
  help store reconstruct_ simulate_attack status mesh_genkey mesh_add mesh_list : Command
  backup_ backup_db heal_now_ quit : Command

-- The cases of the switch on the first word.
unfoldable pub command_of : Bytes → Option Command
command_of word =
    if bytes_eq word (ascii "help")
    then some help
    else if bytes_eq word (ascii "store")
    then some store
    else if bytes_eq word (ascii "reconstruct")
    then some reconstruct_
    else if bytes_eq word (ascii "simulate-attack")
    then some simulate_attack
    else if bytes_eq word (ascii "status")
    then some status
    else if bytes_eq word (ascii "mesh-genkey")
    then some mesh_genkey
    else if bytes_eq word (ascii "mesh-add")
    then some mesh_add
    else if bytes_eq word (ascii "mesh-list")
    then some mesh_list
    else if bytes_eq word (ascii "backup")
    then some backup_
    else if bytes_eq word (ascii "backup-db")
    then some backup_db
    else if bytes_eq word (ascii "heal-now")
    then some heal_now_
    else if bytes_eq word (ascii "quit")
    then some quit
    else if bytes_eq word (ascii "exit")
    then some quit
    else none

module _ (p : Packages) (h : Http) (json : Json) (d : Disk) where
  pub record Console : Type 0 where
    pub watchdog : Watchdog
    pub world : World p.entropy.Source h.State
    pub disk : d.State

  abbrev pub Reply : Type 0
  Reply = Message × Console

  -- An operation of the node, with what is printed of its result.
  unfoldable pub perform : {A : Type 0} → Action p h json A → (A → Message) → Console → Reply
  perform m done c =
      let (r, w) = m c.world in
      (elim r [ err e ↦ failed e | ok a ↦ done a ], record c { world = w })
