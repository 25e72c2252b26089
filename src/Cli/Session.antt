-- ===== src/Cli/Session.antt =====
-- cmd/client/main.go: each command of the prompt, on the words after its name, and the loop.
pub mod Refusals
pub mod Recovery
use genomedb.Base.{
  ℕ, Bool, true, false, Option, none, some, List, [], ◌∷◌, ◌^◌, length, ◌==◌, if◌then◌else◌, Bytes,
  Result, ok, err,
}
use genomedb.Base.Scanner.{scan_lines}
use genomedb.Base.Text.{ℤ, pos_part, atoi, fields}
use genomedb.Crypto.Seal.{Disk, Reading, found, missing, unreadable}
use genomedb.Mesh.{KeyPair, generate_key_pair}
use genomedb.Store.{list_mesh_peers}
use genomedb.Store.Tables.{Fragment, MeshPeer, StoreError}
use genomedb.Transport.{Http, Json}
use genomedb.Client.Backup.{backup}
use genomedb.Client.Immune.{attack}
use genomedb.Client.Node.{Packages, NodeError, list_local_fragments}
use genomedb.Client.Reconstruct.{reconstruct}
use genomedb.Client.SelfHeal.{heal_now, heal_manifests}
use genomedb.Client.Split.{split_secret}
use genomedb.Client.Startup.{add_mesh_peer, read_own_database_file}
use genomedb.Client.World.{World, Action}
use genomedb.Cli.{
  Message, usage, not_integers, cannot_read, cannot_write, cannot_make_key, unknown_command,
  help_text, triggered, healed, no_fragments, no_mesh_peers, failed, cannot_list, stored,
  reconstructed, key_pair, mesh_added, backed_up, database_backed_up, mesh_peers, status_of,
  Command, help, store, reconstruct_, simulate_attack, status, mesh_genkey, mesh_add, mesh_list,
  backup_, backup_db, heal_now_, quit, command_of, Console, Reply, perform, nothing,
}

module _ (p : Packages) (h : Http) (json : Json) (d : Disk) (base_mult : Bytes → Option Bytes)
    (base64 : Bytes → Bytes) where
  abbrev pub Here : Type 0
  Here = Console p h json d

  abbrev pub Answered : Type 0
  Answered = Reply p h json d

  -- os.ReadFile, and what is done with the file.
  unfoldable pub with_file : Bytes → (Bytes → Here → Answered) → Here → Answered
  with_file path next c = elim (d.read_file path c.disk) [
    | found contents ↦ next contents c
    | missing ↦ (cannot_read, c)
    | unreadable ↦ (cannot_read, c)
  ]

  unfoldable pub split_file : Bytes → Bytes → Option ℤ → Option ℤ → Here → Answered
  unfolding split_secret perform
  split_file name contents none total c = (not_integers, c)
  split_file name contents (some threshold) none c = (not_integers, c)
  split_file name contents (some threshold) (some total) c =
      perform p h json d (split_secret p h json name contents (pos_part threshold) (pos_part total))
        (λ done. stored name (pos_part threshold) (pos_part total)) c

  unfoldable pub run_store : List Bytes → Here → Answered
  unfolding with_file split_file
  run_store (name ∷ path ∷ threshold ∷ total ∷ []) c =
      with_file path (λ contents. split_file name contents (atoi threshold) (atoi total)) c
  run_store _ c = (usage, c)

  -- os.WriteFile of what was reconstructed.
  unfoldable pub write_out : Bytes → Bytes → Bytes → Here → Answered
  write_out name path contents c =
      let (written, disk) = d.write_file path contents c.disk in
      (
        if written then reconstructed name path (length contents) else cannot_write,
        record c { disk = disk },
      )

  unfoldable pub reconstruct_to : Bytes → Bytes → Here → Answered
  unfolding reconstruct write_out
  reconstruct_to name path c =
      let (result, w) = reconstruct p h json name c.world in
      elim result [
        | err e ↦ (failed e, record c { world = w })
        | ok contents ↦ write_out name path contents (record c { world = w })
      ]

  unfoldable pub run_reconstruct : List Bytes → Here → Answered
  unfolding reconstruct_to
  run_reconstruct (name ∷ path ∷ []) c = reconstruct_to name path c
  run_reconstruct _ c = (usage, c)

  unfoldable pub run_attack : Here → Answered
  unfolding attack
  run_attack c =
      let (dog, w) = attack p h json c.world.now (c.watchdog, c.world) in
      (triggered, record c { watchdog = dog; world = w })

  -- printStatus
  unfoldable pub show_status : Here → Message
  unfolding list_local_fragments
  show_status c = elim (list_local_fragments p c.world.node) [
    | err e ↦ cannot_list e
    | ok held ↦ if length held == 0 then no_fragments else status_of c.watchdog.last_score held
  ]

  unfoldable pub make_key : Here → Answered
  unfolding generate_key_pair
  make_key c = elim (generate_key_pair p.entropy base_mult base64 c.world.node.source) [
    | none ↦ (cannot_make_key, c)
    | some (pair, source) ↦ (
      key_pair pair,
      record c { world = record c.world { node = record c.world.node { source = source } } },
    )
  ]

  unfoldable pub run_mesh_add : List Bytes → Here → Answered
  unfolding add_mesh_peer perform
  run_mesh_add (name ∷ endpoint ∷ wg_public_key ∷ []) c =
      perform p h json d (add_mesh_peer p h json name endpoint wg_public_key)
        (λ done. mesh_added name endpoint) c
  run_mesh_add _ c = (usage, c)

  -- printMeshPeers
  unfoldable pub show_mesh_peers : Here → Message
  unfolding list_mesh_peers
  show_mesh_peers c = elim (list_mesh_peers c.world.node.store) [
    | err e ↦ cannot_list e
    | ok peers ↦ if length peers == 0 then no_mesh_peers else mesh_peers peers
  ]

  unfoldable pub backup_contents :
      (Bytes → ℕ → Message) → Bytes → Option ℤ → Bytes → Here → Answered
  unfolding backup perform
  backup_contents done label none contents c = (not_integers, c)
  backup_contents done label (some threshold) contents c =
      perform p h json d (backup p h json label contents (pos_part threshold))
        (λ sent. done label (pos_part threshold)) c

  unfoldable pub run_backup : List Bytes → Here → Answered
  unfolding with_file backup_contents
  run_backup (label ∷ path ∷ threshold ∷ []) c =
      with_file path (backup_contents backed_up label (atoi threshold)) c
  run_backup _ c = (usage, c)

  -- The threshold is read before the file.
  unfoldable pub backup_own : Bytes → Option ℤ → Here → Answered
  unfolding backup_contents read_own_database_file
  backup_own label none c = (not_integers, c)
  backup_own label (some threshold) c = elim (read_own_database_file d c.world.node c.disk) [
    | err e ↦ (cannot_read, c)
    | ok contents ↦ backup_contents database_backed_up label (some threshold) contents c
  ]

  unfoldable pub run_backup_db : List Bytes → Here → Answered
  unfolding backup_own
  run_backup_db (label ∷ threshold ∷ []) c = backup_own label (atoi threshold) c
  run_backup_db _ c = (usage, c)

  unfoldable pub run_heal : Here → Answered
  unfolding heal_manifests
  run_heal c = let (result, w) = heal_now p h json c.world in (healed, record c { world = w })

  -- What a line leads to: the end of the loop, or the next round.
  pub data Round : Type 0 where
    leave : Round
    go_on : Message → Here → Round

  abbrev go_on_with : Answered → Round
  go_on_with (m, c) = go_on m c

  unfoldable pub run_command : Command → List Bytes → Here → Round
  unfolding run_store run_reconstruct run_attack show_status make_key run_mesh_add show_mesh_peers
      run_backup run_backup_db run_heal
  run_command help args c = go_on help_text c
  run_command store args c = go_on_with (run_store args c)
  run_command reconstruct_ args c = go_on_with (run_reconstruct args c)
  run_command simulate_attack args c = go_on_with (run_attack c)
  run_command status args c = go_on (show_status c) c
  run_command mesh_genkey args c = go_on_with (make_key c)
  run_command mesh_add args c = go_on_with (run_mesh_add args c)
  run_command mesh_list args c = go_on (show_mesh_peers c) c
  run_command backup_ args c = go_on_with (run_backup args c)
  run_command backup_db args c = go_on_with (run_backup_db args c)
  run_command heal_now_ args c = go_on_with (run_heal c)
  run_command quit args c = leave

  unfoldable pub run_words : List Bytes → Here → Round
  unfolding run_command command_of
  run_words [] c = go_on nothing c
  run_words (word ∷ args) c = elim (command_of word) [
    | none ↦ go_on unknown_command c
    | some command ↦ run_command command args c
  ]

  unfoldable pub run_line : Bytes → Here → Round
  unfolding run_words fields
  run_line line c = run_words (fields line) c

  -- How the loop ends: by a command, or with its input, after which the daemon stays up.
  pub data Ending : Type 0 where
    quitted input_closed : Ending

  unfoldable pub run_lines : List Bytes → Here → List Message × Ending × Here
  unfolding run_line
  run_lines [] c = ([], input_closed, c)
  run_lines (line ∷ lines) c = elim (run_line line c) [
    | leave ↦ ([], quitted, c)
    | go_on m c' ↦ let (messages, ending, last) = run_lines lines c' in (m ∷ messages, ending, last)
  ]

  unfoldable pub run_repl : Bytes → Here → List Message × Ending × Here
  unfolding run_lines scan_lines
  run_repl input c =
      let (messages, ending, last) = run_lines (scan_lines (2 ^ 16) [] input) c in
      (help_text ∷ messages, ending, last)
