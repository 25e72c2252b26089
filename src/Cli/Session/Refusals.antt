-- ===== src/Cli/Session/Refusals.antt =====
-- The commands of cmd/client/main.go that come to nothing.
use genomedb.Base.{
  ◌≡◌, refl, ◌∙◌, ◌⊎◌, ℕ, Bool, true, false, Option, none, some, List, [], ◌∷◌, Bytes, All,
  Result-cases, Option-cases, inl, inr, arith,
}
use genomedb.Base.Text.{ℤ, pos_part, atoi, fields}
use genomedb.Crypto.Seal.{Disk, found, missing, unreadable}
use genomedb.Mesh.{generate_key_pair}
use genomedb.Transport.{Http, Json}
use genomedb.Client.Node.{Packages}
use genomedb.Client.Reconstruct.{reconstruct}
use genomedb.Client.Split.{split_secret}
use genomedb.Client.Backup.{backup}
use genomedb.Client.Startup.{add_mesh_peer, read_own_database_file}
use genomedb.Client.World.{Action}
use genomedb.Cli.{
  Message, usage, not_integers, cannot_read, cannot_write, cannot_make_key, unknown_command,
  nothing, help_text, triggered, healed, no_fragments, no_mesh_peers, failed, cannot_list, stored,
  reconstructed, key_pair, mesh_added, backed_up, database_backed_up, mesh_peers, status_of,
  Command, help, store, reconstruct_, simulate_attack, status, mesh_genkey, mesh_add, mesh_list,
  backup_, backup_db, heal_now_, quit, command_of, perform,
}
use genomedb.Cli.Session.{
  Here, Answered, with_file, split_file, run_store, write_out, reconstruct_to, run_reconstruct,
  run_attack, make_key, run_mesh_add, backup_contents, run_backup, backup_own, run_backup_db,
  run_heal, Round, leave, go_on, run_command, run_words, run_line, run_lines,
}

-- What is printed for a line that is wrong, for one that is empty, and for one that only asks.
abbrev pub is_refusal : Message → Bool
is_refusal usage = true
is_refusal not_integers = true
is_refusal cannot_read = true
is_refusal unknown_command = true
is_refusal nothing = true
is_refusal help_text = true
is_refusal no_fragments = true
is_refusal no_mesh_peers = true
is_refusal (cannot_list e) = true
is_refusal (mesh_peers peers) = true
is_refusal (status_of score held) = true
is_refusal cannot_write = false
is_refusal cannot_make_key = false
is_refusal triggered = false
is_refusal healed = false
is_refusal (failed e) = false
is_refusal (stored name threshold total) = false
is_refusal (reconstructed name path size) = false
is_refusal (key_pair pair) = false
is_refusal (mesh_added name endpoint) = false
is_refusal (backed_up label threshold) = false
is_refusal (database_backed_up label threshold) = false

module _ (p : Packages) (h : Http) (json : Json) (d : Disk) (base_mult : Bytes → Option Bytes)
    (base64 : Bytes → Bytes) where
  abbrev Shell : Type 0
  Shell = Here p h json d base_mult base64

  abbrev Answer : Type 0
  Answer = Answered p h json d base_mult base64

  abbrev IsQuiet : Shell → Answer → Type 0
  IsQuiet c r = is_refusal r.0 ≡ true → r.1 ≡ c

  perform-IsQuiet :
      {A : Type 0} (m : Action p h json A) (done : A → Message) (c : Shell)
      → ((a : A) → is_refusal (done a) ≡ false)
      → IsQuiet c (perform p h json d m done c)
  unfolding perform
  perform-IsQuiet m done c loud = elim (Result-cases (m c.world).0) [
    | inl (e, bad) ↦ rw (perform, bad) (λ quiet. cc)
    | inr (a, good) ↦ rw (perform, good) (λ quiet. cc (loud a))
  ]

  with_file-IsQuiet :
      (path : Bytes) (next : Bytes → Shell → Answer) (c : Shell)
      → ((contents : Bytes) → IsQuiet c (next contents c))
      → IsQuiet c (with_file p h json d base_mult base64 path next c)
  unfolding with_file
  with_file-IsQuiet path next c quiet =
      elim (d.read_file path c.disk)
        as (λ r. IsQuiet c (elim r [
          | found contents ↦ next contents c
          | missing ↦ (cannot_read, c)
          | unreadable ↦ (cannot_read, c)
        ])) [ found contents ↦ quiet contents | missing ↦ λ q. refl | unreadable ↦ λ q. refl ]

  split_file-IsQuiet :
      (name contents : Bytes) (threshold total : Option ℤ) (c : Shell)
      → IsQuiet c (split_file p h json d base_mult base64 name contents threshold total c)
  unfolding split_file
  split_file-IsQuiet name contents none total c = λ q. refl
  split_file-IsQuiet name contents (some threshold) none c = λ q. refl
  split_file-IsQuiet name contents (some threshold) (some total) c =
      perform-IsQuiet (split_secret p h json name contents (pos_part threshold) (pos_part total))
        (λ done. stored name (pos_part threshold) (pos_part total)) c (λ done. refl)

  run_store-IsQuiet :
      (args : List Bytes) (c : Shell) → IsQuiet c (run_store p h json d base_mult base64 args c)
  unfolding run_store
  run_store-IsQuiet (name ∷ path ∷ threshold ∷ total ∷ []) c =
      with_file-IsQuiet path
        (λ contents.
          split_file p h json d base_mult base64 name contents (atoi threshold) (atoi total))
        c (λ contents. split_file-IsQuiet name contents (atoi threshold) (atoi total) c)
  run_store-IsQuiet _ c = λ q. refl

  write_out-IsLoud :
      (name path contents : Bytes) (c : Shell)
      → is_refusal (write_out p h json d base_mult base64 name path contents c).0 ≡ false
  unfolding write_out
  write_out-IsLoud name path contents c = ground arith

  reconstruct_to-IsQuiet :
      (name path : Bytes) (c : Shell)
      → IsQuiet c (reconstruct_to p h json d base_mult base64 name path c)
  unfolding reconstruct_to
  reconstruct_to-IsQuiet name path c = elim (Result-cases (reconstruct p h json name c.world).0) [
    | inl (e, bad) ↦ rw (reconstruct_to, bad) (λ q. cc)
    | inr (contents, good) ↦
        rw (reconstruct_to, good) (λ q. cc (write_out-IsLoud name path contents _))
  ]

  run_reconstruct-IsQuiet :
      (args : List Bytes) (c : Shell)
      → IsQuiet c (run_reconstruct p h json d base_mult base64 args c)
  unfolding run_reconstruct
  run_reconstruct-IsQuiet (name ∷ path ∷ []) c = reconstruct_to-IsQuiet name path c
  run_reconstruct-IsQuiet _ c = λ q. refl

  make_key-IsQuiet : (c : Shell) → IsQuiet c (make_key p h json d base_mult base64 c)
  unfolding make_key
  make_key-IsQuiet c =
      elim (Option-cases (generate_key_pair p.entropy base_mult base64 c.world.node.source)) [
        | inl bad ↦ rw (make_key, bad) (λ q. refl)
        | inr ((pair, source), made) ↦ rw (make_key, made) (λ q. cc)
      ]

  run_mesh_add-IsQuiet :
      (args : List Bytes) (c : Shell) → IsQuiet c (run_mesh_add p h json d base_mult base64 args c)
  unfolding run_mesh_add
  run_mesh_add-IsQuiet (name ∷ endpoint ∷ wg_public_key ∷ []) c =
      perform-IsQuiet (add_mesh_peer p h json name endpoint wg_public_key)
        (λ done. mesh_added name endpoint) c (λ done. refl)
  run_mesh_add-IsQuiet _ c = λ q. refl

  backup_contents-IsQuiet :
      (done : Bytes → ℕ → Message) (label : Bytes) (threshold : Option ℤ) (contents : Bytes)
      → (c : Shell) → ((size : ℕ) → is_refusal (done label size) ≡ false)
      → IsQuiet c (backup_contents p h json d base_mult base64 done label threshold contents c)
  unfolding backup_contents
  backup_contents-IsQuiet done label none contents c loud = λ q. refl
  backup_contents-IsQuiet done label (some threshold) contents c loud =
      perform-IsQuiet (backup p h json label contents (pos_part threshold))
        (λ sent. done label (pos_part threshold)) c (λ sent. loud (pos_part threshold))

  run_backup-IsQuiet :
      (args : List Bytes) (c : Shell) → IsQuiet c (run_backup p h json d base_mult base64 args c)
  unfolding run_backup
  run_backup-IsQuiet (label ∷ path ∷ threshold ∷ []) c =
      with_file-IsQuiet path
        (backup_contents p h json d base_mult base64 backed_up label (atoi threshold)) c
        (λ contents.
          backup_contents-IsQuiet backed_up label (atoi threshold) contents c (λ size. refl))
  run_backup-IsQuiet _ c = λ q. refl

  backup_own-IsQuiet :
      (label : Bytes) (threshold : Option ℤ) (c : Shell)
      → IsQuiet c (backup_own p h json d base_mult base64 label threshold c)
  unfolding backup_own
  backup_own-IsQuiet label none c = λ q. refl
  backup_own-IsQuiet label (some threshold) c =
      elim (Result-cases (read_own_database_file d c.world.node c.disk)) [
        | inl (e, bad) ↦ rw (backup_own, bad) (λ q. refl)
        | inr (contents, good) ↦
            rw (backup_own, good)
              (backup_contents-IsQuiet database_backed_up label (some threshold) contents c
                (λ size. refl))
      ]

  run_backup_db-IsQuiet :
      (args : List Bytes) (c : Shell) → IsQuiet c (run_backup_db p h json d base_mult base64 args c)
  unfolding run_backup_db
  run_backup_db-IsQuiet (label ∷ threshold ∷ []) c = backup_own-IsQuiet label (atoi threshold) c
  run_backup_db-IsQuiet _ c = λ q. refl

  -- The same for a round of the loop: if it goes on with a refusal, then with the console as it was.
  abbrev Quietly : Shell → Round p h json d base_mult base64 → Type 0
  Quietly c leave = Unit
  Quietly c (go_on m c') = is_refusal m ≡ true → c' ≡ c

  run_command-Quietly :
      (command : Command) (args : List Bytes) (c : Shell)
      → Quietly c (run_command p h json d base_mult base64 command args c)
  unfolding run_command run_attack run_heal
  run_command-Quietly help args c = λ q. refl
  run_command-Quietly store args c = run_store-IsQuiet args c
  run_command-Quietly reconstruct_ args c = run_reconstruct-IsQuiet args c
  run_command-Quietly simulate_attack args c = λ q. cc
  run_command-Quietly status args c = λ q. refl
  run_command-Quietly mesh_genkey args c = make_key-IsQuiet c
  run_command-Quietly mesh_add args c = run_mesh_add-IsQuiet args c
  run_command-Quietly mesh_list args c = λ q. refl
  run_command-Quietly backup_ args c = run_backup-IsQuiet args c
  run_command-Quietly backup_db args c = run_backup_db-IsQuiet args c
  run_command-Quietly heal_now_ args c = λ q. cc
  run_command-Quietly quit args c = tt

  run_words-Quietly :
      (words : List Bytes) (c : Shell) → Quietly c (run_words p h json d base_mult base64 words c)
  unfolding run_words
  run_words-Quietly [] c = λ q. refl
  run_words-Quietly (word ∷ args) c = elim (Option-cases (command_of word)) [
    | inl unknown ↦ rw (run_words, unknown) (λ q. refl)
    | inr (command, known) ↦ rw (run_words, known) (run_command-Quietly command args c)
  ]

  Round-cases :
      (r : Round p h json d base_mult base64)
      → (r ≡ leave) ⊎ ((m : Message) × (c : Shell) × (r ≡ go_on m c))
  Round-cases leave = inl refl
  Round-cases (go_on m c) = inr (m, c, refl)

  -- A session, whatever lines it is given, whose messages are all refusals or answers to a question
  -- leaves the node, the network, the watchdog and the disk as they were.
  pub run_lines-refused :
      (lines : List Bytes) (c : Shell)
      → All (λ m. is_refusal m ≡ true) (run_lines p h json d base_mult base64 lines c).0
      → (run_lines p h json d base_mult base64 lines c).2 ≡ c
  unfolding run_lines run_line
  run_lines-refused [] c = λ quiet. refl
  run_lines-refused (line ∷ lines) c =
      elim (Round-cases (run_words p h json d base_mult base64 (fields line) c)) [
        | inl left ↦ rw (run_lines, run_line, left) (λ quiet. refl)
        | inr (m, c', goes) ↦
            rw (run_lines, run_line, goes)
              (λ quiet.
                run_lines-refused lines c' quiet.1
                ∙ (rw (goes) at (run_words-Quietly (fields line) c)) quiet.0)
      ]
