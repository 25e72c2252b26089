-- ===== src/Cli/Session/Recovery.antt =====
-- The command of cmd/client/main.go that gives a secret back.
use mathlib.Core.List.{Memᴰ}
use genomedb.Base.{
  ℕ, ◌≤◌, ◌≡◌, refl, ap, ◌∙◌, true, Option, some, List, [], ◌∷◌, length, Bytes, IsBytes, bytes_eq,
  ascii, ok, All, Distinct,
}
use genomedb.Base.Text.{unwords, IsWord, is_space, space_length, fields-unwords}
use genomedb.Crypto.Seal.{Disk, found}
use genomedb.Crypto.Shamir.{Share, split}
use genomedb.Store.{get_manifest}
use genomedb.Store.Tables.{Manifest, Member}
use genomedb.Transport.{Http, Json}
use genomedb.Client.Node.{Packages}
use genomedb.Client.Reconstruct.Recovery.{Gives, all_held, reconstruct_lem}
use genomedb.Cli.{reconstructed, command_of, reconstruct_}
use genomedb.Cli.Session.{
  Here, write_out, reconstruct_to, run_reconstruct, go_on, run_command, run_words, run_line,
}

-- What is typed to have a secret written to a file.
abbrev pub request_for : Bytes → Bytes → Bytes
request_for name path = unwords (ascii "reconstruct" ∷ name ∷ path ∷ [])

reconstruct_command : command_of (ascii "reconstruct") ≡ some reconstruct_
unfolding command_of bytes_eq
reconstruct_command = refl

reconstruct-IsWord : IsWord (ascii "reconstruct")
unfolding is_space space_length
reconstruct-IsWord =
    (refl, (refl, (refl, (refl, (refl, (refl, (refl, (refl, (refl, (refl, (refl, tt)))))))))))

module _ (p : Packages) (h : Http) (json : Json) (d : Disk) (base_mult : Bytes → Option Bytes)
    (base64 : Bytes → Bytes) where
  abbrev Shell : Type 0
  Shell = Here p h json d base_mult base64

  run_line-request_for :
      (name path : Bytes) (c : Shell)
      → IsWord name
      → IsWord path
      → run_line p h json d base_mult base64 (request_for name path) c
        ≡ run_command p h json d base_mult base64 reconstruct_ (name ∷ path ∷ []) c
  unfolding run_line run_words
  run_line-request_for name path c name_word path_word =
      ap (λ words. run_words p h json d base_mult base64 words c)
        (fields-unwords (ascii "reconstruct" ∷ name ∷ path ∷ [])
          (reconstruct-IsWord, (name_word, (path_word, tt))))
      ∙ rw (run_words, reconstruct_command)

  -- Suppose that the secret's name and the file's are words, that the manifest can be read, that a
  -- split of bytes with its threshold succeeded, that the holders give distinct shares of that split,
  -- at least as many as the threshold, that asking one holder does not change what the others give,
  -- and that the disk takes the file. Then the command typed for them writes the secret: the prompt
  -- answers with its length, the file reads as the secret, and the node and the watchdog are as before.
  pub run_line-reconstruct :
      (Up : h.State → Type 0) (name path secret : Bytes) (m : Manifest) (total : ℕ)
      → (src src' : p.entropy.Source) (out : List Share) (held : Member → List Share)
      → (c : Shell) (disk : d.State) → IsWord name
      → IsWord path
      → IsBytes secret
      → split p.entropy secret total m.threshold src ≡ ok (out, src')
      → get_manifest p.gcm p.codec name c.world.node.store ≡ ok m
      → Up c.world.net
      → All (Gives p h json Up m held c.world) m.members
      → All (λ s. Memᴰ s out) (all_held held m.members)
      → Distinct (all_held held m.members)
      → m.threshold ≤ length (all_held held m.members)
      → d.write_file path secret c.disk ≡ (true, disk)
      → (net : h.State) × (run_line p h json d base_mult base64 (request_for name path) c
          ≡ go_on
              (reconstructed name path (length secret))
              (record c { world = record c.world { net = net }; disk = disk }))
        × (d.read_file path disk ≡ found secret)
  unfolding run_command run_reconstruct reconstruct_to write_out
  run_line-reconstruct Up name path secret m total src src' out held c disk name_word path_word
        bytes was_split known up gives from distinct enough written =
      let (net, again) =
        reconstruct_lem p h json Up name secret m total src src' out held c.world bytes was_split
          known up gives from distinct enough in
      (
        net,
        run_line-request_for name path c name_word path_word
            ∙ rw (run_command, run_reconstruct, reconstruct_to, again, write_out, written)
                (ap
                  (λ r.
                    go_on (reconstructed name path (length secret))
                      (record c { world = r.1; disk = disk }))
                  again),
        d.read_file-write_file path secret c.disk disk written,
      )
