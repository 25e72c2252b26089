-- ===== src/Crypto/Seal.antt =====
-- crypto/seal.go. The file system, scrypt and the JSON of a sealed file are not part of this
-- repository: they are the parameters `Disk` and `Sealing`, with what their packages document.
pub mod Laws
use genomedb.Base.{
  ℕ, Bool, true, false, Option, none, some, Bytes, ascii, Entropy, Result, ok, err, ◌≡◌,
}
use genomedb.Crypto.Aead.{Gcm, AeadError, encrypt, decrypt}
use genomedb.Crypto.Ratchet.{key_size}

pub record SealedFile : Type 0 where
  pub salt : Bytes
  pub ct : Bytes

-- What os.ReadFile gives: the file, os.ErrNotExist, or another error.
pub data Reading : Type 0 where
  found : Bytes → Reading
  missing unreadable : Reading

-- A write and the making of a directory say whether they succeeded. A file that was written is read
-- as it was written, and making a directory does not change the file of this name in it.
pub record Disk : Type 1 where
  pub State : Type 0
  pub join : Bytes → Bytes → Bytes
  pub make_dir : Bytes → State → Bool × State
  pub read_file : Bytes → State → Reading
  pub write_file : Bytes → Bytes → State → Bool × State
  pub read_file-write_file :
      (path contents : Bytes) (s s' : State)
      → write_file path contents s ≡ (true, s')
      → read_file path s' ≡ found contents
  pub read_file-make_dir :
      (dir : Bytes) (s : State)
      → read_file (join dir (ascii "root.seal")) (make_dir dir s).1
        ≡ read_file (join dir (ascii "root.seal")) s

-- scrypt.Key on the binding and the salt, with the fixed cost that the source gives it, and the JSON
-- of a sealed file.
pub record Sealing : Type 0 where
  pub scrypt : Bytes → Bytes → Option Bytes
  pub marshal : SealedFile → Bytes
  pub unmarshal : Bytes → Option SealedFile
  pub unmarshal-marshal : (sf : SealedFile) → unmarshal (marshal sf) ≡ some sf

pub data SealError : Type 0 where
  cannot_make_dir cannot_read cannot_write bad_json no_random no_wrap_key : SealError
  aead : AeadError → SealError

abbrev pub seal_context : Bytes
seal_context = ascii "mutant-db/seal"

module _ (gcm : Gcm) (sealing : Sealing) where
  unfoldable pub unseal_root : SealedFile → Bytes → Result SealError Bytes
  unseal_root sf binding = elim (sealing.scrypt binding sf.salt) [
    | none ↦ err no_wrap_key
    | some wrap_key ↦ elim (decrypt gcm wrap_key sf.ct seal_context) [
      | err e ↦ err (aead e)
      | ok root ↦ ok root
    ]
  ]

  module _ (e : Entropy) where
    unfoldable pub seal_root : Bytes → Bytes → e.Source → Result SealError (SealedFile × e.Source)
    seal_root root binding src = elim (e.read 16 src) [
      | none ↦ err no_random
      | some (salt, src1) ↦ elim (sealing.scrypt binding salt) [
        | none ↦ err no_wrap_key
        | some wrap_key ↦ elim (encrypt gcm e wrap_key root seal_context src1) [
          | err failure ↦ err (aead failure)
          | ok (ct, src2) ↦ ok (record { salt = salt; ct = ct }, src2)
        ]
      ]
    ]

    module _ (disk : Disk) where
      -- What follows when there is no sealed file: a new root, and its file.
      unfoldable pub create_root :
          Bytes → Bytes → e.Source → disk.State → Result SealError Bytes × disk.State
      unfolding seal_root
      create_root path binding src s = elim (e.read key_size src) [
        | none ↦ (err no_random, s)
        | some (root, src1) ↦ elim (seal_root root binding src1) [
          | err failure ↦ (err failure, s)
          | ok (sf, src2) ↦
              let (written, s') = disk.write_file path (sealing.marshal sf) s in
              (elim written [ true ↦ ok root | false ↦ err cannot_write ], s')
        ]
      ]

      -- LoadOrCreateRoot
      unfoldable pub load_or_create_root :
          Bytes → Bytes → e.Source → disk.State → Result SealError Bytes × disk.State
      unfolding unseal_root create_root
      load_or_create_root dir binding src s =
          let (made, s1) = disk.make_dir dir s in
          elim made [
            | false ↦ (err cannot_make_dir, s1)
            | true ↦ elim (disk.read_file (disk.join dir (ascii "root.seal")) s1) [
              | found contents ↦ elim (sealing.unmarshal contents) [
                | none ↦ (err bad_json, s1)
                | some sf ↦ (unseal_root sf binding, s1)
              ]
              | missing ↦ create_root (disk.join dir (ascii "root.seal")) binding src s1
              | unreadable ↦ (err cannot_read, s1)
            ]
          ]
