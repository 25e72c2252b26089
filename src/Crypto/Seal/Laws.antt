-- ===== src/Crypto/Seal/Laws.antt =====
-- The root secret of crypto/seal.go stays the same.
use genomedb.Base.{
  ◌≡◌, refl, ap, ap₂, sym, ◌∙◌, Bool, true, some, Bytes, ascii, Entropy, Result, ok, Result-cases,
  ok-injective, Option-cases, Bool-cases, inl, inr,
}
use genomedb.Crypto.Aead.{Gcm, encrypt}
use genomedb.Crypto.Aead.Laws.{decrypt-encrypt}
use genomedb.Crypto.Ratchet.{key_size}
use genomedb.Crypto.Seal.{
  SealedFile, Reading, found, missing, unreadable, Disk, Sealing, SealError, seal_context,
  unseal_root, seal_root, create_root, load_or_create_root,
}

module _ (gcm : Gcm) (sealing : Sealing) (e : Entropy) where
  unseal_root-seal_root :
      (root binding : Bytes) (src src' : e.Source) (sf : SealedFile)
      → seal_root gcm sealing e root binding src ≡ ok (sf, src')
      → unseal_root gcm sealing sf binding ≡ ok root
  unfolding seal_root unseal_root
  unseal_root-seal_root root binding src src' sf run = elim (Option-cases (e.read 16 src)) [
    | inl none_read ↦ cc (rw (seal_root, none_read) at run)
    | inr ((salt, src1), drawn) ↦ elim (Option-cases (sealing.scrypt binding salt)) [
      | inl no_key ↦ cc (rw (seal_root, drawn, no_key) at run)
      | inr (key, derived) ↦ elim (Result-cases (encrypt gcm e key root seal_context src1)) [
        | inl (failure, failed) ↦ cc (rw (seal_root, drawn, derived, failed) at run)
        | inr ((ct, src2), done) ↦
            let made : SealedFile = record { salt = salt; ct = ct } in
            let same =
              ok-injective (made, src2) (sf, src') (rw (seal_root, drawn, derived, done) at run) in
            ap (λ (t : SealedFile). unseal_root gcm sealing t binding) (sym (ap (λ r. r.0) same))
            ∙ rw (
              unseal_root,
              derived,
              decrypt-encrypt gcm e key root seal_context ct src1 src2 done,
            )
      ]
    ]
  ]

  module _ (disk : Disk) where
    abbrev seal_path : Bytes → Bytes
    seal_path dir = disk.join dir (ascii "root.seal")

    -- A disk whose file unseals to the root.
    abbrev Seals : Bytes → Bytes → Bytes → disk.State → Type 0
    Seals path binding root s =
        (contents : Bytes) × (sf : SealedFile) × (disk.read_file path s ≡ found contents)
        × (sealing.unmarshal contents ≡ some sf)
        × (unseal_root gcm sealing sf binding ≡ ok root)

    create_root_lem :
        (path binding root : Bytes) (src : e.Source) (s s' : disk.State)
        → create_root gcm sealing e disk path binding src s ≡ (ok root, s')
        → Seals path binding root s'
    unfolding create_root
    create_root_lem path binding root src s s' run = elim (Option-cases (e.read key_size src)) [
      | inl none_read ↦ cc (rw (create_root, none_read) at run)
      | inr ((fresh, src1), drawn) ↦
          elim (Result-cases (seal_root gcm sealing e fresh binding src1)) [
            | inl (failure, failed) ↦ cc (rw (create_root, drawn, failed) at run)
            | inr ((sf, src2), sealed) ↦
                let json = sealing.marshal sf in
                elim (Bool-cases (disk.write_file path json s).0) [
                  | inr lost ↦ cc (rw (create_root, drawn, sealed, lost) at run)
                  | inl written ↦
                      let ends : ◌≡◌ {A = Result SealError Bytes × disk.State}
                          (ok fresh, (disk.write_file path json s).1) (ok root, s') =
                        rw (create_root, drawn, sealed, written) at run in
                      (
                        json,
                        sf,
                        disk.read_file-write_file path json s s' (
                            ap₂ (λ (b : Bool) (t : disk.State). (b, t)) written
                              (ap (λ r. r.1) ends)),
                        sealing.unmarshal-marshal sf,
                        unseal_root-seal_root fresh binding src1 src2 sf sealed
                            ∙ ap (λ r. r.0) ends,
                      )
                ]
          ]
    ]

    load_or_create_root-Seals :
        (dir binding root : Bytes) (src : e.Source) (s s' : disk.State)
        → load_or_create_root gcm sealing e disk dir binding src s ≡ (ok root, s')
        → Seals (seal_path dir) binding root s'
    unfolding load_or_create_root
    load_or_create_root-Seals dir binding root src s s' run =
        let made_at = disk.make_dir dir s in
        let path = seal_path dir in
        elim (Bool-cases made_at.0) [
          | inr not_made ↦ cc (rw (load_or_create_root, not_made) at run)
          | inl made ↦ by_reading (disk.read_file path made_at.1) refl made
        ]
      where
        by_reading :
            (r : Reading)
            → disk.read_file (seal_path dir) (disk.make_dir dir s).1 ≡ r
            → (disk.make_dir dir s).0 ≡ true
            → Seals (seal_path dir) binding root s'
        by_reading missing read made =
            create_root_lem (seal_path dir) binding root src (disk.make_dir dir s).1 s'
              (rw (load_or_create_root, made, read) at run)
        by_reading unreadable read made = cc (rw (load_or_create_root, made, read) at run)
        by_reading (found contents) read made = elim (Option-cases (sealing.unmarshal contents)) [
          | inl bad ↦ cc (rw (load_or_create_root, made, read, bad) at run)
          | inr (sf, parsed) ↦
              let ends : ◌≡◌ {A = Result SealError Bytes × disk.State}
                  (unseal_root gcm sealing sf binding, (disk.make_dir dir s).1) (ok root, s') =
                rw (load_or_create_root, made, read, parsed) at run in
              (
                contents,
                sf,
                ap (disk.read_file (seal_path dir)) (sym (ap (λ r. r.1) ends)) ∙ read,
                parsed,
                ap (λ r. r.0) ends,
              )
        ]

    -- Once LoadOrCreateRoot has given a root, created or loaded, it gives the same root at the next
    -- start with the same binding, whatever the random bytes then are, if nothing else was written in
    -- between and the directory can still be made.
    pub load_or_create_root-again :
        (dir binding root : Bytes) (src src' : e.Source) (s s' : disk.State)
        → load_or_create_root gcm sealing e disk dir binding src s ≡ (ok root, s')
        → (disk.make_dir dir s').0 ≡ true
        → (load_or_create_root gcm sealing e disk dir binding src' s').0 ≡ ok root
    unfolding load_or_create_root
    load_or_create_root-again dir binding root src src' s s' run made =
        let (contents, sf, read, parsed, opened) =
          load_or_create_root-Seals dir binding root src s s' run in
        let still = disk.read_file-make_dir dir s' ∙ read in
        rw (load_or_create_root, made, still, parsed, opened)
