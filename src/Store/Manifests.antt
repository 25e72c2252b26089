-- ===== src/Store/Manifests.antt =====
-- What the operations on manifests of store/store.go promise to each other.
use genomedb.Base.{
  ℕ, ◌≡◌, ap, ◌∙◌, false, none, some, ◌==◌, length, if◌then◌else◌, Bytes, ascii, bytes_eq_refl, ok,
  Bool-cases, inl, inr,
}
use genomedb.Base.Assoc.{lookup, insert, lookup-insert}
use genomedb.Crypto.Aead.{Gcm}
use genomedb.Store.Tables.{Codec, AreText, Manifest, ManifestRow, Store}
use genomedb.Store.{put_manifest, get_manifest, scan_manifest, read_manifest}

module _ (gcm : Gcm) (codec : Codec) where
  -- When the manifest of that name was first put, or now.
  abbrev pub first_put : Bytes → ℕ → Store → ℕ
  first_put name now s = elim (lookup name s.manifests) [ none ↦ now | some old ↦ old.created_at ]

  abbrev pub kind_or_secret : Bytes → Bytes
  kind_or_secret kind = if length kind == 0 then ascii "secret" else kind

  abbrev pub row_of : Manifest → ℕ → Store → ManifestRow
  row_of m now s = record {
    kind = kind_or_secret m.kind;
    group_id = m.group_id;
    group_token = m.group_token;
    threshold = m.threshold;
    total = m.total;
    members_json = codec.marshal m.members;
    created_at = first_put m.secret_name now s;
  }

  pub put_manifest_lem :
      (m : Manifest) (now : ℕ) (s s' : Store)
      → put_manifest gcm codec m now s ≡ ok s'
      → (s.closed ≡ false)
        × (s' ≡ record s { manifests = insert m.secret_name (row_of m now s) s.manifests })
  unfolding put_manifest
  put_manifest_lem m now s s' run = elim (Bool-cases s.closed) [
    | inl closed ↦ cc (rw (put_manifest, closed) at run)
    | inr is_open ↦ (is_open, cc (rw (put_manifest, is_open) at run))
  ]

  read_back :
      (m : Manifest) (row : ManifestRow) (s : Store)
      → s.closed ≡ false
      → lookup m.secret_name s.manifests ≡ some row
      → codec.unmarshal row.members_json ≡ some m.members
      → get_manifest gcm codec m.secret_name s
        ≡ ok (record m {
          kind = row.kind;
          group_id = row.group_id;
          group_token = row.group_token;
          threshold = row.threshold;
          total = row.total;
          created_at = row.created_at;
        })
  unfolding get_manifest scan_manifest read_manifest
  read_back m row s is_open found parsed =
      rw (get_manifest, found, scan_manifest, is_open, read_manifest, parsed)

  -- A manifest that was put is got back as it was, except that an empty kind is "secret" and that
  -- its date is that of the first manifest that was put under its name, if its members hold text.
  pub get_manifest-put_manifest :
      (m : Manifest) (now : ℕ) (s s' : Store)
      → AreText codec m.members
      → put_manifest gcm codec m now s ≡ ok s'
      → get_manifest gcm codec m.secret_name s'
        ≡ ok (record m { kind = kind_or_secret m.kind; created_at = first_put m.secret_name now s })
  get_manifest-put_manifest m now s s' text run =
      let (is_open, stored) = put_manifest_lem m now s s' run in
      ap (get_manifest gcm codec m.secret_name) stored
      ∙ read_back m (row_of m now s)
          (record s { manifests = insert m.secret_name (row_of m now s) s.manifests }) is_open
          (lookup-insert m.secret_name m.secret_name (row_of m now s) s.manifests
            ∙ ap (λ c. if c then some (row_of m now s) else lookup m.secret_name s.manifests)
                (bytes_eq_refl m.secret_name))
          (codec.unmarshal-marshal m.members text)
