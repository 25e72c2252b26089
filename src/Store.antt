-- ===== src/Store.antt =====
-- store/store.go. A table is an association list from its primary key to the row's other columns.
-- A closed handle makes every statement fail, which is the failure of a statement that is modelled.
-- encoding/json, for the members of a group, is the parameter `Codec`.
pub mod Tables
pub mod Fragments
pub mod Groups
pub mod Keys
pub mod Manifests
use genomedb.Base.{
  leb, ◌^◌, ℕ, Bool, true, false, ◌||◌, Option, none, some, List, [], ◌∷◌, ◌++◌, map, length, ◌==◌,
  if◌then◌else◌, Bytes, bytes_eq, ascii, Entropy, Result, ok, err, ◌>>=◌,
}
use genomedb.Base.Assoc.{Assoc, lookup, insert, remove}
use genomedb.Crypto.Aead.{Gcm, AeadError, encrypt, decrypt}
use genomedb.Crypto.Ratchet.{Kdf, RatchetError, derive_fragment_root}
use genomedb.Store.Tables.{
  unsupported_value, Member, Codec, Fragment, FragmentRow, Manifest, ManifestRow, MeshPeer,
  MeshPeerRow, Store, StoreError, closed_database, not_found, sealing, malformed_json, first_row,
}

unfoldable pub open_store :
    Kdf
    → Assoc FragmentRow
    → Assoc ManifestRow
    → Assoc MeshPeerRow
    → Bytes
    → Result RatchetError Store
open_store kdf fragments manifests mesh_peers node_root =
    elim (derive_fragment_root kdf node_root (ascii "local-storage-wrap-key")) [
      | err e ↦ err e
      | ok key ↦ ok (record {
        storage_key = key;
        closed = false;
        fragments = fragments;
        manifests = manifests;
        mesh_peers = mesh_peers;
      })
    ]

unfoldable pub close_store : Store → Store
close_store s = record s { closed = true }

-- A statement on an open handle.
abbrev pub exec : {A : Type 0} → Store → A → Result StoreError A
exec s a = if s.closed then err closed_database else ok a

abbrev pub key_context : Bytes → Bytes
key_context pid = ascii "fragment-key:" ++ pid

-- The loop over the members, with its flag.
unfoldable pub replace_member : Bytes → Bytes → Bytes → List Member → List Member
replace_member old_pid new_pid endpoint [] = []
replace_member old_pid new_pid endpoint (m ∷ members) =
    (if bytes_eq m.pid old_pid then record m { pid = new_pid; endpoint = endpoint } else m)
    ∷ replace_member old_pid new_pid endpoint members

unfoldable pub has_member : Bytes → List Member → Bool
has_member old_pid [] = false
has_member old_pid (m ∷ members) = bytes_eq m.pid old_pid || has_member old_pid members

module _ (gcm : Gcm) (codec : Codec) where
  -- database/sql takes no uint64 from 2 ^ 63 on.
  unfoldable pub put_fragment :
      (e : Entropy) → Fragment → ℕ → Store → e.Source → Result StoreError (Store × e.Source)
  put_fragment e f now s src = elim (encrypt gcm e s.storage_key f.key (key_context f.pid) src) [
    | err failure ↦ err (sealing failure)
    | ok (wrapped, src') ↦
        if leb (2 ^ 63) f.epoch
        then err unsupported_value
        else exec s (
          record s {
            fragments =
                insert f.pid
                  (record {
                    group_id = f.group_id;
                    group_token = f.group_token;
                    chain_id = f.chain_id;
                    epoch = f.epoch;
                    threshold = f.threshold;
                    total = f.total;
                    wrapped_key = wrapped;
                    ciphertext = f.ciphertext;
                    members_json = codec.marshal f.members;
                    updated_at = now;
                  })
                  s.fragments;
          },
          src',
        )
  ]

  unfoldable pub scan_fragment : Store → Option (Bytes × FragmentRow) → Result StoreError Fragment
  scan_fragment s none = exec s tt >>= λ _. err not_found
  scan_fragment s (some (pid, row)) = exec s tt >>= λ _.
      elim (decrypt gcm s.storage_key row.wrapped_key (key_context pid)) [
        | err failure ↦ err (sealing failure)
        | ok key ↦ elim (codec.unmarshal row.members_json) [
          | none ↦ err malformed_json
          | some members ↦ ok (record {
            pid = pid;
            group_id = row.group_id;
            group_token = row.group_token;
            chain_id = row.chain_id;
            epoch = row.epoch;
            threshold = row.threshold;
            total = row.total;
            key = key;
            ciphertext = row.ciphertext;
            members = members;
            updated_at = row.updated_at;
          })
        ]
      ]

  unfoldable pub get_fragment : Bytes → Store → Result StoreError Fragment
  unfolding scan_fragment
  get_fragment pid s = elim (lookup pid s.fragments) [
    | none ↦ scan_fragment s none
    | some row ↦ scan_fragment s (some (pid, row))
  ]

  -- LIMIT 1 without an order: the first row of the list stands for any.
  unfoldable pub get_fragment_by_group : Bytes → Store → Result StoreError Fragment
  unfolding scan_fragment
  get_fragment_by_group group_id s =
      scan_fragment s
        (first_row (λ (row : FragmentRow). bytes_eq row.group_id group_id) s.fragments)

  unfoldable pub delete_fragment : Bytes → Store → Result StoreError Store
  delete_fragment pid s = exec s (record s { fragments = remove pid s.fragments })

  -- The loop over the rows: the keys and new members of the rows that change.
  unfoldable pub sibling_updates :
      Bytes → Bytes → Bytes → Bytes → Assoc FragmentRow → Result StoreError (Assoc Bytes)
  unfolding replace_member has_member
  sibling_updates group_id old_pid new_pid endpoint [] = ok []
  sibling_updates group_id old_pid new_pid endpoint ((pid, row) ∷ rows) =
      let rest = sibling_updates group_id old_pid new_pid endpoint rows in
      if bytes_eq row.group_id group_id
      then (elim (codec.unmarshal row.members_json) [
        | none ↦ err malformed_json
        | some members ↦
            if has_member old_pid members
            then (rest >>= λ later.
                ok ((pid, codec.marshal (replace_member old_pid new_pid endpoint members)) ∷ later))
            else rest
      ])
      else rest

  unfoldable pub apply_updates : Assoc Bytes → Assoc FragmentRow → Assoc FragmentRow
  apply_updates [] rows = rows
  apply_updates ((pid, json) ∷ updates) rows = apply_updates updates (elim (lookup pid rows) [
    | none ↦ rows
    | some row ↦ insert pid (record row { members_json = json }) rows
  ])

  unfoldable pub update_sibling : Bytes → Bytes → Bytes → Bytes → Store → Result StoreError Store
  unfolding sibling_updates apply_updates
  update_sibling group_id old_pid new_pid endpoint s = exec s tt >>= λ _.
      sibling_updates group_id old_pid new_pid endpoint s.fragments >>= λ updates.
      ok (record s { fragments = apply_updates updates s.fragments })

  unfoldable pub list_fragment_pids : Store → Result StoreError (List Bytes)
  list_fragment_pids s = exec s (map (λ (r : Bytes × FragmentRow). r.0) s.fragments)

  -- On a conflict, every column but created_at is overwritten.
  unfoldable pub put_manifest : Manifest → ℕ → Store → Result StoreError Store
  put_manifest m now s =
      let kind = if length m.kind == 0 then ascii "secret" else m.kind in
      let created : ℕ = elim (lookup m.secret_name s.manifests) [
        | none ↦ now
        | some old ↦ old.created_at
      ] in
      exec s (record s {
        manifests =
            insert m.secret_name
              (record {
                kind = kind;
                group_id = m.group_id;
                group_token = m.group_token;
                threshold = m.threshold;
                total = m.total;
                members_json = codec.marshal m.members;
                created_at = created;
              })
              s.manifests;
      })

  unfoldable pub read_manifest : Bytes → ManifestRow → Result StoreError Manifest
  read_manifest name row = elim (codec.unmarshal row.members_json) [
    | none ↦ err malformed_json
    | some members ↦ ok (record {
      secret_name = name;
      kind = row.kind;
      group_id = row.group_id;
      group_token = row.group_token;
      threshold = row.threshold;
      total = row.total;
      members = members;
      created_at = row.created_at;
    })
  ]

  unfoldable pub scan_manifest : Store → Option (Bytes × ManifestRow) → Result StoreError Manifest
  unfolding read_manifest
  scan_manifest s none = exec s tt >>= λ _. err not_found
  scan_manifest s (some (name, row)) = exec s tt >>= λ _. read_manifest name row

  unfoldable pub get_manifest : Bytes → Store → Result StoreError Manifest
  unfolding scan_manifest
  get_manifest name s = elim (lookup name s.manifests) [
    | none ↦ scan_manifest s none
    | some row ↦ scan_manifest s (some (name, row))
  ]

  unfoldable pub get_manifest_by_group : Bytes → Store → Result StoreError Manifest
  unfolding scan_manifest
  get_manifest_by_group group_id s =
      scan_manifest s
        (first_row (λ (row : ManifestRow). bytes_eq row.group_id group_id) s.manifests)

  unfoldable pub manifests_of_kind : Bytes → Assoc ManifestRow → Result StoreError (List Manifest)
  unfolding read_manifest
  manifests_of_kind kind [] = ok []
  manifests_of_kind kind ((name, row) ∷ rows) =
      let rest = manifests_of_kind kind rows in
      if bytes_eq row.kind kind
      then (read_manifest name row >>= λ m. rest >>= λ ms. ok (m ∷ ms))
      else rest

  unfoldable pub list_manifests_by_kind : Bytes → Store → Result StoreError (List Manifest)
  unfolding manifests_of_kind
  list_manifests_by_kind kind s = exec s tt >>= λ _. manifests_of_kind kind s.manifests

  unfoldable pub update_manifest_member :
      Bytes → Bytes → Bytes → Bytes → ℕ → Store → Result StoreError Store
  unfolding get_manifest_by_group put_manifest replace_member
  update_manifest_member group_id old_pid new_pid endpoint now s =
      get_manifest_by_group group_id s >>= λ m.
      put_manifest (record m { members = replace_member old_pid new_pid endpoint m.members }) now s

-- On a conflict, added_at is kept.
unfoldable pub put_mesh_peer : MeshPeer → ℕ → Store → Result StoreError Store
put_mesh_peer p now s =
    let added : ℕ = elim (lookup p.name s.mesh_peers) [ none ↦ now | some old ↦ old.added_at ] in
    exec s (record s {
      mesh_peers =
          insert p.name
            (record { endpoint = p.endpoint; wg_public_key = p.wg_public_key; added_at = added })
            s.mesh_peers;
    })

unfoldable pub delete_mesh_peer : Bytes → Store → Result StoreError Store
delete_mesh_peer name s = exec s (record s { mesh_peers = remove name s.mesh_peers })

unfoldable pub list_mesh_peers : Store → Result StoreError (List MeshPeer)
list_mesh_peers s = exec s (
    map
      (λ (r : Bytes × MeshPeerRow). record {
        name = r.0;
        endpoint = r.1.endpoint;
        wg_public_key = r.1.wg_public_key;
        added_at = r.1.added_at;
      })
      s.mesh_peers)
