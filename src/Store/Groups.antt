-- ===== src/Store/Groups.antt =====
-- The fragment of a group in store/store.go.
use genomedb.Base.{
  ℕ, ◌≡◌, ap, ◌∙◌, Bool, true, false, none, some, List, [], ◌∷◌, arith, Bytes, bytes_eq,
  bytes_eq_refl, Entropy, ok,
}
use genomedb.Base.Assoc.{Assoc, insert}
use genomedb.Crypto.Aead.{Gcm, decrypt}
use genomedb.Crypto.Aead.Laws.{decrypt-encrypt}
use genomedb.Store.Tables.{Codec, AreText, Fragment, FragmentRow, Store, Member, first_row}
use genomedb.Store.{key_context, put_fragment, scan_fragment, get_fragment_by_group}
use genomedb.Store.Fragments.{row_of, fragment_of, put_fragment_lem}

-- The only row that a test takes is the one that was put.
first_row-insert :
    {V : Type 0} (test : V → Bool) (k : Bytes) (v : V) (rows : Assoc V)
    → test v ≡ true
    → first_row test rows ≡ none
    → first_row test (insert k v rows) ≡ some (k, v)
unfolding first_row insert
first_row-insert test k v [] good no_other = rw (first_row, good)
first_row-insert test k v ((j, w) ∷ rows) good no_other =
    ground (arith, first_row-insert test k v rows)

abbrev pub of_group : Bytes → FragmentRow → Bool
of_group group_id row = bytes_eq row.group_id group_id

module _ (gcm : Gcm) (codec : Codec) where
  scan_fragment_row :
      (s : Store) (pid : Bytes) (row : FragmentRow) (key : Bytes) (members : List Member)
      → s.closed ≡ false
      → decrypt gcm s.storage_key row.wrapped_key (key_context pid) ≡ ok key
      → codec.unmarshal row.members_json ≡ some members
      → scan_fragment gcm codec s (some (pid, row)) ≡ ok (fragment_of gcm codec pid row key members)
  unfolding scan_fragment
  scan_fragment_row s pid row key members is_open opened parsed =
      rw (scan_fragment, is_open, opened, parsed)

  module _ (e : Entropy) where
    -- The first fragment of a group that is put is the one that is found for the group.
    pub get_fragment_by_group-put_fragment :
        (f : Fragment) (now : ℕ) (s s' : Store) (src src' : e.Source)
        → AreText codec f.members
        → first_row (of_group f.group_id) s.fragments ≡ none
        → put_fragment gcm codec e f now s src ≡ ok (s', src')
        → get_fragment_by_group gcm codec f.group_id s' ≡ ok (record f { updated_at = now })
    unfolding get_fragment_by_group
    get_fragment_by_group-put_fragment f now s s' src src' text new run =
        let (wrapped, sealed, is_open, stored) =
          put_fragment_lem gcm codec e f now s s' src src' run in
        let row = row_of gcm codec f wrapped now in
        let after : Store = record s { fragments = insert f.pid row s.fragments } in
        ap (get_fragment_by_group gcm codec f.group_id) stored
        ∙ ap (λ r. scan_fragment gcm codec after r)
            (first_row-insert (of_group f.group_id) f.pid row s.fragments (bytes_eq_refl f.group_id)
              new)
        ∙ scan_fragment_row after f.pid row f.key f.members is_open
            (decrypt-encrypt gcm e s.storage_key f.key (key_context f.pid) wrapped src src' sealed)
            (codec.unmarshal-marshal f.members text)
