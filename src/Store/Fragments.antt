-- ===== src/Store/Fragments.antt =====
-- What the operations on fragments of store/store.go promise to each other.
use genomedb.Base.{
  leb, ◌^◌, ℕ, ◌≡◌, ◌≢◌, sym, ap, ◌∙◌, false, none, some, List, arith, if◌then◌else◌, Bytes,
  bytes_eq, bytes_eq_iff, bytes_eq_refl, Entropy, ok, err, Result-cases, Bool-cases, inl, inr,
}
use genomedb.Base.Assoc.{lookup, insert, remove, lookup-insert, lookup-remove}
use genomedb.Crypto.Aead.{Gcm, encrypt, decrypt}
use genomedb.Crypto.Aead.Laws.{decrypt-encrypt}
use genomedb.Store.Tables.{Member, Codec, AreText, Fragment, FragmentRow, Store, not_found}
use genomedb.Store.{key_context, put_fragment, get_fragment, scan_fragment, delete_fragment}

pub bytes_eq-false : (s t : Bytes) → s ≢ t → bytes_eq s t ≡ false
bytes_eq-false s t h = elim (Bool-cases (bytes_eq s t)) [
  | inl same ↦ absurd (h ((bytes_eq_iff s t).0 same))
  | inr other ↦ other
]

module _ (gcm : Gcm) (codec : Codec) where
  abbrev pub row_of : Fragment → Bytes → ℕ → FragmentRow
  row_of f wrapped now = record {
    group_id = f.group_id;
    group_token = f.group_token;
    chain_id = f.chain_id;
    epoch = f.epoch;
    threshold = f.threshold;
    total = f.total;
    wrapped_key = wrapped;
    ciphertext = f.ciphertext;
    members_json = codec.marshal f.members;
    updated_at = now;
  }

  -- What a row reads as, once its key and its members are known.
  abbrev pub fragment_of : Bytes → FragmentRow → Bytes → List Member → Fragment
  fragment_of pid row key members = record {
    pid = pid;
    group_id = row.group_id;
    group_token = row.group_token;
    chain_id = row.chain_id;
    epoch = row.epoch;
    threshold = row.threshold;
    total = row.total;
    key = key;
    ciphertext = row.ciphertext;
    members = members;
    updated_at = row.updated_at;
  }

  module _ (e : Entropy) where
    pub put_fragment_lem :
        (f : Fragment) (now : ℕ) (s s' : Store) (src src' : e.Source)
        → put_fragment gcm codec e f now s src ≡ ok (s', src')
        → (wrapped : Bytes) × (encrypt gcm e s.storage_key f.key (key_context f.pid) src
            ≡ ok (wrapped, src'))
          × (s.closed ≡ false)
          × (s' ≡ record s { fragments = insert f.pid (row_of f wrapped now) s.fragments })
    unfolding put_fragment
    put_fragment_lem f now s s' src src' run =
        elim (Result-cases (encrypt gcm e s.storage_key f.key (key_context f.pid) src)) [
          | inl (failure, failed) ↦ cc (rw (put_fragment, failed) at run)
          | inr ((wrapped, next), sealed) ↦ elim (Bool-cases (leb (2 ^ 63) f.epoch)) [
            | inl large ↦ cc (rw (put_fragment, sealed, large) at run)
            | inr fits ↦ elim (Bool-cases s.closed) [
              | inl closed ↦ cc (rw (put_fragment, sealed, fits, closed) at run)
              | inr is_open ↦ (wrapped, ground arith, is_open, ground arith)
            ]
          ]
        ]

  scan_fragment_lem :
      (s : Store) (pid : Bytes) (row : FragmentRow) (key : Bytes) (members : List Member)
      → s.closed ≡ false
      → decrypt gcm s.storage_key row.wrapped_key (key_context pid) ≡ ok key
      → codec.unmarshal row.members_json ≡ some members
      → lookup pid s.fragments ≡ some row
      → get_fragment gcm codec pid s ≡ ok (fragment_of pid row key members)
  unfolding get_fragment scan_fragment
  scan_fragment_lem s pid row key members is_open opened parsed found =
      rw (get_fragment, found, scan_fragment, is_open, opened, parsed)

  module _ (e : Entropy) where
    -- A fragment that was put is got back under its pseudonym as it was, with its key, stamped with
    -- the time of the put, if its members hold text.
    pub get_fragment-put_fragment :
        (f : Fragment) (now : ℕ) (s s' : Store) (src src' : e.Source)
        → AreText codec f.members
        → put_fragment gcm codec e f now s src ≡ ok (s', src')
        → get_fragment gcm codec f.pid s' ≡ ok (record f { updated_at = now })
    get_fragment-put_fragment f now s s' src src' text run =
        let (wrapped, sealed, is_open, stored) = put_fragment_lem e f now s s' src src' run in
        ap (get_fragment gcm codec f.pid) stored
        ∙ scan_fragment_lem
            (record s { fragments = insert f.pid (row_of f wrapped now) s.fragments }) f.pid
            (row_of f wrapped now) f.key f.members is_open
            (decrypt-encrypt gcm e s.storage_key f.key (key_context f.pid) wrapped src src' sealed)
            (codec.unmarshal-marshal f.members text)
            (lookup-insert f.pid f.pid (row_of f wrapped now) s.fragments
              ∙ ap (λ c. if c then some (row_of f wrapped now) else lookup f.pid s.fragments)
                  (bytes_eq_refl f.pid))

  -- What is read under a pseudonym depends on the table's row, the key and the handle alone.
  get_fragment-same :
      (pid : Bytes) (s : Store) (rows : List (Bytes × FragmentRow))
      → lookup pid rows ≡ lookup pid s.fragments
      → get_fragment gcm codec pid (record s { fragments = rows }) ≡ get_fragment gcm codec pid s
  unfolding get_fragment scan_fragment
  get_fragment-same pid s rows same = rw (get_fragment, same, scan_fragment)

  get_fragment-missing :
      (pid : Bytes) (s : Store)
      → s.closed ≡ false
      → lookup pid s.fragments ≡ none
      → get_fragment gcm codec pid s ≡ err not_found
  unfolding get_fragment scan_fragment
  get_fragment-missing pid s is_open missing = rw (get_fragment, missing, scan_fragment, is_open)

  module _ (e : Entropy) where
    -- A put changes what is read under no pseudonym but its own.
    pub get_fragment-put_fragment_other :
        (f : Fragment) (pid : Bytes) (now : ℕ) (s s' : Store) (src src' : e.Source)
        → f.pid ≢ pid
        → put_fragment gcm codec e f now s src ≡ ok (s', src')
        → get_fragment gcm codec pid s' ≡ get_fragment gcm codec pid s
    get_fragment-put_fragment_other f pid now s s' src src' other run =
        let (wrapped, sealed, is_open, stored) = put_fragment_lem e f now s s' src src' run in
        ap (get_fragment gcm codec pid) stored
        ∙ get_fragment-same pid s (insert f.pid (row_of f wrapped now) s.fragments) (
            lookup-insert f.pid pid (row_of f wrapped now) s.fragments
            ∙ ap (λ c. if c then some (row_of f wrapped now) else lookup pid s.fragments)
                (bytes_eq-false f.pid pid other))

  delete_fragment_lem :
      (pid : Bytes) (s s' : Store)
      → delete_fragment gcm codec pid s ≡ ok s'
      → (s.closed ≡ false) × (s' ≡ record s { fragments = remove pid s.fragments })
  unfolding delete_fragment
  delete_fragment_lem pid s s' run = ground arith

  -- After a fragment is deleted, its pseudonym is not found, and every other one reads as before.
  pub get_fragment-delete_fragment :
      (pid j : Bytes) (s s' : Store)
      → delete_fragment gcm codec pid s ≡ ok s'
      → get_fragment gcm codec j s'
        ≡ (if bytes_eq pid j then err not_found else get_fragment gcm codec j s)
  get_fragment-delete_fragment pid j s s' run =
      let (is_open, removed) = delete_fragment_lem pid s s' run in
      let rows = remove pid s.fragments in
      ap (get_fragment gcm codec j) removed ∙ elim (Bool-cases (bytes_eq pid j)) [
        | inl this ↦
            get_fragment-missing j (record s { fragments = rows }) is_open
              (lookup-remove pid j s.fragments
                ∙ ap (λ c. if c then none else lookup j s.fragments) this)
            ∙ ap (λ c. if c then err not_found else get_fragment gcm codec j s) (sym this)
        | inr other ↦
            get_fragment-same j s rows (
              lookup-remove pid j s.fragments
              ∙ ap (λ c. if c then none else lookup j s.fragments) other)
            ∙ ap (λ c. if c then err not_found else get_fragment gcm codec j s) (sym other)
      ]
