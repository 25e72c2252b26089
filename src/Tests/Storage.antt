-- ===== src/Tests/Storage.antt =====
-- The theorems about store/, client/node.go and client/peerserver.go at concrete inputs.
use genomedb.Base.{
  ◌<◌, ◌+◌, some, ℕ, ◌≡◌, ◌≢◌, refl, ap, false, List, [], ◌∷◌, ◌++◌, arith, Bytes, bytes_eq, ascii,
  replicate, length, Result, ok, err,
}
use genomedb.Base.Assoc.{lookup, insert}
use genomedb.Crypto.Aead.{encrypt, decrypt}
use genomedb.Crypto.Ratchet.{next_pseudo_id, advance}
use genomedb.Store.Tables.{Member, Fragment, FragmentRow, Manifest, Store, not_found, first_row}
use genomedb.Store.{
  put_fragment, get_fragment, delete_fragment, put_manifest, scan_fragment, get_fragment_by_group,
}
use genomedb.Store.Fragments.{get_fragment-put_fragment}
use genomedb.Client.Node.{
  announce, register_new_fragment, ColdChain, consume, chain_exhausted, Node, NodeError, Call,
  apply_mutation, content_context,
}
use genomedb.Client.Mutation.{Rotated, apply_mutation_lem}
use genomedb.Client.ColdChains.{consume-register_new_fragment}
use genomedb.Store.{get_manifest}
use genomedb.Store.Manifests.{get_manifest-put_manifest}
use genomedb.Crypto.HashChain.{build_chain}
use genomedb.Crypto.HashChain.Laws.{iterate}
use genomedb.Client.PeerServer.{fetch_share, share}
use genomedb.Client.PeerServer.Tokens.{fetch_share_lem}
use genomedb.Tests.Parameters.{counter, toy_gcm, toy_codec, toy_hash, toy_kdf, toy_packages}

abbrev sibling : Member
sibling = record { pid = ascii "q"; node_id = ascii "b"; endpoint = ascii "e" }

abbrev held : Fragment
held = record {
  pid = ascii "p";
  group_id = ascii "g";
  group_token = ascii "t";
  chain_id = ascii "c";
  epoch = 4;
  threshold = 2;
  total = 3;
  key = replicate 32 9;
  ciphertext = replicate 12 7 ++ (1 ∷ 2 ∷ []);
  members = sibling ∷ [];
  updated_at = 0;
}

abbrev row : FragmentRow
row = record {
  group_id = ascii "g";
  group_token = ascii "t";
  chain_id = ascii "c";
  epoch = 4;
  threshold = 2;
  total = 3;
  wrapped_key = replicate 12 7 ++ replicate 32 9;
  ciphertext = replicate 12 7 ++ (1 ∷ 2 ∷ []);
  members_json = ascii "qbe";
  updated_at = 100;
}

abbrev empty_store : Store
empty_store = record {
  storage_key = replicate 32 5;
  closed = false;
  fragments = [];
  manifests = [];
  mesh_peers = [];
}

abbrev full_store : Store
full_store = record empty_store { fragments = (ascii "p", row) ∷ [] }

was_put : put_fragment toy_gcm toy_codec counter held 100 empty_store 0 ≡ ok (full_store, 1)
unfolding put_fragment encrypt insert
was_put = refl

get_fragment-put_fragment_example :
    get_fragment toy_gcm toy_codec (ascii "p") full_store ≡ ok (record held { updated_at = 100 })
get_fragment-put_fragment_example =
    get_fragment-put_fragment toy_gcm toy_codec counter held 100 empty_store full_store 0 1
      (((113, refl), (98, refl), (101, refl)), tt) was_put

abbrev manifest : Manifest
manifest = record {
  secret_name = ascii "s";
  kind = [];
  group_id = ascii "g";
  group_token = ascii "t";
  threshold = 2;
  total = 3;
  members = sibling ∷ [];
  created_at = 0;
}

abbrev owner_store : Store
owner_store = record empty_store {
  manifests =
      (
        ascii "s",
        record {
          kind = ascii "secret";
          group_id = ascii "g";
          group_token = ascii "t";
          threshold = 2;
          total = 3;
          members_json = ascii "qbe";
          created_at = 50;
        },
      )
      ∷ [];
}

manifest_was_put : put_manifest toy_gcm toy_codec manifest 50 empty_store ≡ ok owner_store
unfolding put_manifest insert lookup
manifest_was_put = refl

get_manifest-put_manifest_example :
    get_manifest toy_gcm toy_codec (ascii "s") owner_store
    ≡ ok (record manifest { kind = ascii "secret"; created_at = 50 })
unfolding lookup
get_manifest-put_manifest_example =
    get_manifest-put_manifest toy_gcm toy_codec manifest 50 empty_store owner_store
      (((113, refl), (98, refl), (101, refl)), tt) manifest_was_put

found_group :
    get_fragment_by_group toy_gcm toy_codec (ascii "g") full_store
    ≡ ok (record held { updated_at = 100 })
unfolding get_fragment_by_group scan_fragment first_row decrypt bytes_eq
found_group = refl

fetched :
    fetch_share toy_packages (ascii "g") (ascii "t") full_store
    ≡ share (record { share = 1 ∷ 2 ∷ []; epoch = 4 })
unfolding fetch_share get_fragment_by_group scan_fragment first_row decrypt bytes_eq
fetched = refl

fetch_share_lem_example :
    (frag : Fragment) × (get_fragment_by_group toy_gcm toy_codec (ascii "g") full_store ≡ ok frag)
    × (ascii "t" ≡ frag.group_token)
    × (decrypt toy_gcm frag.key frag.ciphertext (content_context frag.group_id frag.pid)
        ≡ ok (1 ∷ 2 ∷ []))
    × (4 ≡ frag.epoch)
fetch_share_lem_example =
    fetch_share_lem toy_packages (ascii "g") (ascii "t") full_store
      (record { share = 1 ∷ 2 ∷ []; epoch = 4 }) fetched

abbrev node : Node ℕ
node = record {
  node_id = ascii "a";
  endpoint = ascii "h";
  root = replicate 32 4;
  orchestrator_url = ascii "o";
  db_path = [];
  store = full_store;
  chains = [];
  source = 1;
}

abbrev calls_of : Result NodeError (List Call) → List Call
calls_of (ok calls) = calls
calls_of (err e) = []

abbrev mutated : Result NodeError (List Call) × Node ℕ
mutated = apply_mutation toy_packages (ascii "p") (1 ∷ []) (ascii "scheduled") 200 node

found :
    get_fragment toy_gcm toy_codec (ascii "p") full_store ≡ ok (record held { updated_at = 100 })
found =
    get_fragment-put_fragment toy_gcm toy_codec counter held 100 empty_store full_store 0 1
      (((113, refl), (98, refl), (101, refl)), tt) was_put

has_mutated : mutated ≡ (ok (calls_of mutated.0), mutated.1)
unfolding apply_mutation get_fragment lookup bytes_eq decrypt advance encrypt put_fragment
    delete_fragment
has_mutated = refl

renamed : next_pseudo_id toy_kdf (ascii "p") (1 ∷ []) ≢ ascii "p"
unfolding next_pseudo_id
renamed e = omega (arith, ap (λ (b : Bytes). length b) e)

apply_mutation_lem_example :
    (new : Fragment) × (get_fragment toy_gcm toy_codec
        (next_pseudo_id toy_kdf (ascii "p") (1 ∷ []))
        mutated.1.store
      ≡ ok new)
    × Rotated toy_packages (record held { updated_at = 100 }) new (ascii "p") (1 ∷ [])
    × (get_fragment toy_gcm toy_codec (ascii "p") mutated.1.store ≡ err not_found)
apply_mutation_lem_example =
    apply_mutation_lem toy_packages (ascii "p") (1 ∷ []) (ascii "scheduled") 200 node mutated.1
      (calls_of mutated.0) (record held { updated_at = 100 }) found
      (((113, refl), (98, refl), (101, refl)), tt) renamed has_mutated

abbrev registered : Result NodeError (List Call) × Node ℕ
registered = register_new_fragment toy_packages (ascii "p") (ascii "c") node

has_registered : registered ≡ (ok (calls_of registered.0), registered.1)
unfolding register_new_fragment build_chain insert
has_registered = refl

consume-register_new_fragment_example :
    (tip : Bytes) × (after : ℕ → ColdChain) × (calls_of registered.0
      ≡ announce (record {
        node_id = node.node_id;
        pid = ascii "p";
        endpoint = node.endpoint;
        chain_id = ascii "c";
        chain_tip = tip;
      })
        ∷ [])
    × (lookup (ascii "c") registered.1.chains ≡ some (after 0))
    × ((i : ℕ) → i < 64 → consume (after i) ≡ ok (iterate toy_hash (i + 1) tip, after (i + 1)))
    × (consume (after 64) ≡ err chain_exhausted)
consume-register_new_fragment_example =
    consume-register_new_fragment toy_packages (ascii "p") (ascii "c") node registered.1
      (calls_of registered.0) has_registered
