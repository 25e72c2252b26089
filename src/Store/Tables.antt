-- ===== src/Store/Tables.antt =====
-- The tables of migrate in store/store.go, and the values that its operations take and return.
use genomedb.Base.{ℕ, ◌≡◌, Bool, Option, none, some, List, [], ◌∷◌, All, Bytes, if◌then◌else◌}
use genomedb.Base.Assoc.{Assoc}
use genomedb.Crypto.Aead.{AeadError}

pub record Member : Type 0 where
  pub pid : Bytes
  pub node_id : Bytes
  pub endpoint : Bytes

-- json.Marshal and json.Unmarshal on members. The package documents that strings that are valid
-- UTF-8, which is what `IsText` stands for, come back as they were.
pub record Codec : Type 1 where
  pub IsText : Bytes → Type 0
  pub marshal : List Member → Bytes
  pub unmarshal : Bytes → Option (List Member)
  pub unmarshal-marshal :
      (members : List Member)
      → All (λ (m : Member). IsText m.pid × IsText m.node_id × IsText m.endpoint) members
      → unmarshal (marshal members) ≡ some members

abbrev pub AreText : (codec : Codec) → List Member → Type 0
AreText codec =
    All (λ (m : Member). codec.IsText m.pid × codec.IsText m.node_id × codec.IsText m.endpoint)

pub record Fragment : Type 0 where
  pub pid : Bytes
  pub group_id : Bytes
  pub group_token : Bytes
  pub chain_id : Bytes
  pub epoch : ℕ
  pub threshold : ℕ
  pub total : ℕ
  pub key : Bytes
  pub ciphertext : Bytes
  pub members : List Member
  pub updated_at : ℕ

pub record FragmentRow : Type 0 where
  pub group_id : Bytes
  pub group_token : Bytes
  pub chain_id : Bytes
  pub epoch : ℕ
  pub threshold : ℕ
  pub total : ℕ
  pub wrapped_key : Bytes
  pub ciphertext : Bytes
  pub members_json : Bytes
  pub updated_at : ℕ

pub record Manifest : Type 0 where
  pub secret_name : Bytes
  pub kind : Bytes
  pub group_id : Bytes
  pub group_token : Bytes
  pub threshold : ℕ
  pub total : ℕ
  pub members : List Member
  pub created_at : ℕ

pub record ManifestRow : Type 0 where
  pub kind : Bytes
  pub group_id : Bytes
  pub group_token : Bytes
  pub threshold : ℕ
  pub total : ℕ
  pub members_json : Bytes
  pub created_at : ℕ

pub record MeshPeer : Type 0 where
  pub name : Bytes
  pub endpoint : Bytes
  pub wg_public_key : Bytes
  pub added_at : ℕ

pub record MeshPeerRow : Type 0 where
  pub endpoint : Bytes
  pub wg_public_key : Bytes
  pub added_at : ℕ

pub record Store : Type 0 where
  pub storage_key : Bytes
  pub closed : Bool
  pub fragments : Assoc FragmentRow
  pub manifests : Assoc ManifestRow
  pub mesh_peers : Assoc MeshPeerRow

pub data StoreError : Type 0 where
  closed_database not_found malformed_json unsupported_value : StoreError
  sealing : AeadError → StoreError

-- The first row with a property.
unfoldable pub first_row : {V : Type 0} → (V → Bool) → Assoc V → Option (Bytes × V)
first_row p [] = none
first_row p ((k, v) ∷ rows) = let rest = first_row p rows in if p v then some (k, v) else rest
