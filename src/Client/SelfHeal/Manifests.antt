-- ===== src/Client/SelfHeal/Manifests.antt =====
-- What a round of client/selfheal.go does to the table of manifests.
use genomedb.Base.{
  ◌≡◌, refl, ap, ap₂, sym, subst, ◌∙◌, inl, inr, ℕ, ◌-◌, ltb, Bool, true, false, Option, none, some,
  List, Bytes, bytes_eq, bytes_eq_iff, ascii, ok, Result-cases, Bool-cases, if◌then◌else◌,
}
use genomedb.Base.Assoc.{Assoc, lookup, lookup-insert}
use genomedb.Crypto.Aead.{Gcm}
use genomedb.Crypto.Shamir.{Share}
use genomedb.Store.{put_manifest}
use genomedb.Store.Keys.{IsTable, insert-IsTable}
use genomedb.Store.Manifests.{kind_or_secret, row_of, put_manifest_lem}
use genomedb.Client.Split.Success.{manifest_of}
use genomedb.Store.Tables.{Codec, Manifest, ManifestRow, Store}
use genomedb.Transport.{Http, Json}
use genomedb.Client.Node.{Packages, total_too_small}
use genomedb.Client.World.{World, Action, random_name, ◌>>=◌, fail, wrapped, put_store}
use genomedb.Client.World.Rules.{Within, Within-bind}
use genomedb.Client.Split.{
  Group, reachable_peers, split_shares, name_holders, keep_and_hand_over, record_manifest,
  share_out, split_over_peers, split_secret,
}
use genomedb.Client.Split.Keeps.{
  SameManifests, random_name-Keeps, fail-Keeps, split_shares-Keeps, keep_and_hand_over-Keeps,
  name_holders-Keeps, reachable_peers-Keeps,
}

-- What a repair may not change of a row: whether it is there, its threshold and its kind.
abbrev pub promise : Option ManifestRow → Option (ℕ × Bytes)
promise none = none
promise (some row) = some (row.threshold, row.kind)

module _ (gcm : Gcm) (codec : Codec) where
  -- A manifest that makes the promise of its name again keeps every promise.
  put_manifest-promise :
      (m : Manifest) (now : ℕ) (s s' : Store)
      → put_manifest gcm codec m now s ≡ ok s'
      → promise (lookup m.secret_name s.manifests)
        ≡ some (m.threshold, kind_or_secret gcm codec m.kind)
      → (j : Bytes) → promise (lookup j s'.manifests) ≡ promise (lookup j s.manifests)
  put_manifest-promise m now s s' run before j =
      let stored = (put_manifest_lem gcm codec m now s s' run).1 in
      let row = row_of gcm codec m now s in
      let found = lookup-insert m.secret_name j row s.manifests in
      ap (λ (t : Store). promise (lookup j t.manifests)) stored
      ∙ ap promise found
      ∙ elim (Bool-cases (bytes_eq m.secret_name j)) [
        | inl this ↦
            let same : m.secret_name ≡ j = (bytes_eq_iff m.secret_name j).0 this in
            rw (this) (sym before ∙ ap (λ (t : Bytes). promise (lookup t s.manifests)) same)
        | inr other ↦ rw (other)
      ]

  put_manifest-IsTable :
      (m : Manifest) (now : ℕ) (s s' : Store)
      → put_manifest gcm codec m now s ≡ ok s'
      → IsTable s.manifests
      → IsTable s'.manifests
  put_manifest-IsTable m now s s' run table =
      let stored = (put_manifest_lem gcm codec m now s s' run).1 in
      subst (λ (t : Store). IsTable t.manifests) (sym stored)
        (insert-IsTable m.secret_name (row_of gcm codec m now s) s.manifests table)

module _ (p : Packages) (h : Http) (json : Json) where
  abbrev pub Here : Type 0
  Here = World p.entropy.Source h.State

  abbrev pub promised : Bytes → Here → Option (ℕ × Bytes)
  promised name w = promise (lookup name w.node.store.manifests)

  -- Every promise is kept, if this one was there before.
  unfoldable pub KeepsPromises : Bytes → ℕ → Bytes → Here → Here → Type 0
  KeepsPromises name threshold kind u v =
      promised name u ≡ some (threshold, kind)
      → ((j : Bytes) → promised j v ≡ promised j u)
        × (IsTable u.node.store.manifests → IsTable v.node.store.manifests)

  pub KeepsPromises-trans :
      (name : Bytes) (threshold : ℕ) (kind : Bytes) (u v w : Here)
      → KeepsPromises name threshold kind u v
      → KeepsPromises name threshold kind v w
      → KeepsPromises name threshold kind u w
  unfolding KeepsPromises
  KeepsPromises-trans name threshold kind u v w one two before =
      let (kept, table) = one before in
      let (kept', table') = two (kept name ∙ before) in
      (λ j. kept' j ∙ kept j, λ t. table' (table t))

  module _ (name : Bytes) (threshold : ℕ) (kind : Bytes) where
    abbrev pub Safe : {A : Type 0} → Action p h json A → Type 0
    Safe m = Within (KeepsPromises name threshold kind) (KeepsPromises-trans name threshold kind) m

    abbrev pub Then :
        {A C : Type 0} (m : Action p h json A) (next : A → Action p h json C)
        → Safe m
        → ((a : A) → Safe (next a))
        → Safe (m >>= next)
    Then m next =
        Within-bind (KeepsPromises name threshold kind) (KeepsPromises-trans name threshold kind) m
          next

    pub same-Safe :
        {A : Type 0} (m : Action p h json A)
        → ((w : Here) → SameManifests p h json w (m w).1)
        → Safe m
    unfolding KeepsPromises SameManifests
    same-Safe m same w before = (
      λ j. ap (λ (t : Assoc ManifestRow). promise (lookup j t)) (same w),
      subst (λ (t : Assoc ManifestRow). IsTable t) (sym (same w)),
    )

    pub if-Safe :
        {A : Type 0} (b : Bool) (m m' : Action p h json A)
        → Safe m
        → Safe m'
        → Safe (if b then m else m')
    if-Safe true m m' one other = one
    if-Safe false m m' one other = other

    pub record_manifest-Safe :
        (g : Group)
        → g.threshold ≡ threshold
        → kind_or_secret p.gcm p.codec kind ≡ kind
        → Safe (record_manifest p h json name kind g)
    unfolding record_manifest KeepsPromises put_store wrapped ◌>>=◌
    record_manifest-Safe g same same_kind w before =
        let m = manifest_of p h json name kind g in
        elim (Result-cases (put_manifest p.gcm p.codec m w.now w.node.store)) [
          | inl (e, failed) ↦ rw (record_manifest, failed) (λ j. refl, λ t. t)
          | inr (s, done) ↦
              rw (record_manifest, done)
                (
                  put_manifest-promise p.gcm p.codec m w.now w.node.store s done (
                      before ∙ ap₂ (λ (t : ℕ) (k : Bytes). some (t, k)) (sym same) (sym same_kind)),
                  put_manifest-IsTable p.gcm p.codec m w.now w.node.store s done,
                )
        ]

  module _ (name : Bytes) (threshold : ℕ) where
    abbrev SafeSecret : {A : Type 0} → Action p h json A → Type 0
    SafeSecret m = Safe name threshold (ascii "secret") m

    abbrev step :
        {A C : Type 0} (m : Action p h json A) (next : A → Action p h json C)
        → SafeSecret m
        → ((a : A) → SafeSecret (next a))
        → SafeSecret (m >>= next)
    step = Then name threshold (ascii "secret")

    keep :
        {A : Type 0} (m : Action p h json A)
        → ((w : Here) → SameManifests p h json w (m w).1)
        → SafeSecret m
    keep m same = same-Safe name threshold (ascii "secret") m same

    share_out-Safe :
        (g : Group) (shares : List Share)
        → g.threshold ≡ threshold
        → SafeSecret (share_out p h json name g shares)
    unfolding share_out
    share_out-Safe g shares same =
        step _ _
          (keep (keep_and_hand_over p h json g g.members shares)
            (keep_and_hand_over-Keeps p h json g g.members shares))
          λ sent. record_manifest-Safe name threshold (ascii "secret") g same refl

    split_over_peers-Safe :
        (content : Bytes) (total : ℕ)
        → SafeSecret (split_over_peers p h json name content threshold total)
    unfolding split_over_peers
    split_over_peers-Safe content total w =
        (step _ _ (keep (reachable_peers p h json (total - 1)) (reachable_peers-Keeps p h json _))
            λ peers.
              step _ _
                (keep (split_shares p h json content total threshold)
                  (split_shares-Keeps p h json _ _ _))
                λ shares.
                  step _ _ (keep (random_name p h json 16) (random_name-Keeps p h json 16))
                    λ group_id.
                      step _ _ (keep (random_name p h json 32) (random_name-Keeps p h json 32))
                        λ group_token.
                          step _ _ (keep (random_name p h json 16) (random_name-Keeps p h json 16))
                            λ own_pid.
                              step _ _
                                (keep (name_holders p h json peers)
                                  (name_holders-Keeps p h json peers))
                                λ others. share_out-Safe _ shares refl)
          w

    pub split_secret-Safe :
        (content : Bytes) (total : ℕ)
        → SafeSecret (split_secret p h json name content threshold total)
    unfolding split_secret
    split_secret-Safe content total =
        if-Safe name threshold (ascii "secret") (ltb total 2) (fail total_too_small)
          (split_over_peers p h json name content threshold total)
          (keep (fail total_too_small) (fail-Keeps p h json _ total_too_small))
          (split_over_peers-Safe content total)
