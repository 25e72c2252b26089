-- ===== src/Client/Split/Success.antt =====
-- A split of client/split.go that succeeds.
use genomedb.Base.{
  ◌≡◌, refl, ap, ap₂, sym, subst, ◌∙◌, ℕ, suc, ◌-◌, ◌≤◌, List, [], ◌∷◌, length, ltb, Bytes,
  bytes_eq, ascii, All, Result, ok, arith, Result-cases, false, Bool-cases, inl, inr,
}
use genomedb.Crypto.Shamir.{Share, split}
use genomedb.Protocol.{NodeInfo}
use genomedb.Store.{put_manifest}
use genomedb.Store.Tables.{Store, Member, Manifest}
use genomedb.Transport.{Http, Json}
use genomedb.Client.Node.{Packages, NodeError, cannot_store, out_of_range}
use genomedb.Client.World.{World, ◌>>◌, fail, put_store}
use genomedb.Client.World.Rules.{
  Ensures, Ensures-bind, returned, wrapped_lem, pure-Ensures, fail-Ensures,
}
use genomedb.Client.Split.{
  Group, name_holders, split_shares, keep_share, keep_and_hand_over, record_manifest, share_out,
  split_over_peers, split_secret,
}
use genomedb.Client.Split.Steps.{Delivered, OnlyDrew, hand_over_all_lem}
use genomedb.Client.Split.Own.{Kept, SameStore, random_name_lem, keep_share_lem}
use genomedb.Client.Split.Peers.{Others, reachable_peers_lem}

module _ (p : Packages) (h : Http) (json : Json) where
  abbrev Here : Type 0
  Here = World p.entropy.Source h.State

  abbrev pub manifest_of : Bytes → Bytes → Group → Manifest
  manifest_of secret_name kind g = record {
    secret_name = secret_name;
    kind = kind;
    group_id = g.group_id;
    group_token = g.group_token;
    threshold = g.threshold;
    total = g.total;
    members = g.members;
    created_at = 0;
  }

  -- The first share is kept, the others are delivered in order, and then the manifest is put.
  abbrev pub SharedOut : Bytes → Group → List Share → Here → Here → Type 0
  SharedOut secret_name g shares w v =
      (own : Member) × (others : List Member) × (share : Share) × (rest : List Share) × (s : Store)
      × (g.members ≡ own ∷ others)
      × (shares ≡ share ∷ rest)
      × Kept p h json g own share w s
      × Delivered p h json g others rest (keep_share p h json g own share w).1.net v.net
      × (put_manifest p.gcm p.codec (manifest_of secret_name (ascii "secret") g) w.now s
          ≡ ok v.node.store)

  record_manifest_lem :
      (secret_name kind : Bytes) (g : Group) (w : Here)
      → Ensures (record_manifest p h json secret_name kind g) w (λ u v.
        (put_manifest p.gcm p.codec (manifest_of secret_name kind g) w.now w.node.store
          ≡ ok v.node.store)
        × (v.net ≡ w.net))
  unfolding record_manifest put_store
  record_manifest_lem secret_name kind g w =
      Ensures-bind _ _ w _ _ (wrapped_lem cannot_store _ w) λ s w1 (stored, same) u v run.
        let ends : ◌≡◌ {A = Result NodeError (Unit {0}) × Here}
            (ok tt, record w1 { node = record w1.node { store = s } }) (ok u, v) =
          run in
        (
          stored ∙ ap (λ r. ok r.1.node.store) ends,
          sym (ap (λ r. r.1.net) ends) ∙ ap (λ (z : Here). z.net) same,
        )

  share_out_lem :
      (secret_name : Bytes) (g : Group) (members : List Member) (shares : List Share) (w : Here)
      → g.members ≡ members
      → Ensures
          (keep_and_hand_over p h json g members shares
            >> record_manifest p h json secret_name (ascii "secret") g)
          w
          (λ u v. SharedOut secret_name g shares w v)
  unfolding keep_and_hand_over
  share_out_lem secret_name g [] shares w same = fail-Ensures out_of_range _ w _
  share_out_lem secret_name g (own ∷ others) [] w same = fail-Ensures out_of_range _ w _
  share_out_lem secret_name g (own ∷ others) (share ∷ shares) w same =
      Ensures-bind _ _ w _ _
        (Ensures-bind _ _ w
          (λ (u : Unit {0}) v.
            (Kept p h json g own share w v.node.store × (v.now ≡ w.now))
            × (v.net ≡ (keep_share p h json g own share w).1.net))
          (λ (u : Unit {0}) v.
            (s : Store) × Kept p h json g own share w s
            × Delivered p h json g others shares (keep_share p h json g own share w).1.net v.net
            × (v.node.store ≡ s)
            × (v.now ≡ w.now))
          (λ kept w1 run.
            (keep_share_lem p h json g own share w kept w1 run, sym (ap (λ r. r.1.net) run)))
          λ kept w1 ((held, now1), after) u v run.
            let (sent, store, now) = hand_over_all_lem p h json g others shares w1 u v run in
            (
              w1.node.store,
              held,
              subst (λ (t : h.State). Delivered p h json g others shares t v.net) after sent,
              store,
              now ∙ now1,
            ))
        λ u w1 (s, held, sent, store, now) u' v run.
          let (put, same_net) = record_manifest_lem secret_name (ascii "secret") g w1 u' v run in
          (
            own,
            others,
            share,
            shares,
            s,
            same,
            refl,
            held,
            subst
                (λ (t : h.State).
                  Delivered p h json g others shares (keep_share p h json g own share w).1.net t)
                (sym same_net) sent,
            ap₂
                  (λ (t : ℕ) (z : Store).
                    put_manifest p.gcm p.codec (manifest_of secret_name (ascii "secret") g) t z)
                  (sym now) (sym store)
                ∙ put,
          )

  pub share_out-SharedOut :
      (secret_name : Bytes) (g : Group) (shares : List Share) (w v : Here)
      → share_out p h json secret_name g shares w ≡ (ok tt, v)
      → SharedOut secret_name g shares w v
  unfolding share_out
  share_out-SharedOut secret_name g shares w v run =
      share_out_lem secret_name g g.members shares w refl tt v run

  name_holders_lem :
      (peers : List NodeInfo) (node_id : Bytes) (w : Here)
      → Others p h json node_id peers
      → Ensures (name_holders p h json peers) w (λ ms v.
        (length ms ≡ length peers)
        × All (λ (m : Member). bytes_eq m.node_id node_id ≡ false) ms
        × OnlyDrew p h json w v)
  unfolding name_holders
  name_holders_lem [] node_id w others = pure-Ensures [] w _ (refl, tt, (refl, refl, refl))
  name_holders_lem (peer ∷ peers) node_id w others =
      Ensures-bind _ _ w _ _ (random_name_lem p h json 16 w) λ pid w1 drew1.
        Ensures-bind _ _ w1 _ _ (name_holders_lem peers node_id w1 others.1)
          λ ms w2 (len, differ, drew2). pure-Ensures _ w2 _ (
            ap (λ t. suc t) len,
            (others.0, differ),
            (drew2.0 ∙ drew1.0, drew2.1 ∙ drew1.1, drew2.2 ∙ drew1.2),
          )

  split_shares_lem :
      (content : Bytes) (total threshold : ℕ) (w : Here)
      → Ensures (split_shares p h json content total threshold) w (λ out v.
        (src' : p.entropy.Source) × (split p.entropy content total threshold w.node.source
          ≡ ok (out, src'))
        × OnlyDrew p h json w v)
  unfolding split_shares
  split_shares_lem content total threshold w out v run =
      elim (Result-cases (split p.entropy content total threshold w.node.source)) [
        | inl (e, failed) ↦ cc (rw (split_shares, failed) at run)
        | inr ((shares, src), done) ↦
            returned
              (λ (out : List Share) (v : Here).
                (src' : p.entropy.Source) × (split p.entropy content total threshold w.node.source
                  ≡ ok (out, src'))
                × OnlyDrew p h json w v)
              shares out (record w { node = record w.node { source = src } }) v
              (src, done, (refl, refl, refl)) (rw (split_shares, done) at run)
      ]

  -- The first member is of this node, and the others are of others.
  abbrev pub HereFirst : Bytes → List Member → Type 0
  HereFirst node_id [] = ⊥
  HereFirst node_id (own ∷ others) =
      (own.node_id ≡ node_id) × All (λ (m : Member). bytes_eq m.node_id node_id ≡ false) others

  -- What a split that succeeds has done.
  abbrev pub IsSplit : Bytes → Bytes → ℕ → ℕ → Here → Here → Type 0
  IsSplit secret_name content threshold total w v =
      (g : Group) × (out : List Share) × (src src' : p.entropy.Source) × (w' : Here) × (split
          p.entropy content total threshold src
        ≡ ok (out, src'))
      × (g.threshold ≡ threshold)
      × (g.total ≡ total)
      × SameStore p h json w w'
      × SharedOut secret_name g out w' v
      × (length g.members ≡ total)
      × HereFirst w.node.node_id g.members

  split_over_peers_lem :
      (secret_name content : Bytes) (threshold total : ℕ) (w : Here)
      → 2 ≤ total
      → Ensures
          (split_over_peers p h json secret_name content threshold total)
          w
          (λ u v. IsSplit secret_name content threshold total w v)
  unfolding split_over_peers share_out
  split_over_peers_lem secret_name content threshold total w many =
      Ensures-bind _ _ w _ _ (reachable_peers_lem p h json (total - 1) w (omega arith))
        λ peers w1 (same1, count, others).
          Ensures-bind _ _ w1 _ _ (split_shares_lem content total threshold w1)
            λ out w2 (src', done, drew2).
              Ensures-bind _ _ w2 _ _ (random_name_lem p h json 16 w2) λ group_id w3 drew3.
                Ensures-bind _ _ w3 _ _ (random_name_lem p h json 32 w3) λ group_token w4 drew4.
                  Ensures-bind _ _ w4 _ _ (random_name_lem p h json 16 w4) λ own_pid w5 drew5.
                    Ensures-bind _ _ w5 _ _ (name_holders_lem peers w.node.node_id w5 others)
                      λ named w6 (len, differ, drew6) u v run.
                        let store6 : w6.node.store ≡ w.node.store = ground arith in
                        let now6 : w6.now ≡ w.now = ground arith in
                        let g : Group = record {
                          group_id = group_id;
                          group_token = group_token;
                          threshold = threshold;
                          total = total;
                          members =
                              record {
                                pid = own_pid;
                                node_id = w.node.node_id;
                                endpoint = w.node.endpoint;
                              }
                              ∷ named;
                        } in
                        (
                          g,
                          out,
                          w1.node.source,
                          src',
                          w6,
                          done,
                          refl,
                          refl,
                          (store6, now6),
                          share_out_lem secret_name g g.members out w6 refl u v run,
                          omega (arith, len, count),
                          (refl, differ),
                        )

  -- If Split succeeds, then crypto.Split made as many shares as there are members of the group; the
  -- first member is this node, whose share is in the store, encrypted under the fragment's key; each
  -- other member is another node, which accepted a request that carries its share, encrypted under
  -- the key of the request; and the manifest of the group was put last.
  pub split_secret_lem :
      (secret_name content : Bytes) (threshold total : ℕ) (w v : Here)
      → split_secret p h json secret_name content threshold total w ≡ (ok tt, v)
      → (2 ≤ total) × IsSplit secret_name content threshold total w v
  unfolding split_secret fail
  split_secret_lem secret_name content threshold total w v run = elim (Bool-cases (ltb total 2)) [
    | inl small ↦ cc (rw (split_secret, small) at run)
    | inr many ↦
        let enough : 2 ≤ total = ground arith in
        (
          enough,
          split_over_peers_lem secret_name content threshold total w enough tt v
              (rw (split_secret, many) at run),
        )
  ]
