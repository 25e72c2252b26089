-- ===== src/Client/Split/Own.antt =====
-- What Split of client/split.go does with the share that stays on this node.
use genomedb.Base.{
  ◌≡◌, refl, subst, ap, sym, ◌∙◌, ℕ, List, [], ◌∷◌, Bytes, ok, arith, Result-cases, inl, inr,
}
use genomedb.Crypto.Aead.{decrypt}
use genomedb.Crypto.Shamir.{Share}
use genomedb.Store.{put_fragment}
use genomedb.Store.Tables.{Store, Fragment, Member}
use genomedb.Transport.{Http, Json}
use genomedb.Client.Node.{
  Packages, Call, announce, ack, notify, immune_alert, ratchet, content_context,
  register_new_fragment,
}
use genomedb.Client.World.{random_name, pure, place, place_all, on_node}
use genomedb.Client.World.Rules.{Ensures, Ensures-bind, wrapped_lem}
use genomedb.Client.Split.{Group, hold_fragment, register_fragment, keep_share}
use genomedb.Client.Registration.{register_new_fragment-same_store}
use genomedb.Client.Split.Steps.{Here, OnlyDrew, random_lem, seal_share_lem}

module _ (p : Packages) (h : Http) (json : Json) where
  abbrev pub own_fragment : Group → Member → Bytes → Bytes → Bytes → Fragment
  own_fragment g holder chain_id key ciphertext = record {
    pid = holder.pid;
    group_id = g.group_id;
    group_token = g.group_token;
    chain_id = chain_id;
    epoch = 0;
    threshold = g.threshold;
    total = g.total;
    key = key;
    ciphertext = ciphertext;
    members = g.members;
    updated_at = 0;
  }

  -- The store after a fragment was put that holds the share, encrypted under the fragment's key.
  abbrev pub Kept : Group → Member → Share → Here p h json → Store → Type 0
  Kept g holder share w s =
      (chain_id key ciphertext : Bytes) × (src src' : p.entropy.Source) × (decrypt p.gcm key
          ciphertext (content_context g.group_id holder.pid)
        ≡ ok share)
      × (put_fragment p.gcm p.codec p.entropy (own_fragment g holder chain_id key ciphertext) w.now
            w.node.store src
          ≡ ok (s, src'))

  place_lem :
      (c : Call) (w : Here p h json)
      → ((place p h json c w).1.node.store ≡ w.node.store) × ((place p h json c w).1.now ≡ w.now)
  unfolding place
  place_lem (announce a) w = (refl, refl)
  place_lem (ack a) w = (refl, refl)
  place_lem (notify endpoint req) w = (refl, refl)
  place_lem (immune_alert a) w = (refl, refl)

  abbrev pub SameStore : Here p h json → Here p h json → Type 0
  SameStore w v = (v.node.store ≡ w.node.store) × (v.now ≡ w.now)

  place_all_lem :
      (calls : List Call) (w : Here p h json)
      → Ensures (place_all p h json calls) w (λ u v. SameStore w v)
  unfolding place_all pure
  place_all_lem [] w = λ u v run. ground arith
  place_all_lem (c ∷ calls) w =
      Ensures-bind _ _ w (λ (u : Unit {0}) v. SameStore w v) _
        (λ u v run.
          let (store, now) = place_lem c w in
          let there : (place p h json c w).1 ≡ v = ap (λ r. r.1) run in
          (
            ap (λ (z : Here p h json). z.node.store) (sym there) ∙ store,
            ap (λ (z : Here p h json). z.now) (sym there) ∙ now,
          ))
        λ u w1 (store, now) u' v run.
          let (store', now') = place_all_lem calls w1 u' v run in (store' ∙ store, now' ∙ now)

  register_fragment_lem :
      (pid chain_id : Bytes) (w : Here p h json)
      → Ensures (register_fragment p h json pid chain_id) w (λ u v. SameStore w v)
  unfolding register_fragment on_node
  register_fragment_lem pid chain_id w =
      Ensures-bind _ _ w (λ (calls : List Call) v. SameStore w v) _
        (λ calls v run.
          let same = register_new_fragment-same_store p pid chain_id w.node in
          let there : (on_node {Net = h.State} (register_new_fragment p pid chain_id) w).1 ≡ v =
            ap (λ r. r.1) run in
          (
            ap (λ (z : Here p h json). z.node.store) (sym there) ∙ same,
            ap (λ (z : Here p h json). z.now) (sym there),
          ))
        λ calls w1 (store, now) u v run.
          let (store', now') = place_all_lem calls w1 u v run in (store' ∙ store, now' ∙ now)

  pub random_name_lem :
      (n : ℕ) (w : Here p h json)
      → Ensures (random_name p h json n) w (λ b v. OnlyDrew p h json w v)
  unfolding random_name pure
  random_name_lem n w =
      Ensures-bind _ _ w _ _ (random_lem p h json n w) λ b w1 drew c v run. ground arith

  hold_fragment_lem :
      (f : Fragment) (w : Here p h json)
      → Ensures (hold_fragment p h json f) w (λ u v.
        (src src' : p.entropy.Source) × (put_fragment p.gcm p.codec p.entropy f w.now w.node.store
            src
          ≡ ok (v.node.store, src'))
        × (v.now ≡ w.now))
  unfolding hold_fragment
  hold_fragment_lem f w u v run =
      elim (Result-cases
        (put_fragment p.gcm p.codec p.entropy f w.now w.node.store w.node.source)) [
          | inl (e, failed) ↦ cc (rw (hold_fragment, failed) at run)
          | inr ((s, src), done) ↦
              let ends = (rw (hold_fragment, done) at run) in
              let there : s ≡ v.node.store = ap (λ r. r.1.node.store) ends in
              (
                w.node.source,
                src,
                done ∙ ap (λ (t : Store). ok (t, src)) there,
                sym (ap (λ r. r.1.now) ends),
              )
        ]

  pub keep_share_lem :
      (g : Group) (holder : Member) (share : Share) (w : Here p h json)
      → Ensures
          (keep_share p h json g holder share)
          w
          (λ u v. Kept g holder share w v.node.store × (v.now ≡ w.now))
  unfolding keep_share
  keep_share_lem g holder share w = Ensures-bind _ _ w _ _ (random_name_lem 16 w) λ salt w1 drew1.
      Ensures-bind _ _ w1 _ _ (wrapped_lem ratchet _ w1) λ key w2 (derived, same2).
        Ensures-bind _ _ w2 _ _ (seal_share_lem p h json key share _ w2) λ ciphertext w3 sealed.
          Ensures-bind _ _ w3 _ _ (random_name_lem 8 w3) λ chain_id w4 drew4.
            Ensures-bind _ _ w4 _ _ (register_fragment_lem holder.pid chain_id w4)
              λ u w5 same5 u' v run.
                let held = hold_fragment_lem _ w5 u' v run in
                let (src, src', put, now) = held in
                let (net1, store1, now1) = drew1 in
                let ((net3, store3, now3), opened) = sealed in
                let store5 : w5.node.store ≡ w.node.store = ground arith in
                let now5 : w5.now ≡ w.now = ground arith in
                (
                  (
                    chain_id,
                    key,
                    ciphertext,
                    src,
                    src',
                    opened,
                    subst
                        (λ (t : Store).
                          put_fragment p.gcm p.codec p.entropy
                            (own_fragment g holder chain_id key ciphertext) w.now t src
                          ≡ ok (v.node.store, src'))
                        store5
                        (subst
                          (λ (t : ℕ).
                            put_fragment p.gcm p.codec p.entropy
                              (own_fragment g holder chain_id key ciphertext) t w5.node.store src
                            ≡ ok (v.node.store, src'))
                          now5 put),
                  ),
                  now ∙ now5,
                )
