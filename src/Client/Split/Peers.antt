-- ===== src/Client/Split/Peers.antt =====
-- The peers that reachablePeers of client/split.go finds.
use genomedb.Base.{
  ◌≡◌, ◌≢◌, refl, subst, ap, sym, ◌∙◌, ℕ, ◌+◌, ◌==◌, ◌≤◌, ◌<◌, false, List, [], ◌∷◌, ◌++◌, length,
  length-append, ltb, Bytes, bytes_eq, Result, arith, All, Result-cases, Bool-cases, inl, inr,
}
use genomedb.Peer.Client.{ping}
use genomedb.Protocol.{NodeInfo}
use genomedb.Transport.{Http, Json, HttpError}
use genomedb.Client.Node.{Packages, Node, cannot_list_nodes}
use genomedb.Client.World.{World, exchange, pure, fail}
use genomedb.Client.World.Rules.{Ensures, Ensures-bind, returned, wrapped_lem}
use genomedb.Client.Split.{ping_nodes, reachable_peers}

module _ (p : Packages) (h : Http) (json : Json) where
  abbrev pub SameNode : World p.entropy.Source h.State → World p.entropy.Source h.State → Type 0
  SameNode w v = (v.node ≡ w.node) × (v.now ≡ w.now)

  abbrev pub Others : Bytes → List NodeInfo → Type 0
  Others node_id nodes = All (λ (nd : NodeInfo). bytes_eq nd.node_id node_id ≡ false) nodes

  Others-append :
      (node_id : Bytes) (nodes : List NodeInfo) (nd : NodeInfo)
      → Others node_id nodes
      → bytes_eq nd.node_id node_id ≡ false
      → Others node_id (nodes ++ nd ∷ [])
  Others-append node_id [] nd h other = (other, tt)
  Others-append node_id (x ∷ nodes) nd h other = (h.0, Others-append node_id nodes nd h.1 other)

  abbrev Found :
      ℕ → World p.entropy.Source h.State → List NodeInfo → World p.entropy.Source h.State → Type 0
  Found need w found v = SameNode w v × (length found ≤ need) × Others w.node.node_id found

  fits :
      (reachable : List NodeInfo) (nd : NodeInfo) (need : ℕ)
      → length reachable < need
      → (length reachable + 1 == need) ≡ false
      → length (reachable ++ nd ∷ []) < need
  fits reachable nd need few short =
      let exact = length-append reachable (nd ∷ []) in
      let differs : length reachable + 1 ≢ need = ground arith in omega arith

  ping_nodes_lem :
      (need : ℕ) (nodes reachable : List NodeInfo) (w : World p.entropy.Source h.State)
      → length reachable < need
      → Others w.node.node_id reachable
      → Ensures (ping_nodes p h json need nodes reachable) w (Found need w)
  unfolding ping_nodes
  ping_nodes_lem need [] reachable w few others found v run =
      returned (Found need w) reachable found w v ((refl, refl), omega arith, others) run
  ping_nodes_lem need (nd ∷ nodes) reachable w few others found v run =
      let w' : World p.entropy.Source h.State = record w { net = (ping h nd.endpoint w.net).1 } in
      elim (Bool-cases (bytes_eq nd.node_id w.node.node_id)) [
        | inl this ↦
            ping_nodes_lem need nodes reachable w few others found v (rw (ping_nodes, this) at run)
        | inr other ↦ elim (Result-cases (ping h nd.endpoint w.net).0) [
          | inl (e, failed) ↦
              ping_nodes_lem need nodes reachable w' few others found v
                (rw (ping_nodes, other, failed) at run)
          | inr (u, done) ↦ elim (Bool-cases (length reachable + 1 == need)) [
            | inl enough ↦
                returned (Found need w) (reachable ++ nd ∷ []) found w' v
                  (
                    (refl, refl),
                    omega (arith, length-append reachable (nd ∷ [])),
                    Others-append w.node.node_id reachable nd others other,
                  )
                  (rw (ping_nodes, other, done, enough) at run)
            | inr short ↦
                ping_nodes_lem need nodes (reachable ++ nd ∷ []) w'
                  (fits reachable nd need few short) (Others-append _ reachable nd others other)
                  found v (rw (ping_nodes, other, done, short) at run)
          ]
        ]
      ]

  -- The peers that are found are as many as were asked for, and none is this node.
  pub reachable_peers_lem :
      (need : ℕ) (w : World p.entropy.Source h.State)
      → 0 < need
      → Ensures
          (reachable_peers p h json need)
          w
          (λ found v. SameNode w v × (length found ≡ need) × Others w.node.node_id found)
  unfolding reachable_peers exchange pure fail
  reachable_peers_lem need w some_needed =
      Ensures-bind _ _ w (λ (r : Result HttpError (List NodeInfo)) v. SameNode w v) _
        (λ r v run. (ap (λ z. z.1.node) (sym run), ap (λ z. z.1.now) (sym run)))
        λ listed w1 same1.
          Ensures-bind _ _ w1 (λ (nodes : List NodeInfo) v. SameNode w v) _
            (λ nodes v run.
              let there = (wrapped_lem cannot_list_nodes listed w1 nodes v run).1 in
              (
                ap (λ (z : World p.entropy.Source h.State). z.node) there ∙ same1.0,
                ap (λ (z : World p.entropy.Source h.State). z.now) there ∙ same1.1,
              ))
            λ nodes w2 same2.
              Ensures-bind _ _ w2 (Found need w2) _ (ping_nodes_lem need nodes [] w2 some_needed tt)
                λ reachable w3 (same3, few, others) found v run.
                  elim (Bool-cases (ltb (length reachable) need)) [
                    | inl short ↦ cc (rw (short) at run)
                    | inr full ↦
                        let same_id : w2.node.node_id ≡ w.node.node_id =
                          ap (λ (n : Node p.entropy.Source). n.node_id) same2.0 in
                        returned
                          (λ (ns : List NodeInfo) v.
                            SameNode w v × (length ns ≡ need) × Others w.node.node_id ns)
                          reachable found w3 v
                          (
                            (same3.0 ∙ same2.0, same3.1 ∙ same2.1),
                            ground arith,
                            subst (λ (t : Bytes). Others t reachable) same_id others,
                          )
                          (rw (full) at run)
                  ]
