-- ===== src/Client/Registration.antt =====
-- What registerNewFragment of client/node.go leaves as it is, and what it has sent.
use genomedb.Base.{
  ◌≡◌, ap, sym, List, [], ◌∷◌, get_elem?, Bytes, ok, err, arith, inl, inr, Option-cases,
}
use genomedb.Crypto.HashChain.{build_chain}
use genomedb.Protocol.{RouteAnnounce}
use genomedb.Client.Node.{Packages, Node, Call, announce, cold_chain_length, register_new_fragment}

pub register_new_fragment-same_store :
    (p : Packages) (pid chain_id : Bytes) (n : Node p.entropy.Source)
    → (register_new_fragment p pid chain_id n).1.store ≡ n.store
unfolding register_new_fragment
register_new_fragment-same_store p pid chain_id n = ground arith

pub register_new_fragment-same_name :
    (p : Packages) (pid chain_id : Bytes) (n : Node p.entropy.Source)
    → (register_new_fragment p pid chain_id n).1.node_id ≡ n.node_id
unfolding register_new_fragment
register_new_fragment-same_name p pid chain_id n = ground arith

pub register_new_fragment-same_url :
    (p : Packages) (pid chain_id : Bytes) (n : Node p.entropy.Source)
    → (register_new_fragment p pid chain_id n).1.orchestrator_url ≡ n.orchestrator_url
unfolding register_new_fragment
register_new_fragment-same_url p pid chain_id n = ground arith

pub register_new_fragment-announces :
    (p : Packages) (pid chain_id : Bytes) (n : Node p.entropy.Source) (calls : List Call)
    → (register_new_fragment p pid chain_id n).0 ≡ ok calls
    → (a : RouteAnnounce) × (calls ≡ announce a ∷ [])
unfolding register_new_fragment
register_new_fragment-announces p pid chain_id n calls run =
    elim (Option-cases (build_chain p.sha256 p.entropy cold_chain_length n.source)) [
      | inl failed ↦ cc (rw (register_new_fragment, failed) at run)
      | inr ((chain, src), built) ↦ elim (Option-cases (get_elem? chain cold_chain_length)) [
        | inl short ↦ cc (rw (register_new_fragment, built, short) at run)
        | inr (tip, found) ↦
            let ends = (rw (register_new_fragment, built, found) at run) in
            (
              record {
                node_id = n.node_id;
                pid = pid;
                endpoint = n.endpoint;
                chain_id = chain_id;
                chain_tip = tip;
              },
              sym (ap (λ r. elim r [ err e ↦ calls | ok sent ↦ sent ]) ends),
            )
      ]
    ]
