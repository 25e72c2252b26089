-- ===== src/Tests/Together.antt =====
-- Split, the deliveries and Reconstruct together: a secret of one byte, this node and two others, of
-- which one is down later.
use genomedb.Crypto.Gf256.{gf_mul, exp_table, log_table}
use genomedb.Crypto.Shamir.{Share, split, eval_poly}
use genomedb.Base.{
  Bool, true, ◌≢◌, List, false, ℕ, ◌≡◌, refl, ap, arith, [], ◌∷◌, Bytes, bytes_eq, ascii, Result,
  ok,
}
use genomedb.Base.Assoc.{insert, lookup}
use genomedb.Crypto.Aead.{encrypt}
use genomedb.Crypto.HashChain.{build_chain}
use genomedb.Crypto.Ratchet.{derive_fragment_root}
use genomedb.Store.{put_fragment, put_manifest}
use genomedb.Store.Tables.{first_row}
use genomedb.Peer.Client.{deliver_share_to}
use genomedb.Protocol.Client.{send_announce}
use genomedb.Client.Cluster.RoundTrip.{reconstruct-share_out}
use genomedb.Client.Node.{Node, NodeError, register_new_fragment}
use genomedb.Client.PeerServer.{deliver_share}
use genomedb.Client.Reconstruct.{reconstruct}
use genomedb.Client.Split.{Group, share_out}
use genomedb.Client.World.{World, ◌>>=◌, on_node, pure, put_store, wrapped}
use genomedb.Tests.Parameters.{counter, toy_packages}
use genomedb.Tests.Sharing.{start}
use genomedb.Tests.Wire.{is_delivery, wire, wire_json, wired}
use genomedb.Tests.Wire.Codec.{encode, decode, get_string, put_string}

abbrev trio : Group
trio = record {
  group_id = ascii "g";
  group_token = ascii "t";
  threshold = 2;
  total = 3;
  members =
      record { pid = ascii "1"; node_id = ascii "a"; endpoint = ascii "h" }
      ∷ record { pid = ascii "2"; node_id = ascii "b"; endpoint = ascii "e" }
      ∷ record { pid = ascii "3"; node_id = ascii "c"; endpoint = ascii "f" }
      ∷ [];
}

abbrev three : List Share
three = (1 ∷ 45 ∷ []) ∷ (2 ∷ 36 ∷ []) ∷ (3 ∷ 35 ∷ []) ∷ []

split-three : split counter (42 ∷ []) 3 2 0 ≡ ok (three, 1)
unfolding split eval_poly gf_mul exp_table log_table
split-three = refl

abbrev there : World ℕ ((Bytes → Node ℕ) × (Bytes → Bool))
there = record { node = start.node; net = (λ address. start.node, λ address. true); now = 100 }

abbrev shared : Result NodeError (Unit {0}) × World ℕ ((Bytes → Node ℕ) × (Bytes → Bool))
shared = share_out toy_packages wire wire_json (ascii "s") trio three there

abbrev later : (Bytes → Node ℕ) × (Bytes → Bool)
later = (shared.1.net.0, λ address. bytes_eq address (ascii "f"))

f-ne-e : ascii "f" ≢ ascii "e"
f-ne-e same = ground arith

false-ne-true : false ≡ true → ⊥
false-ne-true e = cc

sharing_runs : shared.0 ≡ ok tt
unfolding is_delivery share_out ◌>>=◌ wrapped bytes_eq pure derive_fragment_root encrypt on_node
    register_new_fragment build_chain put_fragment deliver_share_to insert put_manifest lookup
    put_store send_announce deliver_share encode decode get_string put_string
sharing_runs = refl

reconstruct-share_out_example :
    (net : (Bytes → Node ℕ) × (Bytes → Bool)) × (reconstruct toy_packages wire wire_json
        (ascii "s")
        (record shared.1 { net = later })
      ≡ (ok (42 ∷ []), record shared.1 { net = net }))
unfolding bytes_eq first_row
reconstruct-share_out_example =
    reconstruct-share_out wired (ascii "s") (42 ∷ []) trio three 0 1 there shared.1 later
      (false ∷ true ∷ []) (omega arith, tt) split-three refl (refl, tt) (refl, tt) refl
      (
        ((49, refl), (97, refl), (104, refl)),
        (((50, refl), (98, refl), (101, refl)), (((51, refl), (99, refl), (102, refl)), tt)),
      )
      (refl, (refl, (refl, tt)))
      (((101, refl), (f-ne-e, tt), ((102, refl), tt, tt)), (refl, (refl, tt))) refl
      (ap (λ r. (r, shared.1)) sharing_runs)
      ((refl, λ up. absurd (false-ne-true up), (refl, λ up. refl, tt)), omega arith)
