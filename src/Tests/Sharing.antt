-- ===== src/Tests/Sharing.antt =====
-- The theorems about client/split.go, client/reconstruct.go and client/selfheal.go at concrete
-- inputs: a secret of one byte, split between this node and one peer.
use mathlib.Core.List.{Memᴰ}
use genomedb.Base.{
  ℕ, ◌≡◌, ◌≢◌, refl, arith, ap, ◌≤◌, ltb, length, All, Distinct, zero, suc, true, false, none, some,
  List, [], ◌∷◌, ◌++◌, Bytes, bytes_eq, ascii, replicate, Result, ok, err, if◌then◌else◌,
}
use genomedb.Crypto.Shamir.{Share, split, eval_poly}
use genomedb.Crypto.Gf256.{gf_mul, exp_table, log_table}
use genomedb.Store.{get_manifest, put_manifest, put_fragment, get_fragment_by_group}
use genomedb.Store.Tables.{Member, Manifest, first_row}
use genomedb.Transport.{refused, Http, Json}
use genomedb.Client.Node.{NodeError, not_delivered, register_new_fragment}
use genomedb.Client.World.{World, ◌>>=◌, wrapped, pure, on_node, put_store}
use genomedb.Protocol.Client.{list_nodes, send_announce}
use genomedb.Peer.Client.{ping, deliver_share_to, fetch_group_share}
use genomedb.Crypto.Ratchet.{derive_fragment_root}
use genomedb.Crypto.Aead.{encrypt, decrypt}
use genomedb.Crypto.HashChain.{build_chain}
use genomedb.Base.Assoc.{lookup, insert}
use genomedb.Client.Split.{split_secret}
use genomedb.Client.Reconstruct.{reconstruct, own_share}
use genomedb.Client.Reconstruct.Recovery.{Gives, all_held, reconstruct_lem}
use genomedb.Client.Split.Success.{IsSplit, split_secret_lem}
use genomedb.Client.Split.Failure.{split_secret-manifests}
use genomedb.Client.SelfHeal.{Wake, cancelled, self_heal, ticked}
use genomedb.Client.SelfHeal.Manifests.{promised}
use genomedb.Client.SelfHeal.Promises.{self_heal-promised}
use genomedb.Tests.Parameters.{counter, toy_gcm, toy_codec, toy_packages}

-- A peer that accepts everything, and that answers every question with the second share. The state
-- counts the requests.
abbrev pub toy_http : Http
toy_http = record {
  State = ℕ;
  send = λ req n. (some (record { status = 200; body = 2 ∷ 36 ∷ [] }), suc n);
}

abbrev pub toy_json : Json
toy_json = record {
  marshal_deliver = λ req. [];
  marshal_notice = λ req. [];
  unmarshal_presence = λ b. some (record { present = true; epoch = 0 });
  unmarshal_share = λ b. some (record { share = b; epoch = 0 });
  marshal_register = λ r. [];
  unmarshal_registered = λ b. none;
  marshal_announce = λ a. [];
  marshal_heartbeat = λ b. [];
  marshal_ack = λ a. [];
  marshal_alert = λ a. [];
  unmarshal_nodes = λ b. some (record { node_id = ascii "b"; endpoint = ascii "e" } ∷ []);
  unmarshal_routes = λ b. none;
}

abbrev pub start : World ℕ ℕ
start = record {
  node = record {
    node_id = ascii "a";
    endpoint = ascii "h";
    root = replicate 32 3;
    orchestrator_url = ascii "o";
    db_path = [];
    store = record {
      storage_key = replicate 32 5;
      closed = false;
      fragments = [];
      manifests = [];
      mesh_peers = [];
    };
    chains = [];
    source = 0;
  };
  net = 0;
  now = 100;
}

abbrev after_split : Result NodeError (Unit {0}) × World ℕ ℕ
after_split = split_secret toy_packages toy_http toy_json (ascii "s") (42 ∷ []) 2 2 start

split_runs : after_split.0 ≡ ok tt
unfolding split_secret ◌>>=◌ wrapped list_nodes bytes_eq ping pure split derive_fragment_root
    encrypt on_node register_new_fragment build_chain put_fragment deliver_share_to insert
    put_manifest lookup put_store
split_runs = refl

abbrev pub hex_text : ℕ → Bytes
hex_text zero = []
hex_text (suc n) = 48 ∷ 55 ∷ hex_text n

abbrev pub known : Manifest
known = record {
  secret_name = ascii "s";
  kind = ascii "secret";
  group_id = hex_text 16;
  group_token = hex_text 32;
  threshold = 2;
  total = 2;
  members =
      record { pid = ascii "0"; node_id = ascii "a"; endpoint = ascii "h" }
      ∷ record { pid = ascii "0"; node_id = ascii "b"; endpoint = ascii "e" }
      ∷ [];
  created_at = 100;
}

-- A store as the split leaves it.
abbrev pub there : World ℕ ℕ
there = record start {
  node = record start.node {
    store = record start.node.store {
      fragments =
          (
            hex_text 16,
            record {
              group_id = hex_text 16;
              group_token = hex_text 32;
              chain_id = hex_text 8;
              epoch = 0;
              threshold = 2;
              total = 2;
              wrapped_key = replicate 12 7 ++ replicate 32 32;
              ciphertext = replicate 12 7 ++ (1 ∷ 45 ∷ []);
              members_json = ascii "0ah0be";
              updated_at = 100;
            },
          )
          ∷ [];
      manifests =
          (
            ascii "s",
            record {
              kind = ascii "secret";
              group_id = hex_text 16;
              group_token = hex_text 32;
              threshold = 2;
              total = 2;
              members_json = ascii "0ah0be";
              created_at = 100;
            },
          )
          ∷ [];
    };
  };
}

pub manifest_known : get_manifest toy_gcm toy_codec (ascii "s") there.node.store ≡ ok known
unfolding get_manifest lookup bytes_eq
manifest_known = refl

abbrev pub held : Member → List Share
held m = if bytes_eq m.node_id (ascii "a") then (1 ∷ 45 ∷ []) ∷ [] else (2 ∷ 36 ∷ []) ∷ []

pub own_held : own_share toy_packages toy_http toy_json known there.node.store ≡ (1 ∷ 45 ∷ []) ∷ []
unfolding own_share get_fragment_by_group first_row bytes_eq decrypt
own_held = refl

pub was_split : split counter (42 ∷ []) 2 2 0 ≡ ok ((1 ∷ 45 ∷ []) ∷ (2 ∷ 36 ∷ []) ∷ [], 1)
unfolding split eval_poly gf_mul exp_table log_table
was_split = refl

abbrev pub first_share : Share
first_share = 1 ∷ 45 ∷ []

abbrev pub second_share : Share
second_share = 2 ∷ 36 ∷ []

pub shares_differ : second_share ≢ first_share
shares_differ e = ground arith

pub gives :
    All (Gives toy_packages toy_http toy_json (λ net. Unit {0}) known held there) known.members
unfolding bytes_eq fetch_group_share
gives = (
  (λ same. own_held, λ (other : true ≡ false). cc),
  ((λ (same : false ≡ true). cc, λ other net up. (refl, tt)), tt),
)

pub from : All (λ s. Memᴰ s ((1 ∷ 45 ∷ []) ∷ (2 ∷ 36 ∷ []) ∷ [])) (all_held held known.members)
unfolding bytes_eq
from = (Memᴰ.head refl, (Memᴰ.tail (Memᴰ.head refl), tt))

pub distinct : Distinct (all_held held known.members)
unfolding bytes_eq
distinct = ((shares_differ, tt), (tt, tt))

pub two : 2 ≤ length (all_held held known.members)
unfolding bytes_eq
two = omega arith

reconstruct_lem_example :
    (net : ℕ) × (reconstruct toy_packages toy_http toy_json (ascii "s") there
      ≡ (ok (42 ∷ []), record there { net = net }))
reconstruct_lem_example =
    reconstruct_lem toy_packages toy_http toy_json (λ net. Unit {0}) (ascii "s") (42 ∷ []) known 2 0
      1 ((1 ∷ 45 ∷ []) ∷ (2 ∷ 36 ∷ []) ∷ []) held there (omega arith, tt) was_split manifest_known
      tt gives from distinct two

split_secret_lem_example :
    (2 ≤ 2) × IsSplit toy_packages toy_http toy_json (ascii "s") (42 ∷ []) 2 2 start after_split.1
split_secret_lem_example =
    split_secret_lem toy_packages toy_http toy_json (ascii "s") (42 ∷ []) 2 2 start after_split.1
      (ap (λ r. (r, after_split.1)) split_runs)

-- The peer answers the ping and refuses the share.
abbrev refusing_http : Http
refusing_http = record {
  State = ℕ;
  send = λ req n. (some (record { status = if ltb n 2 then 200 else 500; body = [] }), suc n);
}

abbrev refused_split : Result NodeError (Unit {0}) × World ℕ ℕ
refused_split = split_secret toy_packages refusing_http toy_json (ascii "s") (42 ∷ []) 2 2 there

split_fails : refused_split.0 ≡ err (not_delivered (refused 500 []))
unfolding split_secret ◌>>=◌ wrapped list_nodes bytes_eq ping pure split derive_fragment_root
    encrypt on_node register_new_fragment build_chain put_fragment deliver_share_to insert
    put_manifest lookup put_store send_announce
split_fails = refl

split_secret-manifests_example : refused_split.1.node.store.manifests ≡ there.node.store.manifests
split_secret-manifests_example =
    split_secret-manifests toy_packages refusing_http toy_json (ascii "s") (42 ∷ []) 2 2 there
      (not_delivered (refused 500 [])) split_fails

-- Two rounds, before each of which some time has passed.
abbrev waking : List (Wake toy_packages toy_http toy_json)
waking =
    ticked (λ w. record w { now = 200 }) ∷ ticked (λ w. record w { now = 300 }) ∷ cancelled ∷ []

self_heal-promised_example :
    promised toy_packages toy_http toy_json
      (ascii "s")
      (self_heal toy_packages toy_http toy_json 1 waking there).1
    ≡ promised toy_packages toy_http toy_json (ascii "s") there
self_heal-promised_example =
    self_heal-promised toy_packages toy_http toy_json 1 waking there
      (λ w unique. (λ j. refl, unique), (λ w unique. (λ j. refl, unique), (tt, tt))) (tt, tt)
      (ascii "s")
