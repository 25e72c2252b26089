-- ===== src/Tests/Listening.antt =====
-- The node's event loop at concrete events.
use genomedb.Base.{
  ℕ, ◌≡◌, refl, false, Option, none, some, List, [], ◌∷◌, replicate, Bytes, ascii, All, err,
}
use genomedb.Protocol.{MutationSeed}
use genomedb.Protocol.Events.{EventText}
use genomedb.Store.Tables.{not_found}
use genomedb.Store.{get_fragment}
use genomedb.Base.Assoc.{lookup}
use genomedb.Client.Node.{Node}
use genomedb.Client.Listen.{handle_events, NotFor, handle_events-others}
use genomedb.Tests.Parameters.{toy_gcm, toy_codec, toy_packages}

abbrev lone : Node ℕ
lone = record {
  node_id = ascii "a";
  endpoint = ascii "h";
  root = replicate 32 3;
  orchestrator_url = ascii "o";
  db_path = [];
  store = record {
    storage_key = replicate 32 5;
    closed = false;
    fragments = [];
    manifests = [];
    mesh_peers = [];
  };
  chains = [];
  source = 0;
}

-- The data of a seed is its pseudonym, and no data is malformed.
abbrev toy_seed : Bytes → Option MutationSeed
toy_seed [] = none
toy_seed (b ∷ bs) = some (record { pid = b ∷ bs; seed = 1 ∷ []; reason = []; epoch = 0 })

abbrev incoming : List (EventText × ℕ)
incoming =
    (record { kind = ascii "map_delta"; payload = ascii "p" }, 1)
    ∷ (record { kind = ascii "mutation_seed"; payload = [] }, 2)
    ∷ (record { kind = ascii "mutation_seed"; payload = ascii "p" }, 3)
    ∷ []

absent : (pid : Bytes) → get_fragment toy_gcm toy_codec pid lone.store ≡ err not_found
unfolding get_fragment lookup
absent pid = refl

others : All (NotFor toy_packages toy_seed lone) incoming
others = (
  (λ seed same parsed. (not_found, absent seed.pid)),
  (
    (λ seed same parsed. (not_found, absent seed.pid)),
    ((λ seed same parsed. (not_found, absent seed.pid)), tt),
  ),
)

handle_events-others_example : handle_events toy_packages toy_seed incoming lone ≡ ([], lone)
handle_events-others_example = handle_events-others toy_packages toy_seed lone incoming others
