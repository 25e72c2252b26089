-- ===== src/Tests/Channels.antt =====
-- The theorems about orchestrator/server.go, the control channel, crypto/seal.go and
-- mesh/wireguard.go at concrete inputs.
use mathlib.Core.List.{Memᴰ}
use genomedb.Base.{
  ℕ, zero, suc, ◌%◌, ◌≤◌, ◌<◌, ◌≡◌, ◌≢◌, refl, ap, ap₂, take, drop, sym, ◌∙◌, true, false, Option,
  none, some, List, [], ◌∷◌, ◌++◌, map, length, replicate, get_or, Bytes, IsBytes, ascii, arith,
  Result, ok, if◌then◌else◌, bytes_eq, bytes_eq_refl, All,
}
use genomedb.Protocol.{MutationSeed, mutation_seed}
use genomedb.Protocol.Events.{EventText, write_events, read_events}
use genomedb.Protocol.Events.RoundTrip.{Writable, read_events-write_events}
use genomedb.Orchestrator.{Orchestrator, new, subscribe, unsubscribe, scheduled_round}
use genomedb.Orchestrator.Buffered.{make}
use genomedb.Orchestrator.Buffered.Open.{open_at}
use genomedb.Orchestrator.Safety.{Reaches, at_start, served}
use genomedb.Orchestrator.Safety.Reachable.{Reaches-serve, Reaches-unsubscribe}
use genomedb.Orchestrator.Server.{
  serve, Answer, get_map, stream, get_events, bad_request, drain, event_text,
}
use genomedb.Orchestrator.Server.Requests.{serve-refused}
use genomedb.Orchestrator.Server.Streams.{read_events-drain, FitsLine}
use genomedb.Crypto.Aead.{encrypt}
use genomedb.Crypto.Seal.{
  SealError, Disk, Reading, found, missing, Sealing, SealedFile, load_or_create_root,
}
use genomedb.Crypto.Seal.Laws.{load_or_create_root-again}
use genomedb.Mesh.{clamp}
use genomedb.Mesh.Keys.{clamp_lem}
use genomedb.Tests.Parameters.{counter, toy_gcm, toy_hash}

abbrev two_events : List EventText
two_events =
    record { kind = ascii "a"; payload = ascii "x" }
    ∷ record { kind = ascii "b"; payload = [] }
    ∷ []

letter : (c : ℕ) → 13 < c → (c ≢ 10) × (c ≢ 13)
letter c above = (omega arith, omega arith)

two_events-Writable : All Writable two_events
two_events-Writable = (
  ((letter 97 (omega arith), tt), (letter 120 (omega arith), tt), omega arith, omega arith),
  (((letter 98 (omega arith), tt), tt, omega arith, omega arith), tt),
)

read_events-write_events_example : read_events (write_events two_events) ≡ two_events
read_events-write_events_example = read_events-write_events two_events two_events-Writable

abbrev seed : MutationSeed
seed = record { pid = ascii "p"; seed = ascii "s"; reason = ascii "scheduled"; epoch = 1 }

abbrev listening : Orchestrator
listening = record new {
  channels = record { buffer = mutation_seed seed ∷ []; closed = false } ∷ [];
  subs = (ascii "n", 0) ∷ [];
}

fits : FitsLine (ascii "p")
fits = ((letter 112 (omega arith), tt), omega arith)

read_events-drain_example :
    read_events (drain (λ s. s.pid) (λ d. []) 1 0 listening).0
    ≡ map (event_text (λ s. s.pid) (λ d. [])) (mutation_seed seed ∷ [])
read_events-drain_example =
    read_events-drain (λ s. s.pid) (λ d. []) 1 0 listening
      (record { buffer = mutation_seed seed ∷ []; closed = false }) (fits, tt) refl (omega arith)

nameless : serve toy_hash true (get_events []) 5 listening ≡ some (bad_request, listening)
unfolding serve
nameless = refl

serve-refused_example : listening ≡ listening
serve-refused_example =
    serve-refused toy_hash true (get_events []) 5 listening listening bad_request nameless refl

-- A disk with one file.
abbrev pub look : Bytes → Option (Bytes × Bytes) → Reading
look path none = missing
look path (some (name, contents)) = if bytes_eq name path then found contents else missing

abbrev pub one_file : Disk
one_file = record {
  State = Option (Bytes × Bytes);
  join = λ dir file. dir ++ file;
  make_dir = λ dir s. (true, s);
  read_file = look;
  write_file = λ path contents s. (true, some (path, contents));
  read_file-write_file = λ path contents s s' run.
      let same : some (path, contents) ≡ s' = ap (λ t. t.1) run in
      sym (ap (look path) same)
      ∙ ap (λ c. if c then found contents else missing) (bytes_eq_refl path);
  read_file-make_dir = λ dir s. refl;
}

pub take_all : (xs ys : Bytes) → take (length xs) (xs ++ ys) ≡ xs
take_all [] ys = refl
take_all (x ∷ xs) ys = ap (λ t. x ∷ t) (take_all xs ys)

pub drop_all : (xs ys : Bytes) → drop (length xs) (xs ++ ys) ≡ ys
drop_all [] ys = refl
drop_all (x ∷ xs) ys = drop_all xs ys

abbrev pub unframe : Bytes → Option SealedFile
unframe [] = none
unframe (n ∷ b) = some (record { salt = take n b; ct = drop n b })

abbrev pub plain_sealing : Sealing
plain_sealing = record {
  scrypt = λ binding salt. some (replicate 32 1);
  marshal = λ sf. length sf.salt ∷ (sf.salt ++ sf.ct);
  unmarshal = unframe;
  unmarshal-marshal = λ sf.
      ap₂ (λ (a b : Bytes). some (record { salt = a; ct = b })) (take_all sf.salt sf.ct)
        (drop_all sf.salt sf.ct);
}

abbrev first_start : Result SealError Bytes × Option (Bytes × Bytes)
first_start =
    load_or_create_root toy_gcm plain_sealing counter one_file (ascii "d") (ascii "b") 0 none

first_root : first_start.0 ≡ ok (replicate 32 7)
unfolding load_or_create_root encrypt
first_root = refl

load_or_create_root-again_example :
    (load_or_create_root toy_gcm plain_sealing counter one_file
      (ascii "d")
      (ascii "b")
      9
      first_start.1).0
    ≡ ok (replicate 32 7)
load_or_create_root-again_example =
    load_or_create_root-again toy_gcm plain_sealing counter one_file (ascii "d") (ascii "b")
      (replicate 32 7) 0 9 none first_start.1 (ap (λ t. (t, first_start.1)) first_root) refl

abbrev drawn_key : Bytes
drawn_key = replicate 32 255

replicate-IsBytes : (n : ℕ) → IsBytes (replicate n 255)
replicate-IsBytes zero = tt
replicate-IsBytes (suc n) = (omega arith, replicate-IsBytes n)

clamp_lem_example :
    (length (clamp drawn_key) ≡ 32)
    × (get_or (clamp drawn_key) 0 0 % 8 ≡ 0)
    × (64 ≤ get_or (clamp drawn_key) 31 0)
    × (get_or (clamp drawn_key) 31 0 < 128)
    × ((i : ℕ) → 0 < i → i < 31 → get_or (clamp drawn_key) i 0 ≡ get_or drawn_key i 0)
clamp_lem_example = clamp_lem drawn_key (replicate-IsBytes 32) refl

-- A node asks for its events, and nothing else has happened.
abbrev one_stream : Orchestrator
one_stream = (subscribe (ascii "n") new).1

asked : serve toy_hash true (get_events (ascii "n")) 5 new ≡ some (stream 0, one_stream)
unfolding serve subscribe make
asked = refl

one_stream-Reaches : Reaches toy_hash ((ascii "n", 0) ∷ []) one_stream
one_stream-Reaches = served true (get_events (ascii "n")) 5 (stream 0) at_start asked

-- A draw that always gives the first index.
abbrev first_index : ℕ → Option ℕ
first_index zero = none
first_index (suc n) = some 0

first_index-in_range : (n i : ℕ) → first_index n ≡ some i → i < n
first_index-in_range zero i e = cc
first_index-in_range (suc n) i e = ground arith

Reaches-serve_example :
    ((answer : Answer) × (o' : Orchestrator) × (serve toy_hash true get_map 7 one_stream
        ≡ some (answer, o')))
    × ((o' : Orchestrator) × (scheduled_round first_index none one_stream ≡ some o'))
Reaches-serve_example =
    Reaches-serve toy_hash ((ascii "n", 0) ∷ []) one_stream true get_map 7 first_index none
      one_stream-Reaches first_index-in_range

Reaches-unsubscribe_example :
    (open_at one_stream.channels 0 ≡ true)
    × (o' : Orchestrator) × (unsubscribe (ascii "n") 0 one_stream ≡ some o')
Reaches-unsubscribe_example =
    Reaches-unsubscribe toy_hash ((ascii "n", 0) ∷ []) one_stream (ascii "n", 0) one_stream-Reaches
      (Memᴰ.head refl)
