-- ===== src/Tests/Wire.antt =====
-- Concrete stand-ins for net/http and encoding/json: nodes with addresses of one byte, which take the
-- patterns of two of the handlers of client/peerserver.go.
pub mod Codec
use genomedb.Base.{
  ascii, arith, All, not, ◌||◌, ◌&&◌, ◌==◌, Bool, true, false, ℕ, ◌≡◌, ◌≢◌, refl, sym, ap, ap₂, ◌∙◌,
  Option, none, some, List, [], ◌∷◌, ◌++◌, take, drop, length, Bytes, bytes_eq, bytes_eq_iff,
  bytes_eq_refl, if◌then◌else◌, Result, ok, err, subst, inl, inr, Bool-cases, leb,
}
use genomedb.Peer.{DeliverShareRequest, ShareResponse}
use genomedb.Peer.Client.{deliver_share_to, fetch_group_share}
use genomedb.Protocol.{RouteAnnounce}
use genomedb.Protocol.Client.{send_announce}
use genomedb.Store.Tables.{AreText}
use genomedb.Transport.{
  Http, HttpRequest, HttpResponse, Json, get, post, refused, unreachable, HttpError,
}
use genomedb.Client.Cluster.{IsName, is_alphanumeric, Cluster}
use genomedb.Client.Node.{Node, Call}
use genomedb.Client.PeerServer.{
  Reply, no_content, bad_request, internal_server_error, not_found, forbidden, presence, share,
  deliver_share, fetch_share,
}
use genomedb.Tests.Parameters.{
  IsLetter, toy_packages, toy_marshal, toy_unmarshal, toy_unmarshal-toy_marshal,
}
use genomedb.Tests.Wire.Codec.{encode, decode, decode-encode}

abbrev Nodes : Type 0
Nodes = Bytes → Node ℕ

-- The state also says which address is down.
abbrev Places : Type 0
Places = Nodes × (Bytes → Bool)

-- The node at one address replaced.
abbrev set_node : Bytes → Node ℕ → Nodes → Nodes
set_node address n nodes other = if bytes_eq other address then n else nodes other

abbrev status_of : Reply → HttpResponse
status_of no_content = record { status = 204; body = [] }
status_of bad_request = record { status = 400; body = [] }
status_of internal_server_error = record { status = 500; body = [] }
status_of not_found = record { status = 404; body = [] }
status_of forbidden = record { status = 403; body = [] }
status_of (presence r) = record { status = 200; body = [] }
status_of (share r) = record { status = 200; body = r.epoch ∷ r.share }

abbrev delivery_status : Reply → HttpResponse
delivery_status no_content = record { status = 204; body = [] }
delivery_status r = record { status = 500; body = [] }

abbrev answered : Reply → Result HttpError (Unit {0})
answered r =
    if leb 300 (delivery_status r).status
    then err (refused (delivery_status r).status (delivery_status r).body)
    else ok tt

err-ne-ok : {A : Type 0} {x : HttpError} {a : A} → ◌≡◌ {A = Result HttpError A} (err x) (ok a) → ⊥
err-ne-ok e = cc

abbrev address_of : Bytes → Bytes
address_of [] = []
address_of (c ∷ url) = c ∷ []

abbrev path_of : Bytes → Bytes
path_of url = drop 1 url

abbrev group_prefix : Bytes
group_prefix = ascii "/peer/group/"

unfoldable pub has_slash : Bytes → Bool
has_slash [] = false
has_slash (c ∷ text) = c == 47 || has_slash text

abbrev is_segment : Bytes → Bool
is_segment [] = false
is_segment (c ∷ text) = not (has_slash (c ∷ text))

-- The patterns "POST /peer/deliver" and "GET /peer/group/{group_id}".
unfoldable pub is_delivery : Bytes → Bool
is_delivery url = bytes_eq (path_of url) (ascii "/peer/deliver")

unfoldable pub group_of : Bytes → Option Bytes
unfolding has_slash
group_of url =
    if bytes_eq (take 12 (path_of url)) group_prefix && is_segment (drop 12 (path_of url))
    then some (drop 12 (path_of url))
    else none

alphanumeric-has_slash :
    (text : Bytes) → All (λ b. is_alphanumeric b ≡ true) text → has_slash text ≡ false
unfolding has_slash
alphanumeric-has_slash [] plain = refl
alphanumeric-has_slash (c ∷ text) plain =
    let other : c == 47 ≡ false = ground (arith, plain.0) in
    rw (other) (alphanumeric-has_slash text plain.1)

group_of_path :
    (c : ℕ) (name : Bytes) → IsName name → group_of (c ∷ ascii "/peer/group/" ++ name) ≡ some name
unfolding group_of bytes_eq
group_of_path c [] is_name = elim is_name [ ]
group_of_path c (b ∷ name) is_name = rw (group_of, alphanumeric-has_slash (b ∷ name) is_name)

delivery_path : (c : ℕ) → is_delivery (c ∷ ascii "/peer/deliver") ≡ true
unfolding is_delivery bytes_eq
delivery_path c = refl

abbrev serve_post : Bytes → Option DeliverShareRequest → Nodes → Option HttpResponse × Nodes
serve_post address none nodes = (some (record { status = 400; body = [] }), nodes)
serve_post address (some req) nodes =
    let (reply, calls, n) = deliver_share toy_packages (some req) 100 (nodes address) in
    (some (delivery_status reply), set_node address n nodes)

-- A question about a group, or one about another path.
abbrev serve_get : Option Bytes → Bytes → Node ℕ → HttpResponse
serve_get none token n = record { status = 404; body = [] }
serve_get (some group_id) token n = status_of (fetch_share toy_packages group_id token n.store)

abbrev serve : HttpRequest → Places → Option HttpResponse × Places
serve req (nodes, up) = elim req.method [
  | get ↦ (
    some (
        if up (address_of req.url)
        then serve_get (group_of req.url) req.token (nodes (address_of req.url))
        else record { status = 503; body = [] }),
    (nodes, up),
  )
  | post ↦
      let (answer, nodes') =
        serve_post (address_of req.url) (if is_delivery req.url then decode req.body else none)
          nodes in
      (answer, (nodes', up))
]

abbrev pub wire : Http
wire = record { State = Places; send = serve }

abbrev read_share : Bytes → Option ShareResponse
read_share [] = none
read_share (epoch ∷ content) = some (record { share = content; epoch = epoch })

abbrev pub wire_json : Json
wire_json = record {
  marshal_deliver = encode;
  marshal_notice = λ req. [];
  unmarshal_presence = λ b. none;
  unmarshal_share = read_share;
  marshal_register = λ r. [];
  unmarshal_registered = λ b. none;
  marshal_announce = λ a. [];
  marshal_heartbeat = λ b. [];
  marshal_ack = λ a. [];
  marshal_alert = λ a. [];
  unmarshal_nodes = λ b. none;
  unmarshal_routes = λ b. none;
}

abbrev pub IsByte : Bytes → Type 0
IsByte b = (c : ℕ) × (b ≡ c ∷ [])

pub wire_asks :
    (address other group_id token : Bytes) (net : Places)
    → IsByte address
    → ((fetch_group_share wire wire_json address group_id token net).1.0 other).store
      ≡ (net.0 other).store
unfolding fetch_group_share
wire_asks address other group_id token net here = refl

-- The orchestrator's address.
abbrev pub IsDirectory : Bytes → Type 0
IsDirectory url = url ≡ ascii "o"

pub wire_announces :
    (url other : Bytes) (a : RouteAnnounce) (net : Places)
    → IsDirectory url
    → ((send_announce wire url wire_json a net).1.0 other).store ≡ (net.0 other).store
unfolding send_announce is_delivery bytes_eq
wire_announces url other a net there =
    subst
      (λ (u : Bytes).
        ((send_announce wire u wire_json a net).1.0 other).store ≡ (net.0 other).store)
      (sym there) refl

pub wire_answers :
    (address group_id token : Bytes) (net : Places) (answer : ShareResponse)
    → IsByte address
    → IsName group_id
    → IsName token
    → net.1 address ≡ true
    → fetch_share toy_packages group_id token (net.0 address).store ≡ share answer
    → (fetch_group_share wire wire_json address group_id token net).0 ≡ ok answer
unfolding fetch_group_share
wire_answers address group_id token net answer (c, e) name secret is_up held =
    subst
      (λ (address : Bytes).
        net.1 address ≡ true
        → fetch_share toy_packages group_id token (net.0 address).store ≡ share answer
        → (fetch_group_share wire wire_json address group_id token net).0 ≡ ok answer)
      (sym e) (λ up here. rw (up, group_of_path c group_id name, here)) is_up held

-- What becomes of a delivery, by what the body says.
abbrev outcome : Bytes → Option DeliverShareRequest → Places → Result HttpError (Unit {0}) × Places
outcome address body net =
    let (answer, nodes) = serve_post address body net.0 in
    elim answer [
      | none ↦ (err unreachable, (nodes, net.1))
      | some r ↦ (if leb 300 r.status then err (refused r.status r.body) else ok tt, (nodes, net.1))
    ]

sent :
    (c : ℕ) (req : DeliverShareRequest) (net : Places)
    → deliver_share_to wire wire_json (c ∷ []) req net ≡ outcome (c ∷ []) (decode (encode req)) net
unfolding deliver_share_to
sent c req net =
    ap (λ b. outcome (c ∷ []) (if b then decode (encode req) else none) net) (delivery_path c)

-- A delivery to the address of one byte.
posted :
    (c : ℕ) (req : DeliverShareRequest) (net : Places)
    → AreText toy_packages.codec req.members
    → deliver_share_to wire wire_json (c ∷ []) req net ≡ (
      answered (deliver_share toy_packages (some req) 100 (net.0 (c ∷ []))).0,
      (
        set_node (c ∷ []) (deliver_share toy_packages (some req) 100 (net.0 (c ∷ []))).2 net.0,
        net.1,
      ),
    )
posted c req net text =
    sent c req net ∙ ap (λ body. outcome (c ∷ []) body net) (decode-encode req text)

-- Only one reply to a delivery is taken for success.
answered_ok :
    (r : Reply) (address : Bytes) (n : Node ℕ) (net net' : Places)
    → ◌≡◌ {A = Result HttpError (Unit {0}) × Places}
        (answered r, (set_node address n net.0, net.1))
        (ok tt, net')
    → (r ≡ no_content) × (n ≡ net'.0 address)
answered_ok no_content address n net net' run = (
  refl,
  ap (λ b. if b then n else net.0 address) (sym (bytes_eq_refl address))
      ∙ ap (λ r. r.1.0 address) run,
)
answered_ok bad_request address n net net' run = absurd (err-ne-ok (ap (λ r. r.0) run))
answered_ok internal_server_error address n net net' run = absurd (err-ne-ok (ap (λ r. r.0) run))
answered_ok not_found address n net net' run = absurd (err-ne-ok (ap (λ r. r.0) run))
answered_ok forbidden address n net net' run = absurd (err-ne-ok (ap (λ r. r.0) run))
answered_ok (presence a) address n net net' run = absurd (err-ne-ok (ap (λ r. r.0) run))
answered_ok (share a) address n net net' run = absurd (err-ne-ok (ap (λ r. r.0) run))

pub wire_delivers :
    (address : Bytes) (req : DeliverShareRequest) (net net' : Places)
    → IsByte address
    → IsName req.group_id
    → IsName req.group_token
    → IsLetter req.pid
    → AreText toy_packages.codec req.members
    → deliver_share_to wire wire_json address req net ≡ (ok tt, net')
    → (now : ℕ) × (calls : List Call) × (deliver_share toy_packages (some req) now (net.0 address)
        ≡ (no_content, calls, net'.0 address))
wire_delivers address req net net' (c, e) id token pid text run =
    subst
      (λ (address : Bytes).
        deliver_share_to wire wire_json address req net ≡ (ok tt, net')
        → (now : ℕ) × (calls : List Call) × (deliver_share toy_packages (some req) now
              (net.0 address)
            ≡ (no_content, calls, net'.0 address)))
      (sym e)
      (λ here.
        let done = deliver_share toy_packages (some req) 100 (net.0 (c ∷ [])) in
        let (replied, after) =
          answered_ok done.0 (c ∷ []) done.2 net net' (sym (posted c req net text) ∙ here) in
        (100, done.1, ap₂ (λ (r : Reply) (n : Node ℕ). (r, done.1, n)) replied after))
      run

outcome_elsewhere :
    (address other : Bytes) (body : Option DeliverShareRequest) (net : Places)
    → other ≢ address
    → ((outcome address body net).1.0 other).store ≡ (net.0 other).store
outcome_elsewhere address other none net differs = refl
outcome_elsewhere address other (some req) net differs =
    elim (Bool-cases (bytes_eq other address)) [
      | inl same ↦ absurd (differs ((bytes_eq_iff other address).0 same))
      | inr differ ↦ rw (differ)
    ]

pub wire_delivers_there :
    (address other : Bytes) (req : DeliverShareRequest) (net : Places)
    → IsByte address
    → other ≢ address
    → ((deliver_share_to wire wire_json address req net).1.0 other).store ≡ (net.0 other).store
wire_delivers_there address other req net (c, e) differs =
    subst
      (λ (address : Bytes).
        other ≢ address
        → ((deliver_share_to wire wire_json address req net).1.0 other).store ≡ (net.0 other).store)
      (sym e)
      (λ here.
        ap (λ r. (r.1.0 other).store) (sent c req net)
        ∙ outcome_elsewhere (c ∷ []) other (decode (encode req)) net here)
      differs

pub wire_silent :
    (address group_id token : Bytes) (net : Places)
    → IsByte address
    → net.1 address ≡ false
    → (e : HttpError) × ((fetch_group_share wire wire_json address group_id token net).0 ≡ err e)
unfolding fetch_group_share
wire_silent address group_id token net (c, e) down =
    subst
      (λ (address : Bytes).
        net.1 address ≡ false
        → (e : HttpError) × ((fetch_group_share wire wire_json address group_id token net).0
            ≡ err e))
      (sym e) (λ here. (refused 503 [], rw (here))) down

pub wire_asks_leave :
    (answers : Bool) (address other group_id token : Bytes) (net : Places)
    → IsByte address
    → net.1 other ≡ answers
    → (fetch_group_share wire wire_json address group_id token net).1.1 other ≡ answers
unfolding fetch_group_share
wire_asks_leave answers address other group_id token net here stands = stands

-- Every node has an address of one byte, and so has the orchestrator.
abbrev pub wired : Cluster toy_packages wire wire_json
wired = record {
  IsAddress = IsByte;
  node_at = λ address net. net.0 address;
  IsOrchestrator = IsDirectory;
  Stands = λ answers address net. net.1 address ≡ answers;
  delivers = wire_delivers;
  delivers_there = wire_delivers_there;
  answers = wire_answers;
  silent = wire_silent;
  asks_leave = wire_asks_leave;
  asks = wire_asks;
  announces = wire_announces;
}
