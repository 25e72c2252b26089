-- ===== src/Client/Cluster/Live.antt =====
-- Which shares the members of a group give when some of them are down.
use mathlib.Core.List.{Memᴰ}
use genomedb.Base.{
  subst, ℕ, suc, Bool, Distinct, ◌≡◌, ◌≢◌, refl, sym, ap, ap₂, ◌∙◌, true, false, List, [], ◌∷◌,
  ◌++◌, length, if◌then◌else◌, inl, inr, Bool-cases, Bytes, bytes_eq, bytes_eq_refl, bytes_eq_iff,
  All, arith,
}
use genomedb.Crypto.Shamir.{Share}
use genomedb.Peer.Client.{fetch_group_share}
use genomedb.Store.Tables.{Member}
use genomedb.Transport.{Http, Json}
use genomedb.Client.Cluster.{Cluster, IsName, HoldAll, Holds, StandAll}
use genomedb.Client.Cluster.Deliveries.{AreApart, Holds-same}
use genomedb.Client.Node.{Packages}
use genomedb.Client.Reconstruct.Recovery.{all_held, shares_in}

abbrev pub if_up : Bool → Share → List Share
if_up up s = if up then s ∷ [] else []

-- The shares of those that are up.
abbrev pub live : List Share → List Bool → List Share
live [] ups = []
live (s ∷ shares) [] = []
live (s ∷ shares) (up ∷ ups) = if_up up s ++ live shares ups

-- How many are up.
abbrev pub count_up : List Bool → ℕ
count_up [] = 0
count_up (up ∷ ups) = let rest = count_up ups in if up then suc rest else rest

pub live-All :
    (P : Share → Type 0) (shares : List Share) (ups : List Bool)
    → All P shares
    → All P (live shares ups)
live-All P [] ups all = tt
live-All P (s ∷ shares) [] all = tt
live-All P (s ∷ shares) (true ∷ ups) all = (all.0, live-All P shares ups all.1)
live-All P (s ∷ shares) (false ∷ ups) all = live-All P shares ups all.1

pub live-Distinct :
    (shares : List Share) (ups : List Bool) → Distinct shares → Distinct (live shares ups)
live-Distinct [] ups d = tt
live-Distinct (s ∷ shares) [] d = tt
live-Distinct (s ∷ shares) (true ∷ ups) d =
    (live-All (λ z. z ≢ s) shares ups d.0, live-Distinct shares ups d.1)
live-Distinct (s ∷ shares) (false ∷ ups) d = live-Distinct shares ups d.1

pub length-live :
    (shares : List Share) (ups : List Bool)
    → length shares ≡ length ups
    → length (live shares ups) ≡ count_up ups
length-live [] [] len = refl
length-live [] (up ∷ ups) len = cc
length-live (s ∷ shares) [] len = cc
length-live (s ∷ shares) (true ∷ ups) len = ap suc (length-live shares ups (omega (arith, len)))
length-live (s ∷ shares) (false ∷ ups) len = length-live shares ups (omega (arith, len))

-- What a member gives of the shares that the members were given.
abbrev pub given : List Member → List Share → List Bool → Member → List Share
given [] shares ups m = []
given (k ∷ ks) [] ups m = []
given (k ∷ ks) (s ∷ shares) [] m = []
given (k ∷ ks) (s ∷ shares) (up ∷ ups) m =
    let rest = given ks shares ups m in if bytes_eq k.endpoint m.endpoint then if_up up s else rest

-- What this node holds, and what the others give.
abbrev pub held_by : Bytes → Share → List Member → List Share → List Bool → Member → List Share
held_by node_id own ks shares ups m =
    if bytes_eq m.node_id node_id then own ∷ [] else given ks shares ups m

pub all_held-same :
    (f f' : Member → List Share) (ms : List Member)
    → All (λ (m : Member). f m ≡ f' m) ms
    → all_held f ms ≡ all_held f' ms
all_held-same f f' [] same = refl
all_held-same f f' (m ∷ ms) same =
    ap₂ (λ (a b : List Share). a ++ b) same.0 (all_held-same f f' ms same.1)

module _ {p : Packages} {h : Http} {json : Json} (c : Cluster p h json) where
  -- The shares of those that are up, while they are.
  abbrev pub HoldLive : Bytes → Bytes → h.State → List Member → List Share → List Bool → Type 0
  HoldLive group_id token net [] shares ups = Unit
  HoldLive group_id token net (m ∷ ms) [] ups = ⊥
  HoldLive group_id token net (m ∷ ms) (s ∷ shares) [] = ⊥
  HoldLive group_id token net (m ∷ ms) (s ∷ shares) (up ∷ ups) =
      c.Stands up m.endpoint net
      × (up ≡ true → Holds c group_id token net m.endpoint s)
      × HoldLive group_id token net ms shares ups

  pub HoldAll-HoldLive :
      (group_id token : Bytes) (net later : h.State) (ms : List Member) (shares : List Share)
      → (ups : List Bool) → StandAll c net later ms ups
      → HoldAll c group_id token net ms shares
      → HoldLive group_id token later ms shares ups
  HoldAll-HoldLive group_id token net later [] shares ups stand hold = tt
  HoldAll-HoldLive group_id token net later (m ∷ ms) [] ups stand hold = hold
  HoldAll-HoldLive group_id token net later (m ∷ ms) (s ∷ shares) [] stand hold = stand
  HoldAll-HoldLive group_id token net later (m ∷ ms) (s ∷ shares) (up ∷ ups) stand hold = (
    stand.0,
    λ is_up. Holds-same c group_id token m.endpoint s net later (stand.1 is_up) hold.0,
    HoldAll-HoldLive group_id token net later ms shares ups stand.2 hold.1,
  )

  pub length-StandAll :
      (net later : h.State) (ms : List Member) (ups : List Bool)
      → StandAll c net later ms ups
      → length ms ≡ length ups
  length-StandAll net later [] [] stand = refl
  length-StandAll net later [] (up ∷ ups) stand = absurd stand
  length-StandAll net later (m ∷ ms) [] stand = absurd stand
  length-StandAll net later (m ∷ ms) (up ∷ ups) stand =
      ap suc (length-StandAll net later ms ups stand.2)

  -- A question leaves the shares where they are.
  pub HoldLive-asked :
      (address group_id token : Bytes) (net : h.State) (ms : List Member) (shares : List Share)
      → (ups : List Bool) → c.IsAddress address
      → HoldLive group_id token net ms shares ups
      → HoldLive group_id token
          (fetch_group_share h json address group_id token net).1
          ms
          shares
          ups
  HoldLive-asked address group_id token net [] shares ups there hold = tt
  HoldLive-asked address group_id token net (m ∷ ms) [] ups there hold = hold
  HoldLive-asked address group_id token net (m ∷ ms) (s ∷ shares) [] there hold = hold
  HoldLive-asked address group_id token net (m ∷ ms) (s ∷ shares) (up ∷ ups) there hold = (
    c.asks_leave up address m.endpoint group_id token net there hold.0,
    λ is_up.
        Holds-same c group_id token m.endpoint s net
          (fetch_group_share h json address group_id token net).1
          (c.asks address m.endpoint group_id token net there) (hold.1 is_up),
    HoldLive-asked address group_id token net ms shares ups there hold.2,
  )

  given-skips :
      (k : Member) (ks : List Member) (s : Share) (shares : List Share) (up : Bool)
      (ups : List Bool) (ms : List Member)
      → All (λ (m : Member). m.endpoint ≢ k.endpoint) ms
      → All (λ (m : Member). given (k ∷ ks) (s ∷ shares) (up ∷ ups) m ≡ given ks shares ups m) ms
  given-skips k ks s shares up ups [] differ = tt
  given-skips k ks s shares up ups (m ∷ ms) differ = (
    elim (Bool-cases (bytes_eq k.endpoint m.endpoint)) [
      | inl same ↦ absurd (differ.0 (sym ((bytes_eq_iff k.endpoint m.endpoint).0 same)))
      | inr other ↦ rw (other)
    ],
    given-skips k ks s shares up ups ms differ.1,
  )

  -- What the members give is all the shares of those that are up.
  pub all_held-given :
      (ms : List Member) (shares : List Share) (ups : List Bool)
      → AreApart c ms
      → length ms ≡ length shares
      → length ms ≡ length ups
      → all_held (given ms shares ups) ms ≡ live shares ups
  all_held-given [] [] ups apart len len' = refl
  all_held-given [] (s ∷ shares) ups apart len len' = cc
  all_held-given (m ∷ ms) [] ups apart len len' = cc
  all_held-given (m ∷ ms) (s ∷ shares) [] apart len len' = cc
  all_held-given (m ∷ ms) (s ∷ shares) (up ∷ ups) apart len len' =
      ap₂ (λ (a b : List Share). a ++ b)
        (ap (λ b. if b then if_up up s else given ms shares ups m) (bytes_eq_refl m.endpoint))
        (all_held-same (given (m ∷ ms) (s ∷ shares) (up ∷ ups)) (given ms shares ups) ms
            (given-skips m ms s shares up ups ms apart.1)
          ∙ all_held-given ms shares ups apart.2 (omega (arith, len)) (omega (arith, len')))

  -- A member gives its share if it is up, and nothing if not.
  asked_lem :
      (group_id token : Bytes) (net : h.State) (k : Member) (s : Share) (up : Bool)
      → IsName group_id
      → IsName token
      → c.IsAddress k.endpoint
      → c.Stands up k.endpoint net
      → (up ≡ true → Holds c group_id token net k.endpoint s)
      → shares_in (fetch_group_share h json k.endpoint group_id token net).0 ≡ if_up up s
  asked_lem group_id token net k s true id secret address stands holds =
      ap shares_in (c.answers k.endpoint group_id token net _ address id secret stands (holds refl))
  asked_lem group_id token net k s false id secret address stands holds =
      let (e, failed) = c.silent k.endpoint group_id token net address stands in ap shares_in failed

  pub HoldLive-given :
      (group_id token : Bytes) (net : h.State) (ms : List Member) (shares : List Share)
      → (ups : List Bool) (m : Member) → IsName group_id
      → IsName token
      → AreApart c ms
      → HoldLive group_id token net ms shares ups
      → Memᴰ m ms
      → shares_in (fetch_group_share h json m.endpoint group_id token net).0 ≡ given ms shares ups m
  HoldLive-given group_id token net [] shares ups m id secret apart hold mem = elim mem [ ]
  HoldLive-given group_id token net (k ∷ ks) [] ups m id secret apart hold mem = absurd hold
  HoldLive-given group_id token net (k ∷ ks) (s ∷ shares) [] m id secret apart hold mem =
      absurd hold
  HoldLive-given group_id token net (k ∷ ks) (s ∷ shares) (up ∷ ups) m id secret apart hold mem =
      elim (Bool-cases (bytes_eq k.endpoint m.endpoint)) [
        | inl same ↦
            ap (λ (a : Bytes). shares_in (fetch_group_share h json a group_id token net).0)
              (sym ((bytes_eq_iff k.endpoint m.endpoint).0 same))
            ∙ asked_lem group_id token net k s up id secret apart.0 hold.0 hold.1
            ∙ rw (same)
        | inr other ↦ elim mem [
          | Memᴰ.head e ↦
              let bad : false ≡ true =
                sym other
                ∙ ap (λ (z : Member). bytes_eq k.endpoint z.endpoint) e
                ∙ bytes_eq_refl k.endpoint in
              cc
          | Memᴰ.tail later ↦
              HoldLive-given group_id token net ks shares ups m id secret apart.2 hold.2 later
              ∙ rw (other)
        ]
      ]

  pub address_of_member :
      (ms : List Member) (m : Member) → AreApart c ms → Memᴰ m ms → c.IsAddress m.endpoint
  address_of_member [] m apart mem = elim mem [ ]
  address_of_member (k ∷ ks) m apart (Memᴰ.head e) =
      subst (λ (z : Member). c.IsAddress z.endpoint) (sym e) apart.0
  address_of_member (k ∷ ks) m apart (Memᴰ.tail later) = address_of_member ks m apart.2 later
