-- ===== src/Tests/Wire/Codec.antt =====
-- A text of a delivery in which each string follows its length.
use genomedb.Base.{
  ℕ, ◌≡◌, refl, ap, ap₂, ◌∙◌, Option, none, some, [], ◌∷◌, ◌++◌, take, drop, length, Bytes,
}
use genomedb.Peer.{DeliverShareRequest}
use genomedb.Store.Tables.{AreText}
use genomedb.Tests.Parameters.{toy_packages, toy_marshal, toy_unmarshal, toy_unmarshal-toy_marshal}

unfoldable pub put_string : Bytes → Bytes → Bytes
put_string b rest = length b ∷ (b ++ rest)

unfoldable pub get_string :
    Bytes → (Bytes → Bytes → Option DeliverShareRequest) → Option DeliverShareRequest
get_string [] next = none
get_string (n ∷ bytes) next = next (take n bytes) (drop n bytes)

take-append : (b rest : Bytes) → take (length b) (b ++ rest) ≡ b
take-append [] rest = refl
take-append (x ∷ b) rest = ap (λ t. x ∷ t) (take-append b rest)

drop-append : (b rest : Bytes) → drop (length b) (b ++ rest) ≡ rest
drop-append [] rest = refl
drop-append (x ∷ b) rest = drop-append b rest

get_string-put_string :
    (b rest : Bytes) (next : Bytes → Bytes → Option DeliverShareRequest)
    → get_string (put_string b rest) next ≡ next b rest
unfolding get_string put_string
get_string-put_string b rest next = ap₂ next (take-append b rest) (drop-append b rest)

unfoldable pub encode : DeliverShareRequest → Bytes
encode req =
    req.epoch
    ∷ req.threshold
    ∷ req.total
    ∷ put_string req.group_id (
        put_string req.group_token (
          put_string req.pid
            (put_string req.key (put_string req.ciphertext (toy_marshal req.members)))))

abbrev decode_fields : ℕ → ℕ → ℕ → Bytes → Option DeliverShareRequest
decode_fields epoch threshold total bytes = get_string bytes λ group_id b1.
    get_string b1 λ group_token b2. get_string b2 λ pid b3. get_string b3 λ key b4.
      get_string b4 λ ciphertext b5. elim (toy_unmarshal b5) [
        | none ↦ none
        | some members ↦ some (record {
          group_id = group_id;
          group_token = group_token;
          pid = pid;
          epoch = epoch;
          threshold = threshold;
          total = total;
          key = key;
          ciphertext = ciphertext;
          members = members;
        })
      ]

unfoldable pub decode : Bytes → Option DeliverShareRequest
decode [] = none
decode (a ∷ []) = none
decode (a ∷ b ∷ []) = none
decode (a ∷ b ∷ c ∷ bytes) = decode_fields a b c bytes

pub decode-encode :
    (req : DeliverShareRequest)
    → AreText toy_packages.codec req.members
    → decode (encode req) ≡ some req
unfolding decode encode
decode-encode req text =
    get_string-put_string req.group_id _ _
    ∙ get_string-put_string req.group_token _ _
    ∙ get_string-put_string req.pid _ _
    ∙ get_string-put_string req.key _ _
    ∙ get_string-put_string req.ciphertext _ _
    ∙ rw (toy_unmarshal-toy_marshal req.members text)
