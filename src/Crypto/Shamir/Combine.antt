-- ===== src/Crypto/Shamir/Combine.antt =====
-- Combine of crypto/shamir.go computes Lagrange interpolation at zero in the field of bytes.
use genomedb.Base.{
  ℕ, suc, ◌+◌, ◌≤◌, ◌≡◌, ◌≢◌, refl, sym, ap, ap₂, subst, ◌∙◌, false, some, List, [], ◌∷◌, ◌++◌, map,
  arith, Bytes, length, length-map, length-append, get_or, ltb, leb, ◌-◌, All, All-map, Distinct,
  All-of_mem, All-left, append_assoc, append-nil, ok,
}
use mathlib.Core.List.{map-append}
use native.Mathlib.Numerals.{add-one}
use genomedb.Crypto.Field.{Field}
use genomedb.Crypto.Field.Poly.{eval}
use genomedb.Crypto.Field.Lagrange.{Distinct-middle, at_zero, at_zero_lem}
use genomedb.Crypto.Shamir.{Share, sum_terms, recover, validate, contains, combine}
use genomedb.Crypto.Shamir.Elements.{Element, val, element_path, bytes_field}
use genomedb.Crypto.Shamir.Terms.{points, nodes-points, sum_terms_lem}

abbrev k : Field Element
k = bytes_field

infixl 65 ◌⊕◌
infixl 70 ◌⊗◌
open k use {zero as 𝟘, one as 𝟙, ◌⊕◌, ◌⊗◌}

-- The share at node `x` of the polynomials `polys`, one for each byte of the secret.
unfoldable pub share_at : List (List Element) → Element → Share
share_at polys x = val x ∷ map (λ cs. val (eval bytes_field cs x)) polys

get_or-middle :
    {A : Type 0} (f : A → ℕ) (left : List A) (a : A) (right : List A)
    → get_or (map f (left ++ a ∷ right)) (length left) 0 ≡ f a
get_or-middle f [] a right = refl
get_or-middle f (l ∷ left) a right = get_or-middle f left a right

read-share_at :
    (left : List (List Element)) (cs : List Element) (right : List (List Element)) (x : Element)
    → get_or (share_at (left ++ cs ∷ right) x) (length left + 1) 0 ≡ val (eval k cs x)
unfolding share_at
read-share_at left cs right x =
    ap (λ i. get_or (share_at (left ++ cs ∷ right) x) i 0) (add-one (length left))
    ∙ get_or-middle (λ cs. val (eval k cs x)) left cs right

recover_step :
    (n byte_idx : ℕ) (xs : List ℕ) (shares : List Share) (b : ℕ) (secret : Bytes)
    → sum_terms byte_idx xs 0 shares 0 ≡ some b
    → recover n (byte_idx + 1) xs shares ≡ ok secret
    → recover (suc n) byte_idx xs shares ≡ ok (b ∷ secret)
unfolding recover
recover_step n byte_idx xs shares b secret e1 e2 = rw (recover, e1, e2)

unfoldable pub secret_byte : List Element → ℕ
secret_byte cs = val (eval bytes_field cs (bytes_field.zero))

-- One byte of the secret is the value at zero of its polynomial.
sum_terms-eval :
    (left : List (List Element)) (cs : List Element) (right : List (List Element))
    (ns : List Element)
    → Distinct ns
    → length cs ≤ length ns
    → sum_terms (length left) (map val ns) 0 (map (share_at (left ++ cs ∷ right)) ns) 0
      ≡ some (secret_byte cs)
unfolding secret_byte bytes_field
sum_terms-eval left cs right ns d h =
    let y = λ (x : Element). eval k cs x in
    let on : All (λ (p : Element × Element). p.1 ≡ eval k cs p.0) (points y ns) =
      All-map (λ (p : Element × Element). p.1 ≡ eval k cs p.0) (λ x. (x, y x)) ns
        (All-of_mem ns (λ x _. refl)) in
    sum_terms_lem (length left) (share_at (left ++ cs ∷ right)) y (read-share_at left cs right) []
      ns 𝟘 d
    ∙ ap (λ t. some (val t))
        (k.zero-add (at_zero k [] (points y ns))
          ∙ at_zero_lem k cs (points y ns)
              (omega (arith, length-map {B = Element × Element} ns (λ x. (x, y x))))
              (subst (Distinct) (sym (nodes-points y ns)) d) on)

-- The loop over the bytes yields the values at zero.
recover_lem :
    (left right : List (List Element)) (ns : List Element)
    → Distinct ns
    → All (λ cs. length cs ≤ length ns) right
    → recover (length right) (length left) (map val ns) (map (share_at (left ++ right)) ns)
      ≡ ok (map secret_byte right)
unfolding recover
recover_lem left [] ns d h = refl
recover_lem left (cs ∷ right) ns d h =
    let shares = map (share_at (left ++ cs ∷ right)) ns in
    let next : recover (length right) (length left + 1) (map val ns) shares
        ≡ ok (map secret_byte right) =
      ap₂
        (λ n (ps : List (List Element)).
          recover (length right) n (map val ns) (map (share_at ps) ns))
        (omega (arith, length-append left (cs ∷ []))) (sym (append_assoc left (cs ∷ []) right))
      ∙ recover_lem (left ++ cs ∷ []) right ns d h.1 in
    recover_step (length right) (length left) (map val ns) shares (secret_byte cs)
      (map secret_byte right) (sum_terms-eval left cs right ns d h.0) next

not_contained :
    (x : Element) (ls : List Element) → All (λ z. z ≢ x) ls → contains (val x) (map val ls) ≡ false
unfolding contains
not_contained x [] h = refl
not_contained x (z ∷ ls) h =
    let differs : val z ≢ val x = λ e. h.0 (element_path z x e) in
    ground (arith, not_contained x ls h.1)

validate_step :
    (len : ℕ) (xs : List ℕ) (s : Share) (shares : List Share) (x : ℕ)
    → get_or s 0 0 ≡ x
    → length s ≡ len + 1
    → x ≢ 0
    → contains x xs ≡ false
    → validate len xs (s ∷ shares) ≡ validate len (xs ++ x ∷ []) shares
unfolding validate
validate_step len xs s shares x ex el nz fresh = rw (ex, el, fresh) (ground arith)

validate_lem :
    (polys : List (List Element)) (ls ns : List Element)
    → Distinct (ls ++ ns)
    → All (λ (x : Element). val x ≢ 0) ns
    → validate (length polys) (map val ls) (map (share_at polys) ns) ≡ ok (map val (ls ++ ns))
unfolding validate
validate_lem polys ls [] d nz = ap (λ (t : List Element). ok (map val t)) (sym (append-nil ls))
validate_lem polys ls (x ∷ ns) d nz =
    validate_step (length polys) (map val ls) (share_at polys x) (map (share_at polys) ns) (val x)
      (unfold share_at in refl)
      (unfold share_at in
        omega (arith, length-map polys (λ (cs : List Element). val (eval k cs x))))
      nz.0 (not_contained x ls (All-left (λ z. z ≢ x) ls ns (Distinct-middle k ls x ns d)))
    ∙ ap (λ t. validate (length polys) t (map (share_at polys) ns))
        (sym (map-append val ls (x ∷ [])))
    ∙ validate_lem polys (ls ++ x ∷ []) ns (subst (Distinct) (sym (append_assoc ls (x ∷ []) ns)) d)
        nz.1
    ∙ ap (λ (t : List Element). ok (map val t)) (append_assoc ls (x ∷ []) ns)

combine_accepts :
    (shares : List Share) (xs : List ℕ) (secret : Bytes)
    → let len = length (get_or shares 0 []) - 1 in
      2 ≤ length shares
      → 1 ≤ len
      → validate len [] shares ≡ ok xs
      → recover len 0 xs shares ≡ ok secret
      → combine shares ≡ ok secret
unfolding combine
combine_accepts shares xs secret two pos valid recovered =
    let enough : ltb (length shares) 2 ≡ false = ground arith in
    let proper : leb (length (get_or shares 0 [])) 1 ≡ false = ground arith in
    rw (combine, enough, proper, valid, recovered)

combine_step :
    (shares : List Share) (len : ℕ) (xs : List ℕ) (secret : Bytes)
    → 2 ≤ length shares
    → 1 ≤ len
    → length (get_or shares 0 []) ≡ len + 1
    → validate len [] shares ≡ ok xs
    → recover len 0 xs shares ≡ ok secret
    → combine shares ≡ ok secret
combine_step shares len xs secret two pos first valid recovered =
    let less : len ≡ length (get_or shares 0 []) - 1 = omega arith in
    combine_accepts shares xs secret two (omega arith)
      (subst (λ n. validate n [] shares ≡ ok xs) less valid)
      (subst (λ n. recover n 0 xs shares ≡ ok secret) less recovered)

-- Shares of the same polynomials at distinct nodes, as many as the coefficients, give the secret.
pub combine_lem :
    (polys : List (List Element)) (ns : List Element)
    → 1 ≤ length polys
    → 2 ≤ length ns
    → Distinct ns
    → All (λ (x : Element). val x ≢ 0) ns
    → All (λ (cs : List Element). length cs ≤ length ns) polys
    → combine (map (share_at polys) ns) ≡ ok (map secret_byte polys)
combine_lem polys [] some_bytes two d nz deg = absurd (omega arith)
combine_lem polys (x ∷ ns) some_bytes two d nz deg =
    combine_step (map (share_at polys) (x ∷ ns)) (length polys) (map val (x ∷ ns))
      (map secret_byte polys) (omega (arith, length-map ns (share_at polys))) some_bytes
      (unfold share_at in
        omega (arith, length-map polys (λ (cs : List Element). val (eval k cs x))))
      (validate_lem polys [] (x ∷ ns) d nz) (recover_lem [] polys (x ∷ ns) d deg)
