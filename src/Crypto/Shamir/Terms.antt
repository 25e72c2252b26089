-- ===== src/Crypto/Shamir/Terms.antt =====
-- The inner loops of Combine of crypto/shamir.go form the sum of Lagrange interpolation.
use genomedb.Base.{
  ℕ, ◌+◌, ◌<◌, ◌≤◌, ◌≡◌, ◌≢◌, refl, sym, ap, ap₂, subst, ◌∙◌, ◌⊎◌, false, some, List, [], ◌∷◌, ◌++◌,
  map, bit_xor, arith, inl, inr, ==_iff, ◌==◌, length, length-map, length-append, get_or, Distinct,
  if◌then◌else◌, append_assoc,
}
use mathlib.Core.List.{map-append}
use genomedb.Crypto.Gf256.{gf_mul, gf_div}
use genomedb.Crypto.Field.{Field, mul-zero, add-zero}
use genomedb.Crypto.Field.Poly.{eval}
use genomedb.Crypto.Field.Lagrange.{nodes, Distinct-middle, at_zero}
use genomedb.Crypto.Field.Product.{
  product, product_nonzero, product_step, product_step_zero, product-nil, product-append,
}
use genomedb.Crypto.Shamir.{Share, eval_poly, fraction, sum_terms}
use genomedb.Crypto.Shamir.Elements.{Element, val, element_path, bytes_field, gf_div_total}

abbrev pub k : Field Element
k = bytes_field

infixl 65 ◌⊕◌
infixl 70 ◌⊗◌
open k use {zero as 𝟘, one as 𝟙, ◌⊕◌, ◌⊗◌}

-- Horner's rule of the code is the value of the polynomial.
pub eval_poly-eval :
    (cs : List Element) (x : Element) → eval_poly (map val cs) (val x) ≡ val (eval bytes_field cs x)
unfolding eval_poly eval bytes_field
eval_poly-eval [] x = refl
eval_poly-eval (c ∷ []) x = ap val (sym (add-zero k c) ∙ ap (λ t. c ⊕ t) (sym (mul-zero k x)))
eval_poly-eval (c ∷ d ∷ cs) x =
    ap (λ t. bit_xor (gf_mul t (val x)) (val c)) (eval_poly-eval (d ∷ cs) x)
    ∙ ap val
        (k.add_comm (eval k (d ∷ cs) x ⊗ x) c ∙ ap (λ t. c ⊕ t) (k.mul_comm (eval k (d ∷ cs) x) x))

fraction_step :
    (i xi j z : ℕ) (zs : List ℕ) (n d : ℕ)
    → (i == j) ≡ false
    → fraction i xi j (z ∷ zs) n d ≡ fraction i xi (j + 1) zs (gf_mul n z) (gf_mul d (bit_xor xi z))
unfolding fraction
fraction_step i xi j z zs n d other = rw (fraction, other)

fraction_skip :
    (i xi z : ℕ) (zs : List ℕ) (n d : ℕ)
    → fraction i xi i (z ∷ zs) n d ≡ fraction i xi (i + 1) zs n d
unfolding fraction
fraction_skip i xi z zs n d = rw (fraction, (==_iff i i).1 refl)

-- Away from the skipped index, the inner loop multiplies up all that it reads.
fraction_away :
    (i j : ℕ) (x : Element) (zs : List Element) (n d : Element)
    → (i < j) ⊎ (j + length zs ≤ i)
    → fraction i (val x) j (map val zs) (val n) (val d)
      ≡ (val (n ⊗ product k zs 𝟘), val (d ⊗ product k zs x))
unfolding fraction bytes_field
fraction_away i j x [] n d h =
    ap₂ (λ s t. (s, t)) (ap val (product-nil k n 𝟘)) (ap val (product-nil k d x))
fraction_away i j x (z ∷ zs) n d h =
    fraction_step i (val x) j (val z) (map val zs) (val n) (val d) (ground arith)
    ∙ fraction_away i (j + 1) x zs (n ⊗ z) (d ⊗ (x ⊕ z)) (ground arith)
    ∙ ap₂ (λ s t. (s, t)) (ap val (product_step_zero k n z zs)) (ap val (product_step k d x z zs))

fraction-append :
    (i xi j : ℕ) (xs ys : List ℕ) (n d : ℕ)
    → fraction i xi j (xs ++ ys) n d
      ≡ (let (n', d') = fraction i xi j xs n d in fraction i xi (j + length xs) ys n' d')
unfolding fraction
fraction-append i xi j [] ys n d = ap (λ t. fraction i xi t ys n d) (omega arith)
fraction-append i xi j (x ∷ xs) ys n d =
    let n' = if i == j then n else gf_mul n x in
    let d' = if i == j then d else gf_mul d (bit_xor xi x) in
    let (n'', d'') = fraction i xi (j + 1) xs n' d' in
    fraction-append i xi (j + 1) xs ys n' d' ∙ ap (λ t. fraction i xi t ys n'' d'') (omega arith)

-- At the node after `ls`, the inner loop yields the products over all other nodes.
fraction_node :
    (ls : List Element) (x : Element) (rs : List Element)
    → fraction (length ls) (val x) 0 (map val (ls ++ x ∷ rs)) 1 1
      ≡ (val (product k (ls ++ rs) 𝟘), val (product k (ls ++ rs) x))
unfolding bytes_field
fraction_node ls x rs =
    let i = length ls in
    let n = 𝟙 ⊗ product k ls 𝟘 in
    let d = 𝟙 ⊗ product k ls x in
    ap (λ t. fraction i (val x) 0 t 1 1) (map-append val ls (x ∷ rs))
    ∙ fraction-append i (val x) 0 (map val ls) (map val (x ∷ rs)) 1 1
    ∙ ap (λ (p : ℕ × ℕ). fraction i (val x) (0 + length (map val ls)) (map val (x ∷ rs)) p.0 p.1)
        (fraction_away i 0 x ls 𝟙 𝟙 (inr (omega arith)))
    ∙ ap (λ t. fraction i (val x) t (map val (x ∷ rs)) (val n) (val d))
        (omega (arith, length-map ls val))
    ∙ fraction_skip i (val x) (val x) (map val rs) (val n) (val d)
    ∙ fraction_away i (i + 1) x rs n d (inl (omega arith))
    ∙ ap₂ (λ s t. (s, t)) (ap val (joined 𝟘)) (ap val (joined x))
  where
    joined : (y : Element) → 𝟙 ⊗ product k ls y ⊗ product k rs y ≡ product k (ls ++ rs) y
    joined y = product-append k ls rs 𝟙 y ∙ k.one-mul (product k (ls ++ rs) y)

div_ok : (a b : Element) → b ≢ 𝟘 → gf_div (val a) (val b) ≡ some (val (k.div a b))
unfolding bytes_field
div_ok a b nb = (gf_div_total (val a) (val b) a.1 b.1 (λ e. nb (element_path b 𝟘 e))).0

accumulate :
    (acc y q : Element) (n : ℕ)
    → n ≡ val y
    → bit_xor (val acc) (gf_mul n (val q)) ≡ val (acc ⊕ y ⊗ q)
unfolding bytes_field
accumulate acc y q n e = ap (λ t. bit_xor (val acc) (gf_mul t (val q))) e

sum_terms_step :
    (byte_idx : ℕ) (xs : List ℕ) (i x num den q : ℕ) (s : Share) (shares : List Share) (acc : ℕ)
    → get_or xs i 0 ≡ x
    → fraction i x 0 xs 1 1 ≡ (num, den)
    → gf_div num den ≡ some q
    → sum_terms byte_idx xs i (s ∷ shares) acc
      ≡ sum_terms byte_idx xs (i + 1) shares (bit_xor acc (gf_mul (get_or s (byte_idx + 1) 0) q))
unfolding sum_terms
sum_terms_step byte_idx xs i x num den q s shares acc ex ef eq = rw (sum_terms, ex, ef, eq)

get_or-node :
    (ls : List Element) (x : Element) (rs : List Element)
    → get_or (map val (ls ++ x ∷ rs)) (length ls) 0 ≡ val x
get_or-node [] x rs = refl
get_or-node (l ∷ ls) x rs = get_or-node ls x rs

module _ (y : Element → Element) where
  abbrev pub points : List Element → List (Element × Element)
  points = map (λ x. (x, y x))

  pub nodes-points : (ns : List Element) → nodes k (points ns) ≡ ns
  nodes-points [] = refl
  nodes-points (x ∷ ns) = ap (λ t. x ∷ t) (nodes-points ns)

  at_zero-cons :
      (ls : List Element) (x : Element) (ns : List Element)
      → at_zero k ls (points (x ∷ ns))
        ≡ y x ⊗ k.div (product k (ls ++ ns) 𝟘) (product k (ls ++ ns) x)
          ⊕ at_zero k (ls ++ x ∷ []) (points ns)
  unfolding at_zero
  at_zero-cons ls x ns =
      ap
        (λ os.
          y x ⊗ k.div (product k (ls ++ os) 𝟘) (product k (ls ++ os) x)
          ⊕ at_zero k (ls ++ x ∷ []) (points ns))
        (nodes-points ns)

module _ (byte_idx : ℕ) (share : Element → Share) (y : Element → Element) where
  -- The loop over i goes on from the nodes `ls` as the interpolation does.
  pub sum_terms_lem :
      ((x : Element) → get_or (share x) (byte_idx + 1) 0 ≡ val (y x))
      → (ls ns : List Element) (acc : Element) → Distinct (ls ++ ns)
      → sum_terms byte_idx (map val (ls ++ ns)) (length ls) (map share ns) (val acc)
        ≡ some (val (acc ⊕ at_zero k ls (points y ns)))
  unfolding sum_terms at_zero
  sum_terms_lem reads ls [] acc d = ap (λ t. some (val t)) (sym (add-zero k acc))
  sum_terms_lem reads ls (x ∷ ns) acc d =
      let num = product k (ls ++ ns) 𝟘 in
      let den = product k (ls ++ ns) x in
      let xs = map val (ls ++ x ∷ ns) in
      let acc' = acc ⊕ y x ⊗ k.div num den in
      let d' = subst (Distinct) (sym (append_assoc ls (x ∷ []) ns)) d in
      sum_terms_step byte_idx xs (length ls) (val x) (val num) (val den) (val (k.div num den))
        (share x) (map share ns) (val acc) (get_or-node ls x ns) (fraction_node ls x ns)
        (div_ok num den (product_nonzero k x (ls ++ ns) (Distinct-middle k ls x ns d)))
      ∙ ap (λ t. sum_terms byte_idx xs (length ls + 1) (map share ns) t)
          (accumulate acc (y x) (k.div num den) (get_or (share x) (byte_idx + 1) 0) (reads x))
      ∙ ap₂ (λ (zs : List Element) n. sum_terms byte_idx (map val zs) n (map share ns) (val acc'))
          (sym (append_assoc ls (x ∷ []) ns)) (omega (arith, length-append ls (x ∷ [])))
      ∙ sum_terms_lem reads (ls ++ x ∷ []) ns acc' d'
      ∙ ap (λ t. some (val t))
          (k.add_assoc acc (y x ⊗ k.div num den) (at_zero k (ls ++ x ∷ []) (points y ns))
            ∙ ap (λ t. acc ⊕ t) (sym (at_zero-cons y ls x ns)))
