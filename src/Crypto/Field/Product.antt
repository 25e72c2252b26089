-- ===== src/Crypto/Field/Product.antt =====
-- Sums and products of polynomials over a field, and the product of the distances to a list of nodes.
use genomedb.Base.{
  ℕ, zero, suc, ◌≤◌, ◌≡◌, ◌≢◌, refl, sym, ap, ◌∙◌, List, [], ◌∷◌, ◌++◌, length, All, arith,
}
use mathlib.Core.List.{Memᴰ}
use genomedb.Crypto.Field.{Field, field_laws, zero-of-mul, eq_of_add, add-zero, mul-zero}
use genomedb.Crypto.Field.Poly.{eval}

module _ {F : Type 0} (k : Field F) where
  infixl 65 ◌⊕◌
  infixl 70 ◌⊗◌
  open k use {zero as 𝟘, one as 𝟙, ◌⊕◌, ◌⊗◌, div}

  unfoldable pub add_poly : List F → List F → List F
  add_poly [] ds = ds
  add_poly (c ∷ cs) [] = c ∷ cs
  add_poly (c ∷ cs) (d ∷ ds) = (c ⊕ d) ∷ add_poly cs ds

  pub eval-add_poly :
      (cs ds : List F) (x : F) → eval k (add_poly cs ds) x ≡ eval k cs x ⊕ eval k ds x
  unfolding eval add_poly
  eval-add_poly [] ds x = sym (k.zero-add _)
  eval-add_poly (c ∷ cs) [] x = sym (add-zero k _)
  eval-add_poly (c ∷ cs) (d ∷ ds) x =
      ap (λ t. (c ⊕ d) ⊕ x ⊗ t) (eval-add_poly cs ds x) ∙ regroup (eval k cs x) (eval k ds x)
    where
      regroup : (s t : F) → (c ⊕ d) ⊕ x ⊗ (s ⊕ t) ≡ (c ⊕ x ⊗ s) ⊕ (d ⊕ x ⊗ t)
      regroup s t = simp field_laws

  pub length-add_poly :
      (n : ℕ) (cs ds : List F) → length cs ≤ n → length ds ≤ n → length (add_poly cs ds) ≤ n
  unfolding add_poly
  length-add_poly n [] ds p q = q
  length-add_poly n (c ∷ cs) [] p q = p
  length-add_poly zero (c ∷ cs) (d ∷ ds) p q = absurd (omega arith)
  length-add_poly (suc n) (c ∷ cs) (d ∷ ds) p q =
      omega (arith, length-add_poly n cs ds (omega arith) (omega arith))

  unfoldable pub scale_poly : F → List F → List F
  scale_poly s [] = []
  scale_poly s (c ∷ cs) = s ⊗ c ∷ scale_poly s cs

  pub eval-scale_poly : (s : F) (cs : List F) (x : F) → eval k (scale_poly s cs) x ≡ s ⊗ eval k cs x
  unfolding eval scale_poly
  eval-scale_poly s [] x = sym (mul-zero k s)
  eval-scale_poly s (c ∷ cs) x =
      ap (λ t. s ⊗ c ⊕ x ⊗ t) (eval-scale_poly s cs x) ∙ regroup (eval k cs x)
    where
      regroup : (t : F) → s ⊗ c ⊕ x ⊗ (s ⊗ t) ≡ s ⊗ (c ⊕ x ⊗ t)
      regroup t = simp field_laws

  pub length-scale_poly : (s : F) (cs : List F) → length (scale_poly s cs) ≡ length cs
  unfolding scale_poly
  length-scale_poly s [] = refl
  length-scale_poly s (c ∷ cs) = ap suc (length-scale_poly s cs)

  -- The product of X + z over the list.
  pub roots_poly : List F → List F
  roots_poly [] = 𝟙 ∷ []
  roots_poly (z ∷ zs) = add_poly (scale_poly z (roots_poly zs)) (𝟘 ∷ roots_poly zs)

  pub length-roots_poly : (zs : List F) → length (roots_poly zs) ≤ suc (length zs)
  unfolding roots_poly
  length-roots_poly [] = omega arith
  length-roots_poly (z ∷ zs) =
      length-add_poly (suc (suc (length zs))) (scale_poly z (roots_poly zs)) (𝟘 ∷ roots_poly zs)
        (omega (arith, length-scale_poly z (roots_poly zs), length-roots_poly zs))
        (omega (arith, length-roots_poly zs))

  unfoldable pub product : List F → F → F
  product [] x = 𝟙
  product (z ∷ zs) x = (x ⊕ z) ⊗ product zs x

  pub eval-roots_poly : (zs : List F) (x : F) → eval k (roots_poly zs) x ≡ product zs x
  unfolding eval roots_poly product
  eval-roots_poly [] x = ap (λ t. 𝟙 ⊕ t) (mul-zero k x) ∙ add-zero k 𝟙
  eval-roots_poly (z ∷ zs) x =
      eval-add_poly (scale_poly z (roots_poly zs)) (𝟘 ∷ roots_poly zs) x
      ∙ ap (λ t. t ⊕ (𝟘 ⊕ x ⊗ eval k (roots_poly zs) x)) (eval-scale_poly z (roots_poly zs) x)
      ∙ regroup (eval k (roots_poly zs) x)
      ∙ ap (λ t. (x ⊕ z) ⊗ t) (eval-roots_poly zs x)
    where
      regroup : (t : F) → z ⊗ t ⊕ (𝟘 ⊕ x ⊗ t) ≡ (x ⊕ z) ⊗ t
      regroup t = simp field_laws

  pub product_of_mem : (x : F) (zs : List F) → Memᴰ x zs → product zs x ≡ 𝟘
  unfolding product
  product_of_mem x [] m = elim m [ ]
  product_of_mem x (z ∷ zs) (Memᴰ.head e) =
      ap (λ t. t ⊗ product zs x) (ap (λ t. x ⊕ t) (sym e) ∙ k.add_self x)
      ∙ k.zero-mul (product zs x)
  product_of_mem x (z ∷ zs) (Memᴰ.tail h) =
      ap (λ t. (x ⊕ z) ⊗ t) (product_of_mem x zs h) ∙ mul-zero k (x ⊕ z)

  pub product_nonzero : (x : F) (zs : List F) → All (λ z. z ≢ x) zs → product zs x ≢ 𝟘
  unfolding product
  product_nonzero x [] d e = k.zero-ne-one (sym e)
  product_nonzero x (z ∷ zs) d e =
      d.0
        (sym (eq_of_add k x z (zero-of-mul k (x ⊕ z) (product zs x) (product_nonzero x zs d.1) e)))

  -- Products taken one factor at a time.
  pub product_step : (n x z : F) (zs : List F) → n ⊗ (x ⊕ z) ⊗ product zs x ≡ n ⊗ product (z ∷ zs) x
  unfolding product
  product_step n x z zs = k.mul_assoc n (x ⊕ z) (product zs x)

  pub product_step_zero : (n z : F) (zs : List F) → n ⊗ z ⊗ product zs 𝟘 ≡ n ⊗ product (z ∷ zs) 𝟘
  product_step_zero n z zs =
      ap (λ t. n ⊗ t ⊗ product zs 𝟘) (sym (k.zero-add z)) ∙ product_step n 𝟘 z zs

  pub product-nil : (n x : F) → n ≡ n ⊗ product [] x
  unfolding product
  product-nil n x = sym (k.mul_comm n 𝟙 ∙ k.one-mul n)

  pub product-append :
      (xs ys : List F) (n x : F) → n ⊗ product xs x ⊗ product ys x ≡ n ⊗ product (xs ++ ys) x
  unfolding product
  product-append [] ys n x = ap (λ t. t ⊗ product ys x) (sym (product-nil n x))
  product-append (z ∷ xs) ys n x =
      ap (λ t. t ⊗ product ys x) (sym (product_step n x z xs))
      ∙ product-append xs ys (n ⊗ (x ⊕ z)) x
      ∙ product_step n x z (xs ++ ys)
