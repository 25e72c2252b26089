-- ===== src/Crypto/Field/Lagrange.antt =====
-- Lagrange interpolation at zero, as Combine of crypto/shamir.go computes it, over a field.
use genomedb.Base.{
  ℕ, ◌+◌, ◌≤◌, ◌≡◌, ◌≢◌, refl, sym, ap, ap₂, ◌∙◌, List, [], ◌∷◌, ◌++◌, length, All, arith,
  All-of_mem, All-mem, All-map, Distinct, append_assoc, subst, length-map, map, length-append,
}
use mathlib.Core.List.{Memᴰ}
use mathlib.Core.List.Memᴰ
use genomedb.Crypto.Field.{Field, field_laws, zero-of-mul, eq_of_add, add-zero, mul-zero}
use genomedb.Crypto.Field.Poly.{eval, eval_of_roots}
use genomedb.Crypto.Field.Product.{
  add_poly, scale_poly, roots_poly, eval-add_poly, length-add_poly, eval-scale_poly,
  length-scale_poly, length-roots_poly, eval-roots_poly, product, product_of_mem, product_nonzero,
}

module _ {F : Type 0} (k : Field F) where
  infixl 65 ◌⊕◌
  infixl 70 ◌⊗◌
  open k use {zero as 𝟘, one as 𝟙, ◌⊕◌, ◌⊗◌, div}

  abbrev pub Points : Type 0
  Points = List (F × F)

  abbrev pub nodes : Points → List F
  nodes = map (λ p. p.0)

  -- The term of a point, with the other nodes.
  term : List F → F → F → List F
  term others x y = scale_poly k (div y (product k others x)) (roots_poly k others)

  -- The interpolation polynomial of `ps`, zero at the nodes `ls` that were done before.
  lagrange : List F → Points → List F
  lagrange ls [] = []
  lagrange ls ((x, y) ∷ ps) = add_poly k (term (ls ++ nodes ps) x y) (lagrange (ls ++ x ∷ []) ps)

  eval-term :
      (others : List F) (x y z : F)
      → eval k (term others x y) z ≡ div y (product k others x) ⊗ product k others z
  unfolding term
  eval-term others x y z =
      eval-scale_poly k (div y (product k others x)) (roots_poly k others) z
      ∙ ap (λ t. div y (product k others x) ⊗ t) (eval-roots_poly k others z)

  term_elsewhere : (others : List F) (x y z : F) → Memᴰ z others → eval k (term others x y) z ≡ 𝟘
  term_elsewhere others x y z m =
      eval-term others x y z
      ∙ ap (λ t. div y (product k others x) ⊗ t) (product_of_mem k z others m)
      ∙ mul-zero k (div y (product k others x))

  lagrange_done : (ls : List F) (ps : Points) (z : F) → Memᴰ z ls → eval k (lagrange ls ps) z ≡ 𝟘
  unfolding lagrange eval
  lagrange_done ls [] z m = refl
  lagrange_done ls ((x, y) ∷ ps) z m =
      eval-add_poly k (term (ls ++ nodes ps) x y) (lagrange (ls ++ x ∷ []) ps) z
      ∙ ap₂ (λ s t. s ⊕ t) (term_elsewhere (ls ++ nodes ps) x y z (Memᴰ.append_left (nodes ps) m))
          (lagrange_done (ls ++ x ∷ []) ps z (Memᴰ.append_left (x ∷ []) m))
      ∙ k.zero-add 𝟘

  pub Distinct-middle :
      (ls : List F) (x : F) (ks : List F) → Distinct (ls ++ x ∷ ks) → All (λ z. z ≢ x) (ls ++ ks)
  Distinct-middle [] x ks d = d.0
  Distinct-middle (l ∷ ls) x ks d = (
    λ e. All-mem (λ z. z ≢ l) d.0 (Memᴰ.append_right ls (Memᴰ.head refl)) (sym e),
    Distinct-middle ls x ks d.1,
  )

  lagrange_here :
      (ls : List F) (x y : F) (ps : Points)
      → Distinct (ls ++ x ∷ nodes ps)
      → eval k (lagrange ls ((x, y) ∷ ps)) x ≡ y
  unfolding lagrange
  lagrange_here ls x y ps d =
      let others = ls ++ nodes ps in
      eval-add_poly k (term others x y) (lagrange (ls ++ x ∷ []) ps) x
      ∙ ap₂ (λ s t. s ⊕ t)
          (eval-term others x y x
            ∙ k.div-mul y (product k others x)
                (product_nonzero k x others (Distinct-middle ls x (nodes ps) d)))
          (lagrange_done (ls ++ x ∷ []) ps x (Memᴰ.append_right ls (Memᴰ.head refl)))
      ∙ add-zero k y

  lagrange_todo :
      (ls : List F) (ps : Points) (a b : F)
      → Distinct (ls ++ nodes ps)
      → Memᴰ (a, b) ps
      → eval k (lagrange ls ps) a ≡ b
  unfolding lagrange
  lagrange_todo ls [] a b d m = elim m [ ]
  lagrange_todo ls ((x, y) ∷ ps) a b d (Memᴰ.head e) =
      ap (λ (p : F × F). eval k (lagrange ls ((x, y) ∷ ps)) p.0) e
      ∙ lagrange_here ls x y ps d
      ∙ ap (λ (p : F × F). p.1) (sym e)
  lagrange_todo ls ((x, y) ∷ ps) a b d (Memᴰ.tail m) =
      let others = ls ++ nodes ps in
      eval-add_poly k (term others x y) (lagrange (ls ++ x ∷ []) ps) a
      ∙ ap₂ (λ s t. s ⊕ t)
          (term_elsewhere others x y a (Memᴰ.append_right ls (Memᴰ.map (λ (p : F × F). p.0) m)))
          (lagrange_todo (ls ++ x ∷ []) ps a b
            (subst (Distinct) (sym (append_assoc ls (x ∷ []) (nodes ps))) d) m)
      ∙ k.zero-add b

  length-lagrange :
      (n : ℕ) (ls : List F) (ps : Points) → length ls + length ps ≤ n → length (lagrange ls ps) ≤ n
  unfolding lagrange term
  length-lagrange n ls [] h = omega arith
  length-lagrange n ls ((x, y) ∷ ps) h =
      let others = ls ++ nodes ps in
      let size : length others ≡ length ls + length ps =
        length-append ls (nodes ps)
        ∙ ap (λ t. length ls + t) (length-map ps (λ (p : F × F). p.0)) in
      length-add_poly k n (term others x y) (lagrange (ls ++ x ∷ []) ps)
        (omega (
          arith,
          size,
          length-roots_poly k others,
          length-scale_poly k (div y (product k others x)) (roots_poly k others),
        ))
        (length-lagrange n (ls ++ x ∷ []) ps (omega (arith, length-append ls (x ∷ []))))

  -- The sum that Combine forms, with the nodes `ls` already done: each term is
  -- y * (product of the other nodes / product of their distances to this node).
  unfoldable pub at_zero : List F → Points → F
  at_zero ls [] = 𝟘
  at_zero ls ((x, y) ∷ ps) =
      let others = ls ++ nodes ps in
      y ⊗ div (product k others 𝟘) (product k others x) ⊕ at_zero (ls ++ x ∷ []) ps

  cancel : (a b d : F) → d ≢ 𝟘 → a ⊗ d ≡ b ⊗ d → a ≡ b
  cancel a b d nd e =
      eq_of_add k a b
        (zero-of-mul k (a ⊕ b) d nd (k.add-mul a b d ∙ ap (λ t. t ⊕ b ⊗ d) e ∙ k.add_self (b ⊗ d)))

  move_div : (y n d : F) → d ≢ 𝟘 → div y d ⊗ n ≡ y ⊗ div n d
  move_div y n d nd =
      let l : (div y d ⊗ n) ⊗ d ≡ n ⊗ (div y d ⊗ d) = simp field_laws in
      let r : y ⊗ (div n d ⊗ d) ≡ (y ⊗ div n d) ⊗ d = simp field_laws in
      cancel (div y d ⊗ n) (y ⊗ div n d) d nd (
        l
        ∙ ap (λ t. n ⊗ t) (k.div-mul y d nd)
        ∙ k.mul_comm n y
        ∙ ap (λ t. y ⊗ t) (sym (k.div-mul n d nd))
        ∙ r)

  eval-lagrange_zero :
      (ls : List F) (ps : Points)
      → Distinct (ls ++ nodes ps)
      → eval k (lagrange ls ps) 𝟘 ≡ at_zero ls ps
  unfolding lagrange at_zero eval
  eval-lagrange_zero ls [] d = refl
  eval-lagrange_zero ls ((x, y) ∷ ps) d =
      let others = ls ++ nodes ps in
      eval-add_poly k (term others x y) (lagrange (ls ++ x ∷ []) ps) 𝟘
      ∙ ap₂ (λ s t. s ⊕ t)
          (eval-term others x y 𝟘
            ∙ move_div y (product k others 𝟘) (product k others x)
                (product_nonzero k x others (Distinct-middle ls x (nodes ps) d)))
          (eval-lagrange_zero (ls ++ x ∷ []) ps
            (subst (Distinct) (sym (append_assoc ls (x ∷ []) (nodes ps))) d))

  -- Points on a polynomial with no more coefficients than points give its value at zero.
  pub at_zero_lem :
      (cs : List F) (ps : Points)
      → length cs ≤ length ps
      → Distinct (nodes ps)
      → All (λ (p : F × F). p.1 ≡ eval k cs p.0) ps
      → at_zero [] ps ≡ eval k cs 𝟘
  at_zero_lem cs ps len d on =
      let diff = add_poly k cs (lagrange [] ps) in
      let root = λ (p : F × F) (m : Memᴰ p ps).
        eval-add_poly k cs (lagrange [] ps) p.0
        ∙ ap₂ (λ s t. s ⊕ t) (sym (All-mem (λ (p : F × F). p.1 ≡ eval k cs p.0) on m))
            (lagrange_todo [] ps p.0 p.1 d m)
        ∙ k.add_self p.1 in
      let vanishes : eval k diff 𝟘 ≡ 𝟘 =
        eval_of_roots k diff (nodes ps)
          (omega (
            arith,
            length-map ps (λ (p : F × F). p.0),
            length-add_poly k (length ps) cs (lagrange [] ps) len
                (length-lagrange (length ps) [] ps (omega arith)),
          ))
          d (All-map (λ z. eval k diff z ≡ 𝟘) (λ (p : F × F). p.0) ps (All-of_mem ps root)) 𝟘 in
      sym (
        eq_of_add k (eval k cs 𝟘) (at_zero [] ps) (
          ap (λ t. eval k cs 𝟘 ⊕ t) (sym (eval-lagrange_zero [] ps d))
          ∙ sym (eval-add_poly k cs (lagrange [] ps) 𝟘)
          ∙ vanishes))
