-- ===== src/Crypto/Field/Poly.antt =====
-- Polynomials over a field as lists of coefficients, lowest first: a polynomial with as many
-- distinct roots as coefficients is zero everywhere.
use genomedb.Base.{
  suc, ◌≤◌, ◌≡◌, ◌≢◌, refl, sym, ap, ap₂, ◌∙◌, List, [], ◌∷◌, length, All, Distinct, arith,
}
use genomedb.Crypto.Field.{Field, field_laws, zero-of-mul, eq_of_add, add-zero}

module _ {F : Type 0} (k : Field F) where
  infixl 65 ◌⊕◌
  infixl 70 ◌⊗◌
  open k use {zero as 𝟘, one as 𝟙, ◌⊕◌, ◌⊗◌, div}

  unfoldable pub eval : List F → F → F
  eval [] x = 𝟘
  eval (c ∷ cs) x = c ⊕ x ⊗ eval cs x

  -- The coefficients of the quotient by X - a, without the lowest coefficient of the dividend.
  quotient : List F → F → List F
  quotient [] a = []
  quotient (d ∷ ds) a = eval (d ∷ ds) a ∷ quotient ds a

  length-quotient : (cs : List F) (a : F) → length (quotient cs a) ≡ length cs
  unfolding quotient
  length-quotient [] a = refl
  length-quotient (d ∷ ds) a = ap suc (length-quotient ds a)

  quotient_step : (c y a r q : F) → c ⊕ y ⊗ ((y ⊕ a) ⊗ q ⊕ r) ≡ (y ⊕ a) ⊗ (r ⊕ y ⊗ q) ⊕ (c ⊕ a ⊗ r)
  quotient_step c y a r q = simp field_laws

  quotient_lem :
      (c : F) (cs : List F) (a y : F)
      → eval (c ∷ cs) y ≡ (y ⊕ a) ⊗ eval (quotient cs a) y ⊕ eval (c ∷ cs) a
  unfolding quotient eval
  quotient_lem c [] a y = simp (eval, field_laws)
  quotient_lem c (d ∷ ds) a y =
      ap (λ t. c ⊕ y ⊗ t) (quotient_lem d ds a y)
      ∙ quotient_step c y a (eval (d ∷ ds) a) (eval (quotient ds a) y)

  quotient_roots :
      (c : F) (cs : List F) (a : F) (xs : List F)
      → eval (c ∷ cs) a ≡ 𝟘
      → All (λ z. z ≢ a) xs
      → All (λ z. eval (c ∷ cs) z ≡ 𝟘) xs
      → All (λ z. eval (quotient cs a) z ≡ 𝟘) xs
  quotient_roots c cs a [] root d h = tt
  quotient_roots c cs a (x ∷ xs) root d h =
      let q = eval (quotient cs a) x in
      let e : q ⊗ (x ⊕ a) ≡ 𝟘 =
        k.mul_comm q (x ⊕ a)
        ∙ sym (add-zero k ((x ⊕ a) ⊗ q))
        ∙ ap (λ t. (x ⊕ a) ⊗ q ⊕ t) (sym root)
        ∙ sym (quotient_lem c cs a x)
        ∙ h.0 in
      (
        zero-of-mul k q (x ⊕ a) (λ z. d.0 (eq_of_add k x a z)) e,
        quotient_roots c cs a xs root d.1 h.1,
      )

  pub eval_of_roots :
      (cs xs : List F)
      → length cs ≤ length xs
      → Distinct xs
      → All (λ z. eval cs z ≡ 𝟘) xs
      → (y : F) → eval cs y ≡ 𝟘
  unfolding eval
  eval_of_roots [] xs len d h y = refl
  eval_of_roots (c ∷ cs) [] len d h y = absurd (omega arith)
  eval_of_roots (c ∷ cs) (x ∷ xs) len d h y =
      quotient_lem c cs x y
      ∙ ap₂ (λ s t. (y ⊕ x) ⊗ s ⊕ t)
          (eval_of_roots (quotient cs x) xs (omega (arith, length-quotient cs x)) d.1
            (quotient_roots c cs x xs h.0 d.0 h.1) y)
          h.0
      ∙ simp field_laws
