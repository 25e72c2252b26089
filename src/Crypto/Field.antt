-- ===== src/Crypto/Field.antt =====
-- A field of characteristic two, as the proofs about the secret sharing of crypto/shamir.go use
-- it. The bytes with the operations of crypto/gf256.go are one (Shamir/Bytes).
pub mod Poly
pub mod Product
pub mod Lagrange
use genomedb.Base.{◌≡◌, ◌≢◌, sym, ap, ap₂, ◌∙◌, ◌≡⟨◌⟩◌, ◌∎}

pub record Field (F : Type 0) : Type 0 where
  infixl 65 ◌⊕◌
  infixl 70 ◌⊗◌
  pub zero : F
  pub one : F
  pub ◌⊕◌ : F → F → F
  pub ◌⊗◌ : F → F → F
  pub div : F → F → F
  pub add_assoc : (a b c : F) → (a ⊕ b) ⊕ c ≡ a ⊕ (b ⊕ c)
  pub add_comm : (a b : F) → a ⊕ b ≡ b ⊕ a
  pub zero-add : (a : F) → zero ⊕ a ≡ a
  pub add_self : (a : F) → a ⊕ a ≡ zero
  pub mul_assoc : (a b c : F) → (a ⊗ b) ⊗ c ≡ a ⊗ (b ⊗ c)
  pub mul_comm : (a b : F) → a ⊗ b ≡ b ⊗ a
  pub one-mul : (a : F) → one ⊗ a ≡ a
  pub zero-mul : (a : F) → zero ⊗ a ≡ zero
  pub add-mul : (a b c : F) → (a ⊕ b) ⊗ c ≡ (a ⊗ c) ⊕ (b ⊗ c)
  pub div-mul : (a b : F) → b ≢ zero → div a b ⊗ b ≡ a
  pub zero-ne-one : zero ≢ one

module _ {F : Type 0} (k : Field F) where
  infixl 65 ◌⊕◌
  infixl 70 ◌⊗◌
  open k use {
    zero, one, ◌⊕◌, ◌⊗◌, div, add_assoc, add_comm, zero-add, add_self, mul_assoc, mul_comm, one-mul,
    zero-mul, add-mul, div-mul,
  }

  pub add-zero : (a : F) → a ⊕ zero ≡ a
  add-zero a = add_comm a zero ∙ zero-add a

  pub mul-zero : (a : F) → a ⊗ zero ≡ zero
  mul-zero a = mul_comm a zero ∙ zero-mul a

  pub add_left_comm : (a b c : F) → a ⊕ (b ⊕ c) ≡ b ⊕ (a ⊕ c)
  add_left_comm a b c = sym (add_assoc a b c) ∙ ap (λ t. t ⊕ c) (add_comm a b) ∙ add_assoc b a c

  pub mul_left_comm : (a b c : F) → a ⊗ (b ⊗ c) ≡ b ⊗ (a ⊗ c)
  mul_left_comm a b c = sym (mul_assoc a b c) ∙ ap (λ t. t ⊗ c) (mul_comm a b) ∙ mul_assoc b a c

  pub add_cancel : (a b : F) → a ⊕ (a ⊕ b) ≡ b
  add_cancel a b = sym (add_assoc a a b) ∙ ap (λ t. t ⊕ b) (add_self a) ∙ zero-add b

  -- Two elements whose sum is zero are the same.
  pub eq_of_add : (a b : F) → a ⊕ b ≡ zero → a ≡ b
  eq_of_add a b h = sym (add-zero a) ∙ ap (λ t. a ⊕ t) (sym h) ∙ add_cancel a b

  pub zero-of-mul : (a b : F) → b ≢ zero → a ⊗ b ≡ zero → a ≡ zero
  zero-of-mul a b nb h =
      a
      ≡⟨ sym (one-mul a) ⟩ one ⊗ a
      ≡⟨ ap (λ t. t ⊗ a) (sym (div-mul one b nb)) ⟩ div one b ⊗ b ⊗ a
      ≡⟨ mul_assoc (div one b) b a ⟩ div one b ⊗ (b ⊗ a)
      ≡⟨ ap (λ t. div one b ⊗ t) (mul_comm b a ∙ h) ⟩ div one b ⊗ zero
      ≡⟨ mul-zero (div one b) ⟩ zero ∎

  pub mul-add : (a b c : F) → a ⊗ (b ⊕ c) ≡ a ⊗ b ⊕ a ⊗ c
  mul-add a b c =
      mul_comm a (b ⊕ c) ∙ add-mul b c a ∙ ap₂ (λ s t. s ⊕ t) (mul_comm b a) (mul_comm c a)

  -- The laws of the record once more, as lemmas for the set below.
  pub plus_assoc : (a b c : F) → a ⊕ b ⊕ c ≡ a ⊕ (b ⊕ c)
  plus_assoc = add_assoc

  pub plus_comm : (a b : F) → a ⊕ b ≡ b ⊕ a
  plus_comm = add_comm

  pub plus_self : (a : F) → a ⊕ a ≡ zero
  plus_self = add_self

  pub zero-plus : (a : F) → zero ⊕ a ≡ a
  zero-plus = zero-add

  pub times_assoc : (a b c : F) → a ⊗ b ⊗ c ≡ a ⊗ (b ⊗ c)
  times_assoc = mul_assoc

  pub times_comm : (a b : F) → a ⊗ b ≡ b ⊗ a
  times_comm = mul_comm

  pub one-times : (a : F) → one ⊗ a ≡ a
  one-times = one-mul

  pub zero-times : (a : F) → zero ⊗ a ≡ zero
  zero-times = zero-mul

  pub plus-times : (a b c : F) → (a ⊕ b) ⊗ c ≡ a ⊗ c ⊕ b ⊗ c
  plus-times = add-mul

pub ruleset field_laws = (
  plus_assoc, plus_comm, plus_self, zero-plus, add-zero, add_left_comm, add_cancel, times_assoc,
  times_comm, mul_left_comm, one-times, zero-times, mul-zero, plus-times, mul-add,
)
