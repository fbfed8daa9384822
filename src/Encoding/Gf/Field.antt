-- ===== src/Encoding/Gf/Field.antt =====
-- The numbers of 16 bits with the addition and the multiplication of src/encoding/gf.rs, as a ring in
-- which each element is its own negative.
use Prim.Native.Nat.{bit_xor}
use native.Mathlib.Bridge.{le_prop}
use native.Mathlib.Nat.{mod-lt, mod-eq_of_lt}
use mathlib.Core.HLevel.{Σ_prop_path}
use sparse_post_quantum_ratc.Prelude.{ℕ, ◌%◌, ◌^◌, ◌≡◌, sym, ap, ◌∙◌, IsU16, arith}
use sparse_post_quantum_ratc.Prelude.Xor.{
  bit_xor-lt, bit_xor-mask, bit_xor_assoc, bit_xor_comm, bit_xor-zero, bit_xor_self,
}
use sparse_post_quantum_ratc.Encoding.Gf.{mul}
use sparse_post_quantum_ratc.Encoding.Gf.Laws.{mul-add, mul_comm, mul-IsU16}
use sparse_post_quantum_ratc.Encoding.Gf.Assoc.{mul_assoc, one-mul}

abbrev pub Element : Type 0
Element = (n : ℕ) × IsU16 n

pub element_eq : (a b : Element) → a.0 ≡ b.0 → a ≡ b
element_eq a b h = Σ_prop_path (λ n. le_prop) h

-- The element of a number, by its lowest 16 bits.
unfoldable pub el : ℕ → Element
el n = (n % 2 ^ 16, mod-lt n (omega arith))

pub el_num : (n : ℕ) → IsU16 n → (el n).0 ≡ n
unfolding el
el_num n h = mod-eq_of_lt h

abbrev pub nought : Element
nought = el 0

abbrev pub one : Element
one = el 1

infixl 65 ◌⊕◌
infixl 70 ◌⊗◌
unfoldable pub ◌⊕◌ : Element → Element → Element
a ⊕ b = (bit_xor a.0 b.0, bit_xor-lt 16 a.0 b.0 a.1 b.1)

unfoldable pub ◌⊗◌ : Element → Element → Element
a ⊗ b = (mul a.0 b.0, mul-IsU16 a.0 b.0)

pub el-xor : (a b : ℕ) → el (bit_xor a b) ≡ el a ⊕ el b
unfolding ◌⊕◌ el
el-xor a b = element_eq (el (bit_xor a b)) (el a ⊕ el b) (bit_xor-mask 16 a b)

pub el-mul : (a b : ℕ) → IsU16 a → IsU16 b → el (mul a b) ≡ el a ⊗ el b
unfolding ◌⊗◌
el-mul a b ha hb =
    element_eq (el (mul a b)) (el a ⊗ el b)
      (el_num (mul a b) (mul-IsU16 a b) ∙ rw (el_num a ha, el_num b hb))

pub plus_assoc : (a b c : Element) → (a ⊕ b) ⊕ c ≡ a ⊕ (b ⊕ c)
unfolding ◌⊕◌
plus_assoc a b c = element_eq ((a ⊕ b) ⊕ c) (a ⊕ (b ⊕ c)) (bit_xor_assoc a.0 b.0 c.0)

pub plus_comm : (a b : Element) → a ⊕ b ≡ b ⊕ a
unfolding ◌⊕◌
plus_comm a b = element_eq (a ⊕ b) (b ⊕ a) (bit_xor_comm a.0 b.0)

pub plus_left_comm : (a b c : Element) → a ⊕ (b ⊕ c) ≡ b ⊕ (a ⊕ c)
plus_left_comm a b c = sym (plus_assoc a b c) ∙ ap (λ t. t ⊕ c) (plus_comm a b) ∙ plus_assoc b a c

pub plus-nought : (a : Element) → a ⊕ nought ≡ a
unfolding ◌⊕◌ el
plus-nought a = element_eq (a ⊕ nought) a (bit_xor-zero a.0)

pub nought-plus : (a : Element) → nought ⊕ a ≡ a
nought-plus a = plus_comm nought a ∙ plus-nought a

pub plus_self : (a : Element) → a ⊕ a ≡ nought
unfolding ◌⊕◌ el
plus_self a = element_eq (a ⊕ a) nought (bit_xor_self a.0)

pub plus_cancel : (a b : Element) → a ⊕ (a ⊕ b) ≡ b
plus_cancel a b = sym (plus_assoc a a b) ∙ ap (λ t. t ⊕ b) (plus_self a) ∙ nought-plus b

pub times_assoc : (a b c : Element) → (a ⊗ b) ⊗ c ≡ a ⊗ (b ⊗ c)
unfolding ◌⊗◌
times_assoc a b c = element_eq ((a ⊗ b) ⊗ c) (a ⊗ (b ⊗ c)) (mul_assoc a.0 b.0 c.0 a.1 b.1 c.1)

pub times_comm : (a b : Element) → a ⊗ b ≡ b ⊗ a
unfolding ◌⊗◌
times_comm a b = element_eq (a ⊗ b) (b ⊗ a) (mul_comm a.0 b.0 a.1 b.1)

pub times_left_comm : (a b c : Element) → a ⊗ (b ⊗ c) ≡ b ⊗ (a ⊗ c)
times_left_comm a b c =
    sym (times_assoc a b c) ∙ ap (λ t. t ⊗ c) (times_comm a b) ∙ times_assoc b a c

pub one-times : (a : Element) → one ⊗ a ≡ a
unfolding ◌⊗◌ el
one-times a = element_eq (one ⊗ a) a (one-mul a.0 a.1)

pub times-one : (a : Element) → a ⊗ one ≡ a
times-one a = times_comm a one ∙ one-times a

pub plus-times : (a b c : Element) → (a ⊕ b) ⊗ c ≡ a ⊗ c ⊕ b ⊗ c
unfolding ◌⊕◌ ◌⊗◌
plus-times a b c = element_eq ((a ⊕ b) ⊗ c) (a ⊗ c ⊕ b ⊗ c) (mul-add a.0 b.0 c.0 a.1 b.1)

pub times-plus : (a b c : Element) → a ⊗ (b ⊕ c) ≡ a ⊗ b ⊕ a ⊗ c
times-plus a b c = times_comm a (b ⊕ c) ∙ plus-times b c a ∙ rw (times_comm b a, times_comm c a)

pub nought-times : (a : Element) → nought ⊗ a ≡ nought
nought-times a =
    ap (λ t. t ⊗ a) (sym (plus_self nought)) ∙ plus-times nought nought a ∙ plus_self (nought ⊗ a)

pub times-nought : (a : Element) → a ⊗ nought ≡ nought
times-nought a = times_comm a nought ∙ nought-times a

-- Sums of products, sorted, without what occurs twice.
pub ruleset field_laws = (
  plus_assoc, plus_comm, plus_left_comm, plus-nought, nought-plus, plus_self, plus_cancel,
  times_assoc, times_comm, times_left_comm, one-times, times-one, plus-times, times-plus,
  nought-times, times-nought,
)

pub square_plus : (a b : Element) → (a ⊕ b) ⊗ (a ⊕ b) ≡ a ⊗ a ⊕ b ⊗ b
square_plus a b = simp field_laws
