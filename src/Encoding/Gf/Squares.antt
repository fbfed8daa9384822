-- ===== src/Encoding/Gf/Squares.antt =====
-- Squares in the field: the power of `2 ^ 16` of an element is the element, and the only elements that
-- are their own squares are 0 and 1.
use Prim.Native.Nat.{bit_xor}
use sparse_post_quantum_ratc.Prelude.{
  ℕ, zero, suc, ◌+◌, ◌*◌, ◌/◌, ◌%◌, ◌≡◌, ◌⊎◌, inl, inr, refl, sym, ap, ◌∙◌, true, false, Bool-cases,
  ◌==◌, List, [], ◌∷◌, IsU16, arith,
}
use native.Mathlib.Decide.{ℕ_discrete}
use sparse_post_quantum_ratc.Prelude.Xor.{
  bit_xor-lt, bit_xor_self, bit_xor_parity, bit_xor-zero, zero-bit_xor, bit_xor_half,
  bit_xor_double, bit_xor_medial,
}
use sparse_post_quantum_ratc.Encoding.Gf.{mul}
use sparse_post_quantum_ratc.Encoding.Gf.Laws.{mul-IsU16}
use sparse_post_quantum_ratc.Encoding.Gf.Product.{digit_times}
use sparse_post_quantum_ratc.Encoding.Gf.Basis.{
  Linear, Linear-zero, Linear-eq, agree_below, agree_below_sound,
}
use sparse_post_quantum_ratc.Encoding.Gf.Assoc.{compose-Linear}
use sparse_post_quantum_ratc.Encoding.Gf.Field.{
  Element, element_eq, el, nought, one, ◌⊕◌, ◌⊗◌, square_plus,
}

square-Linear : Linear (λ a. mul a a)
unfolding ◌⊕◌ ◌⊗◌
square-Linear a b ha hb = ap (λ t. t.0) (square_plus (a, ha) (b, hb))

squares : ℕ → ℕ → ℕ
squares zero a = a
squares (suc n) a = squares n (mul a a)

squares-Linear : (n : ℕ) → Linear (squares n)
unfolding squares
squares-Linear zero a b ha hb = refl
squares-Linear (suc n) a b ha hb =
    compose-Linear (λ a. mul a a) (squares n) (λ a h. mul-IsU16 a a) square-Linear
      (squares-Linear n) a b ha hb

all_squares : agree_below 16 (squares 16) (λ a. a) ≡ true
unfolding agree_below squares mul
all_squares = refl

squares_return : (a : ℕ) → IsU16 a → squares 16 a ≡ a
squares_return =
    Linear-eq (squares 16) (λ a. a) (squares-Linear 16) (λ a b ha hb. refl)
      (agree_below_sound 16 (squares 16) (λ a. a) all_squares)

-- The images of the single bits under a map that takes `x * x + x` to `x` without its lowest bit.
abbrev root_table : List ℕ
root_table =
    350 ∷ 42420 ∷ 42422 ∷ 7412 ∷ 42418 ∷ 10272 ∷ 7420 ∷ 1328 ∷ 42402 ∷ 38610 ∷ 10240 ∷ 5068 ∷ 7356
    ∷ 0 ∷ 1456 ∷ 21936 ∷ []

image : List ℕ → ℕ → ℕ
image [] v = 0
image (t ∷ ts) v = bit_xor (digit_times v t) (image ts (v / 2))

digit_times-Linear :
    (a b t : ℕ) → digit_times (bit_xor a b) t ≡ bit_xor (digit_times a t) (digit_times b t)
digit_times-Linear a b t = elim (Bool-cases (a % 2 == 0)) [
  | inl e ↦ elim (Bool-cases (b % 2 == 0)) [
    | inl f ↦ let g : ((a + b) % 2 == 0) ≡ true = ground arith in rw (bit_xor_parity a b, e, f, g)
    | inr f ↦
        let g : ((a + b) % 2 == 0) ≡ false = ground arith in
        rw (bit_xor_parity a b, e, f, g) (sym (zero-bit_xor t))
  ]
  | inr e ↦ elim (Bool-cases (b % 2 == 0)) [
    | inl f ↦
        let g : ((a + b) % 2 == 0) ≡ false = ground arith in
        rw (bit_xor_parity a b, e, f, g) (sym (bit_xor-zero t))
    | inr f ↦
        let g : ((a + b) % 2 == 0) ≡ true = ground arith in
        rw (bit_xor_parity a b, e, f, g) (sym (bit_xor_self t))
  ]
]

image-Linear : (ts : List ℕ) → Linear (image ts)
unfolding image
image-Linear [] a b ha hb = refl
image-Linear (t ∷ ts) a b ha hb =
    rw
      (
        digit_times-Linear a b t,
        bit_xor_half a b,
        image-Linear ts (a / 2) (b / 2) (omega arith) (omega arith),
      )
      (bit_xor_medial (digit_times a t) (digit_times b t) (image ts (a / 2)) (image ts (b / 2)))

root_of : ℕ → ℕ
unfolding image
root_of v = image root_table v

roots : agree_below 16 (λ x. root_of (bit_xor (mul x x) x)) (λ x. x / 2 * 2) ≡ true
unfolding agree_below root_of mul
roots = refl

plus_square-Linear : Linear (λ x. bit_xor (mul x x) x)
plus_square-Linear a b ha hb = rw (square-Linear a b ha hb) (bit_xor_medial (mul a a) (mul b b) a b)

even-Linear : Linear (λ x. x / 2 * 2)
even-Linear a b ha hb = ap (λ t. t * 2) (bit_xor_half a b) ∙ sym (bit_xor_double (a / 2) (b / 2))

root_of-Linear : Linear root_of
unfolding root_of
root_of-Linear = image-Linear root_table

even_root : (x : ℕ) → IsU16 x → root_of (bit_xor (mul x x) x) ≡ x / 2 * 2
even_root =
    Linear-eq (λ x. root_of (bit_xor (mul x x) x)) (λ x. x / 2 * 2)
      (compose-Linear (λ x. bit_xor (mul x x) x) root_of
        (λ x h. bit_xor-lt 16 (mul x x) x (mul-IsU16 x x) h) plus_square-Linear root_of-Linear)
      even-Linear (agree_below_sound 16 (λ x. root_of (bit_xor (mul x x) x)) (λ x. x / 2 * 2) roots)

idempotent_num : (x : ℕ) → IsU16 x → mul x x ≡ x → (x ≡ 0) ⊎ (x ≡ 1)
idempotent_num x h same =
    let e : bit_xor (mul x x) x ≡ 0 = ap (λ t. bit_xor t x) same ∙ bit_xor_self x in
    let f : x / 2 * 2 ≡ 0 =
      sym (even_root x h) ∙ ap root_of e ∙ Linear-zero root_of root_of-Linear in
    elim (ℕ_discrete x 0) [ yes p ↦ inl p | no p ↦ inr (omega (arith, p)) ]

-- Only 0 and 1 are their own squares.
pub idempotent : (a : Element) → a ⊗ a ≡ a → (a ≡ nought) ⊎ (a ≡ one)
unfolding ◌⊗◌ el
idempotent a h = elim (idempotent_num a.0 a.1 (ap (λ t. t.0) h)) [
  | inl e ↦ inl (element_eq a nought e)
  | inr e ↦ inr (element_eq a one e)
]

-- The power of `2 ^ n`.
unfoldable pub frobenius : ℕ → Element → Element
frobenius zero a = a
frobenius (suc n) a = frobenius n (a ⊗ a)

frobenius-squares : (n : ℕ) (a : Element) → (frobenius n a).0 ≡ squares n a.0
unfolding frobenius squares ◌⊗◌
frobenius-squares zero a = refl
frobenius-squares (suc n) a = frobenius-squares n (a ⊗ a)

pub frobenius_return : (a : Element) → frobenius 16 a ≡ a
frobenius_return a = element_eq (frobenius 16 a) a (frobenius-squares 16 a ∙ squares_return a.0 a.1)
