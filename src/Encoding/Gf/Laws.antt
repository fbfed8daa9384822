-- ===== src/Encoding/Gf/Laws.antt =====
-- Multiplication and division in the field, against the product of polynomials and its remainder.
use Prim.Native.Nat.{bit_xor}
use native.Mathlib.Nat.{mod-lt}
use sparse_post_quantum_ratc.Prelude.{
  ℕ, zero, suc, ◌+◌, ◌*◌, ◌/◌, ◌%◌, ◌^◌, ◌≡◌, refl, sym, ap, ◌∙◌, inl, inr, ◌==◌, Bool-cases, List,
  [], ◌∷◌, map, All, IsU16, arith, true, false,
}
use sparse_post_quantum_ratc.Prelude.Xor.{
  bit_xor_assoc, bit_xor_comm, bit_xor_self, bit_xor-zero, bit_xor_medial, bit_xor-shift_right,
  bit_xor_parity, bit_xor-mask, bit_xor-lt,
}
use sparse_post_quantum_ratc.Encoding.Gf.{
  Gf16, poly, add, poly_mul, poly_reduce, mul, mul2, parallel_mult, div_rounds, div_impl, const_mul,
  const_div_rounds, const_div,
}
use sparse_post_quantum_ratc.Encoding.Gf.Reduce.{
  divide_bit, long_division, remainder, poly_reduce-remainder,
}
use sparse_post_quantum_ratc.Encoding.Gf.Product.{
  product, product_comm, product-xor_left, product-lt, poly_mul-product,
}

-- The multiplication that is meant: the rest of the product by the field's polynomial.
abbrev pub reference_mul : Gf16 → Gf16 → Gf16
reference_mul a b = remainder (product 16 a b)

-- The product of two field elements is the remainder of their product as polynomials over GF(2),
-- defined digit by digit, when the first one has 16 bits.
pub mul_correct : (a b : ℕ) → IsU16 a → mul a b ≡ reference_mul a b
unfolding mul
mul_correct a b h =
    ap poly_reduce (poly_mul-product a b)
    ∙ poly_reduce-remainder (product 16 a b) (product-lt 16 16 a b h)

bit_set : (v w k : ℕ) → bit_xor v w / 2 ^ k % 2 ≡ (v / 2 ^ k + w / 2 ^ k) % 2
bit_set v w k = ap (λ t. t % 2) (bit_xor-shift_right k v w) ∙ bit_xor_parity (v / 2 ^ k) (w / 2 ^ k)

divide_bit-xor :
    (at v w : ℕ) → divide_bit at (bit_xor v w) ≡ bit_xor (divide_bit at v) (divide_bit at w)
unfolding divide_bit
divide_bit-xor at v w =
    let p = poly * 2 ^ at in
    let x = v / 2 ^ (16 + at) in
    let y = w / 2 ^ (16 + at) in
    elim (Bool-cases (x % 2 == 0)) [
      | inl e ↦ elim (Bool-cases (y % 2 == 0)) [
        | inl f ↦
            let g : ((x + y) % 2 == 0) ≡ true = ground arith in rw (bit_set v w (16 + at), e, f, g)
        | inr f ↦
            let g : ((x + y) % 2 == 0) ≡ false = ground arith in
            rw (bit_set v w (16 + at), e, f, g) (bit_xor_assoc v w p)
      ]
      | inr e ↦ elim (Bool-cases (y % 2 == 0)) [
        | inl f ↦
            let g : ((x + y) % 2 == 0) ≡ false = ground arith in
            rw (bit_set v w (16 + at), e, f, g)
              (bit_xor_assoc v w p
                ∙ ap (λ t. bit_xor v t) (bit_xor_comm w p)
                ∙ sym (bit_xor_assoc v p w))
        | inr f ↦
            let g : ((x + y) % 2 == 0) ≡ true = ground arith in
            rw (bit_set v w (16 + at), e, f, g)
              (sym (
                bit_xor_medial v p w p
                ∙ ap (λ t. bit_xor (bit_xor v w) t) (bit_xor_self p)
                ∙ bit_xor-zero (bit_xor v w)))
      ]
    ]

long_division-xor :
    (from n v w : ℕ)
    → long_division from n (bit_xor v w) ≡ bit_xor (long_division from n v) (long_division from n w)
unfolding long_division
long_division-xor from zero v w = refl
long_division-xor from (suc n) v w =
    ap (λ t. long_division from n t) (divide_bit-xor (from + n) v w)
    ∙ long_division-xor from n (divide_bit (from + n) v) (divide_bit (from + n) w)

remainder-xor : (v w : ℕ) → remainder (bit_xor v w) ≡ bit_xor (remainder v) (remainder w)
unfolding remainder
remainder-xor v w =
    ap (λ t. t % 2 ^ 16) (long_division-xor 0 16 v w)
    ∙ bit_xor-mask 16 (long_division 0 16 v) (long_division 0 16 w)

poly_reduce-IsU16 : (v : ℕ) → IsU16 (poly_reduce v)
unfolding poly_reduce
poly_reduce-IsU16 v = mod-lt _ (omega arith)

pub mul-IsU16 : (a b : ℕ) → IsU16 (mul a b)
unfolding mul
mul-IsU16 a b = poly_reduce-IsU16 (poly_mul a b)

pub mul_comm : (a b : ℕ) → IsU16 a → IsU16 b → mul a b ≡ mul b a
mul_comm a b ha hb =
    mul_correct a b ha ∙ ap remainder (product_comm 16 a b ha hb) ∙ sym (mul_correct b a hb)

-- Multiplication distributes over addition in its first argument, when the two summands have 16
-- bits.
pub mul-add : (a b c : ℕ) → IsU16 a → IsU16 b → mul (add a b) c ≡ add (mul a c) (mul b c)
mul-add a b c ha hb =
    mul_correct (bit_xor a b) c (bit_xor-lt 16 a b ha hb)
    ∙ ap remainder (product-xor_left 16 a b c)
    ∙ remainder-xor (product 16 a c) (product 16 b c)
    ∙ rw (mul_correct a c ha, mul_correct b c hb)

-- parallel_mult multiplies each element of the slice, when all of them and the factor have 16
-- bits.
pub parallel_mult-map :
    (a : ℕ) (into : List ℕ) → IsU16 a → All IsU16 into → parallel_mult a into ≡ map (mul a) into
unfolding parallel_mult mul2
parallel_mult-map a [] ha h = refl
parallel_mult-map a (x ∷ []) ha h = ap (λ t. t ∷ []) (mul_comm x a h.0 ha)
parallel_mult-map a (x ∷ y ∷ into) ha h =
    ap (λ t. mul a x ∷ mul a y ∷ t) (parallel_mult-map a into ha h.1.1)

div_rounds-const :
    (n square out : ℕ)
    → IsU16 square
    → IsU16 out
    → div_rounds n (mul square square) out ≡ const_div_rounds n square out
unfolding div_rounds const_div_rounds const_mul mul2
div_rounds-const zero square out hs ho = refl
div_rounds-const (suc n) square out hs ho =
    let squared = mul square square in
    ap (λ t. div_rounds n (mul squared squared) t)
      (mul_comm squared out (mul-IsU16 square square) ho)
    ∙ div_rounds-const n squared (mul out squared) (mul-IsU16 square square) (mul-IsU16 out squared)

-- The division at run time and the one for constants agree on elements of 16 bits.
pub div_impl-const_div :
    (self other : ℕ) → IsU16 self → IsU16 other → div_impl self other ≡ const_div self other
unfolding div_impl const_div
div_impl-const_div self other hs ho = div_rounds-const 15 other self ho hs
