-- ===== src/Encoding/Gf/Accelerated/Agree.antt =====
-- The accelerated routines agree with the portable ones, when the carry-less product of the processor
-- is the product of polynomials over GF(2).
use Prim.Native.Nat.{bit_or, bit_xor}
use native.Mathlib.Nat.{pow-suc, mul_assoc}
use sparse_post_quantum_ratc.Prelude.{
  ℕ, zero, suc, ◌+◌, ◌*◌, ◌/◌, ◌%◌, ◌^◌, ◌<◌, ◌≡◌, refl, sym, ap, ◌∙◌, Bool, true, false, ◌==◌,
  if◌then◌else◌, IsU16, arith,
}
use sparse_post_quantum_ratc.Prelude.Or.{bit_or-shifted}
use sparse_post_quantum_ratc.Prelude.Xor.{
  bit_xor_assoc, bit_xor-zero, zero-bit_xor, bit_xor_double, bit_xor-mask, bit_xor-shift_right,
}
use sparse_post_quantum_ratc.Encoding.Gf.{mul, poly_reduce}
use sparse_post_quantum_ratc.Encoding.Gf.Product.{
  product, digit_times, poly_mul-product, product-lt,
}
use sparse_post_quantum_ratc.Encoding.Gf.Accelerated.{
  X86, mul2_unreduced_x86, mul2_x86, mul_x86, mul2_unreduced_aarch64, mul2_aarch64, mul_aarch64,
  mul_assign, mul2_u16,
}

product-zero : (n a : ℕ) → product n a 0 ≡ 0
unfolding product
product-zero zero a = refl
product-zero (suc n) a = rw (product-zero n a) refl

-- The product with a number in two parts.
product_parts :
    (n m a x y : ℕ)
    → y < 2 ^ n
    → product (n + m) a (x * 2 ^ n + y) ≡ bit_xor (product m a x * 2 ^ n) (product n a y)
unfolding product
product_parts zero m a x y h =
    let e : x * 2 ^ 0 + y ≡ x = omega arith in
    let f : 0 + m ≡ m = omega arith in
    let g : product m a x * 2 ^ 0 ≡ product m a x = omega arith in
    rw (e, f, g) (sym (bit_xor-zero (product m a x)))
product_parts (suc n) m a x y h =
    let b = x * 2 ^ suc n + y in
    let double : (t : ℕ) → t * 2 ^ suc n ≡ t * 2 ^ n * 2 =
      λ t. ap (λ u. t * u) (pow-suc 2 n) ∙ sym (mul_assoc t (2 ^ n) 2) in
    let half : b / 2 ≡ x * 2 ^ n + y / 2 = omega (arith, double x) in
    let low : b % 2 ≡ y % 2 = omega (arith, double x) in
    let size : suc n + m ≡ suc (n + m) = omega arith in
    let high = product m a x in
    let rest = product n a (y / 2) in
    let ih : product (n + m) a (b / 2) ≡ bit_xor (high * 2 ^ n) rest =
      ap (product (n + m) a) half ∙ product_parts n m a x (y / 2) (omega (arith, pow-suc 2 n)) in
    ap (λ t. product t a b) size
    ∙ ap (λ t. bit_xor (t * 2) (digit_times b a)) ih
    ∙ ap (λ t. bit_xor t (digit_times b a)) (sym (bit_xor_double (high * 2 ^ n) rest))
    ∙ bit_xor_assoc (high * 2 ^ n * 2) (rest * 2) (digit_times b a)
    ∙ ap (λ t. bit_xor t (bit_xor (rest * 2) (digit_times b a))) (sym (double high))
    ∙ ap (λ t. bit_xor (high * 2 ^ suc n) (bit_xor (rest * 2) (if t == 0 then 0 else a))) low

product_short : (a b : ℕ) → IsU16 b → product 32 a b ≡ product 16 a b
product_short a b h =
    let e : 0 * 2 ^ 16 + b ≡ b = omega arith in
    ap (product 32 a) (sym e)
    ∙ product_parts 16 16 a 0 b h
    ∙ ap (λ t. bit_xor (t * 2 ^ 16) (product 16 a b)) (product-zero 16 a)
    ∙ zero-bit_xor (product 16 a b)

product_small : (a b : ℕ) → IsU16 a → product 16 a b < 2 ^ 32
product_small a b h = product-lt 16 16 a b h

-- Two products in one of 64 digits.
abbrev both : ℕ → ℕ → ℕ → ℕ
both a high low = product 64 a (bit_or (high * 2 ^ 32) low)

both_parts :
    (a high low : ℕ)
    → IsU16 high
    → IsU16 low
    → both a high low ≡ bit_xor (product 16 a high * 2 ^ 32) (product 16 a low)
both_parts a high low hh hl =
    ap (product 64 a) (bit_or-shifted 32 high low (omega arith))
    ∙ product_parts 32 32 a high low (omega arith)
    ∙ ap (λ t. bit_xor (t * 2 ^ 32) (product 32 a low)) (product_short a high hh)
    ∙ ap (λ t. bit_xor (product 16 a high * 2 ^ 32) t) (product_short a low hl)

both_low :
    (a high low : ℕ)
    → IsU16 a
    → IsU16 high
    → IsU16 low
    → both a high low % 2 ^ 32 ≡ product 16 a low
both_low a high low ha hh hl =
    let p = product 16 a high in
    let q = product 16 a low in
    let none : p * 2 ^ 32 % 2 ^ 32 ≡ 0 = omega arith in
    let all : q % 2 ^ 32 ≡ q = omega (arith, product_small a low ha) in
    ap (λ t. t % 2 ^ 32) (both_parts a high low hh hl)
    ∙ bit_xor-mask 32 (p * 2 ^ 32) q
    ∙ ap (λ t. bit_xor t (q % 2 ^ 32)) none
    ∙ zero-bit_xor (q % 2 ^ 32)
    ∙ all

both_high :
    (a high low : ℕ)
    → IsU16 a
    → IsU16 high
    → IsU16 low
    → both a high low / 2 ^ 32 % 2 ^ 32 ≡ product 16 a high
both_high a high low ha hh hl =
    let p = product 16 a high in
    let q = product 16 a low in
    let all : p * 2 ^ 32 / 2 ^ 32 ≡ p = omega arith in
    let none : q / 2 ^ 32 ≡ 0 = omega (arith, product_small a low ha) in
    let small : p % 2 ^ 32 ≡ p = omega (arith, product_small a high ha) in
    ap (λ t. t / 2 ^ 32 % 2 ^ 32) (both_parts a high low hh hl)
    ∙ ap (λ t. t % 2 ^ 32)
        (bit_xor-shift_right 32 (p * 2 ^ 32) q
          ∙ ap (λ t. bit_xor t (q / 2 ^ 32)) all
          ∙ ap (bit_xor p) none
          ∙ bit_xor-zero p)
    ∙ small

reduced : (a b x : ℕ) → x ≡ product 16 a b → poly_reduce x ≡ mul a b
unfolding mul
reduced a b x e = ap poly_reduce (e ∙ sym (poly_mul-product a b))

-- What the documentation of the intrinsics says of the bits of registers.
pub record IsX86 {Reg : Type 0} (arch : X86 Reg) (bits : Reg → ℕ) : Type 0 where
  pub set_bits :
      (high low : ℕ) → bits (arch.set_epi64x high low) ≡ high % 2 ^ 64 * 2 ^ 64 + low % 2 ^ 64
  pub clmul_bits :
      (a b : Reg)
      → bits (arch.clmulepi64_si128 a b 0) ≡ product 64 (bits a % 2 ^ 64) (bits b % 2 ^ 64)
  pub low_bits : (a : Reg) → arch.cvtsi128_si32 a ≡ bits a % 2 ^ 32
  pub shifted_bits : (a : Reg) (n : ℕ) → bits (arch.srli_si128 a n) ≡ bits a / 2 ^ (8 * n)

or_small : (high low : ℕ) → IsU16 high → IsU16 low → bit_or (high * 2 ^ 32) low < 2 ^ 64
or_small high low hh hl = omega (arith, bit_or-shifted 32 high low (omega arith))

module _ {Reg : Type 0} (arch : X86 Reg) (bits : Reg → ℕ) (law : IsX86 arch bits) where
  set_low : (low : ℕ) → low < 2 ^ 64 → bits (arch.set_epi64x 0 low) % 2 ^ 64 ≡ low
  set_low low h = omega (arith, law.set_bits 0 low)

  clmul_both :
      (a b1 b2 : ℕ)
      → IsU16 a
      → IsU16 b1
      → IsU16 b2
      → bits (
          arch.clmulepi64_si128
            (arch.set_epi64x 0 a)
            (arch.set_epi64x 0 (bit_or (b2 * 2 ^ 32) b1))
            0)
        ≡ both a b2 b1
  clmul_both a b1 b2 ha h1 h2 =
      law.clmul_bits (arch.set_epi64x 0 a) (arch.set_epi64x 0 (bit_or (b2 * 2 ^ 32) b1))
      ∙ ap (λ t. product 64 t (bits (arch.set_epi64x 0 (bit_or (b2 * 2 ^ 32) b1)) % 2 ^ 64))
          (set_low a (omega arith))
      ∙ ap (product 64 a) (set_low (bit_or (b2 * 2 ^ 32) b1) (or_small b2 b1 h2 h1))

  mul2_x86-mul :
      (a b1 b2 : ℕ) → IsU16 a → IsU16 b1 → IsU16 b2 → mul2_x86 arch a b1 b2 ≡ (mul a b1, mul a b2)
  unfolding mul2_x86 mul2_unreduced_x86
  mul2_x86-mul a b1 b2 ha h1 h2 =
      let r =
        arch.clmulepi64_si128 (arch.set_epi64x 0 a) (arch.set_epi64x 0 (bit_or (b2 * 2 ^ 32) b1))
          0 in
      let product_bits = clmul_both a b1 b2 ha h1 h2 in
      let first = law.low_bits r ∙ ap (λ t. t % 2 ^ 32) product_bits ∙ both_low a b2 b1 ha h2 h1 in
      let second =
        law.low_bits (arch.srli_si128 r 4)
        ∙ ap (λ t. t % 2 ^ 32) (law.shifted_bits r 4)
        ∙ ap (λ t. t / 2 ^ 32 % 2 ^ 32) product_bits
        ∙ both_high a b2 b1 ha h2 h1 in
      ap (λ t. (t, poly_reduce (arch.cvtsi128_si32 (arch.srli_si128 r 4))))
        (reduced a b1 (arch.cvtsi128_si32 r) first)
      ∙ ap (λ t. (mul a b1, t)) (reduced a b2 (arch.cvtsi128_si32 (arch.srli_si128 r 4)) second)

-- What the documentation of `vmull_p64` says.
abbrev pub IsVmull : (ℕ → ℕ → ℕ) → Type 0
IsVmull vmull_p64 = (a b : ℕ) → a < 2 ^ 64 → b < 2 ^ 64 → vmull_p64 a b ≡ product 64 a b

mul2_aarch64-mul :
    (vmull_p64 : ℕ → ℕ → ℕ) (a b1 b2 : ℕ)
    → IsVmull vmull_p64
    → IsU16 a
    → IsU16 b1
    → IsU16 b2
    → mul2_aarch64 vmull_p64 a b1 b2 ≡ (mul a b1, mul a b2)
unfolding mul2_aarch64 mul2_unreduced_aarch64
mul2_aarch64-mul vmull_p64 a b1 b2 law ha h1 h2 =
    let r = vmull_p64 a (bit_or (b1 * 2 ^ 32) b2) in
    let e : r ≡ both a b1 b2 =
      law a (bit_or (b1 * 2 ^ 32) b2) (omega arith) (or_small b1 b2 h1 h2) in
    ap (λ t. (t, poly_reduce (r % 2 ^ 32)))
      (reduced a b1 (r / 2 ^ 32 % 2 ^ 32)
        (ap (λ t. t / 2 ^ 32 % 2 ^ 32) e ∙ both_high a b1 b2 ha h1 h2))
    ∙ ap (λ t. (mul a b1, t))
        (reduced a b2 (r % 2 ^ 32) (ap (λ t. t % 2 ^ 32) e ∙ both_low a b1 b2 ha h1 h2))

-- On elements of 16 bits multiplication by assignment gives the portable product, and mul2_u16 the
-- two portable products, whether the accelerated routines are chosen or not, with those of x86 as
-- with those of aarch64, when the intrinsics do to the bits of registers what their documentation
-- says.
pub mul_assign-mul :
    {Reg : Type 0} (arch : X86 Reg) (bits : Reg → ℕ) (vmull_p64 : ℕ → ℕ → ℕ) (token : Bool)
    (a b1 b2 : ℕ)
    → IsX86 arch bits
    → IsVmull vmull_p64
    → IsU16 a
    → IsU16 b1
    → IsU16 b2
    → (mul_assign token (mul_x86 arch) a b1 ≡ mul a b1)
      × (mul_assign token (mul_aarch64 vmull_p64) a b1 ≡ mul a b1)
      × (mul2_u16 token (mul2_x86 arch) a b1 b2 ≡ (mul a b1, mul a b2))
      × (mul2_u16 token (mul2_aarch64 vmull_p64) a b1 b2 ≡ (mul a b1, mul a b2))
unfolding mul_assign mul2_u16 mul_x86 mul_aarch64
mul_assign-mul arch bits vmull_p64 true a b1 b2 law vmull ha h1 h2 = (
  ap (λ t. t.0) (mul2_x86-mul arch bits law a b1 0 ha h1 (omega arith)),
  ap (λ t. t.0) (mul2_aarch64-mul vmull_p64 a b1 0 vmull ha h1 (omega arith)),
  mul2_x86-mul arch bits law a b1 b2 ha h1 h2,
  mul2_aarch64-mul vmull_p64 a b1 b2 vmull ha h1 h2,
)
mul_assign-mul arch bits vmull_p64 false a b1 b2 law vmull ha h1 h2 = (refl, refl, refl, refl)
