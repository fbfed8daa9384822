-- ===== src/Encoding/Gf/Reduce.antt =====
-- The reduction by two table lookups against long division by the field's polynomial.
use Prim.Native.Nat.{bit_and, bit_xor}
use sparse_post_quantum_ratc.Prelude.{
  ℕ, zero, suc, ◌+◌, ◌*◌, ◌/◌, ◌%◌, ◌^◌, ◌<◌, ◌≤◌, ◌≡◌, refl, sym, ap, ◌∙◌, inl, inr, ◌==◌,
  if◌then◌else◌, Bool-cases, arith, true, false,
}
use sparse_post_quantum_ratc.Prelude.Bits.{bit_and-digit, bit_and-mask}
use sparse_post_quantum_ratc.Prelude.Xor.{
  bit_xor_assoc, bit_xor-zero, bit_xor-shift_left, bit_xor-shift_right, bit_xor-mask, bit_and-bit,
  pow_two_pos, pow_two-add, div_pow-add,
}
use native.Mathlib.Nat.{mul_comm, mul_assoc, one-mul, zero-mul, mul-div-mul_right}
use sparse_post_quantum_ratc.Encoding.Gf.{
  poly, reduce_rounds, reduce_from_byte, reduce_bytes, poly_reduce,
}

-- One step of long division: bit `16 + at` is cleared by the polynomial, if it is set.
unfoldable pub divide_bit : ℕ → ℕ → ℕ
divide_bit at v = if v / 2 ^ (16 + at) % 2 == 0 then v else bit_xor v (poly * 2 ^ at)

-- The steps for the bits below `16 + from + n`, down to `16 + from`.
unfoldable pub long_division : ℕ → ℕ → ℕ → ℕ
long_division from zero v = v
long_division from (suc n) v = long_division from n (divide_bit (from + n) v)

-- The rest of a number below `2 ^ 32`.
unfoldable pub remainder : ℕ → ℕ
remainder v = long_division 0 16 v % 2 ^ 16

bit_of_byte : (x n : ℕ) → n < 8 → x % 2 ^ 8 / 2 ^ n % 2 ≡ x / 2 ^ n % 2
bit_of_byte x zero h = omega arith
bit_of_byte x (suc zero) h = omega arith
bit_of_byte x (suc (suc zero)) h = omega arith
bit_of_byte x (suc (suc (suc zero))) h = omega arith
bit_of_byte x (suc (suc (suc (suc zero)))) h = omega arith
bit_of_byte x (suc (suc (suc (suc (suc zero))))) h = omega arith
bit_of_byte x (suc (suc (suc (suc (suc (suc zero)))))) h = omega arith
bit_of_byte x (suc (suc (suc (suc (suc (suc (suc zero))))))) h = omega arith
bit_of_byte x (suc (suc (suc (suc (suc (suc (suc (suc n)))))))) h = absurd (omega arith)

pow_two_nonzero : (k : ℕ) → (2 ^ k == 0) ≡ (1 == 0)
pow_two_nonzero k = ground (arith, pow_two_pos k)

-- The test of a bit by `&`.
pub is_zero-mul_pow : (x k : ℕ) → (x % 2 * 2 ^ k == 0) ≡ (x % 2 == 0)
is_zero-mul_pow x k = elim (Bool-cases (x % 2 == 0)) [
  | inl e ↦ let z : x % 2 ≡ 0 = ground arith in rw (z, zero-mul (2 ^ k))
  | inr e ↦ let o : x % 2 ≡ 1 = ground arith in rw (o, one-mul (2 ^ k)) (pow_two_nonzero k)
]

pub test_bit : (k b : ℕ) → (bit_and b (2 ^ k) == 0) ≡ (b / 2 ^ k % 2 == 0)
test_bit k b = rw (bit_and-bit k b) (is_zero-mul_pow (b / 2 ^ k) k)

-- `a` holds the eight bits from `16 + from` on of the number under division.
module _ (from : ℕ) where
  byte_bit :
      (n a w : ℕ)
      → n < 8
      → a ≡ w / 2 ^ (16 + from) % 2 ^ 8
      → a / 2 ^ n % 2 ≡ w / 2 ^ (16 + (from + n)) % 2
  byte_bit n a w h e =
      let place : 16 + (from + n) ≡ 16 + from + n = omega arith in
      rw (e, bit_of_byte (w / 2 ^ (16 + from)) n h, place, div_pow-add w (16 + from) n)

  shifted : (n : ℕ) → poly * 2 ^ (from + n) ≡ poly * 2 ^ n * 2 ^ from
  shifted n =
      rw (pow_two-add from n, mul_comm (2 ^ from) (2 ^ n)) (sym (mul_assoc poly (2 ^ n) (2 ^ from)))

  subtract :
      (n v out : ℕ)
      → bit_xor (bit_xor v (out * 2 ^ from)) (poly * 2 ^ (from + n))
        ≡ bit_xor v (bit_xor out (poly * 2 ^ n) * 2 ^ from)
  subtract n v out =
      rw (shifted n, bit_xor_assoc v (out * 2 ^ from) (poly * 2 ^ n * 2 ^ from))
        (ap (λ t. bit_xor v t) (bit_xor-shift_left from out (poly * 2 ^ n)))

  next_byte :
      (n a w : ℕ)
      → a ≡ w / 2 ^ (16 + from) % 2 ^ 8
      → bit_xor a (poly * 2 ^ n / 2 ^ 16 % 2 ^ 8)
        ≡ bit_xor w (poly * 2 ^ (from + n)) / 2 ^ (16 + from) % 2 ^ 8
  next_byte n a w e =
      let high : poly * 2 ^ (from + n) / 2 ^ (16 + from) ≡ poly * 2 ^ n / 2 ^ 16 =
        rw (shifted n, pow_two-add 16 from)
          (mul-div-mul_right (poly * 2 ^ n) (2 ^ 16) (pow_two_pos from)) in
      rw (
        bit_xor-shift_right (16 + from) w (poly * 2 ^ (from + n)),
        high,
        bit_xor-mask 8 (w / 2 ^ (16 + from)) (poly * 2 ^ n / 2 ^ 16),
        e,
      )

  divide_bit_unset : (at w : ℕ) → (w / 2 ^ (16 + at) % 2 == 0) ≡ true → divide_bit at w ≡ w
  unfolding divide_bit
  divide_bit_unset at w e = rw e

  divide_bit_set :
      (at w : ℕ)
      → (w / 2 ^ (16 + at) % 2 == 0) ≡ false
      → divide_bit at w ≡ bit_xor w (poly * 2 ^ at)
  unfolding divide_bit
  divide_bit_set at w e = rw e

  long_division-rounds :
      (n a v out : ℕ)
      → n ≤ 8
      → a ≡ bit_xor v (out * 2 ^ from) / 2 ^ (16 + from) % 2 ^ 8
      → long_division from n (bit_xor v (out * 2 ^ from))
        ≡ bit_xor v (reduce_rounds n a out * 2 ^ from)
  unfolding long_division reduce_rounds
  long_division-rounds zero a v out h e = refl
  long_division-rounds (suc n) a v out h e =
      let w = bit_xor v (out * 2 ^ from) in
      let same : (bit_and a (2 ^ n) == 0) ≡ (w / 2 ^ (16 + (from + n)) % 2 == 0) =
        test_bit n a ∙ ap (λ t. t == 0) (byte_bit n a w (omega arith) e) in
      elim (Bool-cases (w / 2 ^ (16 + (from + n)) % 2 == 0)) [
        | inl unset ↦
            rw (divide_bit_unset (from + n) w unset, same ∙ unset)
              (long_division-rounds n a v out (omega arith) e)
        | inr set ↦
            rw (divide_bit_set (from + n) w set, same ∙ set, subtract n v out)
              (long_division-rounds n (bit_xor a (poly * 2 ^ n / 2 ^ 16 % 2 ^ 8)) v
                (bit_xor out (poly * 2 ^ n)) (omega arith)
                (next_byte n a w e ∙ ap (λ t. t / 2 ^ (16 + from) % 2 ^ 8) (subtract n v out)))
      ]

  long_division-byte :
      (v : ℕ)
      → long_division from 8 v
        ≡ bit_xor v (reduce_from_byte (v / 2 ^ (16 + from) % 2 ^ 8) * 2 ^ from)
  unfolding reduce_from_byte
  long_division-byte v =
      let start : bit_xor v (0 * 2 ^ from) ≡ v = rw (zero-mul (2 ^ from)) (bit_xor-zero v) in
      ap (λ t. long_division from 8 t) (sym start)
      ∙ long_division-rounds 8 (v / 2 ^ (16 + from) % 2 ^ 8) v 0 (omega arith)
          (ap (λ t. t / 2 ^ (16 + from) % 2 ^ 8) (sym start))

two_bytes : (v : ℕ) → long_division 0 16 v ≡ long_division 0 8 (long_division 8 8 v)
unfolding long_division
two_bytes v = refl

mask_byte : (x : ℕ) → bit_and x 0xff ≡ x % 2 ^ 8
mask_byte x = omega (arith, bit_and-digit x 255, bit_and-mask (x / 2))

-- On every u32, poly_reduce with its table lookups gives the remainder of long division by the
-- polynomial of the field, bit for bit from the highest one down.
pub poly_reduce-remainder : (v : ℕ) → v < 2 ^ 32 → poly_reduce v ≡ remainder v
unfolding poly_reduce remainder reduce_bytes
poly_reduce-remainder v h =
    let c = reduce_from_byte (v / 2 ^ 24) in
    let top : v / 2 ^ 24 % 2 ^ 8 ≡ v / 2 ^ 24 = omega arith in
    let v1 = bit_xor v (c * 2 ^ 8) in
    let v1' = bit_xor v (c % 2 ^ 16 * 2 ^ 8) in
    let first : long_division 8 8 v ≡ v1 =
      long_division-byte 8 v ∙ ap (λ t. bit_xor v (reduce_from_byte t * 2 ^ 8)) top in
    let low : v1' % 2 ^ 24 ≡ v1 % 2 ^ 24 =
      bit_xor-mask 24 v (c % 2 ^ 16 * 2 ^ 8)
      ∙ ap (λ t. bit_xor (v % 2 ^ 24) t) (omega arith)
      ∙ sym (bit_xor-mask 24 v (c * 2 ^ 8)) in
    let i2 : bit_and (v1' / 2 ^ 16) 0xff ≡ v1 / 2 ^ 16 % 2 ^ 8 =
      mask_byte (v1' / 2 ^ 16) ∙ omega (arith, low) in
    let d = reduce_from_byte (v1 / 2 ^ 16 % 2 ^ 8) in
    let second : long_division 0 16 v ≡ bit_xor v1 (d * 2 ^ 0) =
      two_bytes v ∙ ap (λ t. long_division 0 8 t) first ∙ long_division-byte 0 v1 in
    let short : v1' % 2 ^ 16 ≡ v1 % 2 ^ 16 = omega (arith, low) in
    let one : d * 2 ^ 0 ≡ d = omega arith in
    rw i2 (
      bit_xor-mask 16 v1' (d % 2 ^ 16)
      ∙ rw (short) (
          ap (λ t. bit_xor (v1 % 2 ^ 16) t) (omega arith)
          ∙ sym (bit_xor-mask 16 v1 d)
          ∙ ap (λ t. bit_xor v1 t % 2 ^ 16) (sym one)
          ∙ ap (λ t. t % 2 ^ 16) (sym second)))
