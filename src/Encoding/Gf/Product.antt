-- ===== src/Encoding/Gf/Product.antt =====
-- The product of polynomials over GF(2) by its lowest digit, which `poly_mul` computes by shifts. It
-- is commutative, and distributes over `^`.
use Prim.Native.Nat.{bit_and, bit_xor}
use native.Mathlib.Nat.{mul_assoc, mul_comm, zero-mul, pow-suc, mod-eq_of_lt}
use sparse_post_quantum_ratc.Prelude.{
  ℕ, zero, suc, ◌+◌, ◌*◌, ◌/◌, ◌%◌, ◌^◌, ◌<◌, ◌≤◌, ◌≡◌, refl, sym, ap, ◌∙◌, inl, inr, ◌==◌,
  if◌then◌else◌, Bool-cases, arith, true, false,
}
use sparse_post_quantum_ratc.Prelude.Xor.{
  bit_xor_assoc, bit_xor_comm, bit_xor-zero, zero-bit_xor, bit_xor_double, bit_xor-digit,
  bit_xor-shift_left, bit_xor-lt, mod_pow-suc, div_pow-add, bit_xor_medial, pow_two_pos,
  pow_two-add, pow_two-le,
}
use sparse_post_quantum_ratc.Encoding.Gf.Reduce.{test_bit}
use sparse_post_quantum_ratc.Encoding.Gf.{poly_mul_rounds, poly_mul}

-- `x`, if the last digit of `b` is set.
abbrev pub digit_times : ℕ → ℕ → ℕ
digit_times b x = if b % 2 == 0 then 0 else x

-- The first `n` digits of `b`, each times `a` at its place.
unfoldable pub product : ℕ → ℕ → ℕ → ℕ
product zero a b = 0
product (suc n) a b = bit_xor (product n a (b / 2) * 2) (digit_times b a)

digit_times-zero : (b : ℕ) → digit_times b 0 ≡ 0
digit_times-zero b = elim (Bool-cases (b % 2 == 0)) [ inl e ↦ rw e | inr e ↦ rw e ]

digit_times-xor :
    (b x y : ℕ) → digit_times b (bit_xor x y) ≡ bit_xor (digit_times b x) (digit_times b y)
digit_times-xor b x y = elim (Bool-cases (b % 2 == 0)) [ inl e ↦ rw e | inr e ↦ rw e ]

digit_times_double : (b x : ℕ) → digit_times b (x * 2) ≡ digit_times b x * 2
digit_times_double b x = elim (Bool-cases (b % 2 == 0)) [ inl e ↦ rw e | inr e ↦ rw e ]

digit_times_digits : (a b : ℕ) → digit_times b (a % 2) ≡ digit_times a (b % 2)
digit_times_digits a b = ground arith

join : (x : ℕ) → bit_xor (x / 2 * 2) (x % 2) ≡ x
join x =
    let e : bit_xor (x / 2 * 2 / 2) (x % 2 / 2) ≡ x / 2 =
      let f : x / 2 * 2 / 2 ≡ x / 2 = omega arith in
      let g : x % 2 / 2 ≡ 0 = omega arith in rw (f, g) (bit_xor-zero (x / 2)) in
    omega (arith, bit_xor-digit (x / 2 * 2) (x % 2), e)

low_digits : (n b : ℕ) → b % 2 ^ suc n ≡ bit_xor (b / 2 % 2 ^ n * 2) (b % 2)
low_digits n b =
    let x = b / 2 % 2 ^ n * 2 + b % 2 in
    let e : x / 2 ≡ b / 2 % 2 ^ n = omega arith in
    let f : x % 2 ≡ b % 2 = omega arith in mod_pow-suc n b ∙ sym (join x) ∙ rw (e, f)

digit_times_split :
    (b a : ℕ) → digit_times b a ≡ bit_xor (digit_times b (a / 2) * 2) (digit_times b (a % 2))
digit_times_split b a =
    ap (λ t. digit_times b t) (sym (join a))
    ∙ digit_times-xor b (a / 2 * 2) (a % 2)
    ∙ ap (λ t. bit_xor t (digit_times b (a % 2))) (digit_times_double b (a / 2))

-- The digits of `a` can be taken off too.
product_left :
    (n a b : ℕ) → product n a b ≡ bit_xor (product n (a / 2) b * 2) (digit_times a (b % 2 ^ n))
unfolding product
product_left zero a b =
    let e : b % 2 ^ 0 ≡ 0 = omega arith in rw e (sym (zero-bit_xor _ ∙ digit_times-zero a))
product_left (suc n) a b =
    let x = product n (a / 2) (b / 2) in
    let y = b / 2 % 2 ^ n in
    let right : digit_times a (b % 2 ^ suc n)
        ≡ bit_xor (digit_times a y * 2) (digit_times b (a % 2)) =
      ap (λ t. digit_times a t) (low_digits n b)
      ∙ digit_times-xor a (y * 2) (b % 2)
      ∙ rw (digit_times_double a y, digit_times_digits a b) in
    rw
      (
        product_left n a (b / 2),
        digit_times_split b a,
        right,
        sym (bit_xor_double (x * 2) (digit_times a y)),
        sym (bit_xor_double (x * 2) (digit_times b (a / 2))),
      )
      (bit_xor_medial (x * 2 * 2) (digit_times a y * 2) (digit_times b (a / 2) * 2)
        (digit_times b (a % 2)))

half_lt : (n b : ℕ) → b < 2 ^ suc n → b / 2 < 2 ^ n
half_lt n b h = omega (arith, pow-suc 2 n)

pub product_comm : (n a b : ℕ) → a < 2 ^ n → b < 2 ^ n → product n a b ≡ product n b a
unfolding product
product_comm zero a b ha hb = refl
product_comm (suc n) a b ha hb =
    let x = product n (a / 2) (b / 2) in
    let a' : a / 2 % 2 ^ n ≡ a / 2 = mod-eq_of_lt (half_lt n a ha) in
    let b' : b / 2 % 2 ^ n ≡ b / 2 = mod-eq_of_lt (half_lt n b hb) in
    let right : digit_times a b ≡ bit_xor (digit_times a (b / 2) * 2) (digit_times b (a % 2)) =
      digit_times_split a b
      ∙ ap (λ t. bit_xor (digit_times a (b / 2) * 2) t) (sym (digit_times_digits a b)) in
    rw
      (
        product_left n a (b / 2),
        product_left n b (a / 2),
        sym (product_comm n (a / 2) (b / 2) (half_lt n a ha) (half_lt n b hb)),
        a',
        b',
        sym (bit_xor_double (x * 2) (digit_times a (b / 2))),
        sym (bit_xor_double (x * 2) (digit_times b (a / 2))),
        digit_times_split b a,
        right,
      )
      (bit_xor_medial (x * 2 * 2) (digit_times a (b / 2) * 2) (digit_times b (a / 2) * 2)
        (digit_times b (a % 2)))

pub product-xor_left :
    (n a a' b : ℕ) → product n (bit_xor a a') b ≡ bit_xor (product n a b) (product n a' b)
unfolding product
product-xor_left zero a a' b = refl
product-xor_left (suc n) a a' b =
    rw
      (
        product-xor_left n a a' (b / 2),
        sym (bit_xor_double (product n a (b / 2)) (product n a' (b / 2))),
        digit_times-xor b a a',
      )
      (bit_xor_medial (product n a (b / 2) * 2) (product n a' (b / 2) * 2) (digit_times b a)
        (digit_times b a'))

digit_times-lt : (k b x : ℕ) → x < 2 ^ k → digit_times b x < 2 ^ k
digit_times-lt k b x h = elim (Bool-cases (b % 2 == 0)) [
  | inl e ↦ rw e (omega arith)
  | inr e ↦ rw e h
]

pub product-lt : (n k a b : ℕ) → a < 2 ^ k → product n a b < 2 ^ (k + n)
unfolding product
product-lt zero k a b h = pow_two_pos (k + 0)
product-lt (suc n) k a b h =
    let e : k + suc n ≡ suc (k + n) = omega arith in
    let low : product n a (b / 2) * 2 < 2 ^ suc (k + n) =
      omega (arith, pow-suc 2 (k + n), product-lt n k a (b / 2) h) in
    let more : 2 ^ k ≤ 2 ^ suc (k + n) = pow_two-le k (suc (k + n)) (omega arith) in
    rw e (bit_xor-lt (suc (k + n)) _ _ low (digit_times-lt (suc (k + n)) b a (omega arith)))

-- `poly_mul` adds the digits to `acc`, from the place `shift` on.
poly_mul_rounds-product :
    (n shift a b acc : ℕ)
    → poly_mul_rounds n shift a b acc ≡ bit_xor acc (product n a (b / 2 ^ shift) * 2 ^ shift)
unfolding poly_mul_rounds product
poly_mul_rounds-product zero shift a b acc = rw (zero-mul (2 ^ shift)) (sym (bit_xor-zero acc))
poly_mul_rounds-product (suc n) shift a b acc =
    let q = product n a (b / 2 ^ shift / 2) in
    let next : b / 2 ^ (shift + 1) ≡ b / 2 ^ shift / 2 = div_pow-add b shift 1 in
    let place : q * 2 ^ (shift + 1) ≡ q * 2 * 2 ^ shift =
      ap (λ t. q * t) (pow_two-add shift 1 ∙ mul_comm (2 ^ shift) 2)
      ∙ sym (mul_assoc q 2 (2 ^ shift)) in
    let split : bit_xor (q * 2) (digit_times (b / 2 ^ shift) a) * 2 ^ shift
        ≡ bit_xor (q * 2 * 2 ^ shift) (digit_times (b / 2 ^ shift) a * 2 ^ shift) =
      sym (bit_xor-shift_left shift (q * 2) (digit_times (b / 2 ^ shift) a)) in
    elim (Bool-cases (b / 2 ^ shift % 2 == 0)) [
      | inl e ↦
          let t : (bit_and b (2 ^ shift) == 0) ≡ true = test_bit shift b ∙ e in
          rw (
            t,
            poly_mul_rounds-product n (shift + 1) a b acc,
            next,
            place,
            split,
            e,
            zero-mul (2 ^ shift),
            bit_xor-zero (q * 2 * 2 ^ shift),
          )
      | inr e ↦
          let t : (bit_and b (2 ^ shift) == 0) ≡ false = test_bit shift b ∙ e in
          rw
            (
              t,
              poly_mul_rounds-product n (shift + 1) a b (bit_xor acc (a * 2 ^ shift)),
              next,
              place,
              split,
              e,
            )
            (bit_xor_assoc acc (a * 2 ^ shift) (q * 2 * 2 ^ shift)
              ∙ ap (λ u. bit_xor acc u) (bit_xor_comm (a * 2 ^ shift) (q * 2 * 2 ^ shift)))
    ]

pub poly_mul-product : (a b : ℕ) → poly_mul a b ≡ product 16 a b
unfolding poly_mul
poly_mul-product a b =
    let e : b / 2 ^ 0 ≡ b = omega arith in
    let f : product 16 a b * 2 ^ 0 ≡ product 16 a b = omega arith in
    poly_mul_rounds-product 16 0 a b 0 ∙ zero-bit_xor _ ∙ ap (λ t. product 16 a t * 2 ^ 0) e ∙ f
