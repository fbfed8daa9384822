-- ===== src/Encoding/Gf.antt =====
-- src/encoding/gf.rs: the field GF(2^16), by its portable arithmetic, which Accelerated compares with
-- that of processors. A `GF16` is a transparent struct around a u16, and stands here as that number.
pub mod Reduce
pub mod Product
pub mod Laws
pub mod Basis
pub mod Assoc
pub mod Field
pub mod Squares
pub mod Inverse
pub mod Accelerated
use Prim.Native.Nat.{bit_and, bit_xor}
use sparse_post_quantum_ratc.Prelude.{
  ℕ, zero, suc, ◌+◌, ◌*◌, ◌/◌, ◌%◌, ◌^◌, List, [], ◌∷◌, ◌==◌, if◌then◌else◌,
}

abbrev pub Gf16 : Type 0
Gf16 = ℕ

abbrev pub poly : ℕ
poly = 0x1100b

-- `+` and `-`, with all their forms by reference and by assignment.
abbrev pub add : Gf16 → Gf16 → Gf16
add a b = bit_xor a b

abbrev pub sub : Gf16 → Gf16 → Gf16
sub a b = bit_xor a b

-- The `while` loop of `poly_mul`, with the rounds that are left.
unfoldable pub poly_mul_rounds : ℕ → ℕ → ℕ → ℕ → ℕ → ℕ
poly_mul_rounds zero shift me b acc = acc
poly_mul_rounds (suc n) shift me b acc =
    poly_mul_rounds n (shift + 1) me b
      (if bit_and b (2 ^ shift) == 0 then acc else bit_xor acc (me * 2 ^ shift))

unfoldable pub poly_mul : ℕ → ℕ → ℕ
unfolding poly_mul_rounds
poly_mul a b = poly_mul_rounds 16 0 a b 0

-- The `while` loop of `reduce_from_byte`, on `a` and `out`.
unfoldable pub reduce_rounds : ℕ → ℕ → ℕ → ℕ
reduce_rounds zero a out = out
reduce_rounds (suc i) a out =
    let hit = bit_and a (2 ^ i) == 0 in
    reduce_rounds i (if hit then a else bit_xor a (poly * 2 ^ i / 2 ^ 16 % 2 ^ 8))
      (if hit then out else bit_xor out (poly * 2 ^ i))

unfoldable pub reduce_from_byte : ℕ → ℕ
unfolding reduce_rounds
reduce_from_byte a = reduce_rounds 8 a 0

-- The table `REDUCE_BYTES`, as a function of its index, which is a byte.
unfoldable pub reduce_bytes : ℕ → ℕ
unfolding reduce_from_byte
reduce_bytes i = reduce_from_byte i % 2 ^ 16

unfoldable pub poly_reduce : ℕ → Gf16
unfolding reduce_bytes
poly_reduce v =
    let v1 = bit_xor v (reduce_bytes (v / 2 ^ 24) * 2 ^ 8) in
    let i2 = bit_and (v1 / 2 ^ 16) 0xff in bit_xor v1 (reduce_bytes i2) % 2 ^ 16

unfoldable pub mul : Gf16 → Gf16 → Gf16
unfolding poly_mul poly_reduce
mul a b = poly_reduce (poly_mul a b)

unfoldable pub mul2 : Gf16 → Gf16 → Gf16 → Gf16 × Gf16
unfolding mul
mul2 a b1 b2 = (mul a b1, mul a b2)

-- `into *= a`, two elements at a time.
unfoldable pub parallel_mult : Gf16 → List Gf16 → List Gf16
unfolding mul mul2
parallel_mult a [] = []
parallel_mult a (x ∷ []) = mul x a ∷ []
parallel_mult a (x ∷ y ∷ into) = (mul2 a x y).0 ∷ (mul2 a x y).1 ∷ parallel_mult a into

-- The `for` loop of `div_impl`, on `square` and `out`.
unfoldable pub div_rounds : ℕ → Gf16 → Gf16 → Gf16
unfolding mul mul2
div_rounds zero square out = out
div_rounds (suc n) square out = let both = mul2 square square out in div_rounds n both.0 both.1

unfoldable pub div_impl : Gf16 → Gf16 → Gf16
unfolding div_rounds mul
div_impl self other = div_rounds 15 (mul other other) self

unfoldable pub const_mul : Gf16 → Gf16 → Gf16
unfolding mul
const_mul self other = mul self other

abbrev pub const_sub : Gf16 → Gf16 → Gf16
const_sub self other = bit_xor self other

-- The `while` loop of `const_div`, on `square` and `out`.
unfoldable pub const_div_rounds : ℕ → Gf16 → Gf16 → Gf16
unfolding const_mul
const_div_rounds zero square out = out
const_div_rounds (suc n) square out =
    let squared = const_mul square square in const_div_rounds n squared (const_mul out squared)

unfoldable pub const_div : Gf16 → Gf16 → Gf16
unfolding const_div_rounds
const_div self other = const_div_rounds 15 other self
