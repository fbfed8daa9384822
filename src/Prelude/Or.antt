-- ===== src/Prelude/Or.antt =====
-- `|` of Rust on unsigned numbers whose digits do not overlap.
use Prim.Native.Nat.{ℕ, zero, suc, ◌+◌, ◌*◌, ◌/◌, ◌%◌, ◌^◌, ◌≤◌, ◌<◌, max, bit_or, bit_or-bitwise}
use mathlib.Core.Path.{◌≡◌, refl, sym, ap, ◌∙◌}
use native.Mathlib.Omega.{arith}
use native.Mathlib.Nat.{pow-suc, mul_assoc}
use sparse_post_quantum_ratc.Prelude.Bits.{rounds-enough}

zero-bit_or : (b : ℕ) → bit_or 0 b ≡ b
zero-bit_or b = bit_or-bitwise 0 b

bit_or-digit : (a b : ℕ) → bit_or a b ≡ bit_or (a / 2) (b / 2) * 2 + max (a % 2) (b % 2)
bit_or-digit zero b = omega (arith, zero-bit_or b, zero-bit_or (b / 2))
bit_or-digit (suc a) b = omega (
  arith,
  bit_or-bitwise (suc a) b,
  bit_or-bitwise (suc a / 2) (b / 2),
  rounds-enough (λ y. y) max a (suc a / 2) (suc a / 2) (b / 2) (omega arith) (omega arith),
)

bit_or-zero_below : (n a : ℕ) → a ≤ n → bit_or a 0 ≡ a
bit_or-zero_below zero a h = let e : a ≡ 0 = omega arith in rw e
bit_or-zero_below (suc n) zero h = refl
bit_or-zero_below (suc n) (suc a) h =
    omega (arith, bit_or-digit (suc a) 0, bit_or-zero_below n (suc a / 2) (omega arith))

pub bit_or-zero : (a : ℕ) → bit_or a 0 ≡ a
bit_or-zero a = bit_or-zero_below a a (omega arith)

-- A number shifted to the left, and one below the shift.
pub bit_or-shifted : (n x y : ℕ) → y < 2 ^ n → bit_or (x * 2 ^ n) y ≡ x * 2 ^ n + y
bit_or-shifted zero x y h = let e : y ≡ 0 = omega arith in rw e (omega (arith, bit_or-zero (x * 1)))
bit_or-shifted (suc n) x y h =
    let double : x * 2 ^ suc n ≡ x * 2 ^ n * 2 =
      ap (λ t. x * t) (pow-suc 2 n) ∙ sym (mul_assoc x (2 ^ n) 2) in
    let half : x * 2 ^ n * 2 / 2 ≡ x * 2 ^ n = omega arith in
    let upper : bit_or (x * 2 ^ n * 2 / 2) (y / 2) ≡ x * 2 ^ n + y / 2 =
      rw half (bit_or-shifted n x (y / 2) (omega (arith, pow-suc 2 n))) in
    rw double (omega (arith, bit_or-digit (x * 2 ^ n * 2) y, upper))
