-- ===== src/Prelude/Bits.antt =====
-- `|` of fields that do not overlap is a sum, and masks on a byte as arithmetic.
use Prim.Native.Nat.{
  ℕ, zero, suc, ◌+◌, ◌*◌, ◌/◌, ◌%◌, ◌^◌, ◌≤◌, ◌<◌, min, max, digits, bit_and, bit_or,
  bit_and-bitwise, bit_or-bitwise,
}
use mathlib.Core.Path.{◌≡◌, refl, ap}
use mathlib.Core.Bool.{Bool, true, ◌&&◌}
use native.Mathlib.Omega.{arith}
use native.Mathlib.Nat.{pow-suc}
use native.Mathlib.Decide.{dec_lt}
use sparse_post_quantum_ratc.Prelude.Tests.{◌==◌, ==_iff}

-- Both operations are recursions on the digits of the first number; rounds beyond its digits change
-- nothing.
module _ (last : ℕ → ℕ) (digit : ℕ → ℕ → ℕ) where
  pub rounds-enough :
      (p q a b : ℕ) → a ≤ p → a ≤ q → digits last digit p a b ≡ digits last digit q a b
  rounds-enough zero zero a b hp hq = refl
  rounds-enough zero (suc q) zero b hp hq = refl
  rounds-enough zero (suc q) (suc a) b hp hq = absurd (omega arith)
  rounds-enough (suc p) zero zero b hp hq = refl
  rounds-enough (suc p) zero (suc a) b hp hq = absurd (omega arith)
  rounds-enough (suc p) (suc q) zero b hp hq = refl
  rounds-enough (suc p) (suc q) (suc a) b hp hq =
      rw (rounds-enough p q (suc a / 2) (b / 2) (omega arith) (omega arith))

pub zero-bit_or : (b : ℕ) → bit_or 0 b ≡ b
zero-bit_or b = bit_or-bitwise 0 b

-- The lowest digit of `|`.
pub bit_or-digit : (a b : ℕ) → bit_or a b ≡ bit_or (a / 2) (b / 2) * 2 + max (a % 2) (b % 2)
bit_or-digit zero b = omega (arith, zero-bit_or b, zero-bit_or (b / 2))
bit_or-digit (suc a) b = omega (
  arith,
  bit_or-bitwise (suc a) b,
  bit_or-bitwise (suc a / 2) (b / 2),
  rounds-enough (λ y. y) max a (suc a / 2) (suc a / 2) (b / 2) (omega arith) (omega arith),
)

double_field : (high k : ℕ) → high * 2 ^ suc k ≡ 2 * (high * 2 ^ k)
double_field high k = omega (arith, ap (λ (t : ℕ). high * t) (pow-suc 2 k))

zero-bit_and : (b : ℕ) → bit_and 0 b ≡ 0
zero-bit_and b = bit_and-bitwise 0 b

-- The lowest digit of `&`.
pub bit_and-digit : (a b : ℕ) → bit_and a b ≡ bit_and (a / 2) (b / 2) * 2 + min (a % 2) (b % 2)
bit_and-digit zero b = omega (arith, zero-bit_and b, zero-bit_and (b / 2))
bit_and-digit (suc a) b = omega (
  arith,
  bit_and-bitwise (suc a) b,
  bit_and-bitwise (suc a / 2) (b / 2),
  rounds-enough (λ y. 0) min a (suc a / 2) (suc a / 2) (b / 2) (omega arith) (omega arith),
)

bit_and-zero_below : (n a : ℕ) → a ≤ n → bit_and a 0 ≡ 0
bit_and-zero_below zero a h = let e : a ≡ 0 = omega arith in rw e
bit_and-zero_below (suc n) a h = elim (dec_lt 0 a) [
  | yes p ↦ omega (arith, bit_and-digit a 0, bit_and-zero_below n (a / 2) (omega arith))
  | no p ↦ let e : a ≡ 0 = omega arith in rw e
]

pub bit_and_one : (a : ℕ) → bit_and a 1 ≡ a % 2
bit_and_one a = omega (arith, bit_and-digit a 1, bit_and-zero_below (a / 2) (a / 2) (omega arith))

bit_and_seven : (a : ℕ) → bit_and a 7 ≡ a % 8
bit_and_seven a = omega (arith, bit_and-digit a 7, bit_and-digit (a / 2) 3, bit_and_one (a / 2 / 2))

-- The low seven bits.
pub bit_and-mask : (a : ℕ) → bit_and a 0x7f ≡ a % 128
bit_and-mask a = omega (
  arith,
  bit_and-digit a 127,
  bit_and-digit (a / 2) 63,
  bit_and-digit (a / 2 / 2) 31,
  bit_and-digit (a / 2 / 2 / 2) 15,
  bit_and_seven (a / 2 / 2 / 2 / 2),
)

-- A value below `2 ^ k` and a field that starts at bit `k`.
pub bit_or-field : (k low high : ℕ) → low < 2 ^ k → bit_or low (high * 2 ^ k) ≡ low + high * 2 ^ k
bit_or-field zero low high h =
    let e : low ≡ 0 = omega arith in rw e (omega (arith, zero-bit_or (high * 2 ^ 0)))
bit_or-field (suc k) low high h = ground (
  arith,
  pow-suc 2 k,
  double_field high k,
  bit_or-digit low (high * 2 ^ suc k),
  bit_or-field k (low / 2) high (omega (arith, pow-suc 2 k)),
)

unfoldable pub holds_below : ℕ → (ℕ → Bool) → Bool
holds_below zero p = true
holds_below (suc n) p = p n && holds_below n p

pub holds_below_sound : (n : ℕ) (p : ℕ → Bool) (x : ℕ) → holds_below n p ≡ true → x < n → p x ≡ true
unfolding holds_below
holds_below_sound zero p x h lt = absurd (omega arith)
holds_below_sound (suc n) p x h lt = ground (arith, holds_below_sound n p x)

top_table : holds_below 256 (λ b. bit_and b 0x80 == b / 128 * 128) ≡ true
unfolding holds_below
top_table = refl

mark_table : holds_below 128 (λ b. bit_or 0x80 b == b + 128) ≡ true
unfolding holds_below
mark_table = refl

pub bit_and-top : (b : ℕ) → b < 256 → bit_and b 0x80 ≡ b / 128 * 128
bit_and-top b h = (==_iff _ _).0 (holds_below_sound 256 _ b top_table h)

pub bit_or-mark : (b : ℕ) → b < 128 → bit_or 0x80 b ≡ b + 128
bit_or-mark b h = (==_iff _ _).0 (holds_below_sound 128 _ b mark_table h)
