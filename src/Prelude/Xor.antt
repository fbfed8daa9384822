-- ===== src/Prelude/Xor.antt =====
-- `^` of Rust on unsigned numbers: an abelian group in which every number is its own inverse, that
-- works on the digits on both sides of any bit apart.
use Prim.Native.Nat.{
  ℕ, zero, suc, ◌+◌, ◌-◌, ◌*◌, ◌/◌, ◌%◌, ◌^◌, ◌≤◌, ◌<◌, differ, bit_and, bit_xor, bit_xor-bitwise,
}
use mathlib.Core.Path.{◌≡◌, refl, sym, ap, subst, ◌∙◌}
use native.Mathlib.Omega.{arith}
use native.Mathlib.Nat.{
  pow-suc, mul_comm, mul_assoc, div-div-eq-div-mul, mod-add-div', mod-eq_of_lt, mod-lt,
}
use native.Mathlib.Decide.{dec_lt}
use sparse_post_quantum_ratc.Prelude.Bits.{rounds-enough, bit_and-digit, bit_and_one}

pub zero-bit_xor : (b : ℕ) → bit_xor 0 b ≡ b
zero-bit_xor b = bit_xor-bitwise 0 b

bit_xor-digit_differ :
    (a b : ℕ) → bit_xor a b ≡ bit_xor (a / 2) (b / 2) * 2 + differ (a % 2) (b % 2)
bit_xor-digit_differ zero b = omega (arith, zero-bit_xor b, zero-bit_xor (b / 2))
bit_xor-digit_differ (suc a) b = omega (
  arith,
  bit_xor-bitwise (suc a) b,
  bit_xor-bitwise (suc a / 2) (b / 2),
  rounds-enough (λ y. y) differ a (suc a / 2) (suc a / 2) (b / 2) (omega arith) (omega arith),
)

differ_lem : (x y : ℕ) → differ x y ≡ (x - y) + (y - x)
differ_lem zero y = omega arith
differ_lem (suc x) zero = omega arith
differ_lem (suc x) (suc y) = omega (arith, differ_lem x y)

-- The lowest digit of `^`.
pub bit_xor-digit : (a b : ℕ) → bit_xor a b ≡ bit_xor (a / 2) (b / 2) * 2 + (a + b) % 2
bit_xor-digit a b = omega (arith, bit_xor-digit_differ a b, differ_lem (a % 2) (b % 2))

pub bit_xor_half : (a b : ℕ) → bit_xor a b / 2 ≡ bit_xor (a / 2) (b / 2)
bit_xor_half a b = omega (arith, bit_xor-digit a b)

pub bit_xor_parity : (a b : ℕ) → bit_xor a b % 2 ≡ (a + b) % 2
bit_xor_parity a b = omega (arith, bit_xor-digit a b)

bit_xor_self_below : (n a : ℕ) → a ≤ n → bit_xor a a ≡ 0
bit_xor_self_below zero a h = let e : a ≡ 0 = omega arith in rw e
bit_xor_self_below (suc n) zero h = refl
bit_xor_self_below (suc n) (suc a) h =
    omega (arith, bit_xor-digit (suc a) (suc a), bit_xor_self_below n (suc a / 2) (omega arith))

pub bit_xor_self : (a : ℕ) → bit_xor a a ≡ 0
bit_xor_self a = bit_xor_self_below a a (omega arith)

bit_xor_comm_below : (n a b : ℕ) → a + b ≤ n → bit_xor a b ≡ bit_xor b a
bit_xor_comm_below zero a b h =
    let e : a ≡ 0 = omega arith in let f : b ≡ 0 = omega arith in rw (e, f)
bit_xor_comm_below (suc n) zero zero h = refl
bit_xor_comm_below (suc n) zero (suc b) h = omega (
  arith,
  bit_xor-digit 0 (suc b),
  bit_xor-digit (suc b) 0,
  bit_xor_comm_below n 0 (suc b / 2) (omega arith),
)
bit_xor_comm_below (suc n) (suc a) b h = omega (
  arith,
  bit_xor-digit (suc a) b,
  bit_xor-digit b (suc a),
  bit_xor_comm_below n (suc a / 2) (b / 2) (omega arith),
)

pub bit_xor_comm : (a b : ℕ) → bit_xor a b ≡ bit_xor b a
bit_xor_comm a b = bit_xor_comm_below (a + b) a b (omega arith)

pub bit_xor-zero : (a : ℕ) → bit_xor a 0 ≡ a
bit_xor-zero a = bit_xor_comm a 0 ∙ zero-bit_xor a

halves :
    (a b c : ℕ)
    → bit_xor (bit_xor a b) c ≡ bit_xor (bit_xor (a / 2) (b / 2)) (c / 2) * 2 + (a + b + c) % 2
halves a b c =
    let e : bit_xor (bit_xor a b / 2) (c / 2) ≡ bit_xor (bit_xor (a / 2) (b / 2)) (c / 2) =
      ap (λ t. bit_xor t (c / 2)) (bit_xor_half a b) in
    omega (arith, bit_xor-digit (bit_xor a b) c, bit_xor_parity a b, e)

bit_xor_assoc_zero : (a b c : ℕ) → a + b + c ≤ 0 → bit_xor (bit_xor a b) c ≡ bit_xor (bit_xor b c) a
bit_xor_assoc_zero a b c h =
    let e : a ≡ 0 = omega arith in
    let f : b ≡ 0 = omega arith in let g : c ≡ 0 = omega arith in rw (e, f, g)

bit_xor_assoc_below :
    (n a b c : ℕ) → a + b + c ≤ n → bit_xor (bit_xor a b) c ≡ bit_xor (bit_xor b c) a
bit_xor_assoc_below zero a b c h = bit_xor_assoc_zero a b c h
bit_xor_assoc_below (suc n) a b c h = elim (dec_lt 0 (a + b + c)) [
  | yes p ↦ omega (
    arith,
    halves a b c,
    halves b c a,
    bit_xor_assoc_below n (a / 2) (b / 2) (c / 2) (omega arith),
  )
  | no p ↦ bit_xor_assoc_zero a b c (omega arith)
]

pub bit_xor_assoc : (a b c : ℕ) → bit_xor (bit_xor a b) c ≡ bit_xor a (bit_xor b c)
bit_xor_assoc a b c =
    bit_xor_assoc_below (a + b + c) a b c (omega arith) ∙ bit_xor_comm (bit_xor b c) a

pub bit_xor_cancel : (a b : ℕ) → bit_xor (bit_xor a b) b ≡ a
bit_xor_cancel a b = bit_xor_assoc a b b ∙ ap (λ t. bit_xor a t) (bit_xor_self b) ∙ bit_xor-zero a

-- Shifts and masks.
pub div_pow-suc : (k n : ℕ) → n / 2 ^ suc k ≡ n / 2 / 2 ^ k
div_pow-suc k n =
    ap (λ t. n / t) (pow-suc 2 k ∙ mul_comm (2 ^ k) 2) ∙ sym (div-div-eq-div-mul n 2 (2 ^ k))

pub bit_xor-shift_right : (k a b : ℕ) → bit_xor a b / 2 ^ k ≡ bit_xor (a / 2 ^ k) (b / 2 ^ k)
bit_xor-shift_right zero a b =
    let whole : (n : ℕ) → n / 1 ≡ n = λ n. omega arith in rw (whole a, whole b, whole (bit_xor a b))
bit_xor-shift_right (suc k) a b =
    rw (div_pow-suc k a, div_pow-suc k b, div_pow-suc k (bit_xor a b), bit_xor_half a b)
      (bit_xor-shift_right k (a / 2) (b / 2))

pub bit_xor_double : (a b : ℕ) → bit_xor (a * 2) (b * 2) ≡ bit_xor a b * 2
bit_xor_double a b =
    let e : a * 2 / 2 ≡ a = omega arith in
    let f : b * 2 / 2 ≡ b = omega arith in
    let g : bit_xor (a * 2 / 2) (b * 2 / 2) ≡ bit_xor a b = rw (e, f) in
    omega (arith, bit_xor-digit (a * 2) (b * 2), g)

pub bit_xor-shift_left : (k a b : ℕ) → bit_xor (a * 2 ^ k) (b * 2 ^ k) ≡ bit_xor a b * 2 ^ k
bit_xor-shift_left zero a b =
    let whole : (n : ℕ) → n * 1 ≡ n = λ n. omega arith in rw (whole a, whole b, whole (bit_xor a b))
bit_xor-shift_left (suc k) a b =
    let twice : (n : ℕ) → n * 2 ^ suc k ≡ n * 2 ^ k * 2 =
      λ n. ap (λ t. n * t) (pow-suc 2 k) ∙ sym (mul_assoc n (2 ^ k) 2) in
    rw (
      twice a,
      twice b,
      twice (bit_xor a b),
      bit_xor_double (a * 2 ^ k) (b * 2 ^ k),
      bit_xor-shift_left k a b,
    )

pub mod_pow-suc : (k n : ℕ) → n % 2 ^ suc k ≡ n / 2 % 2 ^ k * 2 + n % 2
mod_pow-suc k n =
    let e : n / 2 ^ suc k * 2 ^ suc k ≡ n / 2 / 2 ^ k * 2 ^ k * 2 =
      rw (div_pow-suc k n, pow-suc 2 k) (sym (mul_assoc (n / 2 / 2 ^ k) (2 ^ k) 2)) in
    omega (arith, mod-add-div' n (2 ^ suc k), mod-add-div' (n / 2) (2 ^ k), e)

-- The low `k` bits.
pub bit_xor-mask : (k a b : ℕ) → bit_xor a b % 2 ^ k ≡ bit_xor (a % 2 ^ k) (b % 2 ^ k)
bit_xor-mask zero a b =
    let none : (n : ℕ) → n % 1 ≡ 0 = λ n. omega arith in rw (none a, none b, none (bit_xor a b))
bit_xor-mask (suc k) a b =
    let low : (n : ℕ) → n % 2 ^ suc k / 2 ≡ n / 2 % 2 ^ k = λ n. omega (arith, mod_pow-suc k n) in
    let masked : bit_xor (a % 2 ^ suc k / 2) (b % 2 ^ suc k / 2) ≡ bit_xor (a / 2) (b / 2) % 2 ^ k =
      rw (low a, low b) (sym (bit_xor-mask k (a / 2) (b / 2))) in
    let half : bit_xor a b / 2 % 2 ^ k ≡ bit_xor (a / 2) (b / 2) % 2 ^ k = rw (bit_xor_half a b) in
    omega (
      arith,
      bit_xor-digit (a % 2 ^ suc k) (b % 2 ^ suc k),
      masked,
      half,
      mod_pow-suc k a,
      mod_pow-suc k b,
      mod_pow-suc k (bit_xor a b),
      bit_xor_parity a b,
    )

pub pow_two_pos : (k : ℕ) → 0 < 2 ^ k
pow_two_pos zero = omega arith
pow_two_pos (suc k) = omega (arith, pow-suc 2 k, pow_two_pos k)

-- A bound by a power of two.
pub bit_xor-lt : (k a b : ℕ) → a < 2 ^ k → b < 2 ^ k → bit_xor a b < 2 ^ k
bit_xor-lt k a b ha hb =
    let e : bit_xor a b % 2 ^ k ≡ bit_xor a b =
      rw (bit_xor-mask k a b, mod-eq_of_lt ha, mod-eq_of_lt hb) in
    subst (λ t. t < 2 ^ k) e (mod-lt (bit_xor a b) (pow_two_pos k))

-- The test of one bit.
pub bit_and-bit : (k b : ℕ) → bit_and b (2 ^ k) ≡ b / 2 ^ k % 2 * 2 ^ k
bit_and-bit zero b = omega (arith, bit_and_one b)
bit_and-bit (suc k) b =
    let e : 2 ^ suc k / 2 ≡ 2 ^ k = omega (arith, pow-suc 2 k) in
    let upper : bit_and (b / 2) (2 ^ suc k / 2) ≡ b / 2 / 2 ^ k % 2 * 2 ^ k =
      rw e (bit_and-bit k (b / 2)) in
    let bit : b / 2 ^ suc k % 2 * 2 ^ suc k ≡ b / 2 / 2 ^ k % 2 * 2 ^ k * 2 =
      rw (div_pow-suc k b, pow-suc 2 k) (sym (mul_assoc (b / 2 / 2 ^ k % 2) (2 ^ k) 2)) in
    omega (arith, bit_and-digit b (2 ^ suc k), pow-suc 2 k, upper, bit)

pub pow_two-add : (m k : ℕ) → 2 ^ (m + k) ≡ 2 ^ m * 2 ^ k
pow_two-add m zero =
    let e : m + 0 ≡ m = omega arith in let f : 2 ^ m * 1 ≡ 2 ^ m = omega arith in rw e (sym f)
pow_two-add m (suc k) =
    let e : m + suc k ≡ suc (m + k) = omega arith in
    ap (λ t. 2 ^ t) e
    ∙ pow-suc 2 (m + k)
    ∙ ap (λ t. t * 2) (pow_two-add m k)
    ∙ mul_assoc (2 ^ m) (2 ^ k) 2
    ∙ ap (λ t. 2 ^ m * t) (sym (pow-suc 2 k))

pub div_pow-add : (n m k : ℕ) → n / 2 ^ (m + k) ≡ n / 2 ^ m / 2 ^ k
div_pow-add n m k = ap (λ t. n / t) (pow_two-add m k) ∙ sym (div-div-eq-div-mul n (2 ^ m) (2 ^ k))

pub bit_xor_medial :
    (p q u v : ℕ) → bit_xor (bit_xor p q) (bit_xor u v) ≡ bit_xor (bit_xor p u) (bit_xor q v)
bit_xor_medial p q u v =
    bit_xor_assoc p q (bit_xor u v)
    ∙ ap (λ t. bit_xor p t)
        (sym (bit_xor_assoc q u v) ∙ ap (λ t. bit_xor t v) (bit_xor_comm q u) ∙ bit_xor_assoc u q v)
    ∙ sym (bit_xor_assoc p u (bit_xor q v))

pub pow_two-le : (m k : ℕ) → m ≤ k → 2 ^ m ≤ 2 ^ k
pow_two-le m zero h = let e : m ≡ 0 = omega arith in rw e (omega arith)
pow_two-le m (suc k) h = elim (dec_lt m (suc k)) [
  | yes p ↦ omega (arith, pow-suc 2 k, pow_two-le m k (omega arith))
  | no p ↦ let e : m ≡ suc k = omega arith in rw e (omega arith)
]
