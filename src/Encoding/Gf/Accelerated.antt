-- ===== src/Encoding/Gf/Accelerated.antt =====
-- src/encoding/gf.rs: multiplication by the carry-less products of a processor, and the choice between
-- it and the portable one. The intrinsics are parameters; `TOKEN.get()` is one too.
pub mod Agree
use Prim.Native.Nat.{bit_or}
use sparse_post_quantum_ratc.Prelude.{ℕ, ◌*◌, ◌/◌, ◌%◌, ◌^◌, Bool, if◌then◌else◌}
use sparse_post_quantum_ratc.Encoding.Gf.{Gf16, poly_reduce, mul, mul2}

-- The intrinsics of `core::arch::x86_64` that are used, on a register of 128 bits. `cvtsi128_si32` is
-- with its conversion to a u32.
pub record X86 (Reg : Type 0) : Type 0 where
  pub set_epi64x : ℕ → ℕ → Reg
  pub clmulepi64_si128 : Reg → Reg → ℕ → Reg
  pub cvtsi128_si32 : Reg → ℕ
  pub srli_si128 : Reg → ℕ → Reg

module _ {Reg : Type 0} (arch : X86 Reg) where
  unfoldable pub mul2_unreduced_x86 : Gf16 → Gf16 → Gf16 → ℕ × ℕ
  mul2_unreduced_x86 a b1 b2 =
      let a' = arch.set_epi64x 0 a in
      let b = arch.set_epi64x 0 (bit_or (b2 * 2 ^ 32) b1) in
      let clmul = arch.clmulepi64_si128 a' b 0 in
      (arch.cvtsi128_si32 clmul, arch.cvtsi128_si32 (arch.srli_si128 clmul 4))

  unfoldable pub mul2_x86 : Gf16 → Gf16 → Gf16 → Gf16 × Gf16
  unfolding mul2_unreduced_x86
  mul2_x86 a b1 b2 =
      let unreduced_products = mul2_unreduced_x86 a b1 b2 in
      (poly_reduce unreduced_products.0, poly_reduce unreduced_products.1)

  unfoldable pub mul_x86 : Gf16 → Gf16 → Gf16
  unfolding mul2_x86
  mul_x86 a b = (mul2_x86 a b 0).0

-- `vmull_p64` of `core::arch::aarch64` is the parameter.
module _ (vmull_p64 : ℕ → ℕ → ℕ) where
  unfoldable pub mul2_unreduced_aarch64 : Gf16 → Gf16 → Gf16 → ℕ
  mul2_unreduced_aarch64 a b1 b2 = vmull_p64 a (bit_or (b1 * 2 ^ 32) b2)

  unfoldable pub mul2_aarch64 : Gf16 → Gf16 → Gf16 → Gf16 × Gf16
  unfolding mul2_unreduced_aarch64
  mul2_aarch64 a b1 b2 =
      let unreduced_product = mul2_unreduced_aarch64 a b1 b2 in
      (poly_reduce (unreduced_product / 2 ^ 32 % 2 ^ 32), poly_reduce (unreduced_product % 2 ^ 32))

  unfoldable pub mul_aarch64 : Gf16 → Gf16 → Gf16
  unfolding mul2_aarch64
  mul_aarch64 a b = (mul2_aarch64 a b 0).0

-- `*=` and `mul2_u16`, by the accelerated routines of the processor if it has them.
unfoldable pub mul_assign : Bool → (Gf16 → Gf16 → Gf16) → Gf16 → Gf16 → Gf16
mul_assign token accelerated self other = if token then accelerated self other else mul self other

unfoldable pub mul2_u16 :
    Bool → (Gf16 → Gf16 → Gf16 → Gf16 × Gf16) → Gf16 → Gf16 → Gf16 → Gf16 × Gf16
mul2_u16 token accelerated a b1 b2 = if token then accelerated a b1 b2 else (mul a b1, mul a b2)
