-- ===== src/Encoding/Gf/Assoc.antt =====
-- Multiplication in the field is associative: by linearity, this is decided on the single bits.
use Prim.Native.Nat.{bit_xor}
use native.Mathlib.Nat.{pow-suc}
use sparse_post_quantum_ratc.Prelude.{
  ℕ, zero, suc, ◌*◌, ◌^◌, ◌<◌, ◌≤◌, ◌≡◌, refl, sym, ap, ◌∙◌, true, IsU16, arith,
}
use sparse_post_quantum_ratc.Prelude.Xor.{bit_xor-lt, pow_two-le}
use sparse_post_quantum_ratc.Encoding.Gf.{mul}
use sparse_post_quantum_ratc.Encoding.Gf.Laws.{mul-add, mul_comm, mul-IsU16}
use sparse_post_quantum_ratc.Encoding.Gf.Basis.{
  Linear, Linear-eq, agree_below, agree_on_pairs, agree_below_sound, bilinear_eq,
}

pub mul-Linear_left : (b : ℕ) → Linear (λ a. mul a b)
mul-Linear_left b a a' h h' = mul-add a a' b h h'

pub mul-Linear_right : (a : ℕ) → IsU16 a → Linear (mul a)
mul-Linear_right a h b b' hb hb' =
    mul_comm a (bit_xor b b') h (bit_xor-lt 16 b b' hb hb')
    ∙ mul-add b b' a hb hb'
    ∙ rw (mul_comm b a hb h, mul_comm b' a hb' h)

doubled : agree_on_pairs 16 (λ a b. mul 2 (mul a b)) (λ a b. mul (mul 2 a) b) ≡ true
unfolding agree_on_pairs mul
doubled = refl

pub compose-Linear :
    (f g : ℕ → ℕ) → ((a : ℕ) → IsU16 a → IsU16 (f a)) → Linear f → Linear g → Linear (λ a. g (f a))
compose-Linear f g small hf hg a b ha hb =
    ap g (hf a b ha hb) ∙ hg (f a) (f b) (small a ha) (small b hb)

mul_two : (a b : ℕ) → IsU16 a → IsU16 b → mul 2 (mul a b) ≡ mul (mul 2 a) b
mul_two =
    bilinear_eq (λ a b. mul 2 (mul a b)) (λ a b. mul (mul 2 a) b)
      (λ b hb.
        compose-Linear (λ a. mul a b) (mul 2) (λ a h. mul-IsU16 a b) (mul-Linear_left b)
          (mul-Linear_right 2 (omega arith)))
      (λ b hb.
        compose-Linear (mul 2) (λ a. mul a b) (λ a h. mul-IsU16 2 a)
          (mul-Linear_right 2 (omega arith)) (mul-Linear_left b))
      (λ a ha.
        compose-Linear (mul a) (mul 2) (λ b h. mul-IsU16 a b) (mul-Linear_right a ha)
          (mul-Linear_right 2 (omega arith)))
      (λ a ha. mul-Linear_right (mul 2 a) (mul-IsU16 2 a)) doubled

ones : agree_below 16 (mul 1) (λ a. a) ≡ true
unfolding agree_below mul
ones = refl

pub one-mul : (a : ℕ) → IsU16 a → mul 1 a ≡ a
one-mul =
    Linear-eq (mul 1) (λ a. a) (mul-Linear_right 1 (omega arith)) (λ a b ha hb. refl)
      (agree_below_sound 16 (mul 1) (λ a. a) ones)

next_powers : agree_below 15 (mul 2) (λ a. a * 2) ≡ true
unfolding agree_below mul
next_powers = refl

next_power : (i : ℕ) → i < 15 → mul 2 (2 ^ i) ≡ 2 ^ suc i
next_power i h =
    agree_below_sound 15 (mul 2) (λ a. a * 2) next_powers i h ∙ omega (arith, pow-suc 2 i)

bit_assoc : (i b c : ℕ) → i < 16 → IsU16 b → IsU16 c → mul (mul (2 ^ i) b) c ≡ mul (2 ^ i) (mul b c)
bit_assoc zero b c lt hb hc =
    ap (λ t. mul t c) (one-mul b hb) ∙ sym (one-mul (mul b c) (mul-IsU16 b c))
bit_assoc (suc i) b c lt hb hc =
    let power : 2 ^ i ≤ 2 ^ 15 = pow_two-le i 15 (omega arith) in
    let p = 2 ^ i in
    let hp : IsU16 p = omega arith in
    rw (sym (next_power i (omega arith))) (
      ap (λ t. mul t c) (sym (mul_two p b hp hb))
      ∙ sym (mul_two (mul p b) c (mul-IsU16 p b) hc)
      ∙ ap (mul 2) (bit_assoc i b c (omega arith) hb hc)
      ∙ mul_two p (mul b c) hp (mul-IsU16 b c))

-- Linear in each factor, the two products agree on all bits.
pub mul_assoc : (a b c : ℕ) → IsU16 a → IsU16 b → IsU16 c → mul (mul a b) c ≡ mul a (mul b c)
mul_assoc a b c ha hb hc =
    Linear-eq (λ a. mul (mul a b) c) (λ a. mul a (mul b c))
      (compose-Linear (λ a. mul a b) (λ a. mul a c) (λ a h. mul-IsU16 a b) (mul-Linear_left b)
        (mul-Linear_left c))
      (mul-Linear_left (mul b c)) (λ i lt. bit_assoc i b c lt hb hc) a ha
