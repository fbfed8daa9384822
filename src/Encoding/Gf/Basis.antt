-- ===== src/Encoding/Gf/Basis.antt =====
-- Functions of 16 bits that respect `^`: two of them are equal where they agree on the single bits.
use Prim.Native.Nat.{bit_xor}
use native.Mathlib.Nat.{pow-suc}
use native.Mathlib.Decide.{dec_lt, ℕ_discrete}
use sparse_post_quantum_ratc.Prelude.{
  ℕ, zero, suc, ◌+◌, ◌-◌, ◌/◌, ◌^◌, ◌<◌, ◌≤◌, ◌≡◌, sym, ap, ◌∙◌, Bool, true, ◌==◌, ◌&&◌, IsU16,
  arith,
}
use sparse_post_quantum_ratc.Prelude.Xor.{bit_xor-digit, bit_xor_self, pow_two-le}

abbrev pub Linear : (ℕ → ℕ) → Type 0
Linear f = (a b : ℕ) → IsU16 a → IsU16 b → f (bit_xor a b) ≡ bit_xor (f a) (f b)

pub Linear-zero : (f : ℕ → ℕ) → Linear f → f 0 ≡ 0
Linear-zero f h =
    let e : bit_xor (f 0) (f 0) ≡ 0 = bit_xor_self (f 0) in h 0 0 (omega arith) (omega arith) ∙ e

-- The highest bit of a number apart.
high_bit : (k a : ℕ) → a < 2 ^ k → bit_xor (2 ^ k) a ≡ 2 ^ k + a
high_bit zero a h = let e : a ≡ 0 = omega arith in rw e
high_bit (suc k) a h =
    let half : 2 ^ suc k / 2 ≡ 2 ^ k = omega (arith, pow-suc 2 k) in
    let rest : a / 2 < 2 ^ k = omega (arith, pow-suc 2 k) in
    let e : bit_xor (2 ^ suc k / 2) (a / 2) ≡ 2 ^ k + a / 2 =
      ap (λ t. bit_xor t (a / 2)) half ∙ high_bit k (a / 2) rest in
    omega (arith, bit_xor-digit (2 ^ suc k) a, e, pow-suc 2 k)

Linear-below :
    (f g : ℕ → ℕ)
    → Linear f
    → Linear g
    → ((i : ℕ) → i < 16 → f (2 ^ i) ≡ g (2 ^ i))
    → (k a : ℕ) → k < 17
    → a < 2 ^ k
    → f a ≡ g a
Linear-below f g hf hg same zero a lt h =
    let e : a ≡ 0 = omega arith in rw e (Linear-zero f hf ∙ sym (Linear-zero g hg))
Linear-below f g hf hg same (suc k) a lt h = elim (dec_lt a (2 ^ k)) [
  | yes p ↦ Linear-below f g hf hg same k a (omega arith) p
  | no p ↦
      let r = a - 2 ^ k in
      let small : r < 2 ^ k = omega (arith, p, pow-suc 2 k) in
      let power : 2 ^ k ≤ 2 ^ 15 = pow_two-le k 15 (omega arith) in
      let e : bit_xor (2 ^ k) r ≡ a = high_bit k r small ∙ omega (arith, p) in
      let low = Linear-below f g hf hg same k r (omega arith) small in
      ap f (sym e)
      ∙ hf (2 ^ k) r (omega arith) (omega arith)
      ∙ rw (same k (omega arith), low) (sym (hg (2 ^ k) r (omega arith) (omega arith)))
      ∙ ap g e
]

-- Whether two functions agree on the lowest bits.
unfoldable pub agree_below : ℕ → (ℕ → ℕ) → (ℕ → ℕ) → Bool
agree_below zero f g = true
agree_below (suc n) f g = (f (2 ^ n) == g (2 ^ n)) && agree_below n f g

and_parts : (a b : Bool) → (a && b) ≡ true → (a ≡ true) × (b ≡ true)
and_parts a b h = ground arith

pub agree_below_sound :
    (n : ℕ) (f g : ℕ → ℕ) → agree_below n f g ≡ true → (i : ℕ) → i < n → f (2 ^ i) ≡ g (2 ^ i)
unfolding agree_below
agree_below_sound zero f g h i lt = absurd (omega arith)
agree_below_sound (suc n) f g h i lt =
    let (first, rest) = and_parts (f (2 ^ n) == g (2 ^ n)) (agree_below n f g) h in
    elim (ℕ_discrete i n) [
      | yes e ↦ rw e (ground (arith, first))
      | no ne ↦ agree_below_sound n f g rest i (omega (arith, ne))
    ]

-- Linear functions that agree on the sixteen bits.
pub Linear-eq :
    (f g : ℕ → ℕ)
    → Linear f
    → Linear g
    → ((i : ℕ) → i < 16 → f (2 ^ i) ≡ g (2 ^ i))
    → (a : ℕ) → IsU16 a
    → f a ≡ g a
Linear-eq f g hf hg same a h = Linear-below f g hf hg same 16 a (omega arith) h

-- Two arguments, of which each is linear.
unfoldable pub agree_on_pairs : ℕ → (ℕ → ℕ → ℕ) → (ℕ → ℕ → ℕ) → Bool
unfolding agree_below
agree_on_pairs zero f g = true
agree_on_pairs (suc n) f g = agree_below 16 (f (2 ^ n)) (g (2 ^ n)) && agree_on_pairs n f g

agree_on_pairs_sound :
    (n : ℕ) (f g : ℕ → ℕ → ℕ)
    → agree_on_pairs n f g ≡ true
    → (i : ℕ) → i < n
    → agree_below 16 (f (2 ^ i)) (g (2 ^ i)) ≡ true
unfolding agree_on_pairs
agree_on_pairs_sound zero f g h i lt = absurd (omega arith)
agree_on_pairs_sound (suc n) f g h i lt =
    let (first, rest) =
      and_parts (agree_below 16 (f (2 ^ n)) (g (2 ^ n))) (agree_on_pairs n f g) h in
    elim (ℕ_discrete i n) [
      | yes e ↦ rw e first
      | no ne ↦ agree_on_pairs_sound n f g rest i (omega (arith, ne))
    ]

pub bilinear_eq :
    (f g : ℕ → ℕ → ℕ)
    → ((b : ℕ) → IsU16 b → Linear (λ a. f a b))
    → ((b : ℕ) → IsU16 b → Linear (λ a. g a b))
    → ((a : ℕ) → IsU16 a → Linear (f a))
    → ((a : ℕ) → IsU16 a → Linear (g a))
    → agree_on_pairs 16 f g ≡ true
    → (a b : ℕ) → IsU16 a
    → IsU16 b
    → f a b ≡ g a b
bilinear_eq f g fl gl fr gr same a b ha hb =
    Linear-eq (λ a. f a b) (λ a. g a b) (fl b hb) (gl b hb)
      (λ i lt.
        let power : 2 ^ i ≤ 2 ^ 15 = pow_two-le i 15 (omega arith) in
        Linear-eq (f (2 ^ i)) (g (2 ^ i)) (fr (2 ^ i) (omega arith)) (gr (2 ^ i) (omega arith))
          (agree_below_sound 16 (f (2 ^ i)) (g (2 ^ i)) (agree_on_pairs_sound 16 f g same i lt)) b
          hb)
      a ha
