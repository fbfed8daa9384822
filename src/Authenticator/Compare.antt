-- ===== src/Authenticator/Compare.antt =====
-- The constant-time comparison decides equality of byte strings of one length, and so `verify_ct` and
-- `verify_hdr` accept the right MAC alone.
use Prim.Native.Nat.{bit_or, bit_xor, bit_xor-bitwise, differ}
use mathlib.Core.List.{head-eq_of_cons-eq, tail-eq_of_cons-eq}
use native.Mathlib.Nat.{pow-suc}
use sparse_post_quantum_ratc.Prelude.{
  ℕ, suc, zero, ◌+◌, ◌<◌, ◌≡◌, ◌==◌, ◌%◌, ◌/◌, ◌*◌, ◌^◌, refl, sym, true, false, [], ◌∷◌, length,
  All, IsU8, ok, err, ◌>>=◌, arith, ==_iff, if◌then◌else◌, ◌⊎◌, ◌≢◌, ◌∙◌, Bool-cases, inl, inr,
}
use sparse_post_quantum_ratc.Prelude.Bits.{
  holds_below, holds_below_sound, bit_or-digit, zero-bit_or, rounds-enough,
}
use sparse_post_quantum_ratc.Types.{Bytes, Epoch, invalid_ct_mac, invalid_hdr_mac}
use sparse_post_quantum_ratc.Authenticator.{
  inz, compare, compare_rounds, Authenticator, verify_ct, verify_hdr, mac_ct, mac_hdr,
}
use sparse_post_quantum_ratc.Crypto.{Crypto, IsSized}

inz_table : holds_below 256 (λ b. inz b == (if b == 0 then 0 else 1)) ≡ true
unfolding holds_below inz
inz_table = refl

pub inz_lem : (b : ℕ) → b < 256 → inz b ≡ (if b == 0 then 0 else 1)
inz_lem b h = (==_iff _ _).0 (holds_below_sound 256 _ b inz_table h)

zero-bit_xor : (b : ℕ) → bit_xor 0 b ≡ b
zero-bit_xor b = bit_xor-bitwise 0 b

bit_xor-digit : (a b : ℕ) → bit_xor a b ≡ bit_xor (a / 2) (b / 2) * 2 + differ (a % 2) (b % 2)
bit_xor-digit zero b = omega (arith, zero-bit_xor b, zero-bit_xor (b / 2))
bit_xor-digit (suc a) b = omega (
  arith,
  bit_xor-bitwise (suc a) b,
  bit_xor-bitwise (suc a / 2) (b / 2),
  rounds-enough (λ y. y) differ a (suc a / 2) (suc a / 2) (b / 2) (omega arith) (omega arith),
)

differ_facts :
    (x y : ℕ)
    → x < 2
    → y < 2
    → (differ x y < 2) × (differ x y ≡ 0 → x ≡ y) × (x ≡ y → differ x y ≡ 0)
differ_facts zero zero hx hy = (omega arith, (λ e. refl), (λ e. refl))
differ_facts zero (suc zero) hx hy =
    (omega arith, (λ e. absurd (omega arith)), (λ e. absurd (omega arith)))
differ_facts (suc zero) zero hx hy =
    (omega arith, (λ e. absurd (omega arith)), (λ e. absurd (omega arith)))
differ_facts (suc zero) (suc zero) hx hy = (omega arith, (λ e. refl), (λ e. refl))
differ_facts (suc (suc x)) y hx hy = absurd (omega arith)
differ_facts zero (suc (suc y)) hx hy = absurd (omega arith)
differ_facts (suc zero) (suc (suc y)) hx hy = absurd (omega arith)

-- `^` is zero on equal numbers alone, and stays within the width.
bit_xor-facts :
    (k a b : ℕ)
    → a < 2 ^ k
    → b < 2 ^ k
    → (bit_xor a b < 2 ^ k) × (bit_xor a b ≡ 0 → a ≡ b) × (a ≡ b → bit_xor a b ≡ 0)
bit_xor-facts zero a b ha hb =
    let za : a ≡ 0 = omega arith in
    let zb : b ≡ 0 = omega arith in
    rw (za, zb) (omega (arith, zero-bit_xor 0), (λ e. refl), (λ e. zero-bit_xor 0))
bit_xor-facts (suc k) a b ha hb =
    let (low, apart, same) = differ_facts (a % 2) (b % 2) (omega arith) (omega arith) in
    let (size, above, below) =
      bit_xor-facts k (a / 2) (b / 2) (omega (arith, pow-suc 2 k)) (omega (arith, pow-suc 2 k)) in
    let digit = bit_xor-digit a b in
    (
      omega (arith, pow-suc 2 k),
      (λ e. let h = above (omega arith) in let l = apart (omega arith) in omega arith),
      (λ e. let h = below (omega arith) in let l = same (omega arith) in omega arith),
    )

bit_or-facts :
    (k a b : ℕ)
    → a < 2 ^ k
    → b < 2 ^ k
    → (bit_or a b < 2 ^ k) × (bit_or a b ≡ 0 → (a ≡ 0) × (b ≡ 0))
bit_or-facts zero a b ha hb =
    let za : a ≡ 0 = omega arith in
    let zb : b ≡ 0 = omega arith in rw (za, zb) (omega (arith, zero-bit_or 0), (λ e. (refl, refl)))
bit_or-facts (suc k) a b ha hb =
    let (size, zeros) =
      bit_or-facts k (a / 2) (b / 2) (omega (arith, pow-suc 2 k)) (omega (arith, pow-suc 2 k)) in
    let digit = bit_or-digit a b in
    (
      omega (arith, pow-suc 2 k),
      (λ e. let (x, y) = zeros (omega arith) in (omega arith, omega arith)),
    )

-- The loop keeps its result within a byte; it is zero when it started at zero and all bytes agree.
compare_rounds-facts :
    (lhs rhs : Bytes) (r : ℕ)
    → All IsU8 lhs
    → All IsU8 rhs
    → length lhs ≡ length rhs
    → r < 256
    → (r' : ℕ) × (compare_rounds lhs rhs r ≡ ok r')
      × (r' < 256)
      × (r' ≡ 0 → (r ≡ 0) × (lhs ≡ rhs))
      × ((r ≡ 0) × (lhs ≡ rhs) → r' ≡ 0)
unfolding compare_rounds
compare_rounds-facts [] [] r hl hr n h = (r, refl, h, (λ e. (e, refl)), (λ p. p.0))
compare_rounds-facts [] (y ∷ rhs) r hl hr n h = absurd (omega arith)
compare_rounds-facts (x ∷ lhs) [] r hl hr n h = absurd (omega arith)
compare_rounds-facts (x ∷ lhs) (y ∷ rhs) r hl hr n h =
    let (xs, apart, same) = bit_xor-facts 8 x y hl.0 hr.0 in
    let (os, zeros) = bit_or-facts 8 r (bit_xor x y) h xs in
    let (r', run, size, zero_then, then_zero) =
      compare_rounds-facts lhs rhs (bit_or r (bit_xor x y)) hl.1 hr.1 (omega arith) os in
    (
      r',
      run,
      size,
      (λ e. let (ez, eq) = zero_then e in let (rz, xz) = zeros ez in (rz, rw (apart xz, eq))),
      (λ p.
          then_zero
            ((rw (p.0, same (head-eq_of_cons-eq p.1)) (zero-bit_or 0)), tail-eq_of_cons-eq p.1)),
    )

not_zero : (r : ℕ) → (r == 0) ≡ false → r ≢ 0
not_zero r f e = absurd (ground arith)

-- compare of two byte strings of one length is 0 if they are equal, and else 1.
pub compare-decides :
    (lhs rhs : Bytes)
    → All IsU8 lhs
    → All IsU8 rhs
    → length lhs ≡ length rhs
    → ((lhs ≡ rhs) × (compare lhs rhs ≡ ok 0)) ⊎ ((lhs ≢ rhs) × (compare lhs rhs ≡ ok 1))
unfolding compare
compare-decides lhs rhs hl hr n =
    let (r, run, size, zero_then, then_zero) =
      compare_rounds-facts lhs rhs 0 hl hr n (omega arith) in
    elim (Bool-cases (r == 0)) [
      | inl t ↦
          let z : r ≡ 0 = (==_iff r 0).0 t in
          inl ((zero_then z).1, rw (run, ◌>>=◌, inz_lem r size, t))
      | inr f ↦ inr ((λ e. not_zero r f (then_zero (refl, e))), rw (run, ◌>>=◌, inz_lem r size, f))
    ]

module _ (c : Crypto) (sized : IsSized c) (a : Authenticator) (ep : Epoch)
    (message mac : Bytes) where
  -- verify_ct of 32 bytes accepts the MAC that mac_ct computes, and refuses every other value with
  -- InvalidCtMac, when the HMAC has its documented lengths.
  pub verify_ct-decides :
      All IsU8 mac
      → length mac ≡ 32
      → ((mac ≡ mac_ct c a ep message) × (verify_ct c a ep message mac ≡ ok tt))
        ⊎ ((mac ≢ mac_ct c a ep message) × (verify_ct c a ep message mac ≡ err invalid_ct_mac))
  unfolding verify_ct
  verify_ct-decides hm n =
      let right : Bytes = mac_ct c a ep message in
      let bytes : All IsU8 right = unfold mac_ct in sized.hmac_bytes _ _ 32 in
      let size : length mac ≡ length right =
        n ∙ sym (unfold mac_ct in sized.hmac_length _ _ 32 (omega arith)) in
      elim (compare-decides mac right hm bytes size) [
        | inl (e, run) ↦ inl (e, rw run)
        | inr (e, run) ↦ inr (e, rw run)
      ]

  -- verify_hdr of 32 bytes accepts the MAC that mac_hdr computes, and refuses every other value
  -- with InvalidHdrMac, when the HMAC has its documented lengths.
  pub verify_hdr-decides :
      All IsU8 mac
      → length mac ≡ 32
      → ((mac ≡ mac_hdr c a ep message) × (verify_hdr c a ep message mac ≡ ok tt))
        ⊎ ((mac ≢ mac_hdr c a ep message) × (verify_hdr c a ep message mac ≡ err invalid_hdr_mac))
  unfolding verify_hdr
  verify_hdr-decides hm n =
      let right : Bytes = mac_hdr c a ep message in
      let bytes : All IsU8 right = unfold mac_hdr in sized.hmac_bytes _ _ 32 in
      let size : length mac ≡ length right =
        n ∙ sym (unfold mac_hdr in sized.hmac_length _ _ 32 (omega arith)) in
      elim (compare-decides mac right hm bytes size) [
        | inl (e, run) ↦ inl (e, rw run)
        | inr (e, run) ↦ inr (e, rw run)
      ]
