-- ===== src/Tests/Codec.antt =====
-- Runs of src/encoding/gf.rs and of src/encoding/polynomial.rs.
use sparse_post_quantum_ratc.Prelude.{
  ℕ, ◌+◌, ◌*◌, ◌/◌, ◌%◌, ◌^◌, true, zero, suc, All, ◌≡◌, refl, List, [], ◌∷◌, ◌++◌, ok, some,
  replicate, false, ◌<◌, inl, inr, arith,
}
use sparse_post_quantum_ratc.Stored.{Restores, Expects}
use sparse_post_quantum_ratc.Encoding.Gf.{mul, poly_reduce, div_impl, const_div}
use sparse_post_quantum_ratc.Encoding.Gf.Reduce.{remainder, poly_reduce-remainder}
use sparse_post_quantum_ratc.Encoding.Gf.Laws.{reference_mul, mul_correct, div_impl-const_div}
use sparse_post_quantum_ratc.Encoding.Polynomial.{
  Pt, Poly, word_at, lagrange_interpolate, compute_at,
}
use sparse_post_quantum_ratc.Encoding.Gf.Inverse.{div_impl-mul}
use sparse_post_quantum_ratc.Encoding.Polynomial.Interpolate.{compute_at-lagrange_interpolate}
use sparse_post_quantum_ratc.Encoding.Polynomial.Complete.{from_complete_points}
use sparse_post_quantum_ratc.Encoding.Polynomial.Complete.Places.{compute_at-from_complete_points}
use sparse_post_quantum_ratc.Encoding.Gf.Product.{product}
use sparse_post_quantum_ratc.Encoding.Gf.Accelerated.{
  X86, mul_x86, mul2_x86, mul_aarch64, mul2_aarch64, mul_assign, mul2_u16,
}
use sparse_post_quantum_ratc.Encoding.Gf.Accelerated.Agree.{IsX86, mul_assign-mul}
use sparse_post_quantum_ratc.Tests.Sets.{list_set, list_set-IsSortedSet, list_set-IsOrderedSet}
use sparse_post_quantum_ratc.Encoding.Polynomial.AnyOrder.{lossy_transfer, lossy_transfer_lem}
use sparse_post_quantum_ratc.Encoding.Polynomial.Transfer.{transfer, transfer_lem}
use sparse_post_quantum_ratc.Encoding.Polynomial.Encoder.{PolyEncoder, points, numbered}
use sparse_post_quantum_ratc.Encoding.Polynomial.Decoder.{PolyDecoder}
use sparse_post_quantum_ratc.Encoding.Polynomial.Stored.{
  IsStoredSet, stored_poly_codec, encoder-Restores, decoder-Expects,
}

poly_reduce-remainder_example : poly_reduce 0xdeadbeef ≡ remainder 0xdeadbeef
poly_reduce-remainder_example = poly_reduce-remainder 0xdeadbeef (omega arith)

mul_correct_example : mul 0x1234 0xabcd ≡ reference_mul 0x1234 0xabcd
mul_correct_example = mul_correct 0x1234 0xabcd (omega arith)

div_impl-const_div_example : div_impl 9 0x1001 ≡ const_div 9 0x1001
div_impl-const_div_example = div_impl-const_div 9 0x1001 (omega arith) (omega arith)

div_impl-mul_example : mul (div_impl 9 0x1001) 0x1001 ≡ 9
div_impl-mul_example = div_impl-mul 9 0x1001 (omega arith) (omega arith) (λ e. omega (arith, e))

-- Registers as numbers of 128 bits.
abbrev number_x86 : X86 ℕ
number_x86 = record {
  set_epi64x = λ high low. high % 2 ^ 64 * 2 ^ 64 + low % 2 ^ 64;
  clmulepi64_si128 = λ a b imm. product 64 (a % 2 ^ 64) (b % 2 ^ 64);
  cvtsi128_si32 = λ a. a % 2 ^ 32;
  srli_si128 = λ a n. a / 2 ^ (8 * n);
}

number_x86-IsX86 : IsX86 number_x86 (λ r. r)
number_x86-IsX86 = record {
  set_bits = λ high low. refl;
  clmul_bits = λ a b. refl;
  low_bits = λ a. refl;
  shifted_bits = λ a n. refl;
}

mul_assign-mul_example :
    (mul_assign true (mul_x86 number_x86) 0x1234 0xabcd ≡ mul 0x1234 0xabcd)
    × (mul_assign true (mul_aarch64 (product 64)) 0x1234 0xabcd ≡ mul 0x1234 0xabcd)
    × (mul2_u16 true (mul2_x86 number_x86) 0x1234 0xabcd 5 ≡ (mul 0x1234 0xabcd, mul 0x1234 5))
    × (mul2_u16 true (mul2_aarch64 (product 64)) 0x1234 0xabcd 5
        ≡ (mul 0x1234 0xabcd, mul 0x1234 5))
mul_assign-mul_example =
    mul_assign-mul number_x86 (λ r. r) (product 64) true 0x1234 0xabcd 5 number_x86-IsX86
      (λ a b ha hb. refl) (omega arith) (omega arith) (omega arith)

abbrev three_points : List Pt
three_points =
    record { x = 5; y = 77 } ∷ record { x = 2; y = 40000 } ∷ record { x = 65535; y = 0 } ∷ []

compute_at-lagrange_interpolate_example : compute_at (lagrange_interpolate three_points) 2 ≡ 40000
compute_at-lagrange_interpolate_example =
    compute_at-lagrange_interpolate (record { x = 2; y = 40000 }) three_points (omega arith)
      (
        ((λ e. omega (arith, e)), ((λ e. omega (arith, e)), tt)),
        (((λ e. omega (arith, e)), tt), (tt, tt)),
      )
      (inr (inl refl))

compute_at-from_complete_points_example :
    (q : Poly) × (from_complete_points true (numbered 0 (7 ∷ 500 ∷ 9 ∷ [])) ≡ ok q)
    × ((i : ℕ) → i < 3 → compute_at q i ≡ word_at (7 ∷ 500 ∷ 9 ∷ []) i)
compute_at-from_complete_points_example =
    compute_at-from_complete_points true (7 ∷ 500 ∷ 9 ∷ []) (omega arith) (omega arith)

abbrev an_encoder : PolyEncoder
an_encoder = record { idx = 2; s = points (replicate 16 (record { value = 258 ∷ 65535 ∷ [] })) }

encoder-Restores_example : Restores (stored_poly_codec list_set).encoder an_encoder
encoder-Restores_example = encoder-Restores list_set an_encoder (refl, omega arith)

abbrev two_points : List Pt
two_points = record { x = 1; y = 700 } ∷ record { x = 40; y = 65535 } ∷ []

abbrev a_decoder : PolyDecoder (List Pt)
a_decoder = record { pts_needed = 48; pts = replicate 16 two_points; is_complete = false }

replicate-IsStoredSet :
    (n : ℕ) (s : List Pt) → IsStoredSet list_set s → All (IsStoredSet list_set) (replicate n s)
replicate-IsStoredSet zero s h = tt
replicate-IsStoredSet (suc n) s h = (h, replicate-IsStoredSet n s h)

decoder-Expects_example : Expects (stored_poly_codec list_set) 48 a_decoder
unfolding list_set
decoder-Expects_example =
    decoder-Expects list_set a_decoder (omega arith) refl
      (replicate-IsStoredSet 16 two_points (omega arith, refl))

abbrev a_message : List ℕ
a_message = replicate 63 200 ++ 7 ∷ []

transfer_lem_example : transfer list_set true 2 a_message ≡ ok (some a_message)
transfer_lem_example =
    transfer_lem list_set list_set-IsSortedSet true a_message 2 (omega arith) refl (omega arith)

abbrev another_message : List ℕ
another_message = replicate 95 200 ++ 7 ∷ []

-- Five chunks of a message of three are sent, and three arrive, the later ones first.
lossy_transfer_lem_example :
    lossy_transfer list_set true 5 (4 ∷ 1 ∷ 3 ∷ []) another_message ≡ ok (some another_message)
lossy_transfer_lem_example =
    lossy_transfer_lem list_set list_set-IsOrderedSet true another_message 3 5 (4 ∷ 1 ∷ 3 ∷ [])
      (omega arith) refl (omega arith) refl (omega arith) (omega arith)
      (
        ((λ e. omega (arith, e)), ((λ e. omega (arith, e)), tt)),
        (((λ e. omega (arith, e)), tt), (tt, tt)),
      )
      (omega arith)
