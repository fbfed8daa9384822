-- ===== src/Chain/History/Order.antt =====
-- The order of the big-endian indices that `gc` compares.
use sparse_post_quantum_ratc.Prelude.{
  ℕ, ◌+◌, ◌*◌, ◌/◌, ◌%◌, ◌<◌, ◌≡◌, refl, ◌∙◌, ltb, arith, List, [], ◌∷◌, to_be_bytes32, IsU32, ◌^◌,
}
use sparse_post_quantum_ratc.Chain.History.{slice_gt}

last_digit : (a b : ℕ) → slice_gt (a ∷ []) (b ∷ []) ≡ ltb b a
last_digit a b = ground arith

module _ (a b : ℕ) (xs ys : List ℕ) (m n : ℕ) where
  second_digit :
      slice_gt xs ys ≡ ltb n m
      → m < 256
      → n < 256
      → slice_gt (a ∷ xs) (b ∷ ys) ≡ ltb (b * 256 + n) (a * 256 + m)
  second_digit e hm hn = ground arith

  third_digit :
      slice_gt xs ys ≡ ltb n m
      → m < 65536
      → n < 65536
      → slice_gt (a ∷ xs) (b ∷ ys) ≡ ltb (b * 65536 + n) (a * 65536 + m)
  third_digit e hm hn = ground arith

  first_digit :
      slice_gt xs ys ≡ ltb n m
      → m < 16777216
      → n < 16777216
      → slice_gt (a ∷ xs) (b ∷ ys) ≡ ltb (b * 16777216 + n) (a * 16777216 + m)
  first_digit e hm hn = ground arith

abbrev below24 : ℕ → ℕ
below24 n = n / 2 ^ 16 % 256 * 65536 + (n / 2 ^ 8 % 256 * 256 + n % 256)

digits_of : (n : ℕ) → IsU32 n → n / 2 ^ 24 % 256 * 16777216 + below24 n ≡ n
digits_of n h = omega arith

pub slice_gt-to_be_bytes32 :
    (x y : ℕ) → IsU32 x → IsU32 y → slice_gt (to_be_bytes32 x) (to_be_bytes32 y) ≡ ltb y x
unfolding to_be_bytes32
slice_gt-to_be_bytes32 x y hx hy =
    let x0 : ℕ = x % 256 in
    let y0 : ℕ = y % 256 in
    let x1 : ℕ = x / 2 ^ 8 % 256 in
    let y1 : ℕ = y / 2 ^ 8 % 256 in
    let e1 : slice_gt (x1 ∷ x0 ∷ []) (y1 ∷ y0 ∷ []) ≡ ltb (y1 * 256 + y0) (x1 * 256 + x0) =
      second_digit x1 y1 (x0 ∷ []) (y0 ∷ []) x0 y0 (last_digit x0 y0) (omega arith) (omega arith) in
    let e2 =
      third_digit (x / 2 ^ 16 % 256) (y / 2 ^ 16 % 256) (x1 ∷ x0 ∷ []) (y1 ∷ y0 ∷ [])
        (x1 * 256 + x0) (y1 * 256 + y0) e1 (omega arith) (omega arith) in
    first_digit (x / 2 ^ 24 % 256) (y / 2 ^ 24 % 256) (x / 2 ^ 16 % 256 ∷ x1 ∷ x0 ∷ [])
      (y / 2 ^ 16 % 256 ∷ y1 ∷ y0 ∷ []) (below24 x) (below24 y) e2 (omega arith) (omega arith)
    ∙ rw (digits_of x hx, digits_of y hy) refl
