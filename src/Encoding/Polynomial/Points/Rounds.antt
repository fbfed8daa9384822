-- ===== src/Encoding/Polynomial/Points/Rounds.antt =====
-- `add_chunk` and `decoded_message` of src/encoding/polynomial.rs on the chunks of a message in order.
use sparse_post_quantum_ratc.Prelude.{
  ℕ, zero, suc, ◌+◌, ◌*◌, ◌/◌, ◌%◌, ◌^◌, ◌<◌, ◌≤◌, ◌≡◌, refl, ap, subst, ◌∙◌, List, [], ◌∷◌, ◌++◌,
  Option, some, none, true, false, ltb, length, get_elem?, set, replicate, ok, ◌>>=◌, arith, IsU16,
}
use mathlib.Core.List.{append_assoc, append-nil}
use sparse_post_quantum_ratc.Types.{Bytes, EncodingError}
use sparse_post_quantum_ratc.Encoding.Polynomial.{Pt, Poly, to_be_bytes16, from_be_bytes16}
use sparse_post_quantum_ratc.Encoding.Polynomial.Columns.{bytes_from}
use sparse_post_quantum_ratc.Encoding.Polynomial.Decoder.{
  SortedSet, PolyDecoder, necessary_points, add_point, add_rounds, add_chunk, lacks_points, word_of,
  message_rounds, decoded_message,
}
use sparse_post_quantum_ratc.Encoding.Polynomial.Points.{
  value_at, looked_up-found, IsSortedSet, AreFilled, grown-AreFilled,
}

module _ {Set : Type 0} (sets : SortedSet Set) (law : IsSortedSet sets) (w : ℕ → ℕ) where
  -- A decoder of `k` chunks that is not complete.
  abbrev pub collecting : ℕ → List Set → PolyDecoder Set
  collecting k pts = record { pts_needed = 16 * k; pts = pts; is_complete = false }

  necessary_points-collecting :
      (k i : ℕ) (pts : List Set) → necessary_points (collecting k pts) i ≡ k
  unfolding necessary_points
  necessary_points-collecting k i pts = ground arith

  add_point-collecting :
      (k m i : ℕ) (pts : List Set) (s : Set) (pt : Pt)
      → m / 16 < k
      → get_elem? pts (m % 16) ≡ some s
      → add_point sets {E = EncodingError} (collecting k pts) i (m % 16) (m / 16) pt
        ≡ ok (collecting k (set pts (m % 16) (sets.push s pt)))
  unfolding add_point
  add_point-collecting k m i pts s pt lt found =
      let small : ltb (m / 16) k ≡ true = ground arith in
      rw (add_point, found, necessary_points-collecting k i pts, small)

  add_word :
      (k i index m : ℕ) (pts : List Set) (s : Set)
      → IsU16 (w m)
      → k ≤ 2 ^ 16
      → index * 16 + i ≡ m
      → m / 16 < k
      → get_elem? pts (m % 16) ≡ some s
      → add_point sets {E = EncodingError}
          (collecting k pts)
          i
          ((index * 16 + i) % 16)
          ((index * 16 + i) / 16)
          (record {
            x = (index * 16 + i) / 16 % 2 ^ 16;
            y = from_be_bytes16 (w m / 2 ^ 8 % 2 ^ 8) (w m % 2 ^ 8);
          })
        ≡ ok (collecting k (set pts (m % 16) (sets.push s (record { x = m / 16; y = w m }))))
  add_word k i index m pts s range top at lt found =
      let place : m / 16 % 2 ^ 16 ≡ m / 16 = omega arith in
      let word : from_be_bytes16 (w m / 2 ^ 8 % 2 ^ 8) (w m % 2 ^ 8) ≡ w m = omega arith in
      rw (at, place, word)
        (add_point-collecting k m i pts s (record { x = m / 16; y = w m }) lt found)

  add_round :
      (n k i index m : ℕ) (pts : List Set) (s : Set)
      → IsU16 (w m)
      → k ≤ 2 ^ 16
      → index * 16 + i ≡ m
      → m / 16 < k
      → get_elem? pts (m % 16) ≡ some s
      → add_rounds sets {E = EncodingError}
          (suc n)
          i
          index
          (bytes_from w m (suc n))
          (collecting k pts)
        ≡ add_rounds sets {E = EncodingError} n
            (i + 1)
            index
            (bytes_from w (suc m) n)
            (collecting k (set pts (m % 16) (sets.push s (record { x = m / 16; y = w m }))))
  unfolding add_rounds
  add_round n k i index m pts s range top at lt found =
      ap
        (λ o. o >>= (λ self.
          add_rounds sets {E = EncodingError} n (i + 1) index (bytes_from w (suc m) n) self))
        (add_word k i index m pts s range top at lt found)

  -- Each of the next words goes into its set.
  add_rounds-AreFilled :
      (n k i index m : ℕ) (pts : List Set)
      → ((j : ℕ) → IsU16 (w j))
      → k ≤ 2 ^ 16
      → index * 16 + i ≡ m
      → m + n ≤ 16 * k
      → AreFilled sets law w m pts
      → (pts' : List Set) × (add_rounds sets {E = EncodingError} n i index
            (bytes_from w m n)
            (collecting k pts)
          ≡ ok (collecting k pts'))
        × AreFilled sets law w (m + n) pts'
  unfolding add_rounds
  add_rounds-AreFilled zero k i index m pts range top at le h =
      (pts, refl, subst (λ t. AreFilled sets law w t pts) (omega arith) h)
  add_rounds-AreFilled (suc n) k i index m pts range top at le h =
      let (s, found, one) = h.filled (m % 16) (omega arith) in
      let pt : Pt = record { x = m / 16; y = w m } in
      let rest =
        add_rounds-AreFilled n k (i + 1) index (suc m) (set pts (m % 16) (sets.push s pt)) range top
          (omega (arith, at)) (omega arith)
          (grown-AreFilled sets law w m pts s (omega arith) found one h) in
      (
        rest.0,
        add_round n k i index m pts s (range m) top at (omega arith) found ∙ rest.1,
        subst (λ t. AreFilled sets law w t rest.0) (omega arith) rest.2,
      )

  pub add_chunk-AreFilled :
      (k n : ℕ) (pts : List Set)
      → ((j : ℕ) → IsU16 (w j))
      → k ≤ 2 ^ 16
      → n < k
      → AreFilled sets law w (n * 16) pts
      → (pts' : List Set) × (add_chunk sets {E = EncodingError}
            (collecting k pts)
            (record { index = n; data_bytes = bytes_from w (n * 16) 16 })
          ≡ ok (collecting k pts'))
        × AreFilled sets law w (suc n * 16) pts'
  unfolding add_chunk
  add_chunk-AreFilled k n pts range top lt h =
      let (pts', ran, h') =
        add_rounds-AreFilled 16 k 0 n (n * 16) pts range top (omega arith) (omega arith) h in
      (pts', ran, subst (λ t. AreFilled sets law w t pts') (omega arith) h')

  -- With all the words no set lacks points.
  lacks_points-filled :
      (k poly : ℕ) (pts ss : List Set)
      → ((q : ℕ)
          → q < length ss
          → (s : Set) × (get_elem? ss q ≡ some s) × (length (sets.as_slice s) ≡ k))
      → lacks_points sets (collecting k pts) poly ss ≡ false
  unfolding lacks_points
  lacks_points-filled k poly pts [] h = refl
  lacks_points-filled k poly pts (s ∷ ss) h =
      let (t, same, size) = h 0 (omega arith) in
      let full : length (sets.as_slice s) ≡ k = cc in
      let enough : ltb (length (sets.as_slice s)) k ≡ false = ground (arith, full) in
      rw (necessary_points-collecting k poly pts, enough)
        (lacks_points-filled k (poly + 1) pts ss (λ q lt. h (suc q) (omega arith)))

  word_of-filled :
      (k i : ℕ) (pts : List Set) (polys : List (Option Poly))
      → k ≤ 2 ^ 16
      → i < 16 * k
      → AreFilled sets law w (16 * k) pts
      → word_of sets {E = EncodingError} (collecting k pts) i polys ≡ ok (w i, polys)
  unfolding word_of
  word_of-filled k i pts polys top lt h =
      let (s, found, one) = h.filled (i % 16) (omega arith) in
      let e : 16 * (i / 16) + i % 16 ≡ i = omega arith in
      let place : i / 16 % 2 ^ 16 ≡ i / 16 = omega arith in
      let value : value_at sets s (i / 16) ≡ some (w i) =
        one.below (i / 16) (omega arith) ∙ ap (λ t. some (w t)) e in
      let (j, pt, at, stored, y) =
        looked_up-found (sets.binary_search s (record { x = i / 16; y = 0 })) (sets.as_slice s)
          (w i) value in
      rw (found, place, at, stored, y)

  message_rounds-filled :
      (n i k : ℕ) (pts : List Set) (polys : List (Option Poly)) (out : Bytes)
      → k ≤ 2 ^ 16
      → i + n ≤ 16 * k
      → AreFilled sets law w (16 * k) pts
      → message_rounds sets {E = EncodingError} n i (collecting k pts) polys out
        ≡ ok (out ++ bytes_from w i n)
  unfolding message_rounds
  message_rounds-filled zero i k pts polys out top le h = rw (append-nil out)
  message_rounds-filled (suc n) i k pts polys out top le h =
      let e : i + 1 ≡ suc i = omega arith in
      rw (
        word_of-filled k i pts polys top (omega arith) h,
        message_rounds-filled n (i + 1) k pts polys (out ++ to_be_bytes16 (w i)) top (omega arith)
            h,
        e,
        append_assoc out (to_be_bytes16 (w i)) (bytes_from w (suc i) n),
      )

  pub decoded_message-filled :
      (k : ℕ) (pts : List Set)
      → k ≤ 2 ^ 16
      → AreFilled sets law w (16 * k) pts
      → decoded_message sets {E = EncodingError} (collecting k pts)
        ≡ ok (some (bytes_from w 0 (16 * k)))
  unfolding decoded_message
  decoded_message-filled k pts top h =
      let full = lacks_points-filled k 0 pts pts (λ q lt.
        let (s, found, one) = h.filled q (omega (arith, h.count)) in
        (s, found, omega (arith, one.size))) in
      rw (full, message_rounds-filled (16 * k) 0 k pts (replicate 16 none) [] top (omega arith) h)
