-- ===== src/Encoding/Polynomial/Decoder.antt =====
-- src/encoding/polynomial.rs: PolyDecoder, which collects chunks until it can give the message. The
-- sorted sets of points are those of a library, and a parameter.
use sparse_post_quantum_ratc.Prelude.{
  ℕ, zero, suc, ◌+◌, ◌*◌, ◌/◌, ◌%◌, ◌^◌, List, [], ◌∷◌, ◌++◌, map, Bool, false, ltb, not, ◌||◌,
  ◌==◌, if◌then◌else◌, length, get_elem?, set, take, replicate, Option, none, some, Outcome, ok,
  err, panic, ◌>>=◌, ◌>>◌, guard,
}
use sparse_post_quantum_ratc.Types.{
  Bytes, EncodingError, polynomial_error, PolynomialError, message_length_even,
  serialization_invalid,
}
use sparse_post_quantum_ratc.Wire.{Chunk}
use sparse_post_quantum_ratc.Proto
use sparse_post_quantum_ratc.Encoding.Polynomial.{
  Pt, Poly, to_be_bytes16, from_be_bytes16, serialize_pt, deserialize_pt, lagrange_interpolate,
  compute_at,
}

-- `SortedSet<Pt>` of sorted_vec, where points with one `x` are equal.
pub record SortedSet (Set : Type 0) : Type 0 where
  pub new : Set
  pub push : Set → Pt → Set
  pub as_slice : Set → List Pt
  pub binary_search : Set → Pt → Option ℕ

pub record PolyDecoder (Set : Type 0) : Type 0 where
  pub pts_needed : ℕ
  pub pts : List Set
  pub is_complete : Bool

unfoldable pub necessary_points : {Set : Type 0} → PolyDecoder Set → ℕ → ℕ
necessary_points self poly =
    let points_per_poly = self.pts_needed / 16 in
    if ltb poly (self.pts_needed % 16) then points_per_poly + 1 else points_per_poly

unfoldable pub serialize_pts : List Pt → Bytes
unfolding serialize_pt
serialize_pts [] = []
serialize_pts (p ∷ pts) = serialize_pt p ++ serialize_pts pts

module _ {Set : Type 0} (sets : SortedSet Set) where
  unfoldable pub new_with_poly_count : ℕ → ℕ → Outcome EncodingError (PolyDecoder Set)
  new_with_poly_count len_bytes polys =
      if not (len_bytes % 2 == 0)
      then err (polynomial_error message_length_even)
      else ok
          (record { pts_needed = len_bytes / 2; pts = replicate 16 sets.new; is_complete = false })

  -- `impl Decoder for PolyDecoder`
  unfoldable pub new : ℕ → Outcome EncodingError (PolyDecoder Set)
  unfolding new_with_poly_count
  new len_bytes = new_with_poly_count len_bytes 16

  unfoldable pub into_pb : PolyDecoder Set → Proto.PolynomialDecoder
  unfolding serialize_pts
  into_pb self = record {
    pts_needed = self.pts_needed % 2 ^ 32;
    polys = 16;
    pts = map (λ s. serialize_pts (sets.as_slice s)) self.pts;
    is_complete = self.is_complete;
  }

  -- The points of four bytes each go into the set in order.
  unfoldable pub push_all : Set → Bytes → Set
  unfolding deserialize_pt
  push_all s [] = s
  push_all s (a ∷ []) = s
  push_all s (a ∷ b ∷ []) = s
  push_all s (a ∷ b ∷ c ∷ []) = s
  push_all s (a ∷ b ∷ c ∷ d ∷ bytes) = push_all (sets.push s (deserialize_pt a b c d)) bytes

  unfoldable pub sets_from_pb : List Bytes → Outcome PolynomialError (List Set)
  unfolding push_all
  sets_from_pb [] = ok []
  sets_from_pb (bytes ∷ pbs) = do
    guard (length bytes % 4 == 0) serialization_invalid
    rest ← sets_from_pb pbs
    ok (push_all sets.new bytes ∷ rest)

  unfoldable pub from_pb : Proto.PolynomialDecoder → Outcome PolynomialError (PolyDecoder Set)
  unfolding sets_from_pb
  from_pb pb = do
    guard (length pb.pts == 16) serialization_invalid
    out_pts ← sets_from_pb pb.pts
    ok (record { pts_needed = pb.pts_needed; pts = out_pts; is_complete = pb.is_complete })

  -- `self.pts[poly].push(..)`, if the point is of use.
  unfoldable pub add_point {ℓ} :
      {E : Type ℓ} → PolyDecoder Set → ℕ → ℕ → ℕ → Pt → Outcome E (PolyDecoder Set)
  unfolding necessary_points
  add_point self i poly poly_idx pt = elim (get_elem? self.pts poly) [
    | none ↦ panic
    | some s ↦
        if ltb poly_idx (necessary_points self i)
          || ltb (length (sets.as_slice s)) (necessary_points self i)
        then ok (record self { pts = set self.pts poly (sets.push s pt) })
        else ok self
  ]

  -- The `for` loop of `add_chunk`, with the bytes that are left, two for each round.
  unfoldable pub add_rounds {ℓ} :
      {E : Type ℓ} → ℕ → ℕ → ℕ → Bytes → PolyDecoder Set → Outcome E (PolyDecoder Set)
  unfolding add_point
  add_rounds zero i index bytes self = ok self
  add_rounds (suc n) i index [] self = panic
  add_rounds (suc n) i index (y1 ∷ []) self = panic
  add_rounds (suc n) i index (y1 ∷ y2 ∷ bytes) self = do
    let total_idx = index * 16 + i
    let poly_idx = total_idx / 16
    let pt : Pt = record { x = poly_idx % 2 ^ 16; y = from_be_bytes16 y1 y2 }
    self' ← add_point self i (total_idx % 16) poly_idx pt
    add_rounds n (i + 1) index bytes self'

  unfoldable pub add_chunk {ℓ} :
      {E : Type ℓ} → PolyDecoder Set → Chunk → Outcome E (PolyDecoder Set)
  unfolding add_rounds
  add_chunk self chunk = add_rounds 16 0 chunk.index chunk.data_bytes self

  -- Whether a set has too few points, from the one of `poly` on.
  unfoldable pub lacks_points : PolyDecoder Set → ℕ → List Set → Bool
  unfolding necessary_points
  lacks_points self poly [] = false
  lacks_points self poly (s ∷ ss) =
      ltb (length (sets.as_slice s)) (necessary_points self poly) || lacks_points self (poly + 1) ss

  -- The polynomial of a set, from `polys` if it was interpolated before.
  unfoldable pub interpolated : PolyDecoder Set → ℕ → Set → Option Poly → Poly
  unfolding necessary_points
  interpolated self poly s (some p) = p
  interpolated self poly s none =
      lagrange_interpolate (take (necessary_points self poly) (sets.as_slice s))

  -- The value of word `i`, and the polynomials that are interpolated then.
  unfoldable pub word_of {ℓ} :
      {E : Type ℓ} → PolyDecoder Set → ℕ → List (Option Poly) → Outcome E (ℕ × List (Option Poly))
  unfolding interpolated
  word_of self i polys =
      let poly = i % 16 in
      let x = i / 16 % 2 ^ 16 in
      elim (get_elem? self.pts poly) [
        | none ↦ panic
        | some s ↦ elim (sets.binary_search s (record { x = x; y = 0 })) [
          | some k ↦ elim (get_elem? (sets.as_slice s) k) [
            | none ↦ panic
            | some pt ↦ ok (pt.y, polys)
          ]
          | none ↦ elim (get_elem? polys poly) [
            | none ↦ panic
            | some known ↦
                let p = interpolated self poly s known in
                ok (compute_at p x, set polys poly (some p))
          ]
        ]
      ]

  unfoldable pub message_rounds {ℓ} :
      {E : Type ℓ} → ℕ → ℕ → PolyDecoder Set → List (Option Poly) → Bytes → Outcome E Bytes
  unfolding word_of
  message_rounds zero i self polys out = ok out
  message_rounds (suc n) i self polys out = do
    (y, polys') ← word_of self i polys
    message_rounds n (i + 1) self polys' (out ++ to_be_bytes16 y)

  unfoldable pub decoded_message {ℓ} : {E : Type ℓ} → PolyDecoder Set → Outcome E (Option Bytes)
  unfolding lacks_points message_rounds
  decoded_message self =
      if self.is_complete
      then ok none
      else if lacks_points self 0 self.pts
      then ok none
      else (do out ← message_rounds self.pts_needed 0 self (replicate 16 none) []; ok (some out))
