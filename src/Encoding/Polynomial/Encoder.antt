-- ===== src/Encoding/Polynomial/Encoder.antt =====
-- src/encoding/polynomial.rs: PolyEncoder, which turns a message into chunks. `debug` says whether the
-- build has debug assertions.
use sparse_post_quantum_ratc.Prelude.{
  ℕ, zero, suc, ◌+◌, ◌*◌, ◌/◌, ◌%◌, ◌^◌, List, [], ◌∷◌, ◌++◌, map, Bool, ltb, not, ◌==◌,
  if◌then◌else◌, length, get_elem?, set, replicate, is_empty, none, some, Outcome, ok, err, panic,
  ◌>>=◌, ◌>>◌, guard, expect,
}
use sparse_post_quantum_ratc.Types.{
  Bytes, EncodingError, polynomial_error, PolynomialError, message_length_even,
  message_length_too_long, serialization_invalid,
}
use sparse_post_quantum_ratc.Wire.{Chunk}
use sparse_post_quantum_ratc.Proto
use sparse_post_quantum_ratc.Encoding.Gf.{Gf16}
use sparse_post_quantum_ratc.Encoding.Polynomial.{
  Pt, Poly, to_be_bytes16, from_be_bytes16, words_to_bytes, words_of_bytes, serialize, deserialize,
  compute_at,
}
use sparse_post_quantum_ratc.Encoding.Polynomial.Complete.{from_complete_points}

abbrev pub num_polys : ℕ
num_polys = 16

pub record Point : Type 0 where
  pub value : List Gf16

-- Both arrays have 16 elements.
pub data EncoderState : Type 0 where
  points : List Point → EncoderState
  polys : List Poly → EncoderState

pub record PolyEncoder : Type 0 where
  pub idx : ℕ
  pub s : EncoderState

unfoldable pub into_pb : PolyEncoder → Proto.PolynomialEncoder
into_pb self = elim self.s [
  | points pts ↦ record {
    idx = self.idx;
    pts = map (λ pt. words_to_bytes pt.value) pts;
    polys = [];
  }
  | polys ps ↦ record { idx = self.idx; pts = []; polys = map serialize ps }
]

unfoldable pub points_from_pb : List Bytes → Outcome PolynomialError (List Point)
points_from_pb [] = ok []
points_from_pb (bytes ∷ pbs) = do
  guard (length bytes % 2 == 0) serialization_invalid
  rest ← points_from_pb pbs
  ok (record { value = words_of_bytes bytes } ∷ rest)

unfoldable pub polys_from_pb : List Bytes → Outcome PolynomialError (List Poly)
polys_from_pb [] = ok []
polys_from_pb (bytes ∷ pbs) = do
  poly ← deserialize bytes
  rest ← polys_from_pb pbs
  ok (poly ∷ rest)

unfoldable pub state_from_pb : Proto.PolynomialEncoder → Outcome PolynomialError EncoderState
unfolding points_from_pb polys_from_pb
state_from_pb pb =
    if not (is_empty pb.pts)
    then (do
      guard (is_empty pb.polys) serialization_invalid
      guard (length pb.pts == num_polys) serialization_invalid
      out ← points_from_pb pb.pts
      ok (points out))
    else if length pb.polys == num_polys
    then (do out ← polys_from_pb pb.polys; ok (polys out))
    else err serialization_invalid

unfoldable pub from_pb : Proto.PolynomialEncoder → Outcome PolynomialError PolyEncoder
unfolding state_from_pb
from_pb pb = do s ← state_from_pb pb; ok (record { idx = pb.idx; s = s })

-- The values of a point list with their places, from `i` on.
unfoldable pub numbered : ℕ → List Gf16 → List Pt
numbered i [] = []
numbered i (y ∷ ys) = record { x = i % 2 ^ 16; y = y } ∷ numbered (i + 1) ys

unfoldable pub polys_of_points {ℓ} : {E : Type ℓ} → Bool → List Point → Outcome E (List Poly)
unfolding numbered
polys_of_points debug [] = ok []
polys_of_points debug (pt ∷ pts) = do
  poly ← expect (from_complete_points debug (numbered 0 pt.value))
  rest ← polys_of_points debug pts
  ok (poly ∷ rest)

-- The value of one polynomial, as `point_at` has it in the end.
unfoldable pub poly_value {ℓ} : {E : Type ℓ} → List Poly → ℕ → ℕ → Outcome E Gf16
poly_value ps poly idx = elim (get_elem? ps poly) [
  | none ↦ panic
  | some p ↦ ok (compute_at p (idx % 2 ^ 16))
]

unfoldable pub point_at {ℓ} :
    {E : Type ℓ} → Bool → PolyEncoder → ℕ → ℕ → Outcome E (PolyEncoder × Gf16)
unfolding polys_of_points poly_value
point_at debug self poly idx = elim self.s [
  | points pts ↦ elim (get_elem? pts poly) [
    | none ↦ panic
    | some pt ↦ elim (get_elem? pt.value idx) [
      | some y ↦ ok (self, y)
      | none ↦ do
        ps ← polys_of_points debug pts
        y ← poly_value ps poly idx
        ok (record self { s = polys ps }, y)
    ]
  ]
  | polys ps ↦ do y ← poly_value ps poly idx; ok (self, y)
]

-- The words of a message go to the 16 lists in turn.
unfoldable pub deal : ℕ → Bytes → List Point → List Point
deal i [] pts = pts
deal i (a ∷ []) pts = pts
deal i (a ∷ b ∷ msg) pts = elim (get_elem? pts (i % num_polys)) [
  | none ↦ pts
  | some pt ↦
      deal (i + 1) msg
        (set pts (i % num_polys) (record { value = pt.value ++ from_be_bytes16 a b ∷ [] }))
]

unfoldable pub encode_bytes_base : Bytes → Outcome EncodingError PolyEncoder
unfolding deal
encode_bytes_base msg =
    if not (length msg % 2 == 0)
    then err (polynomial_error message_length_even)
    else if ltb (2 ^ 16 * num_polys) (length msg)
    then err (polynomial_error message_length_too_long)
    else ok
        (record { idx = 0; s = points (deal 0 msg (replicate num_polys (record { value = [] }))) })

-- The `for` loop of `chunk_at`, with the rounds that are left.
unfoldable pub chunk_rounds {ℓ} :
    {E : Type ℓ} → Bool → ℕ → ℕ → PolyEncoder → ℕ → Bytes → Outcome E (PolyEncoder × Bytes)
unfolding point_at
chunk_rounds debug zero i self idx out = ok (self, out)
chunk_rounds debug (suc n) i self idx out = do
  let total_idx = idx * 16 + i
  (self', p) ← point_at debug self (total_idx % 16) (total_idx / 16)
  chunk_rounds debug n (i + 1) self' idx (out ++ to_be_bytes16 p)

unfoldable pub chunk_at {ℓ} :
    {E : Type ℓ} → Bool → PolyEncoder → ℕ → Outcome E (PolyEncoder × Chunk)
unfolding chunk_rounds
chunk_at debug self idx = do
  (self', out) ← chunk_rounds debug 16 0 self idx []
  ok (self', record { index = idx; data_bytes = out })

unfoldable pub next_chunk {ℓ} : {E : Type ℓ} → Bool → PolyEncoder → Outcome E (PolyEncoder × Chunk)
unfolding chunk_at
next_chunk debug self = do
  (self', out) ← chunk_at debug self (self.idx % 2 ^ 16)
  ok (record self' { idx = (self'.idx + 1) % 2 ^ 32 }, out)
