-- ===== src/Encoding/Polynomial/Stored.antt =====
-- src/encoding/polynomial.rs: the two halves of the codec behind the interfaces of the crate, and
-- their protobufs.
use sparse_post_quantum_ratc.Prelude.{
  ℕ, suc, ◌*◌, ◌/◌, ◌%◌, ◌^◌, ◌≡◌, ◌≢◌, refl, ap, List, [], ◌∷◌, map, Bool, true, false, ◌==◌,
  length, All, IsU16, IsU32, ok, arith,
}
use native.Mathlib.Nat.{mod-eq_of_lt}
use sparse_post_quantum_ratc.Stored.{StoredCodec, Restores, Expects}
use sparse_post_quantum_ratc.Encoding.{Codec}
use sparse_post_quantum_ratc.Encoding.Polynomial.{
  Pt, Poly, from_be_bytes16, words_to_bytes, words_of_bytes, serialize, deserialize, serialize_pt,
  deserialize_pt,
}
use sparse_post_quantum_ratc.Encoding.Polynomial.Encoder
use sparse_post_quantum_ratc.Encoding.Polynomial.Encoder.{
  PolyEncoder, Point, EncoderState, points, polys, points_from_pb, polys_from_pb, state_from_pb,
}
use sparse_post_quantum_ratc.Encoding.Polynomial.Decoder
use sparse_post_quantum_ratc.Encoding.Polynomial.Decoder.{
  SortedSet, PolyDecoder, serialize_pts, push_all, sets_from_pb,
}

module _ {Set : Type 0} (sets : SortedSet Set) where
  -- `impl Encoder for PolyEncoder` and `impl Decoder for PolyDecoder`.
  unfoldable pub poly_codec : Bool → Codec PolyEncoder (PolyDecoder Set)
  unfolding Encoder.encode_bytes_base Encoder.next_chunk Decoder.new Decoder.add_chunk
      Decoder.decoded_message
  poly_codec debug = record {
    encode_bytes = Encoder.encode_bytes_base;
    next_chunk = Encoder.next_chunk debug;
    new = Decoder.new sets;
    add_chunk = Decoder.add_chunk sets;
    decoded_message = Decoder.decoded_message sets;
  }

  unfoldable pub stored_poly_codec : StoredCodec PolyEncoder (PolyDecoder Set)
  unfolding Encoder.into_pb Encoder.from_pb Decoder.into_pb Decoder.from_pb
  stored_poly_codec = record {
    encoder = record { into_pb = Encoder.into_pb; from_pb = Encoder.from_pb };
    decoder = record { into_pb = Decoder.into_pb sets; from_pb = Decoder.from_pb sets };
  }

be_bytes16 : (n : ℕ) → IsU16 n → from_be_bytes16 (n / 2 ^ 8 % 2 ^ 8) (n % 2 ^ 8) ≡ n
be_bytes16 n h = omega arith

words_roundtrip : (cs : List ℕ) → All IsU16 cs → words_of_bytes (words_to_bytes cs) ≡ cs
unfolding words_of_bytes words_to_bytes
words_roundtrip [] h = refl
words_roundtrip (c ∷ cs) h = rw (be_bytes16 c h.0, words_roundtrip cs h.1)

length-words_to_bytes : (cs : List ℕ) → length (words_to_bytes cs) ≡ 2 * length cs
unfolding words_to_bytes
length-words_to_bytes [] = refl
length-words_to_bytes (c ∷ cs) = omega (arith, length-words_to_bytes cs)

-- A polynomial with a coefficient, all of them of 16 bits.
abbrev pub IsPoly : Poly → Type 0
IsPoly p = (p.coefficients ≢ []) × All IsU16 p.coefficients

nonempty_bytes : (cs : List ℕ) → cs ≢ [] → (length (words_to_bytes cs) == 0) ≡ false
unfolding words_to_bytes
nonempty_bytes [] h = absurd (h refl)
nonempty_bytes (c ∷ cs) h = ground arith

deserialize-serialize_poly : (p : Poly) → IsPoly p → deserialize (serialize p) ≡ ok p
unfolding deserialize serialize
deserialize-serialize_poly p h =
    let even : (length (words_to_bytes p.coefficients) % 2 == 1) ≡ false =
      ground (arith, length-words_to_bytes p.coefficients) in
    rw (nonempty_bytes p.coefficients h.0, even, words_roundtrip p.coefficients h.1)

polys_roundtrip : (ps : List Poly) → All IsPoly ps → polys_from_pb (map serialize ps) ≡ ok ps
unfolding polys_from_pb
polys_roundtrip [] h = refl
polys_roundtrip (p ∷ ps) h = rw (deserialize-serialize_poly p h.0, polys_roundtrip ps h.1)

abbrev pub IsPoint : Point → Type 0
IsPoint pt = All IsU16 pt.value

points_roundtrip :
    (pts : List Point)
    → All IsPoint pts
    → points_from_pb (map (λ pt. words_to_bytes pt.value) pts) ≡ ok pts
unfolding points_from_pb
points_roundtrip [] h = refl
points_roundtrip (pt ∷ pts) h =
    let even : (length (words_to_bytes pt.value) % 2 == 0) ≡ true =
      ground (arith, length-words_to_bytes pt.value) in
    rw (even, points_roundtrip pts h.1, words_roundtrip pt.value h.0)

-- Sixteen lists of points, or sixteen polynomials.
abbrev pub IsState : EncoderState → Type 0
IsState (points pts) = (length pts ≡ 16) × All IsPoint pts
IsState (polys ps) = (length ps ≡ 16) × All IsPoly ps

length-map : {A B : Type 0} (f : A → B) (xs : List A) → length (map f xs) ≡ length xs
length-map f [] = refl
length-map f (x ∷ xs) = ap suc (length-map f xs)

state_roundtrip :
    (idx : ℕ) (s : EncoderState)
    → IsState s
    → state_from_pb (Encoder.into_pb (record { idx = idx; s = s })) ≡ ok s
unfolding state_from_pb Encoder.into_pb
state_roundtrip idx (points []) h = absurd (omega (arith, h.0))
state_roundtrip idx (points (pt ∷ pts)) h =
    let n : (length (map (λ (p : Point). words_to_bytes p.value) (pt ∷ pts)) == 16) ≡ true =
      ground (arith, length-map (λ (p : Point). words_to_bytes p.value) (pt ∷ pts)) in
    rw (n, points_roundtrip (pt ∷ pts) h.1)
state_roundtrip idx (polys ps) h =
    let n : (length (map serialize ps) == 16) ≡ true = ground (arith, length-map serialize ps) in
    rw (n, polys_roundtrip ps h.1)

encoder_roundtrip :
    (idx : ℕ) (s : EncoderState)
    → IsState s
    → let e : PolyEncoder = record { idx = idx; s = s } in
      Encoder.from_pb (Encoder.into_pb e) ≡ ok e
unfolding Encoder.from_pb Encoder.into_pb
encoder_roundtrip idx (points pts) h = rw (state_roundtrip idx (points pts) h)
encoder_roundtrip idx (polys ps) h = rw (state_roundtrip idx (polys ps) h)

-- An encoder with sixteen lists of points, or with sixteen polynomials that have a coefficient,
-- all of 16 bits, is loaded from its protobuf as it was stored.
pub encoder-Restores :
    {Set : Type 0} (sets : SortedSet Set) (e : PolyEncoder)
    → IsState e.s
    → Restores (stored_poly_codec sets).encoder e
unfolding stored_poly_codec
encoder-Restores sets e h = encoder_roundtrip e.idx e.s h

abbrev pub IsPt : Pt → Type 0
IsPt p = IsU16 p.x × IsU16 p.y

module _ {Set : Type 0} (sets : SortedSet Set) where
  abbrev push_points : Set → List Pt → Set
  push_points s [] = s
  push_points s (p ∷ pts) = push_points (sets.push s p) pts

  push_all-points :
      (s : Set) (pts : List Pt)
      → All IsPt pts
      → push_all sets s (serialize_pts pts) ≡ push_points s pts
  unfolding push_all serialize_pts serialize_pt deserialize_pt
  push_all-points s [] h = refl
  push_all-points s (p ∷ pts) h =
      rw (be_bytes16 p.x h.0.0, be_bytes16 p.y h.0.1) (push_all-points (sets.push s p) pts h.1)

  length-serialize_pts : (pts : List Pt) → length (serialize_pts pts) ≡ 4 * length pts
  unfolding serialize_pts serialize_pt
  length-serialize_pts [] = refl
  length-serialize_pts (p ∷ pts) = omega (arith, length-serialize_pts pts)

  -- The points of a set have 16 bits, and pushed in order they make the set again.
  abbrev pub IsStoredSet : Set → Type 0
  IsStoredSet s = All IsPt (sets.as_slice s) × (push_points sets.new (sets.as_slice s) ≡ s)

  sets_roundtrip :
      (ss : List Set)
      → All IsStoredSet ss
      → sets_from_pb sets (map (λ s. serialize_pts (sets.as_slice s)) ss) ≡ ok ss
  unfolding sets_from_pb
  sets_roundtrip [] h = refl
  sets_roundtrip (s ∷ ss) h =
      let quads : (length (serialize_pts (sets.as_slice s)) % 4 == 0) ≡ true =
        ground (arith, length-serialize_pts (sets.as_slice s)) in
      rw (quads, sets_roundtrip ss h.1, push_all-points sets.new (sets.as_slice s) h.0.0, h.0.1)

  decoder_roundtrip :
      (needed : ℕ) (ss : List Set) (is_complete : Bool)
      → IsU32 needed
      → length ss ≡ 16
      → All IsStoredSet ss
      → let d : PolyDecoder Set = record {
        pts_needed = needed;
        pts = ss;
        is_complete = is_complete;
      } in
        Decoder.from_pb sets (Decoder.into_pb sets d) ≡ ok d
  unfolding Decoder.from_pb Decoder.into_pb
  decoder_roundtrip needed ss is_complete small n h =
      let sixteen : (length (map (λ s. serialize_pts (sets.as_slice s)) ss) == 16) ≡ true =
        ground (arith, length-map (λ s. serialize_pts (sets.as_slice s)) ss) in
      rw (sixteen, sets_roundtrip ss h, mod-eq_of_lt small)

  -- A decoder that needs a number of points of 32 bits, with sixteen sets of points of 16 bits, is
  -- loaded from its protobuf as it was stored, and its protobuf has the number of points, provided
  -- that each set comes back when its own points are pushed in order into a new one.
  pub decoder-Expects :
      (d : PolyDecoder Set)
      → IsU32 d.pts_needed
      → length d.pts ≡ 16
      → All IsStoredSet d.pts
      → Expects (stored_poly_codec sets) d.pts_needed d
  unfolding stored_poly_codec
  decoder-Expects d small n h =
      (decoder_roundtrip d.pts_needed d.pts d.is_complete small n h, needed d small)
    where
      needed :
          (d : PolyDecoder Set)
          → IsU32 d.pts_needed
          → (Decoder.into_pb sets d).pts_needed ≡ d.pts_needed
      needed d small = mod-eq_of_lt small
