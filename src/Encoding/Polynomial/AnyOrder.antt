-- ===== src/Encoding/Polynomial/AnyOrder.antt =====
-- A message through the codec of src/encoding/polynomial.rs when some of the chunks are lost and the
-- others come in any order.
use sparse_post_quantum_ratc.Prelude.{
  ℕ, Bool, false, zero, suc, ◌+◌, ◌*◌, ◌/◌, ◌%◌, ◌^◌, ◌<◌, ◌≤◌, ◌≡◌, ◌≢◌, refl, sym, ap, subst, ◌∙◌,
  List, [], ◌∷◌, map, All, length, replicate, get_elem?, true, ◌==◌, Option, none, some, Outcome,
  ok, ◌>>=◌, IsU8, IsU16, inl, arith,
}
use sparse_post_quantum_ratc.Types.{Bytes, EncodingError}
use sparse_post_quantum_ratc.Wire.{Chunk}
use sparse_post_quantum_ratc.Encoding.Gf.{Gf16}
use sparse_post_quantum_ratc.Encoding.Gf.Field.{el}
use sparse_post_quantum_ratc.Encoding.Polynomial.{Poly}
use sparse_post_quantum_ratc.Encoding.Polynomial.Value.{compute_at-value}
use sparse_post_quantum_ratc.Encoding.Polynomial.Encoder.{
  Point, EncoderState, PolyEncoder, points, encode_bytes_base, chunk_at, next_chunk,
}
use sparse_post_quantum_ratc.Encoding.Polynomial.Decoder.{
  SortedSet, PolyDecoder, new, add_chunk, decoded_message,
}
use sparse_post_quantum_ratc.Encoding.Polynomial.Columns.{
  Columns, bytes_from, deal-Columns, empty-Columns,
}
use sparse_post_quantum_ratc.Encoding.Polynomial.Transfer.{
  word, word-IsU16, word-Reads, bytes_from-Reads, dealt, encode_bytes_base-short,
}
use sparse_post_quantum_ratc.Encoding.Polynomial.Complete.Places.{is_refused}
use sparse_post_quantum_ratc.Encoding.Polynomial.Code.{
  code, code-IsU16, IsEncoded, Columns-IsEncoded, length-deal,
}
use sparse_post_quantum_ratc.Encoding.Polynomial.Code.Chunks.{
  code_value, code_word, Encodes, chunk_at-code,
}
use sparse_post_quantum_ratc.Encoding.Polynomial.Gather.{IsOrderedSet, gathering}
use sparse_post_quantum_ratc.Encoding.Polynomial.Gather.Rounds.{
  AreReady, add_chunk-AreReady, new-AreReady,
}
use sparse_post_quantum_ratc.Encoding.Polynomial.Recover.{IsCode, decoded_message-code}

-- The next `n` chunks of an encoder.
unfoldable pub emit : Bool → ℕ → PolyEncoder → Outcome EncodingError (List Chunk)
emit debug zero encoder = ok []
emit debug (suc n) encoder = do
  (encoder', chunk) ← next_chunk debug encoder
  chunks ← emit debug n encoder'
  ok (chunk ∷ chunks)

-- The chunks that arrive, by their places among those that were sent.
unfoldable pub arrived : List ℕ → List Chunk → List Chunk
arrived [] sent = []
arrived (j ∷ js) sent = elim (get_elem? sent j) [
  | none ↦ arrived js sent
  | some chunk ↦ chunk ∷ arrived js sent
]

unfoldable pub add_chunks :
    {Set : Type 0}
    → SortedSet Set
    → List Chunk
    → PolyDecoder Set
    → Outcome EncodingError (PolyDecoder Set)
add_chunks sets [] decoder = ok decoder
add_chunks sets (chunk ∷ chunks) decoder = do
  decoder' ← add_chunk sets decoder chunk
  add_chunks sets chunks decoder'

-- What a new decoder gives after those of the first `n` chunks of a message that arrive.
unfoldable pub lossy_transfer :
    {Set : Type 0}
    → SortedSet Set
    → Bool
    → ℕ
    → List ℕ
    → Bytes
    → Outcome EncodingError (Option Bytes)
unfolding emit arrived add_chunks
lossy_transfer sets debug n js msg = do
  encoder ← encode_bytes_base msg
  sent ← emit debug n encoder
  decoder ← new sets (length msg)
  received ← add_chunks sets (arrived js sent) decoder
  decoded_message sets received

abbrev pub AreDifferent : List ℕ → Type 0
AreDifferent [] = Unit {0}
AreDifferent (j ∷ js) = All (λ l. j ≢ l) js × AreDifferent js

abbrev chunk_of : (ℕ → ℕ) → ℕ → Chunk
chunk_of v j = record { index = j; data_bytes = bytes_from v (j * 16) 16 }

abbrev chunks_from : (ℕ → ℕ) → ℕ → ℕ → List Chunk
chunks_from v at zero = []
chunks_from v at (suc n) = chunk_of v at ∷ chunks_from v (at + 1) n

chunks_from-get_elem? :
    (v : ℕ → ℕ) (at n j : ℕ) → j < n → get_elem? (chunks_from v at n) j ≡ some (chunk_of v (at + j))
chunks_from-get_elem? v at zero j lt = absurd (omega arith)
chunks_from-get_elem? v at (suc n) zero lt = ap (λ t. some (chunk_of v t)) (omega arith)
chunks_from-get_elem? v at (suc n) (suc j) lt =
    chunks_from-get_elem? v (at + 1) n j (omega arith) ∙ ap (λ t. some (chunk_of v t)) (omega arith)

arrived_chunks :
    (v : ℕ → ℕ) (n : ℕ) (js : List ℕ)
    → All (λ j. j < n) js
    → arrived js (chunks_from v 0 n) ≡ map (chunk_of v) js
unfolding arrived
arrived_chunks v n [] h = refl
arrived_chunks v n (j ∷ js) h =
    let e : get_elem? (chunks_from v 0 n) j ≡ some (chunk_of v j) =
      chunks_from-get_elem? v 0 n j h.0 ∙ ap (λ t. some (chunk_of v t)) (omega arith) in
    rw (arrived, e) (ap (λ t. chunk_of v j ∷ t) (arrived_chunks v n js h.1))

bytes_from_same :
    (v w : ℕ → ℕ) (i n : ℕ)
    → ((j : ℕ) → j < i + n → v j ≡ w j)
    → bytes_from v i n ≡ bytes_from w i n
bytes_from_same v w i zero same = refl
bytes_from_same v w i (suc n) same =
    rw (same i (omega arith), bytes_from_same v w (suc i) n (λ j lt. same j (omega arith)))

-- The coefficients of polynomial `q`.
abbrev curve_of : Option Poly → List Gf16
curve_of none = []
curve_of (some p) = p.coefficients

module _ (debug : Bool) (w : ℕ → ℕ) (k : ℕ) (pts : List Point) (ps : List Poly)
    (h : IsEncoded debug w k pts ps) where
  abbrev curve : ℕ → List Gf16
  curve q = curve_of (get_elem? ps q)

  code-IsCode : k ≤ 2 ^ 16 → IsCode (code ps) k curve
  code-IsCode le = record {
    range = λ i. code-IsU16 ps i;
    short = λ q lq.
        let (v, p, found, stored, column, fits) = h.lists q lq in
        rw stored (omega (arith, fits.short, column.size));
    values = λ q x lq lx.
        let (v, p, found, stored, column, fits) = h.lists q lq in
        rw stored (sym (compute_at-value p x fits.small lx))
        ∙ ap el (sym (code_value debug w k pts ps h q x p stored lq lx));
  }

  next_chunk_ran :
      (encoder : PolyEncoder) (r : PolyEncoder × Chunk)
      → chunk_at {E = EncodingError} debug encoder (encoder.idx % 2 ^ 16) ≡ ok r
      → next_chunk {E = EncodingError} debug encoder
        ≡ ok (record { idx = (r.0.idx + 1) % 2 ^ 32; s = r.0.s }, r.1)
  unfolding next_chunk
  next_chunk_ran encoder r ran =
      ap
        (λ o. o >>= (λ (q : PolyEncoder × Chunk).
          ok (record { idx = (q.0.idx + 1) % 2 ^ 32; s = q.0.s }, q.1)))
        ran

  next_chunk-code :
      (at : ℕ) (s t : EncoderState)
      → at < 2 ^ 16
      → chunk_at {E = EncodingError} debug (record { idx = at; s = s }) at
        ≡ ok (record { idx = at; s = t }, chunk_of (code ps) at)
      → next_chunk {E = EncodingError} debug (record { idx = at; s = s })
        ≡ ok (record { idx = at + 1; s = t }, chunk_of (code ps) at)
  next_chunk-code at s t lt ran =
      let small : at % 2 ^ 16 ≡ at = omega arith in
      let following : (at + 1) % 2 ^ 32 ≡ at + 1 = omega arith in
      next_chunk_ran (record { idx = at; s = s })
        (record { idx = at; s = t }, chunk_of (code ps) at)
        (ap (chunk_at {E = EncodingError} debug (record { idx = at; s = s })) small ∙ ran)
      ∙ ap (λ i. ok (record { idx = i; s = t }, chunk_of (code ps) at)) following

  emit-code :
      (n at : ℕ) (s : EncoderState)
      → ((j : ℕ) → IsU16 (w j))
      → k ≤ 2 ^ 16
      → at + n ≤ 2 ^ 16
      → Encodes debug w k pts ps h s
      → emit debug n (record { idx = at; s = s }) ≡ ok (chunks_from (code ps) at n)
  unfolding emit
  emit-code zero at s range le top encodes = refl
  emit-code (suc n) at s range le top encodes =
      let (t, ran, encodes') =
        chunk_at-code debug w k pts ps h at at s range le (omega arith) encodes in
      rw (
        next_chunk-code at s t (omega arith) ran,
        emit-code n (at + 1) t range le (omega arith) encodes',
      )

module _ {Set : Type 0} (sets : SortedSet Set) (law : IsOrderedSet sets) (v : ℕ → ℕ) (k : ℕ) where
  add_chunks-AreReady :
      (js : List ℕ) (n : ℕ) (ds : List Set)
      → ((i : ℕ) → IsU16 (v i))
      → All (λ j. j < 2 ^ 16) js
      → AreDifferent js
      → AreReady sets law v k js n ds
      → (ds' : List Set) × (add_chunks sets (map (chunk_of v) js) (gathering sets law v k ds)
          ≡ ok (gathering sets law v k ds'))
        × AreReady sets law v k [] (n + length js) ds'
  unfolding add_chunks
  add_chunks-AreReady [] n ds range small different ready =
      (ds, refl, subst (λ t. AreReady sets law v k [] t ds) (omega arith) ready)
  add_chunks-AreReady (j ∷ js) n ds range small different ready =
      let (mid, ran, ready') =
        add_chunk-AreReady sets law v k j js n ds range small.0 different.0 ready in
      let (out, rest, done) = add_chunks-AreReady js (suc n) mid range small.1 different.1 ready' in
      (out, rw ran rest, subst (λ t. AreReady sets law v k [] t out) (omega arith) done)

  new-gathering :
      (msg : Bytes)
      → length msg ≡ 32 * k
      → new sets (length msg) ≡ ok (gathering sets law v k (replicate 16 sets.new))
  unfolding new
  new-gathering msg size =
      let even : (length msg % 2 == 0) ≡ true = ground (arith, size) in
      let half : length msg / 2 ≡ 16 * k = omega (arith, size) in rw (even, half)

below_small : (n : ℕ) (js : List ℕ) → n ≤ 2 ^ 16 → All (λ j. j < n) js → All (λ j. j < 2 ^ 16) js
below_small n [] le h = tt
below_small n (j ∷ js) le h = (omega (arith, h.0), below_small n js le h.1)

message-IsEncoded :
    (debug : Bool) (msg : Bytes) (k : ℕ)
    → All IsU8 msg
    → length msg ≡ 32 * k
    → k ≤ 2 ^ 15
    → is_refused debug k ≡ false
    → (ps : List Poly) × IsEncoded debug (word msg) k (dealt msg) ps
message-IsEncoded debug msg k bytes size top accepted =
    let columns : Columns (word msg) (16 * k) (dealt msg) =
      subst (λ t. Columns (word msg) t (dealt msg)) (omega (arith, size))
        (deal-Columns (word msg) msg 0 (replicate 16 (record { value = [] }))
          (word-Reads msg (omega (arith, size))) (empty-Columns (word msg))) in
    Columns-IsEncoded debug (word msg) k (dealt msg) (λ i. word-IsU16 msg i bytes) (omega arith)
      accepted (length-deal 0 msg (replicate 16 (record { value = [] }))) columns

module _ {Set : Type 0} (sets : SortedSet Set) (law : IsOrderedSet sets) where
  -- A message of bytes whose length is 32 times a number k, of 2^15 at most, is encoded without
  -- error, and a new decoder for its length that gets any k or more of the encoder's first n
  -- chunks, each once and in any order, gives the message, without error or panic, when n is at
  -- most 2^16, and when the build has no debug assertions or k is 0 or a number of points whose
  -- polynomials are precomputed. The sets of points of the decoder are any that start empty,
  -- insert a point that they do not have, and find at a place that a search gives a point with the
  -- x looked for.
  pub lossy_transfer_lem :
      (debug : Bool) (msg : Bytes) (k n : ℕ) (js : List ℕ)
      → All IsU8 msg
      → length msg ≡ 32 * k
      → k ≤ 2 ^ 15
      → is_refused debug k ≡ false
      → n ≤ 2 ^ 16
      → All (λ j. j < n) js
      → AreDifferent js
      → k ≤ length js
      → lossy_transfer sets debug n js msg ≡ ok (some msg)
  unfolding lossy_transfer
  lossy_transfer_lem debug msg k n js bytes size top accepted le below different enough =
      let w = word msg in
      let range = λ (i : ℕ). word-IsU16 msg i bytes in
      let (ps, h) = message-IsEncoded debug msg k bytes size top accepted in
      let v = code ps in
      let sent =
        emit-code debug w k (dealt msg) ps h n 0 (points (dealt msg)) range (omega arith)
          (omega arith) (inl refl) in
      let (ds, received, ready) =
        add_chunks-AreReady sets law v k js 0 (replicate 16 sets.new) (λ i. code-IsU16 ps i)
          (below_small n js le below) different (new-AreReady sets law v k js) in
      let decoded =
        decoded_message-code sets law v k (curve debug w k (dealt msg) ps h)
          (code-IsCode debug w k (dealt msg) ps h (omega arith)) (0 + length js) ds
          (omega (arith, enough)) (omega arith) ready in
      let whole : bytes_from v 0 (16 * k) ≡ msg =
        bytes_from_same v w 0 (16 * k)
          (λ i lt. code_word debug w k (dealt msg) ps h i range (omega (arith, lt)) (omega arith))
        ∙ ap (bytes_from w 0) (omega (arith, size))
        ∙ bytes_from-Reads w 0 msg bytes (word-Reads msg (omega (arith, size))) in
      rw (
        encode_bytes_base-short msg k size top,
        sent,
        new-gathering sets law v k msg size,
        arrived_chunks v n js below,
        received,
        decoded,
        whole,
      )
