-- ===== src/Encoding/Polynomial/Transfer.antt =====
-- A message through the codec of src/encoding/polynomial.rs: the encoder's chunks in order, as far as
-- the decoder needs them.
use sparse_post_quantum_ratc.Prelude.{
  ℕ, zero, suc, ◌+◌, ◌*◌, ◌/◌, ◌%◌, ◌^◌, ◌≤◌, ◌≡◌, refl, sym, ap, subst, true, ◌==◌, ◌∙◌, List, [],
  ◌∷◌, Option, some, All, length, replicate, ltb, false, Outcome, ok, ◌>>=◌, arith, IsU8, IsU16,
  Bool,
}
use sparse_post_quantum_ratc.Types.{Bytes, EncodingError}
use sparse_post_quantum_ratc.Encoding.Polynomial.{from_be_bytes16}
use sparse_post_quantum_ratc.Encoding.Polynomial.Encoder.{
  Point, PolyEncoder, points, deal, encode_bytes_base, next_chunk,
}
use sparse_post_quantum_ratc.Encoding.Polynomial.Decoder.{
  SortedSet, PolyDecoder, new, add_chunk, decoded_message,
}
use sparse_post_quantum_ratc.Encoding.Polynomial.Columns.{
  Reads, Columns, deal-Columns, empty-Columns, next_chunk-words, bytes_from,
}
use sparse_post_quantum_ratc.Encoding.Polynomial.Points.{IsSortedSet, AreFilled, new-AreFilled}
use sparse_post_quantum_ratc.Encoding.Polynomial.Points.Rounds.{
  collecting, add_chunk-AreFilled, decoded_message-filled,
}

-- Word `i` of a message.
abbrev pub word : Bytes → ℕ → ℕ
word [] i = 0
word (a ∷ []) i = 0
word (a ∷ b ∷ msg) zero = from_be_bytes16 a b
word (a ∷ b ∷ msg) (suc i) = word msg i

pub word-IsU16 : (msg : Bytes) (i : ℕ) → All IsU8 msg → IsU16 (word msg i)
word-IsU16 [] i h = omega arith
word-IsU16 (a ∷ []) i h = omega arith
word-IsU16 (a ∷ b ∷ msg) zero h = omega (arith, h.0, h.1.0)
word-IsU16 (a ∷ b ∷ msg) (suc i) h = word-IsU16 msg i h.1.1

shifted-Reads :
    (w v : ℕ → ℕ) (m n : ℕ) (msg : Bytes)
    → ((j : ℕ) → w (m + j) ≡ v (n + j))
    → Reads v n msg
    → Reads w m msg
shifted-Reads w v m n [] same h = h
shifted-Reads w v m n (a ∷ []) same h = h
shifted-Reads w v m n (a ∷ b ∷ msg) same h =
    (h.0 ∙ sym (at same), shifted-Reads w v (suc m) (suc n) msg (λ j. next j) h.1)
  where
    move : (i i' j j' : ℕ) → i ≡ i' → j ≡ j' → w i' ≡ v j' → w i ≡ v j
    move i i' j j' e f h = ap w e ∙ h ∙ sym (ap v f)

    at : ((j : ℕ) → w (m + j) ≡ v (n + j)) → w m ≡ v n
    at same = move m (m + 0) n (n + 0) (omega arith) (omega arith) (same 0)

    next : (j : ℕ) → w (suc m + j) ≡ v (suc n + j)
    next j =
        move (suc m + j) (m + suc j) (suc n + j) (n + suc j) (omega arith) (omega arith)
          (same (suc j))

pub word-Reads : (msg : Bytes) → length msg % 2 ≡ 0 → Reads (word msg) 0 msg
word-Reads [] even = tt
word-Reads (a ∷ []) even = absurd (omega (arith, even))
word-Reads (a ∷ b ∷ msg) even = (
  refl,
  shifted-Reads (word (a ∷ b ∷ msg)) (word msg) 1 0 msg
      (λ j. let e : 1 + j ≡ suc j = omega arith in let f : 0 + j ≡ j = omega arith in rw (e, f))
      (word-Reads msg (omega (arith, even))),
)

pub bytes_from-Reads :
    (w : ℕ → ℕ) (m : ℕ) (msg : Bytes)
    → All IsU8 msg
    → Reads w m msg
    → bytes_from w m (length msg / 2) ≡ msg
bytes_from-Reads w m [] bytes h = refl
bytes_from-Reads w m (a ∷ []) bytes h = absurd h
bytes_from-Reads w m (a ∷ b ∷ msg) bytes h =
    let half : suc (suc (length msg)) / 2 ≡ suc (length msg / 2) = omega arith in
    let high : w m / 2 ^ 8 % 2 ^ 8 ≡ a = omega (arith, h.0, bytes.0, bytes.1.0) in
    let low : w m % 2 ^ 8 ≡ b = omega (arith, h.0, bytes.0, bytes.1.0) in
    rw (half, high, low, bytes_from-Reads w (suc m) msg bytes.1.1 h.1)

-- The next `n` chunks of the encoder, given to the decoder.
unfoldable pub relay :
    {Set : Type 0}
    → SortedSet Set
    → Bool
    → ℕ
    → PolyEncoder
    → PolyDecoder Set
    → Outcome EncodingError (PolyDecoder Set)
relay sets debug zero encoder decoder = ok decoder
relay sets debug (suc n) encoder decoder = do
  (encoder', chunk) ← next_chunk debug encoder
  decoder' ← add_chunk sets decoder chunk
  relay sets debug n encoder' decoder'

-- What a new decoder gives after the first `n` chunks of a message.
unfoldable pub transfer :
    {Set : Type 0} → SortedSet Set → Bool → ℕ → Bytes → Outcome EncodingError (Option Bytes)
unfolding relay
transfer sets debug n msg = do
  encoder ← encode_bytes_base msg
  decoder ← new sets (length msg)
  received ← relay sets debug n encoder decoder
  decoded_message sets received

module _ {Set : Type 0} (sets : SortedSet Set) (law : IsSortedSet sets) (w : ℕ → ℕ) where
  relay-AreFilled :
      (debug : Bool) (n k j : ℕ) (pts : List Point) (ds : List Set)
      → ((i : ℕ) → IsU16 (w i))
      → k ≤ 2 ^ 15
      → j + n ≤ k
      → Columns w (16 * k) pts
      → AreFilled sets law w (j * 16) ds
      → (ds' : List Set) × (relay sets debug n
            (record { idx = j; s = points pts })
            (collecting sets law w k ds)
          ≡ ok (collecting sets law w k ds'))
        × AreFilled sets law w ((j + n) * 16) ds'
  unfolding relay
  relay-AreFilled debug zero k j pts ds range top le columns filled =
      (ds, refl, subst (λ t. AreFilled sets law w t ds) (omega arith) filled)
  relay-AreFilled debug (suc n) k j pts ds range top le columns filled =
      let sent = next_chunk-words w debug j (16 * k) pts columns (omega arith) (omega arith) in
      let (ds', got, filled') =
        add_chunk-AreFilled sets law w k j ds range (omega arith) (omega arith) filled in
      let e : suc j * 16 ≡ (j + 1) * 16 = omega arith in
      let (out, ran, done) =
        relay-AreFilled debug n k (j + 1) pts ds' range top (omega arith) columns
          (subst (λ t. AreFilled sets law w t ds') e filled') in
      (out, rw (sent, got) ran, subst (λ t. AreFilled sets law w t out) (omega arith) done)

abbrev pub dealt : Bytes → List Point
dealt msg = deal 0 msg (replicate 16 (record { value = [] }))

pub encode_bytes_base-short :
    (msg : Bytes) (k : ℕ)
    → length msg ≡ 32 * k
    → k ≤ 2 ^ 15
    → encode_bytes_base msg ≡ ok (record { idx = 0; s = points (dealt msg) })
unfolding encode_bytes_base
encode_bytes_base-short msg k size top =
    let even : (length msg % 2 == 0) ≡ true = ground (arith, size) in
    let short : ltb (2 ^ 20) (length msg) ≡ false = ground (arith, size) in rw (even, short)

module _ {Set : Type 0} (sets : SortedSet Set) (law : IsSortedSet sets) where
  new-collecting :
      (w : ℕ → ℕ) (msg : Bytes) (k : ℕ)
      → length msg ≡ 32 * k
      → new sets (length msg) ≡ ok (collecting sets law w k (replicate 16 sets.new))
  unfolding new
  new-collecting w msg k size =
      let even : (length msg % 2 == 0) ≡ true = ground (arith, size) in
      let half : length msg / 2 ≡ 16 * k = omega (arith, size) in rw (even, half)

  -- A message of bytes whose length is 32 times a number k, of 2^15 at most, is encoded without
  -- error, and a new decoder for its length that gets the encoder's first k chunks in order gives
  -- the message, without error or panic. The sets of points of the decoder are any that keep one
  -- value for each place and give it back when it is looked up.
  pub transfer_lem :
      (debug : Bool) (msg : Bytes) (k : ℕ)
      → All IsU8 msg
      → length msg ≡ 32 * k
      → k ≤ 2 ^ 15
      → transfer sets debug k msg ≡ ok (some msg)
  unfolding transfer
  transfer_lem debug msg k bytes size top =
      let w = word msg in
      let columns : Columns w (16 * k) (dealt msg) =
        subst (λ t. Columns w t (dealt msg)) (omega (arith, size))
          (deal-Columns w msg 0 (replicate 16 (record { value = [] }))
            (word-Reads msg (omega (arith, size))) (empty-Columns w)) in
      let (out, ran, filled) =
        relay-AreFilled sets law w debug k k 0 (dealt msg) (replicate 16 sets.new)
          (λ i. word-IsU16 msg i bytes) top (omega arith) columns (new-AreFilled sets law w) in
      let whole : bytes_from w 0 (16 * k) ≡ msg =
        ap (bytes_from w 0) (omega (arith, size))
        ∙ bytes_from-Reads w 0 msg bytes (word-Reads msg (omega (arith, size))) in
      let decoded =
        decoded_message-filled sets law w k out (omega arith)
          (subst (λ t. AreFilled sets law w t out) (omega arith) filled) in
      rw (encode_bytes_base-short msg k size top, new-collecting w msg k size, ran, decoded, whole)
