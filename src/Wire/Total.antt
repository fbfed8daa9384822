-- ===== src/Wire/Total.antt =====
-- The readers on any input, well formed or not: they never panic, and what they accept is bounded.
use Prim.Native.Nat.{min, bit_and, bit_or}
use native.Mathlib.Decide.{dec_lt}
use sparse_post_quantum_ratc.Prelude.{
  ℕ, zero, suc, ◌+◌, ◌-◌, ◌*◌, ◌%◌, ◌^◌, ◌≤◌, ◌<◌, ◌≡◌, refl, ◌⊎◌, inl, inr, Bool, true, false,
  List, [], ◌∷◌, ltb, leb, ◌==◌, length, length-drop, get_elem?, slice-within, drop, ok, err, arith,
  IsU32, some, Bool-cases, lt→ltb, Option-cases,
}
use sparse_post_quantum_ratc.Types.{Bytes, Epoch, Error, msg_decode}
use sparse_post_quantum_ratc.Wire.{
  Chunk, MessagePayload, Message, MsgPreamble, MessageType, none_type, hdr_type, ek_type,
  ek_ct1_ack_type, ct1_ack_type, ct1_type, ct2_type, none_payload, hdr, ek, ek_ct1_ack, ct1_ack,
  ct1, ct2, index, decode_rounds, decode_varint, decode_chunk, decode_payload, deserialize,
  msg_preamble, type_try_from,
}
use sparse_post_quantum_ratc.Wire.RoundTrip.{IsChunk, IsPayload}

pub get_elem?-within {ℓ} :
    {A : Type ℓ} (xs : List A) (i : ℕ) → i < length xs → (x : A) × (get_elem? xs i ≡ some x)
get_elem?-within [] i h = absurd (omega arith)
get_elem?-within (x ∷ xs) zero h = (x, refl)
get_elem?-within (x ∷ xs) (suc i) h = get_elem?-within xs i (omega arith)

index_within : {A : Type 0} (xs : List A) (i : ℕ) → i < length xs → (x : A) × (index xs i ≡ ok x)
index_within xs i h = let (x, e) = get_elem?-within xs i h in (x, rw (e, index))

-- The loop ends with a value and the number of bytes it read, at least one if it is done.
decode_rounds_total :
    (k start i out : ℕ) (from : Bytes)
    → start + i + k ≤ length from
    → (v : ℕ) × (j : ℕ) × (d : Bool) × (decode_rounds k from start i out ≡ ok (v, j, d))
      × (j ≤ i + k)
      × ((d ≡ false) ⊎ (i < j))
unfolding decode_rounds
decode_rounds_total zero start i out from h = (out, i, false, refl, omega arith, inl refl)
decode_rounds_total (suc k) start i out from h =
    let (b, e) = index_within from (start + i) (omega arith) in
    let out' : ℕ = bit_or out (bit_and b 0x7f * 2 ^ (7 * i) % 2 ^ 64) in
    elim (Bool-cases (bit_and b 0x80 == 0)) [
      | inl last ↦ (out', i + 1, true, rw (e, last), omega arith, inr (omega arith))
      | inr more ↦
          let (v, j, d, run, hi, lo) =
            decode_rounds_total k start (i + 1) out' from (omega arith) in
          (v, j, d, rw (e, more) run, omega arith, ground arith)
    ]

-- decode_varint never panics: it refuses, or reads at least one byte and at most ten, all within
-- the buffer.
pub decode_varint_total :
    (from : Bytes) (at : ℕ)
    → (decode_varint from at ≡ err msg_decode)
      ⊎ ((v : ℕ) × (stop : ℕ) × (decode_varint from at ≡ ok (v, stop))
          × (at < stop)
          × (stop ≤ length from)
          × (stop ≤ at + 10))
unfolding decode_varint
decode_varint_total from at = elim (dec_lt at (length from)) [
  | yes h ↦
      let rounds : ℕ = min 10 (length from - at) in
      let (v, j, d, run, hi, lo) = decode_rounds_total rounds at 0 0 from (omega arith) in
      let inside : ltb at (length from) ≡ true = lt→ltb _ _ h in
      elim (Bool-cases d) [
        | inl e ↦ inr (v, at + j, rw (inside, run, e), ground arith, omega arith, omega arith)
        | inr e ↦ inl (rw (inside, run, e))
      ]
  | no h ↦ inl (ground arith)
]

decode_chunk_total :
    (from : Bytes) (at : ℕ)
    → (decode_chunk from at ≡ err msg_decode)
      ⊎ ((c : Chunk) × (stop : ℕ) × (decode_chunk from at ≡ ok (c, stop)) × IsChunk c)
unfolding decode_chunk
decode_chunk_total from at = elim (decode_varint_total from at) [
  | inl e ↦ inl (rw e)
  | inr (i, start, e, lo, hi, few) ↦ elim (dec_lt (length from) (start + 32)) [
    | yes h ↦ inl (rw e (ground arith))
    | no h ↦
        let within : leb (start + 32) (length from) ≡ true = ground arith in
        let (bytes, s, n) =
          slice-within {E = Error} from start (start + 32) (omega arith) (omega arith) in
        elim (dec_lt 65535 i) [
          | yes big ↦ inl (rw (e, within) (ground arith))
          | no small ↦
              let fits : leb i 65535 ≡ true = ground arith in
              inr (
                record { index = i; data_bytes = bytes },
                start + 32,
                rw (e, within, fits, s),
                omega arith,
              )
        ]
  ]
]

-- What `deserialize` accepts has the given epoch and a payload that the protocol sends.
abbrev pub Deserialized : Epoch → Bytes → Type 0
Deserialized epoch from =
    (deserialize epoch from ≡ err msg_decode)
    ⊎ ((m : Message) × (deserialize epoch from ≡ ok m) × (m.epoch ≡ epoch) × IsPayload m.payload)

decode_payload_total :
    (t : MessageType) (from : Bytes)
    → (decode_payload t from ≡ err msg_decode)
      ⊎ ((p : MessagePayload) × (decode_payload t from ≡ ok p) × IsPayload p)
decode_payload_total none_type from = inr (none_payload, refl, tt)
decode_payload_total ct1_ack_type from = inr (ct1_ack true, refl, refl)
decode_payload_total hdr_type from = elim (decode_chunk_total from 1) [
  | inl e ↦ inl (rw e)
  | inr (c, stop, e, h) ↦ inr (hdr c, rw e, h)
]
decode_payload_total ek_type from = elim (decode_chunk_total from 1) [
  | inl e ↦ inl (rw e)
  | inr (c, stop, e, h) ↦ inr (ek c, rw e, h)
]
decode_payload_total ek_ct1_ack_type from = elim (decode_chunk_total from 1) [
  | inl e ↦ inl (rw e)
  | inr (c, stop, e, h) ↦ inr (ek_ct1_ack c, rw e, h)
]
decode_payload_total ct1_type from = elim (decode_chunk_total from 1) [
  | inl e ↦ inl (rw e)
  | inr (c, stop, e, h) ↦ inr (ct1 c, rw e, h)
]
decode_payload_total ct2_type from = elim (decode_chunk_total from 1) [
  | inl e ↦ inl (rw e)
  | inr (c, stop, e, h) ↦ inr (ct2 c, rw e, h)
]

-- On any bytes deserialize answers the error MsgDecode or a message with the epoch that it was
-- given, whose chunk has an index of 16 bits and 32 bytes of data, and whose acknowledgement is
-- true.
pub deserialize_total : (epoch : Epoch) (from : Bytes) → Deserialized epoch from
unfolding deserialize
deserialize_total epoch [] = inl refl
deserialize_total epoch (b ∷ bs) = elim (Option-cases (type_try_from b)) [
  | inl e ↦ inl (rw e)
  | inr (t, e) ↦ elim (decode_payload_total t (b ∷ bs)) [
    | inl f ↦ inl (rw (e, f))
    | inr (p, f, h) ↦ inr (record { epoch = epoch; payload = p }, rw (e, f), refl, h)
  ]
]

-- What `msg_preamble` accepts of a message that is not empty: the first byte as the version, a
-- non-zero epoch, a 32-bit index, and a proper tail of the message.
abbrev pub HasPreamble : ℕ → Bytes → Type 0
HasPreamble b bs =
    (msg_preamble (b ∷ bs) ≡ err msg_decode)
    ⊎ ((p : MsgPreamble) × (msg_preamble (b ∷ bs) ≡ ok p)
        × (p.version ≡ b)
        × (0 < p.epoch)
        × IsU32 p.index
        × (length p.remaining + 2 ≤ length bs))

-- On any message that is not empty msg_preamble answers the error MsgDecode or a preamble whose
-- version is the first byte, whose epoch is not zero, whose index fits 32 bits, and whose
-- remaining bytes are shorter than the message by the version and two varints at least.
pub msg_preamble_total : (b : ℕ) (bs : Bytes) → HasPreamble b bs
unfolding msg_preamble
msg_preamble_total b bs = elim (decode_varint_total (b ∷ bs) 1) [
  | inl e ↦ inl (rw e)
  | inr (epoch, at, e, lo, hi, few) ↦ elim (dec_lt 0 epoch) [
    | no z ↦ inl (rw e (ground arith))
    | yes pos ↦
        let nonzero : (epoch == 0) ≡ false = ground arith in
        elim (decode_varint_total (b ∷ bs) at) [
          | inl f ↦ inl (rw (e, nonzero, f))
          | inr (i, at', f, lo', hi', few') ↦ elim (dec_lt i (2 ^ 32)) [
            | no z ↦
                let big : ltb i (2 ^ 32) ≡ false = ground arith in inl (rw (e, nonzero, f, big))
            | yes small ↦
                let fits : ltb i (2 ^ 32) ≡ true = lt→ltb _ _ small in
                let within : leb at' (length (b ∷ bs)) ≡ true = ground arith in
                inr (
                  record { version = b; epoch = epoch; index = i; remaining = drop at' (b ∷ bs) },
                  rw (e, nonzero, f, fits, within),
                  refl,
                  pos,
                  small,
                  omega (arith, length-drop at' (b ∷ bs)),
                )
          ]
        ]
  ]
]
