-- ===== src/Wire/RoundTrip.antt =====
-- A message that is serialized is read back, whatever bytes follow it.
use mathlib.Core.List.{append_assoc}
use sparse_post_quantum_ratc.Prelude.{
  ℕ, ◌+◌, ◌^◌, ◌≤◌, ◌<◌, ◌≡◌, refl, ap, ◌∙◌, true, false, [], ◌∷◌, ◌++◌, ltb, leb, length,
  length-append, slice, slice-middle, drop, drop-append, ok, arith, IsU32, IsU64, some, ◌==◌, false,
}
use sparse_post_quantum_ratc.Types.{Bytes, Error}
use sparse_post_quantum_ratc.Wire.{
  Chunk, MessagePayload, none_payload, hdr, ek, ek_ct1_ack, ct1_ack, ct1, ct2, Message, MsgPreamble,
  u8_of_type, from_payload, type_try_from, encode_chunk, decode_chunk, serialize, deserialize,
  msg_preamble, decode_varint, decode_payload,
}
use sparse_post_quantum_ratc.Wire.Varint.{groups, encode_varint-groups, decode_varint-groups}

pub record IsChunk (c : Chunk) : Type 0 where
  pub small_index : c.index ≤ 65535
  pub whole : length c.data_bytes ≡ 32

-- The payloads that the protocol sends: `ct1_ack` is only ever sent with `true`.
abbrev pub IsPayload : MessagePayload → Type 0
IsPayload none_payload = Unit {0}
IsPayload (hdr c) = IsChunk c
IsPayload (ek c) = IsChunk c
IsPayload (ek_ct1_ack c) = IsChunk c
IsPayload (ct1_ack b) = b ≡ true
IsPayload (ct1 c) = IsChunk c
IsPayload (ct2 c) = IsChunk c

abbrev chunk_bytes : Chunk → Bytes
chunk_bytes c = groups 10 c.index ++ c.data_bytes

abbrev payload_bytes : MessagePayload → Bytes
payload_bytes none_payload = []
payload_bytes (hdr c) = chunk_bytes c
payload_bytes (ek c) = chunk_bytes c
payload_bytes (ek_ct1_ack c) = chunk_bytes c
payload_bytes (ct1_ack b) = []
payload_bytes (ct1 c) = chunk_bytes c
payload_bytes (ct2 c) = chunk_bytes c

decode_chunk-bytes :
    (c : Chunk) (from front rest : Bytes) (at : ℕ)
    → IsChunk c
    → from ≡ front ++ (chunk_bytes c ++ rest)
    → length front ≡ at
    → decode_chunk from at ≡ ok (c, at + length (chunk_bytes c))
unfolding decode_chunk
decode_chunk-bytes c from front rest at h e p =
    let code : Bytes = groups 10 c.index in
    let start : ℕ = at + length code in
    let parts : from ≡ front ++ (code ++ (c.data_bytes ++ rest)) =
      e ∙ ap (λ t. front ++ t) (append_assoc code c.data_bytes rest) in
    let number : decode_varint from at ≡ ok (c.index, start) =
      rw (← p)
        (decode_varint-groups c.index from front (c.data_bytes ++ rest) (omega arith) parts) in
    let bytes : slice {E = Error} from start (start + 32) ≡ ok c.data_bytes =
      rw (parts, ← append_assoc front code (c.data_bytes ++ rest))
        (slice-middle (front ++ code) c.data_bytes rest start (start + 32)
          (omega (arith, length-append front code)) (omega arith)) in
    let size : length from ≡ start + (32 + length rest) = rw parts (
      length-append front _
      ∙ omega
          (arith, length-append code (c.data_bytes ++ rest), length-append c.data_bytes rest)) in
    let within : leb (start + 32) (length from) ≡ true = ground arith in
    let small : leb c.index 65535 ≡ true = ground arith in
    rw (number, within, small, bytes) (ground (arith, length-append code c.data_bytes))

ruleset part_laws = (encode_varint-groups, append_assoc)

-- The bytes of a message and of what follows it, one part after the other.
serialize-parts :
    (m : Message) (i : ℕ) (rest : Bytes)
    → serialize m i ++ rest
      ≡ 1
        ∷ (groups 10 m.epoch
            ++ (groups 10 i
                ++ u8_of_type (from_payload m.payload) ∷ (payload_bytes m.payload ++ rest)))
unfolding serialize encode_chunk
serialize-parts m i rest =
    elim m.payload
      as (λ p.
        serialize (record m { payload = p }) i ++ rest
        ≡ 1
          ∷ (groups 10 m.epoch
              ++ (groups 10 i ++ u8_of_type (from_payload p) ∷ (payload_bytes p ++ rest)))) [
                | none_payload ↦ simp part_laws
                | hdr c ↦ simp part_laws
                | ek c ↦ simp part_laws
                | ek_ct1_ack c ↦ simp part_laws
                | ct1_ack b ↦ simp part_laws
                | ct1 c ↦ simp part_laws
                | ct2 c ↦ simp part_laws
              ]

type_try_from-from_payload :
    (p : MessagePayload) → type_try_from (u8_of_type (from_payload p)) ≡ some (from_payload p)
unfolding type_try_from
type_try_from-from_payload none_payload = refl
type_try_from-from_payload (hdr c) = refl
type_try_from-from_payload (ek c) = refl
type_try_from-from_payload (ek_ct1_ack c) = refl
type_try_from-from_payload (ct1_ack b) = refl
type_try_from-from_payload (ct1 c) = refl
type_try_from-from_payload (ct2 c) = refl

decode_payload-bytes :
    (p : MessagePayload) (rest : Bytes)
    → IsPayload p
    → decode_payload (from_payload p) (u8_of_type (from_payload p) ∷ (payload_bytes p ++ rest))
      ≡ ok p
decode_payload-bytes none_payload rest h = refl
decode_payload-bytes (ct1_ack b) rest h = rw h
decode_payload-bytes (hdr c) rest h = rw (decode_chunk-bytes c _ (1 ∷ []) rest 1 h refl refl)
decode_payload-bytes (ek c) rest h = rw (decode_chunk-bytes c _ (2 ∷ []) rest 1 h refl refl)
decode_payload-bytes (ek_ct1_ack c) rest h = rw (decode_chunk-bytes c _ (3 ∷ []) rest 1 h refl refl)
decode_payload-bytes (ct1 c) rest h = rw (decode_chunk-bytes c _ (5 ∷ []) rest 1 h refl refl)
decode_payload-bytes (ct2 c) rest h = rw (decode_chunk-bytes c _ (6 ∷ []) rest 1 h refl refl)

deserialize-bytes :
    (m : Message) (rest : Bytes)
    → IsPayload m.payload
    → deserialize m.epoch (u8_of_type (from_payload m.payload) ∷ (payload_bytes m.payload ++ rest))
      ≡ ok m
unfolding deserialize
deserialize-bytes m rest h =
    rw (type_try_from-from_payload m.payload, decode_payload-bytes m.payload rest h)

msg_preamble-bytes :
    (epoch i : ℕ) (rest : Bytes)
    → 0 < epoch
    → IsU64 epoch
    → IsU32 i
    → msg_preamble (1 ∷ (groups 10 epoch ++ (groups 10 i ++ rest)))
      ≡ ok (record { version = 1; epoch = epoch; index = i; remaining = rest })
unfolding msg_preamble
msg_preamble-bytes epoch i rest pos he hi =
    let a : Bytes = groups 10 epoch in
    let b : Bytes = groups 10 i in
    let msg : Bytes = 1 ∷ (a ++ (b ++ rest)) in
    let first : decode_varint msg 1 ≡ ok (epoch, 1 + length a) =
      decode_varint-groups epoch msg (1 ∷ []) (b ++ rest) he refl in
    let front : length (1 ∷ a) ≡ 1 + length a = omega arith in
    let second : decode_varint msg (1 + length a) ≡ ok (i, 1 + length a + length b) =
      rw (← front) (decode_varint-groups i msg (1 ∷ a) rest (omega arith) refl) in
    let size : length msg ≡ 1 + length a + length b + length rest =
      omega (arith, length-append a (b ++ rest), length-append b rest) in
    let behind : drop (1 + length a + length b) msg ≡ rest =
      rw (← append_assoc a b rest)
        (drop-append _ (1 ∷ (a ++ b)) rest (omega (arith, length-append a b))) in
    let nonzero : (epoch == 0) ≡ false = ground arith in
    let small : ltb i (2 ^ 32) ≡ true = ground arith in
    let within : leb (1 + length a + length b) (length msg) ≡ true = ground arith in
    rw (first, nonzero, second, small, within, behind)

-- A message with a non-zero epoch of 64 bits and a payload that the protocol sends, serialized
-- with a chain index of 32 bits and followed by any bytes, has a preamble with version 1, its
-- epoch and its index, and the bytes behind the preamble deserialize to the message.
pub deserialize-serialize :
    (m : Message) (i : ℕ) (rest : Bytes)
    → 0 < m.epoch
    → IsU64 m.epoch
    → IsPayload m.payload
    → IsU32 i
    → (p : MsgPreamble) × (msg_preamble (serialize m i ++ rest) ≡ ok p)
      × (p.version ≡ 1)
      × (p.epoch ≡ m.epoch)
      × (p.index ≡ i)
      × (deserialize p.epoch p.remaining ≡ ok m)
deserialize-serialize m i rest pos he hp hi = (
  record {
    version = 1;
    epoch = m.epoch;
    index = i;
    remaining = u8_of_type (from_payload m.payload) ∷ (payload_bytes m.payload ++ rest);
  },
  rw serialize-parts (msg_preamble-bytes m.epoch i _ pos he hi),
  refl,
  refl,
  refl,
  deserialize-bytes m rest hp,
)
