-- ===== src/Wire.antt =====
-- The bytes of a message: src/lib.rs (varints and the preamble) and
-- src/v1/chunked/states/serialize.rs (message types, chunks, messages).
-- A position in a buffer is a usize that stays within one allocation, so `+` on positions cannot
-- overflow and is plain addition. The proofs are in the modules below.
pub mod Varint
pub mod RoundTrip
pub mod Total
use Prim.Native.Nat.{bit_and, bit_or, min}
use sparse_post_quantum_ratc.Prelude.{
  ℕ, zero, suc, ◌+◌, ◌-◌, ◌*◌, ◌/◌, ◌%◌, ◌^◌, Bool, true, false, Option, none, some, List, [], ◌∷◌,
  ◌++◌, ltb, leb, ◌==◌, if◌then◌else◌, length, get_elem?, drop, is_empty, slice, Outcome, ok, err,
  panic, ◌>>=◌, ◌>>◌, guard, ok_or,
}
use sparse_post_quantum_ratc.Types.{Bytes, Epoch, Error, msg_decode, v1, u8_of_version}

-- `xs[i]`, which panics out of range.
abbrev pub index {ℓ} : {A : Type ℓ} → List A → ℕ → Outcome Error A
index xs i = elim (get_elem? xs i) [ none ↦ panic | some x ↦ ok x ]

abbrev pub max_varint_bytes_len : ℕ
max_varint_bytes_len = 10

-- The `for` loop of `encode_varint`, by the rounds left.
unfoldable pub encode_rounds : ℕ → ℕ → Bytes → Bytes
encode_rounds zero a into = into
encode_rounds (suc rounds) a into =
    let byte = bit_and a 0x7f % 256 in
    let rest = encode_rounds rounds (a / 2 ^ 7) (into ++ bit_or 0x80 byte ∷ []) in
    if ltb a 0x80 then into ++ byte ∷ [] else rest

unfoldable pub encode_varint : ℕ → Bytes → Bytes
encode_varint a into = encode_rounds max_varint_bytes_len a into

-- The `while` loop of `decode_varint`, by the rounds left: the value, the bytes read, `done`.
unfoldable pub decode_rounds : ℕ → Bytes → ℕ → ℕ → ℕ → Outcome Error (ℕ × ℕ × Bool)
decode_rounds zero from start_at i out = ok (out, i, false)
decode_rounds (suc rounds) from start_at i out = do
  byte ← index from (start_at + i)
  let out' = bit_or out (bit_and byte 0x7f * 2 ^ (7 * i) % 2 ^ 64)
  let rest = decode_rounds rounds from start_at (i + 1) out'
  if bit_and byte 0x80 == 0 then ok (out', i + 1, true) else rest

-- The value, and the position behind it.
unfoldable pub decode_varint : Bytes → ℕ → Outcome Error (ℕ × ℕ)
decode_varint from at = do
  guard (ltb at (length from)) msg_decode
  (out, i, done) ← decode_rounds (min max_varint_bytes_len (length from - at)) from at 0 0
  if done then ok (out, at + i) else err msg_decode

pub record Chunk : Type 0 where
  pub index : ℕ
  pub data_bytes : Bytes

pub data MessagePayload : Type 0 where
  none_payload : MessagePayload
  hdr ek ek_ct1_ack : Chunk → MessagePayload
  ct1_ack : Bool → MessagePayload
  ct1 ct2 : Chunk → MessagePayload

pub record Message : Type 0 where
  pub epoch : Epoch
  pub payload : MessagePayload

pub data MessageType : Type 0 where
  none_type hdr_type ek_type ek_ct1_ack_type ct1_ack_type ct1_type ct2_type : MessageType

abbrev pub u8_of_type : MessageType → ℕ
u8_of_type none_type = 0
u8_of_type hdr_type = 1
u8_of_type ek_type = 2
u8_of_type ek_ct1_ack_type = 3
u8_of_type ct1_ack_type = 4
u8_of_type ct1_type = 5
u8_of_type ct2_type = 6

unfoldable pub type_try_from : ℕ → Option MessageType
type_try_from value =
    if value == 0
    then some none_type
    else if value == 1
    then some hdr_type
    else if value == 2
    then some ek_type
    else if value == 3
    then some ek_ct1_ack_type
    else if value == 4
    then some ct1_ack_type
    else if value == 5
    then some ct1_type
    else if value == 6
    then some ct2_type
    else none

abbrev pub from_payload : MessagePayload → MessageType
from_payload none_payload = none_type
from_payload (hdr _) = hdr_type
from_payload (ek _) = ek_type
from_payload (ek_ct1_ack _) = ek_ct1_ack_type
from_payload (ct1_ack _) = ct1_ack_type
from_payload (ct1 _) = ct1_type
from_payload (ct2 _) = ct2_type

unfoldable pub encode_chunk : Chunk → Bytes → Bytes
encode_chunk c into = encode_varint c.index into ++ c.data_bytes

unfoldable pub decode_chunk : Bytes → ℕ → Outcome Error (Chunk × ℕ)
decode_chunk from at = do
  (i, start) ← decode_varint from at
  let stop = start + 32
  guard (leb stop (length from)) msg_decode
  guard (leb i 65535) msg_decode
  bytes ← slice from start stop
  ok (record { index = i; data_bytes = bytes }, stop)

-- The part behind the message type: the chunk, if the payload carries one.
abbrev pub encode_payload : MessagePayload → Bytes → Bytes
encode_payload (hdr chunk) into = encode_chunk chunk into
encode_payload (ek chunk) into = encode_chunk chunk into
encode_payload (ek_ct1_ack chunk) into = encode_chunk chunk into
encode_payload (ct1 chunk) into = encode_chunk chunk into
encode_payload (ct2 chunk) into = encode_chunk chunk into
encode_payload none_payload into = into
encode_payload (ct1_ack _) into = into

unfoldable pub serialize : Message → ℕ → Bytes
serialize m i =
    let into = encode_varint i (encode_varint m.epoch (u8_of_version v1 ∷ [])) in
    encode_payload m.payload (into ++ u8_of_type (from_payload m.payload) ∷ [])

abbrev pub decode_payload : MessageType → Bytes → Outcome Error MessagePayload
decode_payload none_type from = ok none_payload
decode_payload ct1_ack_type from = ok (ct1_ack true)
decode_payload hdr_type from = do (c, _) ← decode_chunk from 1; ok (hdr c)
decode_payload ek_type from = do (c, _) ← decode_chunk from 1; ok (ek c)
decode_payload ek_ct1_ack_type from = do (c, _) ← decode_chunk from 1; ok (ek_ct1_ack c)
decode_payload ct1_type from = do (c, _) ← decode_chunk from 1; ok (ct1 c)
decode_payload ct2_type from = do (c, _) ← decode_chunk from 1; ok (ct2 c)

unfoldable pub deserialize : Epoch → Bytes → Outcome Error Message
deserialize epoch [] = err msg_decode
deserialize epoch (b ∷ bs) = do
  msg_type ← ok_or (type_try_from b) msg_decode
  payload ← decode_payload msg_type (b ∷ bs)
  ok (record { epoch = epoch; payload = payload })

pub record MsgPreamble : Type 0 where
  pub version : ℕ
  pub epoch : Epoch
  pub index : ℕ
  pub remaining : Bytes

unfoldable pub msg_preamble : Bytes → Outcome Error MsgPreamble
msg_preamble [] = ok (record { version = 0; epoch = 0; index = 0; remaining = [] })
msg_preamble (version ∷ bs) = do
  let msg = version ∷ bs
  (epoch, at) ← decode_varint msg 1
  if epoch == 0 then err msg_decode else do
    (i, at') ← decode_varint msg at
    guard (ltb i (2 ^ 32)) msg_decode
    guard (leb at' (length msg)) msg_decode
    ok (record { version = version; epoch = epoch; index = i; remaining = drop at' msg })
