-- ===== src/Tests/Wire.antt =====
-- Runs of src/v1/chunked/states/serialize.rs and of the preamble of src/lib.rs.
use sparse_post_quantum_ratc.Prelude.{
  ℕ, ◌+◌, ◌≤◌, ◌<◌, ◌≡◌, ◌⊎◌, refl, [], ◌∷◌, ◌++◌, replicate, length, ok, err, arith,
}
use sparse_post_quantum_ratc.Types.{Bytes, msg_decode}
use sparse_post_quantum_ratc.Wire.{
  Message, MsgPreamble, ct1, serialize, deserialize, msg_preamble, decode_varint,
}
use sparse_post_quantum_ratc.Wire.RoundTrip.{deserialize-serialize}
use sparse_post_quantum_ratc.Wire.Total.{
  Deserialized, HasPreamble, decode_varint_total, deserialize_total, msg_preamble_total,
}

abbrev a_message : Message
a_message = record {
  epoch = 300;
  payload = ct1 (record { index = 200; data_bytes = replicate 32 5 });
}

deserialize-serialize_example :
    (p : MsgPreamble) × (msg_preamble (serialize a_message 1000 ++ 9 ∷ []) ≡ ok p)
    × (p.version ≡ 1)
    × (p.epoch ≡ 300)
    × (p.index ≡ 1000)
    × (deserialize p.epoch p.remaining ≡ ok a_message)
deserialize-serialize_example =
    deserialize-serialize a_message 1000 (9 ∷ []) (omega arith) (omega arith)
      (record { small_index = omega arith; whole = refl }) (omega arith)

-- A varint of two bytes behind the first byte.
abbrev two_bytes : Bytes
two_bytes = 1 ∷ 172 ∷ 2 ∷ []

decode_varint_total_example :
    (decode_varint two_bytes 1 ≡ err msg_decode)
    ⊎ ((v : ℕ) × (stop : ℕ) × (decode_varint two_bytes 1 ≡ ok (v, stop))
        × (1 < stop)
        × (stop ≤ length two_bytes)
        × (stop ≤ 1 + 10))
decode_varint_total_example = decode_varint_total two_bytes 1

deserialize_total_example : Deserialized 3 (5 ∷ 7 ∷ replicate 32 1)
deserialize_total_example = deserialize_total 3 (5 ∷ 7 ∷ replicate 32 1)

msg_preamble_total_example : HasPreamble 1 (172 ∷ 2 ∷ 9 ∷ 0 ∷ [])
msg_preamble_total_example = msg_preamble_total 1 (172 ∷ 2 ∷ 9 ∷ 0 ∷ [])
