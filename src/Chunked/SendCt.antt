-- ===== src/Chunked/SendCt.antt =====
-- src/v1/chunked/send_ct.rs: the party that sends a ciphertext, chunk by chunk. `KeysUnsampled` of
-- send_ek.rs stands here too, since `recv_next_epoch` returns it.
pub mod Stored
use sparse_post_quantum_ratc.Prelude.{
  ◌+◌, Bool, none, some, ◌++◌, ◌==◌, if◌then◌else◌, slice, length, Outcome, ok, ◌>>=◌, ◌>>◌, assert,
  expect,
}
use sparse_post_quantum_ratc.Types.{Bytes, Epoch, EpochSecret, Error}
use sparse_post_quantum_ratc.Wire.{Chunk}
use sparse_post_quantum_ratc.Crypto.{Crypto, Rng}
use sparse_post_quantum_ratc.Kem.{header_size, encapsulation_key_size}
use sparse_post_quantum_ratc.Authenticator.{macsize}
use sparse_post_quantum_ratc.Encoding.{Codec, infallible}
use sparse_post_quantum_ratc.Unchunked.SendCt as Unchunked

pub record KeysUnsampled : Type 0 where
  pub uc : Unchunked.KeysUnsampled

pub record NoHeaderReceived (Decoder : Type 0) : Type 0 where
  pub uc : Unchunked.NoHeaderReceived
  pub receiving_hdr : Decoder

pub record HeaderReceived (Decoder : Type 0) : Type 0 where
  pub uc : Unchunked.HeaderReceived
  pub receiving_ek : Decoder

pub record Ct1Sampled (Encoder Decoder : Type 0) : Type 0 where
  pub uc : Unchunked.Ct1Sent
  pub sending_ct1 : Encoder
  pub receiving_ek : Decoder

pub record EkReceivedCt1Sampled (Encoder : Type 0) : Type 0 where
  pub uc : Unchunked.Ct1SentEkReceived
  pub sending_ct1 : Encoder

pub record Ct1Acknowledged (Decoder : Type 0) : Type 0 where
  pub uc : Unchunked.Ct1Sent
  pub receiving_ek : Decoder

pub record Ct2Sampled (Encoder : Type 0) : Type 0 where
  pub uc : Unchunked.Ct2Sent
  pub sending_ct2 : Encoder

pub data NoHeaderReceivedRecvChunk (Decoder : Type 0) : Type 0 where
  still_receiving : NoHeaderReceived Decoder → NoHeaderReceivedRecvChunk Decoder
  done : HeaderReceived Decoder → NoHeaderReceivedRecvChunk Decoder

pub data Ct1SampledRecvChunk (Encoder Decoder : Type 0) : Type 0 where
  still_receiving_still_sending : Ct1Sampled Encoder Decoder → Ct1SampledRecvChunk Encoder Decoder
  still_receiving : Ct1Acknowledged Decoder → Ct1SampledRecvChunk Encoder Decoder
  still_sending : EkReceivedCt1Sampled Encoder → Ct1SampledRecvChunk Encoder Decoder
  done : Ct2Sampled Encoder → Ct1SampledRecvChunk Encoder Decoder

pub data Ct1AcknowledgedRecvChunk (Encoder Decoder : Type 0) : Type 0 where
  still_receiving : Ct1Acknowledged Decoder → Ct1AcknowledgedRecvChunk Encoder Decoder
  done : Ct2Sampled Encoder → Ct1AcknowledgedRecvChunk Encoder Decoder

module _ {Encoder Decoder : Type 0} (codec : Codec Encoder Decoder) (c : Crypto) where
  unfoldable pub new : Bytes → Outcome Error (NoHeaderReceived Decoder)
  new auth_key = do
    decoder ← expect (codec.new (header_size + macsize))
    uc ← Unchunked.new c auth_key
    ok (record { uc = uc; receiving_hdr = decoder })

  unfoldable pub recv_hdr_chunk :
      NoHeaderReceived Decoder → Epoch → Chunk → Outcome Error (NoHeaderReceivedRecvChunk Decoder)
  recv_hdr_chunk self epoch chunk = do
    assert (epoch == self.uc.epoch)
    receiving_hdr ← infallible (codec.add_chunk self.receiving_hdr chunk)
    decoded ← infallible (codec.decoded_message receiving_hdr)
    elim decoded [
      | some msg ↦ do
        mac ← slice msg header_size (length msg)
        hdr ← slice msg 0 header_size
        uc ← Unchunked.recv_header c self.uc epoch hdr mac
        receiving_ek ← expect (codec.new encapsulation_key_size)
        ok (done (record { uc = uc; receiving_ek = receiving_ek }))
      | none ↦ ok (still_receiving (record { uc = self.uc; receiving_hdr = receiving_hdr }))
    ]

  -- `send_ct1_chunk` of `HeaderReceived`
  unfoldable pub send_first_ct1_chunk :
      HeaderReceived Decoder
      → Rng
      → Outcome Error (Ct1Sampled Encoder Decoder × Chunk × EpochSecret)
  send_first_ct1_chunk self rng = do
    (uc, ct1, epoch_secret) ← Unchunked.send_ct1 c self.uc rng
    encoder ← expect (codec.encode_bytes ct1)
    (sending_ct1, chunk) ← infallible (codec.next_chunk encoder)
    ok (
      record { uc = uc; sending_ct1 = sending_ct1; receiving_ek = self.receiving_ek },
      chunk,
      epoch_secret,
    )

  unfoldable pub send_ct2_encoder : Bytes → Bytes → Outcome Error Encoder
  send_ct2_encoder ct2 mac = expect (codec.encode_bytes (ct2 ++ mac))

  -- `send_ct2` and the encoder of its message, as three callers have them
  unfoldable pub start_ct2 : Unchunked.Ct1SentEkReceived → Outcome Error (Ct2Sampled Encoder)
  start_ct2 received = do
    (uc, ct2, mac) ← Unchunked.send_ct2 c received
    encoder ← send_ct2_encoder ct2 mac
    ok (record { uc = uc; sending_ct2 = encoder })

  -- `recv_ek_chunk` of `Ct1Sampled`
  unfoldable pub recv_ek_chunk :
      Ct1Sampled Encoder Decoder
      → Epoch
      → Chunk
      → Bool
      → Outcome Error (Ct1SampledRecvChunk Encoder Decoder)
  recv_ek_chunk self epoch chunk ct1_ack = do
    receiving_ek ← infallible (codec.add_chunk self.receiving_ek chunk)
    decoded ← infallible (codec.decoded_message receiving_ek)
    elim decoded [
      | some msg ↦ do
        uc ← Unchunked.recv_ek c self.uc epoch msg
        if ct1_ack
            then (do s ← start_ct2 uc; ok (done s))
            else ok (still_sending (record { uc = uc; sending_ct1 = self.sending_ct1 }))
      | none ↦
          if ct1_ack
          then ok (still_receiving (record { uc = self.uc; receiving_ek = receiving_ek }))
          else ok (still_receiving_still_sending (record self { receiving_ek = receiving_ek }))
    ]

  -- `send_ct1_chunk` of `Ct1Sampled`
  unfoldable pub send_ct1_chunk :
      Ct1Sampled Encoder Decoder → Outcome Error (Ct1Sampled Encoder Decoder × Chunk)
  send_ct1_chunk self = do
    (sending_ct1, chunk) ← infallible (codec.next_chunk self.sending_ct1)
    ok (record self { sending_ct1 = sending_ct1 }, chunk)

  -- `send_ct1_chunk` of `EkReceivedCt1Sampled`
  unfoldable pub send_ct1_chunk_ek_received :
      EkReceivedCt1Sampled Encoder → Outcome Error (EkReceivedCt1Sampled Encoder × Chunk)
  send_ct1_chunk_ek_received self = do
    (sending_ct1, chunk) ← infallible (codec.next_chunk self.sending_ct1)
    ok (record self { sending_ct1 = sending_ct1 }, chunk)

  unfoldable pub recv_ct1_ack :
      EkReceivedCt1Sampled Encoder → Epoch → Outcome Error (Ct2Sampled Encoder)
  recv_ct1_ack self epoch = do assert (epoch == self.uc.epoch); start_ct2 self.uc

  -- `recv_ek_chunk` of `Ct1Acknowledged`
  unfoldable pub recv_ek_chunk_acknowledged :
      Ct1Acknowledged Decoder
      → Epoch
      → Chunk
      → Outcome Error (Ct1AcknowledgedRecvChunk Encoder Decoder)
  recv_ek_chunk_acknowledged self epoch chunk = do
    receiving_ek ← infallible (codec.add_chunk self.receiving_ek chunk)
    decoded ← infallible (codec.decoded_message receiving_ek)
    elim decoded [
      | some msg ↦ do uc ← Unchunked.recv_ek c self.uc epoch msg; s ← start_ct2 uc; ok (done s)
      | none ↦ ok (still_receiving (record { uc = self.uc; receiving_ek = receiving_ek }))
    ]

  unfoldable pub send_ct2_chunk : Ct2Sampled Encoder → Outcome Error (Ct2Sampled Encoder × Chunk)
  send_ct2_chunk self = do
    (sending_ct2, chunk) ← infallible (codec.next_chunk self.sending_ct2)
    ok (record self { sending_ct2 = sending_ct2 }, chunk)

module _ {Encoder : Type 0} where
  unfoldable pub recv_next_epoch : Ct2Sampled Encoder → Epoch → Outcome Error KeysUnsampled
  recv_next_epoch self epoch = do
    uc ← Unchunked.recv_next_epoch self.uc epoch
    ok (record { uc = uc })
