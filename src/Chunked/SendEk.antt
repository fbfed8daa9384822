-- ===== src/Chunked/SendEk.antt =====
-- src/v1/chunked/send_ek.rs: the party that sends an encapsulation key, chunk by chunk.
pub mod Stored
use sparse_post_quantum_ratc.Prelude.{
  ◌+◌, none, some, ◌++◌, ◌==◌, slice, length, Outcome, ok, ◌>>=◌, ◌>>◌, assert, expect,
}
use sparse_post_quantum_ratc.Types.{Bytes, Epoch, EpochSecret, Error}
use sparse_post_quantum_ratc.Wire.{Chunk}
use sparse_post_quantum_ratc.Crypto.{Crypto, Rng}
use sparse_post_quantum_ratc.Kem.{ciphertext1_size, ciphertext2_size, header_size}
use sparse_post_quantum_ratc.Authenticator.{macsize}
use sparse_post_quantum_ratc.Encoding.{Codec, infallible}
use sparse_post_quantum_ratc.Unchunked.SendEk as Unchunked
use sparse_post_quantum_ratc.Chunked.SendCt.{KeysUnsampled, NoHeaderReceived}

pub record KeysSampled (Encoder : Type 0) : Type 0 where
  pub uc : Unchunked.HeaderSent
  pub sending_hdr : Encoder

pub record HeaderSent (Encoder Decoder : Type 0) : Type 0 where
  pub uc : Unchunked.EkSent
  pub sending_ek : Encoder
  pub receiving_ct1 : Decoder

pub record Ct1Received (Encoder : Type 0) : Type 0 where
  pub uc : Unchunked.EkSentCt1Received
  pub sending_ek : Encoder

pub record EkSentCt1Received (Decoder : Type 0) : Type 0 where
  pub uc : Unchunked.EkSentCt1Received
  pub receiving_ct2 : Decoder

pub data HeaderSentRecvChunk (Encoder Decoder : Type 0) : Type 0 where
  still_receiving : HeaderSent Encoder Decoder → HeaderSentRecvChunk Encoder Decoder
  done : Ct1Received Encoder → HeaderSentRecvChunk Encoder Decoder

pub data EkSentCt1ReceivedRecvChunk (Decoder : Type 0) : Type 0 where
  still_receiving : EkSentCt1Received Decoder → EkSentCt1ReceivedRecvChunk Decoder
  done : NoHeaderReceived Decoder → EpochSecret → EkSentCt1ReceivedRecvChunk Decoder

module _ (c : Crypto) where
  unfoldable pub new : Bytes → Outcome Error KeysUnsampled
  new auth_key = do uc ← Unchunked.new c auth_key; ok (record { uc = uc })

module _ {Encoder Decoder : Type 0} (codec : Codec Encoder Decoder) (c : Crypto) where
  -- `send_hdr_chunk` of `KeysUnsampled`
  unfoldable pub send_first_hdr_chunk :
      KeysUnsampled → Rng → Outcome Error (KeysSampled Encoder × Chunk)
  send_first_hdr_chunk self rng = do
    let (uc, hdr, mac) = Unchunked.send_header c self.uc rng
    encoder ← expect (codec.encode_bytes (hdr ++ mac))
    (sending_hdr, chunk) ← infallible (codec.next_chunk encoder)
    ok (record { uc = uc; sending_hdr = sending_hdr }, chunk)

  -- `send_hdr_chunk` of `KeysSampled`
  unfoldable pub send_hdr_chunk : KeysSampled Encoder → Outcome Error (KeysSampled Encoder × Chunk)
  send_hdr_chunk self = do
    (sending_hdr, chunk) ← infallible (codec.next_chunk self.sending_hdr)
    ok (record self { sending_hdr = sending_hdr }, chunk)

  -- `recv_ct1_chunk` of `KeysSampled`
  unfoldable pub recv_first_ct1_chunk :
      KeysSampled Encoder → Epoch → Chunk → Outcome Error (HeaderSent Encoder Decoder)
  recv_first_ct1_chunk self epoch chunk = do
    assert (epoch == self.uc.epoch)
    decoder ← expect (codec.new ciphertext1_size)
    receiving_ct1 ← infallible (codec.add_chunk decoder chunk)
    let (uc, ek) = Unchunked.send_ek self.uc
    sending_ek ← expect (codec.encode_bytes ek)
    ok (record { uc = uc; sending_ek = sending_ek; receiving_ct1 = receiving_ct1 })

  -- `send_ek_chunk` of `HeaderSent`
  unfoldable pub send_ek_chunk :
      HeaderSent Encoder Decoder → Outcome Error (HeaderSent Encoder Decoder × Chunk)
  send_ek_chunk self = do
    (sending_ek, chunk) ← infallible (codec.next_chunk self.sending_ek)
    ok (record self { sending_ek = sending_ek }, chunk)

  unfoldable pub recv_ct1_chunk :
      HeaderSent Encoder Decoder
      → Epoch
      → Chunk
      → Outcome Error (HeaderSentRecvChunk Encoder Decoder)
  recv_ct1_chunk self epoch chunk = do
    assert (epoch == self.uc.epoch)
    receiving_ct1 ← infallible (codec.add_chunk self.receiving_ct1 chunk)
    decoded ← infallible (codec.decoded_message receiving_ct1)
    elim decoded [
      | some ct1 ↦ do
        uc ← Unchunked.recv_ct1 self.uc epoch ct1
        ok (done (record { uc = uc; sending_ek = self.sending_ek }))
      | none ↦ ok (still_receiving (record self { receiving_ct1 = receiving_ct1 }))
    ]

  -- `send_ek_chunk` of `Ct1Received`
  unfoldable pub send_ek_chunk_ct1_received :
      Ct1Received Encoder → Outcome Error (Ct1Received Encoder × Chunk)
  send_ek_chunk_ct1_received self = do
    (sending_ek, chunk) ← infallible (codec.next_chunk self.sending_ek)
    ok (record self { sending_ek = sending_ek }, chunk)

  -- `recv_ct2_chunk` of `Ct1Received`
  unfoldable pub recv_first_ct2_chunk :
      Ct1Received Encoder → Epoch → Chunk → Outcome Error (EkSentCt1Received Decoder)
  recv_first_ct2_chunk self epoch chunk = do
    assert (epoch == self.uc.epoch)
    decoder ← expect (codec.new (ciphertext2_size + macsize))
    receiving_ct2 ← infallible (codec.add_chunk decoder chunk)
    ok (record { uc = self.uc; receiving_ct2 = receiving_ct2 })

  -- `recv_ct2_chunk` of `EkSentCt1Received`
  unfoldable pub recv_ct2_chunk :
      EkSentCt1Received Decoder → Epoch → Chunk → Outcome Error (EkSentCt1ReceivedRecvChunk Decoder)
  recv_ct2_chunk self epoch chunk = do
    assert (epoch == self.uc.epoch)
    receiving_ct2 ← infallible (codec.add_chunk self.receiving_ct2 chunk)
    decoded ← infallible (codec.decoded_message receiving_ct2)
    elim decoded [
      | some msg ↦ do
        mac ← slice msg ciphertext2_size (length msg)
        ct2 ← slice msg 0 ciphertext2_size
        (uc, sec) ← Unchunked.recv_ct2 c self.uc ct2 mac
        decoder ← expect (codec.new (header_size + macsize))
        ok (done (record { uc = uc; receiving_hdr = decoder }) sec)
      | none ↦ ok (still_receiving (record self { receiving_ct2 = receiving_ct2 }))
    ]
