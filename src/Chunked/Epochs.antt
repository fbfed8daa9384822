-- ===== src/Chunked/Epochs.antt =====
-- The epochs of the states of src/v1/chunked/send_ek.rs and send_ct.rs, over the calls that take chunks.
use sparse_post_quantum_ratc.Prelude.{
  ◌+◌, ◌≡◌, ◌∙◌, ◌>>=◌, Bool, Outcome, Ensures, Ensures-ok, Ensures-bind, Ensures-bind_option,
  Ensures-either, Ensures-then,
}
use sparse_post_quantum_ratc.Types.{Epoch, Error}
use sparse_post_quantum_ratc.Wire.{Chunk}
use sparse_post_quantum_ratc.Crypto.{Crypto, Rng}
use sparse_post_quantum_ratc.Encoding.{Codec}
use sparse_post_quantum_ratc.Chunked.SendEk
use sparse_post_quantum_ratc.Chunked.SendCt
use sparse_post_quantum_ratc.Unchunked.SendEk as UncEk
use sparse_post_quantum_ratc.Unchunked.SendCt as UncCt
use sparse_post_quantum_ratc.Unchunked.Epochs.{
  recv_ct1-then, recv_ct2-then, recv_header-then, send_ct1-then, recv_ek-then, send_ct2-then,
  recv_next_epoch-then,
}

module _ {Decoder : Type 0} where
  abbrev pub EkSentAt : Epoch → SendEk.EkSentCt1ReceivedRecvChunk Decoder → Type 0
  EkSentAt e (SendEk.EkSentCt1ReceivedRecvChunk.still_receiving s) = s.uc.epoch ≡ e
  EkSentAt e (SendEk.EkSentCt1ReceivedRecvChunk.done s sec) = (s.uc.epoch ≡ e + 1) × (sec.epoch ≡ e)

  abbrev pub NoHeaderAt : Epoch → SendCt.NoHeaderReceivedRecvChunk Decoder → Type 0
  NoHeaderAt e (SendCt.NoHeaderReceivedRecvChunk.still_receiving s) = s.uc.epoch ≡ e
  NoHeaderAt e (SendCt.NoHeaderReceivedRecvChunk.done s) = s.uc.epoch ≡ e

module _ {Encoder Decoder : Type 0} where
  abbrev pub HeaderSentAt : Epoch → SendEk.HeaderSentRecvChunk Encoder Decoder → Type 0
  HeaderSentAt e (SendEk.HeaderSentRecvChunk.still_receiving s) = s.uc.epoch ≡ e
  HeaderSentAt e (SendEk.HeaderSentRecvChunk.done s) = s.uc.epoch ≡ e

  abbrev pub Ct1SampledAt : Epoch → SendCt.Ct1SampledRecvChunk Encoder Decoder → Type 0
  Ct1SampledAt e (SendCt.Ct1SampledRecvChunk.still_receiving_still_sending s) = s.uc.epoch ≡ e
  Ct1SampledAt e (SendCt.Ct1SampledRecvChunk.still_receiving s) = s.uc.epoch ≡ e
  Ct1SampledAt e (SendCt.Ct1SampledRecvChunk.still_sending s) = s.uc.epoch ≡ e
  Ct1SampledAt e (SendCt.Ct1SampledRecvChunk.done s) = s.uc.epoch ≡ e

  abbrev pub Ct1AcknowledgedAt : Epoch → SendCt.Ct1AcknowledgedRecvChunk Encoder Decoder → Type 0
  Ct1AcknowledgedAt e (SendCt.Ct1AcknowledgedRecvChunk.still_receiving s) = s.uc.epoch ≡ e
  Ct1AcknowledgedAt e (SendCt.Ct1AcknowledgedRecvChunk.done s) = s.uc.epoch ≡ e

module _ {Encoder Decoder : Type 0} (codec : Codec Encoder Decoder) (c : Crypto) where
  pub send_first_hdr_chunk-epoch :
      (self : SendCt.KeysUnsampled) (rng : Rng)
      → Ensures (λ r. r.0.uc.epoch ≡ self.uc.epoch) (SendEk.send_first_hdr_chunk codec c self rng)
  unfolding SendEk.send_first_hdr_chunk UncEk.send_header
  send_first_hdr_chunk-epoch self rng = search (Ensures-bind, Ensures-ok) depth 12

  pub send_hdr_chunk-epoch :
      (self : SendEk.KeysSampled Encoder)
      → Ensures (λ r. r.0.uc.epoch ≡ self.uc.epoch) (SendEk.send_hdr_chunk codec c self)
  unfolding SendEk.send_hdr_chunk
  send_hdr_chunk-epoch self = search (Ensures-bind, Ensures-ok) depth 12

  pub send_ek_chunk-epoch :
      (self : SendEk.HeaderSent Encoder Decoder)
      → Ensures (λ r. r.0.uc.epoch ≡ self.uc.epoch) (SendEk.send_ek_chunk codec c self)
  unfolding SendEk.send_ek_chunk
  send_ek_chunk-epoch self = search (Ensures-bind, Ensures-ok) depth 12

  pub send_ek_chunk_ct1_received-epoch :
      (self : SendEk.Ct1Received Encoder)
      → Ensures (λ r. r.0.uc.epoch ≡ self.uc.epoch) (SendEk.send_ek_chunk_ct1_received codec c self)
  unfolding SendEk.send_ek_chunk_ct1_received
  send_ek_chunk_ct1_received-epoch self = search (Ensures-bind, Ensures-ok) depth 12

  pub recv_first_ct1_chunk-epoch :
      (self : SendEk.KeysSampled Encoder) (epoch : Epoch) (chunk : Chunk)
      → Ensures
          (λ r. r.uc.epoch ≡ self.uc.epoch)
          (SendEk.recv_first_ct1_chunk codec c self epoch chunk)
  unfolding SendEk.recv_first_ct1_chunk UncEk.send_ek
  recv_first_ct1_chunk-epoch self epoch chunk = search (Ensures-bind, Ensures-ok) depth 12

  pub recv_ct1_chunk-epoch :
      (self : SendEk.HeaderSent Encoder Decoder) (epoch : Epoch) (chunk : Chunk)
      → Ensures (HeaderSentAt self.uc.epoch) (SendEk.recv_ct1_chunk codec c self epoch chunk)
  unfolding SendEk.recv_ct1_chunk
  recv_ct1_chunk-epoch self epoch chunk =
      search (recv_ct1-then, Ensures-bind_option, Ensures-bind, Ensures-ok) depth 16

  pub recv_first_ct2_chunk-epoch :
      (self : SendEk.Ct1Received Encoder) (epoch : Epoch) (chunk : Chunk)
      → Ensures
          (λ r. r.uc.epoch ≡ self.uc.epoch)
          (SendEk.recv_first_ct2_chunk codec c self epoch chunk)
  unfolding SendEk.recv_first_ct2_chunk
  recv_first_ct2_chunk-epoch self epoch chunk = search (Ensures-bind, Ensures-ok) depth 12

  pub recv_ct2_chunk-epoch :
      (self : SendEk.EkSentCt1Received Decoder) (epoch : Epoch) (chunk : Chunk)
      → Ensures (EkSentAt self.uc.epoch) (SendEk.recv_ct2_chunk codec c self epoch chunk)
  unfolding SendEk.recv_ct2_chunk
  recv_ct2_chunk-epoch self epoch chunk =
      search (recv_ct2-then, Ensures-bind_option, Ensures-bind, Ensures-ok) depth 16

  pub recv_hdr_chunk-epoch :
      (self : SendCt.NoHeaderReceived Decoder) (epoch : Epoch) (chunk : Chunk)
      → Ensures (NoHeaderAt self.uc.epoch) (SendCt.recv_hdr_chunk codec c self epoch chunk)
  unfolding SendCt.recv_hdr_chunk
  recv_hdr_chunk-epoch self epoch chunk =
      search (recv_header-then, Ensures-bind_option, Ensures-bind, Ensures-ok) depth 16

  pub send_first_ct1_chunk-epoch :
      (self : SendCt.HeaderReceived Decoder) (rng : Rng)
      → Ensures
          (λ r. (r.0.uc.epoch ≡ self.uc.epoch) × (r.2.epoch ≡ self.uc.epoch))
          (SendCt.send_first_ct1_chunk codec c self rng)
  unfolding SendCt.send_first_ct1_chunk
  send_first_ct1_chunk-epoch self rng = search (send_ct1-then, Ensures-bind, Ensures-ok) depth 16

  start_ct2-epoch :
      (received : UncCt.Ct1SentEkReceived)
      → Ensures (λ r. r.uc.epoch ≡ received.epoch) (SendCt.start_ct2 codec c received)
  unfolding SendCt.start_ct2
  start_ct2-epoch received = search (send_ct2-then, Ensures-bind, Ensures-ok) depth 16

  start_ct2-then :
      {B : Type 0} {P : B → Type 0} (received : UncCt.Ct1SentEkReceived) (e : Epoch)
      (f : SendCt.Ct2Sampled Encoder → Outcome Error B)
      → received.epoch ≡ e
      → ((s : SendCt.Ct2Sampled Encoder) → s.uc.epoch ≡ e → Ensures P (f s))
      → Ensures P (SendCt.start_ct2 codec c received >>= f)
  start_ct2-then received e f same rest =
      Ensures-then f (start_ct2-epoch received) (λ s h. rest s (h ∙ same))

  pub recv_ek_chunk-epoch :
      (self : SendCt.Ct1Sampled Encoder Decoder) (epoch : Epoch) (chunk : Chunk) (ct1_ack : Bool)
      → Ensures (Ct1SampledAt self.uc.epoch) (SendCt.recv_ek_chunk codec c self epoch chunk ct1_ack)
  unfolding SendCt.recv_ek_chunk
  recv_ek_chunk-epoch self epoch chunk ct1_ack =
      search
        (
          recv_ek-then, start_ct2-then, Ensures-bind_option, Ensures-either, Ensures-bind,
          Ensures-ok,
        )
        depth 20

  pub send_ct1_chunk-epoch :
      (self : SendCt.Ct1Sampled Encoder Decoder)
      → Ensures (λ r. r.0.uc.epoch ≡ self.uc.epoch) (SendCt.send_ct1_chunk codec c self)
  unfolding SendCt.send_ct1_chunk
  send_ct1_chunk-epoch self = search (Ensures-bind, Ensures-ok) depth 12

  pub send_ct1_chunk_ek_received-epoch :
      (self : SendCt.EkReceivedCt1Sampled Encoder)
      → Ensures (λ r. r.0.uc.epoch ≡ self.uc.epoch) (SendCt.send_ct1_chunk_ek_received codec c self)
  unfolding SendCt.send_ct1_chunk_ek_received
  send_ct1_chunk_ek_received-epoch self = search (Ensures-bind, Ensures-ok) depth 12

  pub recv_ct1_ack-epoch :
      (self : SendCt.EkReceivedCt1Sampled Encoder) (epoch : Epoch)
      → Ensures (λ r. r.uc.epoch ≡ self.uc.epoch) (SendCt.recv_ct1_ack codec c self epoch)
  unfolding SendCt.recv_ct1_ack
  recv_ct1_ack-epoch self epoch = search (Ensures-bind, start_ct2-epoch) depth 12

  pub recv_ek_chunk_acknowledged-epoch :
      (self : SendCt.Ct1Acknowledged Decoder) (epoch : Epoch) (chunk : Chunk)
      → Ensures
          (Ct1AcknowledgedAt self.uc.epoch)
          (SendCt.recv_ek_chunk_acknowledged codec c self epoch chunk)
  unfolding SendCt.recv_ek_chunk_acknowledged
  recv_ek_chunk_acknowledged-epoch self epoch chunk =
      search (recv_ek-then, start_ct2-then, Ensures-bind_option, Ensures-bind, Ensures-ok) depth 20

  pub send_ct2_chunk-epoch :
      (self : SendCt.Ct2Sampled Encoder)
      → Ensures (λ r. r.0.uc.epoch ≡ self.uc.epoch) (SendCt.send_ct2_chunk codec c self)
  unfolding SendCt.send_ct2_chunk
  send_ct2_chunk-epoch self = search (Ensures-bind, Ensures-ok) depth 12

module _ {Encoder : Type 0} where
  pub recv_next_epoch-epoch :
      (self : SendCt.Ct2Sampled Encoder) (epoch : Epoch)
      → Ensures (λ r. r.uc.epoch ≡ self.uc.epoch + 1) (SendCt.recv_next_epoch self epoch)
  unfolding SendCt.recv_next_epoch
  recv_next_epoch-epoch self epoch = search (recv_next_epoch-then, Ensures-ok) depth 12
