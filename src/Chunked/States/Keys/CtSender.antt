-- ===== src/Chunked/States/Keys/CtSender.antt =====
-- The keys of the states of src/v1/chunked/send_ct.rs from Ct1Sampled on.
use sparse_post_quantum_ratc.Prelude.{
  ◌+◌, refl, ap, Outcome, ok, true, false, ◌==◌, Ensures, Ensures-ok, Ensures-err, Ensures-either,
  Ensures-then,
}
use sparse_post_quantum_ratc.Types.{Epoch, Error, epoch_out_of_range}
use sparse_post_quantum_ratc.Wire.{Message, MessagePayload, ek, ek_ct1_ack}
use sparse_post_quantum_ratc.Crypto.{Crypto}
use sparse_post_quantum_ratc.Encoding.{Codec}
use sparse_post_quantum_ratc.Chunked.SendCt
use sparse_post_quantum_ratc.Chunked.Epochs.{
  Ct1SampledAt, Ct1AcknowledgedAt, recv_ek_chunk-epoch, recv_ct1_ack-epoch,
  recv_ek_chunk_acknowledged-epoch, recv_next_epoch-epoch,
}
use sparse_post_quantum_ratc.Chunked.States.{
  keys_unsampled, ct1_sampled, ek_received_ct1_sampled, ct1_acknowledged, ct2_sampled, Recv,
  keyless, recv_ct1_sampled, recv_ek_received_ct1_sampled, recv_ct1_acknowledged,
  recv_ct2_sampled_later, acknowledges_ct1,
}
use sparse_post_quantum_ratc.Chunked.States.Keys.{next_key_epoch, Advances, Receives}

module _ {Encoder Decoder : Type 0} (codec : Codec Encoder Decoder) (c : Crypto) where
  at_ct1_sampled :
      (e : Epoch) (r : SendCt.Ct1SampledRecvChunk Encoder Decoder)
      → Ct1SampledAt e r
      → Ensures {E = Error}
          (λ r. Advances (e + 1) r.key (next_key_epoch r.state))
          (elim r as (λ x. Outcome Error (Recv Encoder Decoder)) [
            | SendCt.Ct1SampledRecvChunk.still_receiving_still_sending s' ↦
                ok (keyless (ct1_sampled s'))
            | SendCt.Ct1SampledRecvChunk.still_receiving s' ↦ ok (keyless (ct1_acknowledged s'))
            | SendCt.Ct1SampledRecvChunk.still_sending s' ↦
                ok (keyless (ek_received_ct1_sampled s'))
            | SendCt.Ct1SampledRecvChunk.done s' ↦ ok (keyless (ct2_sampled s'))
          ])
  at_ct1_sampled e (SendCt.Ct1SampledRecvChunk.still_receiving_still_sending s') h =
      Ensures-ok (keyless (ct1_sampled s')) (ap (λ t. t + 1) h)
  at_ct1_sampled e (SendCt.Ct1SampledRecvChunk.still_receiving s') h =
      Ensures-ok (keyless (ct1_acknowledged s')) (ap (λ t. t + 1) h)
  at_ct1_sampled e (SendCt.Ct1SampledRecvChunk.still_sending s') h =
      Ensures-ok (keyless (ek_received_ct1_sampled s')) (ap (λ t. t + 1) h)
  at_ct1_sampled e (SendCt.Ct1SampledRecvChunk.done s') h =
      Ensures-ok (keyless (ct2_sampled s')) (ap (λ t. t + 1) h)

  pub recv_ct1_sampled-key :
      (s : SendCt.Ct1Sampled Encoder Decoder) (e : Epoch) (p : MessagePayload)
      → Receives (ct1_sampled s) (recv_ct1_sampled codec c s (record { epoch = e; payload = p }))
  unfolding recv_ct1_sampled
  recv_ct1_sampled-key s e (ek chunk) =
      Ensures-then _ (recv_ek_chunk-epoch codec c s e chunk false) (at_ct1_sampled s.uc.epoch)
  recv_ct1_sampled-key s e (ek_ct1_ack chunk) =
      Ensures-then _ (recv_ek_chunk-epoch codec c s e chunk true) (at_ct1_sampled s.uc.epoch)
  recv_ct1_sampled-key s e p = Ensures-ok (keyless (ct1_sampled s)) refl

  pub recv_ek_received-key :
      (s : SendCt.EkReceivedCt1Sampled Encoder) (e : Epoch) (p : MessagePayload)
      → Receives
          (ek_received_ct1_sampled s)
          (recv_ek_received_ct1_sampled codec c s (record { epoch = e; payload = p }))
  unfolding recv_ek_received_ct1_sampled
  recv_ek_received-key s e p =
      Ensures-either (acknowledges_ct1 p) _ _
        (Ensures-then _ (recv_ct1_ack-epoch codec c s e)
          (λ r h. Ensures-ok (keyless (ct2_sampled r)) (ap (λ t. t + 1) h)))
        (Ensures-ok (keyless (ek_received_ct1_sampled s)) refl)

  at_ct1_acknowledged :
      (e : Epoch) (r : SendCt.Ct1AcknowledgedRecvChunk Encoder Decoder)
      → Ct1AcknowledgedAt e r
      → Ensures {E = Error}
          (λ r. Advances (e + 1) r.key (next_key_epoch r.state))
          (elim r as (λ x. Outcome Error (Recv Encoder Decoder)) [
            | SendCt.Ct1AcknowledgedRecvChunk.still_receiving s' ↦
                ok (keyless (ct1_acknowledged s'))
            | SendCt.Ct1AcknowledgedRecvChunk.done s' ↦ ok (keyless (ct2_sampled s'))
          ])
  at_ct1_acknowledged e (SendCt.Ct1AcknowledgedRecvChunk.still_receiving s') h =
      Ensures-ok (keyless (ct1_acknowledged s')) (ap (λ t. t + 1) h)
  at_ct1_acknowledged e (SendCt.Ct1AcknowledgedRecvChunk.done s') h =
      Ensures-ok (keyless (ct2_sampled s')) (ap (λ t. t + 1) h)

  pub recv_ct1_acknowledged-key :
      (s : SendCt.Ct1Acknowledged Decoder) (e : Epoch) (p : MessagePayload)
      → Receives
          (ct1_acknowledged s)
          (recv_ct1_acknowledged codec c s (record { epoch = e; payload = p }))
  unfolding recv_ct1_acknowledged
  recv_ct1_acknowledged-key s e (ek chunk) =
      Ensures-then _ (recv_ek_chunk_acknowledged-epoch codec c s e chunk)
        (at_ct1_acknowledged s.uc.epoch)
  recv_ct1_acknowledged-key s e (ek_ct1_ack chunk) =
      Ensures-then _ (recv_ek_chunk_acknowledged-epoch codec c s e chunk)
        (at_ct1_acknowledged s.uc.epoch)
  recv_ct1_acknowledged-key s e p = Ensures-ok (keyless (ct1_acknowledged s)) refl

  pub recv_later-key :
      (s : SendCt.Ct2Sampled Encoder) (msg : Message)
      → Receives (ct2_sampled s) (recv_ct2_sampled_later codec c s msg)
  unfolding recv_ct2_sampled_later
  recv_later-key s msg =
      Ensures-either (msg.epoch == s.uc.epoch + 1) _ _
        (Ensures-then _ (recv_next_epoch-epoch s msg.epoch)
          (λ r h. Ensures-ok (keyless (keys_unsampled r)) h))
        (Ensures-err (epoch_out_of_range msg.epoch))
