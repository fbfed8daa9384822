-- ===== src/Chunked/States/Keys/EkSender.antt =====
-- The keys of the states of src/v1/chunked/send_ek.rs and of NoHeaderReceived.
use sparse_post_quantum_ratc.Prelude.{refl, some, Outcome, ok, Ensures, Ensures-ok, Ensures-then}
use sparse_post_quantum_ratc.Types.{Epoch, Error}
use sparse_post_quantum_ratc.Wire.{MessagePayload, hdr, ct1, ct2}
use sparse_post_quantum_ratc.Crypto.{Crypto}
use sparse_post_quantum_ratc.Encoding.{Codec}
use sparse_post_quantum_ratc.Chunked.SendEk
use sparse_post_quantum_ratc.Chunked.SendCt
use sparse_post_quantum_ratc.Chunked.Epochs.{
  HeaderSentAt, EkSentAt, NoHeaderAt, recv_first_ct1_chunk-epoch, recv_ct1_chunk-epoch,
  recv_first_ct2_chunk-epoch, recv_ct2_chunk-epoch, recv_hdr_chunk-epoch,
}
use sparse_post_quantum_ratc.Chunked.States.{
  keys_sampled, header_sent, ct1_received, ek_sent_ct1_received, no_header_received,
  header_received, Recv, keyless, recv_keys_sampled, recv_header_sent, recv_ct1_received,
  recv_ek_sent_ct1_received, recv_no_header_received,
}
use sparse_post_quantum_ratc.Chunked.States.Keys.{next_key_epoch, Advances, Receives}

module _ {Encoder Decoder : Type 0} (codec : Codec Encoder Decoder) (c : Crypto) where
  pub recv_keys_sampled-key :
      (s : SendEk.KeysSampled Encoder) (e : Epoch) (p : MessagePayload)
      → Receives (keys_sampled s) (recv_keys_sampled codec c s (record { epoch = e; payload = p }))
  unfolding recv_keys_sampled
  recv_keys_sampled-key s e (ct1 chunk) =
      Ensures-then _ (recv_first_ct1_chunk-epoch codec c s e chunk)
        (λ r h. Ensures-ok (keyless (header_sent r)) h)
  recv_keys_sampled-key s e p = Ensures-ok (keyless (keys_sampled s)) refl

  at_header_sent :
      (e : Epoch) (r : SendEk.HeaderSentRecvChunk Encoder Decoder)
      → HeaderSentAt e r
      → Ensures {E = Error}
          (λ r. Advances e r.key (next_key_epoch r.state))
          (elim r as (λ x. Outcome Error (Recv Encoder Decoder)) [
            | SendEk.HeaderSentRecvChunk.still_receiving s' ↦ ok (keyless (header_sent s'))
            | SendEk.HeaderSentRecvChunk.done s' ↦ ok (keyless (ct1_received s'))
          ])
  at_header_sent e (SendEk.HeaderSentRecvChunk.still_receiving s') h =
      Ensures-ok (keyless (header_sent s')) h
  at_header_sent e (SendEk.HeaderSentRecvChunk.done s') h = Ensures-ok (keyless (ct1_received s')) h

  pub recv_header_sent-key :
      (s : SendEk.HeaderSent Encoder Decoder) (e : Epoch) (p : MessagePayload)
      → Receives (header_sent s) (recv_header_sent codec c s (record { epoch = e; payload = p }))
  unfolding recv_header_sent
  recv_header_sent-key s e (ct1 chunk) =
      Ensures-then _ (recv_ct1_chunk-epoch codec c s e chunk) (at_header_sent s.uc.epoch)
  recv_header_sent-key s e p = Ensures-ok (keyless (header_sent s)) refl

  pub recv_ct1_received-key :
      (s : SendEk.Ct1Received Encoder) (e : Epoch) (p : MessagePayload)
      → Receives (ct1_received s) (recv_ct1_received codec c s (record { epoch = e; payload = p }))
  unfolding recv_ct1_received
  recv_ct1_received-key s e (ct2 chunk) =
      Ensures-then _ (recv_first_ct2_chunk-epoch codec c s e chunk)
        (λ r h. Ensures-ok (keyless (ek_sent_ct1_received r)) h)
  recv_ct1_received-key s e p = Ensures-ok (keyless (ct1_received s)) refl

  at_ek_sent :
      (e : Epoch) (r : SendEk.EkSentCt1ReceivedRecvChunk Decoder)
      → EkSentAt e r
      → Ensures {E = Error}
          (λ r. Advances e r.key (next_key_epoch r.state))
          (elim r as (λ x. Outcome Error (Recv Encoder Decoder)) [
            | SendEk.EkSentCt1ReceivedRecvChunk.still_receiving s' ↦
                ok (keyless (ek_sent_ct1_received s'))
            | SendEk.EkSentCt1ReceivedRecvChunk.done s' sec ↦
                ok (record { key = some sec; state = no_header_received s' })
          ])
  at_ek_sent e (SendEk.EkSentCt1ReceivedRecvChunk.still_receiving s') h =
      Ensures-ok (keyless (ek_sent_ct1_received s')) h
  at_ek_sent e (SendEk.EkSentCt1ReceivedRecvChunk.done s' sec) h =
      Ensures-ok (record { key = some sec; state = no_header_received s' }) (h.1, h.0)

  pub recv_ek_sent-key :
      (s : SendEk.EkSentCt1Received Decoder) (e : Epoch) (p : MessagePayload)
      → Receives
          (ek_sent_ct1_received s)
          (recv_ek_sent_ct1_received codec c s (record { epoch = e; payload = p }))
  unfolding recv_ek_sent_ct1_received
  recv_ek_sent-key s e (ct2 chunk) =
      Ensures-then _ (recv_ct2_chunk-epoch codec c s e chunk) (at_ek_sent s.uc.epoch)
  recv_ek_sent-key s e p = Ensures-ok (keyless (ek_sent_ct1_received s)) refl

  at_no_header :
      (e : Epoch) (r : SendCt.NoHeaderReceivedRecvChunk Decoder)
      → NoHeaderAt e r
      → Ensures {E = Error}
          (λ r. Advances e r.key (next_key_epoch r.state))
          (elim r as (λ x. Outcome Error (Recv Encoder Decoder)) [
            | SendCt.NoHeaderReceivedRecvChunk.still_receiving s' ↦
                ok (keyless (no_header_received s'))
            | SendCt.NoHeaderReceivedRecvChunk.done s' ↦ ok (keyless (header_received s'))
          ])
  at_no_header e (SendCt.NoHeaderReceivedRecvChunk.still_receiving s') h =
      Ensures-ok (keyless (no_header_received s')) h
  at_no_header e (SendCt.NoHeaderReceivedRecvChunk.done s') h =
      Ensures-ok (keyless (header_received s')) h

  pub recv_no_header-key :
      (s : SendCt.NoHeaderReceived Decoder) (e : Epoch) (p : MessagePayload)
      → Receives
          (no_header_received s)
          (recv_no_header_received codec c s (record { epoch = e; payload = p }))
  unfolding recv_no_header_received
  recv_no_header-key s e (hdr chunk) =
      Ensures-then _ (recv_hdr_chunk-epoch codec c s e chunk) (at_no_header s.uc.epoch)
  recv_no_header-key s e p = Ensures-ok (keyless (no_header_received s)) refl
