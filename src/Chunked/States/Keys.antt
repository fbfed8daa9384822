-- ===== src/Chunked/States/Keys.antt =====
-- The epochs of the keys that a protocol state gives out, in the order in which it gives them out.
pub mod EkSender
pub mod CtSender
pub mod Order
use sparse_post_quantum_ratc.Prelude.{
  ℕ, zero, suc, ◌+◌, ◌≡◌, refl, sym, ap, ◌∙◌, Option, none, some, Outcome, ok, err, ◌>>=◌, inl, inr,
  Ordering-cases, if◌then◌else◌, Ensures, Ensures-ok, Ensures-err, Ensures-either, Ensures-bind,
  Ensures-then, compare, Ordering,
}
use sparse_post_quantum_ratc.Types.{Bytes, Epoch, EpochSecret, Error, epoch_out_of_range}
use sparse_post_quantum_ratc.Wire.{
  Chunk, Message, MessagePayload, none_payload, hdr, ek, ek_ct1_ack, ct1_ack, ct1, ct2,
}
use sparse_post_quantum_ratc.Crypto.{Crypto, Rng}
use sparse_post_quantum_ratc.Encoding.{Codec}
use sparse_post_quantum_ratc.Chunked.SendEk
use sparse_post_quantum_ratc.Chunked.SendCt
use sparse_post_quantum_ratc.Chunked.Epochs.{
  HeaderSentAt, EkSentAt, NoHeaderAt, Ct1SampledAt, Ct1AcknowledgedAt, send_first_hdr_chunk-epoch,
  send_hdr_chunk-epoch, send_ek_chunk-epoch, send_ek_chunk_ct1_received-epoch,
  recv_first_ct1_chunk-epoch, recv_ct1_chunk-epoch, recv_first_ct2_chunk-epoch,
  recv_ct2_chunk-epoch, recv_hdr_chunk-epoch, send_first_ct1_chunk-epoch, recv_ek_chunk-epoch,
  send_ct1_chunk-epoch, send_ct1_chunk_ek_received-epoch, recv_ct1_ack-epoch,
  recv_ek_chunk_acknowledged-epoch, send_ct2_chunk-epoch, recv_next_epoch-epoch,
}
use sparse_post_quantum_ratc.Chunked.States.{
  States, keys_unsampled, keys_sampled, header_sent, ct1_received, ek_sent_ct1_received,
  no_header_received, header_received, ct1_sampled, ek_received_ct1_sampled, ct1_acknowledged,
  ct2_sampled, Send, Recv, epoch_of, send, recv, keyless, by_epoch, recv_keys_sampled,
  recv_header_sent, recv_ct1_received, recv_ek_sent_ct1_received, recv_no_header_received,
  recv_ct1_sampled, recv_ek_received_ct1_sampled, recv_ct1_acknowledged, recv_ct2_sampled_later,
}

-- The epoch of the next key that a state gives out: its own, or the one after it when the state has
-- sampled the first ciphertext and so has given out the key of its epoch.
abbrev pub next_key_epoch : {Encoder Decoder : Type 0} → States Encoder Decoder → ℕ
next_key_epoch (ct1_sampled s) = s.uc.epoch + 1
next_key_epoch (ek_received_ct1_sampled s) = s.uc.epoch + 1
next_key_epoch (ct1_acknowledged s) = s.uc.epoch + 1
next_key_epoch (ct2_sampled s) = s.uc.epoch + 1
next_key_epoch (keys_unsampled s) = s.uc.epoch
next_key_epoch (keys_sampled s) = s.uc.epoch
next_key_epoch (header_sent s) = s.uc.epoch
next_key_epoch (ct1_received s) = s.uc.epoch
next_key_epoch (ek_sent_ct1_received s) = s.uc.epoch
next_key_epoch (no_header_received s) = s.uc.epoch
next_key_epoch (header_received s) = s.uc.epoch

-- A key has the epoch that is next, and the epoch after it is next then.
abbrev pub Advances : ℕ → Option EpochSecret → ℕ → Type 0
Advances n none n' = n' ≡ n
Advances n (some k) n' = (k.epoch ≡ n) × (n' ≡ n + 1)

pub by_epoch-Ensures :
    {A : Type 0} {P : A → Type 0} (m e : Epoch) (same : A) (equal : Outcome Error A)
    → P same
    → Ensures P equal
    → Ensures P (by_epoch m e same equal)
by_epoch-Ensures m e same equal hs he = elim (Ordering-cases (compare m e)) [
  | inl o ↦ rw (by_epoch, o) (Ensures-ok same hs)
  | inr (inl o) ↦ rw (by_epoch, o) he
  | inr (inr o) ↦ rw (by_epoch, o) (Ensures-err (epoch_out_of_range m))
]

-- What a call from `s` gives has the key that is next, if any.
abbrev pub Receives :
    {Encoder Decoder : Type 0}
    → States Encoder Decoder
    → Outcome Error (Recv Encoder Decoder)
    → Type 0
Receives s = Ensures (λ r. Advances (next_key_epoch s) r.key (next_key_epoch r.state))
