-- ===== src/Chunked/States.antt =====
-- src/v1/chunked/states.rs: the eleven states, and what sending and receiving a message does in each.
pub mod Epochs
pub mod Stored
pub mod Keys
use sparse_post_quantum_ratc.Prelude.{
  ℕ, ◌+◌, Bool, true, false, Option, none, some, ◌==◌, ltb, compare, Ordering, if◌then◌else◌,
  Outcome, ok, err, ◌>>=◌,
}
use sparse_post_quantum_ratc.Types.{Bytes, Epoch, EpochSecret, Error, epoch_out_of_range}
use sparse_post_quantum_ratc.Wire.{
  Chunk, Message, MessagePayload, none_payload, hdr, ek, ek_ct1_ack, ct1_ack, ct1, ct2,
}
use sparse_post_quantum_ratc.Crypto.{Crypto, Rng}
use sparse_post_quantum_ratc.Encoding.{Codec}
use sparse_post_quantum_ratc.Chunked.SendEk
use sparse_post_quantum_ratc.Chunked.SendCt

pub data States (Encoder Decoder : Type 0) : Type 0 where
  keys_unsampled : SendCt.KeysUnsampled → States Encoder Decoder
  keys_sampled : SendEk.KeysSampled Encoder → States Encoder Decoder
  header_sent : SendEk.HeaderSent Encoder Decoder → States Encoder Decoder
  ct1_received : SendEk.Ct1Received Encoder → States Encoder Decoder
  ek_sent_ct1_received : SendEk.EkSentCt1Received Decoder → States Encoder Decoder
  no_header_received : SendCt.NoHeaderReceived Decoder → States Encoder Decoder
  header_received : SendCt.HeaderReceived Decoder → States Encoder Decoder
  ct1_sampled : SendCt.Ct1Sampled Encoder Decoder → States Encoder Decoder
  ek_received_ct1_sampled : SendCt.EkReceivedCt1Sampled Encoder → States Encoder Decoder
  ct1_acknowledged : SendCt.Ct1Acknowledged Decoder → States Encoder Decoder
  ct2_sampled : SendCt.Ct2Sampled Encoder → States Encoder Decoder

pub record Send (Encoder Decoder : Type 0) : Type 0 where
  pub msg : Message
  pub key : Option EpochSecret
  pub state : States Encoder Decoder

pub record Recv (Encoder Decoder : Type 0) : Type 0 where
  pub key : Option EpochSecret
  pub state : States Encoder Decoder

-- `msg.epoch.cmp(&state.epoch())` with the branches of a state that takes no later epoch.
abbrev pub by_epoch {ℓ} : {A : Type ℓ} → Epoch → Epoch → A → Outcome Error A → Outcome Error A
by_epoch msg_epoch epoch unchanged equal = elim (compare msg_epoch epoch) [
  | Ordering.gt ↦ err (epoch_out_of_range msg_epoch)
  | Ordering.lt ↦ ok unchanged
  | Ordering.eq ↦ equal
]

-- The chunks of an encapsulation key, with the acknowledgement that they carry.
abbrev pub ek_chunk : MessagePayload → Option Chunk × Bool
ek_chunk (ek chunk) = (some chunk, false)
ek_chunk (ek_ct1_ack chunk) = (some chunk, true)
ek_chunk _ = (none, false)

-- `matches!(msg.payload, Ct1Ack(true) | EkCt1Ack(_))`
abbrev pub acknowledges_ct1 : MessagePayload → Bool
acknowledges_ct1 (ct1_ack b) = b
acknowledges_ct1 (ek_ct1_ack chunk) = true
acknowledges_ct1 _ = false

-- The epoch of a state, which each of its types returns as `epoch()`.
abbrev pub epoch_of : {Encoder Decoder : Type 0} → States Encoder Decoder → Epoch
epoch_of (keys_unsampled s) = s.uc.epoch
epoch_of (keys_sampled s) = s.uc.epoch
epoch_of (header_sent s) = s.uc.epoch
epoch_of (ct1_received s) = s.uc.epoch
epoch_of (ek_sent_ct1_received s) = s.uc.epoch
epoch_of (no_header_received s) = s.uc.epoch
epoch_of (header_received s) = s.uc.epoch
epoch_of (ct1_sampled s) = s.uc.epoch
epoch_of (ek_received_ct1_sampled s) = s.uc.epoch
epoch_of (ct1_acknowledged s) = s.uc.epoch
epoch_of (ct2_sampled s) = s.uc.epoch

module _ {Encoder Decoder : Type 0} where
  abbrev pub sending :
      Epoch → MessagePayload → Option EpochSecret → States Encoder Decoder → Send Encoder Decoder
  sending epoch payload key state = record {
    msg = record { epoch = epoch; payload = payload };
    key = key;
    state = state;
  }

  abbrev pub keyless : States Encoder Decoder → Recv Encoder Decoder
  keyless state = record { key = none; state = state }

module _ {Encoder Decoder : Type 0} (codec : Codec Encoder Decoder) (c : Crypto) where
  unfoldable pub init_a : Bytes → Outcome Error (States Encoder Decoder)
  init_a auth_key = do s ← SendEk.new c auth_key; ok (keys_unsampled s)

  unfoldable pub init_b : Bytes → Outcome Error (States Encoder Decoder)
  init_b auth_key = do s ← SendCt.new codec c auth_key; ok (no_header_received s)

  -- `States::send`, in the states of send_ek.rs and of send_ct.rs
  unfoldable pub send : States Encoder Decoder → Rng → Outcome Error (Send Encoder Decoder)
  send (keys_unsampled s) rng = do
    (s', chunk) ← SendEk.send_first_hdr_chunk codec c s rng
    ok (sending s.uc.epoch (hdr chunk) none (keys_sampled s'))
  send (keys_sampled s) rng = do
    (s', chunk) ← SendEk.send_hdr_chunk codec c s
    ok (sending s.uc.epoch (hdr chunk) none (keys_sampled s'))
  send (header_sent s) rng = do
    (s', chunk) ← SendEk.send_ek_chunk codec c s
    ok (sending s.uc.epoch (ek chunk) none (header_sent s'))
  send (ct1_received s) rng = do
    (s', chunk) ← SendEk.send_ek_chunk_ct1_received codec c s
    ok (sending s.uc.epoch (ek_ct1_ack chunk) none (ct1_received s'))
  send (ek_sent_ct1_received s) rng =
      ok (sending s.uc.epoch (ct1_ack true) none (ek_sent_ct1_received s))
  send (no_header_received s) rng = ok (sending s.uc.epoch none_payload none (no_header_received s))
  send (header_received s) rng = do
    (s', chunk, epoch_secret) ← SendCt.send_first_ct1_chunk codec c s rng
    ok (sending s.uc.epoch (ct1 chunk) (some epoch_secret) (ct1_sampled s'))
  send (ct1_sampled s) rng = do
    (s', chunk) ← SendCt.send_ct1_chunk codec c s
    ok (sending s.uc.epoch (ct1 chunk) none (ct1_sampled s'))
  send (ek_received_ct1_sampled s) rng = do
    (s', chunk) ← SendCt.send_ct1_chunk_ek_received codec c s
    ok (sending s.uc.epoch (ct1 chunk) none (ek_received_ct1_sampled s'))
  send (ct1_acknowledged s) rng = ok (sending s.uc.epoch none_payload none (ct1_acknowledged s))
  send (ct2_sampled s) rng = do
    (s', chunk) ← SendCt.send_ct2_chunk codec c s
    ok (sending s.uc.epoch (ct2 chunk) none (ct2_sampled s'))

  -- The branch `Ordering::Equal` of each state that has work there.
  unfoldable pub recv_keys_sampled :
      SendEk.KeysSampled Encoder → Message → Outcome Error (Recv Encoder Decoder)
  recv_keys_sampled s msg = elim msg.payload [
    | ct1 chunk ↦ do
      s' ← SendEk.recv_first_ct1_chunk codec c s msg.epoch chunk
      ok (keyless (header_sent s'))
    | _ ↦ ok (keyless (keys_sampled s))
  ]

  unfoldable pub recv_header_sent :
      SendEk.HeaderSent Encoder Decoder → Message → Outcome Error (Recv Encoder Decoder)
  recv_header_sent s msg = elim msg.payload [
    | ct1 chunk ↦ do
      r ← SendEk.recv_ct1_chunk codec c s msg.epoch chunk
      elim r [
        | SendEk.HeaderSentRecvChunk.still_receiving s' ↦ ok (keyless (header_sent s'))
        | SendEk.HeaderSentRecvChunk.done s' ↦ ok (keyless (ct1_received s'))
      ]
    | _ ↦ ok (keyless (header_sent s))
  ]

  unfoldable pub recv_ct1_received :
      SendEk.Ct1Received Encoder → Message → Outcome Error (Recv Encoder Decoder)
  recv_ct1_received s msg = elim msg.payload [
    | ct2 chunk ↦ do
      s' ← SendEk.recv_first_ct2_chunk codec c s msg.epoch chunk
      ok (keyless (ek_sent_ct1_received s'))
    | _ ↦ ok (keyless (ct1_received s))
  ]

  unfoldable pub recv_ek_sent_ct1_received :
      SendEk.EkSentCt1Received Decoder → Message → Outcome Error (Recv Encoder Decoder)
  recv_ek_sent_ct1_received s msg = elim msg.payload [
    | ct2 chunk ↦ do
      r ← SendEk.recv_ct2_chunk codec c s msg.epoch chunk
      elim r [
        | SendEk.EkSentCt1ReceivedRecvChunk.still_receiving s' ↦
            ok (keyless (ek_sent_ct1_received s'))
        | SendEk.EkSentCt1ReceivedRecvChunk.done s' sec ↦
            ok (record { key = some sec; state = no_header_received s' })
      ]
    | _ ↦ ok (keyless (ek_sent_ct1_received s))
  ]

  unfoldable pub recv_no_header_received :
      SendCt.NoHeaderReceived Decoder → Message → Outcome Error (Recv Encoder Decoder)
  recv_no_header_received s msg = elim msg.payload [
    | hdr chunk ↦ do
      r ← SendCt.recv_hdr_chunk codec c s msg.epoch chunk
      elim r [
        | SendCt.NoHeaderReceivedRecvChunk.still_receiving s' ↦ ok (keyless (no_header_received s'))
        | SendCt.NoHeaderReceivedRecvChunk.done s' ↦ ok (keyless (header_received s'))
      ]
    | _ ↦ ok (keyless (no_header_received s))
  ]

  unfoldable pub recv_ct1_sampled :
      SendCt.Ct1Sampled Encoder Decoder → Message → Outcome Error (Recv Encoder Decoder)
  recv_ct1_sampled s msg =
      let (chunk?, ack) = ek_chunk msg.payload in
      elim chunk? [
        | some chunk ↦ do
          r ← SendCt.recv_ek_chunk codec c s msg.epoch chunk ack
          elim r [
            | SendCt.Ct1SampledRecvChunk.still_receiving_still_sending s' ↦
                ok (keyless (ct1_sampled s'))
            | SendCt.Ct1SampledRecvChunk.still_receiving s' ↦ ok (keyless (ct1_acknowledged s'))
            | SendCt.Ct1SampledRecvChunk.still_sending s' ↦
                ok (keyless (ek_received_ct1_sampled s'))
            | SendCt.Ct1SampledRecvChunk.done s' ↦ ok (keyless (ct2_sampled s'))
          ]
        | none ↦ ok (keyless (ct1_sampled s))
      ]

  unfoldable pub recv_ek_received_ct1_sampled :
      SendCt.EkReceivedCt1Sampled Encoder → Message → Outcome Error (Recv Encoder Decoder)
  recv_ek_received_ct1_sampled s msg =
      if acknowledges_ct1 msg.payload
      then (do s' ← SendCt.recv_ct1_ack codec c s msg.epoch; ok (keyless (ct2_sampled s')))
      else ok (keyless (ek_received_ct1_sampled s))

  unfoldable pub recv_ct1_acknowledged :
      SendCt.Ct1Acknowledged Decoder → Message → Outcome Error (Recv Encoder Decoder)
  recv_ct1_acknowledged s msg =
      let (chunk?, ack) = ek_chunk msg.payload in
      elim chunk? [
        | some chunk ↦ do
          r ← SendCt.recv_ek_chunk_acknowledged codec c s msg.epoch chunk
          elim r [
            | SendCt.Ct1AcknowledgedRecvChunk.still_receiving s' ↦
                ok (keyless (ct1_acknowledged s'))
            | SendCt.Ct1AcknowledgedRecvChunk.done s' ↦ ok (keyless (ct2_sampled s'))
          ]
        | none ↦ ok (keyless (ct1_acknowledged s))
      ]

  -- The branch `Ordering::Greater` of `Ct2Sampled`. `state.epoch() + 1` cannot overflow there, since
  -- `msg.epoch` is greater.
  unfoldable pub recv_ct2_sampled_later :
      SendCt.Ct2Sampled Encoder → Message → Outcome Error (Recv Encoder Decoder)
  recv_ct2_sampled_later s msg =
      if msg.epoch == s.uc.epoch + 1
      then (do s' ← SendCt.recv_next_epoch s msg.epoch; ok (keyless (keys_unsampled s')))
      else err (epoch_out_of_range msg.epoch)

  -- `States::recv`
  unfoldable pub recv : States Encoder Decoder → Message → Outcome Error (Recv Encoder Decoder)
  recv (keys_unsampled s) msg =
      let same = keyless (keys_unsampled s) in by_epoch msg.epoch s.uc.epoch same (ok same)
  recv (keys_sampled s) msg =
      by_epoch msg.epoch s.uc.epoch (keyless (keys_sampled s)) (recv_keys_sampled s msg)
  recv (header_sent s) msg =
      by_epoch msg.epoch s.uc.epoch (keyless (header_sent s)) (recv_header_sent s msg)
  recv (ct1_received s) msg =
      by_epoch msg.epoch s.uc.epoch (keyless (ct1_received s)) (recv_ct1_received s msg)
  recv (ek_sent_ct1_received s) msg =
      by_epoch msg.epoch s.uc.epoch (keyless (ek_sent_ct1_received s))
        (recv_ek_sent_ct1_received s msg)
  recv (no_header_received s) msg =
      by_epoch msg.epoch s.uc.epoch (keyless (no_header_received s)) (recv_no_header_received s msg)
  recv (header_received s) msg =
      let same = keyless (header_received s) in by_epoch msg.epoch s.uc.epoch same (ok same)
  recv (ct1_sampled s) msg =
      by_epoch msg.epoch s.uc.epoch (keyless (ct1_sampled s)) (recv_ct1_sampled s msg)
  recv (ek_received_ct1_sampled s) msg =
      by_epoch msg.epoch s.uc.epoch (keyless (ek_received_ct1_sampled s))
        (recv_ek_received_ct1_sampled s msg)
  recv (ct1_acknowledged s) msg =
      by_epoch msg.epoch s.uc.epoch (keyless (ct1_acknowledged s)) (recv_ct1_acknowledged s msg)
  recv (ct2_sampled s) msg = elim (compare msg.epoch s.uc.epoch) [
    | Ordering.gt ↦ recv_ct2_sampled_later s msg
    | _ ↦ ok (keyless (ct2_sampled s))
  ]
