-- ===== src/Chunked/States/Stored.antt =====
-- src/v1/chunked/states/serialize.rs: storing a state of the protocol.
use sparse_post_quantum_ratc.Prelude.{◌+◌, ◌/◌, ◌≡◌, none, some, length, Outcome, ok, err, ◌>>=◌}
use sparse_post_quantum_ratc.Types.{Error, state_decode}
use sparse_post_quantum_ratc.Kem.{
  header_size, encapsulation_key_size, ciphertext1_size, ciphertext2_size,
}
use sparse_post_quantum_ratc.Authenticator.{macsize}
use sparse_post_quantum_ratc.Stored.{StoredCodec, Restores, Expects}
use sparse_post_quantum_ratc.Proto.Chunked as Proto
use sparse_post_quantum_ratc.Proto.Chunked.{V1State}
use sparse_post_quantum_ratc.Unchunked.SendEk.Stored as WholeEk
use sparse_post_quantum_ratc.Unchunked.SendCt.Stored as WholeCt
use sparse_post_quantum_ratc.Chunked.SendEk.Stored as SendEk
use sparse_post_quantum_ratc.Chunked.SendCt.Stored as SendCt
use sparse_post_quantum_ratc.Chunked.States.{
  States, keys_unsampled, keys_sampled, header_sent, ct1_received, ek_sent_ct1_received,
  no_header_received, header_received, ct1_sampled, ek_received_ct1_sampled, ct1_acknowledged,
  ct2_sampled,
}

module _ {Encoder Decoder : Type 0} (st : StoredCodec Encoder Decoder) where
  inner_into_pb : States Encoder Decoder → Proto.InnerState
  inner_into_pb (keys_unsampled state) =
      Proto.keys_unsampled ((SendEk.keys_unsampled st).into_pb state)
  inner_into_pb (keys_sampled state) = Proto.keys_sampled ((SendEk.keys_sampled st).into_pb state)
  inner_into_pb (header_sent state) = Proto.header_sent ((SendEk.header_sent st).into_pb state)
  inner_into_pb (ct1_received state) = Proto.ct1_received ((SendEk.ct1_received st).into_pb state)
  inner_into_pb (ek_sent_ct1_received state) =
      Proto.ek_sent_ct1_received ((SendEk.ek_sent_ct1_received st).into_pb state)
  inner_into_pb (no_header_received state) =
      Proto.no_header_received ((SendCt.no_header_received st).into_pb state)
  inner_into_pb (header_received state) =
      Proto.header_received ((SendCt.header_received st).into_pb state)
  inner_into_pb (ct1_sampled state) = Proto.ct1_sampled ((SendCt.ct1_sampled st).into_pb state)
  inner_into_pb (ek_received_ct1_sampled state) =
      Proto.ek_received_ct1_sampled ((SendCt.ek_received_ct1_sampled st).into_pb state)
  inner_into_pb (ct1_acknowledged state) =
      Proto.ct1_acknowledged ((SendCt.ct1_acknowledged st).into_pb state)
  inner_into_pb (ct2_sampled state) = Proto.ct2_sampled ((SendCt.ct2_sampled st).into_pb state)

  inner_from_pb : Proto.InnerState → Outcome Error (States Encoder Decoder)
  inner_from_pb (Proto.keys_unsampled pb) = do
    state ← (SendEk.keys_unsampled st).from_pb pb
    ok (keys_unsampled state)
  inner_from_pb (Proto.keys_sampled pb) = do
    state ← (SendEk.keys_sampled st).from_pb pb
    ok (keys_sampled state)
  inner_from_pb (Proto.header_sent pb) = do
    state ← (SendEk.header_sent st).from_pb pb
    ok (header_sent state)
  inner_from_pb (Proto.ct1_received pb) = do
    state ← (SendEk.ct1_received st).from_pb pb
    ok (ct1_received state)
  inner_from_pb (Proto.ek_sent_ct1_received pb) = do
    state ← (SendEk.ek_sent_ct1_received st).from_pb pb
    ok (ek_sent_ct1_received state)
  inner_from_pb (Proto.no_header_received pb) = do
    state ← (SendCt.no_header_received st).from_pb pb
    ok (no_header_received state)
  inner_from_pb (Proto.header_received pb) = do
    state ← (SendCt.header_received st).from_pb pb
    ok (header_received state)
  inner_from_pb (Proto.ct1_sampled pb) = do
    state ← (SendCt.ct1_sampled st).from_pb pb
    ok (ct1_sampled state)
  inner_from_pb (Proto.ek_received_ct1_sampled pb) = do
    state ← (SendCt.ek_received_ct1_sampled st).from_pb pb
    ok (ek_received_ct1_sampled state)
  inner_from_pb (Proto.ct1_acknowledged pb) = do
    state ← (SendCt.ct1_acknowledged st).from_pb pb
    ok (ct1_acknowledged state)
  inner_from_pb (Proto.ct2_sampled pb) = do
    state ← (SendCt.ct2_sampled st).from_pb pb
    ok (ct2_sampled state)

  unfoldable pub into_pb : States Encoder Decoder → V1State
  unfolding inner_into_pb
  into_pb self = record { inner_state = some (inner_into_pb self) }

  unfoldable pub from_pb : V1State → Outcome Error (States Encoder Decoder)
  unfolding inner_from_pb
  from_pb pb = elim pb.inner_state [ some inner ↦ inner_from_pb inner | none ↦ err state_decode ]

  -- Every stored value has its size, and the codecs can be stored.
  abbrev pub IsStorable : States Encoder Decoder → Type 0
  IsStorable (keys_unsampled s) = Unit {0}
  IsStorable (keys_sampled s) =
      (length s.uc.dk ≡ 2400) × (length s.uc.ek ≡ 1152) × Restores st.encoder s.sending_hdr
  IsStorable (header_sent s) =
      (length s.uc.dk ≡ 2400)
      × Restores st.encoder s.sending_ek
      × Expects st (ciphertext1_size / 2) s.receiving_ct1
  IsStorable (ct1_received s) =
      (length s.uc.dk ≡ 2400) × (length s.uc.ct1 ≡ 960) × Restores st.encoder s.sending_ek
  IsStorable (ek_sent_ct1_received s) =
      (length s.uc.dk ≡ 2400)
      × (length s.uc.ct1 ≡ 960)
      × Expects st ((ciphertext2_size + macsize) / 2) s.receiving_ct2
  IsStorable (no_header_received s) = Expects st ((header_size + macsize) / 2) s.receiving_hdr
  IsStorable (header_received s) =
      (length s.uc.hdr ≡ 64) × Expects st (encapsulation_key_size / 2) s.receiving_ek
  IsStorable (ct1_sampled s) =
      (length s.uc.hdr ≡ 64)
      × (length s.uc.es ≡ 2080)
      × (length s.uc.ct1 ≡ 960)
      × Restores st.encoder s.sending_ct1
      × Expects st (encapsulation_key_size / 2) s.receiving_ek
  IsStorable (ek_received_ct1_sampled s) =
      (length s.uc.es ≡ 2080)
      × (length s.uc.ct1 ≡ 960)
      × (length s.uc.ek ≡ 1152)
      × Restores st.encoder s.sending_ct1
  IsStorable (ct1_acknowledged s) =
      (length s.uc.hdr ≡ 64)
      × (length s.uc.es ≡ 2080)
      × (length s.uc.ct1 ≡ 960)
      × Expects st (encapsulation_key_size / 2) s.receiving_ek
  IsStorable (ct2_sampled s) = Restores st.encoder s.sending_ct2

  -- Each of the eleven states, when its stored values have their sizes, its decoder expects the
  -- points of its message, and its codecs are restored, is loaded from its protobuf as it was
  -- stored.
  pub from_pb-into_pb_states :
      (s : States Encoder Decoder) → IsStorable s → from_pb (into_pb s) ≡ ok s
  unfolding from_pb into_pb inner_from_pb inner_into_pb
  from_pb-into_pb_states (keys_unsampled s) h =
      rw (SendEk.keys_unsampled-Restores st s (WholeEk.keys_unsampled-Restores s.uc))
  from_pb-into_pb_states (keys_sampled s) h =
      rw (SendEk.keys_sampled-Restores st s (WholeEk.header_sent-Restores s.uc h.0 h.1) h.2)
  from_pb-into_pb_states (header_sent s) h =
      rw (SendEk.header_sent-Restores st s (WholeEk.ek_sent-Restores s.uc h.0) h.1 h.2)
  from_pb-into_pb_states (ct1_received s) h =
      rw
        (SendEk.ct1_received-Restores st s (WholeEk.ek_sent_ct1_received-Restores s.uc h.0 h.1) h.2)
  from_pb-into_pb_states (ek_sent_ct1_received s) h = rw (
      SendEk.ek_sent_ct1_received-Restores st s (WholeEk.ek_sent_ct1_received-Restores s.uc h.0 h.1)
        h.2)
  from_pb-into_pb_states (no_header_received s) h =
      rw (SendCt.no_header_received-Restores st s (WholeCt.no_header_received-Restores s.uc) h)
  from_pb-into_pb_states (header_received s) h =
      rw (SendCt.header_received-Restores st s (WholeCt.header_received-Restores s.uc h.0) h.1)
  from_pb-into_pb_states (ct1_sampled s) h =
      rw (SendCt.ct1_sampled-Restores st s (WholeCt.ct1_sent-Restores s.uc h.0 h.1 h.2) h.3 h.4)
  from_pb-into_pb_states (ek_received_ct1_sampled s) h = rw (
      SendCt.ek_received_ct1_sampled-Restores st s
        (WholeCt.ct1_sent_ek_received-Restores s.uc h.0 h.1 h.2) h.3)
  from_pb-into_pb_states (ct1_acknowledged s) h =
      rw (SendCt.ct1_acknowledged-Restores st s (WholeCt.ct1_sent-Restores s.uc h.0 h.1 h.2) h.3)
  from_pb-into_pb_states (ct2_sampled s) h =
      rw (SendCt.ct2_sampled-Restores st s (WholeCt.ct2_sent-Restores s.uc) h)
