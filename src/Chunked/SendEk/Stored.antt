-- ===== src/Chunked/SendEk/Stored.antt =====
-- src/v1/chunked/send_ek/serialize.rs: storing the states of this party with their codecs.
use sparse_post_quantum_ratc.Prelude.{◌+◌, ◌/◌, some, ok, ◌>>=◌, ◌>>◌}
use sparse_post_quantum_ratc.Types.{Error}
use sparse_post_quantum_ratc.Kem.{ciphertext1_size, ciphertext2_size}
use sparse_post_quantum_ratc.Authenticator.{macsize}
use sparse_post_quantum_ratc.Stored.{
  Stored, StoredCodec, Restores, Expects, load, load_codec, check_pts,
}
use sparse_post_quantum_ratc.Proto.Chunked as Proto
use sparse_post_quantum_ratc.Unchunked.SendEk.Stored as Whole
use sparse_post_quantum_ratc.Chunked.SendCt.{KeysUnsampled}
use sparse_post_quantum_ratc.Chunked.SendEk.{
  KeysSampled, HeaderSent, Ct1Received, EkSentCt1Received,
}

module _ {Encoder Decoder : Type 0} (st : StoredCodec Encoder Decoder) where
  unfoldable pub keys_unsampled : Stored Error KeysUnsampled Proto.KeysUnsampled
  keys_unsampled = record {
    into_pb = λ self. record { uc = some (Whole.keys_unsampled.into_pb self.uc) };
    from_pb = λ pb. (do uc ← load Whole.keys_unsampled pb.uc; ok (record { uc = uc }));
  }

  unfoldable pub keys_sampled : Stored Error (KeysSampled Encoder) Proto.KeysSampled
  keys_sampled = record {
    into_pb = λ self. record {
      uc = some (Whole.header_sent.into_pb self.uc);
      sending_hdr = some (st.encoder.into_pb self.sending_hdr);
    };
    from_pb = λ pb. (do
      uc ← load Whole.header_sent pb.uc
      sending_hdr ← load_codec st.encoder pb.sending_hdr
      ok (record { uc = uc; sending_hdr = sending_hdr }));
  }

  unfoldable pub header_sent : Stored Error (HeaderSent Encoder Decoder) Proto.HeaderSent
  header_sent = record {
    into_pb = λ self. record {
      uc = some (Whole.ek_sent.into_pb self.uc);
      sending_ek = some (st.encoder.into_pb self.sending_ek);
      receiving_ct1 = some (st.decoder.into_pb self.receiving_ct1);
    };
    from_pb = λ pb. (do
      check_pts pb.receiving_ct1 (ciphertext1_size / 2)
      uc ← load Whole.ek_sent pb.uc
      sending_ek ← load_codec st.encoder pb.sending_ek
      receiving_ct1 ← load_codec st.decoder pb.receiving_ct1
      ok (record { uc = uc; sending_ek = sending_ek; receiving_ct1 = receiving_ct1 }));
  }

  unfoldable pub ct1_received : Stored Error (Ct1Received Encoder) Proto.Ct1Received
  ct1_received = record {
    into_pb = λ self. record {
      uc = some (Whole.ek_sent_ct1_received.into_pb self.uc);
      sending_ek = some (st.encoder.into_pb self.sending_ek);
    };
    from_pb = λ pb. (do
      uc ← load Whole.ek_sent_ct1_received pb.uc
      sending_ek ← load_codec st.encoder pb.sending_ek
      ok (record { uc = uc; sending_ek = sending_ek }));
  }

  unfoldable pub ek_sent_ct1_received :
      Stored Error (EkSentCt1Received Decoder) Proto.EkSentCt1Received
  ek_sent_ct1_received = record {
    into_pb = λ self. record {
      uc = some (Whole.ek_sent_ct1_received.into_pb self.uc);
      receiving_ct2 = some (st.decoder.into_pb self.receiving_ct2);
    };
    from_pb = λ pb. (do
      check_pts pb.receiving_ct2 ((ciphertext2_size + macsize) / 2)
      uc ← load Whole.ek_sent_ct1_received pb.uc
      receiving_ct2 ← load_codec st.decoder pb.receiving_ct2
      ok (record { uc = uc; receiving_ct2 = receiving_ct2 }));
  }

  pub keys_unsampled-Restores :
      (self : KeysUnsampled) → Restores Whole.keys_unsampled self.uc → Restores keys_unsampled self
  unfolding keys_unsampled
  keys_unsampled-Restores self whole = rw (whole)

  pub keys_sampled-Restores :
      (self : KeysSampled Encoder)
      → Restores Whole.header_sent self.uc
      → Restores st.encoder self.sending_hdr
      → Restores keys_sampled self
  unfolding keys_sampled
  keys_sampled-Restores self whole sending = rw (whole, sending)

  pub header_sent-Restores :
      (self : HeaderSent Encoder Decoder)
      → Restores Whole.ek_sent self.uc
      → Restores st.encoder self.sending_ek
      → Expects st (ciphertext1_size / 2) self.receiving_ct1
      → Restores header_sent self
  unfolding header_sent
  header_sent-Restores self whole sending receiving =
      simp (receiving.1, whole, sending, receiving.0)

  pub ct1_received-Restores :
      (self : Ct1Received Encoder)
      → Restores Whole.ek_sent_ct1_received self.uc
      → Restores st.encoder self.sending_ek
      → Restores ct1_received self
  unfolding ct1_received
  ct1_received-Restores self whole sending = rw (whole, sending)

  pub ek_sent_ct1_received-Restores :
      (self : EkSentCt1Received Decoder)
      → Restores Whole.ek_sent_ct1_received self.uc
      → Expects st ((ciphertext2_size + macsize) / 2) self.receiving_ct2
      → Restores ek_sent_ct1_received self
  unfolding ek_sent_ct1_received
  ek_sent_ct1_received-Restores self whole receiving = simp (receiving.1, whole, receiving.0)
