-- ===== src/Chunked/SendCt/Stored.antt =====
-- src/v1/chunked/send_ct/serialize.rs: storing the states of this party with their codecs.
use sparse_post_quantum_ratc.Prelude.{◌+◌, ◌/◌, some, ok, ◌>>=◌, ◌>>◌}
use sparse_post_quantum_ratc.Types.{Error}
use sparse_post_quantum_ratc.Kem.{header_size, encapsulation_key_size}
use sparse_post_quantum_ratc.Authenticator.{macsize}
use sparse_post_quantum_ratc.Stored.{
  Stored, StoredCodec, Restores, Expects, load, load_codec, check_pts,
}
use sparse_post_quantum_ratc.Proto.Chunked as Proto
use sparse_post_quantum_ratc.Unchunked.SendCt.Stored as Whole
use sparse_post_quantum_ratc.Chunked.SendCt.{
  NoHeaderReceived, HeaderReceived, Ct1Sampled, EkReceivedCt1Sampled, Ct1Acknowledged, Ct2Sampled,
}

module _ {Encoder Decoder : Type 0} (st : StoredCodec Encoder Decoder) where
  unfoldable pub no_header_received : Stored Error (NoHeaderReceived Decoder) Proto.NoHeaderReceived
  no_header_received = record {
    into_pb = λ self. record {
      uc = some (Whole.no_header_received.into_pb self.uc);
      receiving_hdr = some (st.decoder.into_pb self.receiving_hdr);
    };
    from_pb = λ pb. (do
      check_pts pb.receiving_hdr ((header_size + macsize) / 2)
      uc ← load Whole.no_header_received pb.uc
      receiving_hdr ← load_codec st.decoder pb.receiving_hdr
      ok (record { uc = uc; receiving_hdr = receiving_hdr }));
  }

  unfoldable pub header_received : Stored Error (HeaderReceived Decoder) Proto.HeaderReceived
  header_received = record {
    into_pb = λ self. record {
      uc = some (Whole.header_received.into_pb self.uc);
      receiving_ek = some (st.decoder.into_pb self.receiving_ek);
    };
    from_pb = λ pb. (do
      check_pts pb.receiving_ek (encapsulation_key_size / 2)
      uc ← load Whole.header_received pb.uc
      receiving_ek ← load_codec st.decoder pb.receiving_ek
      ok (record { uc = uc; receiving_ek = receiving_ek }));
  }

  unfoldable pub ct1_sampled : Stored Error (Ct1Sampled Encoder Decoder) Proto.Ct1Sampled
  ct1_sampled = record {
    into_pb = λ self. record {
      uc = some (Whole.ct1_sent.into_pb self.uc);
      sending_ct1 = some (st.encoder.into_pb self.sending_ct1);
      receiving_ek = some (st.decoder.into_pb self.receiving_ek);
    };
    from_pb = λ pb. (do
      check_pts pb.receiving_ek (encapsulation_key_size / 2)
      uc ← load Whole.ct1_sent pb.uc
      sending_ct1 ← load_codec st.encoder pb.sending_ct1
      receiving_ek ← load_codec st.decoder pb.receiving_ek
      ok (record { uc = uc; sending_ct1 = sending_ct1; receiving_ek = receiving_ek }));
  }

  unfoldable pub ek_received_ct1_sampled :
      Stored Error (EkReceivedCt1Sampled Encoder) Proto.EkReceivedCt1Sampled
  ek_received_ct1_sampled = record {
    into_pb = λ self. record {
      uc = some (Whole.ct1_sent_ek_received.into_pb self.uc);
      sending_ct1 = some (st.encoder.into_pb self.sending_ct1);
    };
    from_pb = λ pb. (do
      uc ← load Whole.ct1_sent_ek_received pb.uc
      sending_ct1 ← load_codec st.encoder pb.sending_ct1
      ok (record { uc = uc; sending_ct1 = sending_ct1 }));
  }

  unfoldable pub ct1_acknowledged : Stored Error (Ct1Acknowledged Decoder) Proto.Ct1Acknowledged
  ct1_acknowledged = record {
    into_pb = λ self. record {
      uc = some (Whole.ct1_sent.into_pb self.uc);
      receiving_ek = some (st.decoder.into_pb self.receiving_ek);
    };
    from_pb = λ pb. (do
      check_pts pb.receiving_ek (encapsulation_key_size / 2)
      uc ← load Whole.ct1_sent pb.uc
      receiving_ek ← load_codec st.decoder pb.receiving_ek
      ok (record { uc = uc; receiving_ek = receiving_ek }));
  }

  unfoldable pub ct2_sampled : Stored Error (Ct2Sampled Encoder) Proto.Ct2Sampled
  ct2_sampled = record {
    into_pb = λ self. record {
      uc = some (Whole.ct2_sent.into_pb self.uc);
      sending_ct2 = some (st.encoder.into_pb self.sending_ct2);
    };
    from_pb = λ pb. (do
      uc ← load Whole.ct2_sent pb.uc
      sending_ct2 ← load_codec st.encoder pb.sending_ct2
      ok (record { uc = uc; sending_ct2 = sending_ct2 }));
  }

  pub no_header_received-Restores :
      (self : NoHeaderReceived Decoder)
      → Restores Whole.no_header_received self.uc
      → Expects st ((header_size + macsize) / 2) self.receiving_hdr
      → Restores no_header_received self
  unfolding no_header_received
  no_header_received-Restores self whole receiving = simp (receiving.1, whole, receiving.0)

  pub header_received-Restores :
      (self : HeaderReceived Decoder)
      → Restores Whole.header_received self.uc
      → Expects st (encapsulation_key_size / 2) self.receiving_ek
      → Restores header_received self
  unfolding header_received
  header_received-Restores self whole receiving = simp (receiving.1, whole, receiving.0)

  pub ct1_sampled-Restores :
      (self : Ct1Sampled Encoder Decoder)
      → Restores Whole.ct1_sent self.uc
      → Restores st.encoder self.sending_ct1
      → Expects st (encapsulation_key_size / 2) self.receiving_ek
      → Restores ct1_sampled self
  unfolding ct1_sampled
  ct1_sampled-Restores self whole sending receiving =
      simp (receiving.1, whole, sending, receiving.0)

  pub ek_received_ct1_sampled-Restores :
      (self : EkReceivedCt1Sampled Encoder)
      → Restores Whole.ct1_sent_ek_received self.uc
      → Restores st.encoder self.sending_ct1
      → Restores ek_received_ct1_sampled self
  unfolding ek_received_ct1_sampled
  ek_received_ct1_sampled-Restores self whole sending = rw (whole, sending)

  pub ct1_acknowledged-Restores :
      (self : Ct1Acknowledged Decoder)
      → Restores Whole.ct1_sent self.uc
      → Expects st (encapsulation_key_size / 2) self.receiving_ek
      → Restores ct1_acknowledged self
  unfolding ct1_acknowledged
  ct1_acknowledged-Restores self whole receiving = simp (receiving.1, whole, receiving.0)

  pub ct2_sampled-Restores :
      (self : Ct2Sampled Encoder)
      → Restores Whole.ct2_sent self.uc
      → Restores st.encoder self.sending_ct2
      → Restores ct2_sampled self
  unfolding ct2_sampled
  ct2_sampled-Restores self whole sending = rw (whole, sending)
