-- ===== src/Unchunked/SendCt/Stored.antt =====
-- src/v1/unchunked/send_ct/serialize.rs: storing the states of this party over whole values.
use sparse_post_quantum_ratc.Prelude.{
  ◌≡◌, refl, some, ok, err, ◌>>=◌, ◌==◌, ◌&&◌, if◌then◌else◌, length,
}
use sparse_post_quantum_ratc.Types.{Error, state_decode}
use sparse_post_quantum_ratc.Stored.{Stored, Restores}
use sparse_post_quantum_ratc.Authenticator.Stored.{authenticator, load_auth}
use sparse_post_quantum_ratc.Proto.Unchunked as Proto
use sparse_post_quantum_ratc.Unchunked.SendCt.{
  NoHeaderReceived, HeaderReceived, Ct1Sent, Ct1SentEkReceived, Ct2Sent,
}

unfoldable pub no_header_received : Stored Error NoHeaderReceived Proto.NoHeaderReceived
unfolding authenticator
no_header_received = record {
  into_pb = λ self. record { epoch = self.epoch; auth = some (authenticator.into_pb self.auth) };
  from_pb = λ pb. (do auth ← load_auth pb.auth; ok (record { epoch = pb.epoch; auth = auth }));
}

unfoldable pub header_received : Stored Error HeaderReceived Proto.HeaderReceived
unfolding authenticator
header_received = record {
  into_pb = λ self. record {
    epoch = self.epoch;
    auth = some (authenticator.into_pb self.auth);
    hdr = self.hdr;
  };
  from_pb = λ pb.
      if (length pb.hdr == 64)
      then (do
        auth ← load_auth pb.auth
        ok (record { epoch = pb.epoch; auth = auth; hdr = pb.hdr }))
      else err state_decode;
}

unfoldable pub ct1_sent : Stored Error Ct1Sent Proto.Ct1Sent
unfolding authenticator
ct1_sent = record {
  into_pb = λ self. record {
    epoch = self.epoch;
    auth = some (authenticator.into_pb self.auth);
    hdr = self.hdr;
    es = self.es;
    ct1 = self.ct1;
  };
  from_pb = λ pb.
      if (length pb.hdr == 64) && (length pb.es == 2080) && (length pb.ct1 == 960)
      then (do
        auth ← load_auth pb.auth
        ok (record { epoch = pb.epoch; auth = auth; hdr = pb.hdr; es = pb.es; ct1 = pb.ct1 }))
      else err state_decode;
}

unfoldable pub ct1_sent_ek_received : Stored Error Ct1SentEkReceived Proto.Ct1SentEkReceived
unfolding authenticator
ct1_sent_ek_received = record {
  into_pb = λ self. record {
    epoch = self.epoch;
    auth = some (authenticator.into_pb self.auth);
    es = self.es;
    ek = self.ek;
    ct1 = self.ct1;
  };
  from_pb = λ pb.
      if (length pb.es == 2080) && (length pb.ct1 == 960) && (length pb.ek == 1152)
      then (do
        auth ← load_auth pb.auth
        ok (record { epoch = pb.epoch; auth = auth; es = pb.es; ek = pb.ek; ct1 = pb.ct1 }))
      else err state_decode;
}

unfoldable pub ct2_sent : Stored Error Ct2Sent Proto.Ct2Sent
unfolding authenticator
ct2_sent = record {
  into_pb = λ self. record { epoch = self.epoch; auth = some (authenticator.into_pb self.auth) };
  from_pb = λ pb. (do auth ← load_auth pb.auth; ok (record { epoch = pb.epoch; auth = auth }));
}

pub no_header_received-Restores : (self : NoHeaderReceived) → Restores no_header_received self
unfolding no_header_received authenticator
no_header_received-Restores self = refl

pub header_received-Restores :
    (self : HeaderReceived) → length self.hdr ≡ 64 → Restores header_received self
unfolding header_received authenticator
header_received-Restores self h_hdr = rw (h_hdr)

pub ct1_sent-Restores :
    (self : Ct1Sent)
    → length self.hdr ≡ 64
    → length self.es ≡ 2080
    → length self.ct1 ≡ 960
    → Restores ct1_sent self
unfolding ct1_sent authenticator
ct1_sent-Restores self h_hdr h_es h_ct1 = rw (h_hdr, h_es, h_ct1)

pub ct1_sent_ek_received-Restores :
    (self : Ct1SentEkReceived)
    → length self.es ≡ 2080
    → length self.ct1 ≡ 960
    → length self.ek ≡ 1152
    → Restores ct1_sent_ek_received self
unfolding ct1_sent_ek_received authenticator
ct1_sent_ek_received-Restores self h_es h_ct1 h_ek = rw (h_es, h_ct1, h_ek)

pub ct2_sent-Restores : (self : Ct2Sent) → Restores ct2_sent self
unfolding ct2_sent authenticator
ct2_sent-Restores self = refl
