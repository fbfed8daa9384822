-- ===== src/Unchunked/SendEk/Stored.antt =====
-- src/v1/unchunked/send_ek/serialize.rs: storing the states of this party over whole values.
use sparse_post_quantum_ratc.Prelude.{
  ◌≡◌, refl, some, ok, err, ◌>>=◌, ◌==◌, ◌&&◌, if◌then◌else◌, length,
}
use sparse_post_quantum_ratc.Types.{Error, state_decode}
use sparse_post_quantum_ratc.Stored.{Stored, Restores}
use sparse_post_quantum_ratc.Authenticator.Stored.{authenticator, load_auth}
use sparse_post_quantum_ratc.Proto.Unchunked as Proto
use sparse_post_quantum_ratc.Unchunked.SendCt.{KeysUnsampled}
use sparse_post_quantum_ratc.Unchunked.SendEk.{HeaderSent, EkSent, EkSentCt1Received}

unfoldable pub keys_unsampled : Stored Error KeysUnsampled Proto.KeysUnsampled
unfolding authenticator
keys_unsampled = record {
  into_pb = λ self. record { epoch = self.epoch; auth = some (authenticator.into_pb self.auth) };
  from_pb = λ pb. (do auth ← load_auth pb.auth; ok (record { epoch = pb.epoch; auth = auth }));
}

unfoldable pub header_sent : Stored Error HeaderSent Proto.HeaderSent
unfolding authenticator
header_sent = record {
  into_pb = λ self. record {
    epoch = self.epoch;
    auth = some (authenticator.into_pb self.auth);
    ek = self.ek;
    dk = self.dk;
  };
  from_pb = λ pb.
      if (length pb.dk == 2400) && (length pb.ek == 1152)
      then (do
        auth ← load_auth pb.auth
        ok (record { epoch = pb.epoch; auth = auth; ek = pb.ek; dk = pb.dk }))
      else err state_decode;
}

unfoldable pub ek_sent : Stored Error EkSent Proto.EkSent
unfolding authenticator
ek_sent = record {
  into_pb = λ self. record {
    epoch = self.epoch;
    auth = some (authenticator.into_pb self.auth);
    dk = self.dk;
  };
  from_pb = λ pb.
      if (length pb.dk == 2400)
      then (do auth ← load_auth pb.auth; ok (record { epoch = pb.epoch; auth = auth; dk = pb.dk }))
      else err state_decode;
}

unfoldable pub ek_sent_ct1_received : Stored Error EkSentCt1Received Proto.EkSentCt1Received
unfolding authenticator
ek_sent_ct1_received = record {
  into_pb = λ self. record {
    epoch = self.epoch;
    auth = some (authenticator.into_pb self.auth);
    dk = self.dk;
    ct1 = self.ct1;
  };
  from_pb = λ pb.
      if (length pb.dk == 2400) && (length pb.ct1 == 960)
      then (do
        auth ← load_auth pb.auth
        ok (record { epoch = pb.epoch; auth = auth; dk = pb.dk; ct1 = pb.ct1 }))
      else err state_decode;
}

pub keys_unsampled-Restores : (self : KeysUnsampled) → Restores keys_unsampled self
unfolding keys_unsampled authenticator
keys_unsampled-Restores self = refl

pub header_sent-Restores :
    (self : HeaderSent) → length self.dk ≡ 2400 → length self.ek ≡ 1152 → Restores header_sent self
unfolding header_sent authenticator
header_sent-Restores self h_dk h_ek = rw (h_dk, h_ek)

pub ek_sent-Restores : (self : EkSent) → length self.dk ≡ 2400 → Restores ek_sent self
unfolding ek_sent authenticator
ek_sent-Restores self h_dk = rw (h_dk)

pub ek_sent_ct1_received-Restores :
    (self : EkSentCt1Received)
    → length self.dk ≡ 2400
    → length self.ct1 ≡ 960
    → Restores ek_sent_ct1_received self
unfolding ek_sent_ct1_received authenticator
ek_sent_ct1_received-Restores self h_dk h_ct1 = rw (h_dk, h_ct1)
