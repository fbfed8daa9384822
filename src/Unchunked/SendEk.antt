-- ===== src/Unchunked/SendEk.antt =====
-- src/v1/unchunked/send_ek.rs: the party that sends an encapsulation key, over whole values.
pub mod Stored
use sparse_post_quantum_ratc.Prelude.{
  ◌++◌, ◌==◌, replicate, add_checked, Outcome, ok, ◌>>=◌, ◌>>◌, assert, map_err,
}
use sparse_post_quantum_ratc.Types.{Bytes, Epoch, EpochSecret, Error, error_of_auth}
use sparse_post_quantum_ratc.Crypto.{Crypto, Rng, hkdf_to_vec}
use sparse_post_quantum_ratc.Kem
use sparse_post_quantum_ratc.Authenticator
use sparse_post_quantum_ratc.Authenticator.{Authenticator}
use sparse_post_quantum_ratc.Unchunked.SendCt.{KeysUnsampled, NoHeaderReceived, scka_info}

pub record HeaderSent : Type 0 where
  pub epoch : Epoch
  pub auth : Authenticator
  pub ek : Bytes
  pub dk : Bytes

pub record EkSent : Type 0 where
  pub epoch : Epoch
  pub auth : Authenticator
  pub dk : Bytes

pub record EkSentCt1Received : Type 0 where
  pub epoch : Epoch
  pub auth : Authenticator
  pub dk : Bytes
  pub ct1 : Bytes

module _ (c : Crypto) where
  unfoldable pub new {ℓ} : {E : Type ℓ} → Bytes → Outcome E KeysUnsampled
  new auth_key = do auth ← Authenticator.new c auth_key 1; ok (record { epoch = 1; auth = auth })

  unfoldable pub send_header : KeysUnsampled → Rng → HeaderSent × Bytes × Bytes
  send_header self rng =
      let keys = Kem.generate c rng in
      let mac = Authenticator.mac_hdr c self.auth self.epoch keys.hdr in
      (record { epoch = self.epoch; auth = self.auth; ek = keys.ek; dk = keys.dk }, keys.hdr, mac)

  unfoldable pub recv_ct2 :
      EkSentCt1Received → Bytes → Bytes → Outcome Error (NoHeaderReceived × EpochSecret)
  recv_ct2 self ct2 mac = do
    shared ← Kem.decaps c self.dk self.ct1 ct2
    ss ← hkdf_to_vec c (replicate 32 0) shared (scka_info self.epoch) 32
    auth ← Authenticator.update c self.auth self.epoch ss
    map_err error_of_auth (Authenticator.verify_ct c auth self.epoch (self.ct1 ++ ct2) mac)
    following ← add_checked 64 self.epoch 1
    ok (record { epoch = following; auth = auth }, record { epoch = self.epoch; secret = ss })

unfoldable pub send_ek : HeaderSent → EkSent × Bytes
send_ek self = (record { epoch = self.epoch; auth = self.auth; dk = self.dk }, self.ek)

unfoldable pub recv_ct1 {ℓ} : {E : Type ℓ} → EkSent → Epoch → Bytes → Outcome E EkSentCt1Received
recv_ct1 self epoch ct1 = do
  assert (epoch == self.epoch)
  ok (record { epoch = self.epoch; auth = self.auth; dk = self.dk; ct1 = ct1 })
