-- ===== src/Unchunked/SendCt.antt =====
-- src/v1/unchunked/send_ct.rs: the party that sends a ciphertext, over whole values.
pub mod Stored
use sparse_post_quantum_ratc.Prelude.{
  ◌++◌, ◌==◌, if◌then◌else◌, replicate, to_be_bytes64, add_checked, Outcome, ok, err, ◌>>=◌, ◌>>◌,
  assert, map_err,
}
use sparse_post_quantum_ratc.Types.{
  Bytes, Epoch, EpochSecret, Error, erroneous_data_received, error_of_auth,
}
use sparse_post_quantum_ratc.Crypto.{Crypto, Rng, hkdf_to_vec, ascii}
use sparse_post_quantum_ratc.Kem
use sparse_post_quantum_ratc.Authenticator
use sparse_post_quantum_ratc.Authenticator.{Authenticator}

pub record NoHeaderReceived : Type 0 where
  pub epoch : Epoch
  pub auth : Authenticator

pub record HeaderReceived : Type 0 where
  pub epoch : Epoch
  pub auth : Authenticator
  pub hdr : Bytes

pub record Ct1Sent : Type 0 where
  pub epoch : Epoch
  pub auth : Authenticator
  pub hdr : Bytes
  pub es : Bytes
  pub ct1 : Bytes

pub record Ct1SentEkReceived : Type 0 where
  pub epoch : Epoch
  pub auth : Authenticator
  pub es : Bytes
  pub ek : Bytes
  pub ct1 : Bytes

pub record Ct2Sent : Type 0 where
  pub epoch : Epoch
  pub auth : Authenticator

-- `KeysUnsampled` of src/v1/unchunked/send_ek.rs, which `recv_next_epoch` hands over to.
pub record KeysUnsampled : Type 0 where
  pub epoch : Epoch
  pub auth : Authenticator

-- `b"Signal_PQCKA_V1_MLKEM768:SCKA Key"` and the epoch.
abbrev pub scka_info : Epoch → Bytes
scka_info epoch = ascii "Signal_PQCKA_V1_MLKEM768:SCKA Key" ++ to_be_bytes64 epoch

module _ (c : Crypto) where
  unfoldable pub new {ℓ} : {E : Type ℓ} → Bytes → Outcome E NoHeaderReceived
  new auth_key = do auth ← Authenticator.new c auth_key 1; ok (record { epoch = 1; auth = auth })

  unfoldable pub recv_header :
      NoHeaderReceived → Epoch → Bytes → Bytes → Outcome Error HeaderReceived
  recv_header self epoch hdr mac = do
    assert (epoch == self.epoch)
    map_err error_of_auth (Authenticator.verify_hdr c self.auth self.epoch hdr mac)
    ok (record { epoch = self.epoch; auth = self.auth; hdr = hdr })

  unfoldable pub send_ct1 {ℓ} :
      {E : Type ℓ} → HeaderReceived → Rng → Outcome E (Ct1Sent × Bytes × EpochSecret)
  send_ct1 self rng = do
    (ct1, es, ss) ← Kem.encaps1 c self.hdr rng
    secret ← hkdf_to_vec c (replicate 32 0) ss (scka_info self.epoch) 32
    auth ← Authenticator.update c self.auth self.epoch secret
    ok (
      record { epoch = self.epoch; auth = auth; hdr = self.hdr; es = es; ct1 = ct1 },
      ct1,
      record { epoch = self.epoch; secret = secret },
    )

  unfoldable pub recv_ek : Ct1Sent → Epoch → Bytes → Outcome Error Ct1SentEkReceived
  recv_ek self epoch ek = do
    assert (epoch == self.epoch)
    if Kem.ek_matches_header c ek self.hdr
        then ok
            (record { epoch = self.epoch; auth = self.auth; ek = ek; es = self.es; ct1 = self.ct1 })
        else err erroneous_data_received

  unfoldable pub send_ct2 {ℓ} :
      {E : Type ℓ} → Ct1SentEkReceived → Outcome E (Ct2Sent × Bytes × Bytes)
  send_ct2 self = do
    ct2 ← Kem.encaps2 c self.ek self.es
    let mac = Authenticator.mac_ct c self.auth self.epoch (self.ct1 ++ ct2)
    ok (record { epoch = self.epoch; auth = self.auth }, ct2, mac)

unfoldable pub recv_next_epoch {ℓ} : {E : Type ℓ} → Ct2Sent → Epoch → Outcome E KeysUnsampled
recv_next_epoch self next_epoch = do
  following ← add_checked 64 self.epoch 1
  assert (following == next_epoch)
  ok (record { epoch = following; auth = self.auth })
