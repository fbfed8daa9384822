-- ===== src/Unchunked/Epochs.antt =====
-- The epochs of the states of src/v1/unchunked/send_ek.rs and send_ct.rs, as rules for calls that go
-- from one state to the next.
use sparse_post_quantum_ratc.Prelude.{
  ◌+◌, ◌≡◌, Outcome, ◌>>=◌, Ensures, Ensures-ok, Ensures-err, Ensures-bind, Ensures-then,
  Ensures-checked, Ensures-either,
}
use sparse_post_quantum_ratc.Types.{Bytes, Epoch, EpochSecret, Error}
use sparse_post_quantum_ratc.Crypto.{Crypto, Rng}
use sparse_post_quantum_ratc.Unchunked.SendEk as UncEk
use sparse_post_quantum_ratc.Unchunked.SendCt as UncCt

module _ (c : Crypto) where
  recv_ct2-epoch :
      (self : UncEk.EkSentCt1Received) (ct2 mac : Bytes)
      → Ensures
          (λ r. (r.0.epoch ≡ self.epoch + 1) × (r.1.epoch ≡ self.epoch))
          (UncEk.recv_ct2 c self ct2 mac)
  unfolding UncEk.recv_ct2
  recv_ct2-epoch self ct2 mac = search (Ensures-checked, Ensures-bind, Ensures-ok) depth 12

  recv_header-epoch :
      (self : UncCt.NoHeaderReceived) (epoch : Epoch) (h mac : Bytes)
      → Ensures (λ r. r.epoch ≡ self.epoch) (UncCt.recv_header c self epoch h mac)
  unfolding UncCt.recv_header
  recv_header-epoch self epoch h mac = search (Ensures-bind, Ensures-ok) depth 12

  send_ct1-epoch :
      (self : UncCt.HeaderReceived) (rng : Rng)
      → Ensures {E = Error}
          (λ r. (r.0.epoch ≡ self.epoch) × (r.2.epoch ≡ self.epoch))
          (UncCt.send_ct1 c self rng)
  unfolding UncCt.send_ct1
  send_ct1-epoch self rng = search (Ensures-bind, Ensures-ok) depth 12

  recv_ek-epoch :
      (self : UncCt.Ct1Sent) (epoch : Epoch) (ek : Bytes)
      → Ensures (λ r. r.epoch ≡ self.epoch) (UncCt.recv_ek c self epoch ek)
  unfolding UncCt.recv_ek
  recv_ek-epoch self epoch ek =
      search (Ensures-bind, Ensures-either, Ensures-err, Ensures-ok) depth 12

  send_ct2-epoch :
      (self : UncCt.Ct1SentEkReceived)
      → Ensures {E = Error} (λ r. r.0.epoch ≡ self.epoch) (UncCt.send_ct2 c self)
  unfolding UncCt.send_ct2
  send_ct2-epoch self = search (Ensures-bind, Ensures-ok) depth 12

recv_ct1-epoch :
    (self : UncEk.EkSent) (epoch : Epoch) (ct1 : Bytes)
    → Ensures {E = Error} (λ r. r.epoch ≡ self.epoch) (UncEk.recv_ct1 self epoch ct1)
unfolding UncEk.recv_ct1
recv_ct1-epoch self epoch ct1 = search (Ensures-bind, Ensures-ok) depth 12

recv_next_epoch-epoch :
    (self : UncCt.Ct2Sent) (epoch : Epoch)
    → Ensures {E = Error} (λ r. r.epoch ≡ self.epoch + 1) (UncCt.recv_next_epoch self epoch)
unfolding UncCt.recv_next_epoch
recv_next_epoch-epoch self epoch = search (Ensures-checked, Ensures-bind, Ensures-ok) depth 12

module _ {B : Type 0} {P : B → Type 0} where
  pub recv_ct1-then :
      (self : UncEk.EkSent) (epoch : Epoch) (ct1 : Bytes)
      (f : UncEk.EkSentCt1Received → Outcome Error B)
      → ((s : UncEk.EkSentCt1Received) → s.epoch ≡ self.epoch → Ensures P (f s))
      → Ensures P (UncEk.recv_ct1 self epoch ct1 >>= f)
  recv_ct1-then self epoch ct1 f rest = Ensures-then f (recv_ct1-epoch self epoch ct1) rest

  pub recv_next_epoch-then :
      (self : UncCt.Ct2Sent) (epoch : Epoch) (f : UncCt.KeysUnsampled → Outcome Error B)
      → ((s : UncCt.KeysUnsampled) → s.epoch ≡ self.epoch + 1 → Ensures P (f s))
      → Ensures P (UncCt.recv_next_epoch self epoch >>= f)
  recv_next_epoch-then self epoch f rest = Ensures-then f (recv_next_epoch-epoch self epoch) rest

module _ (c : Crypto) {B : Type 0} {P : B → Type 0} where
  pub recv_ct2-then :
      (self : UncEk.EkSentCt1Received) (ct2 mac : Bytes)
      (f : UncCt.NoHeaderReceived × EpochSecret → Outcome Error B)
      → ((p : UncCt.NoHeaderReceived × EpochSecret)
          → p.0.epoch ≡ self.epoch + 1
          → p.1.epoch ≡ self.epoch
          → Ensures P (f p))
      → Ensures P (UncEk.recv_ct2 c self ct2 mac >>= f)
  recv_ct2-then self ct2 mac f rest =
      Ensures-then f (recv_ct2-epoch c self ct2 mac) (λ p h. rest p h.0 h.1)

  pub recv_header-then :
      (self : UncCt.NoHeaderReceived) (epoch : Epoch) (h mac : Bytes)
      (f : UncCt.HeaderReceived → Outcome Error B)
      → ((s : UncCt.HeaderReceived) → s.epoch ≡ self.epoch → Ensures P (f s))
      → Ensures P (UncCt.recv_header c self epoch h mac >>= f)
  recv_header-then self epoch h mac f rest =
      Ensures-then f (recv_header-epoch c self epoch h mac) rest

  pub send_ct1-then :
      (self : UncCt.HeaderReceived) (rng : Rng)
      (f : UncCt.Ct1Sent × Bytes × EpochSecret → Outcome Error B)
      → ((p : UncCt.Ct1Sent × Bytes × EpochSecret)
          → p.0.epoch ≡ self.epoch
          → p.2.epoch ≡ self.epoch
          → Ensures P (f p))
      → Ensures P (UncCt.send_ct1 c self rng >>= f)
  send_ct1-then self rng f rest = Ensures-then f (send_ct1-epoch c self rng) (λ p h. rest p h.0 h.1)

  pub recv_ek-then :
      (self : UncCt.Ct1Sent) (epoch : Epoch) (ek : Bytes)
      (f : UncCt.Ct1SentEkReceived → Outcome Error B)
      → ((s : UncCt.Ct1SentEkReceived) → s.epoch ≡ self.epoch → Ensures P (f s))
      → Ensures P (UncCt.recv_ek c self epoch ek >>= f)
  recv_ek-then self epoch ek f rest = Ensures-then f (recv_ek-epoch c self epoch ek) rest

  pub send_ct2-then :
      (self : UncCt.Ct1SentEkReceived) (f : UncCt.Ct2Sent × Bytes × Bytes → Outcome Error B)
      → ((p : UncCt.Ct2Sent × Bytes × Bytes) → p.0.epoch ≡ self.epoch → Ensures P (f p))
      → Ensures P (UncCt.send_ct2 c self >>= f)
  send_ct2-then self f rest = Ensures-then f (send_ct2-epoch c self) rest
