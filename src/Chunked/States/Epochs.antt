-- ===== src/Chunked/States/Epochs.antt =====
-- The epochs of messages against the epoch of a state.
use sparse_post_quantum_ratc.Prelude.{
  ℕ, ◌+◌, ◌<◌, ◌≡◌, ◌==◌, refl, subst, Bool, true, false, Option, none, some, Outcome, ok, err,
  ok-injective, >>=-eq-ok, ◌>>=◌, compare, Ordering, arith,
}
use sparse_post_quantum_ratc.Types.{EpochSecret, Error, epoch_out_of_range}
use sparse_post_quantum_ratc.Wire.{Message}
use sparse_post_quantum_ratc.Crypto.{Crypto, Rng}
use sparse_post_quantum_ratc.Encoding.{Codec}
use sparse_post_quantum_ratc.Chunked.States.{
  States, keys_unsampled, keys_sampled, header_sent, ct1_received, ek_sent_ct1_received,
  no_header_received, header_received, ct1_sampled, ek_received_ct1_sampled, ct1_acknowledged,
  ct2_sampled, Send, epoch_of, send, recv, keyless, by_epoch, recv_ct2_sampled_later,
}

-- The states that take a message of the next epoch.
abbrev pub takes_next : {Encoder Decoder : Type 0} → States Encoder Decoder → ℕ
takes_next (ct2_sampled s) = 1
takes_next _ = 0

-- The states in which sending gives out a key.
abbrev pub gives_key : {Encoder Decoder : Type 0} → States Encoder Decoder → Bool
gives_key (header_received s) = true
gives_key _ = false

abbrev pub has_some : Option EpochSecret → Bool
has_some none = false
has_some (some k) = true

by_epoch-other :
    {A : Type 0} (m e : ℕ) (same : A) (equal : Outcome Error A)
    → (m < e → by_epoch m e same equal ≡ ok same)
      × (e + 0 < m → by_epoch m e same equal ≡ err (epoch_out_of_range m))
by_epoch-other m e same equal = (
  (λ h. let o : compare m e ≡ Ordering.lt = ground arith in rw (by_epoch, o)),
  (λ h. let o : compare m e ≡ Ordering.gt = ground arith in rw (by_epoch, o)),
)

abbrev Announces : {Encoder Decoder : Type 0} → ℕ → Bool → Send Encoder Decoder → Type 0
Announces e b r = (r.msg.epoch ≡ e) × (has_some r.key ≡ b)

ok-Announces :
    {Encoder Decoder : Type 0} (e : ℕ) (b : Bool) {s r : Send Encoder Decoder}
    → Announces e b s
    → ◌≡◌ {A = Outcome Error (Send Encoder Decoder)} (ok s) (ok r)
    → Announces e b r
ok-Announces e b h run = subst (Announces e b) (ok-injective run) h

bind-Announces :
    {Encoder Decoder A : Type 0} (e : ℕ) (b : Bool) (m : Outcome Error A)
    (f : A → Send Encoder Decoder) {r : Send Encoder Decoder}
    → ((a : A) → Announces e b (f a))
    → (m >>= λ a. ok (f a)) ≡ ok r
    → Announces e b r
bind-Announces e b m f h run =
    let (a, done, last) = >>=-eq-ok m (λ a. ok (f a)) run in ok-Announces e b (h a) last

module _ {Encoder Decoder : Type 0} (codec : Codec Encoder Decoder) (c : Crypto) where
  recv-other_epoch :
      (s : States Encoder Decoder) (msg : Message)
      → (msg.epoch < epoch_of s → recv codec c s msg ≡ ok (keyless s))
        × (epoch_of s + takes_next s < msg.epoch
            → recv codec c s msg ≡ err (epoch_out_of_range msg.epoch))
  unfolding recv
  recv-other_epoch (keys_unsampled s) msg = by_epoch-other msg.epoch s.uc.epoch _ _
  recv-other_epoch (keys_sampled s) msg = by_epoch-other msg.epoch s.uc.epoch _ _
  recv-other_epoch (header_sent s) msg = by_epoch-other msg.epoch s.uc.epoch _ _
  recv-other_epoch (ct1_received s) msg = by_epoch-other msg.epoch s.uc.epoch _ _
  recv-other_epoch (ek_sent_ct1_received s) msg = by_epoch-other msg.epoch s.uc.epoch _ _
  recv-other_epoch (no_header_received s) msg = by_epoch-other msg.epoch s.uc.epoch _ _
  recv-other_epoch (header_received s) msg = by_epoch-other msg.epoch s.uc.epoch _ _
  recv-other_epoch (ct1_sampled s) msg = by_epoch-other msg.epoch s.uc.epoch _ _
  recv-other_epoch (ek_received_ct1_sampled s) msg = by_epoch-other msg.epoch s.uc.epoch _ _
  recv-other_epoch (ct1_acknowledged s) msg = by_epoch-other msg.epoch s.uc.epoch _ _
  recv-other_epoch (ct2_sampled s) msg = (
    (λ h. let e : compare msg.epoch s.uc.epoch ≡ Ordering.lt = ground arith in rw (recv, e)),
    (λ h.
        let e : compare msg.epoch s.uc.epoch ≡ Ordering.gt = ground arith in
        let later : (msg.epoch == s.uc.epoch + 1) ≡ false = ground arith in
        rw (recv, e) (unfold recv_ct2_sampled_later in rw later)),
  )

  -- In each of the eleven states, a message of an epoch before that of the state leaves the state
  -- as it is and gives no key.
  pub recv-earlier :
      (s : States Encoder Decoder) (msg : Message)
      → msg.epoch < epoch_of s
      → recv codec c s msg ≡ ok (keyless s)
  recv-earlier s msg h = (recv-other_epoch s msg).0 h

  -- In each of the eleven states, a message of an epoch after that of the state is refused with
  -- EpochOutOfRange, except that Ct2Sampled refuses only epochs after the next one.
  pub recv-later :
      (s : States Encoder Decoder) (msg : Message)
      → epoch_of s + takes_next s < msg.epoch
      → recv codec c s msg ≡ err (epoch_out_of_range msg.epoch)
  recv-later s msg h = (recv-other_epoch s msg).1 h

  -- In each of the eleven states, a message that is sent has the epoch of the state, and an epoch
  -- secret comes with it exactly in the state HeaderReceived.
  pub send-epoch :
      (s : States Encoder Decoder) (rng : Rng) (r : Send Encoder Decoder)
      → send codec c s rng ≡ ok r
      → (r.msg.epoch ≡ epoch_of s) × (has_some r.key ≡ gives_key s)
  unfolding send
  send-epoch (keys_unsampled s) rng r run =
      bind-Announces s.uc.epoch false _ _ (λ x. (refl, refl)) run
  send-epoch (keys_sampled s) rng r run =
      bind-Announces s.uc.epoch false _ _ (λ x. (refl, refl)) run
  send-epoch (header_sent s) rng r run = bind-Announces s.uc.epoch false _ _ (λ x. (refl, refl)) run
  send-epoch (ct1_received s) rng r run =
      bind-Announces s.uc.epoch false _ _ (λ x. (refl, refl)) run
  send-epoch (ek_sent_ct1_received s) rng r run = ok-Announces s.uc.epoch false (refl, refl) run
  send-epoch (no_header_received s) rng r run = ok-Announces s.uc.epoch false (refl, refl) run
  send-epoch (header_received s) rng r run =
      bind-Announces s.uc.epoch true _ _ (λ x. (refl, refl)) run
  send-epoch (ct1_sampled s) rng r run = bind-Announces s.uc.epoch false _ _ (λ x. (refl, refl)) run
  send-epoch (ek_received_ct1_sampled s) rng r run =
      bind-Announces s.uc.epoch false _ _ (λ x. (refl, refl)) run
  send-epoch (ct1_acknowledged s) rng r run = ok-Announces s.uc.epoch false (refl, refl) run
  send-epoch (ct2_sampled s) rng r run = bind-Announces s.uc.epoch false _ _ (λ x. (refl, refl)) run
