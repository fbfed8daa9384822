-- ===== src/Chunked/States/Keys/Order.antt =====
-- The order of the keys over the sends and receives of a party.
use sparse_post_quantum_ratc.Prelude.{
  ℕ, zero, suc, ◌+◌, ◌≡◌, refl, sym, ap, ◌∙◌, Option, List, [], ◌∷◌, map, length, arith, none, some,
  ok, inl, inr, Ordering-cases, Ensures, Ensures-ok, Ensures-then, compare,
}
use sparse_post_quantum_ratc.Types.{EpochSecret}
use sparse_post_quantum_ratc.Wire.{Message}
use sparse_post_quantum_ratc.Crypto.{Crypto, Rng}
use sparse_post_quantum_ratc.Encoding.{Codec}
use sparse_post_quantum_ratc.Chunked.Epochs.{
  send_first_hdr_chunk-epoch, send_hdr_chunk-epoch, send_ek_chunk-epoch,
  send_ek_chunk_ct1_received-epoch, send_first_ct1_chunk-epoch, send_ct1_chunk-epoch,
  send_ct1_chunk_ek_received-epoch, send_ct2_chunk-epoch,
}
use sparse_post_quantum_ratc.Chunked.States.{
  States, keys_unsampled, keys_sampled, header_sent, ct1_received, ek_sent_ct1_received,
  no_header_received, header_received, ct1_sampled, ek_received_ct1_sampled, ct1_acknowledged,
  ct2_sampled, Send, Recv, send, recv, keyless,
}
use sparse_post_quantum_ratc.Chunked.States.Keys.{
  next_key_epoch, Advances, Receives, by_epoch-Ensures,
}
use sparse_post_quantum_ratc.Chunked.States.Keys.EkSender.{
  recv_keys_sampled-key, recv_header_sent-key, recv_ct1_received-key, recv_ek_sent-key,
  recv_no_header-key,
}
use sparse_post_quantum_ratc.Chunked.States.Keys.CtSender.{
  recv_ct1_sampled-key, recv_ek_received-key, recv_ct1_acknowledged-key, recv_later-key,
}

-- The epochs `n`, `n + 1`, and so on, as many as `count`.
abbrev pub epochs_from : ℕ → ℕ → List ℕ
epochs_from n zero = []
epochs_from n (suc count) = n ∷ epochs_from (n + 1) count

abbrev pub with_key : Option EpochSecret → List EpochSecret → List EpochSecret
with_key none keys = keys
with_key (some k) keys = k ∷ keys

-- The keys have the epochs from `n` on, one after the other, and `n'` is the one after the last.
abbrev pub InOrder : ℕ → List EpochSecret → ℕ → Type 0
InOrder n keys n' = (map (λ k. k.epoch) keys ≡ epochs_from n (length keys)) × (n' ≡ n + length keys)

with_key-InOrder :
    (n m n' : ℕ) (key : Option EpochSecret) (keys : List EpochSecret)
    → Advances n key m
    → InOrder m keys n'
    → InOrder n (with_key key keys) n'
with_key-InOrder n m n' none keys h (epochs, last) = rw (sym h) (epochs, last)
with_key-InOrder n m n' (some k) keys h (epochs, last) =
    let (same, up) = h in
    (
      rw same (ap (λ t. n ∷ t) (epochs ∙ ap (λ t. epochs_from t (length keys)) up)),
      omega (arith, last, up),
    )

module _ {Encoder Decoder : Type 0} (codec : Codec Encoder Decoder) (c : Crypto) where
  recv-Advances : (s : States Encoder Decoder) (msg : Message) → Receives s (recv codec c s msg)
  unfolding recv
  recv-Advances (keys_unsampled s) msg =
      by_epoch-Ensures msg.epoch s.uc.epoch _ _ refl (Ensures-ok (keyless (keys_unsampled s)) refl)
  recv-Advances (keys_sampled s) msg =
      by_epoch-Ensures msg.epoch s.uc.epoch _ _ refl
        (recv_keys_sampled-key codec c s msg.epoch msg.payload)
  recv-Advances (header_sent s) msg =
      by_epoch-Ensures msg.epoch s.uc.epoch _ _ refl
        (recv_header_sent-key codec c s msg.epoch msg.payload)
  recv-Advances (ct1_received s) msg =
      by_epoch-Ensures msg.epoch s.uc.epoch _ _ refl
        (recv_ct1_received-key codec c s msg.epoch msg.payload)
  recv-Advances (ek_sent_ct1_received s) msg =
      by_epoch-Ensures msg.epoch s.uc.epoch _ _ refl
        (recv_ek_sent-key codec c s msg.epoch msg.payload)
  recv-Advances (no_header_received s) msg =
      by_epoch-Ensures msg.epoch s.uc.epoch _ _ refl
        (recv_no_header-key codec c s msg.epoch msg.payload)
  recv-Advances (header_received s) msg =
      by_epoch-Ensures msg.epoch s.uc.epoch _ _ refl (Ensures-ok (keyless (header_received s)) refl)
  recv-Advances (ct1_sampled s) msg =
      by_epoch-Ensures msg.epoch s.uc.epoch _ _ refl
        (recv_ct1_sampled-key codec c s msg.epoch msg.payload)
  recv-Advances (ek_received_ct1_sampled s) msg =
      by_epoch-Ensures msg.epoch s.uc.epoch _ _ refl
        (recv_ek_received-key codec c s msg.epoch msg.payload)
  recv-Advances (ct1_acknowledged s) msg =
      by_epoch-Ensures msg.epoch s.uc.epoch _ _ refl
        (recv_ct1_acknowledged-key codec c s msg.epoch msg.payload)
  recv-Advances (ct2_sampled s) msg = elim (Ordering-cases (compare msg.epoch s.uc.epoch)) [
    | inl o ↦ rw (recv, o) (Ensures-ok (keyless (ct2_sampled s)) refl)
    | inr (inl o) ↦ rw (recv, o) (Ensures-ok (keyless (ct2_sampled s)) refl)
    | inr (inr o) ↦ rw (recv, o) (recv_later-key codec c s msg)
  ]

  send-Advances :
      (s : States Encoder Decoder) (rng : Rng)
      → Ensures
          (λ r. Advances (next_key_epoch s) r.key (next_key_epoch r.state))
          (send codec c s rng)
  unfolding send
  send-Advances (keys_unsampled s) rng =
      Ensures-then _ (send_first_hdr_chunk-epoch codec c s rng) (λ r h. Ensures-ok _ h)
  send-Advances (keys_sampled s) rng =
      Ensures-then _ (send_hdr_chunk-epoch codec c s) (λ r h. Ensures-ok _ h)
  send-Advances (header_sent s) rng =
      Ensures-then _ (send_ek_chunk-epoch codec c s) (λ r h. Ensures-ok _ h)
  send-Advances (ct1_received s) rng =
      Ensures-then _ (send_ek_chunk_ct1_received-epoch codec c s) (λ r h. Ensures-ok _ h)
  send-Advances (ek_sent_ct1_received s) rng = Ensures-ok _ refl
  send-Advances (no_header_received s) rng = Ensures-ok _ refl
  send-Advances (header_received s) rng =
      Ensures-then _ (send_first_ct1_chunk-epoch codec c s rng)
        (λ r h. Ensures-ok _ (h.1, ap (λ t. t + 1) h.0))
  send-Advances (ct1_sampled s) rng =
      Ensures-then _ (send_ct1_chunk-epoch codec c s) (λ r h. Ensures-ok _ (ap (λ t. t + 1) h))
  send-Advances (ek_received_ct1_sampled s) rng =
      Ensures-then _ (send_ct1_chunk_ek_received-epoch codec c s)
        (λ r h. Ensures-ok _ (ap (λ t. t + 1) h))
  send-Advances (ct1_acknowledged s) rng = Ensures-ok _ refl
  send-Advances (ct2_sampled s) rng =
      Ensures-then _ (send_ct2_chunk-epoch codec c s) (λ r h. Ensures-ok _ (ap (λ t. t + 1) h))

  -- The sends and the receives of a party from one state to another, with the keys that they give.
  pub data Runs : States Encoder Decoder → List EpochSecret → States Encoder Decoder → Type 0 where
    stop : (s : States Encoder Decoder) → Runs s [] s
    then_send :
        {s s' : States Encoder Decoder} {keys : List EpochSecret} (rng : Rng)
        (r : Send Encoder Decoder)
        → send codec c s rng ≡ ok r
        → Runs r.state keys s'
        → Runs s (with_key r.key keys) s'
    then_recv :
        {s s' : States Encoder Decoder} {keys : List EpochSecret} (msg : Message)
        (r : Recv Encoder Decoder)
        → recv codec c s msg ≡ ok r
        → Runs r.state keys s'
        → Runs s (with_key r.key keys) s'

  -- Over any run of sends and receives from a state, the keys that come out have consecutive
  -- epochs, from the epoch of the first state on, or from the one after it when that state has
  -- sampled the first ciphertext; and the last state is as many epochs further in this count as
  -- there are keys.
  pub Runs-InOrder :
      (s : States Encoder Decoder) (keys : List EpochSecret) (s' : States Encoder Decoder)
      → Runs s keys s'
      → InOrder (next_key_epoch s) keys (next_key_epoch s')
  Runs-InOrder s keys s' (stop _) = (refl, omega arith)
  Runs-InOrder s keys s' (then_send rng r sent rest) =
      with_key-InOrder (next_key_epoch s) (next_key_epoch r.state) (next_key_epoch s') r.key _
        ((send-Advances s rng).at r sent) (Runs-InOrder r.state _ s' rest)
  Runs-InOrder s keys s' (then_recv msg r got rest) =
      with_key-InOrder (next_key_epoch s) (next_key_epoch r.state) (next_key_epoch s') r.key _
        ((recv-Advances s msg).at r got) (Runs-InOrder r.state _ s' rest)
