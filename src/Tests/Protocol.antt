-- ===== src/Tests/Protocol.antt =====
-- Runs of src/v1/chunked/states.rs and of src/authenticator.rs.
use sparse_post_quantum_ratc.Prelude.{
  ℕ, ◌≡◌, ◌≢◌, ◌⊎◌, refl, none, some, [], ◌∷◌, replicate, length, slice, Outcome, ok, err, arith,
}
use sparse_post_quantum_ratc.Types.{
  Bytes, Error, epoch_out_of_range, invalid_ct_mac, invalid_hdr_mac,
}
use sparse_post_quantum_ratc.Wire.{Message, none_payload, ct2}
use sparse_post_quantum_ratc.Crypto.{Rng}
use sparse_post_quantum_ratc.Encoding.{Codec}
use sparse_post_quantum_ratc.Tests.Toy.{toy, toy-IsSized, All-replicate}
use sparse_post_quantum_ratc.Authenticator.{
  Authenticator, update, compare, mac_ct, mac_hdr, verify_ct, verify_hdr,
}
use sparse_post_quantum_ratc.Authenticator.Compare.{
  compare-decides, verify_ct-decides, verify_hdr-decides,
}
use sparse_post_quantum_ratc.Chunked.SendCt.{send_ct2_chunk, send_first_ct1_chunk, send_ct1_chunk}
use sparse_post_quantum_ratc.Kem.{encaps1}
use sparse_post_quantum_ratc.Unchunked.SendCt.{send_ct1}
use sparse_post_quantum_ratc.Chunked.States.Keys.{next_key_epoch}
use sparse_post_quantum_ratc.Chunked.States.Keys.Order.{
  Runs, stop, then_send, with_key, InOrder, Runs-InOrder,
}
use sparse_post_quantum_ratc.Chunked.States.{
  States, Send, ct2_sampled, header_received, send, recv, keyless,
}
use sparse_post_quantum_ratc.Chunked.States.Epochs.{
  recv-earlier, recv-later, send-epoch, has_some, gives_key,
}

-- A stand-in for the codec: an encoder repeats its first 32 bytes, a decoder keeps the last chunk.
abbrev pub copy_codec : Codec Bytes Bytes
copy_codec = record {
  encode_bytes = λ msg. ok msg;
  next_chunk =
      λ encoder. ok (encoder, record { index = 0; data_bytes = replicate 32 (length encoder) });
  new = λ len_bytes. ok [];
  add_chunk = λ decoder chunk. ok chunk.data_bytes;
  decoded_message = λ decoder. ok (some decoder);
}

abbrev pub an_authenticator : Authenticator
an_authenticator = record { root_key = replicate 32 1; mac_key = replicate 32 2 }

abbrev pub a_state : States Bytes Bytes
a_state =
    ct2_sampled
      (record { uc = record { epoch = 4; auth = an_authenticator }; sending_ct2 = replicate 3 6 })

abbrev of_epoch : ℕ → Message
of_epoch e = record { epoch = e; payload = none_payload }

recv-earlier_example : recv copy_codec toy a_state (of_epoch 3) ≡ ok (keyless a_state)
recv-earlier_example = recv-earlier copy_codec toy a_state (of_epoch 3) (omega arith)

recv-later_example : recv copy_codec toy a_state (of_epoch 6) ≡ err (epoch_out_of_range 6)
recv-later_example = recv-later copy_codec toy a_state (of_epoch 6) (omega arith)

abbrev pub no_rng : Rng
no_rng = λ n. replicate n 0

abbrev what_is_sent : Send Bytes Bytes
what_is_sent = record {
  msg = record { epoch = 4; payload = ct2 (record { index = 0; data_bytes = replicate 32 3 }) };
  key = none;
  state = a_state;
}

a_send : send copy_codec toy a_state no_rng ≡ ok what_is_sent
unfolding send send_ct2_chunk
a_send = refl

send-epoch_example : (what_is_sent.msg.epoch ≡ 4) × (has_some what_is_sent.key ≡ gives_key a_state)
send-epoch_example = send-epoch copy_codec toy a_state no_rng what_is_sent a_send

-- A run from HeaderReceived that gives a key with its first message, and none with its second.
abbrev before : States Bytes Bytes
before = header_received (record {
  uc = record { epoch = 4; auth = an_authenticator; hdr = replicate 64 1 };
  receiving_ek = [];
})

abbrev sent_or : Send Bytes Bytes → Outcome Error (Send Bytes Bytes) → Send Bytes Bytes
sent_or other (ok r) = r
sent_or other _ = other

abbrev first : Send Bytes Bytes
unfolding send send_first_ct1_chunk send_ct1
first = sent_or what_is_sent (send copy_codec toy before no_rng)

abbrev second : Send Bytes Bytes
unfolding send send_ct1_chunk first
second = sent_or what_is_sent (send copy_codec toy first.state no_rng)

first_is_sent : send copy_codec toy before no_rng ≡ ok first
unfolding send send_first_ct1_chunk send_ct1 encaps1 update first slice
first_is_sent = refl

second_is_sent : send copy_codec toy first.state no_rng ≡ ok second
unfolding send send_ct1_chunk second first encaps1 update slice
second_is_sent = refl

a_run : Runs copy_codec toy before (with_key first.key (with_key second.key [])) second.state
a_run =
    then_send no_rng first first_is_sent
      (then_send no_rng second second_is_sent (stop second.state))

Runs-InOrder_example :
    InOrder
      (next_key_epoch before)
      (with_key first.key (with_key second.key []))
      (next_key_epoch second.state)
Runs-InOrder_example =
    Runs-InOrder copy_codec toy before (with_key first.key (with_key second.key [])) second.state
      a_run

abbrev left : Bytes
left = 1 ∷ 255 ∷ []

abbrev right : Bytes
right = 1 ∷ 254 ∷ []

compare-decides_example :
    ((left ≡ right) × (compare left right ≡ ok 0)) ⊎ ((left ≢ right) × (compare left right ≡ ok 1))
compare-decides_example =
    compare-decides left right ((omega arith), ((omega arith), tt))
      ((omega arith), ((omega arith), tt)) refl

abbrev zeros : Bytes
zeros = replicate 32 0

verify_ct-decides_example :
    ((zeros ≡ mac_ct toy an_authenticator 4 (7 ∷ []))
      × (verify_ct toy an_authenticator 4 (7 ∷ []) zeros ≡ ok tt))
    ⊎ ((zeros ≢ mac_ct toy an_authenticator 4 (7 ∷ []))
        × (verify_ct toy an_authenticator 4 (7 ∷ []) zeros ≡ err invalid_ct_mac))
verify_ct-decides_example =
    verify_ct-decides toy toy-IsSized an_authenticator 4 (7 ∷ []) zeros
      (All-replicate 32 0 (omega arith)) refl

verify_hdr-decides_example :
    ((zeros ≡ mac_hdr toy an_authenticator 4 (7 ∷ []))
      × (verify_hdr toy an_authenticator 4 (7 ∷ []) zeros ≡ ok tt))
    ⊎ ((zeros ≢ mac_hdr toy an_authenticator 4 (7 ∷ []))
        × (verify_hdr toy an_authenticator 4 (7 ∷ []) zeros ≡ err invalid_hdr_mac))
verify_hdr-decides_example =
    verify_hdr-decides toy toy-IsSized an_authenticator 4 (7 ∷ []) zeros
      (All-replicate 32 0 (omega arith)) refl
