-- ===== src/Tests/Session.antt =====
-- Runs of src/lib.rs and of the serialization of the states.
use sparse_post_quantum_ratc.Prelude.{
  ◌≡◌, ◌≤◌, refl, none, some, [], ◌∷◌, replicate, length, to_be_bytes64, to_be_bytes32, slice, ok,
  err, false,
}
use sparse_post_quantum_ratc.Types.{Bytes, a2b, v0, v1, serialization_invalid}
use sparse_post_quantum_ratc.Wire.{
  MsgPreamble, ct2, serialize, msg_preamble, decode_varint, encode_chunk, encode_varint,
  encode_rounds, decode_rounds,
}
use sparse_post_quantum_ratc.Stored.{StoredCodec}
use sparse_post_quantum_ratc.Tests.Toy.{toy}
use sparse_post_quantum_ratc.Tests.Protocol.{copy_codec, an_authenticator, a_state, no_rng}
use sparse_post_quantum_ratc.Chunked.States.{States, header_sent}
use sparse_post_quantum_ratc.Chunked.States
use sparse_post_quantum_ratc.Chunked.States.Stored as StoredStates
use sparse_post_quantum_ratc.Chunked.States.Stored.{from_pb-into_pb_states}
use sparse_post_quantum_ratc.Session.{
  PqRatchetState, VersionNegotiation, inner, Prost, Recv, Send, Params, recv, send, initial_state,
  decode_state, init_inner, recv_decoded, recv_by_version, recv_newer, chain_from,
  chain_from_version_negotiation, state_version,
}
use sparse_post_quantum_ratc.Authenticator
use sparse_post_quantum_ratc.Chunked.SendEk as ChunkedSendEk
use sparse_post_quantum_ratc.Unchunked.SendEk as WholeSendEk
use sparse_post_quantum_ratc.Chain.Epochs as Chain
use sparse_post_quantum_ratc.Chain.Epochs.{direction_try_from}
use sparse_post_quantum_ratc.Chain.Direction as ChainDirection
use sparse_post_quantum_ratc.Chunked.SendCt.{send_ct2_chunk}
use sparse_post_quantum_ratc.Chunked.SendCt.Stored as StoredSendCt
use sparse_post_quantum_ratc.Unchunked.SendCt.Stored as StoredWhole
use sparse_post_quantum_ratc.Session.Modes.{Follows, HasMode, negotiating, recv-Follows}
use sparse_post_quantum_ratc.Session.Versions.{recv-Admits, send-mode}

-- A stand-in for the stored codec: an encoder is one list of points, and a decoder another.
abbrev copy_stored : StoredCodec Bytes Bytes
copy_stored = record {
  encoder = record {
    into_pb = λ e. record { idx = 0; pts = e ∷ []; polys = [] };
    from_pb = λ pb. elim pb.pts [ e ∷ _ ↦ ok e | [] ↦ err serialization_invalid ];
  };
  decoder = record {
    into_pb = λ d. record { pts_needed = length d; polys = 16; pts = d ∷ []; is_complete = false };
    from_pb = λ pb. elim pb.pts [ d ∷ _ ↦ ok d | [] ↦ err serialization_invalid ];
  };
}

abbrev a_header_sent : States Bytes Bytes
a_header_sent = header_sent (record {
  uc = record { epoch = 3; auth = an_authenticator; dk = replicate 2400 7 };
  sending_ek = replicate 5 1;
  receiving_ct1 = replicate 480 2;
})

from_pb-into_pb_states_example :
    StoredStates.from_pb copy_stored (StoredStates.into_pb copy_stored a_header_sent)
    ≡ ok a_header_sent
from_pb-into_pb_states_example =
    from_pb-into_pb_states copy_stored a_header_sent (refl, refl, (refl, refl))

abbrev a_negotiation : VersionNegotiation
a_negotiation = record {
  auth_key = replicate 32 5;
  direction = 0;
  min_version = 0;
  chain_params = some (record { max_jump = 0; max_ooo_keys = 0 });
}

abbrev a_session : PqRatchetState
unfolding StoredStates.into_pb
a_session = record {
  version_negotiation = some a_negotiation;
  chain = none;
  inner = some (inner (StoredStates.into_pb copy_stored a_state));
}

-- The protobuf library, as far as these runs need it.
abbrev a_prost : Prost
a_prost = record { encode_to_vec = λ pb. 1 ∷ []; decode = λ s. some a_session }

-- A message of version 2, epoch 1 and index 0.
abbrev newer_message : Bytes
newer_message = 2 ∷ 1 ∷ 0 ∷ []

abbrev newer_preamble : MsgPreamble
newer_preamble = record { version = 2; epoch = 1; index = 0; remaining = [] }

abbrev received : Recv
received = record { state = 1 ∷ []; key = some [] }

a_parse : msg_preamble newer_message ≡ ok newer_preamble
unfolding msg_preamble decode_varint decode_rounds
a_parse = refl

a_receipt : recv copy_codec copy_stored toy a_prost (1 ∷ []) newer_message ≡ ok received
unfolding recv recv_decoded recv_by_version recv_newer chain_from chain_from_version_negotiation
    state_version decode_state a_session msg_preamble decode_varint decode_rounds direction_try_from
    Chain.new Chain.recv_key Chain.into_pb ChainDirection.into_pb
a_receipt = refl

a_decoding : decode_state a_prost (1 ∷ []) ≡ ok a_session
unfolding decode_state a_session
a_decoding = refl

recv-Follows_example : Follows a_prost 2 negotiating received
unfolding a_session
recv-Follows_example =
    recv-Follows copy_codec copy_stored toy a_prost (1 ∷ []) newer_message a_session newer_preamble
      received a_decoding a_parse a_receipt

recv-Admits_example : 0 ≤ 2
unfolding a_session
recv-Admits_example =
    recv-Admits copy_codec copy_stored toy a_prost (1 ∷ []) newer_message a_session newer_preamble
      received a_decoding a_parse a_receipt

abbrev sent : Send
unfolding serialize
sent = record {
  state = 1 ∷ [];
  msg =
      serialize
        (record { epoch = 4; payload = ct2 (record { index = 0; data_bytes = replicate 32 3 }) }) 0;
  key = none;
}

a_sending : send copy_codec copy_stored toy a_prost (1 ∷ []) no_rng ≡ ok sent
unfolding send serialize sent a_session StoredStates.from_pb StoredSendCt.ct2_sampled
    StoredWhole.ct2_sent States.send send_ct2_chunk encode_chunk encode_varint encode_rounds
a_sending = refl

send-mode_example : HasMode a_prost (1 ∷ []) negotiating
unfolding a_session sent
send-mode_example =
    send-mode copy_codec copy_stored toy a_prost (1 ∷ []) a_session no_rng sent a_decoding a_sending

abbrev some_params : Params
some_params = record {
  direction = a2b;
  version = v1;
  min_version = v0;
  auth_key = replicate 32 5;
  chain_params = record { max_jump = 25_000; max_ooo_keys = 2_000 };
}

a_start : initial_state copy_codec copy_stored toy a_prost some_params ≡ ok (1 ∷ [])
unfolding initial_state init_inner States.init_a ChunkedSendEk.new WholeSendEk.new Authenticator.new
    Authenticator.update to_be_bytes64 to_be_bytes32 slice
a_start = refl
