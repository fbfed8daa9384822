-- ===== src/Session.antt =====
-- src/lib.rs: the public calls on a serialized state. The protobuf encoding of a whole state is the
-- work of a library, and a parameter here.

pub mod Modes
pub mod Versions
use sparse_post_quantum_ratc.Prelude.{
  ℕ, ◌-◌, ◌%◌, ◌^◌, Bool, true, false, Option, none, some, [], ◌∷◌, List, not, ◌&&◌, ◌==◌, ltb,
  compare, Ordering, if◌then◌else◌, is_empty, sub_checked, Outcome, ok, err, panic, ◌>>=◌, ◌>>◌,
  assert, expect, ok_or,
}
use sparse_post_quantum_ratc.Types.{
  Bytes, Epoch, EpochSecret, MessageKey, Direction, a2b, b2a, Version, v0, v1, u8_of_version,
  version_try_from, Error, state_decode, version_mismatch, minimum_version, chain_not_available,
}
use sparse_post_quantum_ratc.Wire.{MsgPreamble, msg_preamble, serialize, deserialize}
use sparse_post_quantum_ratc.Crypto.{Crypto, Rng}
use sparse_post_quantum_ratc.Encoding.{Codec}
use sparse_post_quantum_ratc.Stored.{StoredCodec}
use sparse_post_quantum_ratc.Proto.Chunked.{V1State}
use sparse_post_quantum_ratc.Chunked.States
use sparse_post_quantum_ratc.Chunked.States.Stored as StoredStates
use sparse_post_quantum_ratc.Chain.Params as ChainParams
use sparse_post_quantum_ratc.Chain.Params.{ChainParams, ChainParamsPb}
use sparse_post_quantum_ratc.Chain.Epochs as Chain
use sparse_post_quantum_ratc.Chain.Epochs.{Chain, ChainPb, direction_try_from, i32_of_direction}

-- `PqRatchetState.VersionNegotiation`; an enum field is an i32, which stands here as its 32 bits.
pub record VersionNegotiation : Type 0 where
  pub auth_key : Bytes
  pub direction : ℕ
  pub min_version : ℕ
  pub chain_params : Option ChainParamsPb

-- The oneof `inner` of `PqRatchetState` has this one field.
pub data Inner : Type 0 where
  inner : V1State → Inner

pub record PqRatchetState : Type 0 where
  pub version_negotiation : Option VersionNegotiation
  pub chain : Option ChainPb
  pub inner : Option Inner

pub record Params : Type 0 where
  pub direction : Direction
  pub version : Version
  pub min_version : Version
  pub auth_key : Bytes
  pub chain_params : ChainParams

pub data CurrentVersion : Type 0 where
  still_negotiating : Version → Version → CurrentVersion
  negotiation_complete : Version → CurrentVersion

pub record Send : Type 0 where
  pub state : Bytes
  pub msg : Bytes
  pub key : MessageKey

pub record Recv : Type 0 where
  pub state : Bytes
  pub key : MessageKey

-- `encode_to_vec` and `decode` of the protobuf library; an error of `decode` is dropped.
pub record Prost : Type 0 where
  pub encode_to_vec : PqRatchetState → Bytes
  pub decode : Bytes → Option PqRatchetState

abbrev pub empty_state : Bytes
empty_state = []

-- `v > Version::V0 as i32` on the bits of an i32.
abbrev pub is_positive : ℕ → Bool
is_positive v = ltb 0 v && ltb v (2 ^ 31)

unfoldable pub state_version : PqRatchetState → Version
state_version state = elim state.inner [ none ↦ v0 | some _ ↦ v1 ]

-- The first version that is accepted, and whether others than the current one are.
abbrev pub accepted_versions : ℕ → Option VersionNegotiation → ℕ × Bool
accepted_versions current_version (some vn) = (vn.min_version % 2 ^ 8, true)
accepted_versions current_version none = (current_version, current_version == 0)

-- `if key.is_empty() { None } else { Some(key) }`
abbrev pub nonempty : Bytes → MessageKey
nonempty [] = none
nonempty (b ∷ bs) = some (b ∷ bs)

-- `assert_eq!(msg[0], Version::V1.into())`
abbrev pub starts_with : ℕ → Bytes → Outcome Error (Unit {0})
starts_with version [] = panic
starts_with version (b ∷ bs) = assert (b == version)

module _ (prost : Prost) where
  unfoldable pub decode_state : Bytes → Outcome Error PqRatchetState
  decode_state [] = ok (record { inner = none; version_negotiation = none; chain = none })
  decode_state (b ∷ bs) = ok_or (prost.decode (b ∷ bs)) state_decode

  unfoldable pub current_version : Bytes → Outcome Error CurrentVersion
  unfolding decode_state state_version
  current_version state = do
    state_pb ← decode_state state
    let version = state_version state_pb
    elim state_pb.version_negotiation [
      | none ↦ ok (negotiation_complete version)
      | some vn ↦ do
        min_version ← ok_or (version_try_from vn.min_version) state_decode
        ok (still_negotiating version min_version)
    ]

module _ (c : Crypto) where
  unfoldable pub chain_from_version_negotiation : VersionNegotiation → Outcome Error Chain
  chain_from_version_negotiation vn = do
    direction ← ok_or (direction_try_from vn.direction) state_decode
    chain_params ← ok_or vn.chain_params chain_not_available
    Chain.new c vn.auth_key direction chain_params

  unfoldable pub chain_from : Option ChainPb → Option VersionNegotiation → Outcome Error Chain
  unfolding chain_from_version_negotiation
  chain_from (some pb) vn = Chain.from_pb pb
  chain_from none none = err chain_not_available
  chain_from none (some vn) = chain_from_version_negotiation vn

  -- The chain of `send`: none while a peer may still choose version 0.
  unfoldable pub chain_to_send : PqRatchetState → Outcome Error (Option Chain)
  unfolding chain_from_version_negotiation
  chain_to_send state_pb = elim state_pb.chain [
    | none ↦ elim state_pb.version_negotiation [
      | some vn ↦
          if is_positive vn.min_version
          then (do chain ← chain_from_version_negotiation vn; ok (some chain))
          else ok none
      | none ↦ err chain_not_available
    ]
    | some pb ↦ do chain ← Chain.from_pb pb; ok (some chain)
  ]

  abbrev pub add_epoch_if : Chain → Option EpochSecret → Outcome Error Chain
  add_epoch_if chain none = ok chain
  add_epoch_if chain (some epoch_secret) = Chain.add_epoch c chain epoch_secret

  -- The index and the key of a message, and the chain behind it.
  unfoldable pub key_to_send :
      Option Chain → Option EpochSecret → Epoch → Outcome Error (ℕ × Bytes × Option ChainPb)
  key_to_send none none epoch = ok (0, [], none)
  key_to_send none (some key) epoch = panic
  key_to_send (some chain) key epoch = do
    grown ← add_epoch_if chain key
    prior ← sub_checked epoch 1
    ((index, msg_key), used) ← Chain.send_key c grown prior
    ok (index, msg_key, some (Chain.into_pb used))

module _ {Encoder Decoder : Type 0} (codec : Codec Encoder Decoder)
    (st : StoredCodec Encoder Decoder) (c : Crypto) where
  unfoldable pub init_inner : Version → Direction → Bytes → Outcome Error (Option Inner)
  init_inner v0 d auth_key = ok none
  init_inner v1 a2b auth_key = do
    s ← States.init_a codec c auth_key
    ok (some (inner (StoredStates.into_pb st s)))
  init_inner v1 b2a auth_key = do
    s ← States.init_b codec c auth_key
    ok (some (inner (StoredStates.into_pb st s)))

  -- The message's version is below the state's: the state for the lower version.
  unfoldable pub negotiate_down : PqRatchetState → ℕ → Outcome Error PqRatchetState
  negotiate_down state_pb version = elim state_pb.version_negotiation [
    | none ↦ panic
    | some vn ↦ do
      v ← expect (ok_or (version_try_from version) state_decode)
      direction ← ok_or (direction_try_from vn.direction) state_decode
      lower ← init_inner v direction vn.auth_key
      chain ← chain_from c state_pb.chain (some vn)
      ok (record { inner = lower; version_negotiation = none; chain = some (Chain.into_pb chain) })
  ]

  module _ (prost : Prost) where
    open prost use {encode_to_vec}

    unfoldable pub initial_state : Params → Outcome Error Bytes
    unfolding init_inner
    initial_state params = elim params.version [
      | v0 ↦ ok empty_state
      | v1 ↦ do
        let version_negotiation = some (record {
          auth_key = params.auth_key;
          direction = i32_of_direction params.direction;
          min_version = u8_of_version params.min_version;
          chain_params = some (ChainParams.into_pb params.chain_params);
        })
        first ← init_inner v1 params.direction params.auth_key
        ok (
            encode_to_vec
              (record { inner = first; chain = none; version_negotiation = version_negotiation }))
    ]

    -- `send` of a state of version 1.
    unfoldable pub send_v1 : PqRatchetState → V1State → Rng → Outcome Error Send
    unfolding chain_to_send key_to_send
    send_v1 state_pb pb rng = do
      before ← StoredStates.from_pb st pb
      sent ← States.send codec c before rng
      chain ← chain_to_send c state_pb
      (index, msg_key, chain_pb) ← key_to_send c chain sent.key sent.msg.epoch
      let msg = serialize sent.msg index
      starts_with (u8_of_version v1) msg
      let after : PqRatchetState = record {
        inner = some (inner (StoredStates.into_pb st sent.state));
        version_negotiation = state_pb.version_negotiation;
        chain = chain_pb;
      }
      ok (record { state = encode_to_vec after; msg = msg; key = nonempty msg_key })

    -- `send` behind the decoding of the state.
    unfoldable pub send_decoded : PqRatchetState → Rng → Outcome Error Send
    unfolding send_v1
    send_decoded state_pb rng = elim state_pb.inner [
      | none ↦ ok (record { state = []; msg = []; key = none })
      | some (inner pb) ↦ send_v1 state_pb pb rng
    ]

    unfoldable pub send : Bytes → Rng → Outcome Error Send
    unfolding decode_state send_decoded
    send state rng = do state_pb ← decode_state prost state; send_decoded state_pb rng

    -- The message's version is above the state's: a key of epoch 0, and the same state otherwise.
    unfoldable pub recv_newer : PqRatchetState → ℕ → Outcome Error Recv
    unfolding chain_from
    recv_newer state_pb index = do
      chain ← chain_from c state_pb.chain state_pb.version_negotiation
      (key, used) ← Chain.recv_key c chain 0 index
      ok (record {
        state = encode_to_vec (record state_pb { chain = some (Chain.into_pb used) });
        key = some key;
      })

    -- A message of version 1, in a state of version 1.
    unfoldable pub recv_v1 : PqRatchetState → V1State → MsgPreamble → Outcome Error Recv
    unfolding chain_from
    recv_v1 state_pb pb msg = do
      scka_msg ← deserialize msg.epoch msg.remaining
      before ← StoredStates.from_pb st pb
      received ← States.recv codec c before scka_msg
      msg_key_epoch ← sub_checked msg.epoch 1
      chain ← chain_from c state_pb.chain state_pb.version_negotiation
      grown ← add_epoch_if c chain received.key
      (msg_key, used) ← Chain.recv_key c grown msg_key_epoch msg.index
      let after : PqRatchetState = record {
        inner = some (inner (StoredStates.into_pb st received.state));
        version_negotiation = none;
        chain = some (Chain.into_pb used);
      }
      ok (record { state = encode_to_vec after; key = nonempty msg_key })

    -- The versions are the same now.
    unfoldable pub recv_same : PqRatchetState → MsgPreamble → Outcome Error Recv
    unfolding recv_v1
    recv_same state_pb msg = elim state_pb.inner [
      | none ↦ ok (record { state = []; key = none })
      | some (inner pb) ↦ recv_v1 state_pb pb msg
    ]

    -- The three orders of the versions, of a state of version 1 or above.
    unfoldable pub recv_by_version : PqRatchetState → MsgPreamble → Outcome Error Recv
    unfolding recv_newer recv_same negotiate_down
    recv_by_version state_pb msg =
        elim (compare msg.version (u8_of_version (state_version state_pb))) [
          | Ordering.gt ↦ recv_newer state_pb msg.index
          | Ordering.eq ↦ recv_same state_pb msg
          | Ordering.lt ↦ do lower ← negotiate_down state_pb msg.version; recv_same lower msg
        ]

    -- `recv` behind the decoding of its two arguments.
    unfoldable pub recv_decoded : PqRatchetState → MsgPreamble → Outcome Error Recv
    unfolding state_version recv_by_version
    recv_decoded state_pb msg =
        let current = u8_of_version (state_version state_pb) in
        let accepted = accepted_versions current state_pb.version_negotiation in
        if ltb msg.version accepted.0
        then err minimum_version
        else if not (msg.version == current) && not accepted.1
        then err version_mismatch
        else if current == 0
        then ok (record { state = []; key = none })
        else recv_by_version state_pb msg

    unfoldable pub recv : Bytes → Bytes → Outcome Error Recv
    unfolding decode_state recv_decoded
    recv state bytes = do
      msg ← msg_preamble bytes
      state_pb ← decode_state prost state
      recv_decoded state_pb msg
