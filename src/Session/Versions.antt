-- ===== src/Session/Versions.antt =====
-- Which versions a session accepts, and what sending leaves of the negotiation.
use sparse_post_quantum_ratc.Prelude.{
  ℕ, ◌≤◌, ◌%◌, ◌^◌, ◌≡◌, refl, false, Option, none, some, not, ◌&&◌, ◌==◌, ltb, ok, Ensures,
  Ensures-ok, Ensures-err, Ensures-bind, Ensures-if, arith,
}
use sparse_post_quantum_ratc.Types.{Bytes, MessageKey, Direction, a2b, b2a, Version, v0, v1, Error}
use sparse_post_quantum_ratc.Wire.{MsgPreamble, msg_preamble}
use sparse_post_quantum_ratc.Crypto.{Crypto, Rng}
use sparse_post_quantum_ratc.Encoding.{Codec}
use sparse_post_quantum_ratc.Stored.{StoredCodec}
use sparse_post_quantum_ratc.Proto.Chunked.{V1State}
use sparse_post_quantum_ratc.Chunked.States
use sparse_post_quantum_ratc.Chain.Params.{ChainParams}
use sparse_post_quantum_ratc.Chain.Epochs.{ChainPb}
use sparse_post_quantum_ratc.Session.{
  Params, PqRatchetState, VersionNegotiation, Inner, inner, Prost, Recv, Send, decode_state,
  recv_decoded, recv, send_v1, send_decoded, send, initial_state, init_inner,
}
use sparse_post_quantum_ratc.Session.Modes.{
  Mode, mode, mode_of, enabled_mode, negotiating, disabled, HasMode, empty, encoded,
}

-- While the version is negotiated, the minimum or above; after that, the version 1 of the state.
abbrev Admits : Option Inner → Option VersionNegotiation → ℕ → Type 0
Admits _ (some vn) v = vn.min_version % 2 ^ 8 ≤ v
Admits (some _) none v = v ≡ 1
Admits none none v = Unit {0}

abbrev pub first_mode : Version → Mode
first_mode v0 = disabled
first_mode v1 = negotiating

module _ {Encoder Decoder : Type 0} (codec : Codec Encoder Decoder)
    (st : StoredCodec Encoder Decoder) (c : Crypto) (prost : Prost) where
  not_below : (v low : ℕ) → ltb v low ≡ false → low ≤ v
  not_below v low h = ground arith

  the_same : (v : ℕ) → ltb v 1 ≡ false → (not (v == 1) && not false) ≡ false → v ≡ 1
  the_same v h k = ground arith

  recv_decoded-Admits :
      (chain : Option ChainPb) (i : Option Inner) (vn : Option VersionNegotiation)
      (msg : MsgPreamble)
      → Ensures
          (λ _. Admits i vn msg.version)
          (recv_decoded codec st c prost
            (record { inner = i; version_negotiation = vn; chain = chain })
            msg)
  unfolding recv_decoded
  recv_decoded-Admits chain none none msg = record { at = λ _ _. tt }
  recv_decoded-Admits chain none (some vn) msg =
      Ensures-if (ltb msg.version (vn.min_version % 2 ^ 8)) _ _ (λ _. Ensures-err _)
        λ h. record { at = λ _ _. not_below msg.version (vn.min_version % 2 ^ 8) h }
  recv_decoded-Admits chain (some (inner pb)) (some vn) msg =
      Ensures-if (ltb msg.version (vn.min_version % 2 ^ 8)) _ _ (λ _. Ensures-err _)
        λ h. record { at = λ _ _. not_below msg.version (vn.min_version % 2 ^ 8) h }
  recv_decoded-Admits chain (some (inner pb)) none msg =
      Ensures-if (ltb msg.version 1) _ _ (λ _. Ensures-err _)
        λ h.
          Ensures-if (not (msg.version == 1) && not false) _ _ (λ _. Ensures-err _)
            λ k. record { at = λ _ _. the_same msg.version h k }

  -- A message that is received has at least the minimum version while the version is negotiated,
  -- and version 1 after the negotiation in a session that is not disabled.
  pub recv-Admits :
      (state bytes : Bytes) (state_pb : PqRatchetState) (msg : MsgPreamble) (r : Recv)
      → decode_state prost state ≡ ok state_pb
      → msg_preamble bytes ≡ ok msg
      → recv codec st c prost state bytes ≡ ok r
      → Admits state_pb.inner state_pb.version_negotiation msg.version
  unfolding recv
  recv-Admits state bytes pb msg r decoded parsed run =
      let ensures : Ensures (λ _. Admits pb.inner pb.version_negotiation msg.version)
          (recv codec st c prost state bytes) =
        rw (recv, parsed, decoded)
          (recv_decoded-Admits pb.chain pb.inner pb.version_negotiation msg) in
      ensures.at r run

  sends :
      (pb : PqRatchetState) (msg : Bytes) (key : MessageKey) (m : Mode)
      → mode pb ≡ m
      → Ensures {E = Error}
          (λ (s : Send). HasMode prost s.state m)
          (ok (record { state = prost.encode_to_vec pb; msg = msg; key = key }))
  sends pb msg key m e = Ensures-ok _ (encoded pb refl e)

  send_v1-mode :
      (state_pb : PqRatchetState) (pb : V1State) (rng : Rng)
      → Ensures
          (λ s. HasMode prost s.state (enabled_mode state_pb.version_negotiation))
          (send_v1 codec st c prost state_pb pb rng)
  unfolding send_v1
  send_v1-mode state_pb pb rng = search (Ensures-bind, sends) depth 12

  send_decoded-mode :
      (i : Option Inner) (vn : Option VersionNegotiation) (chain : Option ChainPb) (rng : Rng)
      → let state_pb : PqRatchetState = record {
        inner = i;
        version_negotiation = vn;
        chain = chain;
      } in
        Ensures
          (λ s. HasMode prost s.state (mode_of i vn))
          (send_decoded codec st c prost state_pb rng)
  unfolding send_decoded
  send_decoded-mode none vn chain rng = Ensures-ok _ (empty refl refl)
  send_decoded-mode (some (inner pb)) vn chain rng =
      send_v1-mode (record { inner = some (inner pb); version_negotiation = vn; chain = chain }) pb
        rng

  -- Sending leaves the mode of the session as it was: disabled, negotiating or complete.
  pub send-mode :
      (state : Bytes) (state_pb : PqRatchetState) (rng : Rng) (s : Send)
      → decode_state prost state ≡ ok state_pb
      → send codec st c prost state rng ≡ ok s
      → HasMode prost s.state (mode state_pb)
  unfolding send
  send-mode state pb rng s decoded run =
      let ensures : Ensures (λ s. HasMode prost s.state (mode pb))
          (send codec st c prost state rng) =
        rw (send, decoded) (send_decoded-mode pb.inner pb.version_negotiation pb.chain rng) in
      ensures.at s run

  starts :
      (pb : PqRatchetState) (m : Mode)
      → mode pb ≡ m
      → Ensures {E = Error} (λ b. HasMode prost b m) (ok (prost.encode_to_vec pb))
  starts pb m e = Ensures-ok _ (encoded pb refl e)

  init_inner_enabled :
      (d : Direction) (auth_key : Bytes)
      → Ensures
          (λ i. (vn : Option VersionNegotiation) → mode_of i vn ≡ enabled_mode vn)
          (init_inner codec st c v1 d auth_key)
  unfolding init_inner
  init_inner_enabled a2b auth_key =
      Ensures-bind (States.init_a codec c auth_key) _ λ s _. Ensures-ok _ λ vn. refl
  init_inner_enabled b2a auth_key =
      Ensures-bind (States.init_b codec c auth_key) _ λ s _. Ensures-ok _ λ vn. refl

  initial_state_enabled :
      (direction : Direction) (min_version : Version) (auth_key : Bytes)
      (chain_params : ChainParams)
      → Ensures
          (λ b. HasMode prost b negotiating)
          (initial_state codec st c prost (record {
            direction = direction;
            version = v1;
            min_version = min_version;
            auth_key = auth_key;
            chain_params = chain_params;
          }))
  unfolding initial_state
  initial_state_enabled direction min_version auth_key chain_params =
      Ensures-bind (init_inner codec st c v1 direction auth_key) _
        λ i made. starts _ negotiating ((init_inner_enabled direction auth_key).at i made _)

  initial_state-first_mode :
      (direction : Direction) (version min_version : Version) (auth_key : Bytes)
      (chain_params : ChainParams)
      → Ensures
          (λ b. HasMode prost b (first_mode version))
          (initial_state codec st c prost (record {
            direction = direction;
            version = version;
            min_version = min_version;
            auth_key = auth_key;
            chain_params = chain_params;
          }))
  unfolding initial_state
  initial_state-first_mode d v0 m k p = Ensures-ok _ (empty refl refl)
  initial_state-first_mode d v1 m k p = initial_state_enabled d m k p

  -- The first state for version 0 is disabled, and for version 1 it negotiates.
  pub initial_state-mode :
      (params : Params) (state : Bytes)
      → initial_state codec st c prost params ≡ ok state
      → HasMode prost state (first_mode params.version)
  initial_state-mode params state run =
      (initial_state-first_mode params.direction params.version params.min_version params.auth_key
          params.chain_params).at
        state run
