-- ===== src/Session/Modes.antt =====
-- The negotiation of the version: the modes of a session, and how a message moves between them.
use sparse_post_quantum_ratc.Prelude.{
  ℕ, ◌%◌, ◌^◌, ◌≡◌, inl, inr, refl, sym, ap, subst, ◌∙◌, ◌<◌, true, false, Option, none, some, [],
  not, ◌&&◌, ◌==◌, ltb, compare, Ordering, Option-cases, ok, ◌>>=◌, Ensures, Ensures-ok,
  Ensures-err, Ensures-panic, Ensures-bind, Ensures-weaken, Ensures-if, Ordering-cases, ok_or,
  arith,
}
use sparse_post_quantum_ratc.Types.{Bytes, MessageKey, Error, state_decode, version_try_from}
use sparse_post_quantum_ratc.Wire.{MsgPreamble, msg_preamble}
use sparse_post_quantum_ratc.Crypto.{Crypto}
use sparse_post_quantum_ratc.Encoding.{Codec}
use sparse_post_quantum_ratc.Stored.{StoredCodec}
use sparse_post_quantum_ratc.Proto.Chunked.{V1State}
use sparse_post_quantum_ratc.Chain.Epochs.{ChainPb, direction_try_from}
use sparse_post_quantum_ratc.Session.{
  recv_v1, PqRatchetState, VersionNegotiation, Inner, inner, Prost, Recv, state_version,
  accepted_versions, decode_state, init_inner, chain_from, recv_newer, recv_same, negotiate_down,
  recv_by_version, recv_decoded, recv,
}

pub data Mode : Type 0 where
  disabled negotiating complete : Mode

abbrev pub enabled_mode : Option VersionNegotiation → Mode
enabled_mode (some _) = negotiating
enabled_mode none = complete

abbrev pub mode_of : Option Inner → Option VersionNegotiation → Mode
mode_of none vn = disabled
mode_of (some _) vn = enabled_mode vn

abbrev pub mode : PqRatchetState → Mode
mode state_pb = mode_of state_pb.inner state_pb.version_negotiation

-- What a message of a version does to the mode: while the version is negotiated, a newer version leaves
-- the negotiation open, version 1 completes it, and version 0 disables the protocol. After that only
-- messages of version 1 are received.
pub data Moves (version : ℕ) : Mode → Mode → Type 0 where
  wait : 1 < version → Moves version negotiating negotiating
  agree : version ≡ 1 → Moves version negotiating complete
  give_up : version ≡ 0 → Moves version negotiating disabled
  stay : version ≡ 1 → Moves version complete complete
  idle : Moves version disabled disabled

-- The mode of a serialized state; the empty one is disabled.
pub data HasMode (prost : Prost) (state : Bytes) (m : Mode) : Type 0 where
  empty : state ≡ [] → m ≡ disabled → HasMode prost state m
  encoded :
      (pb : PqRatchetState) → state ≡ prost.encode_to_vec pb → mode pb ≡ m → HasMode prost state m

-- The mode behind a message of a version, with the move to it.
abbrev pub Follows : Prost → ℕ → Mode → Recv → Type 0
Follows prost version before r =
    (after : Mode) × Moves version before after × HasMode prost r.state after

module _ {Encoder Decoder : Type 0} (codec : Codec Encoder Decoder)
    (st : StoredCodec Encoder Decoder) (c : Crypto) (prost : Prost) where
  encodes :
      (pb : PqRatchetState) (key : MessageKey) (m : Mode)
      → mode pb ≡ m
      → Ensures {E = Error}
          (λ (r : Recv). HasMode prost r.state m)
          (ok (record { state = prost.encode_to_vec pb; key = key }))
  encodes pb key m e = Ensures-ok _ (encoded pb refl e)

  recv_v1-completes :
      (state_pb : PqRatchetState) (pb : V1State) (msg : MsgPreamble)
      → Ensures (λ r. HasMode prost r.state complete) (recv_v1 codec st c prost state_pb pb msg)
  unfolding recv_v1
  recv_v1-completes state_pb pb msg = search (Ensures-bind, encodes) depth 12

  recv_same-mode :
      (state_pb : PqRatchetState) (msg : MsgPreamble)
      → Ensures
          (λ r. HasMode prost r.state (mode_of state_pb.inner none))
          (recv_same codec st c prost state_pb msg)
  unfolding recv_same
  recv_same-mode state_pb msg = elim (Option-cases state_pb.inner) [
    | inl e ↦ rw e (Ensures-ok _ (empty refl refl))
    | inr (inner pb, e) ↦ rw e (recv_v1-completes state_pb pb msg)
  ]

  recv_newer-mode :
      (state_pb : PqRatchetState) (index : ℕ)
      → Ensures
          (λ r. HasMode prost r.state (mode state_pb))
          (recv_newer codec st c prost state_pb index)
  unfolding recv_newer
  recv_newer-mode state_pb index = search (Ensures-bind, encodes) depth 8

  -- Below version 1 there is version 0 only, which has no inner state.
  negotiate_down_disabled :
      (state_pb : PqRatchetState)
      → Ensures (λ lower. lower.inner ≡ none) (negotiate_down codec st c state_pb 0)
  unfolding negotiate_down init_inner version_try_from
  negotiate_down_disabled state_pb = elim (Option-cases state_pb.version_negotiation) [
    | inl e ↦ rw e Ensures-panic
    | inr (vn, e) ↦ rw e (
        Ensures-bind (ok_or (direction_try_from vn.direction) state_decode) _ λ d _.
          Ensures-bind (chain_from c state_pb.chain (some vn)) _ λ chain _. Ensures-ok _ refl)
  ]

  recv_lower-Follows :
      (state_pb : PqRatchetState) (msg : MsgPreamble)
      → msg.version ≡ 0
      → Ensures (Follows prost msg.version negotiating) (
          negotiate_down codec st c state_pb msg.version >>= λ lower.
          recv_same codec st c prost lower msg)
  recv_lower-Follows state_pb msg oldest =
      Ensures-bind (negotiate_down codec st c state_pb msg.version) _ λ lower ran.
        let none_left : lower.inner ≡ none =
          (negotiate_down_disabled state_pb).at lower
            (ap (negotiate_down codec st c state_pb) (sym oldest) ∙ ran) in
        Ensures-weaken _ (recv_same-mode lower msg) λ r h. (
          disabled,
          give_up oldest,
          subst (λ i. HasMode prost r.state (mode_of i none)) none_left h,
        )

  is_one :
      (v : ℕ) → ltb v 1 ≡ false → (not (v == 1) && not false) ≡ false → compare v 1 ≡ Ordering.eq
  is_one v above same = ground arith

  recv_complete-Follows :
      (chain : Option ChainPb) (i : Inner) (msg : MsgPreamble)
      → compare msg.version 1 ≡ Ordering.eq
      → Ensures (Follows prost msg.version complete) (
          recv_by_version codec st c prost
            (record { inner = some i; version_negotiation = none; chain = chain })
            msg)
  unfolding recv_by_version state_version
  recv_complete-Follows chain i msg e =
      rw (e, recv_by_version)
        (Ensures-weaken _
          (recv_same-mode (record { inner = some i; version_negotiation = none; chain = chain })
            msg)
          λ r h. (complete, stay (ground (arith, e)), h))

  recv_negotiating-Follows :
      (chain : Option ChainPb) (i : Inner) (vn : VersionNegotiation) (msg : MsgPreamble)
      → Ensures (Follows prost msg.version negotiating) (
          recv_by_version codec st c prost
            (record { inner = some i; version_negotiation = some vn; chain = chain })
            msg)
  unfolding recv_by_version state_version
  recv_negotiating-Follows chain i vn msg = elim (Ordering-cases (compare msg.version 1)) [
    | inl e ↦
        rw (e, recv_by_version)
          (recv_lower-Follows
            (record { inner = some i; version_negotiation = some vn; chain = chain }) msg
            (ground (arith, e)))
    | inr (inl e) ↦
        rw (e, recv_by_version)
          (Ensures-weaken _
            (recv_same-mode
              (record { inner = some i; version_negotiation = some vn; chain = chain }) msg)
            λ r h. (complete, agree (ground (arith, e)), h))
    | inr (inr e) ↦
        rw (e, recv_by_version)
          (Ensures-weaken _
            (recv_newer-mode
              (record { inner = some i; version_negotiation = some vn; chain = chain }) msg.index)
            λ r h. (negotiating, wait (ground (arith, e)), h))
  ]

  recv_decoded-Follows :
      (chain : Option ChainPb) (i : Option Inner) (vn : Option VersionNegotiation)
      (msg : MsgPreamble)
      → Ensures (Follows prost msg.version (mode_of i vn)) (
          recv_decoded codec st c prost
            (record { inner = i; version_negotiation = vn; chain = chain })
            msg)
  unfolding recv_decoded recv_by_version
  recv_decoded-Follows chain none vn msg =
      Ensures-if (ltb msg.version (accepted_versions 0 vn).0) _ _ (λ _. Ensures-err _)
        λ _.
          Ensures-if (not (msg.version == 0) && not (accepted_versions 0 vn).1) _ _
            (λ _. Ensures-err _) λ _. Ensures-ok _ (disabled, idle, empty refl refl)
  recv_decoded-Follows chain (some (inner pb)) none msg =
      Ensures-if (ltb msg.version 1) _ _ (λ _. Ensures-err _)
        λ above.
          Ensures-if (not (msg.version == 1) && not false) _ _ (λ _. Ensures-err _)
            λ same. recv_complete-Follows chain (inner pb) msg (is_one msg.version above same)
  recv_decoded-Follows chain (some (inner pb)) (some vn) msg =
      Ensures-if (ltb msg.version (vn.min_version % 2 ^ 8)) _ _ (λ _. Ensures-err _)
        λ _.
          Ensures-if (not (msg.version == 1) && not true) _ _ (λ _. Ensures-err _)
            λ _. recv_negotiating-Follows chain (inner pb) vn msg

  -- A message that is received moves the session as its version says: while the version is
  -- negotiated, a version above 1 leaves the negotiation open, version 1 completes it, and version
  -- 0 disables the protocol; a complete session receives version 1 only and stays complete, and a
  -- disabled one stays disabled.
  pub recv-Follows :
      (state bytes : Bytes) (state_pb : PqRatchetState) (msg : MsgPreamble) (r : Recv)
      → decode_state prost state ≡ ok state_pb
      → msg_preamble bytes ≡ ok msg
      → recv codec st c prost state bytes ≡ ok r
      → Follows prost msg.version (mode state_pb) r
  unfolding recv
  recv-Follows state bytes pb msg r decoded parsed run =
      let ensures : Ensures (Follows prost msg.version (mode pb))
          (recv codec st c prost state bytes) =
        rw (recv, parsed, decoded)
          (recv_decoded-Follows pb.chain pb.inner pb.version_negotiation msg) in
      ensures.at r run
