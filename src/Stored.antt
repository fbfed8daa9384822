-- ===== src/Stored.antt =====
-- A type with its protobuf message: the pair of functions `into_pb` and `from_pb` that every stored
-- type of the crate has, and the codec's pair for each of its two halves.
use sparse_post_quantum_ratc.Prelude.{
  ℕ, ◌≡◌, Option, none, some, Outcome, ok, err, ◌>>=◌, ok_or, map_err, ◌==◌, if◌then◌else◌,
}
use sparse_post_quantum_ratc.Types.{Error, state_decode, msg_decode, PolynomialError}
use sparse_post_quantum_ratc.Proto

pub record Stored (E A Pb : Type 0) : Type 0 where
  pub into_pb : A → Pb
  pub from_pb : Pb → Outcome E A

-- What is stored is loaded as it was.
abbrev pub Restores : {E A Pb : Type 0} → Stored E A Pb → A → Type 0
Restores s a = s.from_pb (s.into_pb a) ≡ ok a

-- `T::from_pb(field.ok_or(Error::StateDecode)?)?`
abbrev pub load : {A Pb : Type 0} → Stored Error A Pb → Option Pb → Outcome Error A
load s field = do pb ← ok_or field state_decode; s.from_pb pb

-- `T::from_pb(field.ok_or(Error::StateDecode)?).map_err(|_| Error::StateDecode)?`
abbrev pub load_codec : {A Pb : Type 0} → Stored PolynomialError A Pb → Option Pb → Outcome Error A
load_codec s field = do pb ← ok_or field state_decode; map_err (λ _. state_decode) (s.from_pb pb)

-- `if let Some(d) = &field { if d.pts_needed != size / 2 { return Err(Error::MsgDecode) } }`
abbrev pub check_pts : Option Proto.PolynomialDecoder → ℕ → Outcome Error (Unit {0})
check_pts none points = ok tt
check_pts (some d) points = if d.pts_needed == points then ok tt else err msg_decode

-- The codec's halves, as protobuf.
pub record StoredCodec (Encoder Decoder : Type 0) : Type 0 where
  pub encoder : Stored PolynomialError Encoder Proto.PolynomialEncoder
  pub decoder : Stored PolynomialError Decoder Proto.PolynomialDecoder

-- A decoder that is restored and still expects the given number of points.
abbrev pub Expects : {Encoder Decoder : Type 0} → StoredCodec Encoder Decoder → ℕ → Decoder → Type 0
Expects st points d = Restores st.decoder d × ((st.decoder.into_pb d).pts_needed ≡ points)
