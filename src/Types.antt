-- ===== src/Types.antt =====
-- The shared types of src/lib.rs, and the error enums with their `From` conversions (src/lib.rs,
-- src/serialize.rs, src/authenticator.rs, src/encoding.rs, src/encoding/polynomial.rs).
use Prim.Native.String.{String}
use sparse_post_quantum_ratc.Prelude.{
  ℕ, List, Bool, true, false, Option, none, some, ◌==◌, if◌then◌else◌,
}

abbrev pub Bytes : Type 0
Bytes = List ℕ

abbrev pub Epoch : Type 0
Epoch = ℕ

abbrev pub Secret : Type 0
Secret = Bytes

abbrev pub MessageKey : Type 0
MessageKey = Option Bytes

pub record EpochSecret : Type 0 where
  pub epoch : Epoch
  pub secret : Secret

pub data Direction : Type 0 where
  a2b b2a : Direction

unfoldable pub switch : Direction → Direction
switch a2b = b2a
switch b2a = a2b

pub data Version : Type 0 where
  v0 v1 : Version

-- `u8::from(v)`, and the same discriminant as an i32 in a protobuf.
abbrev pub u8_of_version : Version → ℕ
u8_of_version v0 = 0
u8_of_version v1 = 1

-- `Version::try_from(value: u8)`; the error is a text that every caller drops.
unfoldable pub version_try_from : ℕ → Option Version
version_try_from value = if value == 0 then some v0 else if value == 1 then some v1 else none

pub data PolynomialError : Type 0 where
  message_length_even message_length_too_long serialization_invalid : PolynomialError

pub data EncodingError : Type 0 where
  polynomial_error : PolynomialError → EncodingError
  chunk_index_decoding_error chunk_data_decoding_error : EncodingError

pub data SerializeError : Type 0 where
  deserialization encoding_decoding : SerializeError

pub data AuthError : Type 0 where
  invalid_ct_mac invalid_hdr_mac : AuthError
  authenticator_root_key_present authenticator_root_key_missing : AuthError
  authenticator_mac_key_present authenticator_mac_key_missing : AuthError

pub data Error : Type 0 where
  state_decode not_implemented msg_decode mac_verify_failed : Error
  epoch_out_of_range : Epoch → Error
  encoding_failed : EncodingError → Error
  serialization : SerializeError → Error
  version_mismatch minimum_version : Error
  key_jump : ℕ → ℕ → Error
  key_trimmed : ℕ → Error
  key_already_requested : ℕ → Error
  erroneous_data_received : Error
  send_key_epoch_decreased : ℕ → ℕ → Error
  invalid_params : String → Error
  chain_not_available : Error

abbrev pub error_of_encoding : EncodingError → Error
error_of_encoding e = encoding_failed e

abbrev pub error_of_auth : AuthError → Error
error_of_auth _ = mac_verify_failed

abbrev pub serialize_error_of_polynomial : PolynomialError → SerializeError
serialize_error_of_polynomial _ = encoding_decoding

pub data SecretOutput : Type 0 where
  none_output : SecretOutput
  send_output : Secret → SecretOutput
  recv_output : Secret → SecretOutput

unfoldable pub send_secret : SecretOutput → Option Secret
send_secret (send_output s) = some s
send_secret (recv_output _) = none
send_secret none_output = none

unfoldable pub recv_secret : SecretOutput → Option Secret
recv_secret (send_output _) = none
recv_secret (recv_output s) = some s
recv_secret none_output = none

unfoldable pub secret_of : SecretOutput → Option Secret
secret_of (send_output s) = some s
secret_of (recv_output s) = some s
secret_of none_output = none

unfoldable pub has_secret : SecretOutput → Bool
has_secret none_output = false
has_secret _ = true
