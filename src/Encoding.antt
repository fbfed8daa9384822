-- ===== src/Encoding.antt =====
-- src/encoding.rs: the traits `Encoder` and `Decoder`, as an interface with one record of operations,
-- and their implementations on `Option`.
pub mod Gf
pub mod Polynomial
use sparse_post_quantum_ratc.Prelude.{ℕ, Option, none, some, Outcome, ok, err, panic, ◌>>=◌}
use sparse_post_quantum_ratc.Types.{Bytes, EncodingError}
use sparse_post_quantum_ratc.Wire.{Chunk}

-- The first type is an `Encoder` and the second a `Decoder`. The functions that return no `Result`
-- have no error, only a panic.
pub record Codec (Encoder Decoder : Type 0) : Type 0 where
  pub encode_bytes : Bytes → Outcome EncodingError Encoder
  pub next_chunk : Encoder → Outcome ⊥ (Encoder × Chunk)
  pub new : ℕ → Outcome EncodingError Decoder
  pub add_chunk : Decoder → Chunk → Outcome ⊥ Decoder
  pub decoded_message : Decoder → Outcome ⊥ (Option Bytes)

-- A call without errors among fallible ones.
abbrev pub infallible {ℓ κ} : {E : Type ℓ} {A : Type κ} → Outcome ⊥ A → Outcome E A
infallible (ok a) = ok a
infallible (err e) = absurd e
infallible panic = panic

-- `unwrap` of an `Option`.
abbrev unwrap {ℓ κ} : {E : Type ℓ} {A : Type κ} → Option A → Outcome E A
unwrap none = panic
unwrap (some a) = ok a

module _ {Encoder Decoder : Type 0} (t : Codec Encoder Decoder) where
  unfoldable pub option_encode_bytes : Bytes → Outcome EncodingError (Option Encoder)
  option_encode_bytes msg = do e ← t.encode_bytes msg; ok (some e)

  unfoldable pub option_next_chunk : Option Encoder → Outcome ⊥ (Option Encoder × Chunk)
  option_next_chunk self = do
    tmp ← unwrap self
    (tmp', chunk) ← t.next_chunk tmp
    ok (some tmp', chunk)

  unfoldable pub option_new : ℕ → Outcome EncodingError (Option Decoder)
  option_new len_bytes = do d ← t.new len_bytes; ok (some d)

  unfoldable pub option_add_chunk : Option Decoder → Chunk → Outcome ⊥ (Option Decoder)
  option_add_chunk self chunk = do tmp ← unwrap self; tmp' ← t.add_chunk tmp chunk; ok (some tmp')

  unfoldable pub option_decoded_message : Option Decoder → Outcome ⊥ (Option Bytes)
  option_decoded_message self = do value ← unwrap self; t.decoded_message value

  -- `impl Encoder for Option<T>` and `impl Decoder for Option<T>`.
  unfoldable pub option_codec : Codec (Option Encoder) (Option Decoder)
  unfolding option_encode_bytes option_next_chunk option_new option_add_chunk option_decoded_message
  option_codec = record {
    encode_bytes = option_encode_bytes;
    next_chunk = option_next_chunk;
    new = option_new;
    add_chunk = option_add_chunk;
    decoded_message = option_decoded_message;
  }
