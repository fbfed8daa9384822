-- ===== src/Proto.antt =====
-- src/proto/pq_ratchet.proto: the messages of the codec and of the authenticator, and of both layers
-- of the states. A repeated field is a list, a field of message type may be missing.
pub mod Unchunked
pub mod Chunked
use sparse_post_quantum_ratc.Prelude.{ℕ, List, Bool}
use sparse_post_quantum_ratc.Types.{Bytes}

pub record PolynomialEncoder : Type 0 where
  pub idx : ℕ
  pub pts : List Bytes
  pub polys : List Bytes

pub record PolynomialDecoder : Type 0 where
  pub pts_needed : ℕ
  pub polys : ℕ
  pub pts : List Bytes
  pub is_complete : Bool

pub record Authenticator : Type 0 where
  pub root_key : Bytes
  pub mac_key : Bytes
