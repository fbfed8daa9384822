-- ===== src/Lib.antt =====
-- A model of SPQR, the sparse post-quantum ratchet of this repository, and proofs about it.
--
-- Two parties keep a common symmetric chain (src/chain.rs) from which both derive message keys. A
-- protocol beside it agrees on a fresh secret for one epoch after the other: one party sends a header
-- and an encapsulation key, the other sends two ciphertexts (src/v1/unchunked), cut into chunks by an
-- erasure code and driven by a state machine with eleven states (src/v1/chunked). Headers and
-- ciphertexts are authenticated (src/authenticator.rs), and each new secret is added to the chain as an
-- epoch. src/lib.rs puts version, epoch, index and payload into a message.
--
-- The files and the code that they are about:
--   Prelude and its children: lists, Boolean tests, machine words, `^` and the other operations on
--     bits, and the outcome of a Rust call with rules for what every returned value satisfies.
--   Types: the types and errors of src/lib.rs, src/encoding.rs, src/serialize.rs, src/authenticator.rs.
--   Wire: varints and the preamble of src/lib.rs, messages of src/v1/chunked/states/serialize.rs, with
--     encode_varint, decode_varint, encode_chunk, decode_chunk, serialize, deserialize, msg_preamble.
--     Proofs in Wire/Varint, Wire/RoundTrip and Wire/Total.
--   Crypto: HKDF, HMAC, ML-KEM and the random numbers as a record of functions, and src/kdf.rs.
--   Kem: src/incremental_mlkem768.rs. Proofs in Kem/Repair.
--   Authenticator: src/authenticator.rs and src/util.rs. Proofs in Authenticator/Compare.
--   Encoding: the traits of src/encoding.rs as the record Codec.
--   Encoding/Gf: src/encoding/gf.rs. Its children are about the reduction by tables (Reduce), the
--     product of polynomials over GF(2) (Product), multiplication and the constants' division (Laws),
--     the field (Basis, Assoc, Field), and its division (Squares, Inverse). Accelerated has the
--     routines by processor intrinsics, which are parameters, and the choice between them and the
--     portable ones, by which all else here multiplies.
--   Encoding/Polynomial: src/encoding/polynomial.rs, with Pt and Poly; Complete has PolyConst and
--     from_complete_points, Encoder has PolyEncoder, and Decoder has PolyDecoder. Stored makes them
--     an instance of Codec, and is about their protobufs. Columns, Points and Transfer follow the words
--     of a message through the encoder, the decoder and both. The interpolation stands over the value
--     of a polynomial (Value): products with roots and divisions by them (Roots, Division, Distinct),
--     the polynomial of points and that there is one only (Interpolate, Unique), the debug assertions
--     on the way (Asserts), and in the children of Complete the precomputed polynomials (Rounds,
--     Basis, Units) and from_complete_points (Sum, Numbered, Places). Code and its child Chunks are
--     about the chunks as words of a code, Gather and Recover about a decoder that has enough of them,
--     and AnyOrder about a message of which some chunks are lost.
--   Unchunked/SendEk, Unchunked/SendCt: src/v1/unchunked/send_ek.rs and send_ct.rs.
--   Chunked/SendEk, Chunked/SendCt, Chunked/States: src/v1/chunked/send_ek.rs, send_ct.rs and states.rs.
--     Methods of one name on several types have a longer name here, such as recv_first_ct1_chunk for
--     the one of KeysSampled. Proofs in Chunked/States/Epochs and, over Unchunked/Epochs and
--     Chunked/Epochs, in Chunked/States/Keys, which follows the keys of a run.
--   Proto and its children: the messages of src/proto/pq_ratchet.proto for the states.
--   Stored: a type with its into_pb and from_pb as a record, and the stored codec as an interface.
--     Authenticator/Stored, Unchunked/SendEk/Stored, Unchunked/SendCt/Stored, Chunked/SendEk/Stored,
--     Chunked/SendCt/Stored and Chunked/States/Stored: the files serialize.rs beside the code, where
--     one value of that record stands for the two functions of a type.
--   Session: initial_state, current_version, send and recv of src/lib.rs with the version negotiation.
--     Session/Modes says what a version does to the negotiation, and Session/Versions is about the
--     versions that are accepted.
--   Chain/Params, Chain/History, Chain/Direction, Chain/Epochs: ChainParams, KeyHistory,
--     ChainEpochDirection and Chain of src/chain.rs. The children of History read its byte vector as a
--     list of entries (Entries) and show get as a search (Lookup) and gc as a filter (Trim, Order,
--     Contents, Distinct). Direction/Ratchet describes the chain of keys by HKDF alone, and what it
--     means that a direction tracks it; Direction/Steps and Direction/Keys are about key. Epochs/Schedule
--     describes the roots of all epochs, and what it means that a chain is in step with them;
--     Epochs/Growth, Epochs/Steps and Epochs/Agreement are about the operations of a chain, and of
--     two. Epochs/Stored is about its protobuf.
--   Tests: runs at concrete inputs, with a stand-in for the cryptography in Tests/Toy.
--
-- State is passed explicitly: an operation on `&mut self` takes the old value and gives the new one. A
-- call gives an Outcome: a value, an error of its Result, or a panic. Panics are those of asserts,
-- unwraps, slices out of range, and of plain `+` and `-` on overflow. On an error the new state is not
-- given back; in the code the caller drops it or goes on with the serialized one. Loops run on fuel:
-- decode_varint has the bound of the code; advance has `at - ctr` rounds, gc the length of its vector,
-- and get the number of its entries, and to run out of fuel counts as a panic in advance and gc.
-- Offsets into vectors are usizes that cannot overflow there. Logging and the annotations for hax are
-- left out.
--
-- The encoding of a whole state by prost, the sorted sets of sorted_vec, and the packages for
-- cryptography are parameters: they are not part of the repository. An i32 of a protobuf enum stands as
-- its 32 bits. Whether the build has debug assertions is an argument of the operations of the encoder,
-- where one of them fails on some numbers of points. The other two are left out, and are those that
-- Encoding/Polynomial/Asserts is about.
--
-- Not modelled: the round robin codec of src/encoding/round_robin.rs, which only tests use, and the
-- tests, benchmarks and proofs of the repository.
pub mod Prelude
pub mod Types
pub mod Wire
pub mod Crypto
pub mod Kem
pub mod Authenticator
pub mod Proto
pub mod Stored
pub mod Encoding
pub mod Unchunked
pub mod Chunked
pub mod Chain
pub mod Session
pub mod Tests
