-- ===== src/Unchunked.antt =====
-- src/v1/unchunked: the protocol of one epoch over whole keys and ciphertexts.
pub mod SendCt
pub mod SendEk
pub mod Epochs
