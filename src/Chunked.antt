-- ===== src/Chunked.antt =====
-- src/v1/chunked: the protocol of one epoch over messages that carry chunks.
pub mod SendCt
pub mod SendEk
pub mod States
pub mod Epochs
