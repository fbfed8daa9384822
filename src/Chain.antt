-- ===== src/Chain.antt =====
-- src/chain.rs: the chains of message keys.
pub mod Params
pub mod History
pub mod Direction
pub mod Epochs
