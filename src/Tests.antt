-- ===== src/Tests.antt =====
-- Runs of the definitions at concrete inputs.
mod Toy
mod Wire
mod Chain
mod Protocol
mod Session
mod Sets
mod Codec
mod Kem
