-- ===== src/Tests/Kem.antt =====
-- Runs of src/incremental_mlkem768.rs.
use sparse_post_quantum_ratc.Prelude.{
  ◌≡◌, refl, none, some, ◌∷◌, ◌++◌, replicate, All, All-append, IsU8, ok, arith,
}
use sparse_post_quantum_ratc.Types.{Bytes, Error}
use sparse_post_quantum_ratc.Tests.Toy.{All-replicate}
use sparse_post_quantum_ratc.Kem.{
  flip_rounds, flip_endianness_of_encapsulation_state, verdict, scan_values, potentially_fix_state,
}
use sparse_post_quantum_ratc.Kem.Repair.{repair-once}

-- A state whose first value of `error2` is 1 in big-endian order.
abbrev a_state : Bytes
a_state = replicate 1536 0 ++ (0 ∷ 1 ∷ replicate 542 0)

a_state_bytes : All IsU8 a_state
a_state_bytes =
    All-append IsU8 (replicate 1536 0) (0 ∷ 1 ∷ replicate 542 0)
      (All-replicate 1536 0 (omega arith))
      ((omega arith), ((omega arith), All-replicate 542 0 (omega arith)))

abbrev a_repaired_state : Bytes
unfolding flip_rounds
a_repaired_state = flip_rounds 1024 a_state

a_repair : potentially_fix_state {E = Error} a_state ≡ ok (some a_repaired_state)
unfolding potentially_fix_state flip_endianness_of_encapsulation_state flip_rounds scan_values
    verdict
a_repair = refl

repair-once_example :
    (flip_endianness_of_encapsulation_state {E = Error} a_repaired_state ≡ ok a_state)
    × (potentially_fix_state {E = Error} a_repaired_state ≡ ok none)
repair-once_example = repair-once a_state a_repaired_state refl a_state_bytes a_repair
