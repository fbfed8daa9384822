-- ===== src/Tests/Toy.antt =====
-- A small stand-in for the cryptographic packages, with their lengths, so that runs can be computed.
use sparse_post_quantum_ratc.Prelude.{
  zero, suc, All, IsU8, arith, ℕ, ◌+◌, ◌*◌, ◌%◌, true, some, [], ◌∷◌, ◌++◌, replicate,
  length-replicate,
}
use sparse_post_quantum_ratc.Types.{Bytes}
use sparse_post_quantum_ratc.Crypto.{Crypto, IsSized}

abbrev checksum : Bytes → ℕ
checksum [] = 1
checksum (x ∷ xs) = (x + 3 * checksum xs) % 251

abbrev pub toy : Crypto
toy = record {
  expand = λ salt ikm info okm_len. replicate okm_len (checksum (ikm ++ info));
  hmac = λ key message n. replicate n (checksum (key ++ message));
  from_seed = λ seed. record {
    pk1 = replicate 64 (checksum seed);
    pk2 = replicate 1152 (checksum seed);
    sk = replicate 2400 (checksum seed);
  };
  validate_pk_bytes = λ pk1 pk2. true;
  encapsulate1 = λ pk1 seed. some (record { value = seed; state = pk1; ss = checksum pk1 ∷ [] });
  encapsulate2 = λ state pk2. pk2;
  decapsulate_compressed_key = λ sk ct1 ct2. checksum sk ∷ [];
}

pub All-replicate : (n x : ℕ) → IsU8 x → All IsU8 (replicate n x)
All-replicate zero x h = tt
All-replicate (suc n) x h = (h, All-replicate n x h)

checksum-IsU8 : (xs : Bytes) → IsU8 (checksum xs)
checksum-IsU8 [] = omega arith
checksum-IsU8 (x ∷ xs) = omega arith

pub toy-IsSized : IsSized toy
toy-IsSized = record {
  expand_length = λ salt ikm info n. length-replicate n (checksum (ikm ++ info));
  hmac_bytes =
      λ key message n. All-replicate n (checksum (key ++ message)) (checksum-IsU8 (key ++ message));
  hmac_length = λ key message n h. length-replicate n (checksum (key ++ message));
}
