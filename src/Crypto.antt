-- ===== src/Crypto.antt =====
-- The cryptographic packages that the source only calls: HKDF-SHA256, HMAC-SHA256, the incremental
-- ML-KEM-768 of libcrux and the random number generator. `Crypto` is what the model takes of them;
-- `IsSized` is the lengths that they document. Also src/kdf.rs.
use sparse_post_quantum_ratc.Prelude.{
  All, IsU8, ℕ, ◌*◌, ◌≤◌, ◌≡◌, Bool, Option, Outcome, ok, ◌>>◌, assert, leb, length, [], ◌∷◌,
}
use sparse_post_quantum_ratc.Types.{Bytes, Secret}
use Prim.Native.String.{String}
use Prim.Native.Char.{code}

-- A byte string literal.
abbrev pub ascii : String → Bytes
ascii String.[] = []
ascii (String.◌∷◌ c s) = code c ∷ ascii s

pub record KeyPair : Type 0 where
  pub pk1 : Bytes
  pub pk2 : Bytes
  pub sk : Bytes

pub record Encapsulated : Type 0 where
  pub value : Bytes
  pub state : Bytes
  pub ss : Secret

pub record Crypto : Type 0 where
  -- `Hkdf::<Sha256>::new(Some(salt), ikm).expand(info, okm)`, for `okm` of the given length
  pub expand : Bytes → Bytes → Bytes → ℕ → Bytes
  -- `hmac(Algorithm::Sha256, key, message, Some(length))`
  pub hmac : Bytes → Bytes → ℕ → Bytes
  pub from_seed : Bytes → KeyPair
  -- `validate_pk_bytes(pk1, pk2).is_ok()`
  pub validate_pk_bytes : Bytes → Bytes → Bool
  -- `none` stands for `Err`: a buffer has the wrong size
  pub encapsulate1 : Bytes → Bytes → Option Encapsulated
  pub encapsulate2 : Bytes → Bytes → Bytes
  pub decapsulate_compressed_key : Bytes → Bytes → Bytes → Secret

-- What `rng.fill_bytes` writes into a buffer of the given length. No operation fills two buffers.
abbrev pub Rng : Type 0
Rng = ℕ → Bytes

abbrev pub key_generation_seed_size : ℕ
key_generation_seed_size = 64

abbrev pub shared_secret_size : ℕ
shared_secret_size = 32

-- src/kdf.rs. SHA-256 expands to at most 255 blocks of 32 bytes.
module _ (c : Crypto) where
  abbrev pub hkdf_to_slice {ℓ} : {E : Type ℓ} → Bytes → Bytes → Bytes → ℕ → Outcome E Bytes
  hkdf_to_slice salt ikm info okm_len = do
    assert (leb okm_len (255 * 32))
    ok (c.expand salt ikm info okm_len)

  abbrev pub hkdf_to_vec {ℓ} : {E : Type ℓ} → Bytes → Bytes → Bytes → ℕ → Outcome E Bytes
  hkdf_to_vec salt ikm info okm_len = hkdf_to_slice salt ikm info okm_len

-- The lengths that the packages document for what they return, which are bytes.
pub record IsSized (c : Crypto) : Type 0 where
  pub expand_length :
      (salt ikm info : Bytes) (okm_len : ℕ) → length (c.expand salt ikm info okm_len) ≡ okm_len
  pub hmac_length : (key message : Bytes) (n : ℕ) → n ≤ 32 → length (c.hmac key message n) ≡ n
  pub hmac_bytes : (key message : Bytes) (n : ℕ) → All IsU8 (c.hmac key message n)
