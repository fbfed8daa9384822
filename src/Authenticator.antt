-- ===== src/Authenticator.antt =====
-- src/authenticator.rs and src/util.rs: the keys that authenticate headers and ciphertexts, and the
-- constant-time comparison.
pub mod Compare
pub mod Stored
use Prim.Native.Nat.{bit_and, bit_or, bit_xor}
use sparse_post_quantum_ratc.Prelude.{
  ℕ, ◌+◌, ◌-◌, ◌/◌, ◌%◌, ◌^◌, List, [], ◌∷◌, ◌++◌, ◌==◌, not, if◌then◌else◌, take, drop, replicate,
  slice, length, to_be_bytes64, Outcome, ok, err, panic, ◌>>=◌, leb,
}
use sparse_post_quantum_ratc.Types.{Bytes, Epoch, AuthError, invalid_ct_mac, invalid_hdr_mac}
use sparse_post_quantum_ratc.Crypto.{Crypto, hkdf_to_vec, ascii}

-- `inz` of src/util.rs: 1 if the byte is not zero, by arithmetic on a u16.
unfoldable pub inz : ℕ → ℕ
inz value =
    let negated = (2 ^ 16 - 1 - value + 1) % 2 ^ 16 in
    bit_and (bit_or value negated / 2 ^ 8) 1 % 2 ^ 8

-- The `for` loop of `compare`; `rhs[i]` panics behind the end of `rhs`.
unfoldable pub compare_rounds : Bytes → Bytes → ℕ → Outcome AuthError ℕ
compare_rounds [] rhs r = ok r
compare_rounds (x ∷ lhs) [] r = panic
compare_rounds (x ∷ lhs) (y ∷ rhs) r = compare_rounds lhs rhs (bit_or r (bit_xor x y))

unfoldable pub compare : Bytes → Bytes → Outcome AuthError ℕ
compare lhs rhs = do r ← compare_rounds lhs rhs 0; ok (inz r)

pub record Authenticator : Type 0 where
  pub root_key : Bytes
  pub mac_key : Bytes

abbrev pub macsize : ℕ
macsize = 32

module _ (c : Crypto) where
  unfoldable pub update {ℓ} : {E : Type ℓ} → Authenticator → Epoch → Bytes → Outcome E Authenticator
  update a ep k = do
    let ikm = a.root_key ++ k
    let info = ascii "Signal_PQCKA_V1_MLKEM768:Authenticator Update" ++ to_be_bytes64 ep
    kdf_out ← hkdf_to_vec c (replicate 32 0) ikm info 64
    root_key ← slice kdf_out 0 32
    mac_key ← slice kdf_out 32 (length kdf_out)
    ok (record { root_key = root_key; mac_key = mac_key })

  unfoldable pub new {ℓ} : {E : Type ℓ} → Bytes → Epoch → Outcome E Authenticator
  new root_key ep =
      update (record { root_key = replicate 32 0; mac_key = replicate 32 0 }) ep root_key

  unfoldable pub mac_ct : Authenticator → Epoch → Bytes → Bytes
  mac_ct a ep ct =
      c.hmac a.mac_key (ascii "Signal_PQCKA_V1_MLKEM768:ciphertext" ++ (to_be_bytes64 ep ++ ct))
        macsize

  unfoldable pub mac_hdr : Authenticator → Epoch → Bytes → Bytes
  mac_hdr a ep hdr =
      c.hmac a.mac_key (ascii "Signal_PQCKA_V1_MLKEM768:ekheader" ++ (to_be_bytes64 ep ++ hdr))
        macsize

  unfoldable pub verify_ct : Authenticator → Epoch → Bytes → Bytes → Outcome AuthError (Unit {0})
  verify_ct a ep ct expected_mac = do
    r ← compare expected_mac (mac_ct a ep ct)
    if not (r == 0) then err invalid_ct_mac else ok tt

  unfoldable pub verify_hdr : Authenticator → Epoch → Bytes → Bytes → Outcome AuthError (Unit {0})
  verify_hdr a ep hdr expected_mac = do
    r ← compare expected_mac (mac_hdr a ep hdr)
    if not (r == 0) then err invalid_hdr_mac else ok tt
