-- ===== src/Kem.antt =====
-- src/incremental_mlkem768.rs: the incremental KEM behind checked sizes, and the repair of stored
-- encapsulation states.
pub mod Repair
use mathlib.Core.Option
use sparse_post_quantum_ratc.Prelude.{
  ℕ, suc, ◌+◌, ◌-◌, ◌*◌, ◌/◌, ◌%◌, Bool, ◌||◌, Option, none, some, [], ◌∷◌, ◌==◌, ltb,
  if◌then◌else◌, length, take, drop, Outcome, ok, panic, ◌>>=◌, ◌>>◌, assert, ok_or, expect,
}
use sparse_post_quantum_ratc.Types.{Bytes, Secret}
use sparse_post_quantum_ratc.Crypto.{Crypto, Rng, key_generation_seed_size, shared_secret_size}

-- The lengths that libcrux gives for ML-KEM-768; the source repeats them in its own checks.
abbrev pub ciphertext1_size : ℕ
ciphertext1_size = 960

abbrev pub ciphertext2_size : ℕ
ciphertext2_size = 128

abbrev pub header_size : ℕ
header_size = 64

abbrev pub encapsulation_key_size : ℕ
encapsulation_key_size = 1152

abbrev pub encapsulation_state_size : ℕ
encapsulation_state_size = 2080

abbrev pub decapsulation_key_size : ℕ
decapsulation_key_size = 2400

pub record Keys : Type 0 where
  pub ek : Bytes
  pub dk : Bytes
  pub hdr : Bytes

-- `es[i], es[i + 1] = es[i + 1], es[i]` at the even positions, by the rounds left.
unfoldable pub flip_rounds : ℕ → Bytes → Bytes
flip_rounds (suc k) (a ∷ b ∷ es) = b ∷ a ∷ flip_rounds k es
flip_rounds _ es = es

unfoldable pub flip_endianness_of_encapsulation_state {ℓ} : {E : Type ℓ} → Bytes → Outcome E Bytes
flip_endianness_of_encapsulation_state es = do
  assert (length es % 2 == 0)
  assert (ltb 32 (length es))
  ok (flip_rounds ((length es - 32) / 2) es)

pub data Verdict : Type 0 where
  undecided keep flip : Verdict

-- What `i16::from_le_bytes` of one encoded value tells, as a 16-bit pattern.
unfoldable pub verdict : ℕ → Verdict
verdict w =
    if w == 0x0000 || w == 0xFFFF
    then undecided
    else if w == 0x0001 || (w == 0x0002 || w == 0xFFFE)
    then keep
    else if w == 0x0100 || (w == 0x0200 || w == 0xFEFF)
    then flip
    else keep

-- The `for` loop over `chunks(2)`: the first value that decides. A last chunk of one byte makes
-- `try_into` panic.
unfoldable pub scan_values {ℓ} : {E : Type ℓ} → Bytes → Outcome E Verdict
scan_values [] = ok undecided
scan_values (a ∷ []) = panic
scan_values (a ∷ b ∷ es) =
    let rest = scan_values es in elim (verdict (a + b * 256)) [ undecided ↦ rest | v ↦ ok v ]

unfoldable pub potentially_fix_state {ℓ} : {E : Type ℓ} → Bytes → Outcome E (Option Bytes)
potentially_fix_state es = do
  assert (length es == 2080)
  v ← scan_values (take (2080 - 32 - 1536) (drop 1536 es))
  elim v [ flip ↦ do es' ← flip_endianness_of_encapsulation_state es; ok (some es') | _ ↦ ok none ]

module _ (c : Crypto) where
  unfoldable pub ek_matches_header : Bytes → Bytes → Bool
  ek_matches_header ek hdr = c.validate_pk_bytes hdr ek

  unfoldable pub generate : Rng → Keys
  generate rng =
      let k = c.from_seed (rng key_generation_seed_size) in
      record { ek = k.pk2; dk = k.sk; hdr = k.pk1 }

  unfoldable pub encaps1 {ℓ} : {E : Type ℓ} → Bytes → Rng → Outcome E (Bytes × Bytes × Secret)
  encaps1 hdr rng = do
    e ← expect (ok_or {E = Unit {0}} (c.encapsulate1 hdr (rng shared_secret_size)) tt)
    ok (e.value, e.state, e.ss)

  unfoldable pub encaps2 {ℓ} : {E : Type ℓ} → Bytes → Bytes → Outcome E Bytes
  encaps2 ek es = do
    maybe_fix ← potentially_fix_state es
    let es' = Option.get_or maybe_fix es
    assert (length es' == encapsulation_state_size)
    assert (length ek == encapsulation_key_size)
    ok (c.encapsulate2 es' ek)

  unfoldable pub decaps {ℓ} : {E : Type ℓ} → Bytes → Bytes → Bytes → Outcome E Secret
  decaps dk ct1 ct2 = do
    assert (length ct1 == ciphertext1_size)
    assert (length ct2 == ciphertext2_size)
    assert (length dk == decapsulation_key_size)
    ok (c.decapsulate_compressed_key dk ct1 ct2)
