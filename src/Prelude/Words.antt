-- ===== src/Prelude/Words.antt =====
-- Machine words as native numbers. Plain `+` and `-` of Rust panic on overflow (a build with overflow
-- checks); conversions keep the low bits.
use Prim.Native.Nat.{ℕ, ◌+◌, ◌-◌, ◌/◌, ◌%◌, ◌^◌, ◌≤◌, ◌<◌}
use mathlib.Core.Path.{◌≡◌, refl, ap, ◌∙◌}
use mathlib.Core.List.{List, [], ◌∷◌, ◌++◌}
use mathlib.Core.Bool.{true}
use native.Mathlib.Omega.{arith}
use sparse_post_quantum_ratc.Prelude.Tests.{ltb, leb, le→leb, if◌then◌else◌}
use sparse_post_quantum_ratc.Prelude.Lists.{
  take, drop, length, length-append, length-take, length-drop, take-append, drop-append,
}
use sparse_post_quantum_ratc.Prelude.Outcomes.{Outcome, ok, panic}

abbrev pub IsU8 : ℕ → Type 0
IsU8 n = n < 2 ^ 8

abbrev pub IsU16 : ℕ → Type 0
IsU16 n = n < 2 ^ 16

abbrev pub IsU32 : ℕ → Type 0
IsU32 n = n < 2 ^ 32

abbrev pub IsU64 : ℕ → Type 0
IsU64 n = n < 2 ^ 64

-- `a + b` at a width of `w` bits.
abbrev pub add_checked {ℓ} : {E : Type ℓ} → ℕ → ℕ → ℕ → Outcome E ℕ
add_checked w a b = if ltb (a + b) (2 ^ w) then ok (a + b) else panic

-- `a - b` on an unsigned type.
abbrev pub sub_checked {ℓ} : {E : Type ℓ} → ℕ → ℕ → Outcome E ℕ
sub_checked a b = if leb b a then ok (a - b) else panic

-- `xs[i..j]`
unfoldable pub slice {ℓ κ} : {E : Type ℓ} {A : Type κ} → List A → ℕ → ℕ → Outcome E (List A)
slice xs i j =
    if leb i j then (if leb j (length xs) then ok (take (j - i) (drop i xs)) else panic) else panic

pub slice-middle {ℓ κ} :
    {E : Type ℓ} {A : Type κ} (front middle back : List A) (i j : ℕ)
    → length front ≡ i
    → i + length middle ≡ j
    → slice {E = E} (front ++ (middle ++ back)) i j ≡ ok middle
unfolding slice
slice-middle front middle back i j hi hj =
    let size : length (front ++ (middle ++ back)) ≡ length front + (length middle + length back) =
      length-append front _ ∙ ap (λ t. length front + t) (length-append middle back) in
    let le : leb i j ≡ true = ground arith in
    let within : leb j (length (front ++ (middle ++ back))) ≡ true = ground arith in
    let n : length middle ≡ j - i = omega arith in
    rw (le, within, drop-append i front (middle ++ back) hi)
      (ap ok (take-append (j - i) middle back n))

pub slice-within {ℓ κ} :
    {E : Type ℓ} {A : Type κ} (xs : List A) (i j : ℕ)
    → i ≤ j
    → j ≤ length xs
    → (ys : List A) × (slice {E = E} xs i j ≡ ok ys) × (length ys ≡ j - i)
unfolding slice
slice-within xs i j h k = (
  take (j - i) (drop i xs),
  rw (le→leb i j h, le→leb j (length xs) k),
  omega (arith, length-take (j - i) (drop i xs), length-drop i xs),
)

-- `n.to_be_bytes()` of a u32 and of a u64.
unfoldable pub to_be_bytes32 : ℕ → List ℕ
to_be_bytes32 n = n / 2 ^ 24 % 256 ∷ n / 2 ^ 16 % 256 ∷ n / 2 ^ 8 % 256 ∷ n % 256 ∷ []

pub length-to_be_bytes32 : (n : ℕ) → length (to_be_bytes32 n) ≡ 4
unfolding to_be_bytes32
length-to_be_bytes32 n = refl

unfoldable pub to_be_bytes64 : ℕ → List ℕ
to_be_bytes64 n =
    n / 2 ^ 56 % 256 ∷ n / 2 ^ 48 % 256 ∷ n / 2 ^ 40 % 256 ∷ n / 2 ^ 32 % 256 ∷ to_be_bytes32 n

pub to_be_bytes32_injective :
    (m n : ℕ) → IsU32 m → IsU32 n → to_be_bytes32 m ≡ to_be_bytes32 n → m ≡ n
unfolding to_be_bytes32
to_be_bytes32_injective m n hm hn e = grind arith
