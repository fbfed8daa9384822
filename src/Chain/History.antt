-- ===== src/Chain/History.antt =====
-- `KeyHistory` of src/chain.rs: skipped keys in one byte vector, 4 bytes of index and 32 bytes of key
-- each. Offsets are usizes within the vector and cannot overflow.
pub mod Entries
pub mod Order
pub mod Distinct
pub mod Contents
pub mod Trim
pub mod Lookup
use sparse_post_quantum_ratc.Prelude.{
  ℕ, zero, suc, ◌+◌, ◌-◌, ◌*◌, ◌/◌, ◌%◌, Bool, true, false, List, [], ◌∷◌, ◌++◌, ◌==◌, ltb, leb,
  if◌then◌else◌, length, take, drop, slice, slice_eq, to_be_bytes32, add_checked, Outcome, ok, err,
  panic, ◌>>=◌, ◌>>◌, assert,
}
use sparse_post_quantum_ratc.Types.{Bytes, Error, key_trimmed, key_already_requested}
use sparse_post_quantum_ratc.Chain.Params.{ChainParamsPb, max_ooo_keys_or_default, trim_size}

pub record KeyHistory : Type 0 where
  pub bytes : Bytes

abbrev pub key_size : ℕ
key_size = 4 + 32

abbrev pub new : KeyHistory
new = record { bytes = [] }

unfoldable pub add : KeyHistory → ℕ × Bytes → KeyHistory
add self k = record { bytes = (self.bytes ++ to_be_bytes32 k.0) ++ k.1 }

-- `xs.copy_within(from.., to)`
abbrev copy_within : Bytes → ℕ → ℕ → Bytes
copy_within xs from to = take to xs ++ (drop from xs ++ drop (to + (length xs - from)) xs)

unfoldable pub remove : KeyHistory → ℕ → KeyHistory
remove self i =
    let n = length self.bytes in
    let new_end = n - key_size in
    record {
      bytes =
          if ltb (i + key_size) n
          then take new_end (copy_within self.bytes new_end i)
          else take i self.bytes;
    }

-- `a.cmp(b) == Ordering::Greater` on slices.
abbrev pub slice_gt : Bytes → Bytes → Bool
slice_gt [] ys = false
slice_gt (x ∷ xs) [] = true
slice_gt (x ∷ xs) (y ∷ ys) = if x == y then slice_gt xs ys else ltb y x

-- The `while` loop of `gc` from offset `i`. A round shortens the vector or moves `i` on, so as many
-- rounds as there are bytes are enough; running out of them counts as a panic.
unfoldable pub gc_rounds : ℕ → Bytes → KeyHistory → ℕ → Outcome Error KeyHistory
gc_rounds zero trim_horizon self i = if ltb i (length self.bytes) then panic else ok self
gc_rounds (suc rounds) trim_horizon self i = elim (ltb i (length self.bytes)) [
  | true ↦ do
    at ← slice self.bytes i (i + 4)
    elim (slice_gt trim_horizon at) [
      | true ↦ gc_rounds rounds trim_horizon (remove self i) i
      | false ↦ gc_rounds rounds trim_horizon self (i + key_size)
    ]
  | false ↦ ok self
]

unfoldable pub gc : KeyHistory → ℕ → ChainParamsPb → Outcome Error KeyHistory
gc self current_key params =
    if leb (trim_size params * key_size) (length self.bytes)
    then (do
      assert (leb (max_ooo_keys_or_default params) current_key)
      let trim_horizon = to_be_bytes32 (current_key - max_ooo_keys_or_default params)
      gc_rounds (length self.bytes) trim_horizon self 0)
    else ok self

abbrev pub clear : KeyHistory → KeyHistory
clear self = record { bytes = [] }

-- The `for` loop of `get` from offset `i`, by the keys left.
unfoldable pub get_rounds : ℕ → KeyHistory → ℕ → ℕ → Outcome Error (Bytes × KeyHistory)
get_rounds zero self at i = err (key_already_requested at)
get_rounds (suc rounds) self at i = do
  this ← slice self.bytes i (i + 4)
  let rest = get_rounds rounds self at (i + key_size)
  if slice_eq this (to_be_bytes32 at)
      then (do out ← slice self.bytes (i + 4) (i + key_size); ok (out, remove self i))
      else rest

unfoldable pub get : KeyHistory → ℕ → ℕ → ChainParamsPb → Outcome Error (Bytes × KeyHistory)
get self at current_ctr params = do
  assert (length self.bytes % key_size == 0)
  kept_until ← add_checked 32 at (max_ooo_keys_or_default params)
  if ltb kept_until current_ctr
      then err (key_trimmed at)
      else get_rounds (length self.bytes / key_size) self at 0
