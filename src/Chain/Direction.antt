-- ===== src/Chain/Direction.antt =====
-- `ChainEpochDirection` of src/chain.rs: one direction of one epoch.
pub mod Ratchet
pub mod Steps
pub mod Keys
use sparse_post_quantum_ratc.Prelude.{
  ℕ, zero, suc, ◌+◌, ◌-◌, true, false, List, [], ◌++◌, ◌==◌, ◌||◌, ltb, leb, compare, Ordering,
  if◌then◌else◌, length, is_empty, take, drop, replicate, to_be_bytes32, add_checked, Outcome, ok,
  err, panic, ◌>>=◌, ◌>>◌, assert, guard,
}
use sparse_post_quantum_ratc.Types.{Bytes, Error, key_jump, key_already_requested, state_decode}
use sparse_post_quantum_ratc.Crypto.{Crypto, hkdf_to_slice, ascii}
use sparse_post_quantum_ratc.Chain.Params.{
  ChainParamsPb, max_jump_or_default, max_ooo_keys_or_default,
}
use sparse_post_quantum_ratc.Chain.History
use sparse_post_quantum_ratc.Chain.History.{KeyHistory}

pub record ChainEpochDirection : Type 0 where
  pub ctr : ℕ
  pub next : Bytes
  pub prev : KeyHistory

pub record EpochDirectionPb : Type 0 where
  pub ctr : ℕ
  pub next : Bytes
  pub prev : Bytes

abbrev pub new : Bytes → ChainEpochDirection
new k = record { ctr = 0; next = k; prev = History.new }

abbrev pub next_info : ℕ → Bytes
next_info ctr = to_be_bytes32 ctr ++ ascii "Signal PQ Ratchet V1 Chain Next"

unfoldable pub into_pb : ChainEpochDirection → EpochDirectionPb
into_pb self = record { ctr = self.ctr; next = self.next; prev = self.prev.bytes }

unfoldable pub from_pb : EpochDirectionPb → Outcome Error ChainEpochDirection
from_pb pb = do
  guard (is_empty pb.next || length pb.next == 32) state_decode
  ok (record { ctr = pb.ctr; next = pb.next; prev = record { bytes = pb.prev } })

abbrev pub clear_next : ChainEpochDirection → ChainEpochDirection
clear_next self = record self { next = [] }

module _ (c : Crypto) where
  -- The new counter, the new chain key and the message key. `genr8r` is an array of 64 bytes.
  unfoldable pub next_key_internal : Bytes → ℕ → Outcome Error (ℕ × Bytes × Bytes)
  next_key_internal next ctr = do
    assert (length next == 32)
    ctr' ← add_checked 32 ctr 1
    genr8r ← hkdf_to_slice c (replicate 32 0) next (next_info ctr') 64
    ok (ctr', take 32 genr8r, drop 32 genr8r)

  unfoldable pub next_key : ChainEpochDirection → Outcome Error ((ℕ × Bytes) × ChainEpochDirection)
  next_key self = do
    (ctr, next, key) ← next_key_internal self.next self.ctr
    ok ((ctr, key), record self { ctr = ctr; next = next })

  -- The `while` loop of `key`. It makes `at - ctr - 1` rounds and tests once more; running out of
  -- rounds counts as a panic.
  unfoldable pub advance :
      ℕ → ChainEpochDirection → ℕ → ChainParamsPb → Outcome Error ChainEpochDirection
  advance zero self at params = panic
  advance (suc rounds) self at params = do
    following ← add_checked 32 self.ctr 1
    elim (ltb following at) [
      | true ↦ do
        (ctr, next, k) ← next_key_internal self.next self.ctr
        kept_until ← add_checked 32 ctr (max_ooo_keys_or_default params)
        let prev = if leb at kept_until then History.add self.prev (ctr, k) else self.prev
        advance rounds (record { ctr = ctr; next = next; prev = prev }) at params
      | false ↦ ok self
    ]

  -- `key` behind the `match`: `at` is later than `ctr`.
  unfoldable pub later_key :
      ChainEpochDirection → ℕ → ChainParamsPb → Outcome Error (Bytes × ChainEpochDirection)
  later_key self at params = do
    kept_until ← add_checked 32 self.ctr (max_ooo_keys_or_default params)
    let prev = if ltb kept_until at then History.clear self.prev else self.prev
    advanced ← advance (at - self.ctr) (record self { prev = prev }) at params
    prev' ← History.gc advanced.prev advanced.ctr params
    (ctr, next, k) ← next_key_internal advanced.next advanced.ctr
    ok (k, record { ctr = ctr; next = next; prev = prev' })

  unfoldable pub key :
      ChainEpochDirection → ℕ → ChainParamsPb → Outcome Error (Bytes × ChainEpochDirection)
  key self at params = elim (compare at self.ctr) [
    | Ordering.gt ↦
        if ltb (max_jump_or_default params) (at - self.ctr)
        then err (key_jump self.ctr at)
        else later_key self at params
    | Ordering.lt ↦ do
      (k, prev) ← History.get self.prev at self.ctr params
      ok (k, record self { prev = prev })
    | Ordering.eq ↦ err (key_already_requested at)
  ]
