-- ===== src/Chain/Direction/Ratchet.antt =====
-- The chain of keys of one direction, described by HKDF alone, and what it means that a
-- `ChainEpochDirection` stands at its counter in that chain.
use sparse_post_quantum_ratc.Prelude.{
  ℕ, zero, suc, ◌+◌, ◌≤◌, ◌<◌, ◌^◌, ◌≡◌, refl, true, List, [], ◌∷◌, ltb, ◌==◌, length, length-take,
  length-drop, take, drop, replicate, All, IsU32, ok, arith, lt→ltb, ==_iff,
}
use sparse_post_quantum_ratc.Types.{Bytes}
use sparse_post_quantum_ratc.Crypto.{Crypto, IsSized}
use sparse_post_quantum_ratc.Chain.History.Entries.{Entry, IsEntry, encode, of_bytes}
use sparse_post_quantum_ratc.Chain.History.Distinct.{Distinct}
use sparse_post_quantum_ratc.Chain.Direction.{
  ChainEpochDirection, next_info, next_key_internal, next_key,
}
use sparse_post_quantum_ratc.Chain.Direction

module _ (c : Crypto) where
  -- The 64 bytes that lead from chain key `next`, number `n`, to number `n + 1`.
  abbrev pub block : Bytes → ℕ → Bytes
  block next n = c.expand (replicate 32 0) next (next_info (suc n)) 64

  -- The chain key after `n` steps from `root`.
  unfoldable pub chain_key : Bytes → ℕ → Bytes
  chain_key root zero = root
  chain_key root (suc n) = take 32 (block (chain_key root n) n)

  -- The message key of index `n`; there is none for index 0.
  unfoldable pub message_key : Bytes → ℕ → Bytes
  message_key root zero = []
  message_key root (suc n) = drop 32 (block (chain_key root n) n)

  abbrev pub IsStored : Bytes → ℕ → Entry → Type 0
  IsStored root ctr (i, k) = (1 ≤ i) × (i ≤ ctr) × (k ≡ message_key root i)

  -- The direction has reached its counter in the chain from `root`, and it keeps true keys of
  -- different indices up to there.
  pub record Tracks (root : Bytes) (self : ChainEpochDirection) : Type 0 where
    pub ctr_fits : IsU32 self.ctr
    pub at_ctr : self.next ≡ chain_key root self.ctr
    pub entries : List Entry
    pub stored : self.prev ≡ of_bytes (encode entries)
    pub all_true : All (IsStored root self.ctr) entries
    pub distinct : Distinct entries

  module _ (sized : IsSized c) where
    pub length-chain_key :
        (root : Bytes) → length root ≡ 32 → (n : ℕ) → length (chain_key root n) ≡ 32
    unfolding chain_key
    length-chain_key root h zero = h
    length-chain_key root h (suc n) =
        let g : Bytes = block (chain_key root n) n in
        omega (
          arith,
          length-take 32 g,
          sized.expand_length (replicate 32 0) (chain_key root n) (next_info (suc n)) 64,
        )

    pub length-message_key : (root : Bytes) (n : ℕ) → 1 ≤ n → length (message_key root n) ≡ 32
    unfolding message_key
    length-message_key root zero h = absurd (omega arith)
    length-message_key root (suc n) h =
        let g : Bytes = block (chain_key root n) n in
        omega (
          arith,
          length-drop 32 g,
          sized.expand_length (replicate 32 0) (chain_key root n) (next_info (suc n)) 64,
        )

    pub All-IsEntry :
        (root : Bytes) (ctr : ℕ)
        → IsU32 ctr
        → (es : List Entry) → All (IsStored root ctr) es
        → All IsEntry es
    All-IsEntry root ctr h [] hs = tt
    All-IsEntry root ctr h ((i, k) ∷ es) hs =
        let size : length k ≡ 32 = rw hs.0.2 (length-message_key root i hs.0.0) in
        (((omega arith), size), All-IsEntry root ctr h es hs.1)

    pub next_key_internal-chain_key :
        (root : Bytes) (n : ℕ)
        → length root ≡ 32
        → suc n < 2 ^ 32
        → next_key_internal c (chain_key root n) n
          ≡ ok (suc n, chain_key root (suc n), message_key root (suc n))
    unfolding next_key_internal chain_key message_key
    next_key_internal-chain_key root n h hn =
        let size : (length (chain_key root n) == 32) ≡ true =
          (==_iff _ _).1 (length-chain_key root h n) in
        let fits : ltb (n + 1) (2 ^ 32) ≡ true = lt→ltb _ _ (omega arith) in
        let one : n + 1 ≡ suc n = omega arith in rw (size, fits, one)

-- Changing the counter's bound of what is stored.
pub IsStored-later :
    (c : Crypto) (root : Bytes) (m n : ℕ)
    → m ≤ n
    → (es : List Entry) → All (IsStored c root m) es
    → All (IsStored c root n) es
IsStored-later c root m n h [] hs = tt
IsStored-later c root m n h ((i, k) ∷ es) hs =
    ((hs.0.0, (omega arith), hs.0.2), IsStored-later c root m n h es hs.1)

-- A new direction stands at the start of the chain from its key.
pub new-Tracks : (c : Crypto) (k : Bytes) → Tracks c k (Direction.new k)
unfolding chain_key encode
new-Tracks c k = record {
  ctr_fits = omega arith;
  at_ctr = refl;
  entries = [];
  stored = refl;
  all_true = tt;
  distinct = tt;
}

-- next_key of a direction that tracks its chain succeeds while the counter can be increased: it
-- returns the next index with its message key as HKDF derives it from the root, and the direction
-- tracks its chain there.
pub next_key-Tracks :
    (c : Crypto) (root : Bytes) (self : ChainEpochDirection)
    → IsSized c
    → length root ≡ 32
    → Tracks c root self
    → suc self.ctr < 2 ^ 32
    → (self' : ChainEpochDirection) × (next_key c self
        ≡ ok ((suc self.ctr, message_key c root (suc self.ctr)), self'))
      × (self'.ctr ≡ suc self.ctr)
      × Tracks c root self'
unfolding next_key
next_key-Tracks c root self sized h t hn = (
  record self { ctr = suc self.ctr; next = chain_key c root (suc self.ctr) },
  rw (t.at_ctr, next_key_internal-chain_key c sized root self.ctr h hn),
  refl,
  record {
    ctr_fits = hn;
    at_ctr = refl;
    entries = t.entries;
    stored = t.stored;
    all_true = IsStored-later c root self.ctr (suc self.ctr) (omega arith) t.entries t.all_true;
    distinct = t.distinct;
  },
)
