-- ===== src/Chain/Direction/Steps.antt =====
-- The steps of `key` keep a direction tracking its chain.
use mathlib.Core.List
use sparse_post_quantum_ratc.Prelude.{
  ℕ, zero, suc, ◌+◌, ◌-◌, ◌≤◌, ◌<◌, ◌^◌, ◌≡◌, ◌≢◌, refl, Bool, true, false, List, [], ◌∷◌, ◌++◌,
  ltb, leb, length, All, All-append, ok, ◌>>=◌, arith, if◌then◌else◌, lt→ltb, Bool-cases, inl, inr,
}
use sparse_post_quantum_ratc.Types.{Bytes}
use sparse_post_quantum_ratc.Crypto.{Crypto, IsSized}
use sparse_post_quantum_ratc.Chain.Params.{ChainParamsPb, max_ooo_keys_or_default, trim_size}
use sparse_post_quantum_ratc.Chain.History
use sparse_post_quantum_ratc.Chain.History.{KeyHistory}
use sparse_post_quantum_ratc.Chain.History.Entries.{
  Entry, IsEntry, encode, of_bytes, add-encode, All-perm,
}
use sparse_post_quantum_ratc.Chain.History.Trim.{keep_from}
use sparse_post_quantum_ratc.Chain.History.Contents.{gc-keeps, gc-not_full}
use sparse_post_quantum_ratc.Chain.History.Distinct.{
  Distinct, Distinct-perm, Distinct-snoc, length-Distinct,
}
use sparse_post_quantum_ratc.Chain.Direction.{ChainEpochDirection, advance}
use sparse_post_quantum_ratc.Chain.Direction.Ratchet.{
  chain_key, message_key, IsStored, Tracks, All-IsEntry, next_key_internal-chain_key,
  IsStored-later,
}

-- What may be taken from a history that tracks: fewer entries.
module _ (c : Crypto) (root : Bytes) where
  IsStored-differs :
      (ctr : ℕ) (k : Bytes) (es : List Entry)
      → All (IsStored c root ctr) es
      → All (λ (f : Entry). f.0 ≢ suc ctr) es
  IsStored-differs ctr k [] h = tt
  IsStored-differs ctr k ((i, k') ∷ es) h =
      ((λ e. absurd (omega arith)), IsStored-differs ctr k es h.1)

  Stored-range :
      (ctr : ℕ) (es : List Entry)
      → All (IsStored c root ctr) es
      → All (λ e. (1 ≤ e.0) × (e.0 ≤ ctr)) es
  Stored-range ctr [] h = tt
  Stored-range ctr ((i, k') ∷ es) h = ((h.0.0, h.0.1), Stored-range ctr es h.1)

  All-keep_from :
      (P : Entry → Type 0) (horizon : ℕ) (es : List Entry) → All P es → All P (keep_from horizon es)
  unfolding keep_from
  All-keep_from P horizon [] h = tt
  All-keep_from P horizon (e ∷ es) h = elim (Bool-cases (ltb e.0 horizon)) [
    | inl t ↦ rw t (All-keep_from P horizon es h.1)
    | inr f ↦ rw f (h.0, All-keep_from P horizon es h.1)
  ]

  Distinct-keep_from :
      (horizon : ℕ) (es : List Entry) → Distinct es → Distinct (keep_from horizon es)
  unfolding keep_from
  Distinct-keep_from horizon [] h = tt
  Distinct-keep_from horizon (e ∷ es) h = elim (Bool-cases (ltb e.0 horizon)) [
    | inl t ↦ rw t (Distinct-keep_from horizon es h.1)
    | inr f ↦
        rw f (All-keep_from (λ f. f.0 ≢ e.0) horizon es h.0, Distinct-keep_from horizon es h.1)
  ]

  module _ (params : ChainParamsPb) (sized : IsSized c) (hr : length root ≡ 32) where
    -- Removing entries by `gc` never panics and keeps a direction tracking.
    pub gc-Tracks :
        (self : ChainEpochDirection)
        → Tracks c root self
        → (prev : KeyHistory) × (History.gc self.prev self.ctr params ≡ ok prev)
          × Tracks c root (record self { prev = prev })
    gc-Tracks self t =
        let ctr : ℕ = self.ctr in
        let ents : All IsEntry t.entries =
          All-IsEntry c sized root ctr t.ctr_fits t.entries t.all_true in
        let few : length t.entries ≤ ctr =
          length-Distinct ctr t.entries (Stored-range ctr t.entries t.all_true) t.distinct in
        elim (Bool-cases (leb (trim_size params) (length t.entries))) [
          | inl full ↦
              let (kept, run, perm) =
                gc-keeps t.entries ctr params ents t.ctr_fits (unfold trim_size in ground arith)
                  (ground arith) in
              let back = List.Permᴰ.symm perm in
              let horizon : ℕ = ctr - max_ooo_keys_or_default params in
              (
                of_bytes (encode kept),
                rw (t.stored, run),
                record {
                  ctr_fits = t.ctr_fits;
                  at_ctr = t.at_ctr;
                  entries = kept;
                  stored = refl;
                  all_true =
                      All-perm (IsStored c root ctr) back
                        (All-keep_from (IsStored c root ctr) horizon t.entries t.all_true);
                  distinct = Distinct-perm back (Distinct-keep_from horizon t.entries t.distinct);
                },
              )
          | inr part ↦
              (self.prev, rw t.stored (gc-not_full t.entries ctr params ents (ground arith)), t)
        ]

    pub added-Tracks :
        (self : ChainEpochDirection)
        → Tracks c root self
        → suc self.ctr < 2 ^ 32
        → (kept : Bool)
        → Tracks c root (record {
          ctr = suc self.ctr;
          next = chain_key c root (suc self.ctr);
          prev =
              if kept
              then History.add self.prev (suc self.ctr, message_key c root (suc self.ctr))
              else self.prev;
        })
    added-Tracks self t h true =
        let ctr : ℕ = self.ctr in
        let k : Bytes = message_key c root (suc ctr) in
        record {
          ctr_fits = h;
          at_ctr = refl;
          entries = t.entries ++ (suc ctr, k) ∷ [];
          stored = rw t.stored (add-encode t.entries (suc ctr, k));
          all_true =
              All-append (IsStored c root (suc ctr)) t.entries ((suc ctr, k) ∷ [])
                (IsStored-later c root ctr (suc ctr) (omega arith) t.entries t.all_true)
                (((omega arith), (omega arith), refl), tt);
          distinct =
              Distinct-snoc t.entries (suc ctr, k) (IsStored-differs ctr k t.entries t.all_true)
                t.distinct;
        }
    added-Tracks self t h false = record {
      ctr_fits = h;
      at_ctr = refl;
      entries = t.entries;
      stored = t.stored;
      all_true = IsStored-later c root self.ctr (suc self.ctr) (omega arith) t.entries t.all_true;
      distinct = t.distinct;
    }

    pub advance-Tracks :
        (rounds : ℕ) (self : ChainEpochDirection) (at : ℕ)
        → Tracks c root self
        → self.ctr < at
        → at + max_ooo_keys_or_default params < 2 ^ 32
        → at ≤ self.ctr + rounds
        → (self' : ChainEpochDirection) × (advance c rounds self at params ≡ ok self')
          × (suc self'.ctr ≡ at)
          × Tracks c root self'
    unfolding advance
    advance-Tracks zero self at t lo hi hr = absurd (omega arith)
    advance-Tracks (suc rounds) self at t lo hi enough =
        let fits : ltb (self.ctr + 1) (2 ^ 32) ≡ true = lt→ltb _ _ (omega arith) in
        elim (Bool-cases (ltb (self.ctr + 1) at)) [
          | inl more ↦
              let kept : Bool = leb at (suc self.ctr + max_ooo_keys_or_default params) in
              let on = added-Tracks self t (omega arith) kept in
              let fits' : ltb (suc self.ctr + max_ooo_keys_or_default params) (2 ^ 32) ≡ true =
                lt→ltb _ _ (ground arith) in
              let (self', run, reached, tracks) =
                advance-Tracks rounds _ at on (ground arith) hi (omega arith) in
              (
                self',
                rw
                    (
                      fits,
                      ◌>>=◌,
                      more,
                      t.at_ctr,
                      next_key_internal-chain_key c sized root self.ctr hr (omega arith),
                      fits',
                    )
                    run,
                reached,
                tracks,
              )
          | inr last ↦ (self, rw (fits, ◌>>=◌, last), ground arith, t)
        ]
