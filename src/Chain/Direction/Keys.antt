-- ===== src/Chain/Direction/Keys.antt =====
-- `key` of a direction that tracks its chain: which key it returns, and that it returns it once.
use mathlib.Core.Path.{subst}
use native.Mathlib.Decide.{dec_lt}
use sparse_post_quantum_ratc.Prelude.{
  ℕ, suc, ◌+◌, ◌-◌, ◌≤◌, ◌<◌, ◌^◌, ◌≡◌, refl, sym, ap, ◌∙◌, Bool, true, false, none, [], ltb,
  length, All, Outcome, ok, err, ok-injective, ◌⊎◌, >>=-eq-ok, ◌>>=◌, arith, compare, Ordering,
  if◌then◌else◌, lt→ltb, inl, inr,
}
use sparse_post_quantum_ratc.Types.{Bytes, Error, key_already_requested, key_jump}
use sparse_post_quantum_ratc.Crypto.{Crypto, IsSized}
use sparse_post_quantum_ratc.Chain.Params.{
  ChainParamsPb, max_jump_or_default, max_ooo_keys_or_default,
}
use sparse_post_quantum_ratc.Chain.History
use sparse_post_quantum_ratc.Chain.History.{KeyHistory}
use sparse_post_quantum_ratc.Chain.History.Entries.{IsEntry, encode, All-perm}
use sparse_post_quantum_ratc.Chain.History.Lookup.{take_entry, found, get-encode}
use sparse_post_quantum_ratc.Chain.History.Contents.{get-takes_entry}
use sparse_post_quantum_ratc.Chain.History.Distinct.{Distinct-perm, take_entry-absent}
use sparse_post_quantum_ratc.Chain.Direction.{ChainEpochDirection, later_key, key}
use sparse_post_quantum_ratc.Chain.Direction.Ratchet.{
  chain_key, message_key, IsStored, Tracks, All-IsEntry, next_key_internal-chain_key,
}
use sparse_post_quantum_ratc.Chain.Direction.Steps.{advance-Tracks, gc-Tracks, added-Tracks}

module _ (c : Crypto) (root : Bytes) (params : ChainParamsPb) where
  cleared-Tracks :
      (self : ChainEpochDirection) (b : Bool)
      → Tracks c root self
      → Tracks c root (record self { prev = if b then History.clear self.prev else self.prev })
  unfolding encode
  cleared-Tracks self true t = record {
    ctr_fits = t.ctr_fits;
    at_ctr = t.at_ctr;
    entries = [];
    stored = refl;
    all_true = tt;
    distinct = tt;
  }
  cleared-Tracks self false t = t

  -- In a direction that tracks its chain, key of an index after the counter by at most max_jump
  -- succeeds without panic: it returns the message key of that index, and the direction then
  -- tracks its chain with the index as its counter, provided that the index plus max_ooo_keys fits
  -- in 32 bits.
  pub key-later :
      (self : ChainEpochDirection) (at : ℕ)
      → IsSized c
      → length root ≡ 32
      → Tracks c root self
      → self.ctr < at
      → at ≤ self.ctr + max_jump_or_default params
      → at + max_ooo_keys_or_default params < 2 ^ 32
      → (self' : ChainEpochDirection) × (key c self at params ≡ ok (message_key c root at, self'))
        × (self'.ctr ≡ at)
        × Tracks c root self'
  unfolding key later_key
  key-later self at sized hr t lo jump hi =
      let later : compare at self.ctr ≡ Ordering.gt = ground arith in
      let near : ltb (max_jump_or_default params) (at - self.ctr) ≡ false = ground arith in
      let fits : ltb (self.ctr + max_ooo_keys_or_default params) (2 ^ 32) ≡ true =
        lt→ltb _ _ (omega arith) in
      let far : Bool = ltb (self.ctr + max_ooo_keys_or_default params) at in
      let (advanced, run, reached, tracks) =
        advance-Tracks c root params sized hr (at - self.ctr) _ at (cleared-Tracks self far t) lo hi
          (omega arith) in
      let (prev, swept, tracks') = gc-Tracks c root params sized hr advanced tracks in
      let last = next_key_internal-chain_key c sized root advanced.ctr hr (omega arith) in
      (
        record { ctr = suc advanced.ctr; next = chain_key c root (suc advanced.ctr); prev = prev },
        rw (key, later, near, fits, ◌>>=◌, run, swept, tracks.at_ctr, last, reached),
        reached,
        added-Tracks c root params sized hr (record advanced { prev = prev }) tracks' (omega arith)
            false,
      )

  -- A key of an earlier index is a stored key, and it is gone afterwards.
  key-earlier :
      (self : ChainEpochDirection) (at : ℕ) (k : Bytes) (self' : ChainEpochDirection)
      → IsSized c
      → Tracks c root self
      → at < self.ctr
      → at + max_ooo_keys_or_default params < 2 ^ 32
      → key c self at params ≡ ok (k, self')
      → (1 ≤ at)
        × (k ≡ message_key c root at)
        × (self'.ctr ≡ self.ctr)
        × (self.ctr ≤ at + max_ooo_keys_or_default params)
        × ((t : Tracks c root self') × (take_entry at t.entries ≡ none))
  unfolding key
  key-earlier self at k self' sized t lo hi run =
      let earlier : compare at self.ctr ≡ Ordering.lt = ground arith in
      let step : Bytes × KeyHistory → Outcome Error (Bytes × ChainEpochDirection) =
        λ r. ok (r.0, record self { prev = r.1 }) in
      let run' : (History.get self.prev at self.ctr params >>= step) ≡ ok (k, self') =
        rw (key, earlier) at run in
      let ((k', prev), taken, done) =
        >>=-eq-ok (History.get self.prev at self.ctr params) step run' in
      let same : ◌≡◌ {A = Bytes × ChainEpochDirection} (k', record self { prev = prev })
          (k, self') =
        ok-injective done in
      let ents : All IsEntry t.entries =
        All-IsEntry c sized root self.ctr t.ctr_fits t.entries t.all_true in
      let (fresh, rest, left, perm) =
        get-takes_entry t.entries at self.ctr params k' prev ents hi (rw t.stored at taken) in
      let split = All-perm (IsStored c root self.ctr) perm t.all_true in
      let apart = Distinct-perm perm t.distinct in
      let tracks : Tracks c root (record self { prev = prev }) = record {
        ctr_fits = t.ctr_fits;
        at_ctr = t.at_ctr;
        entries = rest;
        stored = left;
        all_true = split.1;
        distinct = apart.1;
      } in
      let absent : take_entry at rest ≡ none = take_entry-absent at k' rest apart.0 in
      (
        split.0.0,
        ap (λ r. r.0) (sym same) ∙ split.0.2,
        ap (λ r. r.1.ctr) (sym same),
        fresh,
        subst (λ s. (t : Tracks c root s) × (take_entry at t.entries ≡ none)) (ap (λ r. r.1) same)
            (tracks, absent),
      )

  -- The state after a successful `key`: no key of the index is left.
  Taken : ℕ → ChainEpochDirection → Type 0
  Taken at self' =
      (self'.ctr ≡ at)
      ⊎ ((at < self'.ctr)
          × (self'.ctr ≤ at + max_ooo_keys_or_default params)
          × ((t : Tracks c root self') × (take_entry at t.entries ≡ none)))

  key-ok :
      (self : ChainEpochDirection) (at : ℕ) (k : Bytes) (self' : ChainEpochDirection)
      → IsSized c
      → length root ≡ 32
      → Tracks c root self
      → at + max_ooo_keys_or_default params < 2 ^ 32
      → key c self at params ≡ ok (k, self')
      → (1 ≤ at) × (k ≡ message_key c root at) × Tracks c root self' × Taken at self'
  unfolding key Taken
  key-ok self at k self' sized hr t hi run = elim (dec_lt at self.ctr) [
    | yes lo ↦
        let (one, true_key, same, fresh, (tracks, absent)) =
          key-earlier self at k self' sized t lo hi run in
        (one, true_key, tracks, inr (omega arith, omega arith, (tracks, absent)))
    | no ge ↦ elim (dec_lt self.ctr at) [
      | no le ↦
          let eq : compare at self.ctr ≡ Ordering.eq = ground arith in
          let bad : ◌≡◌ {A = Outcome Error (Bytes × ChainEpochDirection)}
              (err (key_already_requested at)) (ok (k, self')) =
            rw (key, eq) at run in
          cc
      | yes lo ↦ elim (dec_lt (self.ctr + max_jump_or_default params) at) [
        | yes far ↦
            let gt : compare at self.ctr ≡ Ordering.gt = ground arith in
            let jump : ltb (max_jump_or_default params) (at - self.ctr) ≡ true = ground arith in
            let bad : ◌≡◌ {A = Outcome Error (Bytes × ChainEpochDirection)}
                (err (key_jump self.ctr at)) (ok (k, self')) =
              rw (key, gt, jump) at run in
            cc
        | no near ↦
            let (next, found, reached, tracks) = key-later self at sized hr t lo (omega arith) hi in
            let same : ◌≡◌ {A = Bytes × ChainEpochDirection} (message_key c root at, next)
                (k, self') =
              ok-injective (sym found ∙ run) in
            (
              omega arith,
              sym (ap (λ r. r.0) same),
              subst (Tracks c root) (ap (λ r. r.1) same) tracks,
              inl (sym (ap (λ r. r.1.ctr) same) ∙ reached),
            )
      ]
    ]
  ]

  -- When key returns a key in a direction that tracks its chain, the index is not 0, the key is
  -- the message key of that index as HKDF derives it from the root, and the direction tracks its
  -- chain again, provided that the index plus max_ooo_keys fits in 32 bits.
  pub key_correct :
      (self : ChainEpochDirection) (at : ℕ) (k : Bytes) (self' : ChainEpochDirection)
      → IsSized c
      → length root ≡ 32
      → Tracks c root self
      → at + max_ooo_keys_or_default params < 2 ^ 32
      → key c self at params ≡ ok (k, self')
      → (1 ≤ at) × (k ≡ message_key c root at) × Tracks c root self'
  key_correct self at k self' sized hr t hi run =
      let (one, true_key, tracks, taken) = key-ok self at k self' sized hr t hi run in
      (one, true_key, tracks)

  -- After key returned a key for an index in a direction that tracks its chain, the same request
  -- is refused with KeyAlreadyRequested, provided that the index plus max_ooo_keys fits in 32
  -- bits.
  pub key-once :
      (self : ChainEpochDirection) (at : ℕ) (k : Bytes) (self' : ChainEpochDirection)
      → IsSized c
      → length root ≡ 32
      → Tracks c root self
      → at + max_ooo_keys_or_default params < 2 ^ 32
      → key c self at params ≡ ok (k, self')
      → key c self' at params ≡ err (key_already_requested at)
  unfolding key Taken found
  key-once self at k self' sized hr t hi run =
      let (one, true_key, tracks, taken) = key-ok self at k self' sized hr t hi run in
      elim taken [
        | inl reached ↦ let eq : compare at self'.ctr ≡ Ordering.eq = ground arith in rw (key, eq)
        | inr (lo, fresh, (t', absent)) ↦
            let lt : compare at self'.ctr ≡ Ordering.lt = ground arith in
            let kept : ltb (at + max_ooo_keys_or_default params) self'.ctr ≡ false = ground arith in
            let ents : All IsEntry t'.entries =
              All-IsEntry c sized root self'.ctr t'.ctr_fits t'.entries t'.all_true in
            rw (key, lt, t'.stored, get-encode t'.entries at self'.ctr params ents hi, kept, absent)
      ]
