-- ===== src/Chain/History/Contents.antt =====
-- `KeyHistory` as a set of keys: what `get` takes out, what `add` puts in, what `gc` drops.
use mathlib.Core.List.{Permᴰ}
use sparse_post_quantum_ratc.Prelude.{
  ℕ, ◌+◌, ◌-◌, ◌*◌, ◌^◌, ◌≤◌, ◌<◌, ◌≡◌, refl, sym, ap, ◌∙◌, true, false, Option, none, some, List,
  [], ◌∷◌, ◌++◌, ltb, leb, ◌==◌, length, All, All-append, Outcome, ok, err, ok-injective, IsU32,
  arith, le→leb, Bool-cases, Option-cases, inl, inr, ==_refl,
}
use sparse_post_quantum_ratc.Types.{Bytes, Error, key_already_requested, key_trimmed}
use sparse_post_quantum_ratc.Chain.Params.{ChainParamsPb, max_ooo_keys_or_default, trim_size}
use sparse_post_quantum_ratc.Chain.History.{KeyHistory, add, get, gc}
use sparse_post_quantum_ratc.Chain.History.Entries.{
  Entry, IsEntry, encode, length-encode, of_bytes, add-encode,
}
use sparse_post_quantum_ratc.Chain.History.Lookup.{take_entry, found, get-encode, take_entry-perm}
use sparse_post_quantum_ratc.Chain.History.Trim.{trim, keep_from, gc_rounds-encode, trim-perm}

-- A key that get returns from the bytes of a list of entries is stored in the list under the index
-- asked for, the index is not too old, and the bytes left are those of the other entries in some
-- order, provided that the index plus max_ooo_keys fits in 32 bits.
pub get-takes_entry :
    (es : List Entry) (at current_ctr : ℕ) (params : ChainParamsPb) (k : Bytes) (self' : KeyHistory)
    → All IsEntry es
    → at + max_ooo_keys_or_default params < 2 ^ 32
    → get (of_bytes (encode es)) at current_ctr params ≡ ok (k, self')
    → (current_ctr ≤ at + max_ooo_keys_or_default params)
      × (rest : List Entry) × (self' ≡ of_bytes (encode rest))
      × Permᴰ es ((at, k) ∷ rest)
unfolding found
get-takes_entry es at ctr params k self' h hb e =
    let e' = sym (get-encode es at ctr params h hb) ∙ e in
    elim (Bool-cases (ltb (at + max_ooo_keys_or_default params) ctr)) [
      | inl t ↦
          let x : ◌≡◌ {A = Outcome Error (Bytes × KeyHistory)} (err (key_trimmed at))
              (ok (k, self')) =
            rw t at e' in
          cc
      | inr f ↦ elim (Option-cases (take_entry at es)) [
        | inl n ↦
            let x : ◌≡◌ {A = Outcome Error (Bytes × KeyHistory)} (err (key_already_requested at))
                (ok (k, self')) =
              rw (f, n) at e' in
            cc
        | inr ((k', rest), s) ↦
            let x : ◌≡◌ {A = Outcome Error (Bytes × KeyHistory)} (ok (k', of_bytes (encode rest)))
                (ok (k, self')) =
              rw (f, s) at e' in
            let y : ◌≡◌ {A = Bytes × KeyHistory} (k', of_bytes (encode rest)) (k, self') =
              ok-injective x in
            (
              ground arith,
              rest,
              sym (ap (λ p. p.1) y),
              rw (ap (λ p. p.0) y) at (take_entry-perm at es k' rest s),
            )
      ]
    ]

take_entry-last :
    (at : ℕ) (k : Bytes) (es : List Entry)
    → take_entry at es ≡ none
    → take_entry at (es ++ (at, k) ∷ []) ≡ some (k, es)
unfolding take_entry
take_entry-last at k [] h = rw (==_refl at)
take_entry-last at k ((i, k') ∷ es) h = elim (Bool-cases (i == at)) [
  | inl t ↦ let e : ◌≡◌ {A = Option (Bytes × List Entry)} (some (k', _)) none = rw t at h in cc
  | inr f ↦ elim (Option-cases (take_entry at es)) [
    | inl n ↦ rw (f, take_entry-last at k es n)
    | inr ((k'', rest'), s) ↦
        let e : ◌≡◌ {A = Option (Bytes × List Entry)} (some (k'', _)) none = rw (f, s) at h in cc
  ]
]

-- A key added under an index that the history does not hold can be taken out again until it is too
-- old, which leaves the history as it was, provided that the index plus max_ooo_keys fits in 32
-- bits.
pub get-add :
    (es : List Entry) (at current_ctr : ℕ) (params : ChainParamsPb) (k : Bytes)
    → All IsEntry es
    → IsEntry (at, k)
    → at + max_ooo_keys_or_default params < 2 ^ 32
    → current_ctr ≤ at + max_ooo_keys_or_default params
    → take_entry at es ≡ none
    → get (add (of_bytes (encode es)) (at, k)) at current_ctr params ≡ ok (k, of_bytes (encode es))
unfolding found
get-add es at ctr params k h he hb hc hn =
    let late : ltb (at + max_ooo_keys_or_default params) ctr ≡ false = ground arith in
    rw (
      add-encode es (at, k),
      get-encode (es ++ (at, k) ∷ []) at ctr params (All-append IsEntry es _ h (he, tt)) hb,
      late,
      take_entry-last at k es hn,
    )

-- gc of a history with at least trim_size entries keeps, in some order, exactly the entries whose
-- index is at least the current one less max_ooo_keys, when the current index is at least
-- max_ooo_keys.
pub gc-keeps :
    (es : List Entry) (current_key : ℕ) (params : ChainParamsPb)
    → All IsEntry es
    → IsU32 current_key
    → max_ooo_keys_or_default params ≤ current_key
    → trim_size params ≤ length es
    → (kept : List Entry) × (gc (of_bytes (encode es)) current_key params
        ≡ ok (of_bytes (encode kept)))
      × Permᴰ kept (keep_from (current_key - max_ooo_keys_or_default params) es)
unfolding gc
gc-keeps es ctr params h hc hk hs =
    let horizon : ℕ = ctr - max_ooo_keys_or_default params in
    let n : ℕ = length (encode es) in
    let size : n ≡ 36 * length es = length-encode es h in
    let full : leb (trim_size params * 36) n ≡ true = le→leb _ _ (omega arith) in
    let fits : leb (max_ooo_keys_or_default params) ctr ≡ true = le→leb _ _ hk in
    (
      trim n horizon es,
      rw (full, fits, gc_rounds-encode horizon (omega arith) n [] es 0 h refl (omega arith)),
      trim-perm n horizon es (omega arith),
    )

-- A history that is not full is left alone.
pub gc-not_full :
    (es : List Entry) (current_key : ℕ) (params : ChainParamsPb)
    → All IsEntry es
    → length es < trim_size params
    → gc (of_bytes (encode es)) current_key params ≡ ok (of_bytes (encode es))
unfolding gc
gc-not_full es ctr params h hs =
    let size : length (encode es) ≡ 36 * length es = length-encode es h in
    let part : leb (trim_size params * 36) (length (encode es)) ≡ false = ground arith in rw part
