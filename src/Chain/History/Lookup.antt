-- ===== src/Chain/History/Lookup.antt =====
-- `get` as a search in the list of entries.
use mathlib.Core.List.{append_assoc, Permᴰ}
use mathlib.Core.Option.{some-injective}
use sparse_post_quantum_ratc.Prelude.{
  ℕ, ◌+◌, ◌*◌, ◌/◌, ◌%◌, ◌^◌, ◌<◌, ◌≡◌, refl, sym, ap, ◌∙◌, true, Option, none, some, List, [], ◌∷◌,
  ◌++◌, ltb, ◌==◌, if◌then◌else◌, length, length-append, slice, slice-middle, slice_eq,
  slice_eq_refl, slice_eq→eq, All, All-front, All-back, to_be_bytes32, length-to_be_bytes32,
  to_be_bytes32_injective, Outcome, ok, err, IsU32, arith, lt→ltb, Bool-cases, Option-cases, inl,
  inr, ==_iff, ==_refl,
}
use sparse_post_quantum_ratc.Types.{Bytes, Error, key_already_requested, key_trimmed}
use sparse_post_quantum_ratc.Chain.Params.{ChainParamsPb, max_ooo_keys_or_default}
use sparse_post_quantum_ratc.Chain.History.{KeyHistory, remove, get_rounds, get}
use sparse_post_quantum_ratc.Chain.History.Entries.{
  Entry, IsEntry, encode, encode-append, length-encode, of_bytes, move_last, remove-encode,
  move_last-perm,
}

-- The first entry of an index, and the entries that stay when it is taken.
unfoldable pub take_entry : ℕ → List Entry → Option (Bytes × List Entry)
take_entry at [] = none
take_entry at ((i, k) ∷ es) =
    if i == at
    then some (k, move_last es)
    else elim (take_entry at es) [ none ↦ none | some (k', rest) ↦ some (k', (i, k) ∷ rest) ]

unfoldable pub found :
    ℕ → List Entry → Option (Bytes × List Entry) → Outcome Error (Bytes × KeyHistory)
found at pre none = err (key_already_requested at)
found at pre (some (k, rest)) = ok (k, of_bytes (encode (pre ++ rest)))

found_later :
    (at : ℕ) (pre : List Entry) (e : Entry) (o : Option (Bytes × List Entry))
    → found at (pre ++ e ∷ []) o
      ≡ found at pre (elim o [ none ↦ none | some (k, rest) ↦ some (k, e ∷ rest) ])
unfolding found
found_later at pre e none = refl
found_later at pre e (some (k, rest)) = rw (append_assoc pre (e ∷ []) rest)

slice_eq_index :
    (i at : ℕ) → IsU32 i → IsU32 at → slice_eq (to_be_bytes32 i) (to_be_bytes32 at) ≡ (i == at)
slice_eq_index i at hi ha = elim (Bool-cases (slice_eq (to_be_bytes32 i) (to_be_bytes32 at))) [
  | inl t ↦
      let e : i ≡ at = to_be_bytes32_injective i at hi ha (slice_eq→eq _ _ t) in
      t ∙ sym ((==_iff i at).1 e)
  | inr f ↦ elim (Bool-cases (i == at)) [
    | inl t ↦ let e : i ≡ at = (==_iff i at).0 t in rw (e, slice_eq_refl, ==_refl)
    | inr f' ↦ f ∙ sym f'
  ]
]

module _ (at : ℕ) (ha : IsU32 at) where
  pub get_rounds-encode :
      (pre post : List Entry) (offset : ℕ)
      → All IsEntry (pre ++ post)
      → offset ≡ 36 * length pre
      → get_rounds (length post) (of_bytes (encode (pre ++ post))) at offset
        ≡ found at pre (take_entry at post)
  unfolding get_rounds found take_entry
  get_rounds-encode pre [] offset h p = refl
  get_rounds-encode pre ((i, k) ∷ post) offset h p =
      let hf : All IsEntry pre = All-front IsEntry pre ((i, k) ∷ post) h in
      let he : IsEntry (i, k) = (All-back IsEntry pre ((i, k) ∷ post) h).0 in
      let size : length (encode pre) ≡ offset = omega (arith, length-encode pre hf) in
      let shape : encode (pre ++ (i, k) ∷ post)
          ≡ encode pre ++ (to_be_bytes32 i ++ (k ++ encode post)) =
        unfold encode in encode-append pre ((i, k) ∷ post) in
      let shape' : encode (pre ++ (i, k) ∷ post)
          ≡ (encode pre ++ to_be_bytes32 i) ++ (k ++ encode post) =
        shape ∙ sym (append_assoc (encode pre) (to_be_bytes32 i) (k ++ encode post)) in
      let s1 : slice {E = Error} (encode (pre ++ (i, k) ∷ post)) offset (offset + 4)
          ≡ ok (to_be_bytes32 i) =
        rw shape (
          slice-middle (encode pre) (to_be_bytes32 i) (k ++ encode post) offset (offset + 4) size
            (omega (arith, length-to_be_bytes32 i))) in
      let s2 : slice {E = Error} (encode (pre ++ (i, k) ∷ post)) (offset + 4) (offset + 36) ≡ ok k =
        rw shape' (
          slice-middle (encode pre ++ to_be_bytes32 i) k (encode post) (offset + 4) (offset + 36)
            (omega (arith, length-append (encode pre) (to_be_bytes32 i), length-to_be_bytes32 i))
            (omega (arith, he.1))) in
      let again : pre ++ (i, k) ∷ post ≡ (pre ++ (i, k) ∷ []) ++ post =
        sym (append_assoc pre ((i, k) ∷ []) post) in
      let rest : get_rounds (length post) (of_bytes (encode (pre ++ (i, k) ∷ post))) at
            (offset + 36)
          ≡ found at (pre ++ (i, k) ∷ []) (take_entry at post) =
        rw again (
          get_rounds-encode (pre ++ (i, k) ∷ []) post (offset + 36) (rw again at h)
            (omega (arith, length-append pre ((i, k) ∷ [])))) in
      let gone : remove (of_bytes (encode (pre ++ (i, k) ∷ post))) offset
          ≡ of_bytes (encode (pre ++ move_last post)) =
        remove-encode pre (i, k) post offset h p in
      let same : slice_eq (to_be_bytes32 i) (to_be_bytes32 at) ≡ (i == at) =
        slice_eq_index i at he.0 ha in
      rw (s1, same)
        (elim (Bool-cases (i == at)) [
          | inl t ↦ rw (t, s2, gone)
          | inr f ↦ rw (f, rest) (found_later at pre (i, k) (take_entry at post))
        ])

-- `get` on the bytes of a list of entries, when the addition does not overflow.
pub get-encode :
    (es : List Entry) (at current_ctr : ℕ) (params : ChainParamsPb)
    → All IsEntry es
    → at + max_ooo_keys_or_default params < 2 ^ 32
    → get (of_bytes (encode es)) at current_ctr params ≡ (
        if ltb (at + max_ooo_keys_or_default params) current_ctr
        then err (key_trimmed at)
        else found at [] (take_entry at es))
unfolding get
get-encode es at current_ctr params h hb =
    let size : length (encode es) ≡ 36 * length es = length-encode es h in
    let aligned : (length (encode es) % 36 == 0) ≡ true = ground arith in
    let count : length (encode es) / 36 ≡ length es = omega arith in
    let fits : ltb (at + max_ooo_keys_or_default params) (2 ^ 32) ≡ true = lt→ltb _ _ hb in
    rw (aligned, fits, count, get_rounds-encode at (omega arith) [] es 0 h refl)

pub take_entry-perm :
    (at : ℕ) (es : List Entry) (k : Bytes) (rest : List Entry)
    → take_entry at es ≡ some (k, rest)
    → Permᴰ es ((at, k) ∷ rest)
unfolding take_entry
take_entry-perm at [] k rest h = cc
take_entry-perm at ((i, k') ∷ es) k rest h = elim (Bool-cases (i == at)) [
  | inl t ↦
      let e : ◌≡◌ {A = Option (Bytes × List Entry)} (some (k', move_last es)) (some (k, rest)) =
        rw t at h in
      let e' : ◌≡◌ {A = Bytes × List Entry} (k', move_last es) (k, rest) = some-injective _ _ e in
      let head : ◌≡◌ {A = Entry} (i, k') (at, k) = rw ((==_iff i at).0 t, ap (λ p. p.0) e') in
      Permᴰ.cons head (rw (ap (λ p. p.1) e') at (move_last-perm es))
  | inr f ↦ elim (Option-cases (take_entry at es)) [
    | inl n ↦
        let e : ◌≡◌ {A = Option (Bytes × List Entry)} none (some (k, rest)) = rw (f, n) at h in cc
    | inr ((k'', rest'), s) ↦
        let e : ◌≡◌ {A = Option (Bytes × List Entry)} (some (k'', (i, k') ∷ rest'))
            (some (k, rest)) =
          rw (f, s) at h in
        let e' : ◌≡◌ {A = Bytes × List Entry} (k'', (i, k') ∷ rest') (k, rest) =
          some-injective _ _ e in
        let out : Permᴰ ((i, k') ∷ es) ((at, k'') ∷ (i, k') ∷ rest') =
          Permᴰ.trans (Permᴰ.cons refl (take_entry-perm at es k'' rest' s))
            (Permᴰ.swap refl refl) in
        rw (ap (λ p. p.0) e', ap (λ p. p.1) e') at out
  ]
]
