-- ===== src/Chain/History/Trim.antt =====
-- `gc` as a filter of the list of entries.
use mathlib.Core.List.{append-nil, append_assoc, Permᴰ}
use mathlib.Core.List
use sparse_post_quantum_ratc.Prelude.{
  ℕ, zero, suc, ◌+◌, ◌*◌, ◌≤◌, ◌≡◌, refl, sym, ap, true, false, List, [], ◌∷◌, ◌++◌, ltb,
  if◌then◌else◌, length, length-append, slice, slice-middle, All, All-append, All-front, All-back,
  to_be_bytes32, length-to_be_bytes32, ok, ◌>>=◌, IsU32, arith, lt→ltb, Bool-cases, inl, inr,
}
use sparse_post_quantum_ratc.Types.{Error}
use sparse_post_quantum_ratc.Chain.History.{remove, gc_rounds, slice_gt}
use sparse_post_quantum_ratc.Chain.History.Order.{slice_gt-to_be_bytes32}
use sparse_post_quantum_ratc.Chain.History.Entries.{
  Entry, IsEntry, encode, encode-append, length-encode, of_bytes, move_last, remove-encode,
  move_last-perm, All-perm, length-move_last,
}

-- The entries that the loop leaves, in the order in which it leaves them.
unfoldable pub trim : ℕ → ℕ → List Entry → List Entry
trim zero horizon es = es
trim (suc rounds) horizon [] = []
trim (suc rounds) horizon ((i, k) ∷ es) =
    if ltb i horizon then trim rounds horizon (move_last es) else (i, k) ∷ trim rounds horizon es

unfoldable pub keep_from : ℕ → List Entry → List Entry
keep_from horizon [] = []
keep_from horizon (e ∷ es) =
    if ltb e.0 horizon then keep_from horizon es else e ∷ keep_from horizon es

module _ (horizon : ℕ) (hh : IsU32 horizon) where
  pub gc_rounds-encode :
      (rounds : ℕ) (pre post : List Entry) (offset : ℕ)
      → All IsEntry (pre ++ post)
      → offset ≡ 36 * length pre
      → length post ≤ rounds
      → gc_rounds rounds (to_be_bytes32 horizon) (of_bytes (encode (pre ++ post))) offset
        ≡ ok (of_bytes (encode (pre ++ trim rounds horizon post)))
  unfolding gc_rounds trim
  gc_rounds-encode zero pre [] offset h p le =
      let size : length (encode (pre ++ [])) ≡ offset =
        omega (arith, length-encode (pre ++ []) h, ap length (append-nil pre)) in
      let out : ltb offset (length (encode (pre ++ []))) ≡ false = ground arith in
      rw (out, gc_rounds)
  gc_rounds-encode zero pre (e ∷ post) offset h p le = absurd (omega arith)
  gc_rounds-encode (suc rounds) pre [] offset h p le =
      let size : length (encode (pre ++ [])) ≡ offset =
        omega (arith, length-encode (pre ++ []) h, ap length (append-nil pre)) in
      let out : ltb offset (length (encode (pre ++ []))) ≡ false = ground arith in
      rw (out, gc_rounds)
  gc_rounds-encode (suc rounds) pre ((i, k) ∷ post) offset h p le =
      let hf : All IsEntry pre = All-front IsEntry pre ((i, k) ∷ post) h in
      let he : IsEntry (i, k) = (All-back IsEntry pre ((i, k) ∷ post) h).0 in
      let hb : All IsEntry post = (All-back IsEntry pre ((i, k) ∷ post) h).1 in
      let size : length (encode pre) ≡ offset = omega (arith, length-encode pre hf) in
      let whole : length (encode (pre ++ (i, k) ∷ post)) ≡ offset + 36 + 36 * length post =
        omega (arith, length-encode (pre ++ (i, k) ∷ post) h, length-append pre ((i, k) ∷ post)) in
      let inside : ltb offset (length (encode (pre ++ (i, k) ∷ post))) ≡ true =
        lt→ltb _ _ (omega (arith, whole)) in
      let shape : encode (pre ++ (i, k) ∷ post)
          ≡ encode pre ++ (to_be_bytes32 i ++ (k ++ encode post)) =
        unfold encode in encode-append pre ((i, k) ∷ post) in
      let s1 : slice {E = Error} (encode (pre ++ (i, k) ∷ post)) offset (offset + 4)
          ≡ ok (to_be_bytes32 i) =
        rw shape (
          slice-middle (encode pre) (to_be_bytes32 i) (k ++ encode post) offset (offset + 4) size
            (omega (arith, length-to_be_bytes32 i))) in
      let again : pre ++ (i, k) ∷ post ≡ (pre ++ (i, k) ∷ []) ++ post =
        sym (append_assoc pre ((i, k) ∷ []) post) in
      let cmp : slice_gt (to_be_bytes32 horizon) (to_be_bytes32 i) ≡ ltb i horizon =
        slice_gt-to_be_bytes32 horizon i hh he.0 in
      let gone : remove (of_bytes (encode (pre ++ (i, k) ∷ post))) offset
          ≡ of_bytes (encode (pre ++ move_last post)) =
        remove-encode pre (i, k) post offset h p in
      let hm : All IsEntry (pre ++ move_last post) =
        All-append IsEntry pre (move_last post) hf (All-perm IsEntry (move_last-perm post) hb) in
      let removed =
        gc_rounds-encode rounds pre (move_last post) offset hm p
          (omega (arith, length-move_last post)) in
      let kept : gc_rounds rounds (to_be_bytes32 horizon) (of_bytes (encode (pre ++ (i, k) ∷ post)))
            (offset + 36)
          ≡ ok (of_bytes (encode (pre ++ (i, k) ∷ trim rounds horizon post))) =
        rw (again, ← append_assoc pre ((i, k) ∷ []) (trim rounds horizon post))
          (gc_rounds-encode rounds (pre ++ (i, k) ∷ []) post (offset + 36) (rw again at h)
            (omega (arith, length-append pre ((i, k) ∷ []))) (omega arith)) in
      rw (gc_rounds, inside, s1, ◌>>=◌, cmp)
        (elim (Bool-cases (ltb i horizon)) [ inl t ↦ rw (t, gone) removed | inr f ↦ rw (f, kept) ])

pub keep_from-perm :
    (horizon : ℕ) {es fs : List Entry}
    → Permᴰ es fs
    → Permᴰ (keep_from horizon es) (keep_from horizon fs)
unfolding keep_from
keep_from-perm h Permᴰ.nil = Permᴰ.nil
keep_from-perm h (Permᴰ.cons {a = a} e p) = rw (← e) (elim (Bool-cases (ltb a.0 h)) [
  | inl t ↦ rw t (keep_from-perm h p)
  | inr f ↦ rw f (Permᴰ.cons refl (keep_from-perm h p))
])
keep_from-perm h (Permᴰ.swap {a = a} {b = b} {l = l} e f) =
    rw (← e, ← f)
      (elim (Bool-cases (ltb a.0 h)) [
        | inl t ↦ rw t (List.Permᴰ.refl _)
        | inr t ↦ elim (Bool-cases (ltb b.0 h)) [
          | inl u ↦ rw (t, u) (List.Permᴰ.refl _)
          | inr u ↦ rw (t, u) (Permᴰ.swap refl refl)
        ]
      ])
keep_from-perm h (Permᴰ.trans p q) = Permᴰ.trans (keep_from-perm h p) (keep_from-perm h q)

pub trim-perm :
    (rounds horizon : ℕ) (es : List Entry)
    → length es ≤ rounds
    → Permᴰ (trim rounds horizon es) (keep_from horizon es)
unfolding trim keep_from
trim-perm zero h [] le = Permᴰ.nil
trim-perm zero h (e ∷ es) le = absurd (omega arith)
trim-perm (suc n) h [] le = Permᴰ.nil
trim-perm (suc n) h ((i, k) ∷ es) le = elim (Bool-cases (ltb i h)) [
  | inl t ↦ rw t (
      Permᴰ.trans (trim-perm n h (move_last es) (omega (arith, length-move_last es)))
        (keep_from-perm h (List.Permᴰ.symm (move_last-perm es))))
  | inr f ↦ rw f (Permᴰ.cons refl (trim-perm n h es (omega arith)))
]
