-- ===== src/Chain/History/Entries.antt =====
-- The byte vector of a key history as a list of entries, and `remove` as an operation on that list.
use mathlib.Core.List.{append-nil, append_assoc, Permᴰ}
use mathlib.Core.List
use sparse_post_quantum_ratc.Prelude.{
  ℕ, ◌+◌, ◌-◌, ◌*◌, ◌≡◌, refl, ap, ◌∙◌, true, false, List, [], ◌∷◌, ◌++◌, ltb, length,
  length-append, take, drop, take-append, drop-append, All, All-front, All-back, to_be_bytes32,
  length-to_be_bytes32, IsU32, arith, lt→ltb,
}
use sparse_post_quantum_ratc.Types.{Bytes}
use sparse_post_quantum_ratc.Chain.History.{KeyHistory, remove, add}

abbrev pub Entry : Type 0
Entry = ℕ × Bytes

abbrev pub IsEntry : Entry → Type 0
IsEntry (i, k) = IsU32 i × (length k ≡ 32)

unfoldable pub encode : List Entry → Bytes
encode [] = []
encode ((i, k) ∷ es) = to_be_bytes32 i ++ (k ++ encode es)

pub length-encode : (es : List Entry) → All IsEntry es → length (encode es) ≡ 36 * length es
unfolding encode
length-encode [] h = omega arith
length-encode ((i, k) ∷ es) h = omega (
  arith,
  length-to_be_bytes32 i,
  length-append (to_be_bytes32 i) (k ++ encode es),
  length-append k (encode es),
  length-encode es h.1,
  h.0.1,
)

pub encode-append : (es fs : List Entry) → encode (es ++ fs) ≡ encode es ++ encode fs
unfolding encode
encode-append [] fs = refl
encode-append ((i, k) ∷ es) fs = simp (encode-append es fs, append_assoc)

abbrev pub of_bytes : Bytes → KeyHistory
of_bytes t = record { bytes = t }

pub add-encode :
    (es : List Entry) (e : Entry)
    → add (record { bytes = encode es }) e ≡ record { bytes = encode (es ++ e ∷ []) }
unfolding add
add-encode es (i, k) =
    let e : (encode es ++ to_be_bytes32 i) ++ k ≡ encode (es ++ (i, k) ∷ []) =
      unfold encode in simp (encode-append, append_assoc, append-nil) in
    ap of_bytes e

-- The last element moved to the front.
module _ {ℓ} {A : Type ℓ} where
  abbrev pub unsnoc : A → List A → List A × A
  unsnoc x [] = ([], x)
  unsnoc x (y ∷ ys) = let (front, last) = unsnoc y ys in (x ∷ front, last)

  pub unsnoc-append : (x : A) (xs : List A) → x ∷ xs ≡ (unsnoc x xs).0 ++ (unsnoc x xs).1 ∷ []
  unsnoc-append x [] = refl
  unsnoc-append x (y ∷ ys) = ap (λ t. x ∷ t) (unsnoc-append y ys)

  abbrev pub move_last : List A → List A
  move_last [] = []
  move_last (x ∷ xs) = (unsnoc x xs).1 ∷ (unsnoc x xs).0

pub move_last-perm {ℓ} : {A : Type ℓ} (xs : List A) → Permᴰ xs (move_last xs)
move_last-perm [] = Permᴰ.nil
move_last-perm (x ∷ xs) =
    let (front, last) = unsnoc x xs in
    let moved : Permᴰ (front ++ last ∷ []) (last ∷ front) =
      rw (append-nil front) at (List.Permᴰ.middle last front []) in
    rw (unsnoc-append x xs) moved

pub All-perm {ℓ κ} :
    {A : Type ℓ} (P : A → Type κ) {xs ys : List A} → Permᴰ xs ys → All P xs → All P ys
All-perm P Permᴰ.nil h = h
All-perm P (Permᴰ.cons e p) h = (rw e at h.0, All-perm P p h.1)
All-perm P (Permᴰ.swap e f) h = (rw f at h.1.0, (rw e at h.0, h.1.1))
All-perm P (Permᴰ.trans p q) h = All-perm P q (All-perm P p h)

pub length-move_last {ℓ} : {A : Type ℓ} (xs : List A) → length (move_last xs) ≡ length xs
length-move_last [] = refl
length-move_last (x ∷ xs) =
    let (front, last) = unsnoc x xs in
    omega (arith, ap length (unsnoc-append x xs), length-append front (last ∷ []))

-- `copy_within` of the last block over an earlier one, and `truncate`.
moved_block :
    (p e m l : Bytes) (i n : ℕ)
    → length p ≡ i
    → length e ≡ length l
    → n ≡ i + (length l + length m)
    → take n (
        take i (p ++ (e ++ (m ++ l)))
        ++ (drop n (p ++ (e ++ (m ++ l))) ++ drop (i + length l) (p ++ (e ++ (m ++ l)))))
      ≡ p ++ (l ++ m)
moved_block p e m l i n hi he hn =
    let whole : Bytes = p ++ (e ++ (m ++ l)) in
    let first : take i whole ≡ p = take-append i p _ hi in
    let last : drop n whole ≡ l =
      rw (← append_assoc p e (m ++ l), ← append_assoc (p ++ e) m l)
        (drop-append n ((p ++ e) ++ m) l
          (omega (arith, length-append (p ++ e) m, length-append p e))) in
    let middle : drop (i + length l) whole ≡ m ++ l =
      rw (← append_assoc p e (m ++ l))
        (drop-append (i + length l) (p ++ e) (m ++ l) (omega (arith, length-append p e))) in
    let regrouped : p ++ (l ++ (m ++ l)) ≡ (p ++ (l ++ m)) ++ l = simp append_assoc in
    rw (first, last, middle, regrouped)
      (take-append n (p ++ (l ++ m)) l (omega (arith, length-append p (l ++ m), length-append l m)))

remove_split :
    (front : List Entry) (e : Entry) (mid : List Entry) (l : Entry) (offset : ℕ)
    → All IsEntry (front ++ e ∷ (mid ++ l ∷ []))
    → offset ≡ 36 * length front
    → remove (of_bytes (encode (front ++ e ∷ (mid ++ l ∷ [])))) offset
      ≡ of_bytes (encode (front ++ l ∷ mid))
unfolding remove
remove_split front e mid l offset h p =
    let p' : Bytes = encode front in
    let e' : Bytes = encode (e ∷ []) in
    let m' : Bytes = encode mid in
    let l' : Bytes = encode (l ∷ []) in
    let hb : All IsEntry (e ∷ (mid ++ l ∷ [])) = All-back IsEntry front _ h in
    let hm : All IsEntry mid = All-front IsEntry mid (l ∷ []) hb.1 in
    let hl : All IsEntry (l ∷ []) = All-back IsEntry mid (l ∷ []) hb.1 in
    let n : ℕ = offset + (length l' + length m') in
    let sp : length p' ≡ offset =
      omega (arith, length-encode front (All-front IsEntry front _ h)) in
    let se : length e' ≡ 36 = length-encode (e ∷ []) (hb.0, tt) in
    let sl : length l' ≡ 36 = length-encode (l ∷ []) hl in
    let split : encode (front ++ e ∷ (mid ++ l ∷ [])) ≡ p' ++ (e' ++ (m' ++ l')) =
      encode-append front (e ∷ (mid ++ l ∷ []))
      ∙ ap (λ t. p' ++ t)
          (encode-append (e ∷ []) (mid ++ l ∷ [])
            ∙ ap (λ t. e' ++ t) (encode-append mid (l ∷ []))) in
    let size : length (p' ++ (e' ++ (m' ++ l'))) ≡ offset + 36 + length m' + 36 = omega (
      arith,
      length-append p' (e' ++ (m' ++ l')),
      length-append e' (m' ++ l'),
      length-append m' l',
    ) in
    let inside : ltb (offset + 36) (length (p' ++ (e' ++ (m' ++ l')))) ≡ true =
      lt→ltb (offset + 36) _ (omega (arith, size)) in
    let end : length (p' ++ (e' ++ (m' ++ l'))) - 36 ≡ n = omega arith in
    let over : offset + (length (p' ++ (e' ++ (m' ++ l'))) - n) ≡ offset + length l' =
      omega arith in
    let joined : encode (front ++ l ∷ mid) ≡ p' ++ (l' ++ m') =
      encode-append front (l ∷ mid) ∙ ap (λ t. p' ++ t) (encode-append (l ∷ []) mid) in
    rw (split, joined, inside, end, over)
      (ap of_bytes (moved_block p' e' m' l' offset n sp (omega arith) refl))

-- `remove` at the offset of an entry drops it, and moves the last entry into its place.
pub remove-encode :
    (front : List Entry) (e : Entry) (back : List Entry) (offset : ℕ)
    → All IsEntry (front ++ e ∷ back)
    → offset ≡ 36 * length front
    → remove (record { bytes = encode (front ++ e ∷ back) }) offset
      ≡ record { bytes = encode (front ++ move_last back) }
unfolding remove
remove-encode front e [] offset h p =
    let size : length (encode (front ++ e ∷ [])) ≡ offset + 36 =
      omega (arith, length-encode (front ++ e ∷ []) h, length-append front (e ∷ [])) in
    let at_end : ltb (offset + 36) (length (encode (front ++ e ∷ []))) ≡ false = ground arith in
    let before : length (encode front) ≡ offset =
      omega (arith, length-encode front (All-front IsEntry front (e ∷ []) h)) in
    rw (at_end, append-nil, encode-append)
      (ap of_bytes (take-append offset (encode front) _ before))
remove-encode front e (f ∷ back) offset h p =
    let (mid, l) = unsnoc f back in
    let shape : f ∷ back ≡ mid ++ l ∷ [] = unsnoc-append f back in
    rw shape (remove_split front e mid l offset (rw shape at h) p)
