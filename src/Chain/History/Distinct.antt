-- ===== src/Chain/History/Distinct.antt =====
-- Entries with different indices: a history holds one key for an index, and so no more keys than
-- there are indices.
use mathlib.Core.List.{append-nil, Permᴰ}
use mathlib.Core.List
use mathlib.Core.Path.{subst}
use sparse_post_quantum_ratc.Prelude.{
  ℕ, zero, suc, ◌≤◌, ◌≡◌, ◌≢◌, refl, sym, ap, ◌∙◌, Option, none, some, List, [], ◌∷◌, ◌++◌, ◌==◌,
  length, All, arith, Bool-cases, Option-cases, inl, inr, ==_iff,
}
use sparse_post_quantum_ratc.Types.{Bytes}
use sparse_post_quantum_ratc.Chain.History.Entries.{Entry, All-perm}
use sparse_post_quantum_ratc.Chain.History.Lookup.{take_entry, take_entry-perm}

abbrev Differs : Entry → Entry → Type 0
Differs e f = f.0 ≢ e.0

abbrev pub Distinct : List Entry → Type 0
Distinct [] = Unit
Distinct (e ∷ es) = All (Differs e) es × Distinct es

pub Distinct-perm : {es fs : List Entry} → Permᴰ es fs → Distinct es → Distinct fs
Distinct-perm Permᴰ.nil h = h
Distinct-perm (Permᴰ.cons {a = a} e p) h =
    rw (← e) (All-perm (Differs a) p h.0, Distinct-perm p h.1)
Distinct-perm (Permᴰ.swap {a = a} {b = b} {b' = b'} {l = l} e f) h =
    let swapped : Distinct (b ∷ a ∷ l) = (((λ q. h.0.0 (sym q)), h.1.0), (h.0.1, h.1.1)) in
    subst (λ t. Distinct (t ∷ b' ∷ l)) f (subst (λ t. Distinct (b ∷ t ∷ l)) e swapped)
Distinct-perm (Permᴰ.trans p q) h = Distinct-perm q (Distinct-perm p h)

pub Distinct-snoc :
    (es : List Entry) (e : Entry) → All (Differs e) es → Distinct es → Distinct (es ++ e ∷ [])
Distinct-snoc es e h d =
    let moved : Permᴰ (es ++ e ∷ []) (e ∷ es) = rw (append-nil es) at (List.Permᴰ.middle e es []) in
    Distinct-perm (List.Permᴰ.symm moved) (h, d)

pub take_entry-absent :
    (at : ℕ) (k : Bytes) (es : List Entry) → All (Differs (at, k)) es → take_entry at es ≡ none
unfolding take_entry
take_entry-absent at k [] h = refl
take_entry-absent at k ((i, k') ∷ es) h = elim (Bool-cases (i == at)) [
  | inl t ↦ absurd (h.0 ((==_iff i at).0 t))
  | inr f ↦ rw (f, take_entry-absent at k es h.1)
]

absent-below :
    (n : ℕ) (es : List Entry)
    → All (λ e. (1 ≤ e.0) × (e.0 ≤ suc n)) es
    → take_entry (suc n) es ≡ none
    → All (λ e. (1 ≤ e.0) × (e.0 ≤ n)) es
unfolding take_entry
absent-below n [] h a = tt
absent-below n ((i, k) ∷ es) h a = elim (Bool-cases (i == suc n)) [
  | inl t ↦ let x : ◌≡◌ {A = Option (Bytes × List Entry)} (some (k, _)) none = rw t at a in cc
  | inr f ↦ elim (Option-cases (take_entry (suc n) es)) [
    | inl m ↦ ((h.0.0, ground arith), absent-below n es h.1 m)
    | inr ((k'', rest'), s) ↦
        let x : ◌≡◌ {A = Option (Bytes × List Entry)} (some (k'', _)) none = rw (f, s) at a in cc
  ]
]

length-perm : {es fs : List Entry} → Permᴰ es fs → length es ≡ length fs
length-perm Permᴰ.nil = refl
length-perm (Permᴰ.cons e p) = ap suc (length-perm p)
length-perm (Permᴰ.swap e f) = refl
length-perm (Permᴰ.trans p q) = length-perm p ∙ length-perm q

-- Different indices from 1 to `n` are at most `n`.
pub length-Distinct :
    (n : ℕ) (es : List Entry) → All (λ e. (1 ≤ e.0) × (e.0 ≤ n)) es → Distinct es → length es ≤ n
length-Distinct zero [] h d = omega arith
length-Distinct zero (e ∷ es) h d = absurd (omega arith)
length-Distinct (suc n) es h d = elim (Option-cases (take_entry (suc n) es)) [
  | inl m ↦ omega (arith, length-Distinct n es (absent-below n es h m) d)
  | inr ((k, rest), s) ↦
      let p : Permᴰ es ((suc n, k) ∷ rest) = take_entry-perm (suc n) es k rest s in
      let d' : Distinct ((suc n, k) ∷ rest) = Distinct-perm p d in
      let h' = All-perm (λ e. (1 ≤ e.0) × (e.0 ≤ suc n)) p h in
      let low = absent-below n rest h'.1 (take_entry-absent (suc n) k rest d'.0) in
      omega (arith, length-perm p, length-Distinct n rest low d'.1)
]
