-- ===== src/Encoding/Polynomial/Code.antt =====
-- The code words of an encoder, of src/encoding/polynomial.rs: word `16 * x + q` is the value of
-- polynomial `q` at `x`, and the first words are those of the message.
pub mod Chunks
use sparse_post_quantum_ratc.Prelude.{
  ℕ, Bool, false, zero, suc, ◌+◌, ◌*◌, ◌/◌, ◌%◌, ◌^◌, ◌<◌, ◌≤◌, ◌≡◌, refl, sym, ap, subst, ◌∙◌,
  List, [], ◌∷◌, ◌++◌, All, length, length-set, set, get_elem?, Option, none, some, inl, inr, ok,
  IsU16, ◌⊎◌, arith,
}
use native.Mathlib.Decide.{dec_lt}
use mathlib.Core.List.{append_assoc, append-nil}
use sparse_post_quantum_ratc.Types.{Bytes, EncodingError}
use sparse_post_quantum_ratc.Encoding.Gf.Field.{el}
use sparse_post_quantum_ratc.Encoding.Polynomial.{
  Poly, word_at, compute_at, to_be_bytes16, from_be_bytes16,
}
use sparse_post_quantum_ratc.Encoding.Polynomial.Value.{value, compute_at-value, compute_at-IsU16}
use sparse_post_quantum_ratc.Encoding.Polynomial.Complete.Places.{
  is_refused, from_complete_points_lem, el_cancel,
}
use sparse_post_quantum_ratc.Encoding.Polynomial.Encoder.{
  Point, EncoderState, points, polys, polys_of_points, poly_value, point_at, deal, chunk_rounds,
  chunk_at,
}
use sparse_post_quantum_ratc.Encoding.Polynomial.Columns.{Columns, IsColumn, bytes_from}

abbrev pub code_at : Option Poly → ℕ → ℕ
code_at none x = 0
code_at (some p) x = compute_at p (x % 2 ^ 16)

abbrev pub code : List Poly → ℕ → ℕ
code ps n = code_at (get_elem? ps (n % 16)) (n / 16)

code_at-IsU16 : (o : Option Poly) (x : ℕ) → IsU16 (code_at o x)
code_at-IsU16 none x = omega arith
code_at-IsU16 (some p) x = compute_at-IsU16 p (x % 2 ^ 16)

pub code-IsU16 : (ps : List Poly) (n : ℕ) → IsU16 (code ps n)
code-IsU16 ps n = code_at-IsU16 (get_elem? ps (n % 16)) (n / 16)

pub get_elem?-below : (v : List ℕ) (j : ℕ) → j < length v → get_elem? v j ≡ some (word_at v j)
get_elem?-below [] j lt = absurd (omega arith)
get_elem?-below (y ∷ v) zero lt = refl
get_elem?-below (y ∷ v) (suc j) lt = get_elem?-below v j (omega arith)

pub get_elem?-beyond : (v : List ℕ) (j : ℕ) → length v ≤ j → get_elem? v j ≡ none
get_elem?-beyond [] j le = refl
get_elem?-beyond (y ∷ v) zero le = absurd (omega arith)
get_elem?-beyond (y ∷ v) (suc j) le = get_elem?-beyond v j (omega arith)

within {ℓ} : {A : Type ℓ} (xs : List A) (i : ℕ) (a : A) → get_elem? xs i ≡ some a → i < length xs
within [] i a h = cc
within (x ∷ xs) zero a h = omega arith
within (x ∷ xs) (suc i) a h = omega (arith, within xs i a h)

each-IsU16 : (v : List ℕ) → ((j : ℕ) → j < length v → IsU16 (word_at v j)) → All IsU16 v
each-IsU16 [] h = tt
each-IsU16 (y ∷ v) h = (h 0 (omega arith), each-IsU16 v (λ j lt. h (suc j) (omega arith)))

-- The polynomial of a list of values.
pub record Fits (v : List ℕ) (p : Poly) : Type 0 where
  pub short : length p.coefficients ≤ length v
  pub small : All IsU16 p.coefficients
  pub values : (i : ℕ) → i < length v → value p.coefficients (el i) ≡ el (word_at v i)

abbrev AreFitted : List Point → List Poly → Type 0
AreFitted pts ps =
    (q : ℕ) (pt : Point)
    → get_elem? pts q ≡ some pt
    → (p : Poly) × (get_elem? ps q ≡ some p) × Fits pt.value p

AreFitted-cons :
    (pt : Point) (pts : List Point) (p : Poly) (ps : List Poly)
    → Fits pt.value p
    → AreFitted pts ps
    → AreFitted (pt ∷ pts) (p ∷ ps)
AreFitted-cons pt pts p ps one rest zero r found =
    let e : pt ≡ r = cc in (p, refl, subst (λ (t : Point). Fits t.value p) e one)
AreFitted-cons pt pts p ps one rest (suc q) r found = rest q r found

abbrev AreRoomy : Bool → List Point → Type 0
AreRoomy debug pts =
    (q : ℕ) (pt : Point)
    → get_elem? pts q ≡ some pt
    → (length pt.value ≤ 2 ^ 16) × All IsU16 pt.value × (is_refused debug (length pt.value) ≡ false)

polys_of_points-AreFitted :
    (debug : Bool) (pts : List Point)
    → AreRoomy debug pts
    → (ps : List Poly) × (polys_of_points {E = EncodingError} debug pts ≡ ok ps) × AreFitted pts ps
unfolding polys_of_points
polys_of_points-AreFitted debug [] room = ([], refl, λ q pt found. cc)
polys_of_points-AreFitted debug (pt ∷ pts) room =
    let (le, small, accepted) = room 0 pt refl in
    let (p, ran, short, bounds, values) =
      from_complete_points_lem debug pt.value le small accepted in
    let (ps, rest, fitted) =
      polys_of_points-AreFitted debug pts (λ q r found. room (suc q) r found) in
    (
      p ∷ ps,
      rw (ran, rest),
      AreFitted-cons pt pts p ps (record { short = short; small = bounds; values = values }) fitted,
    )

Option-cases {ℓ} : {A : Type ℓ} (o : Option A) → (o ≡ none) ⊎ ((a : A) × (o ≡ some a))
Option-cases none = inl refl
Option-cases (some a) = inr (a, refl)

pub length-deal : (i : ℕ) (msg : Bytes) (pts : List Point) → length (deal i msg pts) ≡ length pts
unfolding deal
length-deal i [] pts = refl
length-deal i (a ∷ []) pts = refl
length-deal i (a ∷ b ∷ msg) pts = elim (Option-cases (get_elem? pts (i % 16))) [
  | inl e ↦ rw (deal, e) refl
  | inr (pt, e) ↦
      let pt' : Point = record { value = pt.value ++ from_be_bytes16 a b ∷ [] } in
      rw (deal, e) (length-deal (i + 1) msg (set pts (i % 16) pt') ∙ length-set pts (i % 16) pt')
]

-- The lists of an encoder and the polynomials that it makes of them.
pub record IsEncoded (debug : Bool) (w : ℕ → ℕ) (k : ℕ) (pts : List Point) (ps : List Poly)
    : Type 0 where
  pub made : polys_of_points {E = EncodingError} debug pts ≡ ok ps
  pub lists :
      (q : ℕ)
      → q < 16
      → (v : List ℕ) × (p : Poly) × (get_elem? pts q ≡ some (record { value = v }))
        × (get_elem? ps q ≡ some p)
        × IsColumn w (16 * k) q v
        × Fits v p

pub column_word :
    (w : ℕ → ℕ) (k q j : ℕ) (v : List ℕ)
    → q < 16
    → j < length v
    → IsColumn w (16 * k) q v
    → word_at v j ≡ w (16 * j + q)
column_word w k q j v lq lt h =
    let e = get_elem?-below v j lt in let f = h.words j (omega (arith, h.size, lt)) in cc

column-IsU16 :
    (w : ℕ → ℕ) (k q : ℕ) (v : List ℕ)
    → q < 16
    → ((i : ℕ) → IsU16 (w i))
    → IsColumn w (16 * k) q v
    → All IsU16 v
column-IsU16 w k q v lq range h =
    each-IsU16 v (λ j lt. subst IsU16 (sym (column_word w k q j v lq lt h)) (range (16 * j + q)))

pub Columns-IsEncoded :
    (debug : Bool) (w : ℕ → ℕ) (k : ℕ) (pts : List Point)
    → ((i : ℕ) → IsU16 (w i))
    → k ≤ 2 ^ 16
    → is_refused debug k ≡ false
    → length pts ≡ 16
    → Columns w (16 * k) pts
    → (ps : List Poly) × IsEncoded debug w k pts ps
Columns-IsEncoded debug w k pts range le accepted count columns =
    let (ps, ran, fitted) = polys_of_points-AreFitted debug pts room in
    (
      ps,
      record {
        made = ran;
        lists = λ q lt.
            let (v, found, column) = columns q lt in
            let (p, stored, fits) = fitted q (record { value = v }) found in
            (v, p, found, stored, column, fits);
      },
    )
  where
    room : AreRoomy debug pts
    room q pt found =
        let (v, at, column) = columns q (omega (arith, within pts q pt found, count)) in
        let e : pt ≡ record { value = v } = cc in
        let lt : q < 16 = omega (arith, within pts q pt found, count) in
        let size : k ≡ length v = omega (arith, column.size) in
        subst
          (λ (t : Point).
            (length t.value ≤ 2 ^ 16)
            × All IsU16 t.value
            × (is_refused debug (length t.value) ≡ false))
          (sym e)
          (
            omega (arith, column.size),
            column-IsU16 w k q v lt range column,
            subst (λ n. is_refused debug n ≡ false) size accepted,
          )
