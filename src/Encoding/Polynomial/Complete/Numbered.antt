-- ===== src/Encoding/Polynomial/Complete/Numbered.antt =====
-- The points that `from_complete_points` gets: values numbered from a place on, and those with value 1.
use sparse_post_quantum_ratc.Prelude.{
  ℕ, zero, suc, ◌+◌, ◌%◌, ◌^◌, ◌<◌, ◌≤◌, ◌≡◌, refl, sym, ap, subst, List, [], ◌∷◌, map, All, length,
  true, ◌==◌, inl, inr, ok, IsU16, arith,
}
use sparse_post_quantum_ratc.Encoding.Gf.{Gf16}
use sparse_post_quantum_ratc.Encoding.Polynomial.{Pt, Poly, word_at}
use sparse_post_quantum_ratc.Encoding.Polynomial.Roots.{IsPt}
use sparse_post_quantum_ratc.Encoding.Polynomial.Distinct.{Fresh, AreDistinct}
use sparse_post_quantum_ratc.Encoding.Polynomial.Interpolate.{Has}
use sparse_post_quantum_ratc.Encoding.Polynomial.Complete.{ones_from, check_complete}
use sparse_post_quantum_ratc.Encoding.Polynomial.Complete.Units.{AreUnits}
use sparse_post_quantum_ratc.Encoding.Polynomial.Encoder.{numbered}

pub length-ones_from : (i n : ℕ) → length (ones_from i n) ≡ n
unfolding ones_from
length-ones_from i zero = refl
length-ones_from i (suc n) = ap suc (length-ones_from (i + 1) n)

pub ones_from-IsPt : (i n : ℕ) → All IsPt (ones_from i n)
unfolding ones_from
ones_from-IsPt i zero = tt
ones_from-IsPt i (suc n) = ((omega arith, omega arith), ones_from-IsPt (i + 1) n)

pub ones_from_one : (i n : ℕ) → All (λ (p : Pt). p.y ≡ 1) (ones_from i n)
unfolding ones_from
ones_from_one i zero = tt
ones_from_one i (suc n) = (refl, ones_from_one (i + 1) n)

pub ones_from-Fresh : (j i n : ℕ) → j < i → i + n ≤ 2 ^ 16 → Fresh j (ones_from i n)
unfolding ones_from
ones_from-Fresh j i zero lt le = tt
ones_from-Fresh j i (suc n) lt le =
    ((λ e. omega (arith, e)), ones_from-Fresh j (i + 1) n (omega arith) (omega arith))

pub ones_from-AreDistinct : (i n : ℕ) → i + n ≤ 2 ^ 16 → AreDistinct (ones_from i n)
unfolding ones_from
ones_from-AreDistinct i zero le = tt
ones_from-AreDistinct i (suc n) le =
    let e : i % 2 ^ 16 ≡ i = omega arith in
    (
      subst (λ t. Fresh t (ones_from (i + 1) n)) (sym e)
          (ones_from-Fresh i (i + 1) n (omega arith) (omega arith)),
      ones_from-AreDistinct (i + 1) n (omega arith),
    )

pub numbered-IsPt : (i : ℕ) (ys : List Gf16) → All IsU16 ys → All IsPt (numbered i ys)
unfolding numbered
numbered-IsPt i [] h = tt
numbered-IsPt i (y ∷ ys) h = ((omega arith, h.0), numbered-IsPt (i + 1) ys h.1)

pub numbered-Fresh :
    (j i : ℕ) (ys : List Gf16) → j < i → i + length ys ≤ 2 ^ 16 → Fresh j (numbered i ys)
unfolding numbered
numbered-Fresh j i [] lt le = tt
numbered-Fresh j i (y ∷ ys) lt le =
    ((λ e. omega (arith, e)), numbered-Fresh j (i + 1) ys (omega arith) (omega arith))

pub numbered-AreDistinct :
    (i : ℕ) (ys : List Gf16) → i + length ys ≤ 2 ^ 16 → AreDistinct (numbered i ys)
unfolding numbered
numbered-AreDistinct i [] le = tt
numbered-AreDistinct i (y ∷ ys) le =
    let e : i % 2 ^ 16 ≡ i = omega arith in
    (
      subst (λ t. Fresh t (numbered (i + 1) ys)) (sym e)
          (numbered-Fresh i (i + 1) ys (omega arith) (omega arith)),
      numbered-AreDistinct (i + 1) ys (omega arith),
    )

pub length-numbered : (i : ℕ) (ys : List Gf16) → length (numbered i ys) ≡ length ys
unfolding numbered
length-numbered i [] = refl
length-numbered i (y ∷ ys) = ap suc (length-numbered (i + 1) ys)

pub ones_of_numbered :
    (i : ℕ) (ys : List Gf16)
    → map (λ (pt : Pt). record { x = pt.x; y = 1 }) (numbered i ys) ≡ ones_from i (length ys)
unfolding numbered ones_from
ones_of_numbered i [] = refl
ones_of_numbered i (y ∷ ys) =
    ap (λ t. record { x = i % 2 ^ 16; y = 1 } ∷ t) (ones_of_numbered (i + 1) ys)

pub renumbered-AreUnits :
    (ones : List Pt) (i : ℕ) (ys : List Gf16) (qs : List Poly)
    → AreUnits ones (ones_from i (length ys)) qs
    → AreUnits ones (numbered i ys) qs
unfolding ones_from numbered
renumbered-AreUnits ones i [] [] h = h
renumbered-AreUnits ones i [] (q ∷ qs) h = h
renumbered-AreUnits ones i (y ∷ ys) [] h = h
renumbered-AreUnits ones i (y ∷ ys) (q ∷ qs) h = (h.0, renumbered-AreUnits ones (i + 1) ys qs h.1)

pub check_complete-numbered : (i : ℕ) (ys : List Gf16) → check_complete i (numbered i ys) ≡ ok tt
unfolding check_complete numbered
check_complete-numbered i [] = refl
check_complete-numbered i (y ∷ ys) =
    let e : (i % 2 ^ 16 == i % 2 ^ 16) ≡ true = ground arith in
    rw e (check_complete-numbered (i + 1) ys)

pub numbered-Has :
    (i k : ℕ) (ys : List Gf16)
    → k < length ys
    → Has (record { x = (i + k) % 2 ^ 16; y = word_at ys k }) (numbered i ys)
unfolding numbered
numbered-Has i k [] lt = absurd (omega arith)
numbered-Has i zero (y ∷ ys) lt = let e : i + 0 ≡ i = omega arith in inl (rw e)
numbered-Has i (suc k) (y ∷ ys) lt =
    let e : i + 1 + k ≡ i + suc k = omega arith in
    inr (
      subst (λ t. Has (record { x = t % 2 ^ 16; y = word_at ys k }) (numbered (i + 1) ys)) e
        (numbered-Has (i + 1) k ys (omega arith)))
