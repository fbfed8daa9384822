-- ===== src/Encoding/Polynomial/Complete/Places.antt =====
-- `from_complete_points` on the values at the places from 0 on gives a polynomial with those values.
use sparse_post_quantum_ratc.Prelude.{
  ℕ, zero, suc, ◌+◌, ◌%◌, ◌^◌, ◌<◌, ◌≤◌, ◌≡◌, refl, sym, ap, subst, ◌∙◌, List, [], ◌∷◌, map, All,
  length, Bool, true, false, Bool-cases, ◌==◌, ◌&&◌, not, inl, inr, ok, panic, IsU16, arith,
}
use native.Mathlib.Decide.{ℕ_discrete}
use sparse_post_quantum_ratc.Encoding.Gf.{Gf16}
use sparse_post_quantum_ratc.Encoding.Gf.Field.{Element, el, el_num, nought, ◌⊕◌, nought-plus}
use sparse_post_quantum_ratc.Encoding.Polynomial.{
  Pt, Poly, word_at, lagrange_sum, lagrange_interpolate_pt, compute_at,
}
use sparse_post_quantum_ratc.Encoding.Polynomial.Value.{value, compute_at-value, compute_at-IsU16}
use sparse_post_quantum_ratc.Encoding.Polynomial.Distinct.{Occurs}
use sparse_post_quantum_ratc.Encoding.Polynomial.Interpolate.{Has, each_inside}
use sparse_post_quantum_ratc.Encoding.Polynomial.Complete.{
  ones_from, lagrange_polys_for_complete_points, is_precomputed, complete_polys,
  from_complete_points,
}
use sparse_post_quantum_ratc.Encoding.Polynomial.Complete.Units.{
  AreUnits, const_polys-AreUnits, lagrange-AreUnits,
}
use sparse_post_quantum_ratc.Encoding.Polynomial.Complete.Sum.{sum_at_point, lagrange_sum_bounds}
use sparse_post_quantum_ratc.Encoding.Polynomial.Encoder.{numbered}
use sparse_post_quantum_ratc.Encoding.Polynomial.Complete.Numbered.{
  length-ones_from, ones_from-IsPt, ones_from_one, ones_from-AreDistinct, numbered-IsPt,
  numbered-AreDistinct, length-numbered, ones_of_numbered, renumbered-AreUnits,
  check_complete-numbered, numbered-Has,
}

ones-Occurs : (i n j : ℕ) → i ≤ j → j < i + n → i + n ≤ 2 ^ 16 → Occurs j (ones_from i n)
unfolding ones_from
ones-Occurs i zero j le lt top = absurd (omega arith)
ones-Occurs i (suc n) j le lt top = elim (ℕ_discrete j (i % 2 ^ 16)) [
  | yes e ↦ inl e
  | no ne ↦ inr (ones-Occurs (i + 1) n j (omega (arith, ne)) (omega arith) (omega arith))
]

ones_inside : (n : ℕ) → All (λ (p : Pt). Occurs p.x (ones_from 0 n)) (ones_from 0 n)
ones_inside n = each_inside (ones_from 0 n)

precomputed-AreUnits :
    (n : ℕ)
    → 0 < n
    → (qs : List Poly) × (lagrange_polys_for_complete_points {E = Unit {0}} n ≡ ok qs)
      × AreUnits (ones_from 0 n) (ones_from 0 n) qs
unfolding lagrange_polys_for_complete_points
precomputed-AreUnits zero lt = absurd (omega arith)
precomputed-AreUnits (suc m) lt =
    const_polys-AreUnits m (ones_from 0 (suc m)) (ones_from 0 (suc m)) (length-ones_from 0 (suc m))
      (ones_from-IsPt 0 (suc m)) (ones_from-IsPt 0 (suc m)) (ones_from_one 0 (suc m))
      (ones_inside (suc m))

interpolated-AreUnits :
    (n : ℕ)
    → n ≤ 2 ^ 16
    → AreUnits
        (ones_from 0 n)
        (ones_from 0 n)
        (map (lagrange_interpolate_pt (ones_from 0 n)) (ones_from 0 n))
interpolated-AreUnits n le =
    lagrange-AreUnits (ones_from 0 n) (ones_from 0 n) (ones_from-IsPt 0 n)
      (ones_from-AreDistinct 0 n (omega arith)) (ones_from-IsPt 0 n) (ones_from_one 0 n)
      (ones_inside n)

-- A build with debug assertions refuses to interpolate.
abbrev pub is_refused : Bool → ℕ → Bool
is_refused debug n = debug && (not (n == 0) && not (is_precomputed n))

unchecked :
    (debug a b : Bool) → a ≡ false → b ≡ false → (debug && (not a && not b)) ≡ false → debug ≡ false
unchecked debug a b ha hb h = ground (arith, ha, hb, h)

refused :
    (debug a b : Bool)
    → (debug && (not a && not b)) ≡ true
    → (debug ≡ true) × (a ≡ false) × (b ≡ false)
refused true false false h = (refl, refl, refl)
refused true false true h = cc
refused true true b h = cc
refused false a b h = cc

complete_polys_precomputed :
    (debug : Bool) (pts : List Pt) (n : ℕ)
    → length pts ≡ n
    → (n == 0) ≡ false
    → is_precomputed n ≡ true
    → complete_polys {E = Unit {0}} debug pts ≡ lagrange_polys_for_complete_points {E = Unit {0}} n
unfolding complete_polys
complete_polys_precomputed debug pts n size inhabited fit = rw (size, inhabited, fit) refl

complete_polys_interpolated :
    (debug : Bool) (pts ones : List Pt) (n : ℕ)
    → length pts ≡ n
    → (n == 0) ≡ false
    → is_precomputed n ≡ false
    → debug ≡ false
    → map (λ (pt : Pt). record { x = pt.x; y = 1 }) pts ≡ ones
    → complete_polys {E = Unit {0}} debug pts ≡ ok (map (lagrange_interpolate_pt ones) ones)
unfolding complete_polys
complete_polys_interpolated debug pts ones n size inhabited unfit off same =
    rw (size, inhabited, unfit, off, same) refl

complete_polys_refused :
    (debug : Bool) (pts : List Pt) (n : ℕ)
    → length pts ≡ n
    → is_refused debug n ≡ true
    → complete_polys {E = Unit {0}} debug pts ≡ panic
unfolding complete_polys
complete_polys_refused debug pts n size h =
    let (on, inhabited, unfit) = refused debug (n == 0) (is_precomputed n) h in
    rw (size, inhabited, unfit, on) refl

complete_polys_none : (debug : Bool) → complete_polys {E = Unit {0}} debug (numbered 0 []) ≡ ok []
unfolding complete_polys numbered
complete_polys_none debug = refl

complete_polys-AreUnits :
    (debug : Bool) (n : ℕ) (ys : List Gf16)
    → length ys ≡ n
    → n ≤ 2 ^ 16
    → is_refused debug n ≡ false
    → (qs : List Poly) × (complete_polys {E = Unit {0}} debug (numbered 0 ys) ≡ ok qs)
      × AreUnits (ones_from 0 n) (ones_from 0 n) qs
unfolding ones_from
complete_polys-AreUnits debug zero [] size le accepted = ([], complete_polys_none debug, tt)
complete_polys-AreUnits debug zero (y ∷ ys) size le accepted = absurd (omega (arith, size))
complete_polys-AreUnits debug (suc m) ys size le accepted =
    let n = suc m in
    let same = length-numbered 0 ys ∙ size in
    let inhabited : (n == 0) ≡ false = ground arith in
    elim (Bool-cases (is_precomputed n)) [
      | inl fit ↦
          let (qs, ran, units) = precomputed-AreUnits n (omega arith) in
          (qs, complete_polys_precomputed debug (numbered 0 ys) n same inhabited fit ∙ ran, units)
      | inr unfit ↦ (
        map (lagrange_interpolate_pt (ones_from 0 n)) (ones_from 0 n),
        complete_polys_interpolated debug (numbered 0 ys) (ones_from 0 n) n same inhabited unfit
            (unchecked debug (n == 0) (is_precomputed n) inhabited unfit accepted)
            (ones_of_numbered 0 ys ∙ ap (ones_from 0) size),
        interpolated-AreUnits n le,
      )
    ]

value_none : (y : Element) → value [] y ≡ nought
unfolding value
value_none y = refl

-- The polynomial of complete points is short and has their values.
pub from_complete_points_lem :
    (debug : Bool) (ys : List Gf16)
    → length ys ≤ 2 ^ 16
    → All IsU16 ys
    → is_refused debug (length ys) ≡ false
    → (q : Poly) × (from_complete_points debug (numbered 0 ys) ≡ ok q)
      × (length q.coefficients ≤ length ys)
      × All IsU16 q.coefficients
      × ((i : ℕ) → i < length ys → value q.coefficients (el i) ≡ el (word_at ys i))
unfolding from_complete_points
from_complete_points_lem debug ys le small accepted =
    let n = length ys in
    let ones = ones_from 0 n in
    let ps = numbered 0 ys in
    let (qs, ran, units) = complete_polys-AreUnits debug n ys refl le accepted in
    let units' = renumbered-AreUnits ones 0 ys qs units in
    let hp = numbered-IsPt 0 ys small in
    let bounds =
      lagrange_sum_bounds ones n ps qs [] (omega (arith, length-ones_from 0 n)) hp units'
        (omega arith) tt in
    (
      lagrange_sum ps qs [],
      rw (check_complete-numbered 0 ys, ran),
      bounds.0,
      bounds.1,
      λ i lt.
          let place : (0 + i) % 2 ^ 16 ≡ i = omega arith in
          let has : Has (record { x = i; y = word_at ys i }) ps =
            subst (λ t. Has (record { x = t; y = word_at ys i }) ps) place
              (numbered-Has 0 i ys lt) in
          sum_at_point ones (record { x = i; y = word_at ys i }) ps qs [] (omega arith)
            (ones-Occurs 0 n i (omega arith) (omega (arith, lt)) (omega arith)) hp
            (numbered-AreDistinct 0 ys (omega (arith, le))) units' has
          ∙ ap (λ t. t ⊕ el (word_at ys i)) (value_none (el i))
          ∙ nought-plus (el (word_at ys i)),
    )

pub el_cancel : (x y : Gf16) → IsU16 x → IsU16 y → el x ≡ el y → x ≡ y
el_cancel x y hx hy e = sym (el_num x hx) ∙ ap (λ t. t.0) e ∙ el_num y hy

pub word_at-IsU16 : (ys : List Gf16) (i : ℕ) → All IsU16 ys → IsU16 (word_at ys i)
word_at-IsU16 [] i h = omega arith
word_at-IsU16 (y ∷ ys) zero h = h.0
word_at-IsU16 (y ∷ ys) (suc i) h = word_at-IsU16 ys i h.1

-- What `from_complete_points` gives: a panic if it refuses, and else a polynomial of the values.
abbrev pub Completes : Bool → List Gf16 → Bool → Type 0
Completes debug ys true = from_complete_points debug (numbered 0 ys) ≡ panic
Completes debug ys false =
    (q : Poly) × (from_complete_points debug (numbered 0 ys) ≡ ok q)
    × ((i : ℕ) → i < length ys → compute_at q i ≡ word_at ys i)

completed :
    (debug : Bool) (ys : List Gf16)
    → length ys ≤ 2 ^ 16
    → All IsU16 ys
    → is_refused debug (length ys) ≡ false
    → Completes debug ys false
completed debug ys le small accepted =
    let (q, ran, short, bounds, values) = from_complete_points_lem debug ys le small accepted in
    (
      q,
      ran,
      λ i lt.
          let e : el (compute_at q i) ≡ el (word_at ys i) =
            compute_at-value q i bounds (omega arith) ∙ values i lt in
          el_cancel (compute_at q i) (word_at ys i) (compute_at-IsU16 q i)
            (word_at-IsU16 ys i small) e,
    )

from_complete_points_refused :
    (debug : Bool) (ys : List Gf16)
    → is_refused debug (length ys) ≡ true
    → from_complete_points debug (numbered 0 ys) ≡ panic
unfolding from_complete_points
from_complete_points_refused debug ys h =
    rw
      (
        check_complete-numbered 0 ys,
        complete_polys_refused debug (numbered 0 ys) (length ys) (length-numbered 0 ys) h,
      )
      refl

-- On at most 2^16 values of 16 bits, numbered from 0 on, from_complete_points panics if the build
-- has debug assertions and the number of values is neither 0 nor one whose polynomials are
-- precomputed, and in every other case gives, without error or panic, a polynomial that compute_at
-- evaluates to each value at its place.
pub compute_at-from_complete_points :
    (debug : Bool) (ys : List Gf16)
    → length ys ≤ 2 ^ 16
    → All IsU16 ys
    → Completes debug ys (is_refused debug (length ys))
compute_at-from_complete_points debug ys le small =
    elim (Bool-cases (is_refused debug (length ys))) [
      | inl e ↦ subst (Completes debug ys) (sym e) (from_complete_points_refused debug ys e)
      | inr e ↦ subst (Completes debug ys) (sym e) (completed debug ys le small e)
    ]
