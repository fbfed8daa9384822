-- ===== src/Encoding/Polynomial/Complete/Units.antt =====
-- The polynomials of complete points, precomputed or not, are 1 at their own point and 0 at the others.
use sparse_post_quantum_ratc.Prelude.{
  ℕ, zero, suc, ◌-◌, ◌≡◌, refl, sym, ap, subst, ◌∙◌, List, [], ◌∷◌, map, All, length, replicate,
  length-replicate, ok, IsU16, arith,
}
use sparse_post_quantum_ratc.Encoding.Gf.{Gf16, const_div, div_impl}
use sparse_post_quantum_ratc.Encoding.Gf.Laws.{div_impl-const_div}
use sparse_post_quantum_ratc.Encoding.Gf.Field.{
  Element, el, nought, one, ◌⊕◌, ◌⊗◌, field_laws, times-nought, times-one, one-times,
}
use sparse_post_quantum_ratc.Encoding.Gf.Inverse.{over, over-times, el-div_impl, div_impl-IsU16}
use sparse_post_quantum_ratc.Encoding.Polynomial.{Pt, Poly, word_at, lagrange_interpolate_pt}
use sparse_post_quantum_ratc.Encoding.Polynomial.Value.{value, value-cons}
use sparse_post_quantum_ratc.Encoding.Polynomial.Roots.{IsPt}
use sparse_post_quantum_ratc.Encoding.Polynomial.Distinct.{
  AreDistinct, Occurs, others, others-ne-nought,
}
use sparse_post_quantum_ratc.Encoding.Polynomial.Interpolate.{
  basis, basis_own, basis_elsewhere, basis-IsU16, length-basis,
}
use sparse_post_quantum_ratc.Encoding.Polynomial.Complete.{
  const_pt_rounds, const_interpolate_pt, const_polys,
}
use sparse_post_quantum_ratc.Encoding.Polynomial.Complete.Rounds.{
  ZerosFrom, scaled, scaled-value, scaled-IsU16, length-scaled,
}
use sparse_post_quantum_ratc.Encoding.Polynomial.Complete.Basis.{
  factors, differing-lt, factors-others, factors_elsewhere, Rounded, const_pt_rounds-Rounded,
  IsUnit,
}

zeros_zero : (m i : ℕ) → word_at (replicate m 0) i ≡ 0
zeros_zero zero i = refl
zeros_zero (suc m) zero = refl
zeros_zero (suc m) (suc i) = zeros_zero m i

zeros-value : (m : ℕ) (y : Element) → value (replicate m 0) y ≡ nought
unfolding value
zeros-value zero y = refl
zeros-value (suc m) y = rw (zeros-value m y) (simp field_laws)

one-ZerosFrom : (m : ℕ) → ZerosFrom 1 (1 ∷ replicate m 0)
one-ZerosFrom m zero h = absurd (omega arith)
one-ZerosFrom m (suc i) h = zeros_zero m i

zeros-IsU16 : (m : ℕ) → All IsU16 (replicate m 0)
zeros-IsU16 zero = tt
zeros-IsU16 (suc m) = (omega arith, zeros-IsU16 m)

one_value : (m : ℕ) (y : Element) → value (1 ∷ replicate m 0) y ≡ one
one_value m y =
    value-cons 1 (replicate m 0) y ∙ ap (λ t. one ⊕ y ⊗ t) (zeros-value m y) ∙ simp field_laws

module _ (m : ℕ) (ones : List Pt) (size : length ones ≡ suc m) (hp : All IsPt ones) where
  abbrev unit_scale : Gf16 → Gf16
  unit_scale d = const_div 1 d

  scaled-IsUnit :
      (x : Gf16) (r : List Gf16 × Gf16)
      → IsU16 x
      → Rounded (suc m) x ones (1 ∷ replicate m 0) 1 r
      → IsUnit ones x (scaled (unit_scale r.1) r.0)
  scaled-IsUnit x r hx h =
      let o = others x ones in
      let s = unit_scale r.1 in
      let same : div_impl 1 r.1 ≡ s = div_impl-const_div 1 r.1 (omega arith) h.divisor_small in
      let small : IsU16 s = subst IsU16 same (div_impl-IsU16 1 r.1 (omega arith)) in
      let scale : el s ≡ over one o =
        ap el (sym same)
        ∙ el-div_impl 1 r.1 (omega arith) h.divisor_small
        ∙ ap (over one) (h.divisor ∙ one-times o) in
      let values = λ (y : Element).
        scaled-value s r.0 y small h.small
        ∙ ap (λ t. t ⊗ value r.0 y) scale
        ∙ ap (λ t. over one o ⊗ t)
            (h.values y
              ∙ ap (λ t. factors x ones y ⊗ t) (one_value m y)
              ∙ times-one (factors x ones y)) in
      record {
        short = omega (arith, length-scaled s r.0, h.count, size);
        small = scaled-IsU16 s r.0;
        own =
            values (el x)
            ∙ ap (λ t. over one o ⊗ t) (factors-others x ones)
            ∙ over-times one o (others-ne-nought x ones hx hp);
        elsewhere = λ z hz inside ne.
            values (el z)
            ∙ ap (λ t. over one o ⊗ t) (factors_elsewhere x z ones inside (λ e. ne (sym e)))
            ∙ times-nought (over one o);
      }

  const_interpolate_pt-rounds :
      (pi : Pt) (r : List Gf16 × Gf16)
      → pi.y ≡ 1
      → const_pt_rounds {E = Unit {0}} (suc m) pi.x ones (1 ∷ replicate m 0) 1 ≡ ok r
      → const_interpolate_pt {E = Unit {0}} (suc m) ones pi
        ≡ ok (record { coefficients = scaled (unit_scale r.1) r.0 })
  unfolding const_interpolate_pt
  const_interpolate_pt-rounds pi r hy ran = let e : suc m - 1 ≡ m = omega arith in rw (e, ran, hy)

  const_interpolate_pt-IsUnit :
      (pi : Pt)
      → IsU16 pi.x
      → pi.y ≡ 1
      → Occurs pi.x ones
      → (q : Poly) × (const_interpolate_pt {E = Unit {0}} (suc m) ones pi ≡ ok q)
        × IsUnit ones pi.x q.coefficients
  const_interpolate_pt-IsUnit pi hx hy inside =
      let (r, ran, h) =
        const_pt_rounds-Rounded m 1 pi.x ones (1 ∷ replicate m 0) 1 hx hp
          (ap suc (length-replicate m 0)) (one-ZerosFrom m)
          (omega (arith, differing-lt pi.x ones inside, size)) (omega arith, zeros-IsU16 m)
          (omega arith) in
      (
        record { coefficients = scaled (unit_scale r.1) r.0 },
        const_interpolate_pt-rounds pi r hy ran,
        scaled-IsUnit pi.x r hx h,
      )

-- One polynomial for each of the points.
abbrev pub AreUnits : List Pt → List Pt → List Poly → Type 0
AreUnits ones [] [] = Unit {0}
AreUnits ones [] (q ∷ qs) = ⊥
AreUnits ones (p ∷ ps) [] = ⊥
AreUnits ones (p ∷ ps) (q ∷ qs) = IsUnit ones p.x q.coefficients × AreUnits ones ps qs

pub const_polys-AreUnits :
    (m : ℕ) (ones ps : List Pt)
    → length ones ≡ suc m
    → All IsPt ones
    → All IsPt ps
    → All (λ (p : Pt). p.y ≡ 1) ps
    → All (λ (p : Pt). Occurs p.x ones) ps
    → (qs : List Poly) × (const_polys {E = Unit {0}} (suc m) ones ps ≡ ok qs) × AreUnits ones ps qs
unfolding const_polys
const_polys-AreUnits m ones [] size ho hp hy inside = ([], refl, tt)
const_polys-AreUnits m ones (p ∷ ps) size ho hp hy inside =
    let (q, ran, h) = const_interpolate_pt-IsUnit m ones size ho p hp.0.0 hy.0 inside.0 in
    let (qs, rest, hs) = const_polys-AreUnits m ones ps size ho hp.1 hy.1 inside.1 in
    (q ∷ qs, rw (ran, rest), (h, hs))

-- Without precomputation.
pub lagrange-AreUnits :
    (ones ps : List Pt)
    → All IsPt ones
    → AreDistinct ones
    → All IsPt ps
    → All (λ (p : Pt). p.y ≡ 1) ps
    → All (λ (p : Pt). Occurs p.x ones) ps
    → AreUnits ones ps (map (lagrange_interpolate_pt ones) ps)
unfolding lagrange_interpolate_pt basis
lagrange-AreUnits ones [] ho distinct hp hy inside = tt
lagrange-AreUnits ones (p ∷ ps) ho distinct hp hy inside = (
  record {
    short = omega (arith, length-basis ones ho p hp.0);
    small = basis-IsU16 ones ho p hp.0;
    own = basis_own ones ho p hp.0 distinct inside.0 ∙ ap el hy.0;
    elsewhere = λ z hz other ne. basis_elsewhere ones ho p z hp.0 hz inside.0 other ne;
  },
  lagrange-AreUnits ones ps ho distinct hp.1 hy.1 inside.1,
)
