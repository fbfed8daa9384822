-- ===== src/Encoding/Polynomial/Interpolate.antt =====
-- `lagrange_interpolate` gives a polynomial that has the values of the points at their places.
use sparse_post_quantum_ratc.Prelude.{
  ◌≤◌, ◌≡◌, ◌≢◌, ◌⊎◌, inl, inr, refl, sym, ap, subst, ◌∙◌, List, [], ◌∷◌, All, length, drop, IsU16,
  arith,
}
use sparse_post_quantum_ratc.Encoding.Gf.{Gf16, mul, sub}
use sparse_post_quantum_ratc.Encoding.Gf.Field.{
  Element, el, el_num, nought, ◌⊕◌, ◌⊗◌, field_laws, times-nought, times_comm, one-times,
  nought-plus, plus-nought, plus_assoc,
}
use sparse_post_quantum_ratc.Encoding.Gf.Inverse.{
  over, over-times, el-div_impl, div_impl-IsU16, no_zero_divisors,
}
use sparse_post_quantum_ratc.Encoding.Polynomial.{
  Pt, mult_xdiff_windows, lagrange_interpolate_prepare, lagrange_interpolate_complete,
  interpolate_rounds, lagrange_interpolate, compute_at, denominator_of, add_assign,
}
use sparse_post_quantum_ratc.Encoding.Polynomial.Value.{
  value, value-add_assign, add_assign-IsU16, length-add_assign, compute_at-value, compute_at-IsU16,
}
use sparse_post_quantum_ratc.Encoding.Polynomial.Roots.{
  IsPt, slope, slope_lem, with_roots, with_roots-IsU16, length-with_roots, prepare-with_roots,
}
use sparse_post_quantum_ratc.Encoding.Polynomial.Division.{
  scale_of, complete-value, complete-IsU16, length_complete,
}
use sparse_post_quantum_ratc.Encoding.Polynomial.Distinct.{
  Fresh, AreDistinct, Occurs, Fresh-ne, others, denominator-others, others-ne-nought, different,
  with_roots-value, with_roots-slope,
}

abbrev pub Has : Pt → List Pt → Type 0
Has p [] = ⊥
Has p (q ∷ ps) = (p ≡ q) ⊎ Has p ps

pub Has-Occurs : (p : Pt) (ps : List Pt) → Has p ps → Occurs p.x ps
Has-Occurs p [] h = h
Has-Occurs p (q ∷ ps) (inl e) = inl (ap (λ t. t.x) e)
Has-Occurs p (q ∷ ps) (inr h) = inr (Has-Occurs p ps h)

pub Has-All : (P : Pt → Type 0) (p : Pt) (ps : List Pt) → Has p ps → All P ps → P p
Has-All P p [] h all = absurd h
Has-All P p (q ∷ ps) (inl e) all = subst P (sym e) all.0
Has-All P p (q ∷ ps) (inr h) all = Has-All P p ps h all.1

pub with_roots-cons :
    (ps : List Pt) (c : Gf16) (cs : List Gf16)
    → (d : Gf16) × (ds : List Gf16) × (with_roots ps (c ∷ cs) ≡ d ∷ ds)
unfolding with_roots mult_xdiff_windows
with_roots-cons [] c cs = (c, cs, refl)
with_roots-cons (p ∷ ps) c cs =
    with_roots-cons ps (sub 0 (mul c p.x)) (mult_xdiff_windows p.x (c ∷ cs))

-- The polynomial of one of the points.
unfoldable pub basis : List Pt → Pt → List Gf16
basis pts pi = drop 1 (lagrange_interpolate_complete (lagrange_interpolate_prepare pts) pts pi)

unit : (o x : Element) → o ⊗ value (1 ∷ []) x ≡ o
unfolding value
unit o x = simp field_laws

module _ (pts : List Pt) (hp : All IsPt pts) where
  pub template-IsU16 : All IsU16 (with_roots pts (1 ∷ []))
  template-IsU16 = with_roots-IsU16 pts (1 ∷ []) hp (omega arith, tt)

  pub scale-IsU16 : (pi : Pt) → IsPt pi → IsU16 (scale_of pts pi)
  scale-IsU16 pi h = div_impl-IsU16 pi.y (denominator_of pi.x pts 1) h.1

  el-scale : (pi : Pt) → IsPt pi → el (scale_of pts pi) ≡ over (el pi.y) (others pi.x pts)
  el-scale pi h =
      let (small, e) = denominator-others pi.x 1 pts h.0 (omega arith) hp in
      el-div_impl pi.y (denominator_of pi.x pts 1) h.1 small
      ∙ ap (over (el pi.y)) (e ∙ one-times (others pi.x pts))

  pub basis-value :
      (pi : Pt) (y : Element)
      → IsPt pi
      → value (basis pts pi) y
        ≡ over (el pi.y) (others pi.x pts) ⊗ slope (el pi.x) y (with_roots pts (1 ∷ []))
  unfolding basis
  basis-value pi y h =
      let (c, cs, e) = with_roots-cons pts 1 [] in
      let f : lagrange_interpolate_prepare pts ≡ c ∷ cs = prepare-with_roots pts ∙ e in
      ap (λ t. value (drop 1 (lagrange_interpolate_complete t pts pi)) y) f
      ∙ complete-value c cs pts pi y (subst (All IsU16) e template-IsU16) h.0 (scale-IsU16 pi h)
      ∙ ap (λ t. t ⊗ slope (el pi.x) y (c ∷ cs)) (el-scale pi h)
      ∙ ap (λ t. over (el pi.y) (others pi.x pts) ⊗ slope (el pi.x) y t) (sym e)

  pub basis-IsU16 : (pi : Pt) → IsPt pi → All IsU16 (basis pts pi)
  unfolding basis
  basis-IsU16 pi h =
      let (c, cs, e) = with_roots-cons pts 1 [] in
      let f : lagrange_interpolate_prepare pts ≡ c ∷ cs = prepare-with_roots pts ∙ e in
      subst (λ t. All IsU16 (drop 1 (lagrange_interpolate_complete t pts pi))) (sym f)
        (complete-IsU16 c cs pts pi (subst (All IsU16) e template-IsU16) h.0 (scale-IsU16 pi h))

  pub length-basis : (pi : Pt) → IsPt pi → length (basis pts pi) ≡ length pts
  unfolding basis
  length-basis pi h =
      let (c, cs, e) = with_roots-cons pts 1 [] in
      let f : lagrange_interpolate_prepare pts ≡ c ∷ cs = prepare-with_roots pts ∙ e in
      ap (λ t. length (drop 1 (lagrange_interpolate_complete t pts pi))) f
      ∙ length_complete c cs pts pi (subst (All IsU16) e template-IsU16) h.0 (scale-IsU16 pi h)
      ∙ omega (arith, ap length e, length-with_roots pts (1 ∷ []))

  pub basis_own :
      (pi : Pt)
      → IsPt pi
      → AreDistinct pts
      → Occurs pi.x pts
      → value (basis pts pi) (el pi.x) ≡ el pi.y
  basis_own pi h distinct occurs =
      let o = others pi.x pts in
      basis-value pi (el pi.x) h
      ∙ ap (λ t. over (el pi.y) o ⊗ t)
          (with_roots-slope pi.x h.0 pts (1 ∷ []) hp (omega arith, tt) distinct occurs
            ∙ unit o (el pi.x))
      ∙ over-times (el pi.y) o (others-ne-nought pi.x pts h.0 hp)

  pub basis_elsewhere :
      (pi : Pt) (x : Gf16)
      → IsPt pi
      → IsU16 x
      → Occurs pi.x pts
      → Occurs x pts
      → x ≢ pi.x
      → value (basis pts pi) (el x) ≡ nought
  basis_elsewhere pi x h hx own other ne =
      let t = with_roots pts (1 ∷ []) in
      let zero_at = λ (z : Gf16) (hz : IsU16 z) (oz : Occurs z pts).
        with_roots-value z hz pts (1 ∷ []) hp (omega arith, tt) oz in
      let flat : slope (el pi.x) (el x) t ⊗ (el x ⊕ el pi.x) ≡ nought =
        times_comm (slope (el pi.x) (el x) t) (el x ⊕ el pi.x)
        ∙ slope_lem (el pi.x) (el x) t
        ∙ ap (λ v. v ⊕ value t (el pi.x)) (zero_at x hx other)
        ∙ nought-plus (value t (el pi.x))
        ∙ zero_at pi.x h.0 own in
      let e : slope (el pi.x) (el x) t ≡ nought =
        no_zero_divisors (slope (el pi.x) (el x) t) (el x ⊕ el pi.x) flat
          (different x pi.x hx h.0 ne) in
      basis-value pi (el x) h
      ∙ ap (λ v. over (el pi.y) (others pi.x pts) ⊗ v) e
      ∙ times-nought (over (el pi.y) (others pi.x pts))

  basis_sum : List Pt → Element → Element
  basis_sum [] y = nought
  basis_sum (p ∷ ps) y = value (basis pts p) y ⊕ basis_sum ps y

  rounds-value :
      (ps : List Pt) (out : List Gf16) (y : Element)
      → value (interpolate_rounds (lagrange_interpolate_prepare pts) pts ps out) y
        ≡ value out y ⊕ basis_sum ps y
  unfolding interpolate_rounds basis_sum lagrange_interpolate_prepare basis
  rounds-value [] out y = sym (plus-nought (value out y))
  rounds-value (p ∷ ps) out y =
      rounds-value ps (add_assign out (basis pts p)) y
      ∙ ap (λ t. t ⊕ basis_sum ps y) (value-add_assign out (basis pts p) y)
      ∙ plus_assoc (value out y) (value (basis pts p) y) (basis_sum ps y)

  Fresh-sum :
      (x : Gf16) (ps : List Pt)
      → IsU16 x
      → Occurs x pts
      → All IsPt ps
      → All (λ (p : Pt). Occurs p.x pts) ps
      → Fresh x ps
      → basis_sum ps (el x) ≡ nought
  unfolding basis_sum
  Fresh-sum x [] hx own h inside fresh = refl
  Fresh-sum x (p ∷ ps) hx own h inside fresh =
      ap (λ t. t ⊕ basis_sum ps (el x)) (basis_elsewhere p x h.0 hx inside.0 own fresh.0)
      ∙ nought-plus (basis_sum ps (el x))
      ∙ Fresh-sum x ps hx own h.1 inside.1 fresh.1

  sum_at_point :
      (p : Pt) (ps : List Pt)
      → IsPt p
      → AreDistinct pts
      → All IsPt ps
      → All (λ (p : Pt). Occurs p.x pts) ps
      → AreDistinct ps
      → Occurs p.x pts
      → Has p ps
      → basis_sum ps (el p.x) ≡ el p.y
  unfolding basis_sum
  sum_at_point p [] hp' distinct h inside apart own has = absurd has
  sum_at_point p (q ∷ ps) hp' distinct h inside apart own (inl e) =
      ap (λ t. value (basis pts t) (el p.x) ⊕ basis_sum ps (el p.x)) (sym e)
      ∙ ap (λ t. t ⊕ basis_sum ps (el p.x)) (basis_own p hp' distinct own)
      ∙ ap (λ t. el p.y ⊕ t)
          (Fresh-sum p.x ps hp'.0 own h.1 inside.1
            (subst (λ (t : Pt). Fresh t.x ps) (sym e) apart.0))
      ∙ plus-nought (el p.y)
  sum_at_point p (q ∷ ps) hp' distinct h inside apart own (inr has) =
      let ne : p.x ≢ q.x = Fresh-ne p.x q.x ps apart.0 (Has-Occurs p ps has) in
      ap (λ t. t ⊕ basis_sum ps (el p.x)) (basis_elsewhere q p.x h.0 hp'.0 inside.0 own ne)
      ∙ nought-plus (basis_sum ps (el p.x))
      ∙ sum_at_point p ps hp' distinct h.1 inside.1 apart.1 own has

pub All-weaken : {P Q : Pt → Type 0} (ps : List Pt) → ((p : Pt) → P p → Q p) → All P ps → All Q ps
All-weaken [] f h = tt
All-weaken (p ∷ ps) f h = (f p h.0, All-weaken ps f h.1)

pub each_inside : (ps : List Pt) → All (λ (p : Pt). Occurs p.x ps) ps
each_inside [] = tt
each_inside (q ∷ ps) = (
  inl refl,
  All-weaken {P = λ p. Occurs p.x ps} {Q = λ p. Occurs p.x (q ∷ ps)} ps (λ p h. inr h)
      (each_inside ps),
)

interpolate-sum :
    (p : Pt) (ps : List Pt) (hp : All IsPt (p ∷ ps)) (y : Element)
    → value (lagrange_interpolate (p ∷ ps)).coefficients y ≡ basis_sum (p ∷ ps) hp (p ∷ ps) y
unfolding lagrange_interpolate basis_sum basis
interpolate-sum p ps hp y = rounds-value (p ∷ ps) hp ps (basis (p ∷ ps) p) y

interpolate_rounds-IsU16 :
    (pts : List Pt) (hp : All IsPt pts) (ps : List Pt) (out : List Gf16)
    → All IsPt ps
    → All IsU16 out
    → All IsU16 (interpolate_rounds (lagrange_interpolate_prepare pts) pts ps out)
unfolding interpolate_rounds basis lagrange_interpolate_prepare
interpolate_rounds-IsU16 pts hp [] out h ho = ho
interpolate_rounds-IsU16 pts hp (p ∷ ps) out h ho =
    interpolate_rounds-IsU16 pts hp ps (add_assign out (basis pts p)) h.1
      (add_assign-IsU16 out (basis pts p) ho (basis-IsU16 pts hp p h.0))

pub interpolate-IsU16 :
    (pts : List Pt) → All IsPt pts → All IsU16 (lagrange_interpolate pts).coefficients
unfolding lagrange_interpolate basis
interpolate-IsU16 [] hp = tt
interpolate-IsU16 (p ∷ ps) hp =
    interpolate_rounds-IsU16 (p ∷ ps) hp ps (basis (p ∷ ps) p) hp.1 (basis-IsU16 (p ∷ ps) hp p hp.0)

interpolate_rounds_short :
    (pts : List Pt) (hp : All IsPt pts) (ps : List Pt) (out : List Gf16)
    → All IsPt ps
    → length out ≤ length pts
    → length (interpolate_rounds (lagrange_interpolate_prepare pts) pts ps out) ≤ length pts
unfolding interpolate_rounds basis lagrange_interpolate_prepare
interpolate_rounds_short pts hp [] out h le = le
interpolate_rounds_short pts hp (p ∷ ps) out h le =
    interpolate_rounds_short pts hp ps (add_assign out (basis pts p)) h.1 (
      length-add_assign out (basis pts p) (length pts) le
        (omega (arith, length-basis pts hp p h.0)))

-- It has no more coefficients than there are points.
pub interpolate_short :
    (pts : List Pt) → All IsPt pts → length (lagrange_interpolate pts).coefficients ≤ length pts
unfolding lagrange_interpolate basis
interpolate_short [] hp = omega arith
interpolate_short (p ∷ ps) hp =
    interpolate_rounds_short (p ∷ ps) hp ps (basis (p ∷ ps) p) hp.1
      (omega (arith, length-basis (p ∷ ps) hp p hp.0))

pub interpolate-value :
    (p : Pt) (pts : List Pt)
    → All IsPt pts
    → IsPt p
    → AreDistinct pts
    → Has p pts
    → value (lagrange_interpolate pts).coefficients (el p.x) ≡ el p.y
interpolate-value p [] hp h distinct has = absurd has
interpolate-value p (q ∷ ps) hp h distinct has =
    interpolate-sum q ps hp (el p.x)
    ∙ sum_at_point (q ∷ ps) hp p (q ∷ ps) h distinct hp (each_inside (q ∷ ps)) distinct
        (Has-Occurs p (q ∷ ps) has) has

-- The polynomial that lagrange_interpolate gives for points of 16 bits at different places has, as
-- compute_at evaluates it, the value of each of the points at its place.
pub compute_at-lagrange_interpolate :
    (p : Pt) (pts : List Pt)
    → All IsPt pts
    → AreDistinct pts
    → Has p pts
    → compute_at (lagrange_interpolate pts) p.x ≡ p.y
compute_at-lagrange_interpolate p pts hp distinct has =
    let h : IsPt p = Has-All IsPt p pts has hp in
    let q = lagrange_interpolate pts in
    sym (el_num (compute_at q p.x) (compute_at-IsU16 q p.x))
    ∙ ap (λ t. t.0)
        (compute_at-value q p.x (interpolate-IsU16 pts hp) h.0
          ∙ interpolate-value p pts hp h distinct has)
    ∙ el_num p.y h.1
