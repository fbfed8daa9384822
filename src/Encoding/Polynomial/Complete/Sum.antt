-- ===== src/Encoding/Polynomial/Complete/Sum.antt =====
-- `lagrange_sum` and `from_complete_points`: the polynomial of values at the places from 0 on.
use sparse_post_quantum_ratc.Prelude.{
  ℕ, suc, ◌≤◌, ◌≡◌, ◌≢◌, refl, sym, ap, subst, ◌∙◌, List, [], ◌∷◌, map, All, length, inl, inr,
  IsU16, arith,
}
use sparse_post_quantum_ratc.Encoding.Gf.{Gf16, mul}
use sparse_post_quantum_ratc.Encoding.Gf.Laws.{parallel_mult-map, mul-IsU16}
use sparse_post_quantum_ratc.Encoding.Gf.Field.{
  Element, el, one, ◌⊕◌, ◌⊗◌, el-mul, field_laws, times-nought, times-one, plus-nought,
}
use sparse_post_quantum_ratc.Encoding.Polynomial.{Pt, Poly, add_assign, lagrange_sum}
use sparse_post_quantum_ratc.Encoding.Polynomial.Value.{
  value, value-add_assign, add_assign-IsU16, length-add_assign,
}
use sparse_post_quantum_ratc.Encoding.Polynomial.Roots.{IsPt}
use sparse_post_quantum_ratc.Encoding.Polynomial.Distinct.{Fresh, Fresh-ne, AreDistinct, Occurs}
use sparse_post_quantum_ratc.Encoding.Polynomial.Interpolate.{Has, Has-Occurs}
use sparse_post_quantum_ratc.Encoding.Polynomial.Complete.Basis.{IsUnit}
use sparse_post_quantum_ratc.Encoding.Polynomial.Complete.Units.{AreUnits}

times_step : (a c y v : Element) → a ⊗ c ⊕ y ⊗ (a ⊗ v) ≡ a ⊗ (c ⊕ y ⊗ v)
times_step a c y v = simp field_laws

map-value :
    (a : Gf16) (cs : List Gf16) (y : Element)
    → IsU16 a
    → All IsU16 cs
    → value (map (mul a) cs) y ≡ el a ⊗ value cs y
unfolding value
map-value a [] y ha hc = sym (times-nought (el a))
map-value a (c ∷ cs) y ha hc =
    ap (λ t. t ⊕ y ⊗ value (map (mul a) cs) y) (el-mul a c ha hc.0)
    ∙ ap (λ t. el a ⊗ el c ⊕ y ⊗ t) (map-value a cs y ha hc.1)
    ∙ times_step (el a) (el c) y (value cs y)

map-IsU16 : (a : Gf16) (cs : List Gf16) → All IsU16 (map (mul a) cs)
map-IsU16 a [] = tt
map-IsU16 a (c ∷ cs) = (mul-IsU16 a c, map-IsU16 a cs)

length-map : (a : Gf16) (cs : List Gf16) → length (map (mul a) cs) ≡ length cs
length-map a [] = refl
length-map a (c ∷ cs) = ap suc (length-map a cs)

-- `out` plus the polynomial of a point.
abbrev plus_scaled : List Gf16 → Gf16 → List Gf16 → List Gf16
plus_scaled out a cs = add_assign out (map (mul a) cs)

lagrange_sum-step :
    (p : Pt) (ps : List Pt) (q : Poly) (qs : List Poly) (out : List Gf16)
    → IsU16 p.y
    → All IsU16 q.coefficients
    → lagrange_sum (p ∷ ps) (q ∷ qs) out ≡ lagrange_sum ps qs (plus_scaled out p.y q.coefficients)
unfolding lagrange_sum
lagrange_sum-step p ps q qs out hy hq = rw (parallel_mult-map p.y q.coefficients hy hq)

module _ (ones : List Pt) where
  plus_scaled-value :
      (out : List Gf16) (a : Gf16) (x : Gf16) (q : Poly) (z : Element)
      → IsU16 a
      → IsUnit ones x q.coefficients
      → value (plus_scaled out a q.coefficients) z ≡ value out z ⊕ el a ⊗ value q.coefficients z
  plus_scaled-value out a x q z ha h =
      value-add_assign out (map (mul a) q.coefficients) z
      ∙ ap (λ t. value out z ⊕ t) (map-value a q.coefficients z ha h.small)

  sum-Fresh :
      (z : Gf16) (ps : List Pt) (qs : List Poly) (out : List Gf16)
      → IsU16 z
      → Occurs z ones
      → All IsPt ps
      → AreUnits ones ps qs
      → Fresh z ps
      → value (lagrange_sum ps qs out).coefficients (el z) ≡ value out (el z)
  unfolding lagrange_sum
  sum-Fresh z [] [] out hz inside hp units fresh = refl
  sum-Fresh z [] (q ∷ qs) out hz inside hp units fresh = absurd units
  sum-Fresh z (p ∷ ps) [] out hz inside hp units fresh = absurd units
  sum-Fresh z (p ∷ ps) (q ∷ qs) out hz inside hp units fresh =
      let (unit, rest) = units in
      ap (λ (t : Poly). value t.coefficients (el z))
        (lagrange_sum-step p ps q qs out hp.0.1 unit.small)
      ∙ sum-Fresh z ps qs (plus_scaled out p.y q.coefficients) hz inside hp.1 rest fresh.1
      ∙ plus_scaled-value out p.y p.x q (el z) hp.0.1 unit
      ∙ ap (λ t. value out (el z) ⊕ el p.y ⊗ t) (unit.elsewhere z hz inside fresh.0)
      ∙ ap (λ t. value out (el z) ⊕ t) (times-nought (el p.y))
      ∙ plus-nought (value out (el z))

  pub sum_at_point :
      (p : Pt) (ps : List Pt) (qs : List Poly) (out : List Gf16)
      → IsU16 p.x
      → Occurs p.x ones
      → All IsPt ps
      → AreDistinct ps
      → AreUnits ones ps qs
      → Has p ps
      → value (lagrange_sum ps qs out).coefficients (el p.x) ≡ value out (el p.x) ⊕ el p.y
  unfolding lagrange_sum
  sum_at_point p [] qs out hz inside hp distinct units has = absurd has
  sum_at_point p (r ∷ ps) [] out hz inside hp distinct units has = absurd units
  sum_at_point p (r ∷ ps) (q ∷ qs) out hz inside hp distinct units (inl e) =
      let (unit, rest) = units in
      let own : value q.coefficients (el p.x) ≡ one =
        ap (λ (t : Pt). value q.coefficients (el t.x)) e ∙ unit.own in
      ap (λ (t : Poly). value t.coefficients (el p.x))
        (lagrange_sum-step r ps q qs out hp.0.1 unit.small)
      ∙ sum-Fresh p.x ps qs (plus_scaled out r.y q.coefficients) hz inside hp.1 rest
          (subst (λ (t : Pt). Fresh t.x ps) (sym e) distinct.0)
      ∙ plus_scaled-value out r.y r.x q (el p.x) hp.0.1 unit
      ∙ ap (λ t. value out (el p.x) ⊕ el r.y ⊗ t) own
      ∙ ap (λ t. value out (el p.x) ⊕ t) (times-one (el r.y) ∙ ap (λ (t : Pt). el t.y) (sym e))
  sum_at_point p (r ∷ ps) (q ∷ qs) out hz inside hp distinct units (inr has) =
      let (unit, rest) = units in
      let ne : p.x ≢ r.x = Fresh-ne p.x r.x ps distinct.0 (Has-Occurs p ps has) in
      ap (λ (t : Poly). value t.coefficients (el p.x))
        (lagrange_sum-step r ps q qs out hp.0.1 unit.small)
      ∙ sum_at_point p ps qs (plus_scaled out r.y q.coefficients) hz inside hp.1 distinct.1 rest has
      ∙ ap (λ t. t ⊕ el p.y)
          (plus_scaled-value out r.y r.x q (el p.x) hp.0.1 unit
            ∙ ap (λ t. value out (el p.x) ⊕ el r.y ⊗ t) (unit.elsewhere p.x hz inside ne)
            ∙ ap (λ t. value out (el p.x) ⊕ t) (times-nought (el r.y))
            ∙ plus-nought (value out (el p.x)))

  pub lagrange_sum_bounds :
      (n : ℕ) (ps : List Pt) (qs : List Poly) (out : List Gf16)
      → length ones ≤ n
      → All IsPt ps
      → AreUnits ones ps qs
      → length out ≤ n
      → All IsU16 out
      → (length (lagrange_sum ps qs out).coefficients ≤ n)
        × All IsU16 (lagrange_sum ps qs out).coefficients
  unfolding lagrange_sum
  lagrange_sum_bounds n [] [] out ho hp units le small = (le, small)
  lagrange_sum_bounds n [] (q ∷ qs) out ho hp units le small = absurd units
  lagrange_sum_bounds n (p ∷ ps) [] out ho hp units le small = absurd units
  lagrange_sum_bounds n (p ∷ ps) (q ∷ qs) out ho hp units le small =
      let (unit, rest) = units in
      let cs = q.coefficients in
      subst (λ (t : Poly). (length t.coefficients ≤ n) × All IsU16 t.coefficients)
        (sym (lagrange_sum-step p ps q qs out hp.0.1 unit.small))
        (lagrange_sum_bounds n ps qs (plus_scaled out p.y cs) ho hp.1 rest
          (length-add_assign out (map (mul p.y) cs) n le
            (omega (arith, length-map p.y cs, unit.short)))
          (add_assign-IsU16 out (map (mul p.y) cs) small (map-IsU16 p.y cs)))
