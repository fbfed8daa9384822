-- ===== src/Encoding/Polynomial/Roots.antt =====
-- The polynomial that is zero at given points, as `lagrange_interpolate_prepare` builds it, and the
-- slope of a polynomial between two places, which is its quotient by the difference.
use sparse_post_quantum_ratc.Prelude.{
  ℕ, zero, suc, ◌+◌, ◌-◌, ◌≡◌, refl, ap, ◌∙◌, List, [], ◌∷◌, ◌++◌, All, length, take, drop,
  replicate, IsU16, arith,
}
use sparse_post_quantum_ratc.Prelude.Xor.{bit_xor-lt}
use sparse_post_quantum_ratc.Encoding.Gf.{Gf16, mul, sub}
use sparse_post_quantum_ratc.Encoding.Gf.Laws.{mul-IsU16}
use sparse_post_quantum_ratc.Encoding.Gf.Field.{
  Element, el, nought, ◌⊕◌, ◌⊗◌, el-xor, el-mul, field_laws,
}
use sparse_post_quantum_ratc.Encoding.Polynomial.{
  Pt, mult_xdiff_windows, mult_xdiff_assign_trailing, prepare_rounds, lagrange_interpolate_prepare,
}
use sparse_post_quantum_ratc.Encoding.Polynomial.Value.{value}

abbrev pub IsPt : Pt → Type 0
IsPt p = IsU16 p.x × IsU16 p.y

abbrev pub tail : List Gf16 → List Gf16
tail [] = []
tail (c ∷ cs) = cs

-- `(value cs y - value cs x) / (y - x)`, without the division.
unfoldable pub slope : Element → Element → List Gf16 → Element
slope x y [] = nought
slope x y (c ∷ cs) = value cs x ⊕ y ⊗ slope x y cs

slope_step :
    (x y s v w c : Element)
    → (y ⊕ x) ⊗ s ≡ w ⊕ v
    → (y ⊕ x) ⊗ (v ⊕ y ⊗ s) ≡ (c ⊕ y ⊗ w) ⊕ (c ⊕ x ⊗ v)
slope_step x y s v w c h =
    let e : (y ⊕ x) ⊗ (v ⊕ y ⊗ s) ≡ (y ⊕ x) ⊗ v ⊕ y ⊗ ((y ⊕ x) ⊗ s) = simp field_laws in
    let f : (y ⊕ x) ⊗ v ⊕ y ⊗ (w ⊕ v) ≡ (c ⊕ y ⊗ w) ⊕ (c ⊕ x ⊗ v) = simp field_laws in
    e ∙ ap (λ t. (y ⊕ x) ⊗ v ⊕ y ⊗ t) h ∙ f

pub slope_lem : (x y : Element) (cs : List Gf16) → (y ⊕ x) ⊗ slope x y cs ≡ value cs y ⊕ value cs x
unfolding slope value
slope_lem x y [] = simp field_laws
slope_lem x y (c ∷ cs) =
    slope_step x y (slope x y cs) (value cs x) (value cs y) (el c) (slope_lem x y cs)

windows_value_step :
    (c d k y v t : Element) → (c ⊕ k ⊗ d) ⊕ y ⊗ (v ⊕ d ⊗ t) ≡ (c ⊕ y ⊗ v) ⊕ d ⊗ (k ⊕ y ⊗ t)
windows_value_step c d k y v t = simp field_laws

-- Multiplication by the difference to `d`, of a polynomial that stands one place up.
pub windows-value :
    (d : Gf16) (cs : List Gf16) (y : Element)
    → IsU16 d
    → All IsU16 cs
    → value (mult_xdiff_windows d cs) y ≡ value cs y ⊕ el d ⊗ value (tail cs) y
unfolding mult_xdiff_windows value
windows-value d [] y hd hc = simp field_laws
windows-value d (c ∷ []) y hd hc = simp field_laws
windows-value d (c ∷ k ∷ cs) y hd hc =
    ap (λ t. el (sub c (mul k d)) ⊕ y ⊗ t) (windows-value d (k ∷ cs) y hd hc.1)
    ∙ ap (λ t. t ⊕ y ⊗ (value (k ∷ cs) y ⊕ el d ⊗ value cs y))
        (el-xor c (mul k d) ∙ ap (λ t. el c ⊕ t) (el-mul k d hc.1.0 hd))
    ∙ windows_value_step (el c) (el d) (el k) y (value (k ∷ cs) y) (value cs y)

windows_slope_step :
    (v w d y s t : Element) → (v ⊕ d ⊗ w) ⊕ y ⊗ (s ⊕ d ⊗ t) ≡ (v ⊕ y ⊗ s) ⊕ d ⊗ (w ⊕ y ⊗ t)
windows_slope_step v w d y s t = simp field_laws

pub windows-slope :
    (d : Gf16) (cs : List Gf16) (x y : Element)
    → IsU16 d
    → All IsU16 cs
    → slope x y (mult_xdiff_windows d cs) ≡ slope x y cs ⊕ el d ⊗ slope x y (tail cs)
unfolding mult_xdiff_windows slope value
windows-slope d [] x y hd hc = simp field_laws
windows-slope d (c ∷ []) x y hd hc = simp field_laws
windows-slope d (c ∷ k ∷ cs) x y hd hc =
    ap (λ t. t ⊕ y ⊗ slope x y (mult_xdiff_windows d (k ∷ cs))) (windows-value d (k ∷ cs) x hd hc.1)
    ∙ ap (λ t. (value (k ∷ cs) x ⊕ el d ⊗ value cs x) ⊕ y ⊗ t)
        (windows-slope d (k ∷ cs) x y hd hc.1)
    ∙ windows_slope_step (value (k ∷ cs) x) (value cs x) (el d) y (slope x y (k ∷ cs))
        (slope x y cs)

pub windows-IsU16 :
    (d : Gf16) (cs : List Gf16) → IsU16 d → All IsU16 cs → All IsU16 (mult_xdiff_windows d cs)
unfolding mult_xdiff_windows
windows-IsU16 d [] hd hc = tt
windows-IsU16 d (c ∷ []) hd hc = hc
windows-IsU16 d (c ∷ k ∷ cs) hd hc =
    (bit_xor-lt 16 c (mul k d) hc.0 (mul-IsU16 k d), windows-IsU16 d (k ∷ cs) hd hc.1)

-- The product of `q` and the differences to the points.
unfoldable pub with_roots : List Pt → List Gf16 → List Gf16
with_roots [] q = q
with_roots (p ∷ ps) q = with_roots ps (mult_xdiff_windows p.x (0 ∷ q))

pub with_roots-IsU16 :
    (ps : List Pt) (q : List Gf16) → All IsPt ps → All IsU16 q → All IsU16 (with_roots ps q)
unfolding with_roots
with_roots-IsU16 [] q hp hq = hq
with_roots-IsU16 (p ∷ ps) q hp hq =
    with_roots-IsU16 ps (mult_xdiff_windows p.x (0 ∷ q)) hp.1
      (windows-IsU16 p.x (0 ∷ q) hp.0.0 (omega arith, hq))

pub length-windows : (d : Gf16) (cs : List Gf16) → length (mult_xdiff_windows d cs) ≡ length cs
unfolding mult_xdiff_windows
length-windows d [] = refl
length-windows d (c ∷ []) = refl
length-windows d (c ∷ k ∷ cs) = ap suc (length-windows d (k ∷ cs))

pub length-with_roots :
    (ps : List Pt) (q : List Gf16) → length (with_roots ps q) ≡ length ps + length q
unfolding with_roots
length-with_roots [] q = omega arith
length-with_roots (p ∷ ps) q =
    omega (arith, length-with_roots ps (mult_xdiff_windows p.x (0 ∷ q)), length-windows p.x (0 ∷ q))

take_zeros : (n : ℕ) (q : List Gf16) → take n (replicate (suc n) 0 ++ q) ≡ replicate n 0
take_zeros zero q = refl
take_zeros (suc n) q = ap (λ t. 0 ∷ t) (take_zeros n q)

drop_zeros : (n : ℕ) (q : List Gf16) → drop n (replicate (suc n) 0 ++ q) ≡ 0 ∷ q
drop_zeros zero q = refl
drop_zeros (suc n) q = drop_zeros n q

prepare_rounds-with_roots :
    (ps : List Pt) (q : List Gf16)
    → prepare_rounds (length ps) ps (replicate (length ps) 0 ++ q) ≡ with_roots ps q
unfolding prepare_rounds with_roots mult_xdiff_assign_trailing
prepare_rounds-with_roots [] q = refl
prepare_rounds-with_roots (p ∷ ps) q =
    let n = length ps in
    let e : suc n - 1 ≡ n = omega arith in
    rw (e, take_zeros n q, drop_zeros n q)
      (prepare_rounds-with_roots ps (mult_xdiff_windows p.x (0 ∷ q)))

pub prepare-with_roots : (ps : List Pt) → lagrange_interpolate_prepare ps ≡ with_roots ps (1 ∷ [])
unfolding lagrange_interpolate_prepare
prepare-with_roots ps = prepare_rounds-with_roots ps (1 ∷ [])
