-- ===== src/Encoding/Polynomial/Unique.antt =====
-- A polynomial is known from as many different places as it has coefficients.
use sparse_post_quantum_ratc.Prelude.{
  suc, ◌≤◌, ◌≡◌, refl, sym, ap, ◌∙◌, List, [], ◌∷◌, All, length, IsU16, arith,
}
use sparse_post_quantum_ratc.Encoding.Gf.{Gf16}
use sparse_post_quantum_ratc.Encoding.Gf.Field.{
  Element, element_eq, el, el_num, nought, ◌⊕◌, ◌⊗◌, field_laws, times-nought, times_comm,
  nought-plus, plus-nought, plus_assoc, plus_self,
}
use sparse_post_quantum_ratc.Encoding.Gf.Inverse.{no_zero_divisors}
use sparse_post_quantum_ratc.Encoding.Polynomial.{Pt, add_assign}
use sparse_post_quantum_ratc.Encoding.Polynomial.Value.{value, value-add_assign, length-add_assign}
use sparse_post_quantum_ratc.Encoding.Polynomial.Roots.{IsPt, slope, slope_lem}
use sparse_post_quantum_ratc.Encoding.Polynomial.Distinct.{Fresh, AreDistinct, different}

-- The coefficients of the quotient of `c ∷ cs` by the difference to `x`.
divide : Element → List Gf16 → List Gf16
divide x [] = []
divide x (c ∷ cs) = (value (c ∷ cs) x).0 ∷ divide x cs

length-divide : (x : Element) (cs : List Gf16) → length (divide x cs) ≡ length cs
unfolding divide
length-divide x [] = refl
length-divide x (c ∷ cs) = ap suc (length-divide x cs)

el_of_element : (a : Element) → el a.0 ≡ a
el_of_element a = element_eq (el a.0) a (el_num a.0 a.1)

divide-value :
    (x y : Element) (c : Gf16) (cs : List Gf16) → value (divide x cs) y ≡ slope x y (c ∷ cs)
unfolding divide slope value
divide-value x y c [] = sym (simp field_laws)
divide-value x y c (d ∷ cs) =
    ap (λ t. t ⊕ y ⊗ value (divide x cs) y) (el_of_element (value (d ∷ cs) x))
    ∙ ap (λ t. value (d ∷ cs) x ⊕ y ⊗ t) (divide-value x y d cs)

root_factor :
    (x y : Element) (c : Gf16) (cs : List Gf16)
    → value (c ∷ cs) x ≡ nought
    → (y ⊕ x) ⊗ value (divide x cs) y ≡ value (c ∷ cs) y
root_factor x y c cs h =
    ap (λ t. (y ⊕ x) ⊗ t) (divide-value x y c cs)
    ∙ slope_lem x y (c ∷ cs)
    ∙ ap (λ t. value (c ∷ cs) y ⊕ t) h
    ∙ plus-nought (value (c ∷ cs) y)

divided_roots :
    (x : Gf16) (c : Gf16) (cs : List Gf16) (pts : List Pt)
    → IsU16 x
    → value (c ∷ cs) (el x) ≡ nought
    → All IsPt pts
    → Fresh x pts
    → All (λ (p : Pt). value (c ∷ cs) (el p.x) ≡ nought) pts
    → All (λ (p : Pt). value (divide (el x) cs) (el p.x) ≡ nought) pts
divided_roots x c cs [] hx h hp fresh roots = tt
divided_roots x c cs (p ∷ ps) hx h hp fresh roots = (
  no_zero_divisors (value (divide (el x) cs) (el p.x)) (el p.x ⊕ el x)
      (times_comm (value (divide (el x) cs) (el p.x)) (el p.x ⊕ el x)
        ∙ root_factor (el x) (el p.x) c cs h
        ∙ roots.0)
      (different p.x x hp.0.0 hx (λ e. fresh.0 (sym e))),
  divided_roots x c cs ps hx h hp.1 fresh.1 roots.1,
)

-- Without as many roots as coefficients only if it is zero everywhere.
zero_of_roots :
    (cs : List Gf16) (pts : List Pt) (y : Element)
    → length cs ≤ length pts
    → All IsPt pts
    → AreDistinct pts
    → All (λ (p : Pt). value cs (el p.x) ≡ nought) pts
    → value cs y ≡ nought
unfolding value
zero_of_roots [] pts y le hp distinct roots = refl
zero_of_roots (c ∷ cs) [] y le hp distinct roots = absurd (omega arith)
zero_of_roots (c ∷ cs) (p ∷ ps) y le hp distinct roots =
    let x = p.x in
    let smaller : length (divide (el x) cs) ≤ length ps = omega (arith, length-divide (el x) cs) in
    let rest = divided_roots x c cs ps hp.0.0 roots.0 hp.1 distinct.0 roots.1 in
    sym (root_factor (el x) y c cs roots.0)
    ∙ ap (λ t. (y ⊕ el x) ⊗ t) (zero_of_roots (divide (el x) cs) ps y smaller hp.1 distinct.1 rest)
    ∙ times-nought (y ⊕ el x)

differences :
    (cs ds : List Gf16) (pts : List Pt)
    → All (λ (p : Pt). value cs (el p.x) ≡ value ds (el p.x)) pts
    → All (λ (p : Pt). value (add_assign cs ds) (el p.x) ≡ nought) pts
differences cs ds [] h = tt
differences cs ds (p ∷ ps) h = (
  value-add_assign cs ds (el p.x)
      ∙ ap (λ t. t ⊕ value ds (el p.x)) h.0
      ∙ plus_self (value ds (el p.x)),
  differences cs ds ps h.1,
)

-- Two polynomials that agree at as many different places as they have coefficients agree everywhere.
pub value_unique :
    (cs ds : List Gf16) (pts : List Pt) (y : Element)
    → length cs ≤ length pts
    → length ds ≤ length pts
    → All IsPt pts
    → AreDistinct pts
    → All (λ (p : Pt). value cs (el p.x) ≡ value ds (el p.x)) pts
    → value cs y ≡ value ds y
value_unique cs ds pts y hc hd hp distinct h =
    let e : value cs y ⊕ value ds y ≡ nought =
      sym (value-add_assign cs ds y)
      ∙ zero_of_roots (add_assign cs ds) pts y (length-add_assign cs ds (length pts) hc hd) hp
          distinct (differences cs ds pts h) in
    sym (plus-nought (value cs y))
    ∙ ap (λ t. value cs y ⊕ t) (sym (plus_self (value ds y)))
    ∙ sym (plus_assoc (value cs y) (value ds y) (value ds y))
    ∙ ap (λ t. t ⊕ value ds y) e
    ∙ nought-plus (value ds y)
