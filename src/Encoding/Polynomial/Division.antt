-- ===== src/Encoding/Polynomial/Division.antt =====
-- `lagrange_interpolate_complete`: long division by the difference to a point, whose quotient is the
-- slope of the polynomial, times the scale.
use mathlib.Core.List.{reverse, reverse-append, reverse-cons}
use sparse_post_quantum_ratc.Prelude.{
  ◌+◌, ◌<◌, ◌≡◌, refl, sym, ap, subst, ◌∙◌, List, [], ◌∷◌, ◌++◌, All, length, length-append, drop,
  IsU16, arith,
}
use sparse_post_quantum_ratc.Prelude.Xor.{bit_xor-lt}
use sparse_post_quantum_ratc.Encoding.Gf.{Gf16, mul, add, div_impl}
use sparse_post_quantum_ratc.Encoding.Gf.Laws.{mul-IsU16}
use sparse_post_quantum_ratc.Encoding.Gf.Field.{
  Element, el, ◌⊕◌, ◌⊗◌, el-xor, el-mul, field_laws, times_comm,
}
use sparse_post_quantum_ratc.Encoding.Polynomial.{
  Pt, word_at, divide_out, from_highest, lagrange_interpolate_complete, denominator_of,
}
use sparse_post_quantum_ratc.Encoding.Polynomial.Value.{value, value-cons}
use sparse_post_quantum_ratc.Encoding.Polynomial.Roots.{slope}

-- What the division carries along at the end of the list, and what it leaves on the way.
last_of : Gf16 → Gf16 → List Gf16 → Gf16
last_of x c [] = c
last_of x c (d ∷ cs) = last_of x (add d (mul c x)) cs

front_of : Gf16 → Gf16 → Gf16 → List Gf16 → List Gf16
front_of x s c [] = []
front_of x s c (d ∷ cs) = mul c s ∷ front_of x s (add d (mul c x)) cs

divide_out-parts :
    (x s c : Gf16) (cs : List Gf16) → divide_out x s c cs ≡ front_of x s c cs ++ last_of x c cs ∷ []
unfolding divide_out front_of last_of
divide_out-parts x s c [] = refl
divide_out-parts x s c (d ∷ cs) = ap (λ t. mul c s ∷ t) (divide_out-parts x s (add d (mul c x)) cs)

last_of-snoc :
    (x c e : Gf16) (cs : List Gf16) → last_of x c (cs ++ e ∷ []) ≡ add e (mul (last_of x c cs) x)
unfolding last_of
last_of-snoc x c e [] = refl
last_of-snoc x c e (d ∷ cs) = last_of-snoc x (add d (mul c x)) e cs

front_of-snoc :
    (x s c e : Gf16) (cs : List Gf16)
    → front_of x s c (cs ++ e ∷ []) ≡ front_of x s c cs ++ mul (last_of x c cs) s ∷ []
unfolding front_of last_of
front_of-snoc x s c e [] = refl
front_of-snoc x s c e (d ∷ cs) = ap (λ t. mul c s ∷ t) (front_of-snoc x s (add d (mul c x)) e cs)

-- For the list of all coefficients, from the highest one down.
remainder_of : Gf16 → List Gf16 → Gf16
remainder_of x [] = 0
remainder_of x (c ∷ cs) = last_of x c cs

quotient_of : Gf16 → Gf16 → List Gf16 → List Gf16
quotient_of x s [] = []
quotient_of x s (c ∷ cs) = front_of x s c cs

from_highest-parts :
    (x s : Gf16) (cs : List Gf16)
    → 0 < length cs
    → from_highest x s cs ≡ quotient_of x s cs ++ remainder_of x cs ∷ []
unfolding divide_out quotient_of remainder_of
from_highest-parts x s [] h = absurd (omega arith)
from_highest-parts x s (c ∷ cs) h = divide_out-parts x s c cs

module _ (x : Gf16) (s : Gf16) (e : Gf16) where
  remainder_of-snoc :
      (cs : List Gf16)
      → 0 < length cs
      → remainder_of x (cs ++ e ∷ []) ≡ add e (mul (remainder_of x cs) x)
  unfolding remainder_of
  remainder_of-snoc [] h = absurd (omega arith)
  remainder_of-snoc (c ∷ cs) h = last_of-snoc x c e cs

  quotient_of-snoc :
      (cs : List Gf16)
      → 0 < length cs
      → quotient_of x s (cs ++ e ∷ []) ≡ quotient_of x s cs ++ mul (remainder_of x cs) s ∷ []
  unfolding quotient_of remainder_of
  quotient_of-snoc [] h = absurd (omega arith)
  quotient_of-snoc (c ∷ cs) h = front_of-snoc x s c e cs

-- The division of `cs` by the difference to `x`.
record Divides (x s : Gf16) (cs : List Gf16) : Type 0 where
  pub rest_small : IsU16 (remainder_of x (reverse cs))
  pub rest_value : el (remainder_of x (reverse cs)) ≡ value cs (el x)
  pub small : All IsU16 (reverse (quotient_of x s (reverse cs)))
  pub count : length (reverse (quotient_of x s (reverse cs))) + 1 ≡ length cs
  pub quotient_value :
      (y : Element) → value (reverse (quotient_of x s (reverse cs))) y ≡ el s ⊗ slope (el x) y cs

quotient_step : (v s y t : Element) → v ⊗ s ⊕ y ⊗ (s ⊗ t) ≡ s ⊗ (v ⊕ y ⊗ t)
quotient_step v s y t = simp field_laws

some_left : (d : Gf16) (cs : List Gf16) → 0 < length (reverse (d ∷ cs))
some_left d cs = rw (reverse-cons d cs) (omega (arith, length-append (reverse cs) (d ∷ [])))

slope-cons :
    (c : Gf16) (cs : List Gf16) (x y : Element) → slope x y (c ∷ cs) ≡ value cs x ⊕ y ⊗ slope x y cs
unfolding slope
slope-cons c cs x y = refl

one_coefficient : (x s c : Gf16) → IsU16 c → Divides x s (c ∷ [])
unfolding last_of front_of remainder_of quotient_of value slope
one_coefficient x s c h = record {
  rest_small = h;
  rest_value = simp field_laws;
  small = tt;
  count = refl;
  quotient_value = λ y. simp field_laws;
}

long_division :
    (x s : Gf16) (c : Gf16) (cs : List Gf16)
    → IsU16 x
    → IsU16 s
    → All IsU16 (c ∷ cs)
    → Divides x s (c ∷ cs)
long_division x s c [] hx hs hc = one_coefficient x s c hc.0
long_division x s c (d ∷ cs) hx hs hc =
    let h = long_division x s d cs hx hs hc.1 in
    let r = remainder_of x (reverse (d ∷ cs)) in
    let turned : reverse (c ∷ d ∷ cs) ≡ reverse (d ∷ cs) ++ c ∷ [] = reverse-cons c (d ∷ cs) in
    let rest : remainder_of x (reverse (c ∷ d ∷ cs)) ≡ add c (mul r x) =
      ap (remainder_of x) turned ∙ remainder_of-snoc x s c (reverse (d ∷ cs)) (some_left d cs) in
    let quotient : reverse (quotient_of x s (reverse (c ∷ d ∷ cs)))
        ≡ mul r s ∷ reverse (quotient_of x s (reverse (d ∷ cs))) =
      ap (λ t. reverse (quotient_of x s t)) turned
      ∙ ap reverse (quotient_of-snoc x s c (reverse (d ∷ cs)) (some_left d cs))
      ∙ reverse-append (quotient_of x s (reverse (d ∷ cs))) (mul r s ∷ []) in
    record {
      rest_small = subst IsU16 (sym rest) (bit_xor-lt 16 c (mul r x) hc.0 (mul-IsU16 r x));
      rest_value =
          ap el rest
          ∙ el-xor c (mul r x)
          ∙ ap (λ t. el c ⊕ t)
              (el-mul r x h.rest_small hx
                ∙ times_comm (el r) (el x)
                ∙ ap (λ t. el x ⊗ t) h.rest_value)
          ∙ sym (value-cons c (d ∷ cs) (el x));
      small = subst (All IsU16) (sym quotient) (mul-IsU16 r s, h.small);
      count = ap (λ t. length t + 1) quotient ∙ omega (arith, h.count);
      quotient_value = λ y.
          ap (λ t. value t y) quotient
          ∙ value-cons (mul r s) (reverse (quotient_of x s (reverse (d ∷ cs)))) y
          ∙ ap (λ t. t ⊕ y ⊗ value (reverse (quotient_of x s (reverse (d ∷ cs)))) y)
              (el-mul r s h.rest_small hs ∙ ap (λ t. t ⊗ el s) h.rest_value)
          ∙ ap (λ t. value (d ∷ cs) (el x) ⊗ el s ⊕ y ⊗ t) (h.quotient_value y)
          ∙ quotient_step (value (d ∷ cs) (el x)) (el s) y (slope (el x) y (d ∷ cs))
          ∙ ap (λ t. el s ⊗ t) (sym (slope-cons c (d ∷ cs) (el x) y));
    }

-- The polynomial of one point, from the template and the scale of the point.
abbrev pub scale_of : List Pt → Pt → Gf16
scale_of pts pi = div_impl pi.y (denominator_of pi.x pts 1)

complete-quotient :
    (c : Gf16) (cs : List Gf16) (pts : List Pt) (pi : Pt)
    → drop 1 (lagrange_interpolate_complete (c ∷ cs) pts pi)
      ≡ reverse (quotient_of pi.x (scale_of pts pi) (reverse (c ∷ cs)))
unfolding lagrange_interpolate_complete
complete-quotient c cs pts pi =
    let s = scale_of pts pi in
    let l = reverse (c ∷ cs) in
    ap (λ t. drop 1 (reverse t)) (from_highest-parts pi.x s l (some_left c cs))
    ∙ ap (drop 1) (reverse-append (quotient_of pi.x s l) (remainder_of pi.x l ∷ []))

-- What the division leaves at the end is the value at the point.
pub complete-rest :
    (c : Gf16) (cs : List Gf16) (pts : List Pt) (pi : Pt)
    → All IsU16 (c ∷ cs)
    → IsU16 pi.x
    → IsU16 (scale_of pts pi)
    → IsU16 (word_at (lagrange_interpolate_complete (c ∷ cs) pts pi) 0)
      × (el (word_at (lagrange_interpolate_complete (c ∷ cs) pts pi) 0) ≡ value (c ∷ cs) (el pi.x))
unfolding lagrange_interpolate_complete
complete-rest c cs pts pi hc hx hs =
    let s = scale_of pts pi in
    let l = reverse (c ∷ cs) in
    let h = long_division pi.x s c cs hx hs hc in
    let e : word_at (reverse (from_highest pi.x s l)) 0 ≡ remainder_of pi.x l =
      ap (λ t. word_at (reverse t) 0) (from_highest-parts pi.x s l (some_left c cs))
      ∙ ap (λ t. word_at t 0) (reverse-append (quotient_of pi.x s l) (remainder_of pi.x l ∷ [])) in
    (subst IsU16 (sym e) h.rest_small, ap el e ∙ h.rest_value)

pub complete-value :
    (c : Gf16) (cs : List Gf16) (pts : List Pt) (pi : Pt) (y : Element)
    → All IsU16 (c ∷ cs)
    → IsU16 pi.x
    → IsU16 (scale_of pts pi)
    → value (drop 1 (lagrange_interpolate_complete (c ∷ cs) pts pi)) y
      ≡ el (scale_of pts pi) ⊗ slope (el pi.x) y (c ∷ cs)
complete-value c cs pts pi y hc hx hs =
    ap (λ t. value t y) (complete-quotient c cs pts pi)
    ∙ (long_division pi.x (scale_of pts pi) c cs hx hs hc).quotient_value y

pub complete-IsU16 :
    (c : Gf16) (cs : List Gf16) (pts : List Pt) (pi : Pt)
    → All IsU16 (c ∷ cs)
    → IsU16 pi.x
    → IsU16 (scale_of pts pi)
    → All IsU16 (drop 1 (lagrange_interpolate_complete (c ∷ cs) pts pi))
complete-IsU16 c cs pts pi hc hx hs =
    subst (All IsU16) (sym (complete-quotient c cs pts pi))
      (long_division pi.x (scale_of pts pi) c cs hx hs hc).small

pub length_complete :
    (c : Gf16) (cs : List Gf16) (pts : List Pt) (pi : Pt)
    → All IsU16 (c ∷ cs)
    → IsU16 pi.x
    → IsU16 (scale_of pts pi)
    → length (drop 1 (lagrange_interpolate_complete (c ∷ cs) pts pi)) ≡ length cs
length_complete c cs pts pi hc hx hs =
    ap length (complete-quotient c cs pts pi)
    ∙ omega (arith, (long_division pi.x (scale_of pts pi) c cs hx hs hc).count)
