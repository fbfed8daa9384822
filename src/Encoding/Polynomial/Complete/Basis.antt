-- ===== src/Encoding/Polynomial/Complete/Basis.antt =====
-- PolyConst::lagrange_interpolate_pt and Poly::lagrange_interpolate_pt on points with the value 1: the
-- polynomial that is 1 at one of the points and 0 at the others.
use native.Mathlib.Decide.{ℕ_discrete}
use sparse_post_quantum_ratc.Prelude.{
  ℕ, suc, ◌+◌, ◌<◌, ◌≤◌, ◌≡◌, ◌≢◌, refl, sym, ap, ◌∙◌, List, [], ◌∷◌, All, length, true, false,
  ◌==◌, if◌then◌else◌, inl, inr, ok, IsU16, arith,
}
use sparse_post_quantum_ratc.Prelude.Xor.{bit_xor-lt}
use sparse_post_quantum_ratc.Encoding.Gf.{Gf16, mul, sub, const_mul, const_sub}
use sparse_post_quantum_ratc.Encoding.Gf.Laws.{mul-IsU16}
use sparse_post_quantum_ratc.Encoding.Gf.Field.{
  Element, el, nought, one, ◌⊕◌, ◌⊗◌, el-xor, el-mul, field_laws, times-nought, times-one,
  one-times, times_assoc,
}
use sparse_post_quantum_ratc.Encoding.Polynomial.{Pt}
use sparse_post_quantum_ratc.Encoding.Polynomial.Value.{value}
use sparse_post_quantum_ratc.Encoding.Polynomial.Roots.{IsPt}
use sparse_post_quantum_ratc.Encoding.Polynomial.Distinct.{Occurs, others, others-same, others-new}
use sparse_post_quantum_ratc.Encoding.Polynomial.Complete.{const_pt_rounds}
use sparse_post_quantum_ratc.Encoding.Polynomial.Complete.Rounds.{
  ZerosFrom, IsProduct, mult_xdiff-IsProduct,
}

-- The product of the differences of `y` to the points at another place than `x`.
unfoldable pub factors : Gf16 → List Pt → Element → Element
factors x [] y = one
factors x (p ∷ ps) y = if x == p.x then factors x ps y else (y ⊕ el p.x) ⊗ factors x ps y

-- How many there are.
abbrev pub differing : Gf16 → List Pt → ℕ
differing x [] = 0
differing x (p ∷ ps) = if x == p.x then differing x ps else suc (differing x ps)

differing_short : (x : Gf16) (ps : List Pt) → differing x ps ≤ length ps
differing_short x [] = omega arith
differing_short x (p ∷ ps) = let rest = differing_short x ps in ground arith

pub differing-lt : (x : Gf16) (ps : List Pt) → Occurs x ps → differing x ps < length ps
differing-lt x [] h = absurd h
differing-lt x (p ∷ ps) (inl e) = let rest = differing_short x ps in ground arith
differing-lt x (p ∷ ps) (inr h) = let rest = differing-lt x ps h in ground arith

pub factors-others : (x : Gf16) (ps : List Pt) → factors x ps (el x) ≡ others x ps
unfolding factors others
factors-others x [] = refl
factors-others x (p ∷ ps) = rw (factors-others x ps)

factors-same :
    (x : Gf16) (p : Pt) (ps : List Pt) (y : Element)
    → x ≡ p.x
    → factors x (p ∷ ps) y ≡ factors x ps y
unfolding factors
factors-same x p ps y h = let e : (x == p.x) ≡ true = ground (arith, h) in rw (factors, e)

factors-new :
    (x : Gf16) (p : Pt) (ps : List Pt) (y : Element)
    → x ≢ p.x
    → factors x (p ∷ ps) y ≡ (y ⊕ el p.x) ⊗ factors x ps y
unfolding factors
factors-new x p ps y h = let e : (x == p.x) ≡ false = ground (arith, h) in rw (factors, e)

same_times : (x v : Element) → (x ⊕ x) ⊗ v ≡ nought
same_times x v = simp field_laws

pub factors_elsewhere :
    (x z : Gf16) (ps : List Pt) → Occurs z ps → x ≢ z → factors x ps (el z) ≡ nought
factors_elsewhere x z [] h ne = absurd h
factors_elsewhere x z (p ∷ ps) (inl e) ne =
    factors-new x p ps (el z) (λ f. ne (f ∙ sym e))
    ∙ ap (λ t. (el z ⊕ el t) ⊗ factors x ps (el z)) (sym e)
    ∙ same_times (el z) (factors x ps (el z))
factors_elsewhere x z (p ∷ ps) (inr h) ne = elim (ℕ_discrete x p.x) [
  | yes e ↦ factors-same x p ps (el z) e ∙ factors_elsewhere x z ps h ne
  | no other ↦
      factors-new x p ps (el z) other
      ∙ ap (λ t. (el z ⊕ el p.x) ⊗ t) (factors_elsewhere x z ps h ne)
      ∙ times-nought (el z ⊕ el p.x)
]

-- What the rounds return.
pub record Rounded (n : ℕ) (x : Gf16) (ps : List Pt) (p : List Gf16) (d : Gf16)
    (r : List Gf16 × Gf16) : Type 0 where
  pub count : length r.0 ≡ n
  pub small : All IsU16 r.0
  pub values : (y : Element) → value r.0 y ≡ factors x ps y ⊗ value p y
  pub divisor_small : IsU16 r.1
  pub divisor : el r.1 ≡ el d ⊗ others x ps

same-Rounded :
    (n : ℕ) (x : Gf16) (q : Pt) (ps : List Pt) (p : List Gf16) (d : Gf16) (r : List Gf16 × Gf16)
    → x ≡ q.x
    → Rounded n x ps p d r
    → Rounded n x (q ∷ ps) p d r
same-Rounded n x q ps p d r e h = record {
  count = h.count;
  small = h.small;
  values = λ y. h.values y ∙ ap (λ t. t ⊗ value p y) (sym (factors-same x q ps y e));
  divisor_small = h.divisor_small;
  divisor = h.divisor ∙ ap (λ t. el d ⊗ t) (sym (others-same x q ps e));
}

passed_step : (f d v : Element) → f ⊗ (d ⊗ v) ≡ (d ⊗ f) ⊗ v
passed_step f d v = simp field_laws

new-Rounded :
    (n j : ℕ) (x : Gf16) (q : Pt) (ps : List Pt) (p p' : List Gf16) (d : Gf16)
    (r : List Gf16 × Gf16)
    → IsU16 x
    → IsU16 q.x
    → IsU16 d
    → x ≢ q.x
    → IsProduct n j q.x p p'
    → Rounded n x ps p' (mul d (sub x q.x)) r
    → Rounded n x (q ∷ ps) p d r
new-Rounded n j x q ps p p' d r hx hq hd ne product h = record {
  count = h.count;
  small = h.small;
  values = λ y.
      h.values y
      ∙ ap (λ t. factors x ps y ⊗ t) (product.values y)
      ∙ passed_step (factors x ps y) (y ⊕ el q.x) (value p y)
      ∙ ap (λ t. t ⊗ value p y) (sym (factors-new x q ps y ne));
  divisor_small = h.divisor_small;
  divisor =
      h.divisor
      ∙ ap (λ t. t ⊗ others x ps)
          (el-mul d (sub x q.x) hd (bit_xor-lt 16 x q.x hx hq) ∙ ap (λ t. el d ⊗ t) (el-xor x q.x))
      ∙ times_assoc (el d) (el x ⊕ el q.x) (others x ps)
      ∙ ap (λ t. el d ⊗ t) (sym (others-new x q ps ne));
}

pub const_pt_rounds-Rounded :
    (m j : ℕ) (x : Gf16) (ps : List Pt) (p : List Gf16) (d : Gf16)
    → IsU16 x
    → All IsPt ps
    → length p ≡ suc m
    → ZerosFrom j p
    → j + differing x ps ≤ suc m
    → All IsU16 p
    → IsU16 d
    → (r : List Gf16 × Gf16) × (const_pt_rounds {E = Unit {0}} (suc m) x ps p d ≡ ok r)
      × Rounded (suc m) x ps p d r
unfolding const_pt_rounds const_mul factors others
const_pt_rounds-Rounded m j x [] p d hx hp size zeros le small hd = (
  (p, d),
  refl,
  record {
    count = size;
    small = small;
    values = λ y. sym (one-times (value p y));
    divisor_small = hd;
    divisor = sym (times-one (el d));
  },
)
const_pt_rounds-Rounded m j x (q ∷ ps) p d hx hp size zeros le small hd = elim (ℕ_discrete x q.x) [
  | yes e ↦
      let f : (x == q.x) ≡ true = ground (arith, e) in
      let less : differing x (q ∷ ps) ≡ differing x ps = rw f in
      let (r, ran, done) =
        const_pt_rounds-Rounded m j x ps p d hx hp.1 size zeros (omega (arith, less)) small hd in
      (r, rw f ran, same-Rounded (suc m) x q ps p d r e done)
  | no ne ↦
      let f : (x == q.x) ≡ false = ground (arith, ne) in
      let more : differing x (q ∷ ps) ≡ suc (differing x ps) = rw f in
      let (p', step, product) =
        mult_xdiff-IsProduct m j p q.x size (omega (arith, more)) zeros small hp.0.0 in
      let t = const_sub x q.x in
      let (r, ran, done) =
        const_pt_rounds-Rounded m (suc j) x ps p' (mul d t) hx hp.1 product.count product.zeros
          (omega (arith, more)) product.small (mul-IsU16 d t) in
      (r, rw (f, step) ran, new-Rounded (suc m) j x q ps p p' d r hx hp.0.0 hd ne product done)
]

-- The polynomial that is 1 at the point of `x` and 0 at the others.
pub record IsUnit (ones : List Pt) (x : Gf16) (cs : List Gf16) : Type 0 where
  pub short : length cs ≤ length ones
  pub small : All IsU16 cs
  pub own : value cs (el x) ≡ one
  pub elsewhere : (z : Gf16) → IsU16 z → Occurs z ones → z ≢ x → value cs (el z) ≡ nought
