-- ===== src/Encoding/Polynomial/Complete/Rounds.antt =====
-- `mult_xdiff` of PolyConst: where the highest coefficient is zero, it is the product with the
-- difference to a place.
use sparse_post_quantum_ratc.Prelude.{
  ℕ, zero, suc, ◌-◌, ◌≤◌, ◌≡◌, refl, ap, ◌∙◌, List, [], ◌∷◌, map, All, length, take, length-take,
  ok, IsU16, arith,
}
use sparse_post_quantum_ratc.Prelude.Xor.{bit_xor-lt}
use sparse_post_quantum_ratc.Encoding.Gf.{Gf16, mul, const_mul}
use sparse_post_quantum_ratc.Encoding.Gf.Laws.{mul-IsU16}
use sparse_post_quantum_ratc.Encoding.Gf.Basis.{Linear-zero}
use sparse_post_quantum_ratc.Encoding.Gf.Assoc.{mul-Linear_left}
use sparse_post_quantum_ratc.Encoding.Gf.Field.{
  Element, el, nought, ◌⊕◌, ◌⊗◌, el-xor, el-mul, field_laws,
}
use sparse_post_quantum_ratc.Encoding.Polynomial.{word_at}
use sparse_post_quantum_ratc.Encoding.Polynomial.Value.{value, value-cons}
use sparse_post_quantum_ratc.Encoding.Polynomial.Complete.{const_subs, mult_xdiff}

-- From place `j` on, all coefficients are zero.
abbrev pub ZerosFrom : ℕ → List Gf16 → Type 0
ZerosFrom j cs = (i : ℕ) → j ≤ i → word_at cs i ≡ 0

subs_step : (x d a b y : Element) → (x ⊕ d) ⊕ y ⊗ (a ⊕ b) ≡ (x ⊕ y ⊗ a) ⊕ (d ⊕ y ⊗ b)
subs_step x d a b y = simp field_laws

const_subs-value :
    (cs ds : List Gf16) (y : Element)
    → length cs ≡ length ds
    → value (const_subs cs ds) y ≡ value cs y ⊕ value ds y
unfolding const_subs value
const_subs-value [] [] y h = simp field_laws
const_subs-value [] (d ∷ ds) y h = absurd (omega (arith, h))
const_subs-value (c ∷ cs) [] y h = absurd (omega (arith, h))
const_subs-value (c ∷ cs) (d ∷ ds) y h =
    ap (λ t. t ⊕ y ⊗ value (const_subs cs ds) y) (el-xor c d)
    ∙ ap (λ t. (el c ⊕ el d) ⊕ y ⊗ t) (const_subs-value cs ds y (omega (arith, h)))
    ∙ subs_step (el c) (el d) (value cs y) (value ds y) y

const_subs-IsU16 : (cs ds : List Gf16) → All IsU16 cs → All IsU16 ds → All IsU16 (const_subs cs ds)
unfolding const_subs
const_subs-IsU16 [] ds hc hd = tt
const_subs-IsU16 (c ∷ cs) [] hc hd = hc
const_subs-IsU16 (c ∷ cs) (d ∷ ds) hc hd =
    (bit_xor-lt 16 c d hc.0 hd.0, const_subs-IsU16 cs ds hc.1 hd.1)

length-const_subs : (cs ds : List Gf16) → length (const_subs cs ds) ≡ length cs
unfolding const_subs
length-const_subs [] ds = refl
length-const_subs (c ∷ cs) [] = refl
length-const_subs (c ∷ cs) (d ∷ ds) = ap suc (length-const_subs cs ds)

const_subs-zero :
    (cs ds : List Gf16) (i : ℕ)
    → word_at cs i ≡ 0
    → word_at ds i ≡ 0
    → word_at (const_subs cs ds) i ≡ 0
unfolding const_subs
const_subs-zero [] ds i hc hd = refl
const_subs-zero (c ∷ cs) [] i hc hd = hc
const_subs-zero (c ∷ cs) (d ∷ ds) zero hc hd = rw (hc, hd)
const_subs-zero (c ∷ cs) (d ∷ ds) (suc i) hc hd = const_subs-zero cs ds i hc hd

scaled_step : (c m y v : Element) → c ⊗ m ⊕ y ⊗ (m ⊗ v) ≡ m ⊗ (c ⊕ y ⊗ v)
scaled_step c m y v = simp field_laws

abbrev pub scaled : Gf16 → List Gf16 → List Gf16
scaled m cs = map (λ c. const_mul c m) cs

pub scaled-value :
    (m : Gf16) (cs : List Gf16) (y : Element)
    → IsU16 m
    → All IsU16 cs
    → value (scaled m cs) y ≡ el m ⊗ value cs y
unfolding value const_mul
scaled-value m [] y hm hc = simp field_laws
scaled-value m (c ∷ cs) y hm hc =
    ap (λ t. t ⊕ y ⊗ value (scaled m cs) y) (el-mul c m hc.0 hm)
    ∙ ap (λ t. el c ⊗ el m ⊕ y ⊗ t) (scaled-value m cs y hm hc.1)
    ∙ scaled_step (el c) (el m) y (value cs y)

pub scaled-IsU16 : (m : Gf16) (cs : List Gf16) → All IsU16 (scaled m cs)
unfolding const_mul
scaled-IsU16 m [] = tt
scaled-IsU16 m (c ∷ cs) = (mul-IsU16 c m, scaled-IsU16 m cs)

pub length-scaled : (m : Gf16) (cs : List Gf16) → length (scaled m cs) ≡ length cs
length-scaled m [] = refl
length-scaled m (c ∷ cs) = ap suc (length-scaled m cs)

zero-mul : (m : Gf16) → mul 0 m ≡ 0
zero-mul m = Linear-zero (λ a. mul a m) (mul-Linear_left m)

scaled-zero : (m : Gf16) (cs : List Gf16) (i : ℕ) → word_at cs i ≡ 0 → word_at (scaled m cs) i ≡ 0
unfolding const_mul
scaled-zero m [] i h = refl
scaled-zero m (c ∷ cs) zero h = rw h (zero-mul m)
scaled-zero m (c ∷ cs) (suc i) h = scaled-zero m cs i h

-- Without its highest coefficient, if that is zero.
take-value :
    (m : ℕ) (cs : List Gf16) (y : Element)
    → length cs ≡ suc m
    → word_at cs m ≡ 0
    → value (take m cs) y ≡ value cs y
unfolding value
take-value m [] y size h = absurd (omega (arith, size))
take-value zero (c ∷ []) y size h = rw h (simp field_laws)
take-value zero (c ∷ d ∷ cs) y size h = absurd (omega (arith, size))
take-value (suc m) (c ∷ cs) y size h =
    ap (λ t. el c ⊕ y ⊗ t) (take-value m cs y (omega (arith, size)) h)

take-zero : (m : ℕ) (cs : List Gf16) (i : ℕ) → word_at cs i ≡ 0 → word_at (take m cs) i ≡ 0
take-zero zero [] i h = refl
take-zero zero (c ∷ cs) i h = refl
take-zero (suc m) [] i h = refl
take-zero (suc m) (c ∷ cs) zero h = h
take-zero (suc m) (c ∷ cs) (suc i) h = take-zero m cs i h

take-IsU16 : (m : ℕ) (cs : List Gf16) → All IsU16 cs → All IsU16 (take m cs)
take-IsU16 zero [] h = tt
take-IsU16 zero (c ∷ cs) h = tt
take-IsU16 (suc m) [] h = tt
take-IsU16 (suc m) (c ∷ cs) h = (h.0, take-IsU16 m cs h.1)

product_step : (y d v : Element) → (nought ⊕ y ⊗ v) ⊕ d ⊗ v ≡ (y ⊕ d) ⊗ v
product_step y d v = simp field_laws

-- `p'` is `p` times the difference to `d`, with as many coefficients.
pub record IsProduct (n j : ℕ) (d : Gf16) (p p' : List Gf16) : Type 0 where
  pub count : length p' ≡ n
  pub zeros : ZerosFrom (suc j) p'
  pub small : All IsU16 p'
  pub values : (y : Element) → value p' y ≡ (y ⊕ el d) ⊗ value p y

abbrev raised : ℕ → List Gf16 → Gf16 → List Gf16
raised m p d = const_subs (0 ∷ take m p) (scaled d p)

raised-IsProduct :
    (m j : ℕ) (p : List Gf16) (d : Gf16)
    → length p ≡ suc m
    → j ≤ m
    → ZerosFrom j p
    → All IsU16 p
    → IsU16 d
    → IsProduct (suc m) j d p (raised m p d)
raised-IsProduct m j p d size le zeros hp hd = record {
  count = omega (arith, length-const_subs (0 ∷ take m p) (scaled d p), length-take m p, size);
  zeros = λ i above.
      const_subs-zero (0 ∷ take m p) (scaled d p) i (shifted i above)
        (scaled-zero d p i (zeros i (omega arith)));
  small =
      const_subs-IsU16 (0 ∷ take m p) (scaled d p) (omega arith, take-IsU16 m p hp)
        (scaled-IsU16 d p);
  values = λ y.
      const_subs-value (0 ∷ take m p) (scaled d p) y
        (omega (arith, length-take m p, length-scaled d p, size))
      ∙ ap (λ t. t ⊕ value (scaled d p) y)
          (value-cons 0 (take m p) y
            ∙ ap (λ t. nought ⊕ y ⊗ t) (take-value m p y size (zeros m le)))
      ∙ ap (λ t. (nought ⊕ y ⊗ value p y) ⊕ t) (scaled-value d p y hd hp)
      ∙ product_step y (el d) (value p y);
}
  where
    shifted : (i : ℕ) → suc j ≤ i → word_at (0 ∷ take m p) i ≡ 0
    shifted zero above = refl
    shifted (suc i) above = take-zero m p i (zeros i (omega arith))

pub mult_xdiff-IsProduct :
    (m j : ℕ) (p : List Gf16) (d : Gf16)
    → length p ≡ suc m
    → j ≤ m
    → ZerosFrom j p
    → All IsU16 p
    → IsU16 d
    → (p' : List Gf16) × (mult_xdiff {E = Unit {0}} (suc m) p d ≡ ok p')
      × IsProduct (suc m) j d p p'
unfolding mult_xdiff
mult_xdiff-IsProduct m j p d size le zeros hp hd =
    let e : suc m - 1 ≡ m = omega arith in
    let z : word_at p m ≡ 0 = zeros m le in
    (raised m p d, rw (e, z), raised-IsProduct m j p d size le zeros hp hd)
