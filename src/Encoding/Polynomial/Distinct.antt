-- ===== src/Encoding/Polynomial/Distinct.antt =====
-- Points with different places: the product of the differences to the other points, which
-- `denominator_of` computes, and the slope of the polynomial that is zero at all of them.
use mathlib.Core.List.{List}
use native.Mathlib.Decide.{ℕ_discrete}
use sparse_post_quantum_ratc.Prelude.{
  ℕ, ◌≡◌, ◌≢◌, ◌⊎◌, inl, inr, sym, ap, subst, ◌∙◌, [], ◌∷◌, All, true, false, Bool-cases, ◌==◌,
  if◌then◌else◌, IsU16, arith,
}
use sparse_post_quantum_ratc.Prelude.Xor.{bit_xor-lt}
use sparse_post_quantum_ratc.Encoding.Gf.{Gf16, mul, sub}
use sparse_post_quantum_ratc.Encoding.Gf.Laws.{mul-IsU16}
use sparse_post_quantum_ratc.Encoding.Gf.Field.{
  Element, el, el_num, nought, one, ◌⊕◌, ◌⊗◌, el-xor, el-mul, field_laws, times-nought, plus_cancel,
  plus-nought, times-one, one-times, times_assoc,
}
use sparse_post_quantum_ratc.Encoding.Gf.Inverse.{no_zero_divisors}
use sparse_post_quantum_ratc.Encoding.Polynomial.{Pt, mult_xdiff_windows, denominator_of}
use sparse_post_quantum_ratc.Encoding.Polynomial.Value.{value}
use sparse_post_quantum_ratc.Encoding.Polynomial.Roots.{
  IsPt, slope, windows-value, windows-slope, with_roots, windows-IsU16,
}

abbrev pub Fresh : Gf16 → List Pt → Type 0
Fresh x ps = All (λ (p : Pt). x ≢ p.x) ps

abbrev pub AreDistinct : List Pt → Type 0
AreDistinct [] = Unit {0}
AreDistinct (p ∷ ps) = Fresh p.x ps × AreDistinct ps

-- Some point stands at `x`.
abbrev pub Occurs : Gf16 → List Pt → Type 0
Occurs x [] = ⊥
Occurs x (p ∷ ps) = (x ≡ p.x) ⊎ Occurs x ps

root_step : (y d v : Element) → (nought ⊕ y ⊗ v) ⊕ d ⊗ v ≡ (y ⊕ d) ⊗ v
root_step y d v = simp field_laws

root_slope_step : (y d v s : Element) → (v ⊕ y ⊗ s) ⊕ d ⊗ s ≡ v ⊕ (y ⊕ d) ⊗ s
root_slope_step y d v s = simp field_laws

root-value :
    (d : Gf16) (q : List Gf16) (y : Element)
    → IsU16 d
    → All IsU16 q
    → value (mult_xdiff_windows d (0 ∷ q)) y ≡ (y ⊕ el d) ⊗ value q y
root-value d q y hd hq =
    windows-value d (0 ∷ q) y hd (omega arith, hq)
    ∙ (unfold value in root_step y (el d) (value q y))

root-slope :
    (d : Gf16) (q : List Gf16) (x y : Element)
    → IsU16 d
    → All IsU16 q
    → slope x y (mult_xdiff_windows d (0 ∷ q)) ≡ value q x ⊕ (y ⊕ el d) ⊗ slope x y q
root-slope d q x y hd hq =
    windows-slope d (0 ∷ q) x y hd (omega arith, hq)
    ∙ (unfold slope in root_slope_step y (el d) (value q x) (slope x y q))

unfoldable pub others : Gf16 → List Pt → Element
others x [] = one
others x (p ∷ ps) = if x == p.x then others x ps else (el x ⊕ el p.x) ⊗ others x ps

pub others-same : (x : Gf16) (p : Pt) (ps : List Pt) → x ≡ p.x → others x (p ∷ ps) ≡ others x ps
unfolding others
others-same x p ps h = let e : (x == p.x) ≡ true = ground (arith, h) in rw (others, e)

pub others-new :
    (x : Gf16) (p : Pt) (ps : List Pt) → x ≢ p.x → others x (p ∷ ps) ≡ (el x ⊕ el p.x) ⊗ others x ps
unfolding others
others-new x p ps h = let e : (x == p.x) ≡ false = ground (arith, h) in rw (others, e)

pub denominator-others :
    (x d : Gf16) (ps : List Pt)
    → IsU16 x
    → IsU16 d
    → All IsPt ps
    → IsU16 (denominator_of x ps d) × (el (denominator_of x ps d) ≡ el d ⊗ others x ps)
unfolding denominator_of others
denominator-others x d [] hx hd hp = (hd, sym (times-one (el d)))
denominator-others x d (p ∷ ps) hx hd hp = elim (Bool-cases (x == p.x)) [
  | inl e ↦ rw e (denominator-others x d ps hx hd hp.1)
  | inr e ↦
      let t = sub x p.x in
      let ht : IsU16 t = bit_xor-lt 16 x p.x hx hp.0.0 in
      let (small, same) = denominator-others x (mul d t) ps hx (mul-IsU16 d t) hp.1 in
      let whole : el (denominator_of x ps (mul d t)) ≡ el d ⊗ ((el x ⊕ el p.x) ⊗ others x ps) =
        same
        ∙ ap (λ t. t ⊗ others x ps) (el-mul d t hd ht ∙ ap (λ t. el d ⊗ t) (el-xor x p.x))
        ∙ times_assoc (el d) (el x ⊕ el p.x) (others x ps) in
      rw e (small, whole)
]

pub different : (x y : Gf16) → IsU16 x → IsU16 y → x ≢ y → el x ⊕ el y ≢ nought
different x y hx hy ne e =
    let f : el y ≡ el x =
      sym (plus_cancel (el x) (el y)) ∙ ap (λ t. el x ⊕ t) e ∙ plus-nought (el x) in
    ne (sym (el_num x hx) ∙ sym (ap (λ t. t.0) f) ∙ el_num y hy)

one-ne-nought : one ≢ nought
unfolding el
one-ne-nought e = let f : ◌≡◌ {A = ℕ} 1 0 = ap (λ t. t.0) e in absurd (omega (arith, f))

pub others-ne-nought : (x : Gf16) (ps : List Pt) → IsU16 x → All IsPt ps → others x ps ≢ nought
unfolding others
others-ne-nought x [] hx hp = one-ne-nought
others-ne-nought x (p ∷ ps) hx hp = elim (ℕ_discrete x p.x) [
  | yes e ↦ λ h. others-ne-nought x ps hx hp.1 (sym (others-same x p ps e) ∙ h)
  | no ne ↦ λ h. different x p.x hx hp.0.0 ne (
      no_zero_divisors (el x ⊕ el p.x) (others x ps) (sym (others-new x p ps ne) ∙ h)
        (others-ne-nought x ps hx hp.1))
]

pub Fresh-ne : (x y : Gf16) (ps : List Pt) → Fresh y ps → Occurs x ps → x ≢ y
Fresh-ne x y [] fresh h = absurd h
Fresh-ne x y (p ∷ ps) fresh (inl e) = λ f. fresh.0 (sym f ∙ e)
Fresh-ne x y (p ∷ ps) fresh (inr h) = Fresh-ne x y ps fresh.1 h

same_times : (x v : Element) → (x ⊕ x) ⊗ v ≡ nought
same_times x v = simp field_laws

same_slope : (x v s : Element) → v ⊕ (x ⊕ x) ⊗ s ≡ v
same_slope x v s = simp field_laws

fresh_step : (o d s : Element) → o ⊗ (nought ⊕ d ⊗ s) ≡ (d ⊗ o) ⊗ s
fresh_step o d s = simp field_laws

passed_step : (o d v : Element) → o ⊗ (d ⊗ v) ≡ (d ⊗ o) ⊗ v
passed_step o d v = simp field_laws

module _ (x : Gf16) (hx : IsU16 x) where
  at_root :
      (p : Pt) (q : List Gf16)
      → IsPt p
      → All IsU16 q
      → x ≡ p.x
      → value (mult_xdiff_windows p.x (0 ∷ q)) (el x) ≡ nought
  at_root p q hp hq e =
      root-value p.x q (el x) hp.0 hq
      ∙ ap (λ t. (el x ⊕ el t) ⊗ value q (el x)) (sym e)
      ∙ same_times (el x) (value q (el x))

  kept_root :
      (p : Pt) (q : List Gf16)
      → IsPt p
      → All IsU16 q
      → value q (el x) ≡ nought
      → value (mult_xdiff_windows p.x (0 ∷ q)) (el x) ≡ nought
  kept_root p q hp hq e =
      root-value p.x q (el x) hp.0 hq
      ∙ ap (λ t. (el x ⊕ el p.x) ⊗ t) e
      ∙ times-nought (el x ⊕ el p.x)

  next_small :
      (p : Pt) (q : List Gf16) → IsPt p → All IsU16 q → All IsU16 (mult_xdiff_windows p.x (0 ∷ q))
  next_small p q hp hq = windows-IsU16 p.x (0 ∷ q) hp.0 (omega arith, hq)

  keeps_root :
      (ps : List Pt) (q : List Gf16)
      → All IsPt ps
      → All IsU16 q
      → value q (el x) ≡ nought
      → value (with_roots ps q) (el x) ≡ nought
  unfolding with_roots
  keeps_root [] q hp hq h = h
  keeps_root (p ∷ ps) q hp hq h =
      keeps_root ps (mult_xdiff_windows p.x (0 ∷ q)) hp.1 (next_small p q hp.0 hq)
        (kept_root p q hp.0 hq h)

  -- Each of the points is a root.
  pub with_roots-value :
      (ps : List Pt) (q : List Gf16)
      → All IsPt ps
      → All IsU16 q
      → Occurs x ps
      → value (with_roots ps q) (el x) ≡ nought
  unfolding with_roots
  with_roots-value [] q hp hq h = absurd h
  with_roots-value (p ∷ ps) q hp hq (inl e) =
      keeps_root ps (mult_xdiff_windows p.x (0 ∷ q)) hp.1 (next_small p q hp.0 hq)
        (at_root p q hp.0 hq e)
  with_roots-value (p ∷ ps) q hp hq (inr h) =
      with_roots-value ps (mult_xdiff_windows p.x (0 ∷ q)) hp.1 (next_small p q hp.0 hq) h

  Fresh-slope :
      (ps : List Pt) (q : List Gf16)
      → All IsPt ps
      → All IsU16 q
      → Fresh x ps
      → value q (el x) ≡ nought
      → slope (el x) (el x) (with_roots ps q) ≡ others x ps ⊗ slope (el x) (el x) q
  unfolding with_roots others
  Fresh-slope [] q hp hq fresh h = sym (one-times (slope (el x) (el x) q))
  Fresh-slope (p ∷ ps) q hp hq fresh h =
      let s = slope (el x) (el x) q in
      Fresh-slope ps (mult_xdiff_windows p.x (0 ∷ q)) hp.1 (next_small p q hp.0 hq) fresh.1
        (kept_root p q hp.0 hq h)
      ∙ ap (λ t. others x ps ⊗ t)
          (root-slope p.x q (el x) (el x) hp.0.0 hq ∙ ap (λ t. t ⊕ (el x ⊕ el p.x) ⊗ s) h)
      ∙ fresh_step (others x ps) (el x ⊕ el p.x) s
      ∙ ap (λ t. t ⊗ s) (sym (others-new x p ps fresh.0))

  -- At one of several different points, the slope is the product of the differences to the others.
  pub with_roots-slope :
      (ps : List Pt) (q : List Gf16)
      → All IsPt ps
      → All IsU16 q
      → AreDistinct ps
      → Occurs x ps
      → slope (el x) (el x) (with_roots ps q) ≡ others x ps ⊗ value q (el x)
  unfolding with_roots
  with_roots-slope [] q hp hq distinct h = absurd h
  with_roots-slope (p ∷ ps) q hp hq distinct (inl e) =
      let v = value q (el x) in
      let s = slope (el x) (el x) q in
      Fresh-slope ps (mult_xdiff_windows p.x (0 ∷ q)) hp.1 (next_small p q hp.0 hq)
        (subst (λ t. Fresh t ps) (sym e) distinct.0) (at_root p q hp.0 hq e)
      ∙ ap (λ t. others x ps ⊗ t)
          (root-slope p.x q (el x) (el x) hp.0.0 hq
            ∙ ap (λ t. v ⊕ (el x ⊕ el t) ⊗ s) (sym e)
            ∙ same_slope (el x) v s)
      ∙ ap (λ t. t ⊗ v) (sym (others-same x p ps e))
  with_roots-slope (p ∷ ps) q hp hq distinct (inr h) =
      let v = value q (el x) in
      with_roots-slope ps (mult_xdiff_windows p.x (0 ∷ q)) hp.1 (next_small p q hp.0 hq) distinct.1
        h
      ∙ ap (λ t. others x ps ⊗ t) (root-value p.x q (el x) hp.0.0 hq)
      ∙ passed_step (others x ps) (el x ⊕ el p.x) v
      ∙ ap (λ t. t ⊗ v) (sym (others-new x p ps (Fresh-ne x p.x ps distinct.0 h)))
