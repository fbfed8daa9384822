-- ===== src/Encoding/Polynomial/Asserts.antt =====
-- The debug assertions at the ends of lagrange_interpolate_prepare and lagrange_interpolate_complete in
-- src/encoding/polynomial.rs.
use sparse_post_quantum_ratc.Prelude.{
  ℕ, zero, suc, ◌+◌, ◌≡◌, refl, sym, ap, subst, ◌∙◌, List, [], ◌∷◌, All, length, IsU16, arith,
}
use sparse_post_quantum_ratc.Encoding.Gf.{Gf16}
use sparse_post_quantum_ratc.Encoding.Gf.Field.{el, el_num, nought}
use sparse_post_quantum_ratc.Encoding.Polynomial.{
  Pt, word_at, mult_xdiff_windows, lagrange_interpolate_prepare, lagrange_interpolate_complete,
}
use sparse_post_quantum_ratc.Encoding.Polynomial.Value.{value}
use sparse_post_quantum_ratc.Encoding.Polynomial.Roots.{
  IsPt, with_roots, prepare-with_roots, length-windows,
}
use sparse_post_quantum_ratc.Encoding.Polynomial.Division.{complete-rest}
use sparse_post_quantum_ratc.Encoding.Polynomial.Distinct.{Occurs, with_roots-value}
use sparse_post_quantum_ratc.Encoding.Polynomial.Interpolate.{
  with_roots-cons, template-IsU16, scale-IsU16,
}

windows_highest :
    (d : Gf16) (q : List Gf16) (n : ℕ)
    → length q ≡ suc n
    → word_at (mult_xdiff_windows d q) n ≡ word_at q n
unfolding mult_xdiff_windows
windows_highest d [] n size = absurd (omega (arith, size))
windows_highest d (c ∷ []) zero size = refl
windows_highest d (c ∷ []) (suc n) size = absurd (omega (arith, size))
windows_highest d (c ∷ k ∷ q) zero size = absurd (omega (arith, size))
windows_highest d (c ∷ k ∷ q) (suc n) size = windows_highest d (k ∷ q) n (omega (arith, size))

with_roots_highest :
    (ps : List Pt) (q : List Gf16) (n : ℕ)
    → length q ≡ suc n
    → word_at (with_roots ps q) (length ps + n) ≡ word_at q n
unfolding with_roots
with_roots_highest [] q n size = let e : 0 + n ≡ n = omega arith in rw e refl
with_roots_highest (p ∷ ps) q n size =
    let e : suc (length ps) + n ≡ length ps + suc n = omega arith in
    let r = mult_xdiff_windows p.x (0 ∷ q) in
    ap (word_at (with_roots ps r)) e
    ∙ with_roots_highest ps r (suc n) (omega (arith, length-windows p.x (0 ∷ q), size))
    ∙ windows_highest p.x (0 ∷ q) (suc n) (omega (arith, size))

-- The highest coefficient of the template is 1.
pub prepare_highest : (pts : List Pt) → word_at (lagrange_interpolate_prepare pts) (length pts) ≡ 1
prepare_highest pts =
    let e : length pts ≡ length pts + 0 = omega arith in
    ap (λ t. word_at t (length pts)) (prepare-with_roots pts)
    ∙ ap (word_at (with_roots pts (1 ∷ []))) e
    ∙ with_roots_highest pts (1 ∷ []) 0 refl

-- The division by the difference to one of the points leaves no remainder.
pub complete_remainder :
    (pts : List Pt) (pi : Pt)
    → All IsPt pts
    → IsPt pi
    → Occurs pi.x pts
    → word_at (lagrange_interpolate_complete (lagrange_interpolate_prepare pts) pts pi) 0 ≡ 0
unfolding el
complete_remainder pts pi hp h inside =
    let (c, cs, e) = with_roots-cons pts 1 [] in
    let f : lagrange_interpolate_prepare pts ≡ c ∷ cs = prepare-with_roots pts ∙ e in
    let (small, rest) =
      complete-rest c cs pts pi (subst (All IsU16) e (template-IsU16 pts hp)) h.0
        (scale-IsU16 pts hp pi h) in
    let root : value (c ∷ cs) (el pi.x) ≡ nought =
      ap (λ t. value t (el pi.x)) (sym e)
      ∙ with_roots-value pi.x h.0 pts (1 ∷ []) hp (omega arith, tt) inside in
    ap (λ t. word_at (lagrange_interpolate_complete t pts pi) 0) f
    ∙ sym (el_num (word_at (lagrange_interpolate_complete (c ∷ cs) pts pi) 0) small)
    ∙ ap (λ t. t.0) (rest ∙ root)
