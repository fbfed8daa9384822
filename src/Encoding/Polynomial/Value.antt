-- ===== src/Encoding/Polynomial/Value.antt =====
-- The value of a polynomial, by its coefficients from the lowest one up, and `compute_at`, which works
-- by a table of powers.
use sparse_post_quantum_ratc.Prelude.{
  ℕ, zero, suc, ◌+◌, ◌-◌, ◌/◌, ◌%◌, ◌<◌, ◌≤◌, ◌≡◌, refl, sym, ap, ◌∙◌, List, [], ◌∷◌, ◌++◌, All,
  length, length-append, IsU16, arith,
}
use sparse_post_quantum_ratc.Prelude.Xor.{bit_xor-lt}
use sparse_post_quantum_ratc.Encoding.Gf.{Gf16, mul, add}
use sparse_post_quantum_ratc.Encoding.Gf.Laws.{mul-IsU16}
use sparse_post_quantum_ratc.Encoding.Gf.Field.{
  Element, el, nought, one, ◌⊕◌, ◌⊗◌, el-xor, el-mul, field_laws, plus-nought, nought-plus,
  times_assoc, one-times, times-one,
}
use sparse_post_quantum_ratc.Encoding.Polynomial.{
  Poly, add_assign, word_at, powers_rounds, sum_products, compute_at,
}

unfoldable pub value : List Gf16 → Element → Element
value [] x = nought
value (c ∷ cs) x = el c ⊕ x ⊗ value cs x

pub value-cons :
    (c : Gf16) (cs : List Gf16) (x : Element) → value (c ∷ cs) x ≡ el c ⊕ x ⊗ value cs x
unfolding value
value-cons c cs x = refl

pub value-add_assign :
    (cs ds : List Gf16) (x : Element) → value (add_assign cs ds) x ≡ value cs x ⊕ value ds x
unfolding value add_assign
value-add_assign cs [] x = sym (plus-nought (value cs x))
value-add_assign [] (d ∷ ds) x = sym (nought-plus (value (d ∷ ds) x))
value-add_assign (c ∷ cs) (d ∷ ds) x = simp (value-add_assign cs ds x, el-xor) (simp field_laws)

pub add_assign-IsU16 :
    (cs ds : List Gf16) → All IsU16 cs → All IsU16 ds → All IsU16 (add_assign cs ds)
unfolding add_assign
add_assign-IsU16 cs [] hc hd = hc
add_assign-IsU16 [] (d ∷ ds) hc hd = hd
add_assign-IsU16 (c ∷ cs) (d ∷ ds) hc hd =
    (bit_xor-lt 16 c d hc.0 hd.0, add_assign-IsU16 cs ds hc.1 hd.1)

pub length-add_assign :
    (cs ds : List Gf16) (n : ℕ) → length cs ≤ n → length ds ≤ n → length (add_assign cs ds) ≤ n
unfolding add_assign
length-add_assign cs [] n hc hd = hc
length-add_assign [] (d ∷ ds) n hc hd = hd
length-add_assign (c ∷ cs) (d ∷ ds) zero hc hd = absurd (omega arith)
length-add_assign (c ∷ cs) (d ∷ ds) (suc n) hc hd =
    omega (arith, length-add_assign cs ds n (omega arith) (omega arith))

unfoldable pub power : Element → ℕ → Element
power x zero = one
power x (suc n) = x ⊗ power x n

power-add : (x : Element) (m n : ℕ) → power x (m + n) ≡ power x m ⊗ power x n
unfolding power
power-add x zero n = let e : 0 + n ≡ n = omega arith in rw e (sym (one-times (power x n)))
power-add x (suc m) n =
    let e : suc m + n ≡ suc (m + n) = omega arith in
    rw (e, power-add x m n) (sym (times_assoc x (power x m) (power x n)))

-- The numbers are the powers of `x` from the one of `j` on.
abbrev PowersFrom : Element → ℕ → List Gf16 → Type 0
PowersFrom x j [] = Unit {0}
PowersFrom x j (p ∷ ps) = IsU16 p × (el p ≡ power x j) × PowersFrom x (suc j) ps

PowersFrom-append :
    (x : Element) (j p : ℕ) (ps : List Gf16)
    → PowersFrom x j ps
    → IsU16 p
    → el p ≡ power x (j + length ps)
    → PowersFrom x j (ps ++ p ∷ [])
PowersFrom-append x j p [] h small e =
    let f : j + 0 ≡ j = omega arith in (small, e ∙ ap (power x) f, tt)
PowersFrom-append x j p (q ∷ ps) h small e =
    let f : j + suc (length ps) ≡ suc j + length ps = omega arith in
    (h.0, h.1, PowersFrom-append x (suc j) p ps h.2 small (e ∙ ap (power x) f))

PowersFrom-word_at :
    (x : Element) (j k : ℕ) (ps : List Gf16)
    → PowersFrom x j ps
    → k < length ps
    → IsU16 (word_at ps k) × (el (word_at ps k) ≡ power x (j + k))
PowersFrom-word_at x j k [] h lt = absurd (omega arith)
PowersFrom-word_at x j zero (p ∷ ps) h lt =
    let f : j + 0 ≡ j = omega arith in (h.0, h.1 ∙ ap (power x) (sym f))
PowersFrom-word_at x j (suc k) (p ∷ ps) h lt =
    let f : suc j + k ≡ j + suc k = omega arith in
    let (small, e) = PowersFrom-word_at x (suc j) k ps h.2 (omega arith) in
    (small, e ∙ ap (power x) f)

powers_rounds-PowersFrom :
    (x : Element) (n i : ℕ) (ps : List Gf16)
    → 2 ≤ i
    → length ps ≡ i
    → PowersFrom x 0 ps
    → PowersFrom x 0 (powers_rounds n i ps) × (length (powers_rounds n i ps) ≡ i + n)
unfolding powers_rounds
powers_rounds-PowersFrom x zero i ps two size h = (h, omega (arith, size))
powers_rounds-PowersFrom x (suc n) i ps two size h =
    let (sa, ea) = PowersFrom-word_at x 0 (i / 2) ps h (omega arith) in
    let (sb, eb) = PowersFrom-word_at x 0 (i / 2 + i % 2) ps h (omega arith) in
    let a = word_at ps (i / 2) in
    let b = word_at ps (i / 2 + i % 2) in
    let whole : (0 + i / 2) + (0 + (i / 2 + i % 2)) ≡ 0 + length ps = omega (arith, size) in
    let e : el (mul a b) ≡ power x (0 + length ps) =
      el-mul a b sa sb
      ∙ rw (ea, eb) (sym (power-add x (0 + i / 2) (0 + (i / 2 + i % 2))))
      ∙ ap (power x) whole in
    let more = PowersFrom-append x 0 (mul a b) ps h (mul-IsU16 a b) e in
    let (done, long) =
      powers_rounds-PowersFrom x n (i + 1) (ps ++ mul a b ∷ []) (omega arith)
        (omega (arith, length-append ps (mul a b ∷ []), size)) more in
    (done, omega (arith, long))

horner : (o c p x v : Element) → (o ⊕ c ⊗ p) ⊕ (x ⊗ p) ⊗ v ≡ o ⊕ p ⊗ (c ⊕ x ⊗ v)
horner o c p x v = simp field_laws

sum_products-value :
    (x : Element) (j : ℕ) (cs ps : List Gf16) (out : Gf16)
    → All IsU16 cs
    → PowersFrom x j ps
    → length cs ≤ length ps
    → el (sum_products cs ps out) ≡ el out ⊕ power x j ⊗ value cs x
unfolding sum_products value power
sum_products-value x j [] ps out hc hp le = simp field_laws
sum_products-value x j (c ∷ cs) [] out hc hp le = absurd (omega arith)
sum_products-value x j (c ∷ cs) (p ∷ ps) out hc hp le =
    sum_products-value x (suc j) cs ps (add out (mul c p)) hc.1 hp.2 (omega arith)
    ∙ ap (λ t. t ⊕ (x ⊗ power x j) ⊗ value cs x)
        (el-xor out (mul c p)
          ∙ ap (λ t. el out ⊕ t) (el-mul c p hc.0 hp.0 ∙ ap (λ t. el c ⊗ t) hp.1))
    ∙ horner (el out) (el c) (power x j) x (value cs x)

pub compute_at-value :
    (p : Poly) (x : Gf16)
    → All IsU16 p.coefficients
    → IsU16 x
    → el (compute_at p x) ≡ value p.coefficients (el x)
unfolding compute_at power
compute_at-value p x hc hx =
    let n = length p.coefficients in
    let (powers, long) =
      powers_rounds-PowersFrom (el x) (n - 2) 2 (1 ∷ x ∷ []) (omega arith) refl
        (omega arith, refl, (hx, sym (times-one (el x)), tt)) in
    sum_products-value (el x) 0 p.coefficients (powers_rounds (n - 2) 2 (1 ∷ x ∷ [])) 0 hc powers
      (omega (arith, long))
    ∙ simp field_laws

sum_products-IsU16 : (cs ps : List Gf16) (out : Gf16) → IsU16 out → IsU16 (sum_products cs ps out)
unfolding sum_products
sum_products-IsU16 [] ps out h = h
sum_products-IsU16 (c ∷ cs) [] out h = h
sum_products-IsU16 (c ∷ cs) (p ∷ ps) out h =
    sum_products-IsU16 cs ps (add out (mul c p)) (bit_xor-lt 16 out (mul c p) h (mul-IsU16 c p))

pub compute_at-IsU16 : (p : Poly) (x : Gf16) → IsU16 (compute_at p x)
unfolding compute_at
compute_at-IsU16 p x =
    sum_products-IsU16 p.coefficients (powers_rounds (length p.coefficients - 2) 2 (1 ∷ x ∷ [])) 0
      (omega arith)
