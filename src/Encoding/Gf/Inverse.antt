-- ===== src/Encoding/Gf/Inverse.antt =====
-- Division in the field, which is by the powers of an element.
use sparse_post_quantum_ratc.Prelude.{ℕ, zero, suc, ◌≡◌, ◌≢◌, inl, inr, refl, sym, ap, ◌∙◌, IsU16}
use sparse_post_quantum_ratc.Encoding.Gf.{mul, mul2, div_rounds, div_impl}
use sparse_post_quantum_ratc.Encoding.Gf.Laws.{mul-IsU16}
use sparse_post_quantum_ratc.Encoding.Gf.Field.{
  Element, el, el_num, nought, one, ◌⊗◌, el-mul, field_laws, times_left_comm, times_comm,
  times_assoc, times-one, nought-times, times-nought,
}
use sparse_post_quantum_ratc.Encoding.Gf.Squares.{idempotent, frobenius, frobenius_return}

-- `out` times the first `n` squares from `square` on.
raise : ℕ → Element → Element → Element
raise zero square out = out
raise (suc n) square out = raise n (square ⊗ square) (square ⊗ out)

el-div_rounds :
    (n square out : ℕ)
    → IsU16 square
    → IsU16 out
    → el (div_rounds n square out) ≡ raise n (el square) (el out)
unfolding div_rounds mul2 raise
el-div_rounds zero square out hs ho = refl
el-div_rounds (suc n) square out hs ho =
    el-div_rounds n (mul square square) (mul square out) (mul-IsU16 square square)
      (mul-IsU16 square out)
    ∙ rw (el-mul square square hs hs, el-mul square out hs ho)

raise_front : (n : ℕ) (s t o : Element) → raise n s (t ⊗ o) ≡ t ⊗ raise n s o
unfolding raise
raise_front zero s t o = refl
raise_front (suc n) s t o =
    ap (raise n (s ⊗ s)) (times_left_comm s t o) ∙ raise_front n (s ⊗ s) t (s ⊗ o)

raise-frobenius : (n : ℕ) (s o : Element) → raise n s (s ⊗ o) ≡ frobenius n s ⊗ o
unfolding raise frobenius
raise-frobenius zero s o = refl
raise-frobenius (suc n) s o =
    ap (raise n (s ⊗ s)) (sym (times_assoc s s o)) ∙ raise-frobenius n (s ⊗ s) o

raise_last : (n : ℕ) (s o : Element) → raise (suc n) s o ≡ frobenius n s ⊗ raise n s o
unfolding raise frobenius
raise_last zero s o = refl
raise_last (suc n) s o = raise_last n (s ⊗ s) (s ⊗ o)

raise_square : (n : ℕ) (s o : Element) → raise n s o ⊗ raise n s o ≡ raise n (s ⊗ s) (o ⊗ o)
unfolding raise
raise_square zero s o = refl
raise_square (suc n) s o =
    raise_square n (s ⊗ s) (s ⊗ o) ∙ ap (raise n ((s ⊗ s) ⊗ (s ⊗ s))) (simp field_laws)

-- The power of an element that is meant to be one.
unit_power : Element → Element
unit_power b = raise 15 (b ⊗ b) b

unit_power_square : (b : Element) → unit_power b ⊗ unit_power b ≡ unit_power b
unfolding unit_power
unit_power_square b =
    let s = b ⊗ b in
    let top : frobenius 15 s ≡ b = unfold frobenius in frobenius_return b in
    let more : raise 15 (s ⊗ s) (s ⊗ one) ≡ frobenius 15 s ⊗ raise 15 s one =
      unfold raise in raise_last 15 s one in
    raise_square 15 s b
    ∙ ap (raise 15 (s ⊗ s)) (sym (times-one s))
    ∙ more
    ∙ ap (λ t. t ⊗ raise 15 s one) top
    ∙ sym (raise_front 15 s b one)
    ∙ ap (raise 15 s) (times-one b)

times-unit_power : (b : Element) → b ⊗ unit_power b ≡ b
unfolding unit_power
times-unit_power b =
    let s = b ⊗ b in
    let top : frobenius 15 s ≡ b = unfold frobenius in frobenius_return b in
    sym (raise_front 15 s b b)
    ∙ ap (raise 15 s) (sym (times-one s))
    ∙ raise-frobenius 15 s one
    ∙ ap (λ t. t ⊗ one) top
    ∙ times-one b

unit_power-one : (b : Element) → b ≢ nought → unit_power b ≡ one
unit_power-one b ne = elim (idempotent (unit_power b) (unit_power_square b)) [
  | inl e ↦ absurd (ne (sym (times-unit_power b) ∙ ap (λ t. b ⊗ t) e ∙ times-nought b))
  | inr e ↦ e
]

-- Division by an element that is not 0.
unfoldable pub over : Element → Element → Element
unfolding raise
over a b = raise 15 (b ⊗ b) a

pub over-times : (a b : Element) → b ≢ nought → over a b ⊗ b ≡ a
unfolding over
over-times a b ne =
    let unit : raise 15 (b ⊗ b) b ≡ one = unfold unit_power in unit_power-one b ne in
    times_comm (raise 15 (b ⊗ b) a) b
    ∙ sym (raise_front 15 (b ⊗ b) b a)
    ∙ ap (raise 15 (b ⊗ b)) (times_comm b a)
    ∙ raise_front 15 (b ⊗ b) a b
    ∙ ap (λ t. a ⊗ t) unit
    ∙ times-one a

pub el-div_impl : (a b : ℕ) → IsU16 a → IsU16 b → el (div_impl a b) ≡ over (el a) (el b)
unfolding div_impl over
el-div_impl a b ha hb = el-div_rounds 15 (mul b b) a (mul-IsU16 b b) ha ∙ rw (el-mul b b hb hb)

pub no_zero_divisors : (a b : Element) → a ⊗ b ≡ nought → b ≢ nought → a ≡ nought
no_zero_divisors a b h ne =
    sym (times-one a)
    ∙ ap (λ t. a ⊗ t) (sym (over-times one b ne) ∙ times_comm (over one b) b)
    ∙ sym (times_assoc a b (over one b))
    ∙ ap (λ t. t ⊗ over one b) h
    ∙ nought-times (over one b)

div_rounds-IsU16 : (n square out : ℕ) → IsU16 out → IsU16 (div_rounds n square out)
unfolding div_rounds mul2
div_rounds-IsU16 zero square out h = h
div_rounds-IsU16 (suc n) square out h =
    div_rounds-IsU16 n (mul square square) (mul square out) (mul-IsU16 square out)

pub div_impl-IsU16 : (a b : ℕ) → IsU16 a → IsU16 (div_impl a b)
unfolding div_impl
div_impl-IsU16 a b h = div_rounds-IsU16 15 (mul b b) a h

-- Division is the inverse of multiplication: a quotient by an element that is not zero, times that
-- element, is the dividend, when both have 16 bits.
pub div_impl-mul : (a b : ℕ) → IsU16 a → IsU16 b → b ≢ 0 → mul (div_impl a b) b ≡ a
unfolding ◌⊗◌ el
div_impl-mul a b ha hb ne =
    let small : IsU16 (div_impl a b) = div_impl-IsU16 a b ha in
    let nonzero : el b ≢ nought = λ e. ne (sym (el_num b hb) ∙ ap (λ t. t.0) e) in
    let e : el (mul (div_impl a b) b) ≡ el a =
      el-mul (div_impl a b) b small hb
      ∙ ap (λ t. t ⊗ el b) (el-div_impl a b ha hb)
      ∙ over-times (el a) (el b) nonzero in
    sym (el_num (mul (div_impl a b) b) (mul-IsU16 (div_impl a b) b)) ∙ ap (λ t. t.0) e ∙ el_num a ha
