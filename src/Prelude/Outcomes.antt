-- ===== src/Prelude/Outcomes.antt =====
-- What a Rust call gives back: a value, an error of its `Result`, or a panic.
use mathlib.Core.Path.{◌≡◌, refl, ap, subst}
use mathlib.Core.Bool.{Bool, true, false}
use sparse_post_quantum_ratc.Prelude.Tests.{if◌then◌else◌}
use mathlib.Core.Option.{Option, none, some}

pub data Outcome {ℓ κ} (E : Type ℓ) (A : Type κ) : Type (ℓ ⊔ κ) where
  ok : A → Outcome E A
  err : E → Outcome E A
  panic : Outcome E A

infixl 5 ◌>>=◌ ◌>>◌
abbrev pub ◌>>=◌ {ℓ κ μ} :
    {E : Type ℓ} {A : Type κ} {B : Type μ} → Outcome E A → (A → Outcome E B) → Outcome E B
ok a >>= f = f a
err e >>= f = err e
panic >>= f = panic

abbrev pub ◌>>◌ {ℓ κ} : {E : Type ℓ} {B : Type κ} → Outcome E (Unit {0}) → Outcome E B → Outcome E B
m >> k = m >>= λ _. k

-- `assert!(b)`
abbrev pub assert {ℓ} : {E : Type ℓ} → Bool → Outcome E (Unit {0})
assert true = ok tt
assert false = panic

-- `if !b { return Err(e) }`
abbrev pub guard {ℓ} : {E : Type ℓ} → Bool → E → Outcome E (Unit {0})
guard true e = ok tt
guard false e = err e

-- `r.expect(..)` and `r.unwrap()`: an error panics.
abbrev pub expect {ℓ κ μ} : {E : Type ℓ} {F : Type κ} {A : Type μ} → Outcome E A → Outcome F A
expect (ok a) = ok a
expect (err e) = panic
expect panic = panic

-- `r.map_err(f)`
abbrev pub map_err {ℓ κ μ} :
    {E : Type ℓ} {F : Type κ} {A : Type μ} → (E → F) → Outcome E A → Outcome F A
map_err f (ok a) = ok a
map_err f (err e) = err (f e)
map_err f panic = panic

-- `o.ok_or(e)`
abbrev pub ok_or {ℓ κ} : {E : Type ℓ} {A : Type κ} → Option A → E → Outcome E A
ok_or none e = err e
ok_or (some a) e = ok a

module _ {ℓ κ μ} {E : Type ℓ} {A : Type κ} {B : Type μ} where
  -- The value in the middle of two calls in a row that succeed, when the calls themselves stay shut.
  pub >>=-eq-ok :
      (first : Outcome E A) (next : A → Outcome E B) {out : B}
      → (first >>= next) ≡ ok out
      → (a : A) × (first ≡ ok a) × (next a ≡ ok out)
  >>=-eq-ok panic next run = cc
  >>=-eq-ok (err e) next run = cc
  >>=-eq-ok (ok a) next run = (a, refl, run)

module _ {ℓ κ} {E : Type ℓ} {A : Type κ} where
  abbrev value_or : A → Outcome E A → A
  value_or a (ok b) = b
  value_or a (err e) = a
  value_or a panic = a

  pub ok-injective : {a b : A} → ◌≡◌ {A = Outcome E A} (ok a) (ok b) → a ≡ b
  ok-injective {a} h = ap (value_or a) h

  pub err-ne-ok : {e : E} {a : A} → ◌≡◌ {A = Outcome E A} (err e) (ok a) → ⊥
  err-ne-ok h = cc

  pub panic-ne-ok : {a : A} → ◌≡◌ {A = Outcome E A} panic (ok a) → ⊥
  panic-ne-ok h = cc

-- Every value that `m` returns satisfies `P`; with one rule for each way to build `m`.
pub record Ensures {ℓ κ μ} {E : Type ℓ} {A : Type κ} (P : A → Type μ) (m : Outcome E A)
    : Type (ℓ ⊔ κ ⊔ μ) where
  pub at : (a : A) → m ≡ ok a → P a

module _ {ℓ κ μ} {E : Type ℓ} {A : Type κ} {P : A → Type μ} where
  pub Ensures-ok : (a : A) → P a → Ensures {E = E} P (ok a)
  Ensures-ok a h = record { at = λ b e. subst P (ok-injective e) h }

  pub Ensures-err : (e : E) → Ensures {E = E} P (err e)
  Ensures-err e = record { at = λ b e. absurd (err-ne-ok e) }

  pub Ensures-panic : Ensures {E = E} P panic
  Ensures-panic = record { at = λ b e. absurd (panic-ne-ok e) }

  pub Ensures-if :
      (b : Bool) (m n : Outcome E A)
      → (b ≡ true → Ensures P m)
      → (b ≡ false → Ensures P n)
      → Ensures P (if b then m else n)
  Ensures-if true m n hm hn = hm refl
  Ensures-if false m n hm hn = hn refl

  pub Ensures-weaken {ν} :
      {Q : A → Type ν} (m : Outcome E A) → Ensures Q m → ((a : A) → Q a → P a) → Ensures P m
  Ensures-weaken m h k = record { at = λ a e. k a (h.at a e) }

module _ {E A B : Type 0} {P : B → Type 0} where
  -- The rest of the block may use the value that the first call returned.
  pub Ensures-bind :
      (m : Outcome E A) (f : A → Outcome E B)
      → ((a : A) → m ≡ ok a → Ensures P (f a))
      → Ensures P (m >>= f)
  Ensures-bind (ok a) f rest = rest a refl
  Ensures-bind (err e) f rest = Ensures-err e
  Ensures-bind panic f rest = Ensures-panic

module _ {E A B : Type 0} {Q : A → Type 0} {P : B → Type 0} where
  pub Ensures-then :
      {m : Outcome E A} (f : A → Outcome E B)
      → Ensures Q m
      → ((a : A) → Q a → Ensures P (f a))
      → Ensures P (m >>= f)
  Ensures-then {m} f known rest = Ensures-bind m f (λ a e. rest a (known.at a e))

module _ {E A B : Type 0} {P : B → Type 0} where
  pub Ensures-bind_option :
      (m : Outcome E (Option A)) (f : Option A → Outcome E B)
      → ((a : A) → Ensures P (f (some a)))
      → Ensures P (f none)
      → Ensures P (m >>= f)
  Ensures-bind_option (ok (some a)) f hf hg = hf a
  Ensures-bind_option (ok none) f hf hg = hg
  Ensures-bind_option (err e) f hf hg = Ensures-err e
  Ensures-bind_option panic f hf hg = Ensures-panic

  pub Ensures-checked :
      (b : Bool) (x : A) (f : A → Outcome E B)
      → Ensures P (f x)
      → Ensures P ((if b then ok x else panic) >>= f)
  Ensures-checked true x f h = h
  Ensures-checked false x f h = Ensures-panic

module _ {E B : Type 0} {P : B → Type 0} where
  pub Ensures-either :
      (b : Bool) (m n : Outcome E B) → Ensures P m → Ensures P n → Ensures P (if b then m else n)
  Ensures-either true m n hm hn = hm
  Ensures-either false m n hm hn = hn
