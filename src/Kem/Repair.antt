-- ===== src/Kem/Repair.antt =====
-- The repair of encapsulation states that were stored with swapped bytes.
use mathlib.Core.Option.{some-injective}
use sparse_post_quantum_ratc.Prelude.{
  ℕ, zero, suc, ◌+◌, ◌*◌, ◌≡◌, refl, sym, ap, ◌∙◌, Option, none, some, [], ◌∷◌, length, length-take,
  subst, take, drop, All, IsU8, Outcome, ok, ok-injective, >>=-eq-ok, ◌>>=◌, arith, ◌≤◌, ◌⊎◌, ◌≢◌,
  inl, inr,
}
use sparse_post_quantum_ratc.Types.{Bytes, Error}
use sparse_post_quantum_ratc.Kem.{
  flip_rounds, flip_endianness_of_encapsulation_state, Verdict, undecided, keep, flip, verdict,
  scan_values, potentially_fix_state,
}

flip_rounds-flip_rounds : (k : ℕ) (es : Bytes) → flip_rounds k (flip_rounds k es) ≡ es
unfolding flip_rounds
flip_rounds-flip_rounds zero es = refl
flip_rounds-flip_rounds (suc k) [] = refl
flip_rounds-flip_rounds (suc k) (a ∷ []) = refl
flip_rounds-flip_rounds (suc k) (a ∷ b ∷ es) = ap (λ t. a ∷ b ∷ t) (flip_rounds-flip_rounds k es)

length-flip_rounds : (k : ℕ) (es : Bytes) → length (flip_rounds k es) ≡ length es
unfolding flip_rounds
length-flip_rounds zero es = refl
length-flip_rounds (suc k) [] = refl
length-flip_rounds (suc k) (a ∷ []) = refl
length-flip_rounds (suc k) (a ∷ b ∷ es) = ap (λ n. suc (suc n)) (length-flip_rounds k es)

flip_rounds-nil : (k : ℕ) → flip_rounds k [] ≡ []
unfolding flip_rounds
flip_rounds-nil zero = refl
flip_rounds-nil (suc k) = refl

drop-flip_rounds :
    (n rounds k : ℕ) (es : Bytes)
    → n + 2 * k ≡ 2 * rounds
    → drop n (flip_rounds rounds es) ≡ flip_rounds k (drop n es)
unfolding flip_rounds
drop-flip_rounds zero rounds k es h = let e : rounds ≡ k = omega arith in rw e
drop-flip_rounds (suc zero) rounds k es h = absurd (omega arith)
drop-flip_rounds (suc (suc n)) zero k es h = absurd (omega arith)
drop-flip_rounds (suc (suc n)) (suc rounds) k [] h = sym (flip_rounds-nil k)
drop-flip_rounds (suc (suc n)) (suc rounds) k (a ∷ []) h = sym (flip_rounds-nil k)
drop-flip_rounds (suc (suc n)) (suc rounds) k (a ∷ b ∷ es) h =
    drop-flip_rounds n rounds k es (omega arith)

take-flip_rounds :
    (n rounds k : ℕ) (es : Bytes)
    → n ≡ 2 * k
    → k ≤ rounds
    → take n (flip_rounds rounds es) ≡ flip_rounds k (take n es)
unfolding flip_rounds
take-flip_rounds zero rounds k es h le = sym (flip_rounds-nil k)
take-flip_rounds (suc zero) rounds k es h le = absurd (omega arith)
take-flip_rounds (suc (suc n)) rounds zero es h le = absurd (omega arith)
take-flip_rounds (suc (suc n)) zero (suc k) es h le = absurd (omega arith)
take-flip_rounds (suc (suc n)) (suc rounds) (suc k) [] h le = refl
take-flip_rounds (suc (suc n)) (suc rounds) (suc k) (a ∷ []) h le = refl
take-flip_rounds (suc (suc n)) (suc rounds) (suc k) (a ∷ b ∷ es) h le =
    ap (λ t. b ∷ a ∷ t) (take-flip_rounds n rounds k es (omega arith) (omega arith))

-- Which values decide for a flip, and which decide nothing.
verdict-flip : (w : ℕ) → verdict w ≡ flip → (w ≡ 256) ⊎ ((w ≡ 512) ⊎ (w ≡ 65279))
unfolding verdict
verdict-flip w h = ground arith

verdict-undecided : (w : ℕ) → verdict w ≡ undecided → (w ≡ 0) ⊎ (w ≡ 65535)
unfolding verdict
verdict-undecided w h = ground arith

flip-swapped :
    (a b : ℕ) → IsU8 a → IsU8 b → verdict (a + b * 256) ≡ flip → verdict (b + a * 256) ≡ keep
unfolding verdict
flip-swapped a b ha hb h = elim (verdict-flip (a + b * 256) h) [
  | inl e ↦ let s : b + a * 256 ≡ 1 = omega arith in rw s
  | inr (inl e) ↦ let s : b + a * 256 ≡ 2 = omega arith in rw s
  | inr (inr e) ↦ let s : b + a * 256 ≡ 65534 = omega arith in rw s
]

undecided-swapped :
    (a b : ℕ)
    → IsU8 a
    → IsU8 b
    → verdict (a + b * 256) ≡ undecided
    → verdict (b + a * 256) ≡ undecided
unfolding verdict
undecided-swapped a b ha hb h = elim (verdict-undecided (a + b * 256) h) [
  | inl e ↦ let s : b + a * 256 ≡ 0 = omega arith in rw s
  | inr e ↦ let s : b + a * 256 ≡ 65535 = omega arith in rw s
]

Verdict-cases : (v : Verdict) → (v ≡ undecided) ⊎ ((v ≡ keep) ⊎ (v ≡ flip))
Verdict-cases undecided = inl refl
Verdict-cases keep = inr (inl refl)
Verdict-cases flip = inr (inr refl)

undecided_not_flip : undecided ≢ flip
undecided_not_flip e = cc

keep_not_flip : keep ≢ flip
keep_not_flip e = cc

-- Values that call for a flip do not call for one when all their bytes are swapped.
scan_values-flip_rounds :
    (k : ℕ) (xs : Bytes)
    → All IsU8 xs
    → length xs ≤ 2 * k
    → scan_values {E = Error} xs ≡ ok flip
    → scan_values {E = Error} (flip_rounds k xs) ≡ ok keep
unfolding scan_values flip_rounds
scan_values-flip_rounds k [] h n run =
    let bad : ◌≡◌ {A = Verdict} undecided flip = ok-injective run in absurd (undecided_not_flip bad)
scan_values-flip_rounds k (a ∷ []) h n run = cc
scan_values-flip_rounds zero (a ∷ b ∷ xs) h n run = absurd (omega arith)
scan_values-flip_rounds (suc k) (a ∷ b ∷ xs) h n run =
    elim (Verdict-cases (verdict (a + b * 256))) [
      | inl u ↦
          let run' : scan_values {E = Error} xs ≡ ok flip = rw (scan_values, u) at run in
          rw (scan_values, undecided-swapped a b h.0 h.1.0 u)
            (scan_values-flip_rounds k xs h.1.1 (omega arith) run')
      | inr (inl u) ↦
          let bad : ◌≡◌ {A = Outcome Error Verdict} (ok keep) (ok flip) =
            rw (scan_values, u) at run in
          absurd (keep_not_flip (ok-injective bad))
      | inr (inr u) ↦ rw (scan_values, flip-swapped a b h.0 h.1.0 u)
    ]

-- `flip_endianness_of_encapsulation_state` of a state of the right size.
flip_endianness_lem :
    (es : Bytes)
    → length es ≡ 2080
    → flip_endianness_of_encapsulation_state {E = Error} es ≡ ok (flip_rounds 1024 es)
unfolding flip_endianness_of_encapsulation_state
flip_endianness_lem es n = rw n

All-drop : (n : ℕ) (xs : Bytes) → All IsU8 xs → All IsU8 (drop n xs)
All-drop zero xs h = h
All-drop (suc n) [] h = tt
All-drop (suc n) (x ∷ xs) h = All-drop n xs h.1

All-take : (n : ℕ) (xs : Bytes) → All IsU8 xs → All IsU8 (take n xs)
All-take zero xs h = tt
All-take (suc n) [] h = tt
All-take (suc n) (x ∷ xs) h = (h.0, All-take n xs h.1)

-- What `potentially_fix_state` does with the verdict.
abbrev act_on : Bytes → Verdict → Outcome Error (Option Bytes)
act_on es flip = do es' ← flip_endianness_of_encapsulation_state es; ok (some es')
act_on es _ = ok none

act_on-some :
    (es es' : Bytes) (v : Verdict)
    → length es ≡ 2080
    → act_on es v ≡ ok (some es')
    → (v ≡ flip) × (flip_rounds 1024 es ≡ es')
act_on-some es es' undecided n h = let e : none ≡ some es' = ok-injective h in cc
act_on-some es es' keep n h = let e : none ≡ some es' = ok-injective h in cc
act_on-some es es' flip n h =
    let done : ◌≡◌ {A = Outcome Error (Option Bytes)} (ok (some (flip_rounds 1024 es)))
        (ok (some es')) =
      rw (act_on, flip_endianness_lem es n) at h in
    (refl, some-injective _ _ (ok-injective done))

-- When potentially_fix_state repairs an encapsulation state of bytes, flipping the repaired state
-- gives the state back, and the repaired state is not repaired again.
pub repair-once :
    (es es' : Bytes)
    → length es ≡ 2080
    → All IsU8 es
    → potentially_fix_state {E = Error} es ≡ ok (some es')
    → (flip_endianness_of_encapsulation_state {E = Error} es' ≡ ok es)
      × (potentially_fix_state {E = Error} es' ≡ ok none)
unfolding potentially_fix_state
repair-once es es' n h run =
    let ys : Bytes = take 512 (drop 1536 es) in
    let run' : (scan_values ys >>= act_on es) ≡ ok (some es') =
      rw (potentially_fix_state, n) at run in
    let (v, scanned, acted) = >>=-eq-ok (scan_values ys) (act_on es) run' in
    let (flips, repaired) = act_on-some es es' v n acted in
    let size : length ys ≤ 512 = omega (arith, length-take 512 (drop 1536 es)) in
    let bytes : All IsU8 ys = All-take 512 (drop 1536 es) (All-drop 1536 es h) in
    let swapped : take 512 (drop 1536 (flip_rounds 1024 es)) ≡ flip_rounds 256 ys =
      ap (take 512) (drop-flip_rounds 1536 1024 256 es refl)
      ∙ take-flip_rounds 512 256 256 (drop 1536 es) refl (omega arith) in
    let kept : scan_values {E = Error} (flip_rounds 256 ys) ≡ ok keep =
      scan_values-flip_rounds 256 ys bytes (omega arith) (scanned ∙ ap (λ w. ok w) flips) in
    let same_size : length (flip_rounds 1024 es) ≡ 2080 = length-flip_rounds 1024 es ∙ n in
    let back : flip_endianness_of_encapsulation_state {E = Error} (flip_rounds 1024 es) ≡ ok es =
      flip_endianness_lem _ same_size ∙ ap (λ t. ok t) (flip_rounds-flip_rounds 1024 es) in
    subst
      (λ t.
        (flip_endianness_of_encapsulation_state {E = Error} t ≡ ok es)
        × (potentially_fix_state {E = Error} t ≡ ok none))
      repaired (back, rw (potentially_fix_state, same_size, swapped, kept))
