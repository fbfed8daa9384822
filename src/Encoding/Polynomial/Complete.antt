-- ===== src/Encoding/Polynomial/Complete.antt =====
-- src/encoding/polynomial.rs: the precomputed polynomials of PolyConst, and the interpolation of
-- complete points by them.
pub mod Rounds
pub mod Basis
pub mod Units
pub mod Sum
pub mod Numbered
pub mod Places
use sparse_post_quantum_ratc.Prelude.{
  ℕ, zero, suc, ◌+◌, ◌-◌, ◌%◌, ◌^◌, List, [], ◌∷◌, map, ◌==◌, ◌||◌, if◌then◌else◌, length, take,
  replicate, Bool, Outcome, ok, err, panic, ◌>>=◌, ◌>>◌,
}
use sparse_post_quantum_ratc.Encoding.Gf.{Gf16, const_mul, const_sub, const_div}
use sparse_post_quantum_ratc.Encoding.Polynomial.{
  Pt, Poly, word_at, lagrange_interpolate_pt, lagrange_sum,
}

-- `xp[i]` less `dp[i]`, for all places.
unfoldable pub const_subs : List Gf16 → List Gf16 → List Gf16
const_subs [] dp = []
const_subs (x ∷ xp) [] = x ∷ xp
const_subs (x ∷ xp) (d ∷ dp) = const_sub x d ∷ const_subs xp dp

-- The product with `x - difference`, which panics where the highest coefficient is in use.
unfoldable pub mult_xdiff {ℓ} : {E : Type ℓ} → ℕ → List Gf16 → Gf16 → Outcome E (List Gf16)
unfolding const_subs
mult_xdiff n self difference =
    if word_at self (n - 1) == 0
    then ok (const_subs (0 ∷ take (n - 1) self) (map (λ c. const_mul c difference) self))
    else panic

unfoldable pub const_pt_rounds {ℓ} :
    {E : Type ℓ} → ℕ → Gf16 → List Pt → List Gf16 → Gf16 → Outcome E (List Gf16 × Gf16)
const_pt_rounds n x [] p denominator = ok (p, denominator)
const_pt_rounds n x (pj ∷ pts) p denominator =
    let skipped = const_pt_rounds n x pts p denominator in
    let rest = mult_xdiff n p pj.x >>= λ p'.
    const_pt_rounds n x pts p' (const_mul denominator (const_sub x pj.x)) in
    if x == pj.x then skipped else rest

unfoldable pub const_interpolate_pt {ℓ} : {E : Type ℓ} → ℕ → List Pt → Pt → Outcome E Poly
unfolding const_pt_rounds
const_interpolate_pt n pts pi = do
  (p, denominator) ← const_pt_rounds n pi.x pts (1 ∷ replicate (n - 1) 0) 1
  let scale = const_div pi.y denominator
  ok (record { coefficients = map (λ c. const_mul c scale) p })

-- The points `(i, 1)` below `n`, from `i` on.
unfoldable pub ones_from : ℕ → ℕ → List Pt
ones_from i zero = []
ones_from i (suc n) = record { x = i % 2 ^ 16; y = 1 } ∷ ones_from (i + 1) n

unfoldable pub const_polys {ℓ} : {E : Type ℓ} → ℕ → List Pt → List Pt → Outcome E (List Poly)
unfolding const_interpolate_pt
const_polys n ones [] = ok []
const_polys n ones (pi ∷ pts) = do
  poly ← const_interpolate_pt n ones pi
  polys ← const_polys n ones pts
  ok (poly ∷ polys)

unfoldable pub lagrange_polys_for_complete_points {ℓ} : {E : Type ℓ} → ℕ → Outcome E (List Poly)
unfolding ones_from const_polys
lagrange_polys_for_complete_points n = const_polys n (ones_from 0 n) (ones_from 0 n)

-- The `x` of each point is its place.
unfoldable pub check_complete : ℕ → List Pt → Outcome (Unit {0}) (Unit {0})
check_complete i [] = ok tt
check_complete i (pt ∷ pts) = if pt.x == i % 2 ^ 16 then check_complete (i + 1) pts else err tt

-- The numbers of points whose polynomials are precomputed.
abbrev pub is_precomputed : ℕ → Bool
is_precomputed n = (n == 1) || ((n == 3) || ((n == 5) || ((n == 30) || ((n == 34) || (n == 36)))))

-- The polynomials for each number of points. Where none are precomputed, a build with debug assertions
-- panics, and any other one interpolates.
unfoldable pub complete_polys {ℓ} : {E : Type ℓ} → Bool → List Pt → Outcome E (List Poly)
unfolding lagrange_polys_for_complete_points
complete_polys debug pts =
    let n = length pts in
    if n == 0
    then ok []
    else if is_precomputed n
    then lagrange_polys_for_complete_points n
    else if debug
    then panic
    else (let ones : List Pt = map (λ (pt : Pt). record { x = pt.x; y = 1 }) pts in
        ok (map (lagrange_interpolate_pt ones) ones))

unfoldable pub from_complete_points : Bool → List Pt → Outcome (Unit {0}) Poly
unfolding check_complete complete_polys
from_complete_points debug pts = do
  check_complete 0 pts
  polys ← complete_polys debug pts
  ok (lagrange_sum pts polys [])
