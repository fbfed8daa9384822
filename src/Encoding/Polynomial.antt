-- ===== src/Encoding/Polynomial.antt =====
-- src/encoding/polynomial.rs: points, polynomials over GF(2^16) and their interpolation. Vectors and
-- arrays are lists; loops over the places of one are recursions on it. Of the debug assertions the one
-- on the number of complete points is in Complete; the two others are left out, and Asserts is about
-- them.
pub mod Complete
pub mod Encoder
pub mod Decoder
pub mod Stored
pub mod Columns
pub mod Points
pub mod Transfer
pub mod Value
pub mod Roots
pub mod Division
pub mod Distinct
pub mod Interpolate
pub mod Unique
pub mod Asserts
pub mod Code
pub mod Gather
pub mod Recover
pub mod AnyOrder
use mathlib.Core.List.{reverse}
use sparse_post_quantum_ratc.Prelude.{
  ℕ, zero, suc, ◌+◌, ◌-◌, ◌*◌, ◌/◌, ◌%◌, ◌^◌, List, [], ◌∷◌, ◌++◌, map, Bool, true, false, ◌||◌,
  ◌&&◌, not, ◌==◌, if◌then◌else◌, length, get_elem?, take, drop, replicate, Option, none, some,
  Outcome, ok, err, panic, ◌>>=◌,
}
use sparse_post_quantum_ratc.Types.{Bytes, PolynomialError, serialization_invalid}
use sparse_post_quantum_ratc.Encoding.Gf.{
  Gf16, add, sub, mul, div_impl, parallel_mult, const_mul, const_sub, const_div,
}

pub record Pt : Type 0 where
  pub x : Gf16
  pub y : Gf16

-- `value.to_be_bytes()` and `u16::from_be_bytes` of a u16.
abbrev pub to_be_bytes16 : ℕ → Bytes
to_be_bytes16 n = n / 2 ^ 8 % 2 ^ 8 ∷ n % 2 ^ 8 ∷ []

abbrev pub from_be_bytes16 : ℕ → ℕ → ℕ
from_be_bytes16 high low = high * 2 ^ 8 + low

unfoldable pub serialize_pt : Pt → Bytes
serialize_pt p = to_be_bytes16 p.x ++ to_be_bytes16 p.y

unfoldable pub deserialize_pt : ℕ → ℕ → ℕ → ℕ → Pt
deserialize_pt a b c d = record { x = from_be_bytes16 a b; y = from_be_bytes16 c d }

pub record Poly : Type 0 where
  pub coefficients : List Gf16

-- The bytes of numbers in order, and the numbers of bytes, of which there is an even number.
unfoldable pub words_to_bytes : List Gf16 → Bytes
words_to_bytes [] = []
words_to_bytes (c ∷ cs) = to_be_bytes16 c ++ words_to_bytes cs

unfoldable pub words_of_bytes : Bytes → List Gf16
words_of_bytes [] = []
words_of_bytes (a ∷ []) = []
words_of_bytes (a ∷ b ∷ bs) = from_be_bytes16 a b ∷ words_of_bytes bs

unfoldable pub serialize : Poly → Bytes
unfolding words_to_bytes
serialize self = words_to_bytes self.coefficients

unfoldable pub deserialize : Bytes → Outcome PolynomialError Poly
unfolding words_of_bytes
deserialize serialized =
    if (length serialized == 0) || (length serialized % 2 == 1)
    then err serialization_invalid
    else ok (record { coefficients = words_of_bytes serialized })

-- `self[start - 1..]`: each coefficient less the product of the next one.
unfoldable pub mult_xdiff_windows : Gf16 → List Gf16 → List Gf16
mult_xdiff_windows difference [] = []
mult_xdiff_windows difference (c ∷ []) = c ∷ []
mult_xdiff_windows difference (c ∷ d ∷ cs) =
    sub c (mul d difference) ∷ mult_xdiff_windows difference (d ∷ cs)

unfoldable pub mult_xdiff_assign_trailing : List Gf16 → ℕ → Gf16 → List Gf16
unfolding mult_xdiff_windows
mult_xdiff_assign_trailing self start difference =
    take (start - 1) self ++ mult_xdiff_windows difference (drop (start - 1) self)

prepare_rounds : ℕ → List Pt → List Gf16 → List Gf16
prepare_rounds start [] p = p
prepare_rounds start (pi ∷ pts) p =
    prepare_rounds (start - 1) pts (mult_xdiff_assign_trailing p start pi.x)

unfoldable pub lagrange_interpolate_prepare : List Pt → List Gf16
unfolding prepare_rounds
lagrange_interpolate_prepare pts =
    prepare_rounds (length pts) pts (replicate (length pts) 0 ++ 1 ∷ [])

-- The product of `pi.x - pj.x` over the points with another `x`.
unfoldable pub denominator_of : Gf16 → List Pt → Gf16 → Gf16
denominator_of x [] denominator = denominator
denominator_of x (pj ∷ pts) denominator =
    denominator_of x pts (if x == pj.x then denominator else mul denominator (sub x pj.x))

-- Long division by `x - pi.x`, from the highest coefficient down, which is the head here.
unfoldable pub divide_out : Gf16 → Gf16 → Gf16 → List Gf16 → List Gf16
divide_out x scale c [] = c ∷ []
divide_out x scale c (d ∷ cs) = mul c scale ∷ divide_out x scale (add d (mul c x)) cs

abbrev pub from_highest : Gf16 → Gf16 → List Gf16 → List Gf16
unfolding divide_out
from_highest x scale [] = []
from_highest x scale (c ∷ cs) = divide_out x scale c cs

unfoldable pub lagrange_interpolate_complete : List Gf16 → List Pt → Pt → List Gf16
unfolding denominator_of from_highest
lagrange_interpolate_complete self pts pi =
    let scale = div_impl pi.y (denominator_of pi.x pts 1) in
    reverse (from_highest pi.x scale (reverse self))

unfoldable pub lagrange_interpolate_pt : List Pt → Pt → Poly
unfolding lagrange_interpolate_prepare lagrange_interpolate_complete
lagrange_interpolate_pt pts pi = record {
  coefficients = drop 1 (lagrange_interpolate_complete (lagrange_interpolate_prepare pts) pts pi);
}

-- `self += other`
unfoldable pub add_assign : List Gf16 → List Gf16 → List Gf16
add_assign self [] = self
add_assign [] (v ∷ other) = v ∷ other
add_assign (c ∷ self) (v ∷ other) = add c v ∷ add_assign self other

-- The first point gives `out`, and each other one is added to it.
unfoldable pub interpolate_rounds : List Gf16 → List Pt → List Pt → List Gf16 → List Gf16
unfolding lagrange_interpolate_complete add_assign
interpolate_rounds template pts [] out = out
interpolate_rounds template pts (pi ∷ rest) out =
    interpolate_rounds template pts rest
      (add_assign out (drop 1 (lagrange_interpolate_complete template pts pi)))

unfoldable pub lagrange_interpolate : List Pt → Poly
unfolding lagrange_interpolate_prepare lagrange_interpolate_complete interpolate_rounds
lagrange_interpolate [] = record { coefficients = [] }
lagrange_interpolate (p ∷ rest) =
    let pts = p ∷ rest in
    let template = lagrange_interpolate_prepare pts in
    record {
      coefficients =
          interpolate_rounds template pts rest
            (drop 1 (lagrange_interpolate_complete template pts p));
    }

-- `xs[i]`, within the list.
abbrev pub word_at : List Gf16 → ℕ → Gf16
word_at [] i = 0
word_at (c ∷ cs) zero = c
word_at (c ∷ cs) (suc i) = word_at cs i

-- The powers of `x` from the one of `i` on, each a product of two earlier ones.
unfoldable pub powers_rounds : ℕ → ℕ → List Gf16 → List Gf16
powers_rounds zero i xs = xs
powers_rounds (suc n) i xs =
    powers_rounds n (i + 1) (xs ++ mul (word_at xs (i / 2)) (word_at xs (i / 2 + i % 2)) ∷ [])

unfoldable pub sum_products : List Gf16 → List Gf16 → Gf16 → Gf16
sum_products [] xs out = out
sum_products (a ∷ self) [] out = out
sum_products (a ∷ self) (b ∷ xs) out = sum_products self xs (add out (mul a b))

unfoldable pub compute_at : Poly → Gf16 → Gf16
unfolding powers_rounds sum_products
compute_at self x =
    let xs = powers_rounds (length self.coefficients - 2) 2 (1 ∷ x ∷ []) in
    sum_products self.coefficients xs 0

unfoldable pub lagrange_sum : List Pt → List Poly → List Gf16 → Poly
unfolding add_assign
lagrange_sum [] polys out = record { coefficients = out }
lagrange_sum (pt ∷ pts) [] out = record { coefficients = out }
lagrange_sum (pt ∷ pts) (poly ∷ polys) out =
    lagrange_sum pts polys (add_assign out (parallel_mult pt.y poly.coefficients))
