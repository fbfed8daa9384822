-- ===== src/Encoding/Polynomial/Recover.antt =====
-- A decoder of src/encoding/polynomial.rs whose sets have enough points of a code gives the first words
-- of the code, those that it has and those that it interpolates.
use sparse_post_quantum_ratc.Prelude.{
  ℕ, zero, suc, ◌+◌, ◌*◌, ◌/◌, ◌%◌, ◌^◌, ◌<◌, ◌≤◌, ◌≡◌, ◌≢◌, refl, sym, ap, subst, ◌∙◌, List, [],
  ◌∷◌, ◌++◌, take, All, length, replicate, set, get_elem?, false, ltb, Option, none, some, inl, inr,
  ◌⊎◌, ok, IsU16, arith,
}
use native.Mathlib.Decide.{ℕ_discrete}
use mathlib.Core.List.{append_assoc, append-nil}
use sparse_post_quantum_ratc.Types.{Bytes, EncodingError}
use sparse_post_quantum_ratc.Encoding.Gf.{Gf16}
use sparse_post_quantum_ratc.Encoding.Gf.Field.{Element, el}
use sparse_post_quantum_ratc.Encoding.Polynomial.{
  Pt, Poly, compute_at, lagrange_interpolate, to_be_bytes16,
}
use sparse_post_quantum_ratc.Encoding.Polynomial.Value.{value, compute_at-value, compute_at-IsU16}
use sparse_post_quantum_ratc.Encoding.Polynomial.Roots.{IsPt}
use sparse_post_quantum_ratc.Encoding.Polynomial.Distinct.{AreDistinct}
use sparse_post_quantum_ratc.Encoding.Polynomial.Interpolate.{
  Has, interpolate-IsU16, interpolate_short, interpolate-value,
}
use sparse_post_quantum_ratc.Encoding.Polynomial.Unique.{value_unique}
use sparse_post_quantum_ratc.Encoding.Polynomial.Complete.Places.{el_cancel}
use sparse_post_quantum_ratc.Encoding.Polynomial.Columns.{
  bytes_from, get_elem?-set_self, get_elem?-set_other,
}
use sparse_post_quantum_ratc.Encoding.Polynomial.Decoder.{
  SortedSet, lacks_points, interpolated, word_of, message_rounds, decoded_message,
}
use sparse_post_quantum_ratc.Encoding.Polynomial.Gather.{
  IsOrderedSet, IsGathered, gathering, necessary_points-gathering,
}
use sparse_post_quantum_ratc.Encoding.Polynomial.Gather.Rounds.{AreReady}

-- Word `16 * x + q` is the value of curve `q` at `x`, and a curve has at most `k` coefficients.
pub record IsCode (w : ℕ → ℕ) (k : ℕ) (curve : ℕ → List Gf16) : Type 0 where
  pub range : (i : ℕ) → IsU16 (w i)
  pub short : (q : ℕ) → q < 16 → length (curve q) ≤ k
  pub values : (q x : ℕ) → q < 16 → x < 2 ^ 16 → value (curve q) (el x) ≡ el (w (16 * x + q))

take-All : (P : Pt → Type 0) (n : ℕ) (ps : List Pt) → All P ps → All P (take n ps)
take-All P zero ps h = tt
take-All P (suc n) [] h = tt
take-All P (suc n) (p ∷ ps) h = (h.0, take-All P n ps h.1)

take-AreDistinct : (n : ℕ) (ps : List Pt) → AreDistinct ps → AreDistinct (take n ps)
take-AreDistinct zero ps h = tt
take-AreDistinct (suc n) [] h = tt
take-AreDistinct (suc n) (p ∷ ps) h =
    (take-All (λ r. p.x ≢ r.x) n ps h.0, take-AreDistinct n ps h.1)

take_enough : (n : ℕ) (ps : List Pt) → n ≤ length ps → length (take n ps) ≡ n
take_enough zero ps le = refl
take_enough (suc n) [] le = absurd (omega arith)
take_enough (suc n) (p ∷ ps) le = ap suc (take_enough n ps (omega arith))

All-get_elem? :
    (P : Pt → Type 0) (ps : List Pt) (i : ℕ) (p : Pt) → All P ps → get_elem? ps i ≡ some p → P p
All-get_elem? P [] i p h found = cc
All-get_elem? P (q ∷ ps) zero p h found = let e : q ≡ p = cc in subst P e h.0
All-get_elem? P (q ∷ ps) (suc i) p h found = All-get_elem? P ps i p h.1 found

-- Each of the points, with the facts about the list of all.
each_value :
    (P : Pt → Type 0) (pts ps : List Pt)
    → ((p : Pt) → Has p pts → P p)
    → ((p : Pt) → Has p ps → Has p pts)
    → All P ps
each_value P pts [] f inside = tt
each_value P pts (p ∷ ps) f inside =
    (f p (inside p (inl refl)), each_value P pts ps f (λ r h. inside r (inr h)))

interpolate_each :
    (pts : List Pt)
    → All IsPt pts
    → AreDistinct pts
    → All (λ (p : Pt). value (lagrange_interpolate pts).coefficients (el p.x) ≡ el p.y) pts
interpolate_each pts hp distinct =
    each_value (λ p. value (lagrange_interpolate pts).coefficients (el p.x) ≡ el p.y) pts pts
      (λ p h. interpolate-value p pts hp (Has-IsPt p pts h hp) distinct h) (λ p h. h)
  where
    Has-IsPt : (p : Pt) (ps : List Pt) → Has p ps → All IsPt ps → IsPt p
    Has-IsPt p [] h all = absurd h
    Has-IsPt p (q ∷ ps) (inl e) all = subst IsPt (sym e) all.0
    Has-IsPt p (q ∷ ps) (inr h) all = Has-IsPt p ps h all.1

both_right :
    (w : ℕ → ℕ) (q : ℕ) (cs : List Gf16) (curve : List Gf16) (ps : List Pt)
    → ((x : ℕ) → x < 2 ^ 16 → value curve (el x) ≡ el (w (16 * x + q)))
    → All IsPt ps
    → All (λ (p : Pt). value cs (el p.x) ≡ el p.y) ps
    → All (λ (p : Pt). p.y ≡ w (16 * p.x + q)) ps
    → All (λ (p : Pt). value cs (el p.x) ≡ value curve (el p.x)) ps
both_right w q cs curve [] values hp h right = tt
both_right w q cs curve (p ∷ ps) values hp h right = (
  h.0 ∙ ap el right.0 ∙ sym (values p.x hp.0.0),
  both_right w q cs curve ps values hp.1 h.1 right.1,
)

module _ {Set : Type 0} (sets : SortedSet Set) (law : IsOrderedSet sets) (w : ℕ → ℕ) (k : ℕ)
    (curve : ℕ → List Gf16) (is_code : IsCode w k curve) where
  -- A polynomial, if it is there, is the curve.
  abbrev IsKnown : ℕ → Option Poly → Type 0
  IsKnown q none = Unit {0}
  IsKnown q (some p) =
      All IsU16 p.coefficients × ((y : Element) → value p.coefficients y ≡ value (curve q) y)

  large :
      (n q : ℕ) (s : Set) → k ≤ n → IsGathered sets law w k [] n q s → k ≤ length (sets.as_slice s)
  large n q s le h = elim h.enough [ inl more ↦ omega (arith, more, le) | inr more ↦ more ]

  taken-IsKnown :
      (n q : ℕ) (s : Set)
      → q < 16
      → k ≤ n
      → IsGathered sets law w k [] n q s
      → IsKnown q (some (lagrange_interpolate (take k (sets.as_slice s))))
  taken-IsKnown n q s lq le h =
      let pts = take k (sets.as_slice s) in
      let hp : All IsPt pts = take-All IsPt k (sets.as_slice s) h.placed in
      let distinct : AreDistinct pts = take-AreDistinct k (sets.as_slice s) h.distinct in
      let right = take-All (λ p. p.y ≡ w (16 * p.x + q)) k (sets.as_slice s) h.right in
      let size : length pts ≡ k = take_enough k (sets.as_slice s) (large n q s le h) in
      let cs = (lagrange_interpolate pts).coefficients in
      (
        interpolate-IsU16 pts hp,
        λ y.
            value_unique cs (curve q) pts y (interpolate_short pts hp)
              (omega (arith, size, is_code.short q lq)) hp distinct
              (both_right w q cs (curve q) pts (λ x lx. is_code.values q x lq lx) hp
                (interpolate_each pts hp distinct) right),
      )

  interpolated-IsKnown :
      (pts : List Set) (n q : ℕ) (s : Set) (o : Option Poly)
      → q < 16
      → k ≤ n
      → IsGathered sets law w k [] n q s
      → IsKnown q o
      → IsKnown q (some (interpolated sets (gathering sets law w k pts) q s o))
  unfolding interpolated
  interpolated-IsKnown pts n q s none lq le h known =
      rw (necessary_points-gathering sets law w k q pts) (taken-IsKnown n q s lq le h)
  interpolated-IsKnown pts n q s (some p) lq le h known = known

  known_value :
      (q x : ℕ) (p : Poly)
      → q < 16
      → x < 2 ^ 16
      → IsKnown q (some p)
      → compute_at p x ≡ w (16 * x + q)
  known_value q x p lq lx known =
      el_cancel (compute_at p x) (w (16 * x + q)) (compute_at-IsU16 p x)
        (is_code.range (16 * x + q))
        (compute_at-value p x known.0 lx ∙ known.1 (el x) ∙ is_code.values q x lq lx)

  -- The polynomials that are interpolated so far.
  abbrev AreKnown : List (Option Poly) → Type 0
  AreKnown polys = (q : ℕ) → q < 16 → (o : Option Poly) × (get_elem? polys q ≡ some o) × IsKnown q o

  set-AreKnown :
      (polys : List (Option Poly)) (q : ℕ) (o o' : Option Poly)
      → get_elem? polys q ≡ some o
      → IsKnown q o'
      → AreKnown polys
      → AreKnown (set polys q o')
  set-AreKnown polys q o o' found known h r lt = elim (ℕ_discrete q r) [
    | yes e ↦ (
      o',
      subst (λ t. get_elem? (set polys q o') t ≡ some o') e (get_elem?-set_self polys q o o' found),
      subst (λ t. IsKnown t o') e known,
    )
    | no ne ↦ let (u, at, one) = h r lt in (u, get_elem?-set_other polys q r o' ne ∙ at, one)
  ]

  Option-cases {ℓ} : {A : Type ℓ} (o : Option A) → (o ≡ none) ⊎ ((a : A) × (o ≡ some a))
  Option-cases none = inl refl
  Option-cases (some a) = inr (a, refl)

  word_of-code :
      (i n : ℕ) (pts : List Set) (polys : List (Option Poly))
      → i < 2 ^ 20
      → k ≤ n
      → AreReady sets law w k [] n pts
      → AreKnown polys
      → (polys' : List (Option Poly)) × (word_of sets {E = EncodingError}
            (gathering sets law w k pts)
            i
            polys
          ≡ ok (w i, polys'))
        × AreKnown polys'
  unfolding word_of
  word_of-code i n pts polys lt le ready known =
      let q = i % 16 in
      let x = i / 16 in
      let lq : q < 16 = omega arith in
      let place : i / 16 % 2 ^ 16 ≡ x = omega arith in
      let e : 16 * x + q ≡ i = omega arith in
      let (s, found, h) = ready.1 q lq in
      elim (Option-cases (sets.binary_search s (record { x = x; y = 0 }))) [
        | inr (j, hit) ↦
            let (pt, stored, same) = law.search_found s (record { x = x; y = 0 }) j hit in
            let right : pt.y ≡ w i =
              All-get_elem? (λ p. p.y ≡ w (16 * p.x + q)) (sets.as_slice s) j pt h.right stored
              ∙ ap (λ t. w (16 * t + q)) same
              ∙ ap w e in
            (polys, rw (word_of, found, place, hit, stored, right), known)
        | inl miss ↦
            let (o, at, one) = known q lq in
            let p = interpolated sets (gathering sets law w k pts) q s o in
            let now : IsKnown q (some p) = interpolated-IsKnown pts n q s o lq le h one in
            let right : compute_at p (i / 16 % 2 ^ 16) ≡ w i =
              ap (compute_at p) place ∙ known_value q x p lq (omega arith) now ∙ ap w e in
            (
              set polys q (some p),
              rw (word_of, found, place, miss, at, right),
              set-AreKnown polys q o (some p) at now known,
            )
      ]

  message_rounds-code :
      (m i n : ℕ) (pts : List Set) (polys : List (Option Poly)) (out : Bytes)
      → i + m ≤ 2 ^ 20
      → k ≤ n
      → AreReady sets law w k [] n pts
      → AreKnown polys
      → message_rounds sets {E = EncodingError} m i (gathering sets law w k pts) polys out
        ≡ ok (out ++ bytes_from w i m)
  unfolding message_rounds
  message_rounds-code zero i n pts polys out top le ready known = rw (append-nil out)
  message_rounds-code (suc m) i n pts polys out top le ready known =
      let e : i + 1 ≡ suc i = omega arith in
      let (polys', ran, known') = word_of-code i n pts polys (omega arith) le ready known in
      rw (
        ran,
        message_rounds-code m (i + 1) n pts polys' (out ++ to_be_bytes16 (w i)) (omega arith) le
            ready known',
        e,
        append_assoc out (to_be_bytes16 (w i)) (bytes_from w (suc i) m),
      )

  -- No set lacks points.
  lacks_points-ready :
      (poly : ℕ) (pts ss : List Set)
      → ((q : ℕ)
          → q < length ss
          → (s : Set) × (get_elem? ss q ≡ some s) × (k ≤ length (sets.as_slice s)))
      → lacks_points sets (gathering sets law w k pts) poly ss ≡ false
  unfolding lacks_points
  lacks_points-ready poly pts [] h = refl
  lacks_points-ready poly pts (s ∷ ss) h =
      let (t, same, size) = h 0 (omega arith) in
      let e : t ≡ s = cc in
      let full : k ≤ length (sets.as_slice s) = subst (λ u. k ≤ length (sets.as_slice u)) e size in
      let enough : ltb (length (sets.as_slice s)) k ≡ false = ground (arith, full) in
      rw (necessary_points-gathering sets law w k poly pts, enough)
        (lacks_points-ready (poly + 1) pts ss (λ q lt. h (suc q) (omega arith)))

  nothing_known : (n q : ℕ) → q < n → get_elem? (replicate {A = Option Poly} n none) q ≡ some none
  nothing_known zero q h = absurd (omega arith)
  nothing_known (suc n) zero h = refl
  nothing_known (suc n) (suc q) h = nothing_known n q (omega arith)

  pub decoded_message-code :
      (n : ℕ) (pts : List Set)
      → k ≤ n
      → k ≤ 2 ^ 16
      → AreReady sets law w k [] n pts
      → decoded_message sets {E = EncodingError} (gathering sets law w k pts)
        ≡ ok (some (bytes_from w 0 (16 * k)))
  unfolding decoded_message
  decoded_message-code n pts le top ready =
      let full = lacks_points-ready 0 pts pts (λ q lt.
        let (s, found, h) = ready.1 q (omega (arith, ready.0, lt)) in
        (s, found, large n q s le h)) in
      rw (
        full,
        message_rounds-code (16 * k) 0 n pts (replicate 16 none) [] (omega arith) le ready
            (λ q lt. (none, nothing_known 16 q lt, tt)),
      )
