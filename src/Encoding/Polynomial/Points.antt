-- ===== src/Encoding/Polynomial/Points.antt =====
-- The words of a message in the decoder: when the first words were added in order, set `q` has exactly
-- those of its places, and a decoder with all of them gives the message without interpolation.
pub mod Rounds
use sparse_post_quantum_ratc.Prelude.{
  ℕ, zero, suc, ◌+◌, ◌-◌, ◌*◌, ◌/◌, ◌%◌, ◌^◌, ◌<◌, ◌≤◌, ◌≡◌, ◌≢◌, refl, ap, subst, ◌∙◌, List, [],
  ◌∷◌, ◌++◌, Option, some, none, true, false, ltb, length, length-set, get_elem?, set, replicate,
  ok, ◌>>=◌, arith, IsU16,
}
use native.Mathlib.Decide.{ℕ_discrete}
use mathlib.Core.List.{append_assoc, append-nil}
use sparse_post_quantum_ratc.Types.{Bytes, EncodingError}
use sparse_post_quantum_ratc.Encoding.Polynomial.{Pt, Poly, to_be_bytes16, from_be_bytes16}
use sparse_post_quantum_ratc.Encoding.Polynomial.Columns.{
  bytes_from, get_elem?-set_self, get_elem?-set_other,
}
use sparse_post_quantum_ratc.Encoding.Polynomial.Decoder.{
  SortedSet, PolyDecoder, necessary_points, add_point, add_rounds, add_chunk, lacks_points, word_of,
  message_rounds, decoded_message,
}

abbrev pub y_of : Option Pt → Option ℕ
y_of none = none
y_of (some pt) = some pt.y

abbrev pub looked_up : Option ℕ → List Pt → Option ℕ
looked_up none pts = none
looked_up (some k) pts = y_of (get_elem? pts k)

-- The value at `x`, as `decoded_message` looks it up.
abbrev pub value_at : {Set : Type 0} → SortedSet Set → Set → ℕ → Option ℕ
value_at sets s x = looked_up (sets.binary_search s (record { x = x; y = 0 })) (sets.as_slice s)

y_of-found : (o : Option Pt) (v : ℕ) → y_of o ≡ some v → (pt : Pt) × (o ≡ some pt) × (pt.y ≡ v)
y_of-found none v h = cc
y_of-found (some pt) v h = (pt, refl, cc)

pub looked_up-found :
    (o : Option ℕ) (pts : List Pt) (v : ℕ)
    → looked_up o pts ≡ some v
    → (k : ℕ) × (pt : Pt) × (o ≡ some k) × (get_elem? pts k ≡ some pt) × (pt.y ≡ v)
looked_up-found none pts v h = cc
looked_up-found (some k) pts v h =
    let (pt, found, y) = y_of-found (get_elem? pts k) v h in (k, pt, refl, found, y)

-- What the documentation of sorted_vec says of a set that gets an element that it does not have.
pub record IsSortedSet {Set : Type 0} (sets : SortedSet Set) : Type 0 where
  pub new_length : length (sets.as_slice sets.new) ≡ 0
  pub new_value : (x : ℕ) → value_at sets sets.new x ≡ none
  pub push_length :
      (s : Set) (p : Pt)
      → value_at sets s p.x ≡ none
      → length (sets.as_slice (sets.push s p)) ≡ length (sets.as_slice s) + 1
  pub push_value :
      (s : Set) (p : Pt) → value_at sets s p.x ≡ none → value_at sets (sets.push s p) p.x ≡ some p.y
  pub push_other :
      (s : Set) (p : Pt) (x : ℕ)
      → value_at sets s p.x ≡ none
      → p.x ≢ x
      → value_at sets (sets.push s p) x ≡ value_at sets s x

module _ {Set : Type 0} (sets : SortedSet Set) (law : IsSortedSet sets) (w : ℕ → ℕ) where
  -- Set `q`, when the first `m` words were added.
  pub record IsFilled (m q : ℕ) (s : Set) : Type 0 where
    pub size : length (sets.as_slice s) ≡ (m + 15 - q) / 16
    pub below : (x : ℕ) → 16 * x + q < m → value_at sets s x ≡ some (w (16 * x + q))
    pub above : (x : ℕ) → m ≤ 16 * x + q → value_at sets s x ≡ none

  -- The set of the next word gets it.
  grown-IsFilled :
      (m : ℕ) (s : Set)
      → m / 16 < 2 ^ 16
      → IsFilled m (m % 16) s
      → IsFilled (suc m) (m % 16) (sets.push s (record { x = m / 16; y = w m }))
  grown-IsFilled m s small h =
      let fresh : value_at sets s (m / 16) ≡ none = h.above (m / 16) (omega arith) in
      let p : Pt = record { x = m / 16; y = w m } in
      record {
        size = omega (arith, law.push_length s p fresh, h.size);
        below = λ x lt. elim (ℕ_discrete (m / 16) x) [
          | yes e ↦
              let f : m ≡ 16 * x + m % 16 = omega (arith, e) in
              subst (λ t. value_at sets (sets.push s p) t ≡ some (w (16 * x + m % 16))) e
                (law.push_value s p fresh ∙ ap (λ t. some (w t)) f)
          | no ne ↦ law.push_other s p x fresh ne ∙ h.below x (omega (arith, ne))
        ];
        above = λ x le.
            let ne : m / 16 ≢ x = λ e. omega (arith, e) in
            law.push_other s p x fresh ne ∙ h.above x (omega arith);
      }

  -- The others stay.
  kept-IsFilled : (m q : ℕ) (s : Set) → q < 16 → m % 16 ≢ q → IsFilled m q s → IsFilled (suc m) q s
  kept-IsFilled m q s lt ne h = record {
    size = omega (arith, h.size);
    below = λ x lt'. h.below x (omega arith);
    above = λ x le. h.above x (omega arith);
  }

  -- The sets, when the first `m` words were added.
  pub record AreFilled (m : ℕ) (pts : List Set) : Type 0 where
    pub count : length pts ≡ 16
    pub filled : (q : ℕ) → q < 16 → (s : Set) × (get_elem? pts q ≡ some s) × IsFilled m q s

  get_elem?-replicate : (n q : ℕ) (s : Set) → q < n → get_elem? (replicate n s) q ≡ some s
  get_elem?-replicate zero q s h = absurd (omega arith)
  get_elem?-replicate (suc n) zero s h = refl
  get_elem?-replicate (suc n) (suc q) s h = get_elem?-replicate n q s (omega arith)

  pub new-AreFilled : AreFilled 0 (replicate 16 sets.new)
  new-AreFilled = record {
    count = refl;
    filled = λ q lt. (
      sets.new,
      get_elem?-replicate 16 q sets.new lt,
      record {
        size = law.new_length ∙ omega arith;
        below = λ x h. absurd (omega arith);
        above = λ x h. law.new_value x;
      },
    );
  }

  pub grown-AreFilled :
      (m : ℕ) (pts : List Set) (s : Set)
      → m / 16 < 2 ^ 16
      → get_elem? pts (m % 16) ≡ some s
      → IsFilled m (m % 16) s
      → AreFilled m pts
      → AreFilled (suc m) (set pts (m % 16) (sets.push s (record { x = m / 16; y = w m })))
  grown-AreFilled m pts s small found one h =
      let s' = sets.push s (record { x = m / 16; y = w m }) in
      record {
        count = length-set pts (m % 16) s' ∙ h.count;
        filled = λ q lt. elim (ℕ_discrete (m % 16) q) [
          | yes e ↦
              subst
                (λ t.
                  (v : Set) × (get_elem? (set pts (m % 16) s') t ≡ some v) × IsFilled (suc m) t v)
                e (s', get_elem?-set_self pts (m % 16) s s' found, grown-IsFilled m s small one)
          | no ne ↦
              let (v, found', one') = h.filled q lt in
              (v, get_elem?-set_other pts (m % 16) q s' ne ∙ found', kept-IsFilled m q v lt ne one')
        ];
      }
