-- ===== src/Encoding/Polynomial/Gather.antt =====
-- The sets of points of the decoder of src/encoding/polynomial.rs, when chunks of a code come in any
-- order: each set has points of its curve at different places, and one more for each chunk until it
-- has enough.
pub mod Rounds
use sparse_post_quantum_ratc.Prelude.{
  ℕ, zero, suc, ◌+◌, ◌*◌, ◌/◌, ◌%◌, ◌^◌, ◌<◌, ◌≤◌, ◌≡◌, ◌≢◌, refl, sym, ap, subst, ◌∙◌, List, [],
  ◌∷◌, ◌++◌, All, length, length-set, set, get_elem?, Bool, false, Bool-cases, ltb, ◌||◌, some, inl,
  inr, ◌⊎◌, ok, ◌>>=◌, IsU16, replicate, arith,
}
use native.Mathlib.Decide.{ℕ_discrete}
use sparse_post_quantum_ratc.Types.{EncodingError}
use sparse_post_quantum_ratc.Encoding.Polynomial.{Pt, from_be_bytes16}
use sparse_post_quantum_ratc.Encoding.Polynomial.Roots.{IsPt}
use sparse_post_quantum_ratc.Encoding.Polynomial.Distinct.{Fresh, AreDistinct}
use sparse_post_quantum_ratc.Encoding.Polynomial.Columns.{
  bytes_from, get_elem?-set_self, get_elem?-set_other,
}
use sparse_post_quantum_ratc.Encoding.Polynomial.Decoder.{
  SortedSet, PolyDecoder, necessary_points, add_point, add_rounds, add_chunk,
}

-- What the documentation of sorted_vec says of the elements of a set in order: one that it does not
-- have is inserted, and a search that succeeds gives the place of an equal one.
pub record IsOrderedSet {Set : Type 0} (sets : SortedSet Set) : Type 0 where
  pub new_slice : sets.as_slice sets.new ≡ []
  pub push_slice :
      (s : Set) (p : Pt)
      → Fresh p.x (sets.as_slice s)
      → (front back : List Pt) × (sets.as_slice s ≡ front ++ back)
        × (sets.as_slice (sets.push s p) ≡ front ++ p ∷ back)
  pub search_found :
      (s : Set) (p : Pt) (i : ℕ)
      → sets.binary_search s p ≡ some i
      → (q : Pt) × (get_elem? (sets.as_slice s) i ≡ some q) × (q.x ≡ p.x)

All_inserted :
    (P : Pt → Type 0) (front back : List Pt) (p : Pt)
    → All P (front ++ back)
    → P p
    → All P (front ++ p ∷ back)
All_inserted P [] back p h hp = (hp, h)
All_inserted P (q ∷ front) back p h hp = (h.0, All_inserted P front back p h.1 hp)

AreDistinct-inserted :
    (front back : List Pt) (p : Pt)
    → AreDistinct (front ++ back)
    → Fresh p.x (front ++ back)
    → AreDistinct (front ++ p ∷ back)
AreDistinct-inserted [] back p h fresh = (fresh, h)
AreDistinct-inserted (q ∷ front) back p h fresh = (
  All_inserted (λ r. q.x ≢ r.x) front back p h.0 (λ e. fresh.0 (sym e)),
  AreDistinct-inserted front back p h.1 fresh.1,
)

length_inserted :
    (front back : List Pt) (p : Pt) → length (front ++ p ∷ back) ≡ suc (length (front ++ back))
length_inserted [] back p = refl
length_inserted (q ∷ front) back p = ap suc (length_inserted front back p)

-- Places that have not come.
abbrev pub AreMissing : List Pt → List ℕ → Type 0
AreMissing pts js = All (λ j. Fresh j pts) js

AreMissing-inserted :
    (front back : List Pt) (p : Pt) (js : List ℕ)
    → All (λ j. p.x ≢ j) js
    → AreMissing (front ++ back) js
    → AreMissing (front ++ p ∷ back) js
AreMissing-inserted front back p [] ne h = tt
AreMissing-inserted front back p (j ∷ js) ne h = (
  All_inserted (λ r. j ≢ r.x) front back p h.0 (λ e. ne.0 (sym e)),
  AreMissing-inserted front back p js ne.1 h.1,
)

module _ {Set : Type 0} (sets : SortedSet Set) (law : IsOrderedSet sets) (w : ℕ → ℕ) (k : ℕ) where
  -- Set `q` after `n` chunks, before those of `js`.
  pub record IsGathered (js : List ℕ) (n q : ℕ) (s : Set) : Type 0 where
    pub placed : All IsPt (sets.as_slice s)
    pub right : All (λ (p : Pt). p.y ≡ w (16 * p.x + q)) (sets.as_slice s)
    pub distinct : AreDistinct (sets.as_slice s)
    pub missing : AreMissing (sets.as_slice s) js
    pub enough : (n ≤ length (sets.as_slice s)) ⊎ (k ≤ length (sets.as_slice s))

  -- The point of a new chunk.
  abbrev pub point_of : ℕ → ℕ → Pt
  point_of q j = record { x = j; y = w (16 * j + q) }

  pushed-IsGathered :
      (j : ℕ) (js : List ℕ) (n q : ℕ) (s : Set)
      → j < 2 ^ 16
      → IsU16 (w (16 * j + q))
      → All (λ i. j ≢ i) js
      → IsGathered (j ∷ js) n q s
      → IsGathered js (suc n) q (sets.push s (point_of q j))
  pushed-IsGathered j js n q s small range ne h =
      let p = point_of q j in
      let (front, back, before, after) = law.push_slice s p h.missing.0 in
      let longer : length (sets.as_slice (sets.push s p)) ≡ suc (length (sets.as_slice s)) =
        ap length after ∙ length_inserted front back p ∙ ap (λ l. suc (length l)) (sym before) in
      record {
        placed =
            subst (All IsPt) (sym after)
              (All_inserted IsPt front back p (subst (All IsPt) before h.placed) (small, range));
        right = subst (All (λ (r : Pt). r.y ≡ w (16 * r.x + q))) (sym after) (
            All_inserted (λ r. r.y ≡ w (16 * r.x + q)) front back p
              (subst (All (λ (r : Pt). r.y ≡ w (16 * r.x + q))) before h.right) refl);
        distinct = subst AreDistinct (sym after) (
            AreDistinct-inserted front back p (subst AreDistinct before h.distinct)
              (subst (Fresh j) before h.missing.0));
        missing =
            subst (λ l. AreMissing l js) (sym after)
              (AreMissing-inserted front back p js ne
                (subst (λ l. AreMissing l js) before h.missing.1));
        enough = elim h.enough [
          | inl le ↦ inl (omega (arith, longer, le))
          | inr le ↦ inr (omega (arith, longer, le))
        ];
      }

  skipped-IsGathered :
      (j : ℕ) (js : List ℕ) (n q : ℕ) (s : Set)
      → k ≤ length (sets.as_slice s)
      → IsGathered (j ∷ js) n q s
      → IsGathered js (suc n) q s
  skipped-IsGathered j js n q s le h = record {
    placed = h.placed;
    right = h.right;
    distinct = h.distinct;
    missing = h.missing.1;
    enough = inr le;
  }

  -- A decoder of `k` chunks that is not complete.
  abbrev pub gathering : List Set → PolyDecoder Set
  gathering pts = record { pts_needed = 16 * k; pts = pts; is_complete = false }

  pub necessary_points-gathering : (i : ℕ) (pts : List Set) → necessary_points (gathering pts) i ≡ k
  unfolding necessary_points
  necessary_points-gathering i pts = ground arith

  -- The sets, where only the one of `q` is another.
  pub record IsUpdated (js : List ℕ) (n q : ℕ) (pts pts' : List Set) : Type 0 where
    pub count : length pts' ≡ length pts
    pub fresh : (s : Set) × (get_elem? pts' q ≡ some s) × IsGathered js (suc n) q s
    pub kept : (i : ℕ) → q ≢ i → get_elem? pts' i ≡ get_elem? pts i

  is_used : ℕ → Set → Bool
  is_used j s = ltb j k || ltb (length (sets.as_slice s)) k

  pub add_point-IsUpdated :
      (j : ℕ) (js : List ℕ) (n q : ℕ) (pts : List Set) (s : Set)
      → j < 2 ^ 16
      → IsU16 (w (16 * j + q))
      → All (λ i. j ≢ i) js
      → get_elem? pts q ≡ some s
      → IsGathered (j ∷ js) n q s
      → (pts' : List Set) × (add_point sets {E = EncodingError} (gathering pts) q q j (point_of q j)
          ≡ ok (gathering pts'))
        × IsUpdated js n q pts pts'
  unfolding add_point is_used
  add_point-IsUpdated j js n q pts s small range ne found h =
      let s' = sets.push s (point_of q j) in
      elim (Bool-cases (is_used j s)) [
        | inl used ↦ (
          set pts q s',
          rw (add_point, found, necessary_points-gathering q pts, used),
          record {
            count = length-set pts q s';
            fresh = (
              s',
              get_elem?-set_self pts q s s' found,
              pushed-IsGathered j js n q s small range ne h,
            );
            kept = λ i other. get_elem?-set_other pts q i s' other;
          },
        )
        | inr unused ↦ (
          pts,
          rw (add_point, found, necessary_points-gathering q pts, unused),
          record {
            count = refl;
            fresh = (s, found, skipped-IsGathered j js n q s (ground (arith, unused)) h);
            kept = λ i other. refl;
          },
        )
      ]
