-- ===== src/Encoding/Polynomial/Gather/Rounds.antt =====
-- `add_chunk` of src/encoding/polynomial.rs: each of its rounds adds the point of the chunk to one set, and
-- all sets together go from one chunk to the next.
use sparse_post_quantum_ratc.Prelude.{
  ℕ, zero, suc, ◌+◌, ◌*◌, ◌/◌, ◌%◌, ◌^◌, ◌<◌, ◌≤◌, ◌≡◌, ◌≢◌, refl, sym, ap, subst, ◌∙◌, List, [],
  ◌∷◌, All, length, get_elem?, some, inl, ok, ◌>>=◌, IsU16, replicate, arith,
}
use native.Mathlib.Decide.{ℕ_discrete}
use sparse_post_quantum_ratc.Types.{EncodingError}
use sparse_post_quantum_ratc.Encoding.Polynomial.{Pt, from_be_bytes16}
use sparse_post_quantum_ratc.Encoding.Polynomial.Roots.{IsPt}
use sparse_post_quantum_ratc.Encoding.Polynomial.Distinct.{AreDistinct}
use sparse_post_quantum_ratc.Encoding.Polynomial.Columns.{bytes_from}
use sparse_post_quantum_ratc.Encoding.Polynomial.Decoder.{
  SortedSet, add_point, add_rounds, add_chunk,
}
use sparse_post_quantum_ratc.Encoding.Polynomial.Gather.{
  IsOrderedSet, AreMissing, IsGathered, point_of, gathering, IsUpdated, add_point-IsUpdated,
}

module _ {Set : Type 0} (sets : SortedSet Set) (law : IsOrderedSet sets) (w : ℕ → ℕ) (k : ℕ) where
  -- The sets below `i` have the point of chunk `j`, the others do not yet.
  pub record AreGathered (i j : ℕ) (js : List ℕ) (n : ℕ) (pts : List Set) : Type 0 where
    pub count : length pts ≡ 16
    pub set_of :
        (q : ℕ)
        → q < 16
        → (s : Set) × (get_elem? pts q ≡ some s)
          × (q < i → IsGathered sets law w k js (suc n) q s)
          × (i ≤ q → IsGathered sets law w k (j ∷ js) n q s)

  updated-AreGathered :
      (i j : ℕ) (js : List ℕ) (n : ℕ) (pts pts' : List Set)
      → AreGathered i j js n pts
      → IsUpdated sets law w k js n i pts pts'
      → AreGathered (suc i) j js n pts'
  updated-AreGathered i j js n pts pts' h new = record {
    count = new.count ∙ h.count;
    set_of = λ q lt. elim (ℕ_discrete i q) [
      | yes e ↦
          let (s, found, one) = new.fresh in
          (
            s,
            subst (λ t. get_elem? pts' t ≡ some s) e found,
            (λ below. subst (λ t. IsGathered sets law w k js (suc n) t s) e one),
            (λ above. absurd (omega (arith, e, above))),
          )
      | no ne ↦
          let (s, found, below, above) = h.set_of q lt in
          (
            s,
            new.kept q ne ∙ found,
            (λ less. below (omega (arith, ne, less))),
            (λ more. above (omega (arith, more))),
          )
    ];
  }

  add_word :
      (i j : ℕ) (pts pts' : List Set)
      → i < 16
      → j < 2 ^ 16
      → IsU16 (w (16 * j + i))
      → add_point sets {E = EncodingError}
          (gathering sets law w k pts)
          i
          i
          j
          (point_of sets law w k i j)
        ≡ ok (gathering sets law w k pts')
      → add_point sets {E = EncodingError}
          (gathering sets law w k pts)
          i
          ((j * 16 + i) % 16)
          ((j * 16 + i) / 16)
          (record {
            x = (j * 16 + i) / 16 % 2 ^ 16;
            y = from_be_bytes16 (w (16 * j + i) / 2 ^ 8 % 2 ^ 8) (w (16 * j + i) % 2 ^ 8);
          })
        ≡ ok (gathering sets law w k pts')
  add_word i j pts pts' li lj range ran =
      let set_place : (j * 16 + i) % 16 ≡ i = omega arith in
      let place : (j * 16 + i) / 16 ≡ j = omega arith in
      let small : j % 2 ^ 16 ≡ j = omega arith in
      let word : from_be_bytes16 (w (16 * j + i) / 2 ^ 8 % 2 ^ 8) (w (16 * j + i) % 2 ^ 8)
          ≡ w (16 * j + i) =
        omega (arith, range) in
      rw (set_place, place, small, word) ran

  add_round :
      (m i j : ℕ) (pts pts' : List Set)
      → i < 16
      → j < 2 ^ 16
      → IsU16 (w (16 * j + i))
      → add_point sets {E = EncodingError}
          (gathering sets law w k pts)
          i
          i
          j
          (point_of sets law w k i j)
        ≡ ok (gathering sets law w k pts')
      → add_rounds sets {E = EncodingError}
          (suc m)
          i
          j
          (bytes_from w (16 * j + i) (suc m))
          (gathering sets law w k pts)
        ≡ add_rounds sets {E = EncodingError} m
            (i + 1)
            j
            (bytes_from w (suc (16 * j + i)) m)
            (gathering sets law w k pts')
  unfolding add_rounds
  add_round m i j pts pts' li lj range ran =
      ap
        (λ o. o >>= (λ self.
          add_rounds sets {E = EncodingError} m (i + 1) j (bytes_from w (suc (16 * j + i)) m) self))
        (add_word i j pts pts' li lj range ran)

  add_rounds-AreGathered :
      (m i j : ℕ) (js : List ℕ) (n : ℕ) (pts : List Set)
      → ((l : ℕ) → IsU16 (w l))
      → i + m ≡ 16
      → j < 2 ^ 16
      → All (λ l. j ≢ l) js
      → AreGathered i j js n pts
      → (pts' : List Set) × (add_rounds sets {E = EncodingError} m i j
            (bytes_from w (16 * j + i) m)
            (gathering sets law w k pts)
          ≡ ok (gathering sets law w k pts'))
        × AreGathered 16 j js n pts'
  unfolding add_rounds
  add_rounds-AreGathered zero i j js n pts range at small ne h =
      (pts, refl, subst (λ t. AreGathered t j js n pts) (omega (arith, at)) h)
  add_rounds-AreGathered (suc m) i j js n pts range at small ne h =
      let (s, found, below, above) = h.set_of i (omega (arith, at)) in
      let (pts', ran, new) =
        add_point-IsUpdated sets law w k j js n i pts s small (range (16 * j + i)) ne found
          (above (omega arith)) in
      let e : suc (16 * j + i) ≡ 16 * j + suc i = omega arith in
      let f : suc i ≡ i + 1 = omega arith in
      let (out, rest, done) =
        add_rounds-AreGathered m (suc i) j js n pts' range (omega (arith, at)) small ne
          (updated-AreGathered i j js n pts pts' h new) in
      (
        out,
        add_round m i j pts pts' (omega (arith, at)) small (range (16 * j + i)) ran
            ∙ ap
                (λ t.
                  add_rounds sets {E = EncodingError} m t j (bytes_from w (suc (16 * j + i)) m)
                    (gathering sets law w k pts'))
                (sym f)
            ∙ ap
                (λ t.
                  add_rounds sets {E = EncodingError} m (suc i) j (bytes_from w t m)
                    (gathering sets law w k pts'))
                e
            ∙ rest,
        done,
      )

  -- The sets between two chunks.
  abbrev pub AreReady : List ℕ → ℕ → List Set → Type 0
  AreReady js n pts =
      (length pts ≡ 16)
      × ((q : ℕ)
          → q < 16
          → (s : Set) × (get_elem? pts q ≡ some s) × IsGathered sets law w k js n q s)

  pub add_chunk-AreReady :
      (j : ℕ) (js : List ℕ) (n : ℕ) (pts : List Set)
      → ((l : ℕ) → IsU16 (w l))
      → j < 2 ^ 16
      → All (λ l. j ≢ l) js
      → AreReady (j ∷ js) n pts
      → (pts' : List Set) × (add_chunk sets {E = EncodingError}
            (gathering sets law w k pts)
            (record { index = j; data_bytes = bytes_from w (j * 16) 16 })
          ≡ ok (gathering sets law w k pts'))
        × AreReady js (suc n) pts'
  unfolding add_chunk
  add_chunk-AreReady j js n pts range small ne ready =
      let start : AreGathered 0 j js n pts = record {
        count = ready.0;
        set_of = λ q lt.
            let (s, found, one) = ready.1 q lt in
            (s, found, (λ below. absurd (omega (arith, below))), (λ above. one));
      } in
      let (pts', ran, done) = add_rounds-AreGathered 16 0 j js n pts range refl small ne start in
      let e : j * 16 ≡ 16 * j + 0 = omega arith in
      (
        pts',
        ap
              (λ t.
                add_rounds sets {E = EncodingError} 16 0 j (bytes_from w t 16)
                  (gathering sets law w k pts))
              e
            ∙ ran,
        (
          done.count,
          λ q lt. let (s, found, below, above) = done.set_of q lt in (s, found, below lt),
        ),
      )

  get_elem?-replicate : (n q : ℕ) (s : Set) → q < n → get_elem? (replicate n s) q ≡ some s
  get_elem?-replicate zero q s h = absurd (omega arith)
  get_elem?-replicate (suc n) zero s h = refl
  get_elem?-replicate (suc n) (suc q) s h = get_elem?-replicate n q s (omega arith)

  none_missing : (js : List ℕ) → AreMissing [] js
  none_missing [] = tt
  none_missing (j ∷ js) = (tt, none_missing js)

  pub new-AreReady : (js : List ℕ) → AreReady js 0 (replicate 16 sets.new)
  new-AreReady js = (
    refl,
    λ q lt. (
      sets.new,
      get_elem?-replicate 16 q sets.new lt,
      record {
        placed = subst (All IsPt) (sym law.new_slice) tt;
        right = subst (All (λ (p : Pt). p.y ≡ w (16 * p.x + q))) (sym law.new_slice) tt;
        distinct = subst AreDistinct (sym law.new_slice) tt;
        missing = subst (λ l. AreMissing l js) (sym law.new_slice) (none_missing js);
        enough = inl (omega arith);
      },
    ),
  )
