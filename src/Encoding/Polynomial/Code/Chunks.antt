-- ===== src/Encoding/Polynomial/Code/Chunks.antt =====
-- `chunk_at` of src/encoding/polynomial.rs: a chunk has the code words of its places, whether the encoder
-- still has the lists of words or has made the polynomials.
use sparse_post_quantum_ratc.Prelude.{
  ℕ, Bool, zero, suc, ◌+◌, ◌*◌, ◌/◌, ◌%◌, ◌^◌, ◌<◌, ◌≤◌, ◌≡◌, refl, sym, ap, subst, ◌∙◌, List, [],
  ◌++◌, length, get_elem?, some, inl, inr, ok, IsU16, ◌⊎◌, arith,
}
use native.Mathlib.Decide.{dec_lt}
use mathlib.Core.List.{append_assoc, append-nil}
use sparse_post_quantum_ratc.Types.{Bytes, EncodingError}
use sparse_post_quantum_ratc.Encoding.Gf.Field.{el}
use sparse_post_quantum_ratc.Encoding.Polynomial.{Poly, word_at, compute_at, to_be_bytes16}
use sparse_post_quantum_ratc.Encoding.Polynomial.Value.{compute_at-value, compute_at-IsU16}
use sparse_post_quantum_ratc.Encoding.Polynomial.Complete.Places.{el_cancel}
use sparse_post_quantum_ratc.Encoding.Polynomial.Encoder.{
  Point, EncoderState, points, polys, poly_value, point_at, chunk_rounds, chunk_at,
}
use sparse_post_quantum_ratc.Encoding.Polynomial.Columns.{bytes_from}
use sparse_post_quantum_ratc.Encoding.Polynomial.Code.{
  code, get_elem?-below, get_elem?-beyond, IsEncoded, column_word,
}

module _ (debug : Bool) (w : ℕ → ℕ) (k : ℕ) (pts : List Point) (ps : List Poly)
    (h : IsEncoded debug w k pts ps) where
  pub code_value :
      (q x : ℕ) (p : Poly)
      → get_elem? ps q ≡ some p
      → q < 16
      → x < 2 ^ 16
      → code ps (16 * x + q) ≡ compute_at p x
  code_value q x p found lq lx =
      let e : (16 * x + q) % 16 ≡ q = omega arith in
      let f : (16 * x + q) / 16 % 2 ^ 16 ≡ x = omega arith in rw (e, found, f)

  -- The message stands first in the code.
  pub code_word : (i : ℕ) → ((j : ℕ) → IsU16 (w j)) → i < 16 * k → k ≤ 2 ^ 16 → code ps i ≡ w i
  code_word i range lt le =
      let q = i % 16 in
      let x = i / 16 in
      let (v, p, found, stored, column, fits) = h.lists q (omega arith) in
      let e : 16 * x + q ≡ i = omega arith in
      let inside : x < length v = omega (arith, column.size) in
      let word : word_at v x ≡ w i = column_word w k q x v (omega arith) inside column ∙ ap w e in
      let same : el (compute_at p x) ≡ el (w i) =
        compute_at-value p x fits.small (omega arith) ∙ fits.values x inside ∙ ap el word in
      ap (code ps) (sym e)
      ∙ code_value q x p stored (omega arith) (omega arith)
      ∙ el_cancel (compute_at p x) (w i) (compute_at-IsU16 p x) (range i) same

  -- The encoder still has the lists, or has made the polynomials.
  abbrev pub Encodes : EncoderState → Type 0
  Encodes s = (s ≡ points pts) ⊎ (s ≡ polys ps)

  poly_value-code :
      (i : ℕ) → i < 2 ^ 20 → poly_value {E = EncodingError} ps (i % 16) (i / 16) ≡ ok (code ps i)
  unfolding poly_value
  poly_value-code i lt =
      let (v, p, found, stored, column, fits) = h.lists (i % 16) (omega arith) in
      rw (poly_value, stored)

  abbrev IsAnswered : ℕ → ℕ → EncoderState → Type 0
  IsAnswered at i s =
      (s' : EncoderState) × (point_at {E = EncodingError} debug (record { idx = at; s = s })
          (i % 16) (i / 16)
        ≡ ok (record { idx = at; s = s' }, code ps i))
      × Encodes s'

  point_at-polys : (at i : ℕ) → i < 2 ^ 20 → IsAnswered at i (polys ps)
  unfolding point_at
  point_at-polys at i lt = (polys ps, rw (poly_value-code i lt), inr refl)

  point_at-points :
      (at i : ℕ) → ((j : ℕ) → IsU16 (w j)) → k ≤ 2 ^ 16 → i < 2 ^ 20 → IsAnswered at i (points pts)
  unfolding point_at
  point_at-points at i range le lt =
      let (v, p, found, stored, column, fits) = h.lists (i % 16) (omega arith) in
      elim (dec_lt (i / 16) (length v)) [
        | yes inside ↦
            let word : get_elem? v (i / 16) ≡ some (code ps i) =
              get_elem?-below v (i / 16) inside
              ∙ ap some (
                  column_word w k (i % 16) (i / 16) v (omega arith) inside column
                  ∙ ap w (omega arith)
                  ∙ sym (code_word i range (omega (arith, column.size, inside)) le)) in
            (points pts, rw (point_at, found, word), inl refl)
        | no outside ↦
            let none_left = get_elem?-beyond v (i / 16) (omega (arith, outside)) in
            (polys ps, rw (point_at, found, none_left, h.made, poly_value-code i lt), inr refl)
      ]

  point_at-code :
      (at i : ℕ) (s : EncoderState)
      → ((j : ℕ) → IsU16 (w j))
      → k ≤ 2 ^ 16
      → i < 2 ^ 20
      → Encodes s
      → IsAnswered at i s
  point_at-code at i s range le lt (inl e) =
      subst (IsAnswered at i) (sym e) (point_at-points at i range le lt)
  point_at-code at i s range le lt (inr e) =
      subst (IsAnswered at i) (sym e) (point_at-polys at i lt)

  chunk_rounds-code :
      (n i idx at : ℕ) (out : Bytes) (s : EncoderState)
      → ((j : ℕ) → IsU16 (w j))
      → k ≤ 2 ^ 16
      → idx * 16 + i + n ≤ 2 ^ 20
      → Encodes s
      → (s' : EncoderState) × (chunk_rounds {E = EncodingError} debug n i
            (record { idx = at; s = s })
            idx
            out
          ≡ ok (record { idx = at; s = s' }, out ++ bytes_from (code ps) (idx * 16 + i) n))
        × Encodes s'
  unfolding chunk_rounds
  chunk_rounds-code zero i idx at out s range le top encodes =
      (s, rw (append-nil out) refl, encodes)
  chunk_rounds-code (suc n) i idx at out s range le top encodes =
      let here = idx * 16 + i in
      let (t, ran, encodes') = point_at-code at here s range le (omega arith) encodes in
      let y = code ps here in
      let (u, rest, done) =
        chunk_rounds-code n (i + 1) idx at (out ++ to_be_bytes16 y) t range le (omega arith)
          encodes' in
      let e : idx * 16 + (i + 1) ≡ suc here = omega arith in
      (
        u,
        rw ran rest
            ∙ ap (λ z. ok (record { idx = at; s = u }, z))
                (append_assoc out (to_be_bytes16 y) (bytes_from (code ps) (idx * 16 + (i + 1)) n)
                  ∙ ap (λ z. out ++ (to_be_bytes16 y ++ bytes_from (code ps) z n)) e),
        done,
      )

  -- Chunk `idx` has the code words from `16 * idx` on, in either state.
  pub chunk_at-code :
      (idx at : ℕ) (s : EncoderState)
      → ((j : ℕ) → IsU16 (w j))
      → k ≤ 2 ^ 16
      → idx < 2 ^ 16
      → Encodes s
      → (s' : EncoderState) × (chunk_at {E = EncodingError} debug (record { idx = at; s = s }) idx
          ≡ ok (
            record { idx = at; s = s' },
            record { index = idx; data_bytes = bytes_from (code ps) (idx * 16) 16 },
          ))
        × Encodes s'
  unfolding chunk_at
  chunk_at-code idx at s range le lt encodes =
      let (t, ran, done) = chunk_rounds-code 16 0 idx at [] s range le (omega arith) encodes in
      let z : idx * 16 + 0 ≡ idx * 16 = omega arith in
      (
        t,
        rw ran (
            ap
              (λ z. ok (
                record { idx = at; s = t },
                record { index = idx; data_bytes = bytes_from (code ps) z 16 },
              ))
              z),
        done,
      )
