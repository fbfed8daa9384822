-- ===== src/Encoding/Polynomial/Columns.antt =====
-- The words of a message in the encoder: word `i` stands in list `i % 16` at place `i / 16`, and chunk
-- `n` has the words from `16 * n` on.
use sparse_post_quantum_ratc.Prelude.{
  ℕ, zero, suc, ◌+◌, ◌-◌, ◌*◌, ◌/◌, ◌%◌, ◌^◌, ◌<◌, ◌≤◌, ◌≡◌, ◌≢◌, refl, ap, subst, ◌∙◌, List, [],
  ◌∷◌, ◌++◌, some, length, length-append, get_elem?, set, replicate, ok, Bool, arith,
}
use native.Mathlib.Decide.{dec_lt, ℕ_discrete}
use mathlib.Core.List.{append_assoc, append-nil}
use sparse_post_quantum_ratc.Types.{Bytes, EncodingError}
use sparse_post_quantum_ratc.Encoding.Polynomial.{to_be_bytes16, from_be_bytes16}
use sparse_post_quantum_ratc.Encoding.Polynomial.Encoder.{
  Point, points, deal, point_at, chunk_rounds, chunk_at, next_chunk,
}

-- The words of `msg` are those of `w` from `m` on.
abbrev pub Reads : (ℕ → ℕ) → ℕ → Bytes → Type 0
Reads w m [] = Unit {0}
Reads w m (a ∷ []) = ⊥
Reads w m (a ∷ b ∷ msg) = (from_be_bytes16 a b ≡ w m) × Reads w (suc m) msg

-- List `q` of the first `m` words.
pub record IsColumn (w : ℕ → ℕ) (m q : ℕ) (v : List ℕ) : Type 0 where
  pub size : length v ≡ (m + 15 - q) / 16
  pub words : (j : ℕ) → 16 * j + q < m → get_elem? v j ≡ some (w (16 * j + q))

abbrev pub Columns : (ℕ → ℕ) → ℕ → List Point → Type 0
Columns w m pts =
    (q : ℕ)
    → q < 16
    → (v : List ℕ) × (get_elem? pts q ≡ some (record { value = v })) × IsColumn w m q v

module _ {ℓ} {A : Type ℓ} where
  pub get_elem?-set_self :
      (xs : List A) (i : ℕ) (a b : A) → get_elem? xs i ≡ some a → get_elem? (set xs i b) i ≡ some b
  get_elem?-set_self [] i a b h = cc
  get_elem?-set_self (x ∷ xs) zero a b h = refl
  get_elem?-set_self (x ∷ xs) (suc i) a b h = get_elem?-set_self xs i a b h

  pub get_elem?-set_other :
      (xs : List A) (i j : ℕ) (b : A) → i ≢ j → get_elem? (set xs i b) j ≡ get_elem? xs j
  get_elem?-set_other [] i j b h = refl
  get_elem?-set_other (x ∷ xs) zero zero b h = absurd (h refl)
  get_elem?-set_other (x ∷ xs) zero (suc j) b h = refl
  get_elem?-set_other (x ∷ xs) (suc i) zero b h = refl
  get_elem?-set_other (x ∷ xs) (suc i) (suc j) b h =
      get_elem?-set_other xs i j b (λ e. h (ap suc e))

  pub get_elem?-last : (xs : List A) (a : A) → get_elem? (xs ++ a ∷ []) (length xs) ≡ some a
  get_elem?-last [] a = refl
  get_elem?-last (x ∷ xs) a = get_elem?-last xs a

  pub get_elem?-front :
      (xs ys : List A) (i : ℕ) (a : A) → get_elem? xs i ≡ some a → get_elem? (xs ++ ys) i ≡ some a
  get_elem?-front [] ys i a h = cc
  get_elem?-front (x ∷ xs) ys zero a h = h
  get_elem?-front (x ∷ xs) ys (suc i) a h = get_elem?-front xs ys i a h

module _ (w : ℕ → ℕ) where
  -- The list of the next word gets it.
  grown-IsColumn :
      (m : ℕ) (v : List ℕ) → IsColumn w m (m % 16) v → IsColumn w (suc m) (m % 16) (v ++ w m ∷ [])
  grown-IsColumn m v h =
      let place : length v ≡ m / 16 = omega (arith, h.size) in
      record {
        size = omega (arith, length-append v (w m ∷ []), h.size);
        words = λ j lt. elim (dec_lt (16 * j + m % 16) m) [
          | yes p ↦ get_elem?-front v (w m ∷ []) j (w (16 * j + m % 16)) (h.words j p)
          | no p ↦
              let e : j ≡ length v = omega arith in
              let f : 16 * j + m % 16 ≡ m = omega arith in rw f (rw e (get_elem?-last v (w m)))
        ];
      }

  -- The others stay.
  kept-IsColumn :
      (m q : ℕ) (v : List ℕ) → q < 16 → m % 16 ≢ q → IsColumn w m q v → IsColumn w (suc m) q v
  kept-IsColumn m q v lt ne h = record {
    size = omega (arith, h.size);
    words = λ j lt'. h.words j (omega arith);
  }

  deal_step :
      (a b : ℕ) (msg : Bytes) (m : ℕ) (pts : List Point) (v : List ℕ)
      → from_be_bytes16 a b ≡ w m
      → get_elem? pts (m % 16) ≡ some (record { value = v })
      → deal m (a ∷ b ∷ msg) pts
        ≡ deal (suc m) msg (set pts (m % 16) (record { value = v ++ w m ∷ [] }))
  unfolding deal
  deal_step a b msg m pts v r found = let f : m + 1 ≡ suc m = omega arith in rw (deal, found, f, r)

  pub deal-Columns :
      (msg : Bytes) (m : ℕ) (pts : List Point)
      → Reads w m msg
      → Columns w m pts
      → Columns w (m + length msg / 2) (deal m msg pts)
  unfolding deal
  deal-Columns [] m pts r h = let e : m + 0 / 2 ≡ m = omega arith in rw e h
  deal-Columns (a ∷ []) m pts r h = absurd r
  deal-Columns (a ∷ b ∷ msg) m pts r h =
      let (v, found, column) = h (m % 16) (omega arith) in
      let e : m + suc (suc (length msg)) / 2 ≡ suc m + length msg / 2 = omega arith in
      rw (e, deal_step a b msg m pts v r.0 found)
        (deal-Columns msg (suc m) (set pts (m % 16) (record { value = v ++ w m ∷ [] })) r.1
          (grow m pts v found column h))
    where
      grow :
          (m : ℕ) (pts : List Point) (v : List ℕ)
          → get_elem? pts (m % 16) ≡ some (record { value = v })
          → IsColumn w m (m % 16) v
          → Columns w m pts
          → Columns w (suc m) (set pts (m % 16) (record { value = v ++ w m ∷ [] }))
      grow m pts v found column h q lt = elim (ℕ_discrete (m % 16) q) [
        | yes e ↦
            subst
              (λ t.
                (v' : List ℕ) × (get_elem? (set pts (m % 16) (record { value = v ++ w m ∷ [] })) t
                  ≡ some (record { value = v' }))
                × IsColumn w (suc m) t v')
              e
              (
                v ++ w m ∷ [],
                get_elem?-set_self pts (m % 16) (record { value = v })
                    (record { value = v ++ w m ∷ [] }) found,
                grown-IsColumn m v column,
              )
        | no ne ↦
            let (v', found', column') = h q lt in
            (
              v',
              get_elem?-set_other pts (m % 16) q (record { value = v ++ w m ∷ [] }) ne ∙ found',
              kept-IsColumn m q v' lt ne column',
            )
      ]

  get_elem?-replicate : (n q : ℕ) (pt : Point) → q < n → get_elem? (replicate n pt) q ≡ some pt
  get_elem?-replicate zero q pt h = absurd (omega arith)
  get_elem?-replicate (suc n) zero pt h = refl
  get_elem?-replicate (suc n) (suc q) pt h = get_elem?-replicate n q pt (omega arith)

  pub empty-Columns : Columns w 0 (replicate 16 (record { value = [] }))
  empty-Columns q lt = (
    [],
    get_elem?-replicate 16 q (record { value = [] }) lt,
    record { size = omega arith; words = λ j h. absurd (omega arith) },
  )

  -- The bytes of `n` words from `start` on.
  abbrev pub bytes_from : ℕ → ℕ → Bytes
  bytes_from start zero = []
  bytes_from start (suc n) = to_be_bytes16 (w start) ++ bytes_from (suc start) n

  point_at-word :
      (debug : Bool) (idx : ℕ) (pts : List Point) (m i : ℕ)
      → Columns w m pts
      → i < m
      → point_at {E = EncodingError} debug (record { idx = idx; s = points pts }) (i % 16) (i / 16)
        ≡ ok (record { idx = idx; s = points pts }, w i)
  unfolding point_at
  point_at-word debug idx pts m i h lt =
      let (v, found, column) = h (i % 16) (omega arith) in
      let e : 16 * (i / 16) + i % 16 ≡ i = omega arith in
      let word : get_elem? v (i / 16) ≡ some (w i) =
        column.words (i / 16) (omega arith) ∙ ap (λ t. some (w t)) e in
      rw (point_at, found, word)

  chunk_rounds-words :
      (debug : Bool) (n i idx m : ℕ) (pts : List Point) (at : ℕ) (out : Bytes)
      → Columns w m pts
      → idx * 16 + i + n ≤ m
      → chunk_rounds {E = EncodingError} debug n i (record { idx = at; s = points pts }) idx out
        ≡ ok (record { idx = at; s = points pts }, out ++ bytes_from (idx * 16 + i) n)
  unfolding chunk_rounds
  chunk_rounds-words debug zero i idx m pts at out h le = rw (append-nil out)
  chunk_rounds-words debug (suc n) i idx m pts at out h le =
      let e : idx * 16 + (i + 1) ≡ suc (idx * 16 + i) = omega arith in
      let x = w (idx * 16 + i) in
      rw (
        point_at-word debug at pts m (idx * 16 + i) h (omega arith),
        chunk_rounds-words debug n (i + 1) idx m pts at (out ++ to_be_bytes16 x) h (omega arith),
        e,
        append_assoc out (to_be_bytes16 x) (bytes_from (suc (idx * 16 + i)) n),
      )

  -- While the message lasts, the chunk of the encoder's index has the words from there on.
  pub next_chunk-words :
      (debug : Bool) (idx m : ℕ) (pts : List Point)
      → Columns w m pts
      → idx * 16 + 16 ≤ m
      → idx + 1 < 2 ^ 16
      → next_chunk {E = EncodingError} debug (record { idx = idx; s = points pts })
        ≡ ok (
          record { idx = idx + 1; s = points pts },
          record { index = idx; data_bytes = bytes_from (idx * 16) 16 },
        )
  unfolding next_chunk chunk_at
  next_chunk-words debug idx m pts h le small =
      let e : idx % 2 ^ 16 ≡ idx = omega arith in
      let f : (idx + 1) % 2 ^ 32 ≡ idx + 1 = omega arith in
      let z : idx * 16 + 0 ≡ idx * 16 = omega arith in
      rw (e, chunk_rounds-words debug 16 0 idx m pts idx [] h (omega arith), f, z)
