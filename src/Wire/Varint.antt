-- ===== src/Wire/Varint.antt =====
-- Varints: what `encode_varint` writes, as arithmetic, and that `decode_varint` reads it back.
use Prim.Native.Nat.{min, bit_and, bit_or}
use mathlib.Core.List.{append-nil, append_assoc}
use native.Mathlib.Nat.{div-add-mod}
use native.Mathlib.Decide.{dec_lt}
use native.Mathlib.Numerals.{towards_suc}
use sparse_post_quantum_ratc.Prelude.{
  ℕ, zero, suc, ◌+◌, ◌-◌, ◌*◌, ◌/◌, ◌%◌, ◌^◌, ◌≤◌, ◌<◌, ◌≡◌, refl, sym, ap, ◌∙◌, true, List, [],
  ◌∷◌, ◌++◌, ltb, if◌then◌else◌, length, length-append, get_elem?, ok, arith, IsU64, some, lt→ltb,
}
use sparse_post_quantum_ratc.Prelude.Bits.{bit_and-mask, bit_and-top, bit_or-mark, bit_or-field}
use sparse_post_quantum_ratc.Types.{Bytes}
use sparse_post_quantum_ratc.Wire.{
  index, encode_rounds, encode_varint, decode_rounds, decode_varint,
}

-- The groups of seven bits of `v`, lowest first, all but the last marked; at most `k` of them.
unfoldable pub groups : ℕ → ℕ → Bytes
groups zero v = []
groups (suc k) v =
    let rest = groups k (v / 128) in if ltb v 128 then v ∷ [] else (v % 128 + 128) ∷ rest

pub groups_last : (k v : ℕ) → v < 128 → groups (suc k) v ≡ v ∷ []
unfolding groups
groups_last k v h = ground arith

pub groups_more : (k v : ℕ) → 128 ≤ v → groups (suc k) v ≡ (v % 128 + 128) ∷ groups k (v / 128)
unfolding groups
groups_more k v h = ground arith

encode_rounds-groups : (k v : ℕ) (into : Bytes) → encode_rounds k v into ≡ into ++ groups k v
unfolding encode_rounds groups
encode_rounds-groups zero v into = sym (append-nil into)
encode_rounds-groups (suc k) v into = ground (
  arith,
  bit_and-mask v,
  bit_or-mark (v % 128),
  encode_rounds-groups k (v / 128) (into ++ (v % 128 + 128) ∷ []),
  append_assoc into ((v % 128 + 128) ∷ []) (groups k (v / 128)),
)

pub get_elem?-middle {ℓ} :
    {A : Type ℓ} (front : List A) (x : A) (back : List A)
    → get_elem? (front ++ x ∷ back) (length front) ≡ some x
get_elem?-middle [] x back = refl
get_elem?-middle (y ∷ front) x back = get_elem?-middle front x back

pub index_middle :
    {A : Type 0} (from front back : List A) (x : A) (n : ℕ)
    → from ≡ front ++ x ∷ back
    → n ≡ length front
    → index from n ≡ ok x
index_middle from front back x n e h = ground (arith, get_elem?-middle front x back)

next_group : (i : ℕ) → 2 ^ (7 * (i + 1)) ≡ 128 * 2 ^ (7 * i)
next_group i =
    let e : 7 * (i + 1) ≡ 7 * i + 7 = omega arith in rw e (simp towards_suc (omega arith))

-- The lowest group of `v` and the rest, both from bit `7 * i` on.
split_group : (v i : ℕ) → v * 2 ^ (7 * i) ≡ v % 128 * 2 ^ (7 * i) + v / 128 * 2 ^ (7 * (i + 1))
split_group v i = omega (
  arith,
  ap (λ (t : ℕ). t * 2 ^ (7 * i)) (div-add-mod v 128),
  ap (λ (t : ℕ). v / 128 * t) (next_group i),
)

-- One round on the last byte, and on a marked byte over the group `g`.
last_round :
    (k w start i out : ℕ) (from : Bytes)
    → index from (start + i) ≡ ok w
    → w < 128
    → out < 2 ^ (7 * i)
    → out + w * 2 ^ (7 * i) < 2 ^ 64
    → decode_rounds (suc k) from start i out ≡ ok (out + w * 2 ^ (7 * i), i + 1, true)
unfolding decode_rounds
last_round k w start i out from e hw low fits =
    rw e (ground (arith, bit_and-mask w, bit_and-top w, bit_or-field (7 * i) out w))

marked_round :
    (k g start i out : ℕ) (from : Bytes)
    → index from (start + i) ≡ ok (g + 128)
    → g < 128
    → out < 2 ^ (7 * i)
    → out + g * 2 ^ (7 * i) < 2 ^ 64
    → decode_rounds (suc k) from start i out
      ≡ decode_rounds k from start (i + 1) (out + g * 2 ^ (7 * i))
unfolding decode_rounds
marked_round k g start i out from e hg low fits =
    let low_part : bit_and (g + 128) 0x7f ≡ g = omega (arith, bit_and-mask (g + 128)) in
    let top_part : bit_and (g + 128) 0x80 ≡ 128 = omega (arith, bit_and-top (g + 128)) in
    let kept : g * 2 ^ (7 * i) % 2 ^ 64 ≡ g * 2 ^ (7 * i) = omega arith in
    let joined : bit_or out (g * 2 ^ (7 * i)) ≡ out + g * 2 ^ (7 * i) = bit_or-field _ out g low in
    rw (e, low_part, top_part, kept, joined)

field_fits : (g p out : ℕ) → g < 128 → out < p → out + g * p < 128 * p
field_fits g p out hg ho = grind arith

pub length-groups : (k v : ℕ) → 0 < k → (1 ≤ length (groups k v)) × (length (groups k v) ≤ k)
unfolding groups
length-groups zero v h = absurd (omega arith)
length-groups (suc zero) v h = ground arith
length-groups (suc (suc k)) v h = ground (arith, length-groups (suc k) (v / 128))

-- The rounds read the groups of `v` from bit `7 * i` on, and leave what follows them.
decode_rounds-groups :
    (m k v i out start : ℕ) (from front rest : Bytes)
    → from ≡ front ++ (groups (suc m) v ++ rest)
    → start + i ≡ length front
    → length (groups (suc m) v) ≤ k
    → v < 128 ^ suc m
    → out < 2 ^ (7 * i)
    → out + v * 2 ^ (7 * i) < 2 ^ 64
    → decode_rounds k from start i out
      ≡ ok (out + v * 2 ^ (7 * i), i + length (groups (suc m) v), true)
decode_rounds-groups m zero v i out start from front rest e p hm hv low fits =
    absurd (omega (arith, length-groups (suc m) v (omega arith)))
decode_rounds-groups zero (suc k) v i out start from front rest e p hm hv low fits =
    let shape : groups 1 v ≡ v ∷ [] = groups_last 0 v (omega arith) in
    let here : index from (start + i) ≡ ok v =
      index_middle from front rest v (start + i) (rw shape at e) p in
    rw shape (last_round k v start i out from here (omega arith) low fits)
decode_rounds-groups (suc m) (suc k) v i out start from front rest e p hm hv low fits =
    elim (dec_lt v 128) [
      | yes h ↦
          let shape : groups (suc (suc m)) v ≡ v ∷ [] = groups_last (suc m) v h in
          let here : index from (start + i) ≡ ok v =
            index_middle from front rest v (start + i) (rw shape at e) p in
          rw shape (last_round k v start i out from here h low fits)
      | no h ↦
          let g : ℕ = v % 128 in
          let tail : Bytes = groups (suc m) (v / 128) in
          let shape : groups (suc (suc m)) v ≡ (g + 128) ∷ tail =
            groups_more (suc m) v (omega arith) in
          let e' : from ≡ front ++ (g + 128) ∷ (tail ++ rest) = rw shape at e in
          let here : index from (start + i) ≡ ok (g + 128) =
            index_middle from front (tail ++ rest) (g + 128) (start + i) e' p in
          let split : v * 2 ^ (7 * i) ≡ g * 2 ^ (7 * i) + v / 128 * 2 ^ (7 * (i + 1)) =
            split_group v i in
          let step : decode_rounds (suc k) from start i out
              ≡ decode_rounds k from start (i + 1) (out + g * 2 ^ (7 * i)) =
            marked_round k g start i out from here (omega arith) low (omega arith) in
          let ih : decode_rounds k from start (i + 1) (out + g * 2 ^ (7 * i))
              ≡ ok
                  (out + g * 2 ^ (7 * i) + v / 128 * 2 ^ (7 * (i + 1)), i + 1 + length tail, true) =
            decode_rounds-groups m k (v / 128) (i + 1) (out + g * 2 ^ (7 * i)) start from
              (front ++ (g + 128) ∷ []) rest
              (e' ∙ sym (append_assoc front ((g + 128) ∷ []) (tail ++ rest)))
              (omega (arith, length-append front ((g + 128) ∷ []))) (omega (arith, ap length shape))
              (omega arith)
              (omega
                (arith, field_fits (v % 128) (2 ^ (7 * i)) out (omega arith) low, next_group i))
              (omega arith) in
          rw shape (step ∙ ih ∙ ground (arith, split))
    ]

pub encode_varint-groups : (v : ℕ) (into : Bytes) → encode_varint v into ≡ into ++ groups 10 v
unfolding encode_varint
encode_varint-groups v into = encode_rounds-groups 10 v into

-- `decode_varint` at the position where the groups of a u64 start reads it, and stops behind them.
pub decode_varint-groups :
    (v : ℕ) (from front rest : Bytes)
    → IsU64 v
    → from ≡ front ++ (groups 10 v ++ rest)
    → decode_varint from (length front) ≡ ok (v, length front + length (groups 10 v))
unfolding decode_varint
decode_varint-groups v from front rest h e =
    let rounds : ℕ = min 10 (length from - length front) in
    let size : length from ≡ length front + (length (groups 10 v) + length rest) =
      rw e
        (length-append front _ ∙ ap (λ t. length front + t) (length-append (groups 10 v) rest)) in
    let bounds : (1 ≤ length (groups 10 v)) × (length (groups 10 v) ≤ 10) =
      length-groups 10 v (omega arith) in
    let run : decode_rounds rounds from (length front) 0 0
        ≡ ok (0 + v * 2 ^ (7 * 0), 0 + length (groups 10 v), true) =
      decode_rounds-groups 9 rounds v 0 0 (length front) from front rest e (omega arith)
        (omega arith) (omega arith) (omega arith) (omega arith) in
    let inside : ltb (length front) (length from) ≡ true = lt→ltb _ _ (omega arith) in
    rw (inside, run) (ground arith)
