-- ===== src/Tests/Sets.antt =====
-- A sorted list in place of the set of points that src/encoding/polynomial.rs takes from a library.
use sparse_post_quantum_ratc.Prelude.{
  ℕ, zero, suc, ◌+◌, ◌≡◌, ◌≢◌, refl, sym, ap, ◌∙◌, List, [], ◌∷◌, ◌++◌, get_elem?, true, false,
  Option, none, some, ltb, ◌==◌, if◌then◌else◌, length, arith, Bool-cases, inl, inr,
}
use sparse_post_quantum_ratc.Encoding.Polynomial.{Pt}
use sparse_post_quantum_ratc.Encoding.Polynomial.Distinct.{Fresh}
use sparse_post_quantum_ratc.Encoding.Polynomial.Gather.{IsOrderedSet}
use sparse_post_quantum_ratc.Encoding.Polynomial.Decoder.{SortedSet}
use sparse_post_quantum_ratc.Encoding.Polynomial.Points.{IsSortedSet, value_at, looked_up}

unfoldable pub insert_pt : Pt → List Pt → List Pt
insert_pt p [] = p ∷ []
insert_pt p (q ∷ pts) =
    if p.x == q.x then q ∷ pts else if ltb p.x q.x then p ∷ q ∷ pts else q ∷ insert_pt p pts

abbrev next_place : Option ℕ → Option ℕ
next_place none = none
next_place (some i) = some (suc i)

unfoldable pub find_pt : Pt → List Pt → Option ℕ
unfolding next_place
find_pt p [] = none
find_pt p (q ∷ pts) = if p.x == q.x then some 0 else next_place (find_pt p pts)

unfoldable pub list_set : SortedSet (List Pt)
unfolding insert_pt find_pt
list_set = record {
  new = [];
  push = λ s p. insert_pt p s;
  as_slice = λ s. s;
  binary_search = λ s p. find_pt p s;
}

-- The value at `x`, by the elements in order.
y_at : ℕ → List Pt → Option ℕ
y_at x [] = none
y_at x (q ∷ pts) = if x == q.x then some q.y else y_at x pts

next_place-looked_up :
    (o : Option ℕ) (q : Pt) (pts : List Pt) → looked_up (next_place o) (q ∷ pts) ≡ looked_up o pts
next_place-looked_up none q pts = refl
next_place-looked_up (some i) q pts = refl

value_at-y_at : (s : List Pt) (x : ℕ) → value_at list_set s x ≡ y_at x s
unfolding y_at list_set find_pt
value_at-y_at [] x = refl
value_at-y_at (q ∷ pts) x = elim (Bool-cases (x == q.x)) [
  | inl e ↦ rw e refl
  | inr e ↦
      rw e
        (next_place-looked_up (find_pt (record { x = x; y = 0 }) pts) q pts ∙ value_at-y_at pts x)
]

insert_pt-length :
    (p : Pt) (s : List Pt) → y_at p.x s ≡ none → length (insert_pt p s) ≡ length s + 1
unfolding y_at insert_pt
insert_pt-length p [] h = refl
insert_pt-length p (q ∷ pts) h = let rest = insert_pt-length p pts in ground arith

insert_pt-y_at : (p : Pt) (s : List Pt) → y_at p.x s ≡ none → y_at p.x (insert_pt p s) ≡ some p.y
unfolding y_at insert_pt
insert_pt-y_at p [] h = ground arith
insert_pt-y_at p (q ∷ pts) h = let rest = insert_pt-y_at p pts in ground arith

insert_pt-y_at_other :
    (p : Pt) (s : List Pt) (x : ℕ) → y_at p.x s ≡ none → p.x ≢ x → y_at x (insert_pt p s) ≡ y_at x s
unfolding y_at insert_pt
insert_pt-y_at_other p [] x h ne = ground arith
insert_pt-y_at_other p (q ∷ pts) x h ne = let rest = insert_pt-y_at_other p pts x in ground arith

pub list_set-IsSortedSet : IsSortedSet list_set
unfolding list_set
list_set-IsSortedSet = record {
  new_length = refl;
  new_value = λ x. refl;
  push_length = λ s p h. insert_pt-length p s (sym (value_at-y_at s p.x) ∙ h);
  push_value = λ s p h.
      value_at-y_at (insert_pt p s) p.x ∙ insert_pt-y_at p s (sym (value_at-y_at s p.x) ∙ h);
  push_other = λ s p x h ne.
      value_at-y_at (insert_pt p s) x
      ∙ insert_pt-y_at_other p s x (sym (value_at-y_at s p.x) ∙ h) ne
      ∙ sym (value_at-y_at s x);
}

insert_pt_slice :
    (p : Pt) (s : List Pt)
    → Fresh p.x s
    → (front back : List Pt) × (s ≡ front ++ back) × (insert_pt p s ≡ front ++ p ∷ back)
unfolding insert_pt
insert_pt_slice p [] fresh = ([], [], refl, refl)
insert_pt_slice p (q ∷ pts) fresh =
    let other : (p.x == q.x) ≡ false = ground (arith, fresh.0) in
    elim (Bool-cases (ltb p.x q.x)) [
      | inl less ↦ ([], q ∷ pts, refl, rw (other, less) refl)
      | inr more ↦
          let (front, back, before, after) = insert_pt_slice p pts fresh.1 in
          (q ∷ front, back, ap (λ l. q ∷ l) before, rw (other, more) (ap (λ l. q ∷ l) after))
    ]

next_place-found :
    (p : Pt) (q : Pt) (pts : List Pt) (o : Option ℕ) (i : ℕ)
    → ((j : ℕ) → o ≡ some j → (r : Pt) × (get_elem? pts j ≡ some r) × (r.x ≡ p.x))
    → next_place o ≡ some i
    → (r : Pt) × (get_elem? (q ∷ pts) i ≡ some r) × (r.x ≡ p.x)
next_place-found p q pts none i rest h = cc
next_place-found p q pts (some j) zero rest h = cc
next_place-found p q pts (some j) (suc i) rest h =
    let e : j ≡ i = omega (arith, ap place_of h) in rest i (ap some e)
  where
    place_of : Option ℕ → ℕ
    place_of none = 0
    place_of (some n) = n

find_pt_here : (p q : Pt) (pts : List Pt) → (p.x == q.x) ≡ true → find_pt p (q ∷ pts) ≡ some 0
unfolding find_pt
find_pt_here p q pts e = rw e refl

find_pt_further :
    (p q : Pt) (pts : List Pt)
    → (p.x == q.x) ≡ false
    → find_pt p (q ∷ pts) ≡ next_place (find_pt p pts)
unfolding find_pt
find_pt_further p q pts e = rw e refl

first_found :
    (p q : Pt) (pts : List Pt) (i : ℕ)
    → q.x ≡ p.x
    → some 0 ≡ some i
    → (r : Pt) × (get_elem? (q ∷ pts) i ≡ some r) × (r.x ≡ p.x)
first_found p q pts zero e h = (q, refl, e)
first_found p q pts (suc i) e h = cc

find_pt-found :
    (p : Pt) (s : List Pt) (i : ℕ)
    → find_pt p s ≡ some i
    → (r : Pt) × (get_elem? s i ≡ some r) × (r.x ≡ p.x)
unfolding find_pt
find_pt-found p [] i h = cc
find_pt-found p (q ∷ pts) i h = elim (Bool-cases (p.x == q.x)) [
  | inl e ↦ first_found p q pts i (ground (arith, e)) (sym (find_pt_here p q pts e) ∙ h)
  | inr e ↦
      next_place-found p q pts (find_pt p pts) i (λ j f. find_pt-found p pts j f)
        (sym (find_pt_further p q pts e) ∙ h)
]

pub list_set-IsOrderedSet : IsOrderedSet list_set
unfolding list_set
list_set-IsOrderedSet = record {
  new_slice = refl;
  push_slice = λ s p fresh. insert_pt_slice p s fresh;
  search_found = λ s p i h. find_pt-found p s i h;
}
