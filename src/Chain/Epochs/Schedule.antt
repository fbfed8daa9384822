-- ===== src/Chain/Epochs/Schedule.antt =====
-- The roots of all epochs, described by HKDF alone, and what it means that the links of a chain are
-- in step with them.
use mathlib.Core.Path.{subst}
use mathlib.Core.Option.{some-injective}
use native.Mathlib.Decide.{dec_lt}
use sparse_post_quantum_ratc.Prelude.{
  ℕ, zero, suc, ◌+◌, ◌≤◌, ◌<◌, ◌^◌, ◌≡◌, refl, sym, ap, ◌∙◌, true, false, some, List, [], ◌∷◌, ◌++◌,
  ltb, ◌==◌, length, length-take, length-drop, take, drop, replicate, get_elem?, set, Outcome, ok,
  panic, ok-injective, arith, ==_iff, ◌⊎◌, inl, inr,
}
use sparse_post_quantum_ratc.Types.{Bytes, Secret, Direction, a2b, b2a, switch, Error}
use sparse_post_quantum_ratc.Crypto.{Crypto, IsSized, ascii}
use sparse_post_quantum_ratc.Chain.Direction
use sparse_post_quantum_ratc.Chain.Direction.{ChainEpochDirection, next_key, next_key_internal}
use sparse_post_quantum_ratc.Chain.Direction.Ratchet.{
  Tracks, message_key, length-chain_key, next_key-Tracks,
}
use sparse_post_quantum_ratc.Chain.Epochs.{ChainEpoch, Chain, pop_old, clear_sends}

module _ (c : Crypto) where
  -- The secret of epoch 0 is the initial key; its block of 96 bytes, and that of each later epoch.
  unfoldable pub epoch_block : (ℕ → Secret) → ℕ → Bytes
  epoch_block secrets zero =
      c.expand (replicate 32 0) (secrets 0) (ascii "Signal PQ Ratchet V1 Chain  Start") 96
  epoch_block secrets (suc e) =
      c.expand (take 32 (epoch_block secrets e)) (secrets (suc e))
        (ascii "Signal PQ Ratchet V1 Chain Add Epoch") 96

  unfoldable pub root_of : Bytes → Direction → Bytes
  root_of genr8r a2b = take 32 (drop 32 genr8r)
  root_of genr8r b2a = take 32 (drop 64 genr8r)

  -- The sending direction is either usable, or an old one that was cleared.
  abbrev pub Sends : Bytes → ChainEpochDirection → Type 0
  Sends root self = (self.next ≡ []) ⊎ Tracks c root self

  abbrev pub Link : (ℕ → Secret) → Direction → ℕ → ChainEpoch → Type 0
  Link secrets dir e link =
      Sends (root_of (epoch_block secrets e) dir) link.send
      × Tracks c (root_of (epoch_block secrets e) (switch dir)) link.recv

  -- The links from the oldest epoch `e` on.
  abbrev pub Links : (ℕ → Secret) → Direction → ℕ → List ChainEpoch → Type 0
  Links secrets dir e [] = Unit
  Links secrets dir e (link ∷ links) = Link secrets dir e link × Links secrets dir (suc e) links

  -- A chain in direction `dir` whose epochs have the given secrets.
  pub record InStep (secrets : ℕ → Secret) (self : Chain) : Type 0 where
    pub oldest : ℕ
    pub newest : oldest + length self.links ≡ suc self.current_epoch
    pub next_root : self.next_root ≡ take 32 (epoch_block secrets self.current_epoch)
    pub links : Links secrets self.dir oldest self.links

  module _ (sized : IsSized c) where
    length-epoch_block : (secrets : ℕ → Secret) (e : ℕ) → length (epoch_block secrets e) ≡ 96
    unfolding epoch_block
    length-epoch_block secrets zero = sized.expand_length _ _ _ 96
    length-epoch_block secrets (suc e) = sized.expand_length _ _ _ 96

    pub length-root_of :
        (secrets : ℕ → Secret) (e : ℕ) (dir : Direction)
        → length (root_of (epoch_block secrets e) dir) ≡ 32
    unfolding root_of
    length-root_of secrets e a2b = omega (
      arith,
      length-take 32 (drop 32 (epoch_block secrets e)),
      length-drop 32 (epoch_block secrets e),
      length-epoch_block secrets e,
    )
    length-root_of secrets e b2a = omega (
      arith,
      length-take 32 (drop 64 (epoch_block secrets e)),
      length-drop 64 (epoch_block secrets e),
      length-epoch_block secrets e,
    )

    -- A sending direction that gives out a key tracks its chain.
    pub next_key-ok :
        (root : Bytes) (self self' : ChainEpochDirection) (i : ℕ) (k : Bytes)
        → length root ≡ 32
        → Sends root self
        → next_key c self ≡ ok ((i, k), self')
        → (1 ≤ i) × (i < 2 ^ 32) × (k ≡ message_key c root i) × Tracks c root self'
    unfolding next_key next_key_internal
    next_key-ok root self self' i k hr (inl cleared) run =
        let bad : ◌≡◌ {A = Outcome Error ((ℕ × Bytes) × ChainEpochDirection)} panic
            (ok ((i, k), self')) =
          rw (next_key, next_key_internal, cleared) at run in
        cc
    next_key-ok root self self' i k hr (inr t) run = elim (dec_lt (suc self.ctr) (2 ^ 32)) [
      | no big ↦
          let size : (length self.next == 32) ≡ true =
            (==_iff _ _).1 (rw t.at_ctr (length-chain_key c sized root hr self.ctr)) in
          let over : ltb (self.ctr + 1) (2 ^ 32) ≡ false = ground arith in
          let bad : ◌≡◌ {A = Outcome Error ((ℕ × Bytes) × ChainEpochDirection)} panic
              (ok ((i, k), self')) =
            rw (next_key, next_key_internal, size, over) at run in
          cc
      | yes fits ↦
          let (next, found, at, tracks) = next_key-Tracks c root self sized hr t fits in
          let same : ◌≡◌ {A = (ℕ × Bytes) × ChainEpochDirection}
              ((suc self.ctr, message_key c root (suc self.ctr)), next) ((i, k), self') =
            ok-injective (sym found ∙ run) in
          let index : suc self.ctr ≡ i = ap (λ r. r.0.0) same in
          (
            omega arith,
            omega arith,
            sym (ap (λ r. r.0.1) same) ∙ ap (message_key c root) index,
            subst (Tracks c root) (ap (λ r. r.1) same) tracks,
          )
    ]

  module _ (secrets : ℕ → Secret) (dir : Direction) where
    pub Links-get :
        (e : ℕ) (links : List ChainEpoch) (i n : ℕ) (link : ChainEpoch)
        → Links secrets dir e links
        → get_elem? links i ≡ some link
        → e + i ≡ n
        → Link secrets dir n link
    Links-get e [] i n link h g p = cc
    Links-get e (l ∷ links) zero n link h g p =
        subst (λ m. Link secrets dir m link) (omega arith)
          (subst (Link secrets dir e) (some-injective _ _ g) h.0)
    Links-get e (l ∷ links) (suc i) n link h g p =
        Links-get (suc e) links i n link h.1 g (omega arith)

    pub Links-set :
        (e : ℕ) (links : List ChainEpoch) (i n : ℕ) (link : ChainEpoch)
        → Links secrets dir e links
        → Link secrets dir n link
        → e + i ≡ n
        → Links secrets dir e (set links i link)
    Links-set e [] i n link h g p = tt
    Links-set e (l ∷ links) zero n link h g p =
        (subst (λ m. Link secrets dir m link) (omega arith) g, h.1)
    Links-set e (l ∷ links) (suc i) n link h g p =
        (h.0, Links-set (suc e) links i n link h.1 g (omega arith))

    pub Links-append :
        (e : ℕ) (links : List ChainEpoch) (n : ℕ) (link : ChainEpoch)
        → Links secrets dir e links
        → Link secrets dir n link
        → e + length links ≡ n
        → Links secrets dir e (links ++ link ∷ [])
    Links-append e [] n link h g p = (subst (λ m. Link secrets dir m link) (omega arith) g, tt)
    Links-append e (l ∷ links) n link h g p =
        (h.0, Links-append (suc e) links n link h.1 g (omega arith))

    -- The links that are popped, and the index that is left.
    pub Links-pop_old :
        (e i : ℕ) (links : List ChainEpoch)
        → Links secrets dir e links
        → i < length links
        → (e' : ℕ) × Links secrets dir e' (pop_old i links).0
          × (e' + (pop_old i links).1 ≡ e + i)
          × (e' + length (pop_old i links).0 ≡ e + length links)
          × ((pop_old i links).1 < length (pop_old i links).0)
    unfolding pop_old
    Links-pop_old e zero links h p = (e, h, refl, refl, p)
    Links-pop_old e (suc zero) links h p = (e, h, refl, refl, p)
    Links-pop_old e (suc (suc i)) [] h p = absurd (omega arith)
    Links-pop_old e (suc (suc i)) (l ∷ links) h p =
        let (e', rest, at, size, inside) = Links-pop_old (suc e) (suc i) links h.1 (omega arith) in
        (e', rest, omega arith, omega arith, inside)

    pub Links-clear_sends :
        (e n : ℕ) (links : List ChainEpoch)
        → Links secrets dir e links
        → n ≤ length links
        → (links' : List ChainEpoch) × (clear_sends n links ≡ ok links')
          × Links secrets dir e links'
          × (length links' ≡ length links)
    unfolding clear_sends
    Links-clear_sends e zero links h p = (links, refl, h, refl)
    Links-clear_sends e (suc n) [] h p = absurd (omega arith)
    Links-clear_sends e (suc n) (l ∷ links) h p =
        let (links', run, rest, size) = Links-clear_sends (suc e) n links h.1 (omega arith) in
        (
          record l { send = Direction.clear_next l.send } ∷ links',
          rw run,
          ((inl refl, h.0.1), rest),
          ap suc size,
        )
