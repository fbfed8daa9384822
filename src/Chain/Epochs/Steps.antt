-- ===== src/Chain/Epochs/Steps.antt =====
-- Asking a chain for keys gives the message keys of its epochs, and keeps it in step with them.
use mathlib.Core.Path.{subst}
use sparse_post_quantum_ratc.Prelude.{
  ℕ, suc, ◌+◌, ◌-◌, ◌≤◌, ◌<◌, ◌^◌, ◌≡◌, refl, sym, ap, ◌∙◌, false, some, List, ltb, leb, ◌==◌,
  length, length-set, set, get_elem?, Outcome, ok, err, panic, ok-injective, >>=-eq-ok, ◌>>=◌,
  arith, inl, inr, Bool-cases, Option-cases, ◌&&◌,
}
use sparse_post_quantum_ratc.Types.{
  Bytes, Secret, switch, Error, epoch_out_of_range, send_key_epoch_decreased,
}
use sparse_post_quantum_ratc.Crypto.{Crypto, IsSized}
use sparse_post_quantum_ratc.Chain.Params.{max_ooo_keys_or_default}
use sparse_post_quantum_ratc.Chain.Direction
use sparse_post_quantum_ratc.Chain.Direction.{ChainEpochDirection}
use sparse_post_quantum_ratc.Chain.Direction.Ratchet.{message_key}
use sparse_post_quantum_ratc.Chain.Direction.Keys.{key_correct}
use sparse_post_quantum_ratc.Chain.Epochs.{
  ChainEpoch, Chain, pop_old, epoch_idx, enter_send_epoch, link_at, send_key, recv_key,
}
use sparse_post_quantum_ratc.Chain.Epochs.Schedule.{
  epoch_block, root_of, Link, InStep, length-root_of, next_key-ok, Links-get, Links-set,
  Links-pop_old, Links-clear_sends,
}

-- `epoch_idx` finds the place of an epoch that is kept, within the links.
pub epoch_idx-ok :
    (self : Chain) (epoch i oldest : ℕ)
    → oldest + length self.links ≡ suc self.current_epoch
    → epoch_idx self epoch ≡ ok i
    → (oldest + i ≡ epoch) × (i < length self.links)
unfolding epoch_idx
epoch_idx-ok self epoch i oldest h run = elim (Bool-cases (ltb self.current_epoch epoch)) [
  | inl t ↦
      let bad : ◌≡◌ {A = Outcome Error ℕ} (err (epoch_out_of_range epoch)) (ok i) =
        rw (epoch_idx, t) at run in
      cc
  | inr f ↦ elim (Bool-cases (leb (length self.links) (self.current_epoch - epoch))) [
    | inl u ↦
        let bad : ◌≡◌ {A = Outcome Error ℕ} (err (epoch_out_of_range epoch)) (ok i) =
          rw (epoch_idx, f, u) at run in
        cc
    | inr g ↦
        let place : length self.links - 1 - (self.current_epoch - epoch) ≡ i =
          ok-injective (rw (epoch_idx, f, g) at run) in
        (ground arith, ground arith)
  ]
]

module _ (c : Crypto) (sized : IsSized c) (secrets : ℕ → Secret) where
  link_at-ok :
      (links : List ChainEpoch) (i : ℕ) (link : ChainEpoch)
      → link_at links i ≡ ok link
      → get_elem? links i ≡ some link
  link_at-ok links i link h = elim (Option-cases (get_elem? links i)) [
    | inl n ↦
        let bad : ◌≡◌ {A = Outcome Error ChainEpoch} panic (ok link) = rw (link_at, n) at h in cc
    | inr (l, s) ↦
        let same : l ≡ link = ok-injective (rw (link_at, s) at h) in s ∙ ap (λ l. some l) same
  ]

  -- What `send_key` works on: the chain after the links of old epochs were dropped or cleared.
  enter-InStep :
      (self : Chain) (epoch i : ℕ) (t : InStep c secrets self)
      → t.oldest + i ≡ epoch
      → i < length self.links
      → (self' : Chain) (j : ℕ) → enter_send_epoch self epoch i ≡ ok (self', j)
      → (u : InStep c secrets self') × (u.oldest + j ≡ epoch) × (self'.dir ≡ self.dir)
  unfolding enter_send_epoch
  enter-InStep self epoch i t at inside self' j run = elim (Bool-cases (self.send_epoch == epoch)) [
    | inl same ↦
        let e : ◌≡◌ {A = Chain × ℕ} (self, i) (self', j) =
          ok-injective (rw (enter_send_epoch, same) at run) in
        subst
          (λ (r : Chain × ℕ).
            (x : InStep c secrets r.0) × (x.oldest + r.1 ≡ epoch) × (r.0.dir ≡ self.dir))
          e (t, at, refl)
    | inr other ↦
        let (e', popped, at', size, inside') =
          Links-pop_old c secrets self.dir t.oldest i self.links t.links inside in
        let (links', cleared, rest, size') =
          Links-clear_sends c secrets self.dir e' (pop_old i self.links).1 (pop_old i self.links).0
            popped (omega arith) in
        let e : ◌≡◌ {A = Chain × ℕ}
            (record self { send_epoch = epoch; links = links' }, (pop_old i self.links).1)
            (self', j) =
          ok-injective (rw (enter_send_epoch, other, cleared) at run) in
        let u : InStep c secrets (record self { send_epoch = epoch; links = links' }) = record {
          oldest = e';
          newest = omega (arith, t.newest);
          next_root = t.next_root;
          links = rest;
        } in
        subst
          (λ (r : Chain × ℕ).
            (x : InStep c secrets r.0) × (x.oldest + r.1 ≡ epoch) × (r.0.dir ≡ self.dir))
          e (u, omega arith, refl)
  ]

  -- When recv_key of a chain in step with its epoch secrets returns a key for an index from 1 on,
  -- the key is the message key of that epoch and index in the opposite direction, and the chain
  -- stays in step in the same direction, provided that the index plus max_ooo_keys fits in 32
  -- bits.
  pub recv_key-keys :
      (self : Chain) (epoch index : ℕ) (k : Bytes) (self' : Chain)
      → InStep c secrets self
      → 1 ≤ index
      → index + max_ooo_keys_or_default self.params < 2 ^ 32
      → recv_key c self epoch index ≡ ok (k, self')
      → (k ≡ message_key c (root_of c (epoch_block c secrets epoch) (switch self.dir)) index)
        × InStep c secrets self'
        × (self'.dir ≡ self.dir)
  unfolding recv_key
  recv_key-keys self epoch index k self' t one hi run =
      let zero : ((epoch == 0) && (index == 0)) ≡ false = ground arith in
      let on_key : ℕ → ChainEpoch → Bytes × ChainEpochDirection → Outcome Error (Bytes × Chain) =
        λ i link r.
          ok (r.0, record self { links = set self.links i (record link { recv = r.1 }) }) in
      let on_link : ℕ → ChainEpoch → Outcome Error (Bytes × Chain) =
        λ i link. Direction.key c link.recv index self.params >>= on_key i link in
      let on_index : ℕ → Outcome Error (Bytes × Chain) = λ i. link_at self.links i >>= on_link i in
      let run' : (epoch_idx self epoch >>= on_index) ≡ ok (k, self') = rw (recv_key, zero) at run in
      let (i, idx, run1) = >>=-eq-ok (epoch_idx self epoch) on_index run' in
      let (link, linked, run2) = >>=-eq-ok (link_at self.links i) (on_link i) run1 in
      let ((k', recv), keyed, run3) =
        >>=-eq-ok (Direction.key c link.recv index self.params) (on_key i link) run2 in
      let same : ◌≡◌ {A = Bytes × Chain}
          (k', record self { links = set self.links i (record link { recv = recv }) }) (k, self') =
        ok-injective run3 in
      let (place, inside) = epoch_idx-ok self epoch i t.oldest t.newest idx in
      let was : Link c secrets self.dir epoch link =
        Links-get c secrets self.dir t.oldest self.links i epoch link t.links
          (link_at-ok self.links i link linked) place in
      let root : Bytes = root_of c (epoch_block c secrets epoch) (switch self.dir) in
      let (one', true_key, tracks) =
        key_correct c root self.params link.recv index k' recv sized
          (length-root_of c sized secrets epoch (switch self.dir)) was.1 hi keyed in
      let now : InStep c secrets
          (record self { links = set self.links i (record link { recv = recv }) }) =
        record {
          oldest = t.oldest;
          newest =
              ap (λ n. t.oldest + n) (length-set self.links i (record link { recv = recv }))
              ∙ t.newest;
          next_root = t.next_root;
          links =
              Links-set c secrets self.dir t.oldest self.links i epoch (record link { recv = recv })
                t.links (was.0, tracks) place;
        } in
      (
        sym (ap (λ r. r.0) same) ∙ true_key,
        subst (InStep c secrets) (ap (λ r. r.1) same) now,
        sym (ap (λ r. r.1.dir) same),
      )

  -- When send_key of a chain in step with its epoch secrets returns an index and a key, the index
  -- is from 1 and fits in 32 bits, the key is the message key of the epoch asked for and that
  -- index in the chain's direction, and the chain stays in step in the same direction, whatever
  -- old epochs were dropped or cleared.
  pub send_key-keys :
      (self : Chain) (epoch index : ℕ) (k : Bytes) (self' : Chain)
      → InStep c secrets self
      → send_key c self epoch ≡ ok ((index, k), self')
      → (1 ≤ index)
        × (index < 2 ^ 32)
        × (k ≡ message_key c (root_of c (epoch_block c secrets epoch) self.dir) index)
        × InStep c secrets self'
        × (self'.dir ≡ self.dir)
  unfolding send_key
  send_key-keys self epoch index k self' t run = elim (Bool-cases (ltb epoch self.send_epoch)) [
    | inl old ↦
        let bad : ◌≡◌ {A = Outcome Error ((ℕ × Bytes) × Chain)}
            (err (send_key_epoch_decreased self.send_epoch epoch)) (ok ((index, k), self')) =
          rw (send_key, old) at run in
        cc
    | inr current ↦
        let on_key : Chain
            → ℕ
            → ChainEpoch
            → (ℕ × Bytes) × ChainEpochDirection
            → Outcome Error ((ℕ × Bytes) × Chain) =
          λ mid j link r.
            ok (r.0, record mid { links = set mid.links j (record link { send = r.1 }) }) in
        let on_link : Chain → ℕ → ChainEpoch → Outcome Error ((ℕ × Bytes) × Chain) =
          λ mid j link. Direction.next_key c link.send >>= on_key mid j link in
        let on_entered : Chain × ℕ → Outcome Error ((ℕ × Bytes) × Chain) =
          λ r. link_at r.0.links r.1 >>= on_link r.0 r.1 in
        let on_index : ℕ → Outcome Error ((ℕ × Bytes) × Chain) =
          λ i. enter_send_epoch self epoch i >>= on_entered in
        let run' : (epoch_idx self epoch >>= on_index) ≡ ok ((index, k), self') =
          rw (send_key, current) at run in
        let (i, idx, run1) = >>=-eq-ok (epoch_idx self epoch) on_index run' in
        let ((mid, j), entered, run2) = >>=-eq-ok (enter_send_epoch self epoch i) on_entered run1 in
        let (link, linked, run3) = >>=-eq-ok (link_at mid.links j) (on_link mid j) run2 in
        let ((key', send), keyed, run4) =
          >>=-eq-ok (Direction.next_key c link.send) (on_key mid j link) run3 in
        let same : ◌≡◌ {A = (ℕ × Bytes) × Chain}
            (key', record mid { links = set mid.links j (record link { send = send }) })
            ((index, k), self') =
          ok-injective run4 in
        let (place, inside) = epoch_idx-ok self epoch i t.oldest t.newest idx in
        let (u, place', same_dir) = enter-InStep self epoch i t place inside mid j entered in
        let was : Link c secrets mid.dir epoch link =
          Links-get c secrets mid.dir u.oldest mid.links j epoch link u.links
            (link_at-ok mid.links j link linked) place' in
        let root : Bytes = root_of c (epoch_block c secrets epoch) mid.dir in
        let keyed' : Direction.next_key c link.send ≡ ok ((index, k), send) =
          keyed ∙ ap (λ r. ok (r.0, send)) same in
        let (one, small, true_key, tracks) =
          next_key-ok c sized root link.send send index k
            (length-root_of c sized secrets epoch mid.dir) was.0 keyed' in
        let now : InStep c secrets
            (record mid { links = set mid.links j (record link { send = send }) }) =
          record {
            oldest = u.oldest;
            newest =
                ap (λ n. u.oldest + n) (length-set mid.links j (record link { send = send }))
                ∙ u.newest;
            next_root = u.next_root;
            links =
                Links-set c secrets mid.dir u.oldest mid.links j epoch (record link { send = send })
                  u.links (inr tracks, was.1) place';
          } in
        (
          one,
          small,
          true_key
              ∙ ap (λ d. message_key c (root_of c (epoch_block c secrets epoch) d) index) same_dir,
          subst (InStep c secrets) (ap (λ r. r.1) same) now,
          sym (ap (λ r. r.1.dir) same) ∙ same_dir,
        )
  ]
