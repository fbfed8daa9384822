-- ===== src/Chain/Epochs/Growth.antt =====
-- Making a chain and adding epochs keeps it in step with the roots of its epochs.
use sparse_post_quantum_ratc.Prelude.{
  ℕ, suc, ◌+◌, ◌<◌, ◌^◌, ◌≡◌, refl, true, [], ◌∷◌, ◌++◌, ltb, ◌==◌, length-append, take, ok, ◌>>=◌,
  ◌>>◌, arith, lt→ltb, ==_iff, inr,
}
use sparse_post_quantum_ratc.Types.{Bytes, EpochSecret, Secret, Direction, a2b, b2a, switch}
use sparse_post_quantum_ratc.Crypto.{Crypto, IsSized}
use sparse_post_quantum_ratc.Chain.Params.{ChainParamsPb}
use sparse_post_quantum_ratc.Chain.Direction.Ratchet.{Tracks, new-Tracks}
use sparse_post_quantum_ratc.Chain.Epochs.{ChainEpoch, Chain, ced_for_direction, new, add_epoch}
use sparse_post_quantum_ratc.Chain.Epochs.Schedule.{epoch_block, root_of, InStep, Links-append}

ced-Tracks :
    (c : Crypto) (genr8r : Bytes) (dir : Direction)
    → Tracks c (root_of c genr8r dir) (ced_for_direction genr8r dir)
unfolding ced_for_direction root_of
ced-Tracks c genr8r a2b = new-Tracks c _
ced-Tracks c genr8r b2a = new-Tracks c _

module _ (c : Crypto) (sized : IsSized c) (secrets : ℕ → Secret) where
  -- A new chain is made without panic, and is in step with any sequence of epoch secrets that
  -- starts with its initial key, in the direction given.
  pub new-InStep :
      (initial_key : Bytes) (dir : Direction) (params : ChainParamsPb)
      → secrets 0 ≡ initial_key
      → (self : Chain) × (new c initial_key dir params ≡ ok self)
        × InStep c secrets self
        × (self.dir ≡ dir)
  unfolding new epoch_block
  new-InStep key dir params h =
      let block : Bytes = epoch_block c secrets 0 in
      (
        record {
          dir = dir;
          current_epoch = 0;
          send_epoch = 0;
          links =
              record {
                send = ced_for_direction block dir;
                recv = ced_for_direction block (switch dir);
              }
              ∷ [];
          next_root = take 32 block;
          params = params;
        },
        rw (← h),
        record {
          oldest = 0;
          newest = refl;
          next_root = refl;
          links = ((inr (ced-Tracks c block dir), ced-Tracks c block (switch dir)), tt);
        },
        refl,
      )

  -- Adding the next epoch to a chain in step, with the secret of that epoch, succeeds and leaves
  -- the chain in step, in the same direction and with the next epoch as its current one, provided
  -- that the epoch fits in 64 bits.
  pub add_epoch-InStep :
      (self : Chain) (epoch_secret : EpochSecret)
      → InStep c secrets self
      → epoch_secret.epoch ≡ suc self.current_epoch
      → epoch_secret.secret ≡ secrets (suc self.current_epoch)
      → suc self.current_epoch < 2 ^ 64
      → (self' : Chain) × (add_epoch c self epoch_secret ≡ ok self')
        × InStep c secrets self'
        × (self'.dir ≡ self.dir)
        × (self'.current_epoch ≡ suc self.current_epoch)
  unfolding add_epoch epoch_block
  add_epoch-InStep self es t he hs fits =
      let block : Bytes = epoch_block c secrets (suc self.current_epoch) in
      let link : ChainEpoch = record {
        send = ced_for_direction block self.dir;
        recv = ced_for_direction block (switch self.dir);
      } in
      let room : ltb (self.current_epoch + 1) (2 ^ 64) ≡ true = lt→ltb _ _ (omega arith) in
      let next : (es.epoch == self.current_epoch + 1) ≡ true = (==_iff _ _).1 (omega arith) in
      (
        record self {
          current_epoch = suc self.current_epoch;
          links = self.links ++ link ∷ [];
          next_root = take 32 block;
        },
        rw (room, ◌>>=◌, ◌>>◌, next, t.next_root, hs, he),
        record {
          oldest = t.oldest;
          newest = omega (arith, length-append self.links (link ∷ []), t.newest);
          next_root = refl;
          links =
              Links-append c secrets self.dir t.oldest self.links (suc self.current_epoch) link
                t.links (inr (ced-Tracks c block self.dir), ced-Tracks c block (switch self.dir))
                t.newest;
        },
        refl,
        refl,
      )
