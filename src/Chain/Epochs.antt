-- ===== src/Chain/Epochs.antt =====
-- `Chain` of src/chain.rs: the directions of all epochs that are kept.
pub mod Stored
pub mod Schedule
pub mod Growth
pub mod Steps
pub mod Agreement
use sparse_post_quantum_ratc.Prelude.{
  ℕ, zero, suc, ◌+◌, ◌-◌, Bool, true, false, Option, none, some, List, [], ◌∷◌, ◌++◌, map, not,
  ◌&&◌, ◌==◌, ltb, leb, if◌then◌else◌, length, get_elem?, set, take, drop, replicate, add_checked,
  Outcome, ok, err, panic, ◌>>=◌, ◌>>◌, assert, ok_or,
}
use sparse_post_quantum_ratc.Types.{
  Bytes, Epoch, EpochSecret, Direction, a2b, b2a, switch, Error, state_decode, epoch_out_of_range,
  send_key_epoch_decreased,
}
use sparse_post_quantum_ratc.Crypto.{Crypto, hkdf_to_slice, ascii}
use sparse_post_quantum_ratc.Chain.Params.{ChainParamsPb}
use sparse_post_quantum_ratc.Chain.Direction
use sparse_post_quantum_ratc.Chain.Direction.{ChainEpochDirection, EpochDirectionPb}

pub record ChainEpoch : Type 0 where
  pub send : ChainEpochDirection
  pub recv : ChainEpochDirection

pub record Chain : Type 0 where
  pub dir : Direction
  pub current_epoch : Epoch
  pub send_epoch : Epoch
  pub links : List ChainEpoch
  pub next_root : Bytes
  pub params : ChainParamsPb

pub record EpochPb : Type 0 where
  pub send : Option EpochDirectionPb
  pub recv : Option EpochDirectionPb

pub record ChainPb : Type 0 where
  pub direction : ℕ
  pub current_epoch : Epoch
  pub links : List EpochPb
  pub next_root : Bytes
  pub send_epoch : Epoch
  pub params : Option ChainParamsPb

abbrev pub epochs_to_keep_prior_to_send_epoch : ℕ
epochs_to_keep_prior_to_send_epoch = 1

-- `Direction` as the i32 of a protobuf, and back.
abbrev pub i32_of_direction : Direction → ℕ
i32_of_direction a2b = 0
i32_of_direction b2a = 1

unfoldable pub direction_try_from : ℕ → Option Direction
direction_try_from n = if n == 0 then some a2b else if n == 1 then some b2a else none

-- `&genr8r[32..64]` or `&genr8r[64..96]` of an array of 96 bytes.
unfoldable pub ced_for_direction : Bytes → Direction → ChainEpochDirection
ced_for_direction genr8r a2b = Direction.new (take 32 (drop 32 genr8r))
ced_for_direction genr8r b2a = Direction.new (take 32 (drop 64 genr8r))

abbrev link_for : Bytes → Direction → ChainEpoch
link_for genr8r dir = record {
  send = ced_for_direction genr8r dir;
  recv = ced_for_direction genr8r (switch dir);
}

unfoldable pub epoch_idx : Chain → Epoch → Outcome Error ℕ
epoch_idx self epoch =
    if ltb self.current_epoch epoch
    then err (epoch_out_of_range epoch)
    else (let back = self.current_epoch - epoch in
        if leb (length self.links) back
        then err (epoch_out_of_range epoch)
        else ok (length self.links - 1 - back))

-- The `while` loop of `send_key`: the links without those it pops, and the index that is left.
unfoldable pub pop_old : ℕ → List ChainEpoch → List ChainEpoch × ℕ
pop_old (suc (suc i)) links = pop_old (suc i) (drop 1 links)
pop_old i links = (links, i)

-- The `for` loop of `send_key` over the first links; indexing behind the last one panics.
unfoldable pub clear_sends : ℕ → List ChainEpoch → Outcome Error (List ChainEpoch)
clear_sends zero links = ok links
clear_sends (suc n) [] = panic
clear_sends (suc n) (link ∷ links) = do
  rest ← clear_sends n links
  ok (record link { send = Direction.clear_next link.send } ∷ rest)

-- `links[i]`
abbrev link_at : List ChainEpoch → ℕ → Outcome Error ChainEpoch
link_at links i = elim (get_elem? links i) [ none ↦ panic | some link ↦ ok link ]

-- What `send_key` does to the links when the send epoch changes.
unfoldable pub enter_send_epoch : Chain → Epoch → ℕ → Outcome Error (Chain × ℕ)
enter_send_epoch self epoch epoch_index =
    if self.send_epoch == epoch then ok (self, epoch_index) else (do
      let (links, i) = pop_old epoch_index self.links
      links' ← clear_sends i links
      ok (record self { send_epoch = epoch; links = links' }, i))

module _ (c : Crypto) where
  unfoldable pub new : Bytes → Direction → ChainParamsPb → Outcome Error Chain
  new initial_key dir params = do
    genr8r ←
        hkdf_to_slice c (replicate 32 0) initial_key (ascii "Signal PQ Ratchet V1 Chain  Start") 96
    ok (record {
      dir = dir;
      current_epoch = 0;
      send_epoch = 0;
      links = link_for genr8r dir ∷ [];
      next_root = take 32 genr8r;
      params = params;
    })

  unfoldable pub add_epoch : Chain → EpochSecret → Outcome Error Chain
  add_epoch self epoch_secret = do
    following ← add_checked 64 self.current_epoch 1
    assert (epoch_secret.epoch == following)
    genr8r ←
        hkdf_to_slice c self.next_root epoch_secret.secret
          (ascii "Signal PQ Ratchet V1 Chain Add Epoch") 96
    ok (record self {
      current_epoch = epoch_secret.epoch;
      links = self.links ++ link_for genr8r self.dir ∷ [];
      next_root = take 32 genr8r;
    })

  unfoldable pub send_key : Chain → Epoch → Outcome Error ((ℕ × Bytes) × Chain)
  send_key self epoch =
      if ltb epoch self.send_epoch
      then err (send_key_epoch_decreased self.send_epoch epoch)
      else (do
        epoch_index ← epoch_idx self epoch
        (self', i) ← enter_send_epoch self epoch epoch_index
        link ← link_at self'.links i
        (indexed_key, send) ← Direction.next_key c link.send
        ok (indexed_key, record self' { links = set self'.links i (record link { send = send }) }))

  unfoldable pub recv_key : Chain → Epoch → ℕ → Outcome Error (Bytes × Chain)
  recv_key self epoch index = if (epoch == 0) && (index == 0) then ok ([], self) else (do
    i ← epoch_idx self epoch
    link ← link_at self.links i
    (k, recv) ← Direction.key c link.recv index self.params
    ok (k, record self { links = set self.links i (record link { recv = recv }) }))

unfoldable pub into_pb : Chain → ChainPb
into_pb self = record {
  direction = i32_of_direction self.dir;
  current_epoch = self.current_epoch;
  links =
      map
        (λ link. record {
          send = some (Direction.into_pb link.send);
          recv = some (Direction.into_pb link.recv);
        })
        self.links;
  next_root = self.next_root;
  send_epoch = self.send_epoch;
  params = some self.params;
}

unfoldable pub link_from_pb : EpochPb → Outcome Error ChainEpoch
link_from_pb link = do
  send_pb ← ok_or link.send state_decode
  send ← Direction.from_pb send_pb
  recv_pb ← ok_or link.recv state_decode
  recv ← Direction.from_pb recv_pb
  ok (record { send = send; recv = recv })

-- `collect` of the links: the first error ends it.
unfoldable pub links_from_pb : List EpochPb → Outcome Error (List ChainEpoch)
links_from_pb [] = ok []
links_from_pb (pb ∷ pbs) = do link ← link_from_pb pb; links ← links_from_pb pbs; ok (link ∷ links)

unfoldable pub from_pb : ChainPb → Outcome Error Chain
from_pb pb = do
  dir ← ok_or (direction_try_from pb.direction) state_decode
  links ← links_from_pb pb.links
  params ← ok_or pb.params state_decode
  ok (record {
    dir = dir;
    current_epoch = pb.current_epoch;
    send_epoch = pb.send_epoch;
    links = links;
    next_root = pb.next_root;
    params = params;
  })
