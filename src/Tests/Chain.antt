-- ===== src/Tests/Chain.antt =====
-- Runs of src/chain.rs.
use mathlib.Core.List.{Permᴰ}
use sparse_post_quantum_ratc.Chain.History.Trim.{keep_from}
use sparse_post_quantum_ratc.Prelude.{
  inr, slice, suc, ◌-◌, All, subst, ok-injective, sym, to_be_bytes32, ℕ, ◌+◌, ◌≤◌, ◌<◌, ◌^◌, ◌≡◌,
  refl, List, [], ◌∷◌, replicate, Outcome, ok, err, arith,
}
use sparse_post_quantum_ratc.Types.{
  Bytes, Secret, Error, key_already_requested, Direction, a2b, b2a, switch,
}
use sparse_post_quantum_ratc.Tests.Toy.{toy, toy-IsSized}
use sparse_post_quantum_ratc.Chain.Params.{
  ChainParamsPb, max_jump_or_default, max_ooo_keys_or_default, trim_size,
}
use sparse_post_quantum_ratc.Chain.History.{KeyHistory, get_rounds, remove, add, get, gc}
use sparse_post_quantum_ratc.Chain.History.Entries.{Entry, IsEntry, encode, of_bytes}
use sparse_post_quantum_ratc.Chain.History.Lookup.{take_entry}
use sparse_post_quantum_ratc.Chain.History.Contents.{get-takes_entry, get-add, gc-keeps}
use sparse_post_quantum_ratc.Chain.Direction
use sparse_post_quantum_ratc.Chain.Direction.{ChainEpochDirection, key, next_key}
use sparse_post_quantum_ratc.Chain.Direction.Ratchet.{
  chain_key, Tracks, message_key, new-Tracks, next_key-Tracks,
}
use sparse_post_quantum_ratc.Chain.Direction.Keys.{key-later, key_correct, key-once}
use sparse_post_quantum_ratc.Chain.Epochs.{
  from_pb, into_pb, Chain, new, add_epoch, enter_send_epoch, epoch_idx, ced_for_direction, pop_old,
  clear_sends, send_key, recv_key,
}
use sparse_post_quantum_ratc.Chain.Epochs.Schedule.{InStep, root_of, epoch_block}
use sparse_post_quantum_ratc.Chain.Epochs.Steps.{send_key-keys, recv_key-keys}
use sparse_post_quantum_ratc.Chain.Epochs.Growth.{new-InStep, add_epoch-InStep}
use sparse_post_quantum_ratc.Chain.Epochs.Stored.{IsStorableLink, from_pb-into_pb}
use sparse_post_quantum_ratc.Chain.Epochs.Agreement.{recv_key-send_key}

abbrev small_params : ChainParamsPb
small_params = record { max_jump = 10; max_ooo_keys = 5 }

abbrev k7 : Bytes
k7 = replicate 32 7

abbrev stored : List Entry
stored = (3, replicate 32 1) ∷ (4, k7) ∷ (6, replicate 32 2) ∷ []

abbrev root : Bytes
root = replicate 32 9

abbrev start : ChainEpochDirection
start = Direction.new root

abbrev state_of :
    ChainEpochDirection → Outcome Error (Bytes × ChainEpochDirection) → ChainEpochDirection
state_of d (ok r) = r.1
state_of d _ = d

abbrev skipped : ChainEpochDirection
unfolding key max_jump_or_default Direction.later_key max_ooo_keys_or_default Direction.advance
    Direction.next_key_internal gc trim_size add to_be_bytes32 message_key chain_key
skipped = state_of start (key toy start 3 small_params)

skipped_run : key toy start 3 small_params ≡ ok (message_key toy root 3, skipped)
unfolding key max_jump_or_default Direction.later_key max_ooo_keys_or_default Direction.advance
    Direction.next_key_internal gc trim_size add to_be_bytes32 message_key chain_key
skipped_run = refl

small_index : 3 + max_ooo_keys_or_default small_params < 2 ^ 32
small_index = unfold max_ooo_keys_or_default in omega arith

key-later_example :
    (self' : ChainEpochDirection) × (key toy start 3 small_params
      ≡ ok (message_key toy root 3, self'))
    × (self'.ctr ≡ 3)
    × Tracks toy root self'
key-later_example =
    key-later toy root small_params start 3 toy-IsSized refl (new-Tracks toy root) (omega arith)
      (unfold max_jump_or_default in omega arith) small_index

key_correct_example :
    (1 ≤ 3) × (message_key toy root 3 ≡ message_key toy root 3) × Tracks toy root skipped
key_correct_example =
    key_correct toy root small_params start 3 (message_key toy root 3) skipped toy-IsSized refl
      (new-Tracks toy root) small_index skipped_run

key-once_example : key toy skipped 3 small_params ≡ err (key_already_requested 3)
key-once_example =
    key-once toy root small_params start 3 (message_key toy root 3) skipped toy-IsSized refl
      (new-Tracks toy root) small_index skipped_run

next_key-Tracks_example :
    (self' : ChainEpochDirection) × (next_key toy start ≡ ok ((1, message_key toy root 1), self'))
    × (self'.ctr ≡ 1)
    × Tracks toy root self'
next_key-Tracks_example =
    next_key-Tracks toy root start toy-IsSized refl (new-Tracks toy root) (omega arith)

-- Two sides of a session, before and after the first message.
abbrev secrets : ℕ → Secret
secrets e = replicate 32 e

abbrev or_empty : Direction → Outcome Error Chain → Chain
or_empty dir (ok ch) = ch
or_empty dir _ = record {
  dir = dir;
  current_epoch = 0;
  send_epoch = 0;
  links = [];
  next_root = [];
  params = small_params;
}

abbrev side : Direction → Chain
unfolding new
side dir = or_empty dir (new toy (secrets 0) dir small_params)

side-InStep : (dir : Direction) → InStep toy secrets (side dir)
unfolding new
side-InStep dir =
    let (self, run, in_step, same) =
      new-InStep toy toy-IsSized secrets (secrets 0) dir small_params refl in
    subst (InStep toy secrets) (ok-injective (sym run)) in_step

abbrev chain_of {ℓ} : {A : Type ℓ} → Chain → Outcome Error (A × Chain) → Chain
chain_of self (ok r) = r.1
chain_of self _ = self

abbrev key_of : Outcome Error ((ℕ × Bytes) × Chain) → Bytes
key_of (ok r) = r.0.1
key_of _ = []

abbrev alice : Chain
unfolding send_key recv_key enter_send_epoch epoch_idx Direction.next_key new ced_for_direction
    pop_old clear_sends key max_jump_or_default Direction.later_key max_ooo_keys_or_default
    Direction.advance Direction.next_key_internal gc trim_size add to_be_bytes32
alice = chain_of (side a2b) (send_key toy (side a2b) 0)

abbrev first_key : Bytes
unfolding send_key recv_key enter_send_epoch epoch_idx Direction.next_key new ced_for_direction
    pop_old clear_sends key max_jump_or_default Direction.later_key max_ooo_keys_or_default
    Direction.advance Direction.next_key_internal gc trim_size add to_be_bytes32
first_key = key_of (send_key toy (side a2b) 0)

abbrev bob : Chain
unfolding switch send_key recv_key enter_send_epoch epoch_idx Direction.next_key new
    ced_for_direction pop_old clear_sends key max_jump_or_default Direction.later_key
    max_ooo_keys_or_default Direction.advance Direction.next_key_internal gc trim_size add
    to_be_bytes32
bob = chain_of (side b2a) (recv_key toy (side b2a) 0 1)

alice_sends : send_key toy (side a2b) 0 ≡ ok ((1, first_key), alice)
unfolding send_key recv_key enter_send_epoch epoch_idx Direction.next_key new ced_for_direction
    pop_old clear_sends key max_jump_or_default Direction.later_key max_ooo_keys_or_default
    Direction.advance Direction.next_key_internal gc trim_size add to_be_bytes32
alice_sends = refl

bob_receives : recv_key toy (side b2a) 0 1 ≡ ok (first_key, bob)
unfolding send_key recv_key enter_send_epoch epoch_idx Direction.next_key new ced_for_direction
    pop_old clear_sends key max_jump_or_default Direction.later_key max_ooo_keys_or_default
    Direction.advance Direction.next_key_internal gc trim_size add to_be_bytes32 switch
bob_receives = refl

recv_key-send_key_example : first_key ≡ first_key
recv_key-send_key_example =
    recv_key-send_key toy secrets (side a2b) (side b2a) alice bob 0 1 first_key first_key
      toy-IsSized (side-InStep a2b) (side-InStep b2a) (unfold switch new in refl) alice_sends
      (unfold max_ooo_keys_or_default new in omega arith) bob_receives

send_key-keys_example :
    (1 ≤ 1)
    × (1 < 2 ^ 32)
    × (first_key ≡ message_key toy (root_of toy (epoch_block toy secrets 0) (side a2b).dir) 1)
    × InStep toy secrets alice
    × (alice.dir ≡ (side a2b).dir)
send_key-keys_example =
    send_key-keys toy toy-IsSized secrets (side a2b) 0 1 first_key alice (side-InStep a2b)
      alice_sends

recv_key-keys_example :
    (first_key
      ≡ message_key toy (root_of toy (epoch_block toy secrets 0) (switch (side b2a).dir)) 1)
    × InStep toy secrets bob
    × (bob.dir ≡ (side b2a).dir)
recv_key-keys_example =
    recv_key-keys toy toy-IsSized secrets (side b2a) 0 1 first_key bob (side-InStep b2a)
      (omega arith) (unfold max_ooo_keys_or_default new in omega arith) bob_receives

add_epoch-InStep_example :
    (self' : Chain) × (add_epoch toy (side a2b) (record { epoch = 1; secret = secrets 1 })
      ≡ ok self')
    × InStep toy secrets self'
    × (self'.dir ≡ (side a2b).dir)
    × (self'.current_epoch ≡ suc (side a2b).current_epoch)
add_epoch-InStep_example =
    add_epoch-InStep toy toy-IsSized secrets (side a2b) (record { epoch = 1; secret = secrets 1 })
      (side-InStep a2b) (unfold new in refl) (unfold new in refl) (unfold new in omega arith)

new-InStep_example :
    (self : Chain) × (new toy (secrets 0) a2b small_params ≡ ok self)
    × InStep toy secrets self
    × (self.dir ≡ a2b)
new-InStep_example = new-InStep toy toy-IsSized secrets (secrets 0) a2b small_params refl

-- A history of three keys.
stored_entries : All IsEntry stored
stored_entries = (((omega arith), refl), (((omega arith), refl), (((omega arith), refl), tt)))

abbrev after_four : KeyHistory
after_four = of_bytes (encode ((3, replicate 32 1) ∷ (6, replicate 32 2) ∷ []))

four_run : get (of_bytes (encode stored)) 4 7 small_params ≡ ok (k7, after_four)
unfolding get encode to_be_bytes32 max_ooo_keys_or_default get_rounds slice remove
four_run = refl

get-takes_entry_example :
    (7 ≤ 4 + max_ooo_keys_or_default small_params)
    × (rest : List Entry) × (after_four ≡ of_bytes (encode rest))
    × Permᴰ stored ((4, k7) ∷ rest)
get-takes_entry_example =
    get-takes_entry stored 4 7 small_params k7 after_four stored_entries
      (unfold max_ooo_keys_or_default in omega arith) four_run

get-add_example :
    get (add (of_bytes (encode stored)) (5, k7)) 5 8 small_params
    ≡ ok (k7, of_bytes (encode stored))
get-add_example =
    get-add stored 5 8 small_params k7 stored_entries ((omega arith), refl)
      (unfold max_ooo_keys_or_default in omega arith)
      (unfold max_ooo_keys_or_default in omega arith) (unfold take_entry in refl)

abbrev tiny_params : ChainParamsPb
tiny_params = record { max_jump = 10; max_ooo_keys = 1 }

gc-keeps_example :
    (kept : List Entry) × (gc (of_bytes (encode stored)) 6 tiny_params
      ≡ ok (of_bytes (encode kept)))
    × Permᴰ kept (keep_from (6 - max_ooo_keys_or_default tiny_params) stored)
gc-keeps_example =
    gc-keeps stored 6 tiny_params stored_entries (omega arith)
      (unfold max_ooo_keys_or_default in omega arith)
      (unfold trim_size max_ooo_keys_or_default in omega arith)

-- The chain of the sender after the first message.
alice_links : All IsStorableLink alice.links
unfolding new send_key enter_send_epoch epoch_idx Direction.next_key ced_for_direction pop_old
    clear_sends Direction.next_key_internal to_be_bytes32 switch alice
alice_links = ((inr refl, inr refl), tt)

from_pb-into_pb_example : from_pb (into_pb alice) ≡ ok alice
from_pb-into_pb_example = from_pb-into_pb alice alice_links
