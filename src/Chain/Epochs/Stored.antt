-- ===== src/Chain/Epochs/Stored.antt =====
-- Storing a chain as protobuf and loading it.
use sparse_post_quantum_ratc.Prelude.{
  ◌≡◌, ◌⊎◌, inl, inr, refl, Bool, true, false, List, [], ◌∷◌, map, length, is_empty, ◌||◌, some, ok,
  All,
}
use sparse_post_quantum_ratc.Types.{Direction, a2b, b2a}
use sparse_post_quantum_ratc.Chain.Direction
use sparse_post_quantum_ratc.Chain.Direction.{ChainEpochDirection}
use sparse_post_quantum_ratc.Chain.Epochs.{
  ChainEpoch, Chain, EpochPb, i32_of_direction, direction_try_from, into_pb, link_from_pb,
  links_from_pb, from_pb,
}

-- The chain key is cleared or whole.
abbrev pub IsStorable : ChainEpochDirection → Type 0
IsStorable self = (self.next ≡ []) ⊎ (length self.next ≡ 32)

abbrev pub IsStorableLink : ChainEpoch → Type 0
IsStorableLink link = IsStorable link.send × IsStorable link.recv

or_true : (b : Bool) → (b || true) ≡ true
or_true true = refl
or_true false = refl

direction_roundtrip :
    (self : ChainEpochDirection)
    → IsStorable self
    → Direction.from_pb (Direction.into_pb self) ≡ ok self
unfolding Direction.from_pb Direction.into_pb
direction_roundtrip self (inl e) = rw e
direction_roundtrip self (inr e) = rw (e, or_true (is_empty self.next))

sender_roundtrip : (dir : Direction) → direction_try_from (i32_of_direction dir) ≡ some dir
unfolding direction_try_from
sender_roundtrip a2b = refl
sender_roundtrip b2a = refl

abbrev link_into_pb : ChainEpoch → EpochPb
link_into_pb link = record {
  send = some (Direction.into_pb link.send);
  recv = some (Direction.into_pb link.recv);
}

links_roundtrip :
    (links : List ChainEpoch)
    → All IsStorableLink links
    → links_from_pb (map link_into_pb links) ≡ ok links
unfolding links_from_pb link_from_pb
links_roundtrip [] h = refl
links_roundtrip (link ∷ links) h = rw (
  direction_roundtrip link.send h.0.0,
  direction_roundtrip link.recv h.0.1,
  links_roundtrip links h.1,
)

-- A chain whose directions have a chain key of 32 bytes or a cleared one is loaded from its
-- protobuf as it was stored.
pub from_pb-into_pb :
    (self : Chain) → All IsStorableLink self.links → from_pb (into_pb self) ≡ ok self
unfolding from_pb into_pb
from_pb-into_pb self h = rw (sender_roundtrip self.dir, links_roundtrip self.links h)
