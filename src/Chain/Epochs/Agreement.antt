-- ===== src/Chain/Epochs/Agreement.antt =====
-- The two sides of a session: chains in step with the same secrets, in opposite directions.
use sparse_post_quantum_ratc.Prelude.{ℕ, ◌+◌, ◌<◌, ◌^◌, ◌≡◌, refl, sym, ap, ◌∙◌, ok}
use sparse_post_quantum_ratc.Types.{Bytes, Secret, Direction, a2b, b2a, switch}
use sparse_post_quantum_ratc.Crypto.{Crypto, IsSized}
use sparse_post_quantum_ratc.Chain.Params.{max_ooo_keys_or_default}
use sparse_post_quantum_ratc.Chain.Direction.Ratchet.{message_key}
use sparse_post_quantum_ratc.Chain.Epochs.{Chain, send_key, recv_key}
use sparse_post_quantum_ratc.Chain.Epochs.Schedule.{epoch_block, root_of, InStep}
use sparse_post_quantum_ratc.Chain.Epochs.Steps.{send_key-keys, recv_key-keys}

switch-switch : (d : Direction) → switch (switch d) ≡ d
unfolding switch
switch-switch a2b = refl
switch-switch b2a = refl

-- Two chains in opposite directions that are in step with the same epoch secrets agree on keys:
-- when one gives out a key and an index for sending in an epoch, and the other gives out a key for
-- receiving that index of that epoch, the two keys are equal, provided that the index plus
-- max_ooo_keys fits in 32 bits.
pub recv_key-send_key :
    (c : Crypto) (secrets : ℕ → Secret) (a b a' b' : Chain) (epoch index : ℕ) (k k' : Bytes)
    → IsSized c
    → InStep c secrets a
    → InStep c secrets b
    → b.dir ≡ switch a.dir
    → send_key c a epoch ≡ ok ((index, k), a')
    → index + max_ooo_keys_or_default b.params < 2 ^ 32
    → recv_key c b epoch index ≡ ok (k', b')
    → k' ≡ k
recv_key-send_key c secrets a b a' b' epoch index k k' sized ta tb opposite sent hi received =
    let (one, small, sent_key, ua, da) = send_key-keys c sized secrets a epoch index k a' ta sent in
    let (received_key, ub, db) =
      recv_key-keys c sized secrets b epoch index k' b' tb one hi received in
    let same : switch b.dir ≡ a.dir = ap switch opposite ∙ switch-switch a.dir in
    received_key
    ∙ ap (λ d. message_key c (root_of c (epoch_block c secrets epoch) d) index) same
    ∙ sym sent_key
