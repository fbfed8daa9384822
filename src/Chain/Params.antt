-- ===== src/Chain/Params.antt =====
-- `ChainParams` of src/chain.rs, and its protobuf with the defaults that stand for zero.
use sparse_post_quantum_ratc.Prelude.{ℕ, ◌+◌, ◌*◌, ◌/◌, ◌==◌, ltb, if◌then◌else◌}

pub record ChainParams : Type 0 where
  pub max_jump : ℕ
  pub max_ooo_keys : ℕ

pub record ChainParamsPb : Type 0 where
  pub max_jump : ℕ
  pub max_ooo_keys : ℕ

abbrev pub default_chain_params : ChainParams
default_chain_params = record { max_jump = 25_000; max_ooo_keys = 2_000 }

unfoldable pub into_pb : ChainParams → ChainParamsPb
into_pb self = record {
  max_jump = if self.max_jump == default_chain_params.max_jump then 0 else self.max_jump;
  max_ooo_keys =
      if self.max_ooo_keys == default_chain_params.max_ooo_keys then 0 else self.max_ooo_keys;
}

unfoldable pub max_jump_or_default : ChainParamsPb → ℕ
max_jump_or_default self =
    if ltb 0 self.max_jump then self.max_jump else default_chain_params.max_jump

unfoldable pub max_ooo_keys_or_default : ChainParamsPb → ℕ
max_ooo_keys_or_default self =
    if ltb 0 self.max_ooo_keys then self.max_ooo_keys else default_chain_params.max_ooo_keys

-- On a usize, which a u32 times 11 cannot overflow.
unfoldable pub trim_size : ChainParamsPb → ℕ
trim_size self = max_ooo_keys_or_default self * 11 / 10 + 1
