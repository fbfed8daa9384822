-- ===== src/Authenticator/Stored.antt =====
-- src/authenticator/serialize.rs: storing the authenticator's keys.
use sparse_post_quantum_ratc.Prelude.{Option, Outcome, ok, ◌>>=◌, ok_or}
use sparse_post_quantum_ratc.Types.{Error, state_decode}
use sparse_post_quantum_ratc.Authenticator.{Authenticator}
use sparse_post_quantum_ratc.Proto

-- `into_pb`, and `from_pb`, which cannot fail.
pub record StoredAuthenticator : Type 0 where
  pub into_pb : Authenticator → Proto.Authenticator
  pub from_pb : Proto.Authenticator → Authenticator

unfoldable pub authenticator : StoredAuthenticator
authenticator = record {
  into_pb = λ self. record { root_key = self.root_key; mac_key = self.mac_key };
  from_pb = λ pb. record { root_key = pb.root_key; mac_key = pb.mac_key };
}

-- `Authenticator::from_pb(pb.auth.as_ref().ok_or(Error::StateDecode)?)`
abbrev pub load_auth : Option Proto.Authenticator → Outcome Error Authenticator
unfolding authenticator
load_auth field = do pb ← ok_or field state_decode; ok (authenticator.from_pb pb)
