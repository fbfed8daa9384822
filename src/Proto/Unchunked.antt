-- ===== src/Proto/Unchunked.antt =====
-- src/proto/pq_ratchet.proto: `V1State.Unchunked`.
use sparse_post_quantum_ratc.Prelude.{Option}
use sparse_post_quantum_ratc.Types.{Bytes, Epoch}
use sparse_post_quantum_ratc.Proto.{Authenticator}

pub record KeysUnsampled : Type 0 where
  pub epoch : Epoch
  pub auth : Option Authenticator

pub record HeaderSent : Type 0 where
  pub epoch : Epoch
  pub auth : Option Authenticator
  pub ek : Bytes
  pub dk : Bytes

pub record EkSent : Type 0 where
  pub epoch : Epoch
  pub auth : Option Authenticator
  pub dk : Bytes

pub record EkSentCt1Received : Type 0 where
  pub epoch : Epoch
  pub auth : Option Authenticator
  pub dk : Bytes
  pub ct1 : Bytes

pub record NoHeaderReceived : Type 0 where
  pub epoch : Epoch
  pub auth : Option Authenticator

pub record HeaderReceived : Type 0 where
  pub epoch : Epoch
  pub auth : Option Authenticator
  pub hdr : Bytes

pub record Ct1Sent : Type 0 where
  pub epoch : Epoch
  pub auth : Option Authenticator
  pub hdr : Bytes
  pub es : Bytes
  pub ct1 : Bytes

pub record Ct1SentEkReceived : Type 0 where
  pub epoch : Epoch
  pub auth : Option Authenticator
  pub es : Bytes
  pub ek : Bytes
  pub ct1 : Bytes

pub record Ct2Sent : Type 0 where
  pub epoch : Epoch
  pub auth : Option Authenticator
