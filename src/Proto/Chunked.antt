-- ===== src/Proto/Chunked.antt =====
-- src/proto/pq_ratchet.proto: `V1State.Chunked`, and the one state that `V1State` holds.
use sparse_post_quantum_ratc.Prelude.{Option}
use sparse_post_quantum_ratc.Proto.{PolynomialEncoder, PolynomialDecoder}
use sparse_post_quantum_ratc.Proto.Unchunked

pub record KeysUnsampled : Type 0 where
  pub uc : Option Unchunked.KeysUnsampled

pub record KeysSampled : Type 0 where
  pub uc : Option Unchunked.HeaderSent
  pub sending_hdr : Option PolynomialEncoder

pub record HeaderSent : Type 0 where
  pub uc : Option Unchunked.EkSent
  pub sending_ek : Option PolynomialEncoder
  pub receiving_ct1 : Option PolynomialDecoder

pub record Ct1Received : Type 0 where
  pub uc : Option Unchunked.EkSentCt1Received
  pub sending_ek : Option PolynomialEncoder

pub record EkSentCt1Received : Type 0 where
  pub uc : Option Unchunked.EkSentCt1Received
  pub receiving_ct2 : Option PolynomialDecoder

pub record NoHeaderReceived : Type 0 where
  pub uc : Option Unchunked.NoHeaderReceived
  pub receiving_hdr : Option PolynomialDecoder

pub record HeaderReceived : Type 0 where
  pub uc : Option Unchunked.HeaderReceived
  pub receiving_ek : Option PolynomialDecoder

pub record Ct1Sampled : Type 0 where
  pub uc : Option Unchunked.Ct1Sent
  pub sending_ct1 : Option PolynomialEncoder
  pub receiving_ek : Option PolynomialDecoder

pub record EkReceivedCt1Sampled : Type 0 where
  pub uc : Option Unchunked.Ct1SentEkReceived
  pub sending_ct1 : Option PolynomialEncoder

pub record Ct1Acknowledged : Type 0 where
  pub uc : Option Unchunked.Ct1Sent
  pub receiving_ek : Option PolynomialDecoder

pub record Ct2Sampled : Type 0 where
  pub uc : Option Unchunked.Ct2Sent
  pub sending_ct2 : Option PolynomialEncoder

pub data InnerState : Type 0 where
  keys_unsampled : KeysUnsampled → InnerState
  keys_sampled : KeysSampled → InnerState
  header_sent : HeaderSent → InnerState
  ct1_received : Ct1Received → InnerState
  ek_sent_ct1_received : EkSentCt1Received → InnerState
  no_header_received : NoHeaderReceived → InnerState
  header_received : HeaderReceived → InnerState
  ct1_sampled : Ct1Sampled → InnerState
  ek_received_ct1_sampled : EkReceivedCt1Sampled → InnerState
  ct1_acknowledged : Ct1Acknowledged → InnerState
  ct2_sampled : Ct2Sampled → InnerState

pub record V1State : Type 0 where
  pub inner_state : Option InnerState
