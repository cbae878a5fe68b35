-- ===== src/Context.antt =====
-- src/context.rs: what a handler learns of a request beside its bytes. An iroh node id and a UUID
-- are their bytes.
pub mod Inbound
use nerw_rpc.Prelude.{ℕ, List, Option, none, Bool, false, ◌||◌}
use nerw_rpc.Prelude.Ints.{ℤ, pos}
use nerw_rpc.Prelude.Text.{Text, utf8, text_eq}

abbrev pub NodeId : Type 0
NodeId = List ℕ

abbrev pub Uuid : Type 0
Uuid = List ℕ

pub record PeerMetadata : Type 0 where
  pub node_id : NodeId
  pub connection_id : ℕ
  pub stream_id : ℕ
  pub alpn : List ℕ
  pub handshake_at_ms : ℤ
  pub tls_cipher_suite : Option Text

pub record AuthenticatedContext : Type 0 where
  pub node_id : NodeId
  pub master_pubkey : List ℕ
  pub user_id : Uuid
  pub device_id : Uuid
  pub scopes : List Text
  pub registered_at_ms : ℤ
  pub last_seen_at_ms : ℤ

-- `iter().any`.
abbrev any : (Text → Bool) → List Text → Bool
any p List.[] = false
any p (List.◌∷◌ x xs) = p x || any p xs

unfoldable pub has_scope : AuthenticatedContext → Text → Bool
has_scope auth scope = any (λ s. text_eq s scope) auth.scopes

pub record SessionInfo : Type 0 where
  pub session_id : Uuid
  pub session_started_at_ms : ℤ
  pub last_activity_ms : ℤ
  pub keepalive_count : ℕ

pub record TimingInfo : Type 0 where
  pub received_at_ms : ℤ
  pub received_at_monotonic_ns : ℕ
  pub frame_decode_duration_us : ℕ

pub record TracingInfo : Type 0 where
  pub trace_id : Uuid
  pub span_id : Uuid
  pub parent_span_id : Option Uuid
  pub correlation_id : Option Uuid
  pub sampled : Bool

-- `TracingInfo::fresh`, given the two ids that `Uuid::new_v4` draws.
abbrev pub fresh : Uuid → Uuid → TracingInfo
fresh trace span = record {
  trace_id = trace;
  span_id = span;
  parent_span_id = none;
  correlation_id = none;
  sampled = false;
}

pub record RpcContext : Type 0 where
  pub peer : PeerMetadata
  pub timing : TimingInfo
  pub auth : Option AuthenticatedContext
  pub session : Option SessionInfo
  pub tracing : TracingInfo

-- `PeerMetadata::loopback`, given the public key of the all-zero seed.
abbrev pub loopback : NodeId → PeerMetadata
loopback id = record {
  node_id = id;
  connection_id = 0;
  stream_id = 0;
  alpn = utf8 "nerw-rpc/1";
  handshake_at_ms = pos 0;
  tls_cipher_suite = none;
}

-- `TimingInfo::zero`.
abbrev pub zero_timing : TimingInfo
zero_timing = record {
  received_at_ms = pos 0;
  received_at_monotonic_ns = 0;
  frame_decode_duration_us = 0;
}

-- `RpcContext::minimal`.
abbrev pub minimal : Uuid → Uuid → PeerMetadata → RpcContext
minimal trace span p = record {
  peer = p;
  timing = zero_timing;
  auth = none;
  session = none;
  tracing = fresh trace span;
}
