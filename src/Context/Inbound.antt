-- ===== src/Context/Inbound.antt =====
-- src/server.rs and src/transport.rs: the context that the dispatcher builds for a request.
use nerw_rpc.Prelude.{
  Bool-cases, inl, inr, ℕ, ◌-◌, ◌^◌, ◌<◌, none, ◌≡◌, refl, if◌then◌else◌, ltb, arith,
}
use nerw_rpc.Prelude.Ints.{ℤ, pos}
use nerw_rpc.Prelude.Text.{Text}
use nerw_rpc.Result.{Result, ok, err}
use nerw_rpc.Transport.{alpn_nerw_rpc_1_0_0}
use nerw_rpc.Context.{NodeId, Uuid, RpcContext, fresh}

-- What the dispatcher reads of the connection, of the clocks and of the random generator: the
-- peer's identity, the counters, `SystemTime::now` since the epoch in milliseconds, the time since
-- the stream was accepted in nanoseconds and, when the frame was decoded, in microseconds.
pub record Arrival : Type 0 where
  pub remote_id : NodeId
  pub connection_id : ℕ
  pub stream_id : ℕ
  pub now_ms : Result Text ℕ
  pub elapsed_ns : ℕ
  pub decode_us : ℕ
  pub trace : Uuid
  pub span : Uuid

-- `u64::try_from(n).unwrap_or(u64::MAX)`.
abbrev pub u64_or_max : ℕ → ℕ
u64_or_max n = if ltb n (2 ^ 64) then n else 2 ^ 64 - 1

-- `i64::try_from(n.unwrap_or(0)).unwrap_or(0)`.
abbrev pub i64_or_zero : Result Text ℕ → ℤ
i64_or_zero (ok n) = if ltb n (2 ^ 63) then pos n else pos 0
i64_or_zero (err _) = pos 0

unfoldable pub build_inbound_context : Arrival → RpcContext
build_inbound_context a = record {
  peer = record {
    node_id = a.remote_id;
    connection_id = a.connection_id;
    stream_id = a.stream_id;
    alpn = alpn_nerw_rpc_1_0_0;
    handshake_at_ms = i64_or_zero a.now_ms;
    tls_cipher_suite = none;
  };
  timing = record {
    received_at_ms = i64_or_zero a.now_ms;
    received_at_monotonic_ns = u64_or_max a.elapsed_ns;
    frame_decode_duration_us = u64_or_max a.decode_us;
  };
  auth = none;
  session = none;
  tracing = fresh a.trace a.span;
}

u64_or_max-bound : (n : ℕ) → u64_or_max n < 2 ^ 64
u64_or_max-bound n = ground arith

i64_or_zero-bound : (n : Result Text ℕ) → (m : ℕ) × (i64_or_zero n ≡ pos m) × (m < 2 ^ 63)
i64_or_zero-bound (err _) = (0, refl, omega arith)
i64_or_zero-bound (ok n) = elim (Bool-cases (ltb n (2 ^ 63))) [
  | inl small ↦ (n, rw small refl, ground arith)
  | inr large ↦ (0, rw large refl, omega arith)
]

-- Whatever the clocks say, the two monotonic readings of the context are u64s and its wall-clock
-- time is an i64 that is not negative. A fresh context names the peer that the connection proved,
-- and it carries neither an application identity nor a session.
build_inbound_context_bounds :
    (a : Arrival)
    → let c = build_inbound_context a in
      (c.timing.received_at_monotonic_ns < 2 ^ 64)
      × (c.timing.frame_decode_duration_us < 2 ^ 64)
      × ((m : ℕ) × (c.timing.received_at_ms ≡ pos m) × (m < 2 ^ 63))
      × (c.peer.node_id ≡ a.remote_id)
      × (c.auth ≡ none)
      × (c.session ≡ none)
unfolding build_inbound_context
build_inbound_context_bounds a = (
  u64_or_max-bound a.elapsed_ns,
  u64_or_max-bound a.decode_us,
  i64_or_zero-bound a.now_ms,
  refl,
  refl,
  refl,
)
