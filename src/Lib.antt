-- ===== src/Lib.antt =====
-- nerw-rpc: remote calls over QUIC connections, one bidirectional stream per
-- call. A client sends an opcode byte, the method name behind a LEB128 length
-- and the request payload; the server looks the name up in its registry, runs
-- the handler and answers with an opcode and a payload, or with an error.
--
-- Prelude     shared names, Boolean tests, lists, texts and splitting
-- Result      the result type with its bind, for Rust's `?`
-- Error       src/error.rs: RpcError and the texts of its Display
-- WireError   src/wire_error.rs: the error enum of the wire, both conversions;
--             WireError/View: what a client sees of a server's error
-- External    the crates that the source calls, as records of operations and of
--             laws: leb128, postcard, the halves of an iroh stream (Quic),
--             nerw_core's client (Network) and what it does with a peer that
--             runs the server (Link), tokio's mpsc (Channel) and tasks (Executor),
--             Ed25519 (Keys)
-- Io          fallible operations on a state, with `?`
-- Wire        src/wire.rs: opcodes, limits, method names and stream ids;
--             Wire/Utf8: str::from_utf8; Wire/RoundTrip and
--             Wire/StreamIds: the round trips
-- Method      the MethodName of src/method.rs; Method/Grammar: the names
--             that `parse` accepts
-- Registry    the MethodRegistry of src/method.rs with the HandlerEntry of
--             src/streaming.rs; Registry/Order: the order of keys,
--             Registry/Entries: lists of entries with distinct keys,
--             Registry/Invariant: registration, Registry/Resolve and
--             Registry/Triple: lookups, Registry/Registration: what a registration
--             changes, Registry/Names: the published list,
--             Registry/Crossing and Registry/Versions: lookups that reach an
--             unexpected handler
-- Transport   src/transport.rs: protocol names, the handle of the transport
-- Context     src/context.rs, and build_inbound_context of src/server.rs
-- Streaming   src/streaming.rs: the frame types, Streaming/Read and
--             Streaming/Write; Streaming/Format and Streaming/Sequence: the
--             bytes of frames; Streaming/RoundTrip; Streaming/Read/Varint and
--             Streaming/Read/Truncation: the varint reader;
--             Streaming/Read/Progress: reads take bytes off the stream,
--             Streaming/Read/Decoded: what a frame carries
-- Server      src/server.rs: Server/Frame and Server/Dispatch for unary calls,
--             Server/Pump and Server/Streaming for streaming calls,
--             Server/Inbound for the substream that carries either;
--             Server/Accept: RpcServer and run_accept_loop, with the server over a
--             history of calls in Server/Accept/History and Server/Accept/Lifecycle;
--             Server/Connections: WireDispatchHandler and run_connection_loop, with
--             the limits in Server/Connections/Bounds and progress in
--             Server/Connections/Progress; Server/Tasks: the tasks of a streaming
--             call over their channels, with Server/Tasks/Sequential and
--             Server/Tasks/Ending
-- Client      src/client.rs: unary calls with Client/Eviction; Client/Streaming;
--             Client/Tasks: the tasks of a streaming call with the caller, with
--             Client/Tasks/Outbound, Client/Tasks/Inbound and Client/Tasks/Closing
-- Datagram    src/datagram.rs: the dispatcher; Datagram/Handlers: its operations,
--             Datagram/InFlight: the read loops of its connections with their
--             tasks
-- Transit     src/transit.rs: vouchers and relay frames
-- Codec       src/codec.rs
-- Schema      src/schema.rs: the built-in method; Schema/Published: its answer
-- Unary       client and server together in a unary call;
--             Unary/OverNetwork: the client's call as a whole
-- StreamingCall  client and server together in a streaming call;
--             StreamingCall/OverNetwork: its opening, StreamingCall/Total: every
--             inbound substream is handled to its end; StreamingCall/Yields:
--             what the caller is given; StreamingCall/WholeCall: both sides
-- Tests       runs at concrete inputs and instances of the parameters
--
-- Numbers. Machine integers are native naturals with their width written out:
-- a byte is below 256, a u64 below 2^64, and usize is taken as 64 bits.
-- Text. A `String` is its list of UTF-8 bytes, which Rust compares and splits by.
-- Maps. A HashMap is an association list with one entry per key.
-- Foreign errors (postcard, nerw_core, boxed errors) are their Display text, and
-- `{:?}` of a value is a parameter.
-- State. A stream half, the application's state and the network are states that
-- the operations take and return. A unary handler is an operation on the
-- application's state. A streaming handler is given the whole sequence of its
-- request items and gives the sequence of its responses and the way in which its
-- task ended. Server/Tasks relates this to the tasks of a call, which the
-- bounded channels delay; there a handler is a program of receives, sends and
-- changes of the state. Client/Tasks relates the client's two pumps to their
-- tasks. Neither half of a stream can observe the other.
-- Fuel. The frame pumps run on fuel, one unit per frame; a unit per byte that is
-- pending and one more is always enough.
-- Tasks. The connections of a server and their substreams, and the datagrams of a
-- dispatcher, are step relations in which tasks take their steps in any order. The
-- handling of a substream, or of a datagram, is one step of them, and so is the
-- write of a chunk by a task of the client, unless the task is aborted within it.
-- Not modelled: tracing output, poisoned locks, closed semaphores, and the
-- interleaving of two handlers within their runs.
pub mod Prelude
pub mod Result
pub mod Error
pub mod WireError
pub mod External
pub mod Io
pub mod Wire
pub mod Method
pub mod Registry
pub mod Transport
pub mod Context
pub mod Streaming
pub mod Server
pub mod Client
pub mod Datagram
pub mod Transit
pub mod Codec
pub mod Schema
pub mod Unary
pub mod StreamingCall
pub mod Tests
