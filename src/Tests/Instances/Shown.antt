-- ===== src/Tests/Instances/Shown.antt =====
-- The texts of foreign values, and the arrival of a request.
use nerw_rpc.Prelude.{List, []}
use nerw_rpc.Prelude.Text.{Text, utf8}
use nerw_rpc.Result.{ok}
use nerw_rpc.Context.Inbound.{Arrival}
use nerw_rpc.External.Quic.{ReadExactError}
use nerw_rpc.Streaming.{StreamingFrame}

abbrev pub arrival : Arrival
arrival = record {
  remote_id = [];
  connection_id = 1;
  stream_id = 0;
  now_ms = ok 1700000000000;
  elapsed_ns = 1000;
  decode_us = 1;
  trace = [];
  span = [];
}

abbrev pub show_utf8 : Text → Text
show_utf8 _ = utf8 "invalid utf-8"

abbrev pub show_read : ReadExactError → Text
show_read _ = utf8 "read failed"

abbrev pub debug : List Text → Text
debug _ = utf8 "[..]"

abbrev pub debug_frame : StreamingFrame → Text
debug_frame _ = utf8 "frame"
