-- ===== src/Tests/Oversized.antt =====
-- A chunk of one byte more than the limit.
use nerw_rpc.Prelude.{ℕ, List, [], ◌∷◌, ◌++◌, ◌≡◌, refl, arith, length, replicate, length-replicate}
use nerw_rpc.Prelude.Text.{utf8, decimal}
use nerw_rpc.Result.{err}
use nerw_rpc.Error.{malformed_frame}
use nerw_rpc.External.Leb128.{groups}
use nerw_rpc.Streaming.Read.{read_length_prefixed}
use nerw_rpc.Streaming.Write.{write_length_prefixed}
use nerw_rpc.Streaming.RoundTrip.{Wrote, read-write_oversized}
use nerw_rpc.Tests.Instances.Leb128.{leb128, leb128_laws}
use nerw_rpc.Tests.Instances.Quic.{recv, recv_laws, send, send_laws, fresh_sent}
use nerw_rpc.Tests.Instances.Shown.{show_read}
use nerw_rpc.Tests.Instances.Codecs.{codecs_laws}

-- The bytes are those of `replicate`, behind a name that does not compute.
zeros : ℕ → List ℕ
zeros n = replicate n 0

length-zeros : (n : ℕ) → length (zeros n) ≡ n
unfolding zeros
length-zeros n = length-replicate n 0

read-write_oversized_example :
    Wrote send_laws leb128_laws
      (0x20 ∷ (groups 9 (length (zeros 8388609)) ++ (zeros 8388609)))
      fresh_sent
      (write_length_prefixed send leb128 0x20 (zeros 8388609) fresh_sent)
    × ((t : List ℕ) × (read_length_prefixed recv show_read
            (groups 9 (length (zeros 8388609)) ++ ((zeros 8388609) ++ []))
          ≡ (
            err (
                malformed_frame (
                  utf8 "streaming payload length "
                  ++ (decimal (length (zeros 8388609))
                      ++ (utf8 " exceeds maximum " ++ decimal 8388608)))),
            t,
          ))
        × (t ≡ (zeros 8388609) ++ []))
read-write_oversized_example =
    read-write_oversized send_laws recv_laws leb128_laws show_read codecs_laws 0x20 (zeros 8388609)
      [] fresh_sent (groups 9 (length (zeros 8388609)) ++ ((zeros 8388609) ++ []))
      (omega (arith, length-zeros 8388609)) (omega (arith, length-zeros 8388609)) refl refl
