-- ===== src/Tests/Wire.antt =====
-- Runs of the codecs of wire.rs.
use nerw_rpc.Prelude.{ℕ, List, [], ◌∷◌, ◌++◌, ◌≡◌, refl, arith, true, false}
use nerw_rpc.Prelude.Text.{Text, utf8}
use nerw_rpc.Result.{ok, err}
use nerw_rpc.Error.{malformed_frame}
use nerw_rpc.External.Leb128.{groups}
use nerw_rpc.Wire.{encode_method_name, decode_method_name, encode_stream_id, decode_stream_id}
use nerw_rpc.Wire.Utf8.{is_utf8}
use nerw_rpc.Wire.RoundTrip.{decode-encode_method_name}
use nerw_rpc.Tests.Instances.Leb128.{leb128, leb128_laws, read_groups}

abbrev shown : Text → Text
shown _ = utf8 "invalid utf-8"

abbrev name : Text
name = utf8 "tolki:chat@1.0.0/chat/send"

utf8_tests :
    (is_utf8 (utf8 "дом") ≡ true)
    × (is_utf8 (0xc0 ∷ 0x80 ∷ []) ≡ false)
    × (is_utf8 (0xed ∷ 0xa0 ∷ 0x80 ∷ []) ≡ false)
    × (is_utf8 (0xe2 ∷ 0x82 ∷ []) ≡ false)
    × (is_utf8 (0xf0 ∷ 0x9f ∷ 0x98 ∷ 0x80 ∷ []) ≡ true)
unfolding is_utf8
utf8_tests = (refl, refl, refl, refl, refl)

stream_id_300 : encode_stream_id leb128 300 [] ≡ ok (0xac ∷ 0x02 ∷ [])
unfolding encode_stream_id groups
stream_id_300 = refl

truncated :
    decode_stream_id leb128 (0x80 ∷ [])
    ≡ err (malformed_frame (utf8 "leb128 read stream-id: failed to fill whole buffer"))
unfolding decode_stream_id read_groups
truncated = refl

decoded : decode_stream_id leb128 (0xac ∷ 0x02 ∷ 7 ∷ []) ≡ ok (300, 7 ∷ [])
unfolding decode_stream_id read_groups
decoded = refl

decoded_name : decode_method_name leb128 shown (2 ∷ b'a' ∷ b'b' ∷ 9 ∷ []) ≡ ok (utf8 "ab", 9 ∷ [])
unfolding decode_method_name read_groups is_utf8
decoded_name = refl

decode-encode_method_name_example :
    (wire : Text) × (encode_method_name leb128 name (0 ∷ []) ≡ ok ((0 ∷ []) ++ wire))
    × ((rest : List ℕ) → decode_method_name leb128 shown (wire ++ rest) ≡ ok (name, rest))
unfolding is_utf8
decode-encode_method_name_example =
    decode-encode_method_name leb128_laws shown name (0 ∷ []) refl (omega arith)

abbrev frame_300 : List ℕ
frame_300 = 0xac ∷ 0x02 ∷ 7 ∷ []
