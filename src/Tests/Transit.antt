-- ===== src/Tests/Transit.antt =====
-- Vouchers and relay frames at concrete inputs.
use nerw_rpc.Prelude.{
  ℕ, List, [], ◌∷◌, ◌++◌, ◌≡◌, ◌↔◌, refl, arith, none, some, ◌==◌, if◌then◌else◌, length, take,
  drop, take-length_append, drop-length_append, replicate,
}
use nerw_rpc.Prelude.Text.{Text, utf8, text_eq, text_eq_refl}
use nerw_rpc.Result.{Result, ok, err}
use nerw_rpc.External.Keys.{Keys, KeysLaws}
use nerw_rpc.External.Postcard.{PostcardTake, PostcardTakeLaws}
use nerw_rpc.Transit.{
  TransitFrame, TransitError, compose_signing_bytes, sign, verify, encode_frame, decode_frame,
  malformed, bye,
}
use nerw_rpc.Transit.Vouchers.{compose_signing_bytes_injective, verify-sign}
use nerw_rpc.Transit.Frames.{decode-encode_frame}

-- A scheme in which the signature is the key and the message.
abbrev pub keys : Keys
keys = record {
  public = λ secret. secret;
  sign = λ secret message. secret ++ message;
  verify = λ key message signature. text_eq (key ++ message) signature;
}

keys_laws : KeysLaws keys
keys_laws = record { verify-sign = λ secret message. text_eq_refl (secret ++ message) }

-- postcard at the closing frame; the other frames are refused.
abbrev pub put_bye : TransitFrame → Result Text (List ℕ)
put_bye (bye none) = ok (5 ∷ 0 ∷ [])
put_bye (bye (some reason)) = ok (5 ∷ 1 ∷ length reason ∷ reason)
put_bye _ = err (utf8 "unsupported")

abbrev pub take_reason : List ℕ → Result Text (TransitFrame × List ℕ)
take_reason [] = err (utf8 "Hit the end of buffer, expected more data")
take_reason (n ∷ s) = ok (bye (some (take n s)), drop n s)

abbrev pub take_option : List ℕ → Result Text (TransitFrame × List ℕ)
take_option [] = err (utf8 "Hit the end of buffer, expected more data")
take_option (tag ∷ s) = if tag == 0 then ok (bye none, s) else take_reason s

abbrev pub take_bye : List ℕ → Result Text (TransitFrame × List ℕ)
take_bye [] = err (utf8 "Hit the end of buffer, expected more data")
take_bye (tag ∷ s) = if tag == 5 then take_option s else err (utf8 "unsupported")

abbrev pub frames : PostcardTake TransitFrame
frames = record { to_allocvec = put_bye; take_from_bytes = take_bye }

take-put_bye :
    (f : TransitFrame) (bytes rest : List ℕ)
    → put_bye f ≡ ok bytes
    → take_bye (bytes ++ rest) ≡ ok (f, rest)
take-put_bye (bye none) bytes rest h = let same : 5 ∷ 0 ∷ [] ≡ bytes = cc in rw (← same) refl
take-put_bye (bye (some reason)) bytes rest h =
    let same : 5 ∷ 1 ∷ length reason ∷ reason ≡ bytes = cc in
    rw (← same) (rw (take-length_append reason rest, drop-length_append reason rest) refl)
take-put_bye (TransitFrame.hello _ _) bytes rest h = cc
take-put_bye (TransitFrame.reserve_request _ _) bytes rest h = cc
take-put_bye (TransitFrame.reserve_response _) bytes rest h = cc
take-put_bye (TransitFrame.connect_request _ _) bytes rest h = cc
take-put_bye (TransitFrame.connect_response _) bytes rest h = cc

frames_laws : PostcardTakeLaws frames
frames_laws = record { take-to = take-put_bye }

abbrev pub key_of : ℕ → List ℕ
key_of n = replicate 32 n

abbrev pub expiry : ℕ
expiry = 1700000600

compose_signing_bytes_injective_example :
    (key_of 1 ≡ key_of 1) × (key_of 2 ≡ key_of 2) × (expiry ≡ expiry)
compose_signing_bytes_injective_example =
    compose_signing_bytes_injective (key_of 1) (key_of 2) (key_of 1) (key_of 2) expiry expiry refl
      refl (omega arith) (omega arith) refl

verify-sign_example :
    (verify keys (sign keys (key_of 1) (key_of 2) expiry) (key_of 1) ≡ ok tt)
    ↔ (key_of 1 ≡ key_of 1)
verify-sign_example = verify-sign keys_laws (key_of 1) (key_of 2) expiry (key_of 1)

-- A voucher whose expiry was changed does not verify.
tampered :
    verify keys
      (record {
        relay_node_id = 1 ∷ [];
        peer_node_id = 2 ∷ [];
        expire_unix_secs = 601;
        signature = (sign keys (1 ∷ []) (2 ∷ []) 600).signature;
      })
      (1 ∷ [])
    ≡ err TransitError.voucher_invalid_sig
unfolding verify sign compose_signing_bytes
tampered = refl

bye_encoded : encode_frame frames (bye (some (7 ∷ []))) ≡ ok (5 ∷ 1 ∷ 1 ∷ 7 ∷ [])
unfolding encode_frame
bye_encoded = refl

decode-encode_frame_example :
    (decode_frame frames (5 ∷ 1 ∷ 1 ∷ 7 ∷ []) ≡ ok (bye (some (7 ∷ []))))
    × ((b : ℕ) (rest : List ℕ)
        → decode_frame frames ((5 ∷ 1 ∷ 1 ∷ 7 ∷ []) ++ (b ∷ rest)) ≡ err malformed)
decode-encode_frame_example =
    decode-encode_frame frames_laws (bye (some (7 ∷ []))) (5 ∷ 1 ∷ 1 ∷ 7 ∷ []) bye_encoded
