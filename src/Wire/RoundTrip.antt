-- ===== src/Wire/RoundTrip.antt =====
-- src/wire.rs: decoding a method name undoes encoding, and what a successful decoding says of the input.
use nerw_rpc.Prelude.{
  ℕ, zero, suc, ◌+◌, ◌-◌, ◌^◌, ◌≤◌, ◌<◌, List, [], ◌∷◌, ◌++◌, ◌≡◌, refl, sym, ap, ◌∙◌, arith, true,
}
use nerw_rpc.Prelude.{
  length, take, drop, append_assoc, length-append, take-length_append, take-append-drop,
  length-take, drop-length_append,
}
use nerw_rpc.Prelude.Text.{Text, utf8, decimal}
use nerw_rpc.Result.{ok, err, map_err, >>=-eq-ok, map_err-eq-ok}
use nerw_rpc.Error.{malformed_frame}
use nerw_rpc.External.Leb128.{Leb128, Leb128Laws, groups, write-groups, length-groups}
use nerw_rpc.Wire.{
  encode_method_name, decode_method_name, split_name, check_name_len, name_end, max_method_name_len,
}
use native.Mathlib.Nat.{zero-add, suc-add}
use nerw_rpc.Wire.Utf8.{is_utf8}

check_name_len-ok : (n : ℕ) → n ≤ max_method_name_len → check_name_len n ≡ ok tt
check_name_len-ok n h = ground arith

name_end-ok : (n p size : ℕ) → p + n < 2 ^ 64 → p + n ≤ size → name_end p n size ≡ ok (p + n)
name_end-ok n p size h h' = ground arith

check_name_len-err :
    (n : ℕ)
    → max_method_name_len < n
    → check_name_len n
      ≡ err (
          malformed_frame (
            utf8 "method-name length "
            ++ (decimal n ++ (utf8 " exceeds maximum " ++ decimal 4096))))
check_name_len-err n h = ground arith

split_name_sound :
    (show_utf8 : Text → Text) (input : List ℕ) (n p : ℕ) (name rest : List ℕ)
    → split_name show_utf8 input n p ≡ ok (name, rest)
    → (n ≤ max_method_name_len)
      × (p + n ≤ length input)
      × (name ≡ take (p + n - p) (drop p input))
      × (rest ≡ drop (p + n) input)
      × (is_utf8 name ≡ true)
unfolding split_name
split_name_sound show_utf8 input n p name rest h = ground arith

-- The middle of a list, by positions.
split_at :
    (p n : ℕ) (xs : List ℕ)
    → p + n ≤ length xs
    → (xs ≡ take p xs ++ (take n (drop p xs) ++ drop (p + n) xs))
      × (length (take n (drop p xs)) ≡ n)
split_at zero n xs h = rw zero-add (sym (take-append-drop n xs), omega (arith, length-take n xs))
split_at (suc p) n [] h = absurd (omega arith)
split_at (suc p) n (x ∷ xs) h =
    let (parts, len) = split_at p n xs (omega arith) in
    (rw suc-add (ap (λ (l : List ℕ). x ∷ l) parts), len)

module _ {l : Leb128} (laws : Leb128Laws l) (show_utf8 : Text → Text) where
  decode_at :
      (input : List ℕ) (n p : ℕ)
      → l.read input ≡ ok (n, p)
      → n ≤ 4096
      → p + n < 2 ^ 64
      → p + n ≤ length input
      → is_utf8 (take (p + n - p) (drop p input)) ≡ true
      → decode_method_name l show_utf8 input
        ≡ ok (take (p + n - p) (drop p input), drop (p + n) input)
  unfolding decode_method_name
  decode_at input n p e small fits within valid =
      rw (e, check_name_len-ok n small, name_end-ok n p (length input) fits within, valid) refl

  take-drop_middle :
      (g name rest : List ℕ)
      → take (length g + length name - length g) (drop (length g) (g ++ (name ++ rest))) ≡ name
  take-drop_middle g name rest = rw (drop-length_append g (name ++ rest)) (
      let e : length g + length name - length g ≡ length name = omega arith in
      rw e (take-length_append name rest))

  drop_both : (g name rest : List ℕ) → drop (length g + length name) (g ++ (name ++ rest)) ≡ rest
  drop_both g name rest =
      rw (← append_assoc g name rest)
        (rw (← length-append g name) (drop-length_append (g ++ name) rest))

  -- `decode_method_name` reads back every valid name of at most 4096 bytes that
  -- `encode_method_name` wrote, behind whatever the buffer held, and leaves what follows it.
  pub decode-encode_method_name :
      (name buf : Text)
      → is_utf8 name ≡ true
      → length name ≤ max_method_name_len
      → (wire : Text) × (encode_method_name l name buf ≡ ok (buf ++ wire))
        × ((rest : List ℕ) → decode_method_name l show_utf8 (wire ++ rest) ≡ ok (name, rest))
  unfolding encode_method_name
  decode-encode_method_name name buf valid small =
      let g = groups 9 (length name) in
      (
        g ++ name,
        rw (write-groups laws (length name) (omega arith)),
        λ rest. rw (append_assoc g name rest) (
            let e : decode_method_name l show_utf8 (g ++ (name ++ rest)) ≡ _ =
              decode_at (g ++ (name ++ rest)) (length name) (length g)
                (laws.read-write (length name) g (name ++ rest) (omega arith)
                  (write-groups laws (length name) (omega arith)))
                small (omega (arith, length-groups 9 (length name)))
                (omega (arith, length-append g (name ++ rest), length-append name rest))
                (rw (take-drop_middle g name rest) valid) in
            rw e (rw (take-drop_middle g name rest, drop_both g name rest) refl)),
      )

  -- `encode_method_name` has no limit of its own: a name of more than 4096 bytes is written, and
  -- `decode_method_name` refuses what was written, whatever follows it and before it looks at it.
  decode-encode_oversized :
      (name buf : Text)
      → max_method_name_len < length name
      → length name < 2 ^ 64
      → (wire : Text) × (encode_method_name l name buf ≡ ok (buf ++ wire))
        × ((rest : List ℕ)
            → decode_method_name l show_utf8 (wire ++ rest)
              ≡ err (
                  malformed_frame (
                    utf8 "method-name length "
                    ++ (decimal (length name) ++ (utf8 " exceeds maximum " ++ decimal 4096)))))
  unfolding encode_method_name decode_method_name
  decode-encode_oversized name buf large fits =
      let g = groups 9 (length name) in
      (
        g ++ name,
        rw (write-groups laws (length name) fits),
        λ rest. rw (append_assoc g name rest) (
            rw
              (
                laws.read-write (length name) g (name ++ rest) fits
                    (write-groups laws (length name) fits),
                check_name_len-err (length name) large,
              )
              refl),
      )

  -- A successful decoding took a length and then as many bytes of valid UTF-8, at most 4096, and
  -- the rest is what the input held behind them.
  decode_method_name_sound :
      (input name rest : List ℕ)
      → decode_method_name l show_utf8 input ≡ ok (name, rest)
      → (p : ℕ) × (l.read input ≡ ok (length name, p))
        × (length name ≤ max_method_name_len)
        × (is_utf8 name ≡ true)
        × (input ≡ take p input ++ (name ++ rest))
  unfolding decode_method_name
  decode_method_name_sound input name rest h =
      let ((n, p), e, h') = >>=-eq-ok (map_err _ (l.read input)) _ h in
      let (small, within, is_name, is_rest, valid) =
        split_name_sound show_utf8 input n p name rest h' in
      let (parts, len) = split_at p n input within in
      let same : p + n - p ≡ n = omega arith in
      let named : name ≡ take n (drop p input) = is_name ∙ rw same refl in
      let counted : length name ≡ n = ap length named ∙ len in
      (
        p,
        map_err-eq-ok _ _ e ∙ rw counted refl,
        omega arith,
        valid,
        parts ∙ rw (named, is_rest) refl,
      )
