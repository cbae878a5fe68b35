-- ===== src/Tests/Instances/Postcard.antt =====
-- A codec for the bodies of the wire: postcard's, with lengths in one element.
use nerw_rpc.Prelude.{
  ℕ, zero, suc, List, [], ◌∷◌, ◌++◌, append_assoc, ◌≡◌, refl, ap, ◌∙◌, if◌then◌else◌, ◌==◌, length,
  take, drop, take-length_append, drop-length_append,
}
use nerw_rpc.Prelude.Text.{Text, utf8}
use nerw_rpc.Result.{Result, ok, err}
use nerw_rpc.WireError.{WireError}
use nerw_rpc.External.Postcard.{Postcard, PostcardLaws}

abbrev pub put_text : Text → List ℕ → List ℕ
put_text t rest = length t ∷ (t ++ rest)

-- The text at the start and what follows it.
abbrev pub get_text : List ℕ → Text × List ℕ
get_text [] = ([], [])
get_text (n ∷ s) = (take n s, drop n s)

get-put_text : (t rest : List ℕ) → get_text (put_text t rest) ≡ (t, rest)
get-put_text t rest = rw (take-length_append t rest, drop-length_append t rest) refl

abbrev pub put_texts : List Text → List ℕ → List ℕ
put_texts [] rest = rest
put_texts (t ∷ ts) rest = put_text t (put_texts ts rest)

abbrev pub get_texts : ℕ → List ℕ → List Text
get_texts zero s = []
get_texts (suc n) s = let more = get_texts n (get_text s).1 in (get_text s).0 ∷ more

pub get-put_texts :
    (ts : List Text) (rest : List ℕ) → get_texts (length ts) (put_texts ts rest) ≡ ts
get-put_texts [] rest = refl
get-put_texts (t ∷ ts) rest =
    rw (take-length_append t (put_texts ts rest), drop-length_append t (put_texts ts rest))
      (ap (λ (l : List Text). t ∷ l) (get-put_texts ts rest))

abbrev put_error : WireError → List ℕ → List ℕ
put_error (WireError.unknown_method a) rest = 0 ∷ put_text a rest
put_error (WireError.version_mismatch a bs) rest = 1 ∷ put_text a (length bs ∷ put_texts bs rest)
put_error (WireError.invalid_method_name a) rest = 2 ∷ put_text a rest
put_error (WireError.malformed_frame a) rest = 3 ∷ put_text a rest
put_error (WireError.handler_error a) rest = 4 ∷ put_text a rest
put_error (WireError.codec a) rest = 5 ∷ put_text a rest

abbrev counted : Text → List ℕ → Result Text WireError
counted a [] = err (utf8 "Hit the end of buffer, expected more data")
counted a (n ∷ s) = ok (WireError.version_mismatch a (get_texts n s))

abbrev by_tag : ℕ → List ℕ → Result Text WireError
by_tag tag s =
    if tag == 0
    then ok (WireError.unknown_method (get_text s).0)
    else if tag == 1
    then counted (get_text s).0 (get_text s).1
    else if tag == 2
    then ok (WireError.invalid_method_name (get_text s).0)
    else if tag == 3
    then ok (WireError.malformed_frame (get_text s).0)
    else if tag == 4
    then ok (WireError.handler_error (get_text s).0)
    else if tag == 5
    then ok (WireError.codec (get_text s).0)
    else err (utf8 "Found an enum discriminant that was not expected")

abbrev get_error : List ℕ → Result Text WireError
get_error [] = err (utf8 "Hit the end of buffer, expected more data")
get_error (tag ∷ s) = by_tag tag s

abbrev pub wire_error : Postcard WireError
wire_error = record { to_allocvec = λ e. ok (put_error e []); from_bytes = get_error }

-- The bytes that follow a value only move behind what is written.
pub put_texts-append :
    (ts : List Text) (rest : List ℕ) → put_texts ts [] ++ rest ≡ put_texts ts rest
put_texts-append [] rest = refl
put_texts-append (t ∷ ts) rest =
    ap (λ s. length t ∷ s)
      (append_assoc t (put_texts ts []) rest ∙ ap (λ s. t ++ s) (put_texts-append ts rest))

put_text-append : (t s rest : List ℕ) → put_text t s ++ rest ≡ put_text t (s ++ rest)
put_text-append t s rest = ap (λ u. length t ∷ u) (append_assoc t s rest)

pub first_text : (t s rest : List ℕ) → (get_text (put_text t s ++ rest)).0 ≡ t
first_text t s rest =
    ap (λ u. (get_text u).0) (put_text-append t s rest) ∙ take-length_append t (s ++ rest)

pub later_text : (t s rest : List ℕ) → (get_text (put_text t s ++ rest)).1 ≡ s ++ rest
later_text t s rest =
    ap (λ u. (get_text u).1) (put_text-append t s rest) ∙ drop-length_append t (s ++ rest)

get-put_error : (e : WireError) (rest : List ℕ) → get_error (put_error e [] ++ rest) ≡ ok e
get-put_error (WireError.unknown_method a) rest = rw (first_text a [] rest) refl
get-put_error (WireError.version_mismatch a bs) rest =
    let s = length bs ∷ put_texts bs [] in
    rw (first_text a s rest, later_text a s rest)
      (rw (put_texts-append bs rest, get-put_texts bs rest) refl)
get-put_error (WireError.invalid_method_name a) rest = rw (first_text a [] rest) refl
get-put_error (WireError.malformed_frame a) rest = rw (first_text a [] rest) refl
get-put_error (WireError.handler_error a) rest = rw (first_text a [] rest) refl
get-put_error (WireError.codec a) rest = rw (first_text a [] rest) refl

pub wire_error_laws : PostcardLaws wire_error
wire_error_laws = record {
  from-to = λ e bytes rest h.
      let same : put_error e [] ≡ bytes = cc in rw (← same) (get-put_error e rest);
}

pub encodes : (e : WireError) → (body : List ℕ) × (wire_error.to_allocvec e ≡ ok body)
encodes e = (put_error e [], refl)
