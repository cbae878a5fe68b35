-- ===== src/Tests/Instances/Codecs.antt =====
-- A codec for the bodies of a streaming call, on that for texts.
use nerw_rpc.Prelude.{ℕ, List, [], ◌∷◌, ◌++◌, ◌≡◌, refl, Bool, true, false, if◌then◌else◌, ◌==◌}
use nerw_rpc.Prelude.Text.{Text, utf8}
use nerw_rpc.Result.{Result, ok, err}
use nerw_rpc.Streaming.{
  StreamingOpenRequest, StreamingOpenStatus, StreamingOpenResponse, StreamingError, Codecs,
  accepted, rejected,
}
use nerw_rpc.Streaming.Format.{CodecsLaws}
use nerw_rpc.Tests.Instances.Postcard.{put_text, get_text, first_text, later_text}

-- A value made of the element at the start.
abbrev with_head : {A : Type 0} → (ℕ → A) → List ℕ → Result Text A
with_head f [] = err (utf8 "Hit the end of buffer, expected more data")
with_head f (n ∷ s) = ok (f n)

abbrev make_request : Text → ℕ → StreamingOpenRequest
make_request name id = record { method_name = name; request_id = id }

abbrev make_response : StreamingOpenStatus → ℕ → StreamingOpenResponse
make_response st id = record { status = st; request_id = id }

abbrev make_error : Text → ℕ → StreamingError
make_error shown flag = record { message = shown; terminal = flag == 1 }

abbrev put_status : StreamingOpenStatus → List ℕ → List ℕ
put_status accepted rest = 0 ∷ rest
put_status (rejected reason) rest = 1 ∷ put_text reason rest

abbrev get_response : List ℕ → Result Text StreamingOpenResponse
get_response [] = err (utf8 "Hit the end of buffer, expected more data")
get_response (tag ∷ s) =
    if tag == 0
    then with_head (make_response accepted) s
    else with_head (make_response (rejected (get_text s).0)) (get_text s).1

abbrev pub codecs : Codecs
codecs = record {
  open_request = record {
    to_allocvec = λ b. ok (put_text b.method_name (b.request_id ∷ []));
    from_bytes = λ s. with_head (make_request (get_text s).0) (get_text s).1;
  };
  open_response = record {
    to_allocvec = λ b. ok (put_status b.status (b.request_id ∷ []));
    from_bytes = get_response;
  };
  error = record {
    to_allocvec = λ b. ok (put_text b.message ((if b.terminal then 1 else 0) ∷ []));
    from_bytes = λ s. with_head (make_error (get_text s).0) (get_text s).1;
  };
}

get-put_request :
    (b : StreamingOpenRequest) (rest : List ℕ)
    → codecs.open_request.from_bytes (put_text b.method_name (b.request_id ∷ []) ++ rest) ≡ ok b
get-put_request b rest =
    rw
      (
        first_text b.method_name (b.request_id ∷ []) rest,
        later_text b.method_name (b.request_id ∷ []) rest,
      )
      refl

get-put_response :
    (st : StreamingOpenStatus) (id : ℕ) (rest : List ℕ)
    → get_response (put_status st (id ∷ []) ++ rest) ≡ ok (make_response st id)
get-put_response accepted id rest = refl
get-put_response (rejected reason) id rest =
    rw (first_text reason (id ∷ []) rest, later_text reason (id ∷ []) rest) refl

get-put_stream_error :
    (shown : Text) (t : Bool) (rest : List ℕ)
    → codecs.error.from_bytes (put_text shown ((if t then 1 else 0) ∷ []) ++ rest)
      ≡ ok (record { message = shown; terminal = t })
get-put_stream_error shown true rest =
    rw (first_text shown (1 ∷ []) rest, later_text shown (1 ∷ []) rest) refl
get-put_stream_error shown false rest =
    rw (first_text shown (0 ∷ []) rest, later_text shown (0 ∷ []) rest) refl

pub codecs_laws : CodecsLaws codecs
codecs_laws = record {
  open_request = record {
    from-to = λ b bytes rest h.
        let same : put_text b.method_name (b.request_id ∷ []) ≡ bytes = cc in
        rw (← same) (get-put_request b rest);
  };
  open_response = record {
    from-to = λ b bytes rest h.
        let same : put_status b.status (b.request_id ∷ []) ≡ bytes = cc in
        rw (← same) (get-put_response b.status b.request_id rest);
  };
  error = record {
    from-to = λ b bytes rest h.
        let same : put_text b.message ((if b.terminal then 1 else 0) ∷ []) ≡ bytes = cc in
        rw (← same) (get-put_stream_error b.message b.terminal rest);
  };
}
