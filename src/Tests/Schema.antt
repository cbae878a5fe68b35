-- ===== src/Tests/Schema.antt =====
-- The built-in method at a concrete registry.
use mathlib.Core.List.{Perm}
use nerw_rpc.Prelude.{
  ℕ, List, [], ◌∷◌, ◌++◌, ◌≡◌, refl, ap, ◌∙◌, none, some, Bool, true, false, length,
}
use nerw_rpc.Prelude.Text.{Text, utf8}
use nerw_rpc.Result.{Result, ok, err}
use nerw_rpc.Registry.{MethodRegistry, streaming, new, lookup, keys, method_names}
use nerw_rpc.Registry.Invariant.{IsRegistry-new}
use nerw_rpc.Registry.Names.{IsSorted}
use nerw_rpc.External.Postcard.{Postcard, PostcardLaws}
use nerw_rpc.Server.Dispatch.{MethodHandler}
use nerw_rpc.Schema.{
  SchemaResponse, Weak, schema_handler, register_schema_method, method_schema_get, registry_gone,
}
use nerw_rpc.Schema.Published.{register_schema_method_lem}
use nerw_rpc.Tests.Instances.Postcard.{put_texts, get_texts, put_texts-append, get-put_texts}
use nerw_rpc.Datagram.{build_context}

abbrev pub get_schema : List ℕ → Result Text SchemaResponse
get_schema [] = err (utf8 "Hit the end of buffer, expected more data")
get_schema (n ∷ s) = ok (record { methods = get_texts n s })

abbrev pub schema_codec : Postcard SchemaResponse
schema_codec = record {
  to_allocvec = λ r. ok (length r.methods ∷ put_texts r.methods []);
  from_bytes = get_schema;
}

get-put_schema :
    (ms : List Text) (rest : List ℕ)
    → get_schema ((length ms ∷ put_texts ms []) ++ rest) ≡ ok (record { methods = ms })
get-put_schema ms rest =
    ap (λ s. ok (record { methods = get_texts (length ms) s })) (put_texts-append ms rest)
    ∙ ap (λ ts. ok (record { methods = ts })) (get-put_texts ms rest)

schema_codec_laws : PostcardLaws schema_codec
schema_codec_laws = record {
  from-to = λ r bytes rest h.
      let same : length r.methods ∷ put_texts r.methods [] ≡ bytes = cc in
      rw (← same) (get-put_schema r.methods rest);
}

abbrev pub two_names : MethodRegistry (MethodHandler Bool) ℕ
two_names = record {
  handlers = (utf8 "b:b@1/i/m", streaming 1) ∷ (utf8 "a:a@1/i/m", streaming 2) ∷ [];
}

-- The state tells whether the registry is alive.
abbrev pub weak : Weak Bool ℕ
weak true = some two_names
weak false = none

abbrev answer : List ℕ
answer = 2 ∷ 9 ∷ (utf8 "a:a@1/i/m" ++ (9 ∷ utf8 "b:b@1/i/m"))

register_schema_method_lem_example :
    ((s : MethodRegistry (MethodHandler Bool) ℕ) × (register_schema_method schema_codec new weak
        ≡ ok s)
      × (lookup method_schema_get s ≡ some (schema_handler schema_codec weak)))
    × (schema_handler schema_codec weak (build_context [] [] []) [] true ≡ (ok answer, true))
    × (schema_codec.from_bytes answer ≡ ok (record { methods = method_names two_names }))
    × IsSorted (method_names two_names)
    × Perm (method_names two_names) (keys two_names.handlers)
    × (schema_handler schema_codec weak (build_context [] [] []) [] false
        ≡ (err registry_gone, false))
unfolding method_names
register_schema_method_lem_example =
    register_schema_method_lem schema_codec_laws new weak two_names answer []
      (build_context [] [] []) true false IsRegistry-new refl refl refl
