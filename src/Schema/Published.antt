-- ===== src/Schema/Published.antt =====
-- What a call of the built-in method returns.
use mathlib.Core.List.{Perm}
use nerw_rpc.Prelude.{ℕ, List, [], append-nil, ◌≡◌, refl, none, some}
use nerw_rpc.Result.{ok, err}
use nerw_rpc.Context.{RpcContext}
use nerw_rpc.Registry.{MethodRegistry, register, lookup, keys, method_names}
use nerw_rpc.Registry.Invariant.{IsPinned, IsRegistry, insert_entry_of_IsPinned, lookup-register}
use nerw_rpc.Registry.Names.{IsSorted, method_names_lem}
use nerw_rpc.External.Postcard.{Postcard, PostcardLaws}
use nerw_rpc.Server.Dispatch.{MethodHandler}
use nerw_rpc.Schema.{
  SchemaResponse, Weak, schema_handler, register_schema_method, method_schema_get, registry_gone,
}

method_schema_get-IsPinned : IsPinned method_schema_get
unfolding nerw_rpc.Method.parse
method_schema_get-IsPinned = (_, _, refl, refl)

module _ {W H : Type 0} {p : Postcard SchemaResponse} (laws : PostcardLaws p) where
  -- The registration of the built-in method never panics, and the method's name then leads to its
  -- handler. Called while the registry is alive, the handler returns bytes that decode to the names
  -- of the registry: all of them, in the order of strings. Called after the registry was dropped, it
  -- returns a handler error. It changes no state.
  pub register_schema_method_lem :
      (registry : MethodRegistry (MethodHandler W) H) (weak : Weak W H)
      (r : MethodRegistry (MethodHandler W) H) (bytes request : List ℕ) (ctx : RpcContext)
      (alive dropped : W)
      → IsRegistry registry
      → weak alive ≡ some r
      → weak dropped ≡ none
      → p.to_allocvec (record { methods = method_names r }) ≡ ok bytes
      → ((s : MethodRegistry (MethodHandler W) H) × (register_schema_method p registry weak ≡ ok s)
          × (lookup method_schema_get s ≡ some (schema_handler p weak)))
        × (schema_handler p weak ctx request alive ≡ (ok bytes, alive))
        × (p.from_bytes bytes ≡ ok (record { methods = method_names r }))
        × IsSorted (method_names r)
        × Perm (method_names r) (keys r.handlers)
        × (schema_handler p weak ctx request dropped ≡ (err registry_gone, dropped))
  unfolding register_schema_method register
  register_schema_method_lem registry weak r bytes request ctx alive dropped v up down encoded =
      let e = insert_entry_of_IsPinned method_schema_get _ registry method_schema_get-IsPinned in
      let (_, found, _, _, _) =
        lookup-register method_schema_get (schema_handler p weak) registry _ v e in
      let (sorted, perm) = method_names_lem r in
      (
        (_, e, found),
        rw (up, encoded) refl,
        rw (append-nil bytes) at
            (laws.from-to (record { methods = method_names r }) bytes [] encoded),
        sorted,
        perm,
        rw down refl,
      )
