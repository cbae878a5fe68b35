-- ===== src/Schema.antt =====
-- src/schema.rs: the built-in method that publishes the registered names.
pub mod Published
use nerw_rpc.Prelude.{ℕ, List, Option, none, some}
use nerw_rpc.Prelude.Text.{Text, utf8}
use nerw_rpc.Result.{Result, err, map_err}
use nerw_rpc.Error.{RpcError, RpcResult}
use nerw_rpc.Registry.{MethodRegistry, register, method_names}
use nerw_rpc.External.Postcard.{Postcard}
use nerw_rpc.Server.Dispatch.{MethodHandler}

abbrev pub method_schema_get : Text
method_schema_get = utf8 "nerw:schema@1.0.0/schema/get"

pub record SchemaResponse : Type 0 where
  pub methods : List Text

-- `SchemaError::RegistryGone`, as it is displayed.
abbrev pub registry_gone : RpcError
registry_gone = RpcError.handler (utf8 "method registry has been dropped")

-- `Weak<MethodRegistry>`: what an upgrade finds depends on the state of the application.
abbrev pub Weak : Type 0 → Type 0 → Type 0
Weak W H = W → Option (MethodRegistry (MethodHandler W) H)

module _ {W H : Type 0} (p : Postcard SchemaResponse) where
  -- The answer for what the upgrade found.
  abbrev pub publish : Option (MethodRegistry (MethodHandler W) H) → RpcResult (List ℕ)
  publish (some r) = map_err RpcError.codec (p.to_allocvec (record { methods = method_names r }))
  publish none = err registry_gone

  -- `SchemaHandler::handle`.
  abbrev pub schema_handler : Weak W H → MethodHandler W
  schema_handler weak ctx request w = (publish (weak w), w)

  unfoldable pub register_schema_method :
      MethodRegistry (MethodHandler W) H
      → Weak W H
      → Result Text (MethodRegistry (MethodHandler W) H)
  register_schema_method registry weak = register method_schema_get (schema_handler weak) registry
