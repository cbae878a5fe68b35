-- ===== src/Tests/Names.antt =====
-- Method names and registries at concrete texts.
use mathlib.Core.Path.{subst, sym, ap, ◌∙◌}
use mathlib.Core.Option.{some-injective}
use mathlib.Core.Logic.{inl, inr}
use nerw_rpc.Prelude.Split.{Avoids}
use nerw_rpc.Prelude.{ℕ, ◌≡◌, ◌↔◌, refl, [], ◌∷◌, ◌++◌, none, some, true, arith}
use nerw_rpc.Prelude.Text.{Text, utf8, text_leb}
use nerw_rpc.Result.{ok}
use nerw_rpc.Method.{MethodName, parse, to_canonical}
use nerw_rpc.Method.Grammar.{IsWellFormed, parse_iff}
use nerw_rpc.Registry.{
  HandlerEntry, unary, streaming, MethodRegistry, get, new, register, lookup_entry, lookup,
}
use nerw_rpc.Registry.Order.{Among}
use nerw_rpc.Registry.Invariant.{IsRegistry, IsRegistry-new, lookup-register}
use nerw_rpc.Registry.Resolve.{at, lookup_entry-unpinned}
use nerw_rpc.Registry.Triple.{HasPlainMethods, lookup_entry-same_triple}
use nerw_rpc.Registry.Crossing.{lookup_crosses_interfaces}

abbrev pub send : MethodName
send = record { pkg = utf8 "a:b"; version = none; interface = utf8 "chat"; method = utf8 "send" }

abbrev send_1 : Text
send_1 = utf8 "a:b@1.0.0/chat/send"

pub send-IsWellFormed : IsWellFormed send
send-IsWellFormed = record {
  pkg_filled = λ e. cc;
  pkg_no_at = omega arith;
  pkg_no_slash = omega arith;
  version_good = tt;
  interface_filled = λ e. cc;
  interface_no_slash = omega arith;
  method_filled = λ e. cc;
}

parse_tests :
    (parse (utf8 "a:b/chat/send") ≡ some send)
    × (parse (utf8 "a:b/chat") ≡ none)
    × (parse (utf8 "@1/chat/send") ≡ none)
    × (parse (utf8 "a:b@/chat/send") ≡ none)
    × (parse (utf8 "a:b//send") ≡ none)
    × (parse (utf8 "a:b/chat/") ≡ none)
unfolding parse
parse_tests = (refl, refl, refl, refl, refl, refl)

parse_iff_example :
    (parse (utf8 "a:b/chat/send") ≡ some send)
    ↔ (IsWellFormed send × (utf8 "a:b/chat/send" ≡ to_canonical send))
parse_iff_example = parse_iff (utf8 "a:b/chat/send") send

abbrev one : MethodRegistry ℕ ℕ
one = record { handlers = (send_1, unary 7) ∷ [] }

registered : register {U = ℕ} {S = ℕ} send_1 7 new ≡ ok one
unfolding register parse
registered = refl

one-IsRegistry : IsRegistry one
one-IsRegistry = (lookup-register send_1 7 new one IsRegistry-new registered).0

parsed : parse (utf8 "a:b/chat/send") ≡ some send
unfolding parse
parsed = refl

-- "1.10.0" is below "1.9.0" in the order of strings.
not_semver : text_leb (at send (utf8 "1.10.0")) (at send (utf8 "1.9.0")) ≡ true
unfolding to_canonical
not_semver = refl

abbrev one_stream : MethodRegistry ℕ ℕ
one_stream = record { handlers = (send_1, streaming 8) ∷ [] }

lookup_entry-unpinned_example :
    ((e : HandlerEntry ℕ ℕ)
      → lookup_entry (utf8 "a:b/chat/send") one ≡ some e
      → (v : Text) × (get (at send v) one.handlers ≡ some e)
        × ((w : Text) (d : HandlerEntry ℕ ℕ)
            → get (at send w) one.handlers ≡ some d
            → text_leb (at send w) (at send v) ≡ true))
    × (lookup_entry (utf8 "a:b/chat/send") one ≡ none
        → (w : Text) → get (at send w) one.handlers ≡ none)
lookup_entry-unpinned_example =
    lookup_entry-unpinned one one-IsRegistry (utf8 "a:b/chat/send") send parsed refl

found_7 : lookup_entry (utf8 "a:b/chat/send") one ≡ some (unary 7)
unfolding lookup parse
found_7 = refl

parsed_1 : parse send_1 ≡ some (record send { version = some (utf8 "1.0.0") })
unfolding parse
parsed_1 = refl

one-HasPlainMethods : HasPlainMethods one
one-HasPlainMethods k m a e =
    subst (λ (x : MethodName). Avoids b'/' x.method)
      (some-injective _ _ (sym parsed_1 ∙ ap parse (sym (only a)) ∙ e)) (omega arith)
  where
    only : Among k (send_1 ∷ []) → k ≡ send_1
    only (inl same) = same
    only (inr none_left) = absurd none_left

lookup_entry-same_triple_example :
    (v : Text) × (get (at send v) one.handlers ≡ some (unary 7))
    × (parse (at send v) ≡ some (record send { version = some v }))
lookup_entry-same_triple_example =
    lookup_entry-same_triple one one-IsRegistry (utf8 "a:b/chat/send") send (unary 7)
      one-HasPlainMethods parsed refl found_7

abbrev nested : Text
nested = at send (utf8 "1" ++ (b'/' ∷ utf8 "x"))

abbrev two : MethodRegistry ℕ ℕ
two = record { handlers = (nested, unary 7) ∷ [] }

registered_nested : register {U = ℕ} {S = ℕ} nested 7 new ≡ ok two
unfolding register parse to_canonical
registered_nested = refl

lookup_crosses_interfaces_example :
    (lookup (to_canonical send) two ≡ some 7)
    × (parse nested
        ≡ some (record {
          pkg = utf8 "a:b";
          version = some (utf8 "1");
          interface = utf8 "x";
          method = utf8 "chat/send";
        }))
lookup_crosses_interfaces_example =
    lookup_crosses_interfaces send (utf8 "1") (utf8 "x") 7 two send-IsWellFormed refl
      (λ e. cc, omega arith) (λ e. cc, omega arith) registered_nested
