-- ===== src/Registry.antt =====
-- src/method.rs and src/streaming.rs: the method registry. `U` and `S` are the types of the unary
-- and the streaming handlers, which the application implements.
pub mod Order
pub mod Entries
pub mod Invariant
pub mod Resolve
pub mod Triple
pub mod Names
pub mod Crossing
pub mod Versions
pub mod Registration
use nerw_rpc.Prelude.{
  ℕ, List, [], ◌∷◌, ◌++◌, Option, none, some, Bool, true, false, ◌&&◌, if◌then◌else◌, length,
}
use nerw_rpc.Prelude.Text.{Text, utf8, text_eq, text_leb, starts_with, ends_with}
use nerw_rpc.Result.{Result, ok, err}
use nerw_rpc.Method.{MethodName, parse, ◌>>=◌}

pub data HandlerEntry (U S : Type 0) : Type 0 where
  unary : U → HandlerEntry U S
  streaming : S → HandlerEntry U S

abbrev pub is_streaming : {U S : Type 0} → HandlerEntry U S → Bool
is_streaming (streaming _) = true
is_streaming (unary _) = false

-- `HashMap<String, HandlerEntry>`, as the list of its entries.
abbrev pub HandlerMap : Type 0 → Type 0 → Type 0
HandlerMap U S = List (Text × HandlerEntry U S)

pub record MethodRegistry (U S : Type 0) : Type 0 where
  pub handlers : HandlerMap U S

-- `HashMap::get`, `HashMap::insert` and `HashMap::keys`.
module _ {V : Type 0} where
  abbrev pub get : Text → List (Text × V) → Option V
  get k [] = none
  get k ((j, v) ∷ m) = if text_eq j k then some v else get k m

  abbrev pub insert : Text → V → List (Text × V) → List (Text × V)
  insert k v [] = (k, v) ∷ []
  insert k v ((j, w) ∷ m) = if text_eq j k then (k, v) ∷ m else (j, w) ∷ insert k v m

  abbrev pub keys : List (Text × V) → List Text
  keys [] = []
  keys ((k, _) ∷ m) = k ∷ keys m

abbrev pub filter : (Text → Bool) → List Text → List Text
filter p [] = []
filter p (k ∷ ks) = let rest = filter p ks in if p k then k ∷ rest else rest

-- `Iterator::max`: of equal elements the last.
abbrev pub max_from : Text → List Text → Text
max_from best [] = best
max_from best (k ∷ ks) = max_from (if text_leb best k then k else best) ks

abbrev pub max_key : List Text → Option Text
max_key [] = none
max_key (k ∷ ks) = some (max_from k ks)

abbrev pub is_some : {A : Type 0} → Option A → Bool
is_some none = false
is_some (some _) = true

abbrev prefix : MethodName → Text
prefix parsed = parsed.pkg ++ (b'@' ∷ [])

abbrev suffix : MethodName → Text
suffix parsed = b'/' ∷ (parsed.interface ++ (b'/' ∷ parsed.method))

-- The test on a key in the resolution of a name without a version.
abbrev matches : MethodName → Text → Bool
matches parsed k = starts_with (prefix parsed) k && ends_with (suffix parsed) k

-- `err` is a panic, with its message.
pub validate_canonical : Text → Result Text (Unit {0})
validate_canonical canonical_name = elim (parse canonical_name) [
  | none ↦ err (utf8 "invalid method name: " ++ canonical_name)
  | some parsed ↦
      if is_some parsed.version
      then ok tt
      else err (utf8 "registered handlers must include version: got " ++ canonical_name)
]

module _ {U S : Type 0} where
  abbrev pub new : MethodRegistry U S
  new = record { handlers = [] }

  pub insert_entry : Text → HandlerEntry U S → MethodRegistry U S → Result Text (MethodRegistry U S)
  insert_entry canonical_name entry self = elim (validate_canonical canonical_name) [
    | ok _ ↦ ok (record { handlers = insert canonical_name entry self.handlers })
    | err panic ↦ err panic
  ]

  unfoldable pub register : Text → U → MethodRegistry U S → Result Text (MethodRegistry U S)
  unfolding insert_entry validate_canonical
  register canonical_name handler self = insert_entry canonical_name (unary handler) self

  unfoldable pub register_streaming :
      Text → S → MethodRegistry U S → Result Text (MethodRegistry U S)
  unfolding insert_entry validate_canonical
  register_streaming canonical_name handler self =
      insert_entry canonical_name (streaming handler) self

  unfoldable pub resolve : MethodName → HandlerMap U S → Option (HandlerEntry U S)
  resolve parsed handlers = do
    max ← max_key (filter (matches parsed) (keys handlers))
    get max handlers

  unfoldable pub lookup_entry : Text → MethodRegistry U S → Option (HandlerEntry U S)
  lookup_entry name self = elim (get name self.handlers) [
    | some h ↦ some h
    | none ↦ elim (parse name) [
      | none ↦ none
      | some parsed ↦ if is_some parsed.version then none else resolve parsed self.handlers
    ]
  ]

  unfoldable pub lookup : Text → MethodRegistry U S → Option U
  unfolding lookup_entry resolve
  lookup name self = elim (lookup_entry name self) [
    | none ↦ none
    | some (unary h) ↦ some h
    | some (streaming _) ↦ none
  ]

  unfoldable pub lookup_streaming : Text → MethodRegistry U S → Option S
  unfolding lookup_entry resolve
  lookup_streaming name self = elim (lookup_entry name self) [
    | none ↦ none
    | some (streaming h) ↦ some h
    | some (unary _) ↦ none
  ]

  abbrev pub is_empty : MethodRegistry U S → Bool
  is_empty self = elim self.handlers [ [] ↦ true | _ ↦ false ]

  abbrev pub len : MethodRegistry U S → ℕ
  len self = length self.handlers

-- `names.sort()`.
abbrev pub insert_sorted : Text → List Text → List Text
insert_sorted k [] = k ∷ []
insert_sorted k (j ∷ js) = if text_leb k j then k ∷ j ∷ js else j ∷ insert_sorted k js

abbrev pub sort : List Text → List Text
sort [] = []
sort (k ∷ ks) = insert_sorted k (sort ks)

unfoldable pub method_names : {U S : Type 0} → MethodRegistry U S → List Text
method_names self = sort (keys self.handlers)
