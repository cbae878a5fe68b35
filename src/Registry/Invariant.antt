-- ===== src/Registry/Invariant.antt =====
-- What every registry built by `register` and `register_streaming` satisfies, and what these do.
use nerw_rpc.Prelude.{
  ◌≡◌, refl, sym, ◌∙◌, ◌↔◌, ◌+◌, ◌≢◌, inl, inr, List, [], ◌∷◌, false, none, some, Bool-cases,
  Option-cases, if◌then◌else◌,
}
use nerw_rpc.Prelude.Text.{Text, text_eq, text_eq_refl, eq_of_text_eq}
use nerw_rpc.Result.{ok, Result-cases}
use nerw_rpc.Method.{MethodName, parse}
use nerw_rpc.Registry.{
  HandlerEntry, unary, streaming, MethodRegistry, get, insert, keys, new, is_some,
  validate_canonical, insert_entry, register, register_streaming, lookup_entry, lookup,
  lookup_streaming, len,
}
use nerw_rpc.Registry.Entries.{Distinct, get-insert, Distinct-insert, length-insert}

-- A name that parses and carries a version.
abbrev pub IsPinned : Text → Type 0
IsPinned k = (n : MethodName) × (v : Text) × (parse k ≡ some n) × (n.version ≡ some v)

abbrev pub AllPinned : List Text → Type 0
AllPinned [] = Unit
AllPinned (k ∷ ks) = IsPinned k × AllPinned ks

-- The keys are distinct, and each is a full name with a version.
pub record IsRegistry {U S : Type 0} (r : MethodRegistry U S) : Type 0 where
  pub distinct : Distinct (keys r.handlers)
  pub pinned : AllPinned (keys r.handlers)

text_ne : (s t : Text) → t ≢ s → text_eq s t ≡ false
text_ne s t ne = elim (Bool-cases (text_eq s t)) [
  | inl e ↦ absurd (ne (sym (eq_of_text_eq s t e)))
  | inr f ↦ f
]

module _ {V : Type 0} where
  AllPinned-insert :
      (k : Text) (v : V) (m : List (Text × V))
      → IsPinned k
      → AllPinned (keys m)
      → AllPinned (keys (insert k v m))
  AllPinned-insert k v [] p h = (p, tt)
  AllPinned-insert k v ((i, w) ∷ m) p (q, h) = elim (Bool-cases (text_eq i k)) [
    | inl t ↦ rw t (p, h)
    | inr f ↦ rw f (q, AllPinned-insert k v m p h)
  ]

validate_iff : (name : Text) → (validate_canonical name ≡ ok tt) ↔ IsPinned name
unfolding validate_canonical
validate_iff name = (accepted, λ (n, v, e, is_v). rw (e, is_v, validate_canonical) refl)
  where
    accepted : validate_canonical name ≡ ok tt → IsPinned name
    accepted h = elim (Option-cases (parse name)) [
      | inl e ↦ cc (rw (e, validate_canonical) at h)
      | inr (n, e) ↦ elim (Option-cases n.version) [
        | inl e' ↦ cc (rw e' at (rw (e, validate_canonical) at h))
        | inr (v, e') ↦ (n, v, e, e')
      ]
    ]

module _ {U S : Type 0} where
  pub IsRegistry-new : IsRegistry (new {U = U} {S = S})
  IsRegistry-new = record { distinct = tt; pinned = tt }

  pub insert_entry-ok :
      (name : Text) (entry : HandlerEntry U S) (r r' : MethodRegistry U S)
      → insert_entry name entry r ≡ ok r'
      → IsPinned name × (r' ≡ record { handlers = insert name entry r.handlers })
  unfolding insert_entry
  insert_entry-ok name entry r r' h = elim (Result-cases (validate_canonical name)) [
    | inl (u, e) ↦ ((validate_iff name).0 e, cc (rw (e, insert_entry) at h))
    | inr (p, e) ↦ cc (rw (e, insert_entry) at h)
  ]

  pub insert_entry_of_IsPinned :
      (name : Text) (entry : HandlerEntry U S) (r : MethodRegistry U S)
      → IsPinned name
      → insert_entry name entry r ≡ ok (record { handlers = insert name entry r.handlers })
  unfolding insert_entry
  insert_entry_of_IsPinned name entry r p = rw ((validate_iff name).1 p, insert_entry) refl

  insert_entry-IsRegistry :
      (name : Text) (entry : HandlerEntry U S) (r r' : MethodRegistry U S)
      → insert_entry name entry r ≡ ok r'
      → IsRegistry r
      → IsRegistry r'
  insert_entry-IsRegistry name entry r r' h v =
      let (p, e) = insert_entry-ok name entry r r' h in
      rw e (record {
        distinct = Distinct-insert name entry r.handlers v.distinct;
        pinned = AllPinned-insert name entry r.handlers p v.pinned;
      })

  -- A name with a version is looked up as it stands, with no fallback to another version.
  lookup_entry-pinned :
      (name : Text) (r : MethodRegistry U S)
      → IsPinned name
      → lookup_entry name r ≡ get name r.handlers
  unfolding lookup_entry
  lookup_entry-pinned name r (n, v, e, is_v) = elim (Option-cases (get name r.handlers)) [
    | inl missing ↦ rw (missing, e, is_v, lookup_entry) refl
    | inr (h, found) ↦ rw (found, lookup_entry) refl
  ]

  insert_entry_lookup :
      (name j : Text) (entry : HandlerEntry U S) (r r' : MethodRegistry U S)
      → insert_entry name entry r ≡ ok r'
      → IsPinned j
      → lookup_entry j r' ≡ (if text_eq name j then some entry else lookup_entry j r)
  insert_entry_lookup name j entry r r' h p =
      let (_, e) = insert_entry-ok name entry r r' h in
      rw (e, lookup_entry-pinned j r p)
        (lookup_entry-pinned j _ p ∙ get-insert name j entry r.handlers)

  insert_entry-len :
      (name : Text) (entry : HandlerEntry U S) (r r' : MethodRegistry U S)
      → insert_entry name entry r ≡ ok r'
      → len r' ≡ (if is_some (get name r.handlers) then len r else len r + 1)
  insert_entry-len name entry r r' h =
      let (_, e) = insert_entry-ok name entry r r' h in rw e (length-insert name entry r.handlers)

  -- `register` and `register_streaming` panic on every name but those that parse and carry a
  -- version, and on these they return a registry.
  register_iff :
      (name : Text) (h : U) (k : S) (r : MethodRegistry U S)
      → (((r' : MethodRegistry U S) × (register name h r ≡ ok r')) ↔ IsPinned name)
        × (((r' : MethodRegistry U S) × (register_streaming name k r ≡ ok r')) ↔ IsPinned name)
  unfolding register register_streaming
  register_iff name h k r = (
    (
      (λ (r', e). (insert_entry-ok name (unary h) r r' e).0),
      (λ p. (_, insert_entry_of_IsPinned name (unary h) r p)),
    ),
    (
      (λ (r', e). (insert_entry-ok name (streaming k) r r' e).0),
      (λ p. (_, insert_entry_of_IsPinned name (streaming k) r p)),
    ),
  )

  -- After a unary registration the registry is still well formed, the name leads to the handler as
  -- a unary method and to nothing as a streaming one, every other name with a version leads where
  -- it led, and the size grows by one unless the name was taken.
  pub lookup-register :
      (name : Text) (h : U) (r r' : MethodRegistry U S)
      → IsRegistry r
      → register name h r ≡ ok r'
      → IsRegistry r'
        × (lookup name r' ≡ some h)
        × (lookup_streaming name r' ≡ none)
        × ((j : Text) → IsPinned j → j ≢ name → lookup_entry j r' ≡ lookup_entry j r)
        × (len r' ≡ (if is_some (get name r.handlers) then len r else len r + 1))
  unfolding register lookup lookup_streaming
  lookup-register name h r r' v e =
      let (p, _) = insert_entry-ok name (unary h) r r' e in
      let found : lookup_entry name r' ≡ some (unary h) =
        insert_entry_lookup name name (unary h) r r' e p ∙ rw (text_eq_refl name) refl in
      (
        insert_entry-IsRegistry name (unary h) r r' e v,
        rw (found, lookup) refl,
        rw (found, lookup_streaming) refl,
        λ j q ne. insert_entry_lookup name j (unary h) r r' e q ∙ rw (text_ne name j ne) refl,
        insert_entry-len name (unary h) r r' e,
      )

  -- After a streaming registration the registry is still well formed, the name leads to the
  -- handler as a streaming method and to nothing as a unary one, every other name with a version
  -- leads where it led, and the size grows by one unless the name was taken.
  pub lookup-register_streaming :
      (name : Text) (k : S) (r r' : MethodRegistry U S)
      → IsRegistry r
      → register_streaming name k r ≡ ok r'
      → IsRegistry r'
        × (lookup_streaming name r' ≡ some k)
        × (lookup name r' ≡ none)
        × ((j : Text) → IsPinned j → j ≢ name → lookup_entry j r' ≡ lookup_entry j r)
        × (len r' ≡ (if is_some (get name r.handlers) then len r else len r + 1))
  unfolding register_streaming lookup lookup_streaming
  lookup-register_streaming name k r r' v e =
      let (p, _) = insert_entry-ok name (streaming k) r r' e in
      let found : lookup_entry name r' ≡ some (streaming k) =
        insert_entry_lookup name name (streaming k) r r' e p ∙ rw (text_eq_refl name) refl in
      (
        insert_entry-IsRegistry name (streaming k) r r' e v,
        rw (found, lookup_streaming) refl,
        rw (found, lookup) refl,
        λ j q ne. insert_entry_lookup name j (streaming k) r r' e q ∙ rw (text_ne name j ne) refl,
        insert_entry-len name (streaming k) r r' e,
      )
